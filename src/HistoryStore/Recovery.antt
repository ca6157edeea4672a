-- ===== src/HistoryStore/Recovery.antt =====
-- `Append` and `Load` of a `HistoryStore` without a database (terminal/log.go), whichever of their
-- steps on the file fail.
use nbterminal.Base.{
  take-append_at, take_all, take-append_le, length-take_le, ℕ, zero, suc, ◌<◌, ◌≡◌, refl, sym, ap,
  ◌∙◌, subst, false, Option, none, some, List, [], ◌∷◌, ◌++◌, length, take, is_nil, All,
  All-append_end, Bool-cases, inl, inr, ◌⊎◌, arith, append_nil, length-append, ltb, ltb→lt,
  not_ltb→le,
}
use nbterminal.HistoryStore.Entry.{Bytes}
use nbterminal.HistoryStore.File.{
  newline, FileStep, mkdir, open_file, chmod, marshal, write, sync, close, HistoryError, Faults,
  Json,
}
use nbterminal.HistoryStore.Append.{
  Outcome, or_empty, attempt, write_end, sync_file, encode_entry, append_file, opened,
}
use nbterminal.HistoryStore.Lines.{take-IsPlain, IsRecord, file_of}
use nbterminal.HistoryStore.Shapes.{Shape, absent, clean, torn, whole, file, log, IsShape}
use nbterminal.HistoryStore.Tails.{file_of-append}
use nbterminal.HistoryStore.Repair.{attempt-elim, Failed, Holds, Prepared, prepare-Shape}

is_nil-take : (n : ℕ) (s : Bytes) → n < length s → is_nil (take (suc n) s) ≡ false
is_nil-take n [] h = absurd (omega arith)
is_nil-take n (b ∷ s) h = refl

module _ {Entry : Type 0} (json : Json Entry) where
  abbrev added : List Entry → Entry → List Entry
  added es e = es ++ e ∷ []

  -- The log is what it was, or has the entry at its end.
  abbrev pub HoldsEither : Bytes → List Entry → Entry → Type 0
  HoldsEither s es e = Holds json s es ⊎ Holds json s (added es e)

  -- A record of which the first `n` bytes have been written.
  cut-HoldsEither :
      (n : ℕ) (es : List Entry) (e : Entry)
      → All (IsRecord json) es
      → IsRecord json e
      → HoldsEither (file_of json es ++ take n (json.encode e ++ newline ∷ [])) es e
  cut-HoldsEither zero es e h r = inl (clean es, h, sym (append_nil _), refl)
  cut-HoldsEither (suc n) es e h r =
      let l = json.encode e in
      let a = length-append l (newline ∷ []) in
      elim (Bool-cases (ltb (suc n) (length l))) [
        | inl lt ↦
            let k = ltb→lt (suc n) (length l) lt in
            inl (
              torn es (take (suc n) l),
              (
                h,
                record {
                  one_line = take-IsPlain (suc n) l r.one_line;
                  fits = omega (arith, length-take_le (suc n) l, r.fits);
                  not_empty = is_nil-take n l (omega arith);
                  is_invalid = r.cut_is_invalid (suc n) k;
                },
              ),
              ap (λ t. file_of json es ++ t)
                  (sym (take-append_le (suc n) l (newline ∷ []) (omega arith))),
              refl,
            )
        | inr ge ↦
            let k = not_ltb→le (suc n) (length l) ge in
            inr (elim (Bool-cases (ltb (length l) (suc n))) [
              | inr eq ↦
                  let j = not_ltb→le (length l) (suc n) eq in
                  (
                    whole es e,
                    (h, r),
                    ap (λ t. file_of json es ++ t)
                        (sym (take-append_at (suc n) l (newline ∷ []) (omega arith))),
                    refl,
                  )
              | inl gt ↦
                  let j = ltb→lt (length l) (suc n) gt in
                  (
                    clean (added es e),
                    All-append_end (IsRecord json) es e h r,
                    file_of-append json es e
                        ∙ ap (λ t. file_of json es ++ t)
                            (sym (take_all (suc n) (l ++ newline ∷ []) (omega arith))),
                    refl,
                  )
            ])
      ]

  -- The record is in the file and the file is clean, or a step has failed and the log holds.
  abbrev Appended : Faults → List Entry → Entry → Outcome → Type 0
  Appended faults es e o =
      ((o.0 ≡ none) × (o.1 ≡ file_of json (added es e)))
      ⊎ (Failed faults o.0 × HoldsEither o.1 es e)

  added-clean :
      (es : List Entry) (e : Entry)
      → All (IsRecord json) es
      → IsRecord json e
      → HoldsEither (file_of json (added es e)) es e
  added-clean es e h r =
      inr (clean (added es e), All-append_end (IsRecord json) es e h r, refl, refl)

  module _ (faults : Faults) (e : Entry) (r : IsRecord json e) where
    append_step :
        (step : FileStep) (s : Bytes) (es : List Entry) (rest : Outcome)
        → HoldsEither s es e
        → Appended faults es e rest
        → Appended faults es e (attempt faults step s rest)
    append_step step s es rest h p =
        attempt-elim (Appended faults es e) faults step s rest (λ q. inr ((step, q, refl), h)) p

    written-Appended :
        (es : List Entry)
        → All (IsRecord json) es
        → Appended faults es e (
            sync_file json faults
              (write_end faults (file_of json es) (json.encode e ++ newline ∷ [])))
    written-Appended es h =
        attempt-elim (λ o. Appended faults es e (sync_file json faults o)) faults write
          (file_of json es ++ take faults.torn (json.encode e ++ newline ∷ []))
          (none, file_of json es ++ (json.encode e ++ newline ∷ []))
          (λ q. inr ((write, q, refl), cut-HoldsEither faults.torn es e h r))
          (rw (sym (file_of-append json es e)) (
            append_step sync (file_of json (added es e)) es _ (added-clean es e h r) (
              append_step close (file_of json (added es e)) es _ (added-clean es e h r)
                (inl (refl, refl)))))

    encode-Appended :
        (es : List Entry) (o : Outcome)
        → Prepared json faults es o
        → Appended faults es e (encode_entry json faults e o)
    encode-Appended es (some err, s) (inl (n, q, h)) = cc
    encode-Appended es (some err, s) (inr (f, h)) = inr (f, inl h)
    encode-Appended es (none, s) (inr ((step, q, n), h)) = cc
    encode-Appended es (none, s) (inl (n, q, h)) =
        subst (λ t. Appended faults es e (encode_entry json faults e (none, t))) (sym q)
          (append_step marshal (file_of json es) es _ (inl (clean es, h, refl, refl))
            (written-Appended es h))

  -- The same of a file, which may not exist.
  abbrev pub Keeps : Option Bytes → List Entry → Type 0
  Keeps f es = (sh : Shape Entry) × IsShape json sh × (file json sh ≡ f) × (log sh ≡ es)

  Holds-opened : (s : Bytes) (es : List Entry) → Holds json s es → Keeps (some s) es
  Holds-opened s es (absent, h, q, l) = (clean [], tt, ap some q, l)
  Holds-opened s es (clean fs, h, q, l) = (clean fs, h, ap some q, l)
  Holds-opened s es (torn fs p, h, q, l) = (torn fs p, h, ap some q, l)
  Holds-opened s es (whole fs e, h, q, l) = (whole fs e, h, ap some q, l)

  -- `Append` has recorded the entry, or it returns the error of a step that has failed and the entry
  -- is recorded or not.
  abbrev pub Recorded : Faults → List Entry → Entry → Option HistoryError × Option Bytes → Type 0
  Recorded faults es e (r, f) =
      ((r ≡ none) × Keeps f (added es e)) ⊎ (Failed faults r × (Keeps f es ⊎ Keeps f (added es e)))

  opened-Recorded :
      (faults : Faults) (es : List Entry) (e : Entry) (o : Outcome)
      → All (IsRecord json) es
      → IsRecord json e
      → Appended faults es e o
      → Recorded faults es e (opened o)
  opened-Recorded faults es e (x, s) h r (inl (n, q)) =
      inl (n, (clean (added es e), All-append_end (IsRecord json) es e h r, ap some (sym q), refl))
  opened-Recorded faults es e (x, s) h r (inr (f, inl k)) = inr (f, inl (Holds-opened s es k))
  opened-Recorded faults es e (x, s) h r (inr (f, inr k)) =
      inr (f, inr (Holds-opened s (added es e) k))

  log-All : (sh : Shape Entry) → IsShape json sh → All (IsRecord json) (log sh)
  log-All absent h = tt
  log-All (clean es) h = h
  log-All (torn es p) h = h.0
  log-All (whole es e) (h, r) = All-append_end (IsRecord json) es e h r

  -- Whatever the file holds, and whichever step fails.
  pub append-Recorded :
      (faults : Faults) (sh : Shape Entry) (e : Entry)
      → IsShape json sh
      → IsRecord json e
      → Recorded faults (log sh) e (append_file json faults (file json sh) e)
  unfolding append_file
  append-Recorded faults sh e h r = elim (Bool-cases (faults.fails mkdir)) [
    | inl q ↦ rw q (inr ((mkdir, q, refl), inl (sh, h, refl, refl)))
    | inr q ↦ rw q (elim (Bool-cases (faults.fails open_file)) [
      | inl t ↦ rw t (inr ((open_file, t, refl), inl (sh, h, refl, refl)))
      | inr t ↦ rw t (
          opened-Recorded faults (log sh) e _ (log-All sh h) r (
            append_step faults e r chmod (or_empty (file json sh)) (log sh) _
              (inl (sh, h, refl, refl))
              (encode-Appended faults e r (log sh) _ (prepare-Shape json faults sh h))))
    ])
  ]
