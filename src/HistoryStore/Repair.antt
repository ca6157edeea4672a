-- ===== src/HistoryStore/Repair.antt =====
-- What `prepareHistoryAppend` (terminal/log.go) makes of every content that the file can have.
use nbterminal.Base.{
  take-append_at, ℕ, zero, suc, ◌-◌, ◌≡◌, refl, sym, ap, ◌∙◌, subst, true, false, ◌&&◌, Option,
  none, some, List, [], ◌∷◌, ◌++◌, if◌then◌else◌, length, take, drop, is_nil, All, All-append_end,
  Bool-cases, inl, inr, ◌⊎◌, arith, append_assoc, append_nil, ltb, length-append,
}
use nbterminal.HistoryStore.Entry.{Bytes}
use nbterminal.HistoryStore.File.{
  newline, FileStep, stat, read_at, seek, truncate_file, write, HistoryError, failed, Faults,
  split_lines, ends_with_newline, Json,
}
use nbterminal.HistoryStore.Append.{
  Outcome, or_empty, attempt, write_end, tail_start, repair, prepare_history_append,
}
use nbterminal.HistoryStore.Lines.{IsRecord, file_of, is_nil-append}
use nbterminal.HistoryStore.Shapes.{Shape, absent, clean, torn, whole, file, log, IsShape}
use nbterminal.HistoryStore.Tails.{file_of-append, ReadsPart, reads_file}

pub attempt-elim {ℓ} :
    (P : Outcome → Type ℓ) (faults : Faults) (step : FileStep) (s : Bytes) (rest : Outcome)
    → (faults.fails step ≡ true → P (some (failed step), s))
    → P rest
    → P (attempt faults step s rest)
attempt-elim P faults step s rest f g = elim (Bool-cases (faults.fails step)) [
  | inl e ↦ rw e (f e)
  | inr e ↦ rw e g
]

-- A step has failed with the error that is returned.
abbrev pub Failed : Faults → Option HistoryError → Type 0
Failed faults r = (step : FileStep) × (faults.fails step ≡ true) × (r ≡ some (failed step))

module _ {Entry : Type 0} (json : Json Entry) where
  -- The content is one of those that are possible, with this log.
  abbrev pub Holds : Bytes → List Entry → Type 0
  Holds s es = (sh : Shape Entry) × IsShape json sh × (or_empty (file json sh) ≡ s) × (log sh ≡ es)

  -- The file is ready for a record, or a step has failed and the log is the same.
  abbrev pub Prepared : Faults → List Entry → Outcome → Type 0
  Prepared faults es o =
      ((o.0 ≡ none) × (o.1 ≡ file_of json es) × All (IsRecord json) es)
      ⊎ (Failed faults o.0 × Holds o.1 es)

  module _ (faults : Faults) where
    -- A step of the preparation, where the file holds `s`.
    prepare_step :
        (step : FileStep) (s : Bytes) (es : List Entry) (rest : Outcome)
        → Holds s es
        → Prepared faults es rest
        → Prepared faults es (attempt faults step s rest)
    prepare_step step s es rest h p =
        attempt-elim (Prepared faults es) faults step s rest (λ e. inr ((step, e, refl), h)) p

    abbrev Repaired : Bytes → Bytes → Outcome
    Repaired s p =
        if json.valid p
        then attempt faults seek s (write_end faults s (newline ∷ []))
        else attempt faults truncate_file s (
            attempt faults seek (take (length s - length p) s) (none, take (length s - length p) s))

    repair_part :
        (s p : Bytes) (split : List Bytes × Bytes)
        → split.1 ≡ p
        → (is_nil split.0 && ltb 0 (tail_start s)) ≡ false
        → repair json faults s split ≡ Repaired s p
    unfolding repair
    repair_part s p (ls, r) e n = rw n (ap (Repaired s) e)

    repair-torn :
        (es : List Entry) (p : Bytes)
        → IsShape json (torn es p)
        → Prepared faults es (Repaired (file_of json es ++ p) p)
    repair-torn es p (h, t) =
        let s = file_of json es ++ p in
        let a = length-append (file_of json es) p in
        let q = take-append_at (length s - length p) (file_of json es) p (omega arith) in
        rw t.is_invalid (
          prepare_step truncate_file s es _ (torn es p, (h, t), refl, refl)
            (subst (λ u. Prepared faults es (attempt faults seek u (none, u))) (sym q)
              (prepare_step seek (file_of json es) es _ (clean es, h, refl, refl)
                (inl (refl, refl, h)))))

    whole_line :
        (es : List Entry) (e : Entry)
        → (file_of json es ++ json.encode e) ++ newline ∷ [] ≡ file_of json (es ++ e ∷ [])
    whole_line es e =
        append_assoc (file_of json es) (json.encode e) (newline ∷ [])
        ∙ sym (file_of-append json es e)

    -- The newline that ends a record, written or not.
    separator-Holds :
        (n : ℕ) (es : List Entry) (e : Entry)
        → IsShape json (whole es e)
        → Holds ((file_of json es ++ json.encode e) ++ take n (newline ∷ [])) (es ++ e ∷ [])
    separator-Holds zero es e h = (whole es e, h, sym (append_nil _), refl)
    separator-Holds (suc zero) es e (h, r) =
        (clean (es ++ e ∷ []), All-append_end (IsRecord json) es e h r, sym (whole_line es e), refl)
    separator-Holds (suc (suc n)) es e (h, r) =
        (clean (es ++ e ∷ []), All-append_end (IsRecord json) es e h r, sym (whole_line es e), refl)

    repair-whole :
        (es : List Entry) (e : Entry)
        → IsShape json (whole es e)
        → Prepared faults
            (es ++ e ∷ [])
            (Repaired (file_of json es ++ json.encode e) (json.encode e))
    repair-whole es e (h, r) =
        let s = file_of json es ++ json.encode e in
        rw r.is_valid (
          prepare_step seek s (es ++ e ∷ []) _ (whole es e, (h, r), refl, refl)
            (attempt-elim (Prepared faults (es ++ e ∷ [])) faults write
              (s ++ take faults.torn (newline ∷ [])) (none, s ++ newline ∷ [])
              (λ q. inr ((write, q, refl), separator-Holds faults.torn es e (h, r)))
              (inl (refl, whole_line es e, All-append_end (IsRecord json) es e h r))))

    prepare_part :
        (s p : Bytes) (es : List Entry)
        → is_nil s ≡ false
        → is_nil p ≡ false
        → ReadsPart s p
        → Holds s es
        → Prepared faults es (Repaired s p)
        → Prepared faults es (prepare_history_append json faults s)
    unfolding prepare_history_append
    prepare_part s p es n m (r, b, e) h q = prepare_step stat s es _ h (
        rw n (
          prepare_step read_at s es _ h (
            rw (e ∙ m) (
              subst (Prepared faults es)
                (sym (repair_part s p (split_lines (drop (tail_start s) s)) r b)) q))))

    prepare-clean :
        (es : List Entry)
        → All (IsRecord json) es
        → Prepared faults es (prepare_history_append json faults (file_of json es))
    unfolding prepare_history_append
    prepare-clean [] h =
        prepare_step stat [] [] _ (clean [], tt, refl, refl)
          (prepare_step seek [] [] _ (clean [], tt, refl, refl) (inl (refl, refl, tt)))
    prepare-clean (e ∷ es) h =
        let s = file_of json (e ∷ es) in
        let q = append_nil s in
        let n = is_nil-append (json.encode e) (newline ∷ file_of json es) refl in
        let (r, b, t) = reads_file json (e ∷ es) [] tt (omega arith) (ap is_nil q ∙ n) in
        let t' = ap (λ u. ends_with_newline (drop (tail_start u) u)) (sym q) ∙ t in
        let h' : Holds s (e ∷ es) = (clean (e ∷ es), h, refl, refl) in
        prepare_step stat s (e ∷ es) _ h' (
          rw n (
            prepare_step read_at s (e ∷ es) _ h'
              (rw t' (prepare_step seek s (e ∷ es) _ h' (inl (refl, refl, h))))))

    -- Whatever the file holds, a half-written record goes, and a record keeps its place.
    pub prepare-Shape :
        (sh : Shape Entry)
        → IsShape json sh
        → Prepared faults (log sh) (prepare_history_append json faults (or_empty (file json sh)))
    prepare-Shape absent h = prepare-clean [] tt
    prepare-Shape (clean es) h = prepare-clean es h
    prepare-Shape (torn es p) (h, t) =
        let n = is_nil-append (file_of json es) p t.not_empty in
        prepare_part (file_of json es ++ p) p es n t.not_empty
          (reads_file json es p t.one_line t.fits n) (torn es p, (h, t), refl, refl)
          (repair-torn es p (h, t))
    prepare-Shape (whole es e) (h, r) =
        let n = is_nil-append (file_of json es) (json.encode e) r.not_empty in
        prepare_part (file_of json es ++ json.encode e) (json.encode e) (es ++ e ∷ []) n r.not_empty
          (reads_file json es (json.encode e) r.one_line r.fits n) (whole es e, (h, r), refl, refl)
          (repair-whole es e (h, r))
