-- ===== src/HistoryStore/Survival.antt =====
-- What `Load` finds after any calls of `Append` on the file of terminal/log.go, some of which fail.
use nbterminal.Base.{
  ◌≡◌, refl, sym, ap, subst, true, false, Option, none, some, List, [], ◌∷◌, ◌++◌, All, Bool-cases,
  inl, inr, ◌⊎◌, append_assoc, append_nil,
}
use nbterminal.Base.Int.{ℤ, pos_part}
use nbterminal.HistoryStore.Entry.{Bytes}
use nbterminal.HistoryStore.Ring.{recent, recent_nil}
use nbterminal.HistoryStore.File.{
  FileStep, open_file, chmod, stat, read_at, seek, read, HistoryError, failed, Faults, Json,
  load_bytes, check, check_last, load_file,
}
use nbterminal.HistoryStore.Append.{append_file}
use nbterminal.HistoryStore.Lines.{IsRecord, file_of}
use nbterminal.HistoryStore.Shapes.{
  Shape, absent, clean, torn, whole, file, log, IsShape, load_bytes-Shape,
}
use nbterminal.HistoryStore.Recovery.{Keeps, Recorded, append-Recorded}

module _ {Entry : Type 0} (json : Json Entry) where
  -- `Append` of each entry in turn, with the steps of its call that fail.
  unfoldable pub append_all :
      Option Bytes → List (Faults × Entry) → List (Option HistoryError) × Option Bytes
  unfolding append_file
  append_all f [] = ([], f)
  append_all f ((faults, e) ∷ calls) =
      let (r, f') = append_file json faults f e in
      let (rs, f'') = append_all f' calls in (r ∷ rs, f'')

  -- The log has each entry whose call returned no error, in order, and may have some of the others.
  abbrev pub Kept : List (Option HistoryError) → List (Faults × Entry) → List Entry → Type 0
  Kept (none ∷ rs) ((faults, e) ∷ calls) es =
      (es' : List Entry) × (es ≡ e ∷ es') × Kept rs calls es'
  Kept (some error ∷ rs) ((faults, e) ∷ calls) es =
      Kept rs calls es ⊎ ((es' : List Entry) × (es ≡ e ∷ es') × Kept rs calls es')
  Kept rs calls es = es ≡ []

  abbrev pub AreRecords : List (Faults × Entry) → Type 0
  AreRecords calls = All (λ call. IsRecord json call.1) calls

  -- What `calls` add to the log `es` of the file `f`.
  abbrev Survives : Option Bytes → List Entry → List (Faults × Entry) → Type 0
  Survives f es calls =
      (fs : List Entry) × Keeps json (append_all f calls).1 (es ++ fs)
      × Kept (append_all f calls).0 calls fs

  Survives-step :
      (faults : Faults) (e : Entry) (calls : List (Faults × Entry)) (es : List Entry)
      → (o : Option HistoryError × Option Bytes) → Recorded json faults es e o
      → ((es' : List Entry) → Keeps json o.1 es' → Survives o.1 es' calls)
      → (fs : List Entry) × Keeps json (append_all o.1 calls).1 (es ++ fs)
        × Kept (o.0 ∷ (append_all o.1 calls).0) ((faults, e) ∷ calls) fs
  Survives-step faults e calls es (none, f) (inl (n, k)) rest =
      let (fs, k', p) = rest (es ++ e ∷ []) k in
      (
        e ∷ fs,
        subst (Keeps json (append_all f calls).1) (append_assoc es (e ∷ []) fs) k',
        (fs, refl, p),
      )
  Survives-step faults e calls es (none, f) (inr ((step, t, n), k)) rest = cc
  Survives-step faults e calls es (some err, f) (inl (n, k)) rest = cc
  Survives-step faults e calls es (some err, f) (inr (x, inl k)) rest =
      let (fs, k', p) = rest es k in (fs, k', inl p)
  Survives-step faults e calls es (some err, f) (inr (x, inr k)) rest =
      let (fs, k', p) = rest (es ++ e ∷ []) k in
      (
        e ∷ fs,
        subst (Keeps json (append_all f calls).1) (append_assoc es (e ∷ []) fs) k',
        inr (fs, refl, p),
      )

  append_file-Recorded :
      (faults : Faults) (f : Option Bytes) (es : List Entry) (e : Entry)
      → IsRecord json e
      → Keeps json f es
      → Recorded json faults es e (append_file json faults f e)
  append_file-Recorded faults f es e r (sh, v, q, l) =
      subst (λ g. Recorded json faults es e (append_file json faults g e)) q
        (subst (λ t. Recorded json faults t e (append_file json faults (file json sh) e)) l
          (append-Recorded json faults sh e v r))

  append_all-Survives :
      (calls : List (Faults × Entry)) (f : Option Bytes) (es : List Entry)
      → AreRecords calls
      → Keeps json f es
      → Survives f es calls
  unfolding append_all
  append_all-Survives [] f es h k = ([], subst (Keeps json f) (sym (append_nil es)) k, refl)
  append_all-Survives ((faults, e) ∷ calls) f es h k =
      Survives-step faults e calls es (append_file json faults f e)
        (append_file-Recorded faults f es e h.0 k)
        (λ es' k'. append_all-Survives calls (append_file json faults f e).1 es' h.1 k')

  -- `Load` gives `es`, or the error of a step of its own that has failed.
  abbrev pub Loads : Faults → Option Bytes → ℤ → List Entry → Type 0
  Loads faults f limit es =
      (load_file json faults f limit ≡ inr es)
      ⊎ ((step : FileStep) × (faults.fails step ≡ true)
          × (load_file json faults f limit ≡ inl (failed step)))

  module _ (sound : (s : Bytes) → json.valid s ≡ false → json.decode s ≡ none) where
    check_step :
        (faults : Faults) (step : FileStep) (x : HistoryError ⊎ List Entry) (es : List Entry)
        → (x ≡ inr es) ⊎ ((s : FileStep) × (faults.fails s ≡ true) × (x ≡ inl (failed s)))
        → (check json faults step x ≡ inr es)
          ⊎ ((s : FileStep) × (faults.fails s ≡ true) × (check json faults step x ≡ inl (failed s)))
    check_step faults step x es h = elim (Bool-cases (faults.fails step)) [
      | inl q ↦ inr (step, q, rw q refl)
      | inr q ↦ rw q h
    ]

    check_last_step :
        (faults : Faults) (s : Bytes) (x : HistoryError ⊎ List Entry) (es : List Entry)
        → (x ≡ inr es) ⊎ ((t : FileStep) × (faults.fails t ≡ true) × (x ≡ inl (failed t)))
        → (check_last json faults s x ≡ inr es)
          ⊎ ((t : FileStep) × (faults.fails t ≡ true)
              × (check_last json faults s x ≡ inl (failed t)))
    check_last_step faults [] x es h = h
    check_last_step faults (b ∷ s) x es h = check_step faults read_at x es h

    load_some :
        (faults : Faults) (s : Bytes) (limit : ℤ) (es : List Entry)
        → load_bytes json (pos_part limit) s ≡ inr (recent (pos_part limit) es)
        → Loads faults (some s) limit (recent (pos_part limit) es)
    unfolding load_file
    load_some faults s limit es q =
        let out = recent (pos_part limit) es in
        check_step faults open_file _ out (
          check_step faults chmod _ out (
            check_step faults stat _ out (
              check_last_step faults s _ out
                (check_step faults seek _ out (check_step faults read _ out (inl q))))))

    load-Shape :
        (faults : Faults) (sh : Shape Entry) (limit : ℤ)
        → IsShape json sh
        → Loads faults (file json sh) limit (recent (pos_part limit) (log sh))
    unfolding load_file
    load-Shape faults absent limit h =
        check_step faults open_file (inr []) (recent (pos_part limit) [])
          (inl (ap inr (sym (recent_nil (pos_part limit)))))
    load-Shape faults (clean es) limit h =
        load_some faults (file_of json es) limit es (load_bytes-Shape json sound _ (clean es) h)
    load-Shape faults (torn es p) limit h =
        load_some faults (file_of json es ++ p) limit es
          (load_bytes-Shape json sound _ (torn es p) h)
    load-Shape faults (whole es e) limit h =
        load_some faults (file_of json es ++ json.encode e) limit (es ++ e ∷ [])
          (load_bytes-Shape json sound _ (whole es e) h)

    -- From no file, after any calls of `Append`, whichever of their steps fail and wherever a write
    -- stops: `Load` gives the newest of the recorded entries, or the error of a step of its own that has
    -- failed. Every entry whose call returned no error is recorded, in order. The JSON of an entry is one
    -- line that fits the reader, is decoded again and has no valid proper part, and what is not valid
    -- is not decoded.
    pub load-append_all :
        (calls : List (Faults × Entry)) (faults : Faults) (limit : ℤ)
        → AreRecords calls
        → (es : List Entry) × Kept (append_all none calls).0 calls es
          × Loads faults (append_all none calls).1 limit (recent (pos_part limit) es)
    load-append_all calls faults limit h =
        let (fs, (sh, v, q, l), p) = append_all-Survives calls none [] h (absent, tt, refl, refl) in
        (
          fs,
          p,
          subst (λ g. Loads faults g limit (recent (pos_part limit) fs)) q
              (subst (λ es. Loads faults (file json sh) limit (recent (pos_part limit) es)) l
                (load-Shape faults sh limit v)),
        )
