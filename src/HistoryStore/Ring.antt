-- ===== src/HistoryStore/Ring.antt =====
-- The slice of the newest entries that the loops of terminal/log.go keep while they read.
use nbterminal.Base.{
  ℕ, zero, suc, ◌-◌, ◌≤◌, ◌≡◌, refl, sym, ap, ◌∙◌, inl, inr, ◌&&◌, List, [], ◌∷◌, ◌++◌,
  if◌then◌else◌, ltb, length, take, drop, arith, length-append, length-drop, drop-append_end,
  take-append_at, drop_nil, drop_zero, append_assoc, append_nil, Bool-cases, ltb→lt, lt→ltb,
  not_ltb→le, le→not_ltb,
}

module _ {A : Type 0} where
  -- `copy(entries, entries[1:])`: the last entry stays where it is, too.
  abbrev pub shifted : List A → List A
  shifted xs = drop 1 xs ++ drop (length xs - 1) xs

  -- `if limit > 0 && len(entries) > limit`, with 0 for a limit that is not positive.
  unfoldable pub keep : ℕ → List A → List A
  keep limit xs = if ltb 0 limit && ltb limit (length xs) then take limit (shifted xs) else xs

  -- The loop that appends an entry and keeps the newest.
  unfoldable pub ring : ℕ → List A → List A → List A
  unfolding keep
  ring limit kept [] = kept
  ring limit kept (x ∷ xs) = ring limit (keep limit (kept ++ x ∷ [])) xs

  -- The last `limit` elements; all of them where the limit is 0.
  unfoldable pub recent : ℕ → List A → List A
  recent zero xs = xs
  recent (suc n) xs = drop (length xs - suc n) xs

  drop-suc : (k : ℕ) (xs : List A) → drop (suc k) xs ≡ drop 1 (drop k xs)
  drop-suc zero xs = refl
  drop-suc (suc k) [] = refl
  drop-suc (suc k) (x ∷ xs) = drop-suc k xs

  -- One element too many: the first one goes.
  take-shifted :
      (zs : List A) (x : A) (n : ℕ)
      → length zs ≡ suc n
      → take (suc n) (shifted (zs ++ x ∷ [])) ≡ drop 1 zs ++ x ∷ []
  take-shifted [] x n h = absurd (omega arith)
  take-shifted (z ∷ zs) x n h =
      take-append_at (suc n) (zs ++ x ∷ []) _ (omega (arith, length-append zs (x ∷ [])))

  keep_full :
      (zs : List A) (x : A) (n : ℕ)
      → length zs ≡ suc n
      → keep (suc n) (zs ++ x ∷ []) ≡ drop 1 zs ++ x ∷ []
  unfolding keep
  keep_full zs x n h =
      let a = length-append zs (x ∷ []) in
      rw (lt→ltb 0 (suc n) (omega arith), lt→ltb (suc n) (length (zs ++ x ∷ [])) (omega arith))
        (take-shifted zs x n h)

  keep_short :
      (zs : List A) (x : A) (n : ℕ) → length zs ≤ n → keep (suc n) (zs ++ x ∷ []) ≡ zs ++ x ∷ []
  unfolding keep
  keep_short zs x n h =
      let a = length-append zs (x ∷ []) in
      rw (le→not_ltb (length (zs ++ x ∷ [])) (suc n) (omega arith)) (ground arith)

  -- Among more elements than are kept, a step forward drops the oldest.
  recent_step :
      (k : ℕ) (ys : List A) (x : A) (m : ℕ)
      → suc k ≤ length ys
      → m ≡ suc k
      → drop 1 (drop k ys) ++ x ∷ [] ≡ drop m (ys ++ x ∷ [])
  recent_step k ys x m h e =
      ap (λ t. t ++ x ∷ []) (sym (drop-suc k ys))
      ∙ sym (drop-append_end (suc k) ys x h)
      ∙ ap (λ i. drop i (ys ++ x ∷ [])) (sym e)

  pub keep-recent :
      (n : ℕ) (ys : List A) (x : A) → keep n (recent n ys ++ x ∷ []) ≡ recent n (ys ++ x ∷ [])
  unfolding keep recent
  keep-recent zero ys x = refl
  keep-recent (suc n) ys x =
      let a = length-append ys (x ∷ []) in
      elim (Bool-cases (ltb n (length ys))) [
        | inl e ↦
            let s = ltb→lt n (length ys) e in
            keep_full (drop (length ys - suc n) ys) x n
              (length-drop (length ys - suc n) ys ∙ omega arith)
            ∙ recent_step (length ys - suc n) ys x _ (omega arith) (omega arith)
        | inr e ↦
            let s = not_ltb→le n (length ys) e in
            ap (λ t. keep (suc n) (t ++ x ∷ [])) (drop_zero (length ys - suc n) ys (omega arith))
            ∙ keep_short ys x n s
            ∙ sym (drop_zero (length (ys ++ x ∷ []) - suc n) (ys ++ x ∷ []) (omega arith))
      ]

  -- The loop keeps the newest entries of all that it has read.
  pub ring-recent : (n : ℕ) (xs ys : List A) → ring n (recent n ys) xs ≡ recent n (ys ++ xs)
  unfolding ring
  ring-recent n [] ys = ap (recent n) (sym (append_nil ys))
  ring-recent n (x ∷ xs) ys =
      ap (λ t. ring n t xs) (keep-recent n ys x)
      ∙ ring-recent n xs (ys ++ x ∷ [])
      ∙ ap (recent n) (append_assoc ys (x ∷ []) xs)

  pub recent_nil : (n : ℕ) → recent n [] ≡ []
  unfolding recent
  recent_nil zero = refl
  recent_nil (suc n) = drop_nil (0 - suc n)

  pub ring-nil : (n : ℕ) (xs : List A) → ring n [] xs ≡ recent n xs
  ring-nil n xs = ap (λ t. ring n t xs) (sym (recent_nil n)) ∙ ring-recent n xs []

  length-recent : (n : ℕ) (xs : List A) → length (recent (suc n) xs) ≤ suc n
  unfolding recent
  length-recent n xs = omega (arith, length-drop (length xs - suc n) xs)

  pub recent-recent : (n : ℕ) (xs : List A) → recent n (recent n xs) ≡ recent n xs
  unfolding recent
  recent-recent zero xs = refl
  recent-recent (suc n) xs =
      drop_zero (length (drop (length xs - suc n) xs) - suc n) (drop (length xs - suc n) xs)
        (omega (arith, length-drop (length xs - suc n) xs))
