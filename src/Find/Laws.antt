-- ===== src/Find/Laws.antt =====
-- The index of `terminalFindState` (guis/terminal_find.go) through searches, moves and refreshes.
use nbterminal.Base.{
  ℕ, suc, ◌%◌, ◌<◌, ◌≡◌, refl, inl, inr, Bool, true, false, not, Option, none, some, List, [], ◌∷◌,
  arith, if◌then◌else◌, is_nil, length, find_idx, ltb, bool_eq, Text, is_blank, get_elem?,
  Bool-cases, Option-cases, find_idx-Fits, find_idx-found, lt-length_of_get_elem?,
}
use nbterminal.Base.Int.{ℤ, pos, negsuc, InRange, ◌+ℤ◌, rem_ℤ, ltb_ℤ}
use nbterminal.Find.Defs.{
  SearchOptions, TerminalFindState, Toolkit, FindState, search, set_case_sensitive, set_whole_word,
  set_regular_expression, current, restore, refresh, same_position, kept_index, first_index,
  cleared, options,
}
use nbterminal.Find.Defs

-- The actions of the find window.
pub data FindAction (View : Type 0) : Type 0 where
  searching : Option View → Text → FindAction View
  matching_case matching_words matching_pattern : Option View → Bool → FindAction View
  refreshing : Option View → FindAction View
  moving : ℤ → FindAction View

mod_lt : (m n : ℕ) → 0 < n → m % n < n
mod_lt m n h = grind arith

wrapped-InRange :
    (z : ℤ) (n : ℕ)
    → 0 < n
    → InRange (if ltb_ℤ (rem_ℤ z n) (pos 0) then rem_ℤ z n +ℤ pos n else rem_ℤ z n) n
unfolding rem_ℤ ◌+ℤ◌
wrapped-InRange (pos i) n h = ground (arith, mod_lt i n h)
wrapped-InRange (negsuc i) n h = ground (arith, mod_lt (suc i) n h)

module _ {ℓ} {A : Type ℓ} where
  length-is_nil : (xs : List A) → is_nil xs ≡ true → length xs ≡ 0
  length-is_nil [] h = refl
  length-is_nil (x ∷ xs) h = cc

  length_pos : (xs : List A) → is_nil xs ≡ false → 0 < length xs
  length_pos [] h = cc
  length_pos (x ∷ xs) h = omega arith

  is_nil-lt : (xs : List A) {i : ℕ} → i < length xs → is_nil xs ≡ false
  is_nil-lt [] h = absurd (omega arith)
  is_nil-lt (x ∷ xs) h = refl

  is_nil-get_elem? : (xs : List A) (i : ℕ) {x : A} → get_elem? xs i ≡ some x → is_nil xs ≡ false
  is_nil-get_elem? xs i e = is_nil-lt xs (lt-length_of_get_elem? xs i e)

module _ (kit : Toolkit) where
  unfoldable pub act : FindState kit → FindAction kit.View → FindState kit
  act s (searching view query) = search kit s view query
  act s (matching_case view b) = set_case_sensitive kit s view b
  act s (matching_words view b) = set_whole_word kit s view b
  act s (matching_pattern view b) = set_regular_expression kit s view b
  act s (refreshing view) = refresh kit s view
  act s (moving delta) = Defs.move kit s delta

  -- The index is that of a match, or -1 where there is none.
  abbrev pub IsFind : FindState kit → Type 0
  IsFind s = InRange s.index (length s.matches)

  search-IsFind :
      (s : FindState kit) (view : Option kit.View) (query : Text) → IsFind (search kit s view query)
  unfolding search
  search-IsFind s none query = (refl, refl)
  search-IsFind s (some view) query = elim (Bool-cases (is_blank query)) [
    | inl e ↦ rw e (refl, refl)
    | inr e ↦ elim (Bool-cases (not (kit.valid_query query (options kit s)))) [
      | inl f ↦ rw (e, f) (refl, refl)
      | inr f ↦ rw (e, f) (at_first (kit.search_text view query (options kit s)))
    ]
  ]
    where
      at_first : (ms : List kit.Match) → InRange (first_index kit ms) (length ms)
      at_first [] = (refl, refl)
      at_first (m ∷ ms) = omega arith

  guarded-IsFind :
      (b : Bool) (s t : FindState kit) → IsFind s → IsFind t → IsFind (if b then s else t)
  guarded-IsFind true s t h k = h
  guarded-IsFind false s t h k = k

  kept-IsFind :
      (i : ℤ) (s : FindState kit)
      → IsFind s
      → InRange (kept_index kit i s.matches s.index) (length s.matches)
  unfolding kept_index
  kept-IsFind (negsuc n) s h = h
  kept-IsFind (pos i) s h = elim (Bool-cases (ltb i (length s.matches))) [
    | inl e ↦ rw e (ground arith)
    | inr e ↦ rw e h
  ]

  restore-IsFind :
      (old : Option kit.Match) (previous : ℤ) (s : FindState kit)
      → IsFind s
      → IsFind (restore kit old previous s)
  unfolding restore same_position
  restore-IsFind none previous s h = kept-IsFind previous s h
  restore-IsFind (some m) previous s h =
      elim (Option-cases (find_idx (λ x. kit.same x m) s.matches)) [
        | inl e ↦ rw (e, restore, same_position) (kept-IsFind previous s h)
        | inr (i, e) ↦
            let (x, f, _) = find_idx-Fits (λ x. kit.same x m) s.matches i e in
            rw (e, restore, same_position) (lt-length_of_get_elem? s.matches i f)
      ]

  refresh-IsFind : (s : FindState kit) (view : Option kit.View) → IsFind (refresh kit s view)
  unfolding refresh
  refresh-IsFind s view =
      guarded-IsFind (is_nil (search kit s view s.query).matches) _ _ (search-IsFind s view s.query)
        (restore-IsFind (current kit s) s.index _ (search-IsFind s view s.query))

  move-IsFind : (s : FindState kit) (delta : ℤ) → IsFind (Defs.move kit s delta)
  unfolding Defs.move
  move-IsFind s delta = elim (Bool-cases (is_nil s.matches)) [
    | inl e ↦ rw e (refl, length-is_nil s.matches e)
    | inr e ↦ rw e (wrapped-InRange (s.index +ℤ delta) (length s.matches) (length_pos s.matches e))
  ]

  act-IsFind : (s : FindState kit) (action : FindAction kit.View) → IsFind s → IsFind (act s action)
  unfolding act set_case_sensitive set_whole_word set_regular_expression
  act-IsFind s (searching view query) h = search-IsFind s view query
  act-IsFind s (matching_case view b) h =
      guarded-IsFind (bool_eq s.case_sensitive b) _ _ h
        (search-IsFind (record s { case_sensitive = b }) view s.query)
  act-IsFind s (matching_words view b) h =
      guarded-IsFind (bool_eq s.whole_word b) _ _ h
        (search-IsFind (record s { whole_word = b }) view s.query)
  act-IsFind s (matching_pattern view b) h =
      guarded-IsFind (bool_eq s.regular_expression b) _ _ h
        (search-IsFind (record s { regular_expression = b }) view s.query)
  act-IsFind s (refreshing view) h = refresh-IsFind s view
  act-IsFind s (moving delta) h = move-IsFind s delta

  abbrev pub run_find : FindState kit → List (FindAction kit.View) → FindState kit
  run_find s [] = s
  run_find s (a ∷ rest) = run_find (act s a) rest

  run_find-IsFind :
      (actions : List (FindAction kit.View)) (s : FindState kit)
      → IsFind s
      → IsFind (run_find s actions)
  run_find-IsFind [] s h = h
  run_find-IsFind (a ∷ rest) s h = run_find-IsFind rest (act s a) (act-IsFind s a h)

  -- After a first search, through every list of searches, changed options, refreshes and moves, with
  -- any view or none, the index stays that of a match, or is -1 where there are no matches.
  pub run_find_lem :
      (s : FindState kit) (view : Option kit.View) (query : Text)
      (actions : List (FindAction kit.View))
      → IsFind (run_find (search kit s view query) actions)
  run_find_lem s view query actions = run_find-IsFind actions _ (search-IsFind s view query)

  -- A refresh stays on the match that was current: where the new search still finds it, the match
  -- current after the refresh is the same one.
  pub current-refresh :
      (s : FindState kit) (view : Option kit.View) {m x : kit.Match} (j : ℕ)
      → current kit s ≡ some m
      → get_elem? (search kit s view s.query).matches j ≡ some x
      → kit.same x m ≡ true
      → (y : kit.Match) × (current kit (refresh kit s view) ≡ some y) × (kit.same y m ≡ true)
  unfolding refresh current restore same_position
  current-refresh s view {m} {x} j h e k =
      let ms = (search kit s view s.query).matches in
      let (i, f) = find_idx-found (λ x. kit.same x m) ms j e k in
      let (y, g, q) = find_idx-Fits (λ x. kit.same x m) ms i f in
      (y, rw (is_nil-get_elem? ms j e, h, restore, same_position, f) g, q)
