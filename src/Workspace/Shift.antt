-- ===== src/Workspace/Shift.antt =====
-- The copies of `Move` in guis/session_workspace.go take one tab out and put it in again.
use nbterminal.Base.{
  ℕ, zero, suc, ◌+◌, ◌-◌, ◌≤◌, ◌<◌, ◌≡◌, refl, sym, ap, ◌∙◌, subst, true, some, inl, inr, List, [],
  ◌∷◌, ◌++◌, arith, ltb, Bool-cases, some_inj, length, get_elem?, set, take, drop, erase_idx,
  insert_idx, All, All-insert_idx, All-erase_idx, All-get_elem?,
}
use native.Mathlib.Numerals.{add-one}
use nbterminal.Workspace.Tabs.{TerminalTabState}
use nbterminal.Workspace.Order.{shift_tabs}
use nbterminal.Workspace.Frame.{PinnedFirst, IsOrdinary, PinnedFirst-erase_idx}

module _ {ℓ} {A : Type ℓ} where
  -- The elements behind the front, one place to the left.
  forward_front :
      (k : ℕ) (x y : A) (xs : List A)
      → k ≤ length xs
      → set (take k xs ++ drop k (y ∷ xs)) k x ≡ insert_idx xs k x
  forward_front zero x y xs h = refl
  forward_front (suc k) x y [] h = absurd (omega arith)
  forward_front (suc k) x y (z ∷ xs) h = ap (z ∷◌) (forward_front k x z xs (omega arith))

  forward :
      (from target k : ℕ) (x : A) (xs : List A)
      → target ≡ from + k
      → target < length xs
      → set (take from xs ++ (take k (drop (suc from) xs) ++ drop target xs)) target x
        ≡ insert_idx (erase_idx xs from) target x
  forward from target k x [] e h = elim h [ ]
  forward zero target k x (y ∷ xs) e h =
      let same : target ≡ k = omega arith in rw same (forward_front k x y xs (omega arith))
  forward (suc from) zero k x (y ∷ xs) e h = absurd (omega arith)
  forward (suc from) (suc target) k x (y ∷ xs) e h =
      ap (y ∷◌) (forward from target k x xs (omega arith) (omega arith))

  take-drop : (i : ℕ) (xs : List A) → take i xs ++ drop (suc i) xs ≡ erase_idx xs i
  take-drop zero [] = refl
  take-drop (suc i) [] = refl
  take-drop zero (x ∷ xs) = refl
  take-drop (suc i) (x ∷ xs) = ap (x ∷◌) (take-drop i xs)

  backward :
      (from target k : ℕ) (x : A) (xs : List A)
      → from ≡ target + k
      → from < length xs
      → set (take (suc target) xs ++ (take k (drop target xs) ++ drop (suc from) xs)) target x
        ≡ insert_idx (erase_idx xs from) target x
  backward from target k x [] e h = elim h [ ]
  backward from zero k x (y ∷ xs) e h =
      let same : from ≡ k = omega arith in rw same (ap (x ∷◌) (take-drop k (y ∷ xs)))
  backward zero (suc target) k x (y ∷ xs) e h = absurd (omega arith)
  backward (suc from) (suc target) k x (y ∷ xs) e h =
      ap (y ∷◌) (backward from target k x xs (omega arith) (omega arith))

  -- Within bounds the copies are a removal and an insertion.
  pub shift_tabs_lem :
      (from target : ℕ) (x : A) (xs : List A)
      → from < length xs
      → target < length xs
      → shift_tabs from target x xs ≡ insert_idx (erase_idx xs from) target x
  unfolding shift_tabs
  shift_tabs_lem from target x xs h k = elim (Bool-cases (ltb from target)) [
    | inl e ↦ rw (e, add-one from) (forward from target (target - from) x xs (ground arith) k)
    | inr e ↦
        rw (e, add-one from, add-one target)
          (backward from target (from - target) x xs (ground arith) h)
  ]

PinnedFirst-All : (ts : List TerminalTabState) → All IsOrdinary ts → PinnedFirst ts
PinnedFirst-All [] h = tt
PinnedFirst-All (t ∷ ts) h = (λ _. h.1, PinnedFirst-All ts h.1)

-- A pinned tab may go in behind a pinned one.
PinnedFirst-insert_behind :
    (ts : List TerminalTabState) (i : ℕ) (x : TerminalTabState) {y : TerminalTabState}
    → x.pinned ≡ true
    → get_elem? ts i ≡ some y
    → y.pinned ≡ true
    → PinnedFirst ts
    → PinnedFirst (insert_idx ts (suc i) x)
PinnedFirst-insert_behind [] i x p e q h = cc
PinnedFirst-insert_behind (u ∷ ts) zero x p e q h =
    (λ o. cc (some_inj e, o, q), (λ o. cc (o, p), h.1))
PinnedFirst-insert_behind (u ∷ ts) (suc i) x p e q h = (
  λ o. cc (All-get_elem? IsOrdinary ts i (h.0 o) e, q),
  PinnedFirst-insert_behind ts i x p e q h.1,
)

-- A tab that takes the place of one on its own side of the boundary keeps the partition.
pub PinnedFirst-shift :
    (ts : List TerminalTabState) (from target : ℕ) {x y : TerminalTabState}
    → get_elem? ts from ≡ some x
    → get_elem? ts target ≡ some y
    → x.pinned ≡ y.pinned
    → PinnedFirst ts
    → PinnedFirst (insert_idx (erase_idx ts from) target x)
PinnedFirst-shift [] from target a b e h = cc
PinnedFirst-shift (u ∷ ts) zero zero a b e h = subst (λ v. PinnedFirst (v ∷ ts)) (some_inj a) h
PinnedFirst-shift (u ∷ ts) zero (suc target) {x} {y} a b e h = elim (Bool-cases x.pinned) [
  | inl p ↦ PinnedFirst-insert_behind ts target x p b (sym e ∙ p) h.1
  | inr p ↦ PinnedFirst-All (insert_idx ts (suc target) x) (
      All-insert_idx IsOrdinary ts (suc target) x p
        (h.0 (ap (λ (v : TerminalTabState). v.pinned) (some_inj a) ∙ p)))
]
PinnedFirst-shift (u ∷ ts) (suc from) zero {x} {y} a b e h =
    let same : u.pinned ≡ x.pinned = ap (λ (v : TerminalTabState). v.pinned) (some_inj b) ∙ sym e in
    (
      λ o. (same ∙ o, All-erase_idx IsOrdinary ts from (h.0 (same ∙ o))),
      PinnedFirst-erase_idx (u ∷ ts) (suc from) h,
    )
PinnedFirst-shift (u ∷ ts) (suc from) (suc target) {x} {y} a b e h = (
  λ o.
      All-insert_idx IsOrdinary (erase_idx ts from) target x
        (All-get_elem? IsOrdinary ts from (h.0 o) a) (All-erase_idx IsOrdinary ts from (h.0 o)),
  PinnedFirst-shift ts from target a b e h.1,
)
