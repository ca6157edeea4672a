-- ===== src/Navigator.antt =====
-- The movement of the selection in the connection lists: `moveNavigatorSelection` and
-- `cycleNavigatorSelection` of guis/guis.go.
use nbterminal.Base.{
  ℕ, suc, ◌+◌, ◌%◌, ◌≤◌, ◌<◌, ◌≡◌, ◌∙◌, ◌≢◌, inl, inr, zero, ◌-◌, Bool-cases, ltb→lt, not, ◌||◌,
  arith, if◌then◌else◌, ltb,
}
use nbterminal.Base.Int.{ℤ, pos, negsuc, pos_part, neg_part, ◌+ℤ◌, ltb_ℤ, eq_ℤ, InRange, rem_ℤ}

-- `delta` steps from `current`, held between the first row and the last.
unfoldable pub move_navigator_selection : ℤ → ℤ → ℤ → ℤ
move_navigator_selection current count delta =
    let next = current +ℤ delta in
    if ltb_ℤ (pos 0) count
    then (if ltb_ℤ current (pos 0)
        then pos 0
        else if ltb_ℤ next (pos 0)
        then pos 0
        else if ltb_ℤ next count
        then next
        else count +ℤ negsuc 0)
    else negsuc 0

-- `delta` steps from `current`, round the ends.
unfoldable pub cycle_navigator_selection : ℤ → ℤ → ℤ → ℤ
cycle_navigator_selection current count delta =
    if ltb_ℤ (pos 0) count
    then (if eq_ℤ delta (pos 0)
        then negsuc 0
        else if ltb_ℤ current (pos 0) || not (ltb_ℤ current count)
        then (if ltb_ℤ delta (pos 0) then count +ℤ negsuc 0 else pos 0)
        else rem_ℤ (current +ℤ delta +ℤ count) (pos_part count))
    else negsuc 0

-- A move ends on a row, wherever it starts and however far it goes; where there are no rows it
-- gives -1.
pub move_navigator_selection-InRange :
    (current : ℤ) (n : ℕ) (delta : ℤ) → InRange (move_navigator_selection current (pos n) delta) n
unfolding move_navigator_selection ◌+ℤ◌
move_navigator_selection-InRange (pos c) n (pos d) = ground arith
move_navigator_selection-InRange (pos c) n (negsuc d) = ground arith
move_navigator_selection-InRange (negsuc c) n (pos d) = ground arith
move_navigator_selection-InRange (negsuc c) n (negsuc d) = ground arith

mod_once : (m n : ℕ) → m < n → (m + n) % n ≡ m
mod_once m n h = grind arith

mod_small : (m n : ℕ) → m < n → m % n ≡ m
mod_small m n h = grind arith

mod_lt : (m n : ℕ) → 0 < n → m % n < n
mod_lt m n h = grind arith

mod_full : (n : ℕ) → 0 < n → (n + n) % n ≡ 0
mod_full n h = grind arith

-- One step on, in the numbers of the rows.
cycle_forward :
    (i n : ℕ)
    → i < n
    → cycle_navigator_selection (pos i) (pos n) (pos 1) ≡ pos (if ltb (i + 1) n then i + 1 else 0)
unfolding cycle_navigator_selection ◌+ℤ◌ rem_ℤ
cycle_forward i n h = elim (Bool-cases (ltb (i + 1) n)) [
  | inl e ↦ rw e (ground (arith, mod_once (i + 1) n (ltb→lt (i + 1) n e)))
  | inr e ↦ rw e (ground (arith, mod_full n (omega arith)))
]

cycle_backward :
    (i n : ℕ)
    → i < n
    → cycle_navigator_selection (pos i) (pos n) (negsuc 0) ≡ pos (if ltb 0 i then i - 1 else n - 1)
unfolding cycle_navigator_selection ◌+ℤ◌ rem_ℤ
cycle_backward zero n h = ground (arith, mod_small (0 + n - 1) n (omega arith))
cycle_backward (suc i) n h = ground (arith, mod_once i n (omega arith))

-- Round the ends, a step on and a step back come back to the row, in either order.
pub cycle-cycle :
    (i n : ℕ)
    → i < n
    → (cycle_navigator_selection
          (cycle_navigator_selection (pos i) (pos n) (pos 1))
          (pos n)
          (negsuc 0)
        ≡ pos i)
      × (cycle_navigator_selection
            (cycle_navigator_selection (pos i) (pos n) (negsuc 0))
            (pos n)
            (pos 1)
          ≡ pos i)
cycle-cycle i n h = (
  rw (cycle_forward i n h)
      (cycle_backward (if ltb (i + 1) n then i + 1 else 0) n (ground arith) ∙ ground arith),
  rw (cycle_backward i n h)
      (cycle_forward (if ltb 0 i then i - 1 else n - 1) n (ground arith) ∙ ground arith),
)

-- A cycle of at most `n` rows from any row ends on a row.
pub cycle_navigator_selection-InRange :
    (i n : ℕ) (delta : ℤ)
    → i < n
    → neg_part delta ≤ n
    → delta ≢ pos 0
    → InRange (cycle_navigator_selection (pos i) (pos n) delta) n
unfolding cycle_navigator_selection ◌+ℤ◌ rem_ℤ
cycle_navigator_selection-InRange i n (pos d) h k ne =
    ground (arith, mod_lt (i + d + n) n (omega arith))
cycle_navigator_selection-InRange i n (negsuc d) h k ne =
    ground (arith, mod_lt (i + n - suc d) n (omega arith), ne)
