-- ===== src/Workspace/Order.antt =====
-- The order of the tabs: `Move`, `MoveActive` and `SetPinned` of guis/session_workspace.go.
use nbterminal.Base.{
  ℕ, ◌+◌, ◌-◌, Bool, true, false, not, ◌||◌, Option, none, some, List, [], ◌++◌, ltb, ◌==◌, bool_eq,
  if◌then◌else◌, get_elem?, set, take, drop, erase_idx, insert_idx, find_idx, count_while, Text,
  is_blank,
}
use nbterminal.Base.Int.{ℤ, pos, negsuc, ◌+ℤ◌}
use nbterminal.Workspace.Tabs.{TerminalTabState, SessionWorkspace, active}
use nbterminal.Workspace.ById.{has_id}

-- The two calls of `copy`, and the write of the moved tab at its target.
unfoldable pub shift_tabs {ℓ} : {A : Type ℓ} → ℕ → ℕ → A → List A → List A
shift_tabs from target x xs =
    set
      (if ltb from target
        then take from xs ++ (take (target - from) (drop (from + 1) xs) ++ drop target xs)
        else take (target + 1) xs ++ (take (from - target) (drop target xs) ++ drop (from + 1) xs))
      target x

-- The identity of the active tab, or the empty string.
unfoldable pub active_id : SessionWorkspace → Text
unfolding active
active_id w = elim (active w) [ none ↦ [] | some t ↦ t.id ]

-- The loop that finds the active tab again after a change of the order.
unfoldable pub refind_active : Text → List TerminalTabState → ℤ → ℤ
refind_active id ts old = elim (find_idx (has_id id) ts) [ none ↦ old | some i ↦ pos i ]

abbrev pub reordered : SessionWorkspace → List TerminalTabState → SessionWorkspace
reordered w ts = record w {
  tabs = ts;
  active_index = refind_active (active_id w) ts w.active_index;
}

-- `Move` once the tab and its target are known.
unfoldable pub move_from :
    SessionWorkspace
    → ℕ
    → ℕ
    → Option TerminalTabState
    → Option TerminalTabState
    → SessionWorkspace × Bool
unfolding shift_tabs refind_active active_id
move_from w from target (some state) (some there) =
    if from == target || not (bool_eq state.pinned there.pinned)
    then (w, false)
    else (reordered w (shift_tabs from target state w.tabs), true)
move_from w from target _ _ = (w, false)

unfoldable pub move : SessionWorkspace → Text → ℤ → SessionWorkspace × Bool
unfolding move_from
move w id (negsuc n) = (w, false)
move w id (pos target) = if is_blank id then (w, false) else elim (find_idx (has_id id) w.tabs) [
  | none ↦ (w, false)
  | some from ↦ move_from w from target (get_elem? w.tabs from) (get_elem? w.tabs target)
]

abbrev pub is_one_step : ℤ → Bool
is_one_step (pos n) = n == 1
is_one_step (negsuc n) = n == 0

unfoldable pub move_active : SessionWorkspace → ℤ → SessionWorkspace × Bool
unfolding move active
move_active w delta =
    if is_one_step delta
    then elim (active w) [ none ↦ (w, false) | some t ↦ move w t.id (w.active_index +ℤ delta) ]
    else (w, false)

abbrev pub is_pinned : TerminalTabState → Bool
is_pinned t = t.pinned

-- `SetPinned` once the tab is found: out of the list, and in again behind the pinned tabs.
unfoldable pub repin :
    SessionWorkspace → Bool → ℕ → Option TerminalTabState → SessionWorkspace × Bool
unfolding refind_active active_id
repin w pinned i none = (w, false)
repin w pinned i (some t) =
    let rest = erase_idx w.tabs i in
    if bool_eq t.pinned pinned then (w, true) else (
      reordered w (insert_idx rest (count_while is_pinned rest) (record t { pinned = pinned })),
      true,
    )

unfoldable pub set_pinned : SessionWorkspace → Text → Bool → SessionWorkspace × Bool
unfolding repin
set_pinned w id pinned = if is_blank id then (w, false) else elim (find_idx (has_id id) w.tabs) [
  | none ↦ (w, false)
  | some i ↦ repin w pinned i (get_elem? w.tabs i)
]
