-- ===== src/Workspace/Moves.antt =====
-- What `Move`, `MoveActive` and `SetPinned` of guis/session_workspace.go do to the order.
use nbterminal.Base.{
  ℕ, ◌<◌, ◌≡◌, refl, sym, ap, ◌∙◌, subst, inl, inr, true, Option, none, some, List, arith,
  Bool-cases, Option-cases, some_inj, Perm, length, get_elem?, erase_idx, insert_idx, find_idx,
  Text, text_eq_iff, text_eq_refl, lt-length_of_get_elem?, find_idx-Fits, find_idx-found, At,
  At-insert_idx, At-insert_idx_self, At-erase_idx, insert_idx-perm, erase_idx-perm,
  get_elem?-insert_idx, get_elem?_of_lt, length-erase_idx, is_blank, not, ◌||◌, ◌==◌, bool_eq,
}
use nbterminal.Base.Int.{InRange, ℤ, pos, negsuc}
use mathlib.Core.List.Perm
use nbterminal.Workspace.Tabs.{TerminalTabState, SessionWorkspace, active, tab_at, at_index}
use nbterminal.Workspace.ById.{has_id}
use nbterminal.Workspace.Order.{reordered, refind_active, active_id, move_from, move}
use nbterminal.Workspace.Frame.{Distinct-unique}
use nbterminal.Workspace.Shift.{shift_tabs_lem}
use nbterminal.Workspace.Invariant.{IsValid}
use nbterminal.Workspace.Preserve.{move-IsValid}

pub active-some :
    (w : SessionWorkspace) {t : TerminalTabState} → active w ≡ some t → active_id w ≡ t.id
unfolding active_id
active-some w e = rw (e, active_id)

-- The first tab with the identity of a tab of the list has that identity.
refound :
    (ts : List TerminalTabState) (j : ℕ) (old : ℤ) {t : TerminalTabState}
    → get_elem? ts j ≡ some t
    → (i : ℕ) × (u : TerminalTabState) × (refind_active t.id ts old ≡ pos i)
      × (get_elem? ts i ≡ some u)
      × (u.id ≡ t.id)
unfolding refind_active
refound ts j old {t} e =
    let (i, f) = find_idx-found (has_id t.id) ts j e (text_eq_refl t.id) in
    let (u, at, same) = find_idx-Fits (has_id t.id) ts i f in
    (i, u, rw (f, refind_active), at, (text_eq_iff u.id t.id).0 same)

-- After a reordering the active tab is the one with the identity of the old one.
pub reordered-active :
    (w : SessionWorkspace) (ts : List TerminalTabState) {t u : TerminalTabState}
    → active w ≡ some t
    → At ts u
    → u.id ≡ t.id
    → (v : TerminalTabState) × (active (reordered w ts) ≡ some v) × (v.id ≡ t.id) × At ts v
unfolding active
reordered-active w ts {t} {u} e (j, at) same =
    let (i, v, r, f, q) = refound ts j w.active_index at in
    (v, rw (active-some w e, ← same, r) f, q ∙ same, (i, f))

-- Some tab is active if there is any.
pub active_of_IsValid :
    (w : SessionWorkspace)
    → IsValid w
    → 0 < length w.tabs
    → (t : TerminalTabState) × (active w ≡ some t)
unfolding active
active_of_IsValid w v h = at_active w.tabs w.active_index v.active_in_range h
  where
    at_active :
        (ts : List TerminalTabState) (i : ℤ)
        → InRange i (length ts)
        → 0 < length ts
        → (t : TerminalTabState) × (at_index ts i ≡ some t)
    at_active ts (pos i) r k = get_elem?_of_lt ts i r
    at_active ts (negsuc n) r k = absurd (omega arith)

pub active-At : (w : SessionWorkspace) {t : TerminalTabState} → active w ≡ some t → At w.tabs t
unfolding active
active-At w {t} e = position w.tabs w.active_index e
  where
    position : (ts : List TerminalTabState) (i : ℤ) → at_index ts i ≡ some t → At ts t
    position ts (pos i) q = (i, q)
    position ts (negsuc n) q = cc

-- Any tab of the list is in it after one is taken out and put in again unchanged.
At-reinserted :
    (ts : List TerminalTabState) (from target : ℕ) {x t : TerminalTabState}
    → get_elem? ts from ≡ some x
    → At ts t
    → At (insert_idx (erase_idx ts from) target x) t
At-reinserted ts from target {x} {t} e (j, f) = elim (At-erase_idx ts from j e f) [
  | inl same ↦
      subst (At (insert_idx (erase_idx ts from) target x)) same
        (At-insert_idx_self (erase_idx ts from) target x)
  | inr (k, g) ↦ At-insert_idx (erase_idx ts from) target x k g
]

-- What a successful `Move` found, and what it did.
pub record Moved (w : SessionWorkspace) (id : Text) (target : ℕ) : Type 0 where
  pub from : ℕ
  pub tab : TerminalTabState
  pub found : get_elem? w.tabs from ≡ some tab
  pub named : tab.id ≡ id
  pub target_in_range : target < length w.tabs
  pub outcome :
      (move w id (pos target)).0 ≡ reordered w (insert_idx (erase_idx w.tabs from) target tab)

move_from-Moved :
    (w : SessionWorkspace) (from target : ℕ) (o o' : Option TerminalTabState)
    → get_elem? w.tabs from ≡ o
    → get_elem? w.tabs target ≡ o'
    → (move_from w from target o o').1 ≡ true
    → (x : TerminalTabState) × (o ≡ some x)
      × (target < length w.tabs)
      × ((move_from w from target o o').0
          ≡ reordered w (insert_idx (erase_idx w.tabs from) target x))
unfolding move_from
move_from-Moved w from target none o' e e' h = cc
move_from-Moved w from target (some x) none e e' h = cc
move_from-Moved w from target (some x) (some y) e e' h =
    elim (Bool-cases (from == target || not (bool_eq x.pinned y.pinned))) [
      | inl refused ↦ cc (rw refused at h)
      | inr moved ↦ (
        x,
        refl,
        lt-length_of_get_elem? w.tabs target e',
        rw (
          moved,
          shift_tabs_lem from target x w.tabs (lt-length_of_get_elem? w.tabs from e)
              (lt-length_of_get_elem? w.tabs target e'),
        ),
      )
    ]

still_active :
    (w : SessionWorkspace) (from target : ℕ) (x : TerminalTabState)
    → get_elem? w.tabs from ≡ some x
    → IsValid w
    → IsValid (reordered w (insert_idx (erase_idx w.tabs from) target x))
    → active (reordered w (insert_idx (erase_idx w.tabs from) target x)) ≡ active w
still_active w from target x e v after =
    let ts = insert_idx (erase_idx w.tabs from) target x in
    let (t, a) = active_of_IsValid w v (omega (arith, lt-length_of_get_elem? w.tabs from e)) in
    let (j, f) = At-reinserted w.tabs from target e (active-At w a) in
    let (u, b, same, (i, g)) = reordered-active w ts a (j, f) refl in
    b ∙ ap some (Distinct-unique ts i j after.are_tabs.distinct g f same) ∙ sym a

pub move-Moved :
    (w : SessionWorkspace) (id : Text) (target : ℕ)
    → (move w id (pos target)).1 ≡ true
    → Moved w id target
unfolding move
move-Moved w id target h = elim (Bool-cases (is_blank id)) [
  | inl e ↦ cc (rw (e, move) at h)
  | inr e ↦ elim (Option-cases (find_idx (has_id id) w.tabs)) [
    | inl f ↦ cc (rw (e, f, move) at h)
    | inr (from, f) ↦
        let (x, at, same) = find_idx-Fits (has_id id) w.tabs from f in
        let (y, o, inside, r) =
          move_from-Moved w from target _ _ refl refl (rw (e, f, move) at h) in
        record {
          from = from;
          tab = y;
          found = o;
          named =
              ap (λ (v : TerminalTabState). v.id) (some_inj (sym o ∙ at))
              ∙ (text_eq_iff x.id id).0 same;
          target_in_range = inside;
          outcome = rw (e, f, move) r;
        }
  ]
]

-- A successful `Move` of a valid workspace permutes the tabs, puts the named one at its target,
-- and leaves the same tab active, every field of it included.
pub move_lem :
    (w : SessionWorkspace) (id : Text) (target : ℕ)
    → IsValid w
    → (move w id (pos target)).1 ≡ true
    → Perm (move w id (pos target)).0.tabs w.tabs
      × ((t : TerminalTabState) × (tab_at (move w id (pos target)).0 (pos target) ≡ some t)
          × (t.id ≡ id))
      × (active (move w id (pos target)).0 ≡ active w)
unfolding active
move_lem w id target v h =
    let m = move-Moved w id target h in
    let ts = insert_idx (erase_idx w.tabs m.from) target m.tab in
    let shorter = length-erase_idx w.tabs m.from (lt-length_of_get_elem? w.tabs m.from m.found) in
    rw m.outcome (
      Perm.trans (insert_idx-perm (erase_idx w.tabs m.from) target m.tab)
          (erase_idx-perm w.tabs m.from m.found),
      (
        m.tab,
        get_elem?-insert_idx (erase_idx w.tabs m.from) target m.tab
            (omega (arith, shorter, m.target_in_range)),
        m.named,
      ),
      still_active w m.from target m.tab m.found v
          (subst IsValid m.outcome (move-IsValid id (pos target) v)),
    )
