-- ===== src/Workspace/Preserve.antt =====
-- The methods of guis/session_workspace.go that add, remove or reorder tabs keep the invariant.
use nbterminal.Base.{
  ℕ, ◌+◌, ◌<◌, ◌%◌, ◌≡◌, refl, sym, ◌∙◌, subst, ◌≢◌, inl, inr, Bool, false, Option, none, some,
  List, [], ◌∷◌, ◌++◌, arith, Bool-cases, Option-cases, length, get_elem?, erase_idx, insert_idx,
  find_idx, All, All-insert_idx, All-erase_idx, All-get_elem?, Text, length-append,
  length-erase_idx, length-insert_idx, lt-length_of_get_elem?, find_idx-Fits, is_blank, not, ◌||◌,
  ◌==◌, bool_eq,
}
use nbterminal.Base.Int.{InRange, ℤ, pos, negsuc}
use nbterminal.Profile.{ConnectionProfile}
use nbterminal.Workspace.Tabs.{
  TerminalTabState, SessionWorkspace, runtime_id, open_profile, uint64_mod, active,
}
use nbterminal.Workspace.ById.{has_id}
use nbterminal.Workspace.Order.{
  reordered, refind_active, active_id, move_from, move, move_active, repin, set_pinned, is_one_step,
}
use nbterminal.Workspace.Frame.{
  PinnedFirst, Issued, Distinct-insert_idx, Distinct-erase_idx, erased-alone, PinnedFirst-erase_idx,
  PinnedFirst-boundary,
}
use nbterminal.Workspace.Shift.{shift_tabs_lem, PinnedFirst-shift}
use nbterminal.Workspace.Invariant.{AreTabs, IsValid, AreTabs-append_end}

no_wrap : (n : ℕ) → n + 1 < uint64_mod → (n + 1) % uint64_mod ≡ n + 1
no_wrap n h = omega arith

opened-IsValid :
    {w : SessionWorkspace} (t : TerminalTabState)
    → t.id ≡ runtime_id (w.next_runtime_id + 1)
    → t.pinned ≡ false
    → IsValid w
    → IsValid (record w {
      tabs = w.tabs ++ t ∷ [];
      active_index = pos (length w.tabs);
      next_runtime_id = w.next_runtime_id + 1;
    })
opened-IsValid {w} t e p v = record {
  active_in_range = omega (arith, length-append w.tabs (t ∷ []));
  are_tabs = AreTabs-append_end t e p v.are_tabs;
  closed_bounded = v.closed_bounded;
}

pub open_profile-IsValid :
    (welcome : Text) {w : SessionWorkspace} (p : ConnectionProfile)
    → w.next_runtime_id + 1 < uint64_mod
    → IsValid w
    → IsValid (open_profile welcome w p).0
unfolding open_profile
open_profile-IsValid welcome {w} p small v = elim (Bool-cases (is_blank p.id)) [
  | inl e ↦ rw e v
  | inr e ↦ rw (e, no_wrap w.next_runtime_id small) (opened-IsValid _ refl refl v)
]

-- The active tab is found again, or the old index is still good.
refind_active-InRange :
    (id : Text) (ts : List TerminalTabState) (old : ℤ)
    → InRange old (length ts)
    → InRange (refind_active id ts old) (length ts)
unfolding refind_active
refind_active-InRange id ts old h = elim (Option-cases (find_idx (has_id id) ts)) [
  | inl e ↦ rw (e, InRange) h
  | inr (i, e) ↦ rw (e, InRange) (lt-length_of_get_elem? ts i (find_idx-Fits (has_id id) ts i e).1)
]

pub reordered-IsValid :
    {w : SessionWorkspace} (ts : List TerminalTabState)
    → length ts ≡ length w.tabs
    → AreTabs w.next_runtime_id ts
    → IsValid w
    → IsValid (reordered w ts)
reordered-IsValid {w} ts e a v = record {
  active_in_range = refind_active-InRange (active_id w) ts w.active_index (rw e v.active_in_range);
  are_tabs = a;
  closed_bounded = v.closed_bounded;
}

-- A tab taken out and put in again, with its identity.
reinserted-AreTabs :
    {n : ℕ} {ts : List TerminalTabState} (i j : ℕ) {t : TerminalTabState} (u : TerminalTabState)
    → get_elem? ts i ≡ some t
    → u.id ≡ t.id
    → PinnedFirst (insert_idx (erase_idx ts i) j u)
    → AreTabs n ts
    → AreTabs n (insert_idx (erase_idx ts i) j u)
reinserted-AreTabs {n} {ts} i j {t} u e same pins a = record {
  issued =
      let (k, le, q) = All-get_elem? (Issued n) ts i a.issued e in
      All-insert_idx (Issued n) (erase_idx ts i) j u (k, le, same ∙ q)
        (All-erase_idx (Issued n) ts i a.issued);
  distinct =
      Distinct-insert_idx (erase_idx ts i) j u
        (subst (λ (id : Text). All (λ (v : TerminalTabState). id ≢ v.id) (erase_idx ts i))
          (sym same) (erased-alone ts i a.distinct e))
        (Distinct-erase_idx ts i a.distinct);
  pinned_first = pins;
}

length-reinserted :
    (ts : List TerminalTabState) (i j : ℕ) {t : TerminalTabState} (u : TerminalTabState)
    → get_elem? ts i ≡ some t
    → length (insert_idx (erase_idx ts i) j u) ≡ length ts
length-reinserted ts i j u e =
    length-insert_idx (erase_idx ts i) j u ∙ length-erase_idx ts i (lt-length_of_get_elem? ts i e)

move_from-IsValid :
    {w : SessionWorkspace} (from target : ℕ) (o o' : Option TerminalTabState)
    → get_elem? w.tabs from ≡ o
    → get_elem? w.tabs target ≡ o'
    → IsValid w
    → IsValid (move_from w from target o o').0
unfolding move_from
move_from-IsValid from target none o' e e' v = v
move_from-IsValid from target (some x) none e e' v = v
move_from-IsValid {w} from target (some x) (some y) e e' v =
    elim (Bool-cases (from == target || not (bool_eq x.pinned y.pinned))) [
      | inl refused ↦ rw refused v
      | inr moved ↦
          rw
            (
              moved,
              shift_tabs_lem from target x w.tabs (lt-length_of_get_elem? w.tabs from e)
                  (lt-length_of_get_elem? w.tabs target e'),
            )
            (reordered-IsValid (insert_idx (erase_idx w.tabs from) target x)
              (length-reinserted w.tabs from target x e)
              (reinserted-AreTabs from target x e refl
                (PinnedFirst-shift w.tabs from target e e' (ground arith) v.are_tabs.pinned_first)
                v.are_tabs)
              v)
    ]

pub move-IsValid :
    {w : SessionWorkspace} (id : Text) (target : ℤ) → IsValid w → IsValid (move w id target).0
unfolding move
move-IsValid id (negsuc n) v = v
move-IsValid {w} id (pos target) v = elim (Bool-cases (is_blank id)) [
  | inl e ↦ rw e v
  | inr e ↦ elim (Option-cases (find_idx (has_id id) w.tabs)) [
    | inl f ↦ rw (e, f) v
    | inr (from, f) ↦ rw (e, f) (move_from-IsValid from target _ _ refl refl v)
  ]
]

pub move_active-IsValid :
    {w : SessionWorkspace} (delta : ℤ) → IsValid w → IsValid (move_active w delta).0
unfolding move_active
move_active-IsValid {w} delta v = elim (Bool-cases (is_one_step delta)) [
  | inl e ↦ elim (Option-cases (active w)) [
    | inl f ↦ rw (e, f) v
    | inr (t, f) ↦ rw (e, f) (move-IsValid t.id _ v)
  ]
  | inr e ↦ rw e v
]

repin-IsValid :
    {w : SessionWorkspace} (pinned : Bool) (i : ℕ) (o : Option TerminalTabState)
    → get_elem? w.tabs i ≡ o
    → IsValid w
    → IsValid (repin w pinned i o).0
unfolding repin
repin-IsValid pinned i none e v = v
repin-IsValid {w} pinned i (some t) e v = elim (Bool-cases (bool_eq t.pinned pinned)) [
  | inl same ↦ rw same v
  | inr new ↦ rw new (
      reordered-IsValid _ (length-reinserted w.tabs i _ _ e)
        (reinserted-AreTabs i _ (record t { pinned = pinned }) e refl
          (PinnedFirst-boundary (erase_idx w.tabs i) _
            (PinnedFirst-erase_idx w.tabs i v.are_tabs.pinned_first))
          v.are_tabs)
        v)
]

pub set_pinned-IsValid :
    {w : SessionWorkspace} (id : Text) (pinned : Bool)
    → IsValid w
    → IsValid (set_pinned w id pinned).0
unfolding set_pinned
set_pinned-IsValid {w} id pinned v = elim (Bool-cases (is_blank id)) [
  | inl e ↦ rw e v
  | inr e ↦ elim (Option-cases (find_idx (has_id id) w.tabs)) [
    | inl f ↦ rw (e, f) v
    | inr (i, f) ↦ rw (e, f) (repin-IsValid pinned i _ refl v)
  ]
]
