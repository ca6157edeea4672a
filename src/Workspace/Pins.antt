-- ===== src/Workspace/Pins.antt =====
-- What `SetPinned` of guis/session_workspace.go does.
use nbterminal.Base.{
  ℕ, ◌≡◌, refl, sym, ap, ◌∙◌, subst, inl, inr, Bool, true, some, List, arith, Bool-cases,
  Option-cases, get_elem?, erase_idx, insert_idx, count_while, find_idx, Text, text_eq_iff,
  lt-length_of_get_elem?, find_idx-Fits, At, At-insert_idx, At-insert_idx_self, At-erase_idx,
  is_blank, bool_eq, bool_eq→eq,
}
use nbterminal.Workspace.Tabs.{TerminalTabState, SessionWorkspace}
use nbterminal.Workspace.ById.{has_id}
use nbterminal.Workspace.Order.{reordered, active_id, is_pinned, repin, set_pinned}
use nbterminal.Workspace.Invariant.{IsValid}
use nbterminal.Workspace.Moves.{reordered-active, active-some, active_of_IsValid, active-At}

-- A tab with the identity and the pin stands in the list, and the active tab is the same one.
abbrev pub IsRepinned : SessionWorkspace → Text → Bool → SessionWorkspace → Type 0
IsRepinned w id pinned w' =
    ((t : TerminalTabState) × At w'.tabs t × (t.id ≡ id) × (t.pinned ≡ pinned))
    × (active_id w' ≡ active_id w)

At-repinned :
    (ts : List TerminalTabState) (i n : ℕ) {x t : TerminalTabState} (y : TerminalTabState)
    → get_elem? ts i ≡ some x
    → y.id ≡ x.id
    → At ts t
    → (u : TerminalTabState) × At (insert_idx (erase_idx ts i) n y) u × (u.id ≡ t.id)
At-repinned ts i n {x} {t} y e same (j, f) = elim (At-erase_idx ts i j e f) [
  | inl q ↦
      (y, At-insert_idx_self (erase_idx ts i) n y, same ∙ ap (λ (v : TerminalTabState). v.id) q)
  | inr (k, g) ↦ (t, At-insert_idx (erase_idx ts i) n y k g, refl)
]

repin-IsRepinned :
    (w : SessionWorkspace) (pinned : Bool) (i : ℕ) {t : TerminalTabState}
    → get_elem? w.tabs i ≡ some t
    → IsValid w
    → IsRepinned w t.id pinned (repin w pinned i (some t)).0
unfolding repin
repin-IsRepinned w pinned i {t} e v = elim (Bool-cases (bool_eq t.pinned pinned)) [
  | inl same ↦ rw same ((t, (i, e), refl, bool_eq→eq t.pinned pinned same), refl)
  | inr new ↦
      let y : TerminalTabState = record t { pinned = pinned } in
      let rest = erase_idx w.tabs i in
      let n = count_while is_pinned rest in
      let (a, b) = active_of_IsValid w v (omega (arith, lt-length_of_get_elem? w.tabs i e)) in
      let (u, at, q) = At-repinned w.tabs i n y e refl (active-At w b) in
      let (z, c, p, _) = reordered-active w (insert_idx rest n y) b at q in
      rw new (
        (y, At-insert_idx_self rest n y, refl, refl),
        active-some (reordered w (insert_idx rest n y)) c ∙ p ∙ sym (active-some w b),
      )
]

-- A successful `SetPinned` of a valid workspace leaves a tab with the given identity and pin in
-- the list, and the active tab keeps its identity.
pub set_pinned_lem :
    (w : SessionWorkspace) (id : Text) (pinned : Bool)
    → IsValid w
    → (set_pinned w id pinned).1 ≡ true
    → IsRepinned w id pinned (set_pinned w id pinned).0
unfolding set_pinned
set_pinned_lem w id pinned v h = elim (Bool-cases (is_blank id)) [
  | inl e ↦ cc (rw (e, set_pinned) at h)
  | inr e ↦ elim (Option-cases (find_idx (has_id id) w.tabs)) [
    | inl f ↦ cc (rw (e, f, set_pinned) at h)
    | inr (i, f) ↦
        let (t, at, same) = find_idx-Fits (has_id id) w.tabs i f in
        rw (e, f, at, set_pinned)
          (subst (λ (k : Text). IsRepinned w k pinned (repin w pinned i (some t)).0)
            ((text_eq_iff t.id id).0 same) (repin-IsRepinned w pinned i at v))
  ]
]
