-- ===== src/Workspace/Invariant.antt =====
-- What holds of the workspace of guis/session_workspace.go between two calls.
use nbterminal.Base.{
  ℕ, ◌+◌, ◌≤◌, ◌≡◌, refl, sym, ◌∙◌, ◌≢◌, inl, inr, Bool, false, Option, some, List, [], ◌∷◌, ◌++◌,
  arith, Option-cases, length, get_elem?, set, All, All-append_end, All-map, Text,
}
use nbterminal.Base.Int.{InRange, ℤ, pos, negsuc}
use nbterminal.Workspace.Tabs.{
  TerminalTabState, SessionWorkspace, runtime_id, runtime_id-injective, update_at, or_refused,
  new_session_workspace,
}
use nbterminal.Workspace.ById.{update_first, with_tabs}
use nbterminal.Workspace.Lifecycle.{closed_limit}
use nbterminal.Workspace.Frame.{
  Distinct, PinnedFirst, Issued, Kept, IsEdit, IsEdit?, set-Kept, update_first-Kept, length-Kept,
  Distinct-Kept, PinnedFirst-Kept, Issued-Kept, Distinct-append_end, PinnedFirst-append_end,
}

-- The tabs alone: distinct identities, all of them given out, pinned tabs first.
pub record AreTabs (n : ℕ) (ts : List TerminalTabState) : Type 0 where
  pub issued : All (Issued n) ts
  pub distinct : Distinct ts
  pub pinned_first : PinnedFirst ts

pub record IsValid (w : SessionWorkspace) : Type 0 where
  pub active_in_range : InRange w.active_index (length w.tabs)
  pub are_tabs : AreTabs w.next_runtime_id w.tabs
  pub closed_bounded : length w.closed_profiles ≤ closed_limit

pub new-IsValid : IsValid new_session_workspace
unfolding new_session_workspace
new-IsValid = record {
  active_in_range = (refl, refl);
  are_tabs = record { issued = tt; distinct = tt; pinned_first = tt };
  closed_bounded = omega arith;
}

-- A change of tabs that keeps identities and pins keeps the rest.
pub AreTabs-Kept :
    {n : ℕ} {ts us : List TerminalTabState} → Kept ts us → AreTabs n ts → AreTabs n us
AreTabs-Kept {n} {ts} {us} k a = record {
  issued = Issued-Kept n ts us k a.issued;
  distinct = Distinct-Kept ts us k a.distinct;
  pinned_first = PinnedFirst-Kept ts us k a.pinned_first;
}

pub Kept-IsValid :
    {w : SessionWorkspace} {us : List TerminalTabState}
    → Kept w.tabs us
    → IsValid w
    → IsValid (record w { tabs = us })
Kept-IsValid {w} {us} k v = record {
  active_in_range = rw (length-Kept w.tabs us k) v.active_in_range;
  are_tabs = AreTabs-Kept k v.are_tabs;
  closed_bounded = v.closed_bounded;
}

-- The methods that edit one tab, by its identity or at an index.
pub update_first-IsValid :
    {w : SessionWorkspace} (fits : TerminalTabState → Bool)
    (act : TerminalTabState → Option TerminalTabState)
    → IsEdit? act
    → IsValid w
    → IsValid (or_refused w (with_tabs w (update_first fits act w.tabs))).0
update_first-IsValid {w} fits act edit v = elim (Option-cases (update_first fits act w.tabs)) [
  | inl e ↦ rw e v
  | inr (us, e) ↦ rw e (Kept-IsValid (update_first-Kept fits act edit w.tabs e) v)
]

pub set-IsValid :
    {w : SessionWorkspace} (i : ℕ) (f : TerminalTabState → TerminalTabState)
    → IsEdit f
    → {t : TerminalTabState} → get_elem? w.tabs i ≡ some t
    → IsValid w
    → IsValid (record w { tabs = set w.tabs i (f t) })
set-IsValid {w} i f edit e v = Kept-IsValid (set-Kept w.tabs i f edit e) v

pub update_at-IsValid :
    {w : SessionWorkspace} (i : ℤ) (f : TerminalTabState → TerminalTabState)
    → IsEdit f
    → IsValid w
    → IsValid (or_refused w (update_at w i f)).0
update_at-IsValid (negsuc n) f edit v = v
update_at-IsValid {w} (pos i) f edit v = elim (Option-cases (get_elem? w.tabs i)) [
  | inl e ↦ rw (e, or_refused) v
  | inr (t, e) ↦ rw (e, or_refused) (set-IsValid i f edit e v)
]

-- An identity that was not given out yet differs from all that were.
fresh-distinct :
    (n : ℕ) (ts : List TerminalTabState) (id : Text)
    → id ≡ runtime_id (n + 1)
    → All (Issued n) ts
    → All (λ u. u.id ≢ id) ts
fresh-distinct n ts id e h =
    All-map (Issued n) (λ u. u.id ≢ id) ts
      (λ u (k, le, q) same.
        absurd (omega (arith, runtime_id-injective k (n + 1) (sym q ∙ same ∙ e))))
      h

Issued-later :
    (n m : ℕ) → n ≤ m → (ts : List TerminalTabState) → All (Issued n) ts → All (Issued m) ts
Issued-later n m le ts h =
    All-map (Issued n) (Issued m) ts (λ u (k, small, q). (k, omega arith, q)) h

pub AreTabs-append_end :
    {n : ℕ} {ts : List TerminalTabState} (t : TerminalTabState)
    → t.id ≡ runtime_id (n + 1)
    → t.pinned ≡ false
    → AreTabs n ts
    → AreTabs (n + 1) (ts ++ t ∷ [])
AreTabs-append_end {n} {ts} t e p a = record {
  issued =
      All-append_end (Issued (n + 1)) ts t (Issued-later n (n + 1) (omega arith) ts a.issued)
        (n + 1, omega arith, e);
  distinct = Distinct-append_end ts t (fresh-distinct n ts t.id e a.issued) a.distinct;
  pinned_first = PinnedFirst-append_end ts t p a.pinned_first;
}
