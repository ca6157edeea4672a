-- ===== src/Workspace/Frame.antt =====
-- Properties of the list of tabs of guis/session_workspace.go, and what keeps them.
use nbterminal.Base.{
  ℕ, zero, suc, ◌≤◌, ◌≡◌, refl, sym, ap, ◌∙◌, subst, ◌≢◌, inl, inr, Bool, true, false, Option, some,
  List, [], ◌∷◌, ◌++◌, arith, Bool-cases, Option-cases, some_inj, length, get_elem?, set, erase_idx,
  insert_idx, count_while, All, All-append_end, All-insert_idx, All-erase_idx, All-get_elem?,
}
use nbterminal.Workspace.Tabs.{TerminalTabState, runtime_id}
use nbterminal.Workspace.ById.{update_first}
use nbterminal.Workspace.Order.{is_pinned}

-- No two tabs have one identity.
abbrev pub Distinct : List TerminalTabState → Type 0
Distinct [] = Unit
Distinct (t ∷ ts) = All (λ u. t.id ≢ u.id) ts × Distinct ts

abbrev pub IsOrdinary : TerminalTabState → Type 0
IsOrdinary t = t.pinned ≡ false

-- The pinned tabs stand in front of the ordinary ones.
abbrev pub PinnedFirst : List TerminalTabState → Type 0
PinnedFirst [] = Unit
PinnedFirst (t ∷ ts) = (t.pinned ≡ false → All IsOrdinary ts) × PinnedFirst ts

-- The identity is one of the first `n` that were given out.
abbrev pub Issued : ℕ → TerminalTabState → Type 0
Issued n t = (k : ℕ) × (k ≤ n) × (t.id ≡ runtime_id k)

-- The same tabs in the same order, up to what is neither the identity nor the pin.
abbrev pub Kept : List TerminalTabState → List TerminalTabState → Type 0
Kept [] [] = Unit
Kept (t ∷ ts) (u ∷ us) = (u.id ≡ t.id) × (u.pinned ≡ t.pinned) × Kept ts us
Kept _ _ = ⊥

pub Kept-refl : (ts : List TerminalTabState) → Kept ts ts
Kept-refl [] = tt
Kept-refl (t ∷ ts) = (refl, refl, Kept-refl ts)

-- A change of one tab that leaves its identity and its pin alone.
abbrev pub IsEdit : (TerminalTabState → TerminalTabState) → Type 0
IsEdit f = (t : TerminalTabState) → ((f t).id ≡ t.id) × ((f t).pinned ≡ t.pinned)

pub set-Kept :
    (ts : List TerminalTabState) (i : ℕ) (f : TerminalTabState → TerminalTabState)
    → IsEdit f
    → {t : TerminalTabState} → get_elem? ts i ≡ some t
    → Kept ts (set ts i (f t))
set-Kept [] i f h e = tt
set-Kept (u ∷ ts) zero f h {t} e =
    let same : u ≡ t = some_inj e in
    (
      (h t).0 ∙ ap (λ (v : TerminalTabState). v.id) (sym same),
      (h t).1 ∙ ap (λ (v : TerminalTabState). v.pinned) (sym same),
      Kept-refl ts,
    )
set-Kept (u ∷ ts) (suc i) f h e = (refl, refl, set-Kept ts i f h e)

-- What an action on one tab may do: refuse, or make an edit.
abbrev pub IsEdit? : (TerminalTabState → Option TerminalTabState) → Type 0
IsEdit? act = (t u : TerminalTabState) → act t ≡ some u → (u.id ≡ t.id) × (u.pinned ≡ t.pinned)

pub update_first-Kept :
    (fits : TerminalTabState → Bool) (act : TerminalTabState → Option TerminalTabState)
    → IsEdit? act
    → (ts : List TerminalTabState) {us : List TerminalTabState} → update_first fits act ts ≡ some us
    → Kept ts us
unfolding update_first
update_first-Kept fits act edit [] h = cc
update_first-Kept fits act edit (t ∷ ts) {us} h = elim (Bool-cases (fits t)) [
  | inl e ↦ elim (Option-cases (act t)) [
    | inl n ↦ cc (rw (e, n) at h)
    | inr (u, s) ↦
        subst (Kept (t ∷ ts)) (some_inj (rw (e, s) at h))
          ((edit t u s).0, (edit t u s).1, Kept-refl ts)
  ]
  | inr e ↦ elim (Option-cases (update_first fits act ts)) [
    | inl n ↦ cc (rw (e, n) at h)
    | inr (vs, s) ↦
        subst (Kept (t ∷ ts)) (some_inj (rw (e, s) at h))
          (refl, refl, update_first-Kept fits act edit ts s)
  ]
]

pub length-Kept : (ts us : List TerminalTabState) → Kept ts us → length us ≡ length ts
length-Kept [] [] k = refl
length-Kept [] (u ∷ us) k = absurd k
length-Kept (t ∷ ts) [] k = absurd k
length-Kept (t ∷ ts) (u ∷ us) k = ap suc (length-Kept ts us k.2)

-- A property of the identity and the pin holds of the changed tabs too.
pub All-Kept :
    (P : TerminalTabState → Type 0)
    → ((t u : TerminalTabState) → u.id ≡ t.id → u.pinned ≡ t.pinned → P t → P u)
    → (ts us : List TerminalTabState) → Kept ts us
    → All P ts
    → All P us
All-Kept P f [] [] k h = tt
All-Kept P f [] (u ∷ us) k h = absurd k
All-Kept P f (t ∷ ts) [] k h = absurd k
All-Kept P f (t ∷ ts) (u ∷ us) k h = (f t u k.0 k.1 h.0, All-Kept P f ts us k.2 h.1)

pub Distinct-Kept : (ts us : List TerminalTabState) → Kept ts us → Distinct ts → Distinct us
Distinct-Kept [] [] k h = tt
Distinct-Kept [] (u ∷ us) k h = absurd k
Distinct-Kept (t ∷ ts) [] k h = absurd k
Distinct-Kept (t ∷ ts) (u ∷ us) k h = (
  All-Kept (λ v. u.id ≢ v.id) (λ a b e _ n q. n (q ∙ e)) ts us k.2 (rw (← k.0) at h.0),
  Distinct-Kept ts us k.2 h.1,
)

pub PinnedFirst-Kept :
    (ts us : List TerminalTabState) → Kept ts us → PinnedFirst ts → PinnedFirst us
PinnedFirst-Kept [] [] k h = tt
PinnedFirst-Kept [] (u ∷ us) k h = absurd k
PinnedFirst-Kept (t ∷ ts) [] k h = absurd k
PinnedFirst-Kept (t ∷ ts) (u ∷ us) k h = (
  λ e. All-Kept IsOrdinary (λ a b _ q r. q ∙ r) ts us k.2 (h.0 (sym k.1 ∙ e)),
  PinnedFirst-Kept ts us k.2 h.1,
)

pub Issued-Kept :
    (n : ℕ) (ts us : List TerminalTabState) → Kept ts us → All (Issued n) ts → All (Issued n) us
Issued-Kept n ts us k h = All-Kept (Issued n) (λ a b e _ (m, le, q). (m, le, e ∙ q)) ts us k h

-- Insertion and removal.
pub Distinct-insert_idx :
    (ts : List TerminalTabState) (i : ℕ) (t : TerminalTabState)
    → All (λ u. t.id ≢ u.id) ts
    → Distinct ts
    → Distinct (insert_idx ts i t)
Distinct-insert_idx ts zero t n h = (n, h)
Distinct-insert_idx [] (suc i) t n h = (tt, tt)
Distinct-insert_idx (u ∷ ts) (suc i) t n h = (
  All-insert_idx (λ v. u.id ≢ v.id) ts i t (λ e. n.0 (sym e)) h.0,
  Distinct-insert_idx ts i t n.1 h.1,
)

pub Distinct-append_end :
    (ts : List TerminalTabState) (t : TerminalTabState)
    → All (λ u. u.id ≢ t.id) ts
    → Distinct ts
    → Distinct (ts ++ t ∷ [])
Distinct-append_end [] t n h = (tt, tt)
Distinct-append_end (u ∷ ts) t n h =
    (All-append_end (λ v. u.id ≢ v.id) ts t h.0 n.0, Distinct-append_end ts t n.1 h.1)

pub Distinct-erase_idx :
    (ts : List TerminalTabState) (i : ℕ) → Distinct ts → Distinct (erase_idx ts i)
Distinct-erase_idx [] i h = tt
Distinct-erase_idx (u ∷ ts) zero h = h.1
Distinct-erase_idx (u ∷ ts) (suc i) h =
    (All-erase_idx (λ v. u.id ≢ v.id) ts i h.0, Distinct-erase_idx ts i h.1)

-- The tab that is taken out has no namesake among the others.
pub erased-alone :
    (ts : List TerminalTabState) (i : ℕ) {t : TerminalTabState}
    → Distinct ts
    → get_elem? ts i ≡ some t
    → All (λ u. t.id ≢ u.id) (erase_idx ts i)
erased-alone [] i h e = tt
erased-alone (u ∷ ts) zero h e =
    subst (λ (v : TerminalTabState). All (λ w. v.id ≢ w.id) ts) (some_inj e) h.0
erased-alone (u ∷ ts) (suc i) {t} h e =
    (λ q. All-get_elem? (λ v. u.id ≢ v.id) ts i h.0 e (sym q), erased-alone ts i h.1 e)

-- Two positions with one identity hold one tab.
pub Distinct-unique :
    (ts : List TerminalTabState) (i j : ℕ) {t u : TerminalTabState}
    → Distinct ts
    → get_elem? ts i ≡ some t
    → get_elem? ts j ≡ some u
    → t.id ≡ u.id
    → t ≡ u
Distinct-unique [] i j h a b e = cc
Distinct-unique (v ∷ ts) zero zero h a b e = cc
Distinct-unique (v ∷ ts) zero (suc j) {t} {u} h a b e =
    absurd (All-get_elem? (λ w. v.id ≢ w.id) ts j h.0 b (rw (some_inj a) e))
Distinct-unique (v ∷ ts) (suc i) zero {t} {u} h a b e =
    absurd (All-get_elem? (λ w. v.id ≢ w.id) ts i h.0 a (rw (some_inj b) (sym e)))
Distinct-unique (v ∷ ts) (suc i) (suc j) h a b e = Distinct-unique ts i j h.1 a b e

pub PinnedFirst-erase_idx :
    (ts : List TerminalTabState) (i : ℕ) → PinnedFirst ts → PinnedFirst (erase_idx ts i)
PinnedFirst-erase_idx [] i h = tt
PinnedFirst-erase_idx (u ∷ ts) zero h = h.1
PinnedFirst-erase_idx (u ∷ ts) (suc i) h =
    (λ e. All-erase_idx IsOrdinary ts i (h.0 e), PinnedFirst-erase_idx ts i h.1)

pub PinnedFirst-append_end :
    (ts : List TerminalTabState) (t : TerminalTabState)
    → t.pinned ≡ false
    → PinnedFirst ts
    → PinnedFirst (ts ++ t ∷ [])
PinnedFirst-append_end [] t p h = (λ _. tt, tt)
PinnedFirst-append_end (u ∷ ts) t p h =
    (λ e. All-append_end IsOrdinary ts t (h.0 e) p, PinnedFirst-append_end ts t p h.1)

boundary_pinned :
    (u : TerminalTabState) (ts : List TerminalTabState)
    → u.pinned ≡ true
    → count_while is_pinned (u ∷ ts) ≡ suc (count_while is_pinned ts)
boundary_pinned u ts e = ground arith

boundary_ordinary :
    (u : TerminalTabState) (ts : List TerminalTabState)
    → u.pinned ≡ false
    → count_while is_pinned (u ∷ ts) ≡ 0
boundary_ordinary u ts e = ground arith

-- A tab goes in between the pinned and the ordinary ones, whichever it is itself.
pub PinnedFirst-boundary :
    (ts : List TerminalTabState) (t : TerminalTabState)
    → PinnedFirst ts
    → PinnedFirst (insert_idx ts (count_while is_pinned ts) t)
PinnedFirst-boundary [] t h = (λ _. tt, tt)
PinnedFirst-boundary (u ∷ ts) t h = elim (Bool-cases u.pinned) [
  | inl e ↦
      subst (λ n. PinnedFirst (insert_idx (u ∷ ts) n t)) (sym (boundary_pinned u ts e))
        (λ q. cc (sym q ∙ e), PinnedFirst-boundary ts t h.1)
  | inr e ↦
      subst (λ n. PinnedFirst (insert_idx (u ∷ ts) n t)) (sym (boundary_ordinary u ts e))
        (λ _. (e, h.0 e), h)
]
