-- ===== src/Workspace/Runs.antt =====
-- Runs and background output of guis/session_workspace.go: `BeginRun`, `FinishRun`, `AppendOutput`.
use nbterminal.Base.{
  ℕ, zero, suc, ◌≡◌, refl, ◌≢◌, inl, inr, Bool, true, false, ◌||◌, some, List, [], ◌∷◌, ◌++◌, arith,
  Bool-cases, Option-cases, some_inj, All, get_elem?, set, Text, is_blank, text_eq_refl,
  text_eq_of_ne, All-get_elem?, lt-length_of_get_elem?, get_elem?-set_self,
}
use nbterminal.Base.Int.{ℤ, pos, negsuc}
use nbterminal.Workspace.Tabs.{
  TerminalTabState, SessionStatus, SessionWorkspace, running, active, at_index, update_at,
  or_refused,
}
use nbterminal.Workspace.ById.{
  is_running, update_first, owns_run, has_id, finish_run, append_output, edit_by_id,
}
use nbterminal.Workspace.Lifecycle.{begin_run}
use nbterminal.Workspace.Frame.{Distinct}

-- The first tab that fits is the one at `i`, if no tab before it fits.
update_first-set :
    (fits : TerminalTabState → Bool) (f : TerminalTabState → TerminalTabState)
    (ts : List TerminalTabState) (i : ℕ) {t : TerminalTabState} (u : TerminalTabState)
    → All (λ v. fits v ≡ false) ts
    → get_elem? ts i ≡ some t
    → fits u ≡ true
    → update_first fits (λ v. some (f v)) (set ts i u) ≡ some (set ts i (f u))
unfolding update_first
update_first-set fits f [] i u none_fits e h = cc
update_first-set fits f (v ∷ ts) zero u none_fits e h = rw h
update_first-set fits f (v ∷ ts) (suc i) u none_fits e h =
    rw (none_fits.0, update_first-set fits f ts i u none_fits.1 e h)

update_first-get_elem? :
    (f : TerminalTabState → TerminalTabState) (ts : List TerminalTabState) (i : ℕ)
    {t : TerminalTabState}
    → Distinct ts
    → get_elem? ts i ≡ some t
    → update_first (has_id t.id) (λ v. some (f v)) ts ≡ some (set ts i (f t))
unfolding update_first
update_first-get_elem? f [] i h e = cc
update_first-get_elem? f (v ∷ ts) zero {t} h e = rw (some_inj e, text_eq_refl t.id)
update_first-get_elem? f (v ∷ ts) (suc i) {t} h e = rw (
  text_eq_of_ne v.id t.id (All-get_elem? (λ u. v.id ≢ u.id) ts i h.0 e),
  update_first-get_elem? f ts i h.1 e,
)

-- Output for a tab that need not be the active one reaches that tab, and nothing else changes.
pub append_output_lem :
    (w : SessionWorkspace) (i : ℕ) {t : TerminalTabState} (more : Text)
    → Distinct w.tabs
    → get_elem? w.tabs i ≡ some t
    → append_output w t.id more
      ≡ (record w { tabs = set w.tabs i (record t { output = t.output ++ more }) }, true)
unfolding append_output edit_by_id
append_output_lem w i {t} more h e =
    rw (update_first-get_elem? (λ v. record v { output = v.output ++ more }) w.tabs i h e)

active_at :
    (w : SessionWorkspace) (a : ℕ) {t : TerminalTabState}
    → w.active_index ≡ pos a
    → get_elem? w.tabs a ≡ some t
    → active w ≡ some t
unfolding active
active_at w a i e = rw i e

update_at_found :
    (w : SessionWorkspace) (i : ℤ) (a : ℕ) (f : TerminalTabState → TerminalTabState)
    {t : TerminalTabState}
    → i ≡ pos a
    → get_elem? w.tabs a ≡ some t
    → or_refused w (update_at w i f) ≡ (record w { tabs = set w.tabs a (f t) }, true)
update_at_found w i a f q e = rw q (rw (e, or_refused))

-- What `BeginRun` does to an active tab that does not run.
begin_run-outcome :
    (w : SessionWorkspace) (run : Text) (a : ℕ) {t : TerminalTabState}
    → w.active_index ≡ pos a
    → get_elem? w.tabs a ≡ some t
    → is_blank run ≡ false
    → is_running t.status ≡ false
    → begin_run w run
      ≡ (record w { tabs = set w.tabs a (record t { status = running; run_id = run }) }, true)
unfolding begin_run
begin_run-outcome w run a {t} i e named idle =
    let at : active w ≡ some t = active_at w a i e in
    rw (at, named, idle, begin_run)
      (update_at_found w w.active_index a (λ v. record v { status = running; run_id = run }) i e)

-- A run that begins in an idle tab and whose token no other run has ends in the same tab: the tab
-- is as it was but for the given status and an empty token, and so is the workspace.
pub finish_run-begin_run :
    (w : SessionWorkspace) (run : Text) (s : SessionStatus) (a : ℕ) {t : TerminalTabState}
    → w.active_index ≡ pos a
    → get_elem? w.tabs a ≡ some t
    → is_blank run ≡ false
    → is_running t.status ≡ false
    → All (λ u. owns_run run u ≡ false) w.tabs
    → ((begin_run w run).1 ≡ true)
      × (finish_run (begin_run w run).0 run s
          ≡ (record w { tabs = set w.tabs a (record t { status = s; run_id = [] }) }, true))
unfolding finish_run
finish_run-begin_run w run s a {t} i e named idle alone =
    rw
      (
        begin_run-outcome w run a i e named idle,
        named,
        update_first-set (owns_run run) (λ v. record v { status = s; run_id = [] }) w.tabs a
            (record t { status = running; run_id = run }) alone e
            (ground (arith, text_eq_refl run)),
      )
      (refl, refl)

active_position :
    (w : SessionWorkspace) {t : TerminalTabState}
    → active w ≡ some t
    → (a : ℕ) × (w.active_index ≡ pos a) × (get_elem? w.tabs a ≡ some t)
unfolding active
active_position w {t} e = position w.active_index e
  where
    position :
        (i : ℤ) → at_index w.tabs i ≡ some t → (a : ℕ) × (i ≡ pos a) × (get_elem? w.tabs a ≡ some t)
    position (pos a) q = (a, refl, q)
    position (negsuc n) q = cc

-- A running active tab refuses.
begin_run_busy :
    (w : SessionWorkspace) (run : Text) {t : TerminalTabState}
    → active w ≡ some t
    → is_running t.status ≡ true
    → begin_run w run ≡ (w, false)
unfolding begin_run
begin_run_busy w run {t} e r = elim (Bool-cases (is_blank run)) [
  | inl b ↦ rw (e, b, begin_run)
  | inr b ↦ rw (e, b, r, begin_run)
]

-- While the active tab runs, `BeginRun` is refused, whatever the token, and changes nothing.
pub begin_run-begin_run :
    (w : SessionWorkspace) (run run' : Text)
    → (begin_run w run).1 ≡ true
    → begin_run (begin_run w run).0 run' ≡ ((begin_run w run).0, false)
unfolding begin_run
begin_run-begin_run w run run' h = elim (Option-cases (active w)) [
  | inl e ↦ cc (rw (e, begin_run) at h)
  | inr (t, e) ↦ elim (Bool-cases (is_blank run || is_running t.status)) [
    | inl g ↦ cc (rw (e, g, begin_run) at h)
    | inr g ↦
        let (a, i, at) = active_position w e in
        let busy : TerminalTabState = record t { status = running; run_id = run } in
        rw (begin_run-outcome w run a i at (ground arith) (ground arith)) (
          begin_run_busy (record w { tabs = set w.tabs a busy }) run' {t = busy}
            (active_at (record w { tabs = set w.tabs a busy }) a i
              (get_elem?-set_self w.tabs a busy (lt-length_of_get_elem? w.tabs a at)))
            refl)
  ]
]
