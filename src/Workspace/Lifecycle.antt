-- ===== src/Workspace/Lifecycle.antt =====
-- Runs, and the closing, reopening and duplication of tabs: guis/session_workspace.go.
use nbterminal.Base.{
  ℕ, ◌-◌, Bool, true, false, not, ◌&&◌, ◌||◌, Option, none, some, List, [], ◌∷◌, ◌++◌, ltb, leb,
  ◌==◌, if◌then◌else◌, length, get_elem?, drop, drop_last, last?, erase_idx, is_nil, Text, is_blank,
}
use nbterminal.Base.Int.{ℤ, pos, negsuc}
use nbterminal.Profile.{ConnectionProfile}
use nbterminal.Workspace.Tabs.{
  TerminalTabState, running, SessionWorkspace, active, update_at, or_refused, open_profile,
}
use nbterminal.Workspace.ById.{is_running}

unfoldable pub begin_run : SessionWorkspace → Text → SessionWorkspace × Bool
unfolding active
begin_run w run = elim (active w) [
  | none ↦ (w, false)
  | some t ↦
      if is_blank run || is_running t.status
      then (w, false)
      else or_refused w
          (update_at w w.active_index (λ s. record s { status = running; run_id = run }))
]

abbrev pub closed_limit : ℕ
closed_limit = 20

-- The history of closed profiles keeps the newest twenty.
unfoldable pub remember_closed : List ConnectionProfile → ConnectionProfile → List ConnectionProfile
remember_closed ps p =
    let ps' = ps ++ p ∷ [] in
    if ltb closed_limit (length ps') then drop (length ps' - closed_limit) ps' else ps'

-- The index of the active tab once the tab `i` is gone and `n` tabs are left.
unfoldable pub active_after_close : ℕ → ℕ → ℤ → ℤ
active_after_close i n (negsuc k) = if n == 0 then negsuc 0 else negsuc k
active_after_close i n (pos a) =
    if n == 0
    then negsuc 0
    else if i == a
    then (if leb n i then pos (n - 1) else pos i)
    else if ltb i a
    then pos (a - 1)
    else pos a

-- `Close` once the tab is known.
unfoldable pub close_found :
    SessionWorkspace → ℕ → Option TerminalTabState → SessionWorkspace × Bool
unfolding remember_closed active_after_close
close_found w i none = (w, false)
close_found w i (some t) =
    let rest = erase_idx w.tabs i in
    if is_running t.status || t.pinned then (w, false) else (
      record w {
        tabs = rest;
        closed_profiles = remember_closed w.closed_profiles t.profile;
        active_index = active_after_close i (length rest) w.active_index;
      },
      true,
    )

unfoldable pub close : SessionWorkspace → ℤ → SessionWorkspace × Bool
unfolding close_found
close w (negsuc n) = (w, false)
close w (pos i) = close_found w i (get_elem? w.tabs i)

unfoldable pub can_reopen_closed : SessionWorkspace → Bool
can_reopen_closed w = not (is_nil w.closed_profiles)

-- A profile that cannot be opened goes back to the end of the history.
abbrev pub keep_if_refused :
    ConnectionProfile → SessionWorkspace × ℤ × Bool → SessionWorkspace × ℤ × Bool
keep_if_refused p (w, i, true) = (w, i, true)
keep_if_refused p (w, i, false) =
    (record w { closed_profiles = w.closed_profiles ++ p ∷ [] }, i, false)

unfoldable pub reopen_last_closed : Text → SessionWorkspace → SessionWorkspace × ℤ × Bool
unfolding open_profile
reopen_last_closed welcome w = elim (last? w.closed_profiles) [
  | none ↦ (w, negsuc 0, false)
  | some p ↦
      keep_if_refused p
        (open_profile welcome (record w { closed_profiles = drop_last w.closed_profiles }) p)
]

-- The profile that `DuplicateActive` opens.
abbrev pub duplicate_profile : TerminalTabState → ConnectionProfile
duplicate_profile t =
    let p = t.profile in
    if is_nil t.current_directory then p else record p { working_dir = t.current_directory }

-- The reported directory goes to the new tab, if it was opened.
abbrev pub inherit_directory : Text → SessionWorkspace × ℤ × Bool → SessionWorkspace × ℤ × Bool
inherit_directory dir (w, i, opened) =
    if opened && not (is_nil dir)
    then (
      elim (update_at w i (λ t. record t { current_directory = dir })) [ none ↦ w | some w' ↦ w' ],
      i,
      opened,
    )
    else (w, i, opened)

unfoldable pub duplicate_active : Text → SessionWorkspace → SessionWorkspace × ℤ × Bool
unfolding active open_profile
duplicate_active welcome w = elim (active w) [
  | none ↦ (w, negsuc 0, false)
  | some t ↦ inherit_directory t.current_directory (open_profile welcome w (duplicate_profile t))
]
