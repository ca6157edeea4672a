-- ===== src/Workspace/ById.antt =====
-- The methods of guis/session_workspace.go that find a tab by its identity.
use nbterminal.Base.{
  Bool, true, false, ◌&&◌, Option, none, some, List, [], ◌∷◌, ◌++◌, if◌then◌else◌, Text, text_eq,
  is_blank, trim_space,
}
use nbterminal.Workspace.Tabs.{
  SessionStatus, running, TerminalTabState, SessionWorkspace, or_refused,
}

abbrev pub has_id : Text → TerminalTabState → Bool
has_id id t = text_eq t.id id

abbrev pub is_running : SessionStatus → Bool
is_running running = true
is_running _ = false

-- The loops `for index := range w.tabs` that act on the first tab that fits and return; `none` if
-- no tab fits or the action refuses.
unfoldable pub update_first :
    (TerminalTabState → Bool)
    → (TerminalTabState → Option TerminalTabState)
    → List TerminalTabState
    → Option (List TerminalTabState)
update_first fits act [] = none
update_first fits act (t ∷ ts) =
    let rest = update_first fits act ts in
    if fits t
    then elim (act t) [ none ↦ none | some t' ↦ some (t' ∷ ts) ]
    else elim rest [ none ↦ none | some ts' ↦ some (t ∷ ts') ]

abbrev pub with_tabs : SessionWorkspace → Option (List TerminalTabState) → Option SessionWorkspace
with_tabs w none = none
with_tabs w (some ts) = some (record w { tabs = ts })

-- A change of the first tab with an identity.
unfoldable pub edit_by_id :
    SessionWorkspace → Text → (TerminalTabState → Option TerminalTabState) → SessionWorkspace × Bool
unfolding update_first
edit_by_id w id act = or_refused w (with_tabs w (update_first (has_id id) act w.tabs))

-- The same behind the guard `strings.TrimSpace(id) == ""`.
unfoldable pub edit_named :
    SessionWorkspace → Text → (TerminalTabState → Option TerminalTabState) → SessionWorkspace × Bool
unfolding edit_by_id
edit_named w id act = if is_blank id then (w, false) else edit_by_id w id act

unfoldable pub append_output : SessionWorkspace → Text → Text → SessionWorkspace × Bool
unfolding edit_by_id
append_output w id more = edit_by_id w id (λ t. some (record t { output = t.output ++ more }))

unfoldable pub set_terminal_title : SessionWorkspace → Text → Text → SessionWorkspace × Bool
unfolding edit_named
set_terminal_title w id title =
    edit_named w id (λ t. some (record t { terminal_title = trim_space title }))

unfoldable pub set_custom_title : SessionWorkspace → Text → Text → SessionWorkspace × Bool
unfolding edit_named
set_custom_title w id title =
    edit_named w id (λ t. some (record t { custom_title = trim_space title }))

unfoldable pub set_working_directory : SessionWorkspace → Text → Text → SessionWorkspace × Bool
unfolding edit_named
set_working_directory w id directory =
    if is_blank directory
    then (w, false)
    else edit_named w id (λ t. some (record t { current_directory = trim_space directory }))

-- A muted tab refuses the bell.
abbrev pub ring : TerminalTabState → Option TerminalTabState
ring t = if t.bell_muted then none else some (record t { needs_attention = true })

unfoldable pub set_attention : SessionWorkspace → Text → SessionWorkspace × Bool
unfolding edit_named
set_attention w id = edit_named w id ring

abbrev pub mute : Bool → TerminalTabState → TerminalTabState
mute muted t = record t {
  bell_muted = muted;
  needs_attention = if muted then false else t.needs_attention;
}

unfoldable pub set_bell_muted : SessionWorkspace → Text → Bool → SessionWorkspace × Bool
unfolding edit_named
set_bell_muted w id muted = edit_named w id (λ t. some (mute muted t))

unfoldable pub set_input_locked : SessionWorkspace → Text → Bool → SessionWorkspace × Bool
unfolding edit_named
set_input_locked w id locked = edit_named w id (λ t. some (record t { input_locked = locked }))

-- The tab that a run token belongs to while it runs.
abbrev pub owns_run : Text → TerminalTabState → Bool
owns_run run t = text_eq t.run_id run && is_running t.status

unfoldable pub finish_run : SessionWorkspace → Text → SessionStatus → SessionWorkspace × Bool
unfolding update_first
finish_run w run status =
    if is_blank run
    then (w, false)
    else or_refused w (
        with_tabs w (
          update_first (owns_run run) (λ t. some (record t { status = status; run_id = [] }))
            w.tabs))
