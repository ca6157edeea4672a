-- ===== src/Workspace/Counter.antt =====
-- The runtime counter of guis/session_workspace.go, and the invariant over whole sessions.
use nbterminal.Base.{◌+◌, ◌≤◌, ◌<◌, List, [], ◌∷◌, arith, length, Text}
use nbterminal.Workspace.Tabs.{
  SessionWorkspace, new_session_workspace, open_profile, select, set_profile_selection,
  set_active_draft, set_active_output, append_active_output, uint64_mod,
}
use nbterminal.Workspace.ById.{
  append_output, set_terminal_title, set_custom_title, set_working_directory, set_attention,
  set_bell_muted, set_input_locked, finish_run,
}
use nbterminal.Workspace.Order.{move, move_active, set_pinned}
use nbterminal.Workspace.Lifecycle.{begin_run, close, reopen_last_closed, duplicate_active}
use nbterminal.Workspace.Action.{Action, opening, perform, run_actions}
use nbterminal.Workspace.Invariant.{IsValid, new-IsValid}
use nbterminal.Workspace.Sessions.{perform-IsValid}

-- Only the opening of a tab takes a number, and one at most.
perform-next :
    (welcome : Text) (w : SessionWorkspace) (a : Action)
    → (perform welcome w a).next_runtime_id ≤ w.next_runtime_id + 1
unfolding perform open_profile select set_profile_selection set_active_draft set_active_output
    append_active_output append_output set_terminal_title set_custom_title set_working_directory
    set_attention set_bell_muted set_input_locked finish_run move move_active set_pinned begin_run
    close reopen_last_closed duplicate_active
perform-next welcome w (opening p) = ground arith
perform-next welcome w _ = ground arith

run-IsValid :
    (welcome : Text) (w : SessionWorkspace) (actions : List Action)
    → w.next_runtime_id + length actions < uint64_mod
    → IsValid w
    → IsValid (run_actions welcome w actions)
unfolding run_actions
run-IsValid welcome w [] small v = v
run-IsValid welcome w (a ∷ rest) small v =
    run-IsValid welcome (perform welcome w a) rest (omega (arith, perform-next welcome w a))
      (perform-IsValid welcome a (omega arith) v)

-- After any session of fewer than 2^64 calls on a new workspace the invariant holds: the active
-- index is that of a tab, or -1 if there is none; the identities of the tabs are distinct; the
-- pinned tabs stand first; at most twenty closed profiles are kept.
pub run_actions-IsValid :
    (welcome : Text) (actions : List Action)
    → length actions < uint64_mod
    → IsValid (run_actions welcome new_session_workspace actions)
run_actions-IsValid welcome actions small =
    run-IsValid welcome new_session_workspace actions (unfold new_session_workspace in omega arith)
      new-IsValid
