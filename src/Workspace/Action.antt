-- ===== src/Workspace/Action.antt =====
-- The public methods of guis/session_workspace.go as one type of actions.
use nbterminal.Base.{Bool, List, [], ◌∷◌, Text}
use nbterminal.Base.Int.{ℤ}
use nbterminal.Profile.{ConnectionProfile}
use nbterminal.Workspace.Tabs.{
  SessionStatus, SessionWorkspace, open_profile, select, set_profile_selection, set_active_draft,
  set_active_output, append_active_output,
}
use nbterminal.Workspace.ById.{
  append_output, set_terminal_title, set_custom_title, set_working_directory, set_attention,
  set_bell_muted, set_input_locked, finish_run,
}
use nbterminal.Workspace.Order.{move, move_active, set_pinned}
use nbterminal.Workspace.Lifecycle.{begin_run, close, reopen_last_closed, duplicate_active}

pub data Action : Type 0 where
  opening : ConnectionProfile → Action
  selecting : ℤ → Action
  moving_active : ℤ → Action
  moving : Text → ℤ → Action
  choosing_profile : Text → Action
  drafting printing printing_more : Text → Action
  printing_to titling renaming changing_directory : Text → Text → Action
  ringing : Text → Action
  muting locking pinning : Text → Bool → Action
  beginning : Text → Action
  finishing : Text → SessionStatus → Action
  closing : ℤ → Action
  reopening duplicating : Action

unfoldable pub perform : Text → SessionWorkspace → Action → SessionWorkspace
perform welcome w (opening p) = (open_profile welcome w p).0
perform welcome w (selecting i) = (select w i).0
perform welcome w (moving_active d) = (move_active w d).0
perform welcome w (moving id i) = (move w id i).0
perform welcome w (choosing_profile pid) = set_profile_selection w pid
perform welcome w (drafting s) = (set_active_draft w s).0
perform welcome w (printing s) = (set_active_output w s).0
perform welcome w (printing_more s) = (append_active_output w s).0
perform welcome w (printing_to id s) = (append_output w id s).0
perform welcome w (titling id s) = (set_terminal_title w id s).0
perform welcome w (renaming id s) = (set_custom_title w id s).0
perform welcome w (changing_directory id s) = (set_working_directory w id s).0
perform welcome w (ringing id) = (set_attention w id).0
perform welcome w (muting id b) = (set_bell_muted w id b).0
perform welcome w (locking id b) = (set_input_locked w id b).0
perform welcome w (pinning id b) = (set_pinned w id b).0
perform welcome w (beginning run) = (begin_run w run).0
perform welcome w (finishing run s) = (finish_run w run s).0
perform welcome w (closing i) = (close w i).0
perform welcome w reopening = (reopen_last_closed welcome w).0
perform welcome w duplicating = (duplicate_active welcome w).0

-- A session of the user.
unfoldable pub run_actions : Text → SessionWorkspace → List Action → SessionWorkspace
run_actions welcome w [] = w
run_actions welcome w (a ∷ rest) = run_actions welcome (perform welcome w a) rest
