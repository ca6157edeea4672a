-- ===== src/Examples/Workspaces.antt =====
-- Tests of the model of guis/session_workspace.go.
use nbterminal.Base.{
  ◌++◌, ℕ, ◌+◌, ◌<◌, ◌≡◌, ◌↔◌, refl, true, false, some, List, [], ◌∷◌, arith, Text, codes, length,
  set, All, Perm, erase_idx, text_eq, decimal, is_blank, ◌%◌,
}
use nbterminal.Base.Int.{pos}
use nbterminal.Profile.{ConnectionProfile, local}
use nbterminal.Workspace.Tabs.{
  TerminalTabState, SessionWorkspace, stopped, idle, new_session_workspace, tab_at, active,
  fresh_tab, next_instance, uint64_mod, open_profile,
}
use nbterminal.Workspace.ById.{append_output, finish_run}
use nbterminal.Workspace.Order.{move, set_pinned, active_id}
use nbterminal.Workspace.Lifecycle.{begin_run, close, reopen_last_closed}
use nbterminal.Workspace.Action.{Action, opening, run_actions, perform}
use nbterminal.Workspace.Invariant.{IsValid}
use nbterminal.Workspace.Counter.{run_actions-IsValid}
use nbterminal.Workspace.Moves.{move_lem}
use nbterminal.Workspace.Pins.{IsRepinned, set_pinned_lem}
use nbterminal.Workspace.Closing.{
  close-succeeds_iff, IsClosable, reopen_last_closed-close, open_profile_lem,
}
use nbterminal.Workspace.Runs.{append_output_lem, finish_run-begin_run}

abbrev profile : Text → Text → ConnectionProfile
profile id name = record {
  id = id;
  name = name;
  group = [];
  type = local;
  host = [];
  port = 0;
  username = [];
  password_enc = [];
  private_key = [];
  working_dir = [];
  last_used = [];
  favorite = false;
  description = [];
}

abbrev shell : ConnectionProfile
shell = profile (codes "local-shell") (codes "Local Shell")

abbrev server : ConnectionProfile
server = profile (codes "server") (codes "Server")

abbrev welcome : Text
welcome = codes "hi"

abbrev start : List Action
start = opening shell ∷ opening server ∷ opening shell ∷ []

abbrev three_tabs : SessionWorkspace
three_tabs = run_actions welcome new_session_workspace start

three_tabs-IsValid : IsValid three_tabs
three_tabs-IsValid = run_actions-IsValid welcome start (omega arith)

three_tabs_count : length three_tabs.tabs ≡ 3
unfolding run_actions perform new_session_workspace open_profile is_blank decimal
three_tabs_count = refl

-- The tab at a position, as the session made it.
abbrev tab : ℕ → ConnectionProfile → ℕ → TerminalTabState
tab runtime p number = fresh_tab welcome p number runtime

three_tabs_third : tab_at three_tabs (pos 2) ≡ some (tab 3 shell 2)
unfolding run_actions perform new_session_workspace open_profile is_blank decimal text_eq
    next_instance
three_tabs_third = refl

run_actions-IsValid_example : IsValid (run_actions welcome new_session_workspace start)
run_actions-IsValid_example = run_actions-IsValid welcome start (omega arith)

-- A name for what the tests of the workspace compute with.
tests_compute : length (run_actions welcome new_session_workspace []).tabs ≡ 0
unfolding run_actions perform new_session_workspace open_profile is_blank decimal text_eq
    next_instance active active_id move set_pinned close reopen_last_closed begin_run finish_run
    append_output
tests_compute = refl

move_lem_example :
    Perm (move three_tabs (codes "runtime-1") (pos 2)).0.tabs three_tabs.tabs
    × ((t : TerminalTabState) × (tab_at (move three_tabs (codes "runtime-1") (pos 2)).0 (pos 2)
          ≡ some t)
        × (t.id ≡ codes "runtime-1"))
    × (active (move three_tabs (codes "runtime-1") (pos 2)).0 ≡ active three_tabs)
unfolding tests_compute
move_lem_example = move_lem three_tabs (codes "runtime-1") 2 three_tabs-IsValid refl

set_pinned_lem_example :
    IsRepinned three_tabs
      (codes "runtime-2")
      true
      (set_pinned three_tabs (codes "runtime-2") true).0
unfolding tests_compute
set_pinned_lem_example = set_pinned_lem three_tabs (codes "runtime-2") true three_tabs-IsValid refl

reopen_last_closed-close_example :
    ((reopen_last_closed welcome (close three_tabs (pos 1)).0).2 ≡ true)
    × (active (reopen_last_closed welcome (close three_tabs (pos 1)).0).0
        ≡ some (
            fresh_tab welcome server
              (next_instance server.id (erase_idx three_tabs.tabs 1) 1)
              ((three_tabs.next_runtime_id + 1) % uint64_mod)))
unfolding tests_compute
reopen_last_closed-close_example =
    reopen_last_closed-close welcome three_tabs 1 {t = tab 2 server 1} refl refl refl

close-succeeds_iff_example :
    ((close three_tabs (pos 0)).1 ≡ true)
    ↔ ((t : TerminalTabState) × (tab_at three_tabs (pos 0) ≡ some t) × IsClosable t)
close-succeeds_iff_example = close-succeeds_iff three_tabs (pos 0)

open_profile_lem_example :
    let o = open_profile welcome three_tabs shell in
    (t : TerminalTabState) × (o.0.tabs ≡ three_tabs.tabs ++ t ∷ [])
    × (o.0.active_index ≡ pos (length three_tabs.tabs))
    × (o.1 ≡ pos (length three_tabs.tabs))
    × (o.2 ≡ true)
    × (active o.0 ≡ some t)
    × (o.0.closed_profiles ≡ three_tabs.closed_profiles)
    × (t.profile ≡ shell)
    × (t.status ≡ idle)
    × All (λ u. u.profile_id ≡ t.profile_id → u.instance_number < t.instance_number) three_tabs.tabs
unfolding tests_compute
open_profile_lem_example = open_profile_lem welcome three_tabs shell refl

append_output_lem_example : append_output three_tabs (codes "runtime-1") (codes "!") ≡ (
  record three_tabs {
    tabs = set three_tabs.tabs 0 (record (tab 1 shell 1) { output = codes "hi!" });
  },
  true,
)
unfolding tests_compute
append_output_lem_example =
    append_output_lem three_tabs 0 {t = tab 1 shell 1} (codes "!")
      three_tabs-IsValid.are_tabs.distinct refl

finish_run-begin_run_example :
    ((begin_run three_tabs (codes "r")).1 ≡ true)
    × (finish_run (begin_run three_tabs (codes "r")).0 (codes "r") stopped ≡ (
      record three_tabs {
        tabs = set three_tabs.tabs 2 (record (tab 3 shell 2) { status = stopped; run_id = [] });
      },
      true,
    ))
unfolding tests_compute
finish_run-begin_run_example =
    finish_run-begin_run three_tabs (codes "r") stopped 2 {t = tab 3 shell 2} refl refl refl refl
      (refl, (refl, (refl, tt)))
