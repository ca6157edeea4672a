-- ===== src/Runs.antt =====
-- The commands that run, by session: `beginCommandRunForSession` and its companions in guis/guis.go.
pub mod Exclusive
use nbterminal.Base.{
  ℕ, ◌+◌, ◌%◌, ◌^◌, ◌≤◌, ◌<◌, ◌≡◌, ◌≢◌, refl, sym, ap, ◌∙◌, Bool, true, false, not, ◌||◌, Option,
  none, some, List, [], ◌∷◌, if◌then◌else◌, is_some, is_nil, ◌==◌, Text, trim_space, lookup, delete,
  insert, lookup-delete, lookup-delete_other, lookup-insert, lookup-insert_other, Bool-cases,
  ==_iff, arith, inl, inr,
}

-- `cancel` is the function that a caller gives, and is none where it is nil.
pub record CommandRun (Cancel : Type 0) : Type 0 where
  pub id : ℕ
  pub cancel : Option Cancel

-- The fields `runs` and `runID` of the application, which `runMu` guards.
pub record CommandRuns (Cancel : Type 0) : Type 0 where
  pub runs : List (Text × CommandRun Cancel)
  pub run_id : ℕ

module _ {Cancel : Type 0} where
  unfoldable pub begin_command_run_for_session :
      CommandRuns Cancel → Option Cancel → Text → CommandRuns Cancel × (ℕ × Bool)
  unfolding insert lookup
  begin_command_run_for_session a cancel session_id =
      let id = trim_space session_id in
      let run_id = (a.run_id + 1) % 2 ^ 64 in
      if not (is_some cancel) || is_nil id
      then (a, (0, false))
      else if is_some (lookup id a.runs)
      then (a, (0, false))
      else (
        record {
          runs = insert id (record { id = run_id; cancel = cancel }) a.runs;
          run_id = run_id;
        },
        (run_id, true),
      )

  unfoldable pub finish_command_run : CommandRuns Cancel → Text → ℕ → CommandRuns Cancel × Bool
  unfolding delete lookup
  finish_command_run a session_id id = elim (lookup session_id a.runs) [
    | none ↦ (a, false)
    | some run ↦
        if run.id == id then (record a { runs = delete session_id a.runs }, true) else (a, false)
  ]

  unfoldable pub command_running_for_session : CommandRuns Cancel → Text → Bool
  unfolding lookup
  command_running_for_session a session_id = is_some (lookup session_id a.runs)

  unfoldable pub any_command_running : CommandRuns Cancel → Bool
  any_command_running a = not (is_nil a.runs)

  -- The function that is called, and the result.
  unfoldable pub cancel_command_run : CommandRuns Cancel → Text → Option Cancel × Bool
  unfolding lookup
  cancel_command_run a session_id = elim (lookup session_id a.runs) [
    | none ↦ (none, false)
    | some run ↦ elim run.cancel [ none ↦ (none, false) | some f ↦ (some f, true) ]
  ]
