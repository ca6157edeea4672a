-- ===== src/Examples/Hosts.antt =====
-- Tests of the model of hostmonitor/session.go.
use nbterminal.Base.{
  length, ℕ, ◌+◌, ◌%◌, ◌^◌, ◌≡◌, refl, List, [], ◌∷◌, arith, codes, inl, inr, none,
}
use nbterminal.Base.Int.{pos, negsuc}
use nbterminal.Monitor.Defs.{
  Session, HostSnapshot, new_session, start, degraded, normalized, collect, publish_step, ready,
}
use nbterminal.Monitor.Watch.{
  MonitorEvent, answered, selected, taken, watch, events, event, successes, IsAnswered,
}
use nbterminal.Monitor.Latest.{events_lem}

abbrev sample : ℕ → HostSnapshot ℕ ℕ
sample load = record { revision = 0; collected_at = load; readings = load }

abbrev host : Session ℕ ℕ
host = (start (new_session (codes "host") (sample 0)) 5).0

abbrev answers : List (MonitorEvent ℕ ℕ)
answers =
    answered (inr (sample 1))
    ∷ selected
    ∷ answered (inr (sample 2))
    ∷ selected
    ∷ taken
    ∷ selected
    ∷ selected
    ∷ answered (inl (codes "no /proc"))
    ∷ []

host_fresh : (host.updates ≡ none) × (host.snapshot.revision ≡ 0)
unfolding start
host_fresh = (refl, refl)

-- The reader comes before the channel is emptied for the second update. An error keeps the last
-- snapshot and counts a failure.
after_error :
    ((events (watch host) answers).session.state.phase ≡ degraded)
    × ((events (watch host) answers).session.snapshot.revision ≡ 2)
    × ((events (watch host) answers).session.state.failures ≡ 1)
    × (length (events (watch host) answers).received ≡ 1)
unfolding start events event collect publish_step
after_error = (refl, refl, refl, refl)

no_interval : normalized (negsuc 4) ≡ pos 1000000000
unfolding normalized
no_interval = refl

events_lem_example :
    let w = events (watch host) answers in
    IsAnswered w w.answers
    × ((events w (selected ∷ selected ∷ selected ∷ [])).publishing ≡ ready)
    × (w.session.snapshot.revision ≡ (host.snapshot.revision + successes w.answers) % 2 ^ 64)
unfolding start
events_lem_example = events_lem answers host refl (omega arith)
