-- ===== src/Monitor/Watch.antt =====
-- The sampling loop of `Session` (hostmonitor/session.go) and a reader of its updates, step by step.
use nbterminal.Base.{ℕ, suc, ◌≡◌, false, Option, none, some, List, [], ◌∷◌, Text, inl, inr, ◌⊎◌}
use nbterminal.Monitor.Defs.{
  HostSnapshot, Update, Session, Publishing, ready, offering, discarding, offering_again,
  publish_step, current_update, collect,
}

-- The sampling loop and its reader, in any order: the source answers, the loop makes the next `select`
-- of `publish`, or the reader takes the update that waits.
pub data MonitorEvent (Time Readings : Type 0) : Type 0 where
  answered : Text ⊎ HostSnapshot Time Readings → MonitorEvent Time Readings
  selected : MonitorEvent Time Readings
  taken : MonitorEvent Time Readings

-- The session, the sampling loop, the updates that the reader has taken and the answers that the loop
-- has got, each with the newest first.
pub record Watch (Time Readings : Type 0) : Type 0 where
  pub session : Session Time Readings
  pub publishing : Publishing (Update Time Readings)
  pub received : List (Update Time Readings)
  pub answers : List (Text ⊎ HostSnapshot Time Readings)

module _ {Time Readings : Type 0} where
  abbrev pub watch : Session Time Readings → Watch Time Readings
  watch s = record { session = s; publishing = ready; received = []; answers = [] }

  -- While the loop is in `publish`, it asks the source for nothing.
  abbrev pub accept :
      Watch Time Readings
      → Text ⊎ HostSnapshot Time Readings
      → Publishing (Update Time Readings)
      → Watch Time Readings
  accept w answer ready =
      let r = collect w.session false answer in
      record w { session = r.0; publishing = r.1; answers = answer ∷ w.answers }
  accept w answer _ = w

  abbrev pub take_update : Watch Time Readings → Option (Update Time Readings) → Watch Time Readings
  take_update w none = w
  take_update w (some u) = record w {
    session = record w.session { updates = none };
    received = u ∷ w.received;
  }

  unfoldable pub event : Watch Time Readings → MonitorEvent Time Readings → Watch Time Readings
  unfolding collect publish_step
  event w (answered answer) = accept w answer w.publishing
  event w selected =
      let r = publish_step w.session.updates w.publishing in
      record w { session = record w.session { updates = r.0 }; publishing = r.1 }
  event w taken = take_update w w.session.updates

  unfoldable pub events :
      Watch Time Readings → List (MonitorEvent Time Readings) → Watch Time Readings
  unfolding event
  events w [] = w
  events w (e ∷ rest) = events (event w e) rest

  abbrev pub successes : List (Text ⊎ HostSnapshot Time Readings) → ℕ
  successes [] = 0
  successes (inr sample ∷ rest) = suc (successes rest)
  successes (inl error ∷ rest) = successes rest

  abbrev pub newest : List (Update Time Readings) → Option (Update Time Readings)
  newest [] = none
  newest (u ∷ us) = some u

  -- The update waits, or the channel is empty and it is the last one that the reader has taken.
  abbrev pub IsOut : Update Time Readings → Watch Time Readings → Type 0
  IsOut u w =
      (w.session.updates ≡ some u) ⊎ ((w.session.updates ≡ none) × (newest w.received ≡ some u))

  -- Where an update is on its way out.
  abbrev pub IsOnItsWay :
      Update Time Readings → Watch Time Readings → Publishing (Update Time Readings) → Type 0
  IsOnItsWay u w ready = IsOut u w
  IsOnItsWay u w (offering v) = v ≡ u
  IsOnItsWay u w (discarding v) = v ≡ u
  IsOnItsWay u w (offering_again v) = (v ≡ u) × (w.session.updates ≡ none)

  -- No answer yet, and nothing to read; or the update of the newest answer is on its way or out.
  abbrev pub IsAnswered : Watch Time Readings → List (Text ⊎ HostSnapshot Time Readings) → Type 0
  IsAnswered w [] = (w.publishing ≡ ready) × (w.session.updates ≡ none)
  IsAnswered w (answer ∷ rest) = IsOnItsWay (current_update w.session) w w.publishing

  abbrev pub IsWatched : Watch Time Readings → Type 0
  IsWatched w = IsAnswered w w.answers
