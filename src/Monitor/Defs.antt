-- ===== src/Monitor/Defs.antt =====
-- `Session` of hostmonitor/session.go with the types of hostmonitor/types.go. What a sample holds
-- besides its revision and its time is opaque, and its copy is the same value; the source's answers,
-- the clock and the state of the context are arguments.
use nbterminal.Base.{
  ℕ, ◌+◌, ◌%◌, ◌^◌, Bool, true, false, Option, none, some, [], if◌then◌else◌, is_nil, Text, inl,
  inr, ◌⊎◌, ltb,
}
use nbterminal.Base.Int.{ℤ, pos, ltb_ℤ}

pub data Phase : Type 0 where
  fresh running degraded stopped : Phase

pub record MonitorState (Time : Type 0) : Type 0 where
  pub phase : Phase
  pub started_at : Option Time
  pub last_success : Option Time
  pub last_error : Text
  pub failures : ℕ

pub record HostSnapshot (Time Readings : Type 0) : Type 0 where
  pub revision : ℕ
  pub collected_at : Time
  pub readings : Readings

pub record Update (Time Readings : Type 0) : Type 0 where
  pub session_id : Text
  pub state : MonitorState Time
  pub snapshot : HostSnapshot Time Readings

-- The fields that `mu` guards, and the channel `updates`, which has one place.
pub record Session (Time Readings : Type 0) : Type 0 where
  pub id : Text
  pub state : MonitorState Time
  pub snapshot : HostSnapshot Time Readings
  pub started : Bool
  pub updates : Option (Update Time Readings)

-- Where the sampling loop stands in `publish`: outside of it, or before its first, second or third
-- `select`, with the update.
pub data Publishing (U : Type 0) : Type 0 where
  ready : Publishing U
  offering discarding offering_again : U → Publishing U

pub data StartError : Type 0 where
  invalid_session already_started : StartError

abbrev pub one_second : ℤ
one_second = pos 1000000000

-- `normalized` of `SamplingPolicy`, in nanoseconds.
unfoldable pub normalized : ℤ → ℤ
normalized interval = if ltb_ℤ (pos 0) interval then interval else one_second

module _ {Time Readings : Type 0} where
  -- `NewSession`, with the zero snapshot.
  abbrev pub new_session : Text → HostSnapshot Time Readings → Session Time Readings
  new_session id zero_snapshot = record {
    id = id;
    state = record {
      phase = fresh;
      started_at = none;
      last_success = none;
      last_error = [];
      failures = 0;
    };
    snapshot = zero_snapshot;
    started = false;
    updates = none;
  }

  unfoldable pub start : Session Time Readings → Time → Session Time Readings × Option StartError
  start s now =
      if is_nil s.id
      then (s, some invalid_session)
      else if s.started
      then (s, some already_started)
      else (
        record s {
          started = true;
          state = record s.state { phase = running; started_at = some now };
        },
        none,
      )

  -- `cloneSnapshot` of the snapshot, if it is one: the argument of the source.
  unfoldable pub previous : Session Time Readings → Option (HostSnapshot Time Readings)
  previous s = if ltb 0 s.snapshot.revision then some s.snapshot else none

  -- One `select` of `publish` on the channel. Each is a step of its own: a reader can come between.
  unfoldable pub publish_step :
      Option (Update Time Readings)
      → Publishing (Update Time Readings)
      → Option (Update Time Readings) × Publishing (Update Time Readings)
  publish_step updates ready = (updates, ready)
  publish_step none (offering u) = (some u, ready)
  publish_step (some old) (offering u) = (some old, discarding u)
  publish_step updates (discarding u) = (none, offering_again u)
  publish_step none (offering_again u) = (some u, ready)
  publish_step (some old) (offering_again u) = (some old, ready)

  abbrev pub current_update : Session Time Readings → Update Time Readings
  current_update s = record { session_id = s.id; state = s.state; snapshot = s.snapshot }

  abbrev pub with_update :
      Session Time Readings → Session Time Readings × Publishing (Update Time Readings)
  with_update s = (s, offering (current_update s))

  -- `collect` with the answer of the source, an error or a new sample, up to the call of `publish`.
  -- `gone` says that the context has ended.
  unfoldable pub collect :
      Session Time Readings
      → Bool
      → Text ⊎ HostSnapshot Time Readings
      → Session Time Readings × Publishing (Update Time Readings)
  collect s gone (inl error) =
      if gone
      then (s, ready)
      else with_update (record s {
        state = record s.state {
          phase = degraded;
          last_error = error;
          failures = (s.state.failures + 1) % 2 ^ 32;
        };
      })
  collect s gone (inr sample) = with_update (record s {
    snapshot = record sample { revision = (s.snapshot.revision + 1) % 2 ^ 64 };
    state = record s.state {
      phase = running;
      last_success = some sample.collected_at;
      last_error = [];
      failures = 0;
    };
  })

  -- The end of `run`, when the context is done.
  unfoldable pub finish : Session Time Readings → Session Time Readings
  finish s = record s { state = record s.state { phase = stopped } }
