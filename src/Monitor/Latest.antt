-- ===== src/Monitor/Latest.antt =====
-- What a reader of the updates of `Session` (hostmonitor/session.go) finds.
use nbterminal.Base.{
  ℕ, suc, ◌+◌, ◌%◌, ◌^◌, ◌<◌, ◌≡◌, refl, ap, Option, none, some, List, [], ◌∷◌, Text, inl, inr, ◌⊎◌,
  arith,
}
use nbterminal.Monitor.Defs.{
  HostSnapshot, Update, Session, Publishing, ready, offering, discarding, offering_again,
  publish_step, collect,
}
use nbterminal.Monitor.Watch.{
  MonitorEvent, answered, selected, taken, Watch, watch, accept, take_update, event, events,
  successes, IsAnswered, IsWatched,
}

mod_suc : (a b k : ℕ) → b ≡ (a + k) % 2 ^ 64 → (b + 1) % 2 ^ 64 ≡ (a + suc k) % 2 ^ 64
mod_suc a b k e = omega arith

mod_small : (a : ℕ) → a < 2 ^ 64 → a ≡ (a + 0) % 2 ^ 64
mod_small a h = omega arith

module _ {Time Readings : Type 0} where
  abbrev state :
      Session Time Readings
      → Option (Update Time Readings)
      → Publishing (Update Time Readings)
      → List (Update Time Readings)
      → List (Text ⊎ HostSnapshot Time Readings)
      → Watch Time Readings
  state s updates p received answers = record {
    session = record s { updates = updates };
    publishing = p;
    received = received;
    answers = answers;
  }

  answered-IsWatched :
      (s : Session Time Readings) (o : Option (Update Time Readings))
      (p : Publishing (Update Time Readings)) (us : List (Update Time Readings))
      (as' : List (Text ⊎ HostSnapshot Time Readings)) (a : Text ⊎ HostSnapshot Time Readings)
      → IsWatched (state s o p us as')
      → IsWatched (event (state s o p us as') (answered a))
  unfolding event collect
  answered-IsWatched s o ready us as' (inl error) h = refl
  answered-IsWatched s o ready us as' (inr sample) h = refl
  answered-IsWatched s o (offering v) us as' a h = h
  answered-IsWatched s o (discarding v) us as' a h = h
  answered-IsWatched s o (offering_again v) us as' a h = h

  selected-IsWatched :
      (s : Session Time Readings) (o : Option (Update Time Readings))
      (p : Publishing (Update Time Readings)) (us : List (Update Time Readings))
      (as' : List (Text ⊎ HostSnapshot Time Readings))
      → IsWatched (state s o p us as')
      → IsWatched (event (state s o p us as') selected)
  unfolding event publish_step
  selected-IsWatched s none ready us as' h = h
  selected-IsWatched s (some old) ready us as' h = h
  selected-IsWatched s o (offering v) us [] h = cc
  selected-IsWatched s o (discarding v) us [] h = cc
  selected-IsWatched s o (offering_again v) us [] h = cc
  selected-IsWatched s none (offering v) us (a ∷ rest) h = inl (ap some h)
  selected-IsWatched s (some old) (offering v) us (a ∷ rest) h = h
  selected-IsWatched s none (discarding v) us (a ∷ rest) h = (h, refl)
  selected-IsWatched s (some old) (discarding v) us (a ∷ rest) h = (h, refl)
  selected-IsWatched s none (offering_again v) us (a ∷ rest) h = inl (ap some h.0)
  selected-IsWatched s (some old) (offering_again v) us (a ∷ rest) h = cc

  taken-IsWatched :
      (s : Session Time Readings) (o : Option (Update Time Readings))
      (p : Publishing (Update Time Readings)) (us : List (Update Time Readings))
      (as' : List (Text ⊎ HostSnapshot Time Readings))
      → IsWatched (state s o p us as')
      → IsWatched (event (state s o p us as') taken)
  unfolding event
  taken-IsWatched s none p us as' h = h
  taken-IsWatched s (some u) p us [] (e, f) = cc
  taken-IsWatched s (some u) ready us (a ∷ rest) (inl e) = inr (refl, e)
  taken-IsWatched s (some u) ready us (a ∷ rest) (inr (e, f)) = cc
  taken-IsWatched s (some u) (offering v) us (a ∷ rest) h = h
  taken-IsWatched s (some u) (discarding v) us (a ∷ rest) h = h
  taken-IsWatched s (some u) (offering_again v) us (a ∷ rest) (q, e) = cc

  event-IsWatched :
      (w : Watch Time Readings) (e : MonitorEvent Time Readings)
      → IsWatched w
      → IsWatched (event w e)
  event-IsWatched w (answered a) h =
      answered-IsWatched w.session w.session.updates w.publishing w.received w.answers a h
  event-IsWatched w selected h =
      selected-IsWatched w.session w.session.updates w.publishing w.received w.answers h
  event-IsWatched w taken h =
      taken-IsWatched w.session w.session.updates w.publishing w.received w.answers h

  -- The revision counts the samples, from `n` on.
  abbrev pub IsCounted : ℕ → Watch Time Readings → Type 0
  IsCounted n w = w.session.snapshot.revision ≡ (n + successes w.answers) % 2 ^ 64

  answered-IsCounted :
      (n : ℕ) (w : Watch Time Readings) (p : Publishing (Update Time Readings))
      (a : Text ⊎ HostSnapshot Time Readings)
      → IsCounted n w
      → IsCounted n (accept w a p)
  unfolding collect
  answered-IsCounted n w ready (inl error) h = h
  answered-IsCounted n w ready (inr sample) h =
      mod_suc n w.session.snapshot.revision (successes w.answers) h
  answered-IsCounted n w (offering v) a h = h
  answered-IsCounted n w (discarding v) a h = h
  answered-IsCounted n w (offering_again v) a h = h

  taken-IsCounted :
      (n : ℕ) (w : Watch Time Readings) (o : Option (Update Time Readings))
      → IsCounted n w
      → IsCounted n (take_update w o)
  taken-IsCounted n w none h = h
  taken-IsCounted n w (some u) h = h

  event-IsCounted :
      (n : ℕ) (w : Watch Time Readings) (e : MonitorEvent Time Readings)
      → IsCounted n w
      → IsCounted n (event w e)
  unfolding event
  event-IsCounted n w (answered a) h = answered-IsCounted n w w.publishing a h
  event-IsCounted n w selected h = h
  event-IsCounted n w taken h = taken-IsCounted n w w.session.updates h

  abbrev IsGood : ℕ → Watch Time Readings → Type 0
  IsGood n w = IsWatched w × IsCounted n w

  events-IsGood :
      (es : List (MonitorEvent Time Readings)) (n : ℕ) (w : Watch Time Readings)
      → IsGood n w
      → IsGood n (events w es)
  unfolding events
  events-IsGood [] n w h = h
  events-IsGood (e ∷ rest) n w (h, k) =
      events-IsGood rest n (event w e) (event-IsWatched w e h, event-IsCounted n w e k)

  published :
      (s : Session Time Readings) (o : Option (Update Time Readings))
      (p : Publishing (Update Time Readings)) (us : List (Update Time Readings))
      (as' : List (Text ⊎ HostSnapshot Time Readings))
      → (events (state s o p us as') (selected ∷ selected ∷ selected ∷ [])).publishing ≡ ready
  unfolding events event publish_step
  published s none ready us as' = refl
  published s (some u) ready us as' = refl
  published s none (offering v) us as' = refl
  published s (some u) (offering v) us as' = refl
  published s none (discarding v) us as' = refl
  published s (some u) (discarding v) us as' = refl
  published s none (offering_again v) us as' = refl
  published s (some u) (offering_again v) us as' = refl

  -- Whatever the source answers and whenever the reader takes an update, also between the `select`s of
  -- `publish`: once there is an answer, the update of the newest one is on its way through `publish`,
  -- and once `publish` has returned it waits, or is the last one the reader has taken and the channel
  -- is empty; `publish` returns after at most three `select`s; and the revision counts the samples that
  -- succeeded, modulo 2^64.
  pub events_lem :
      (es : List (MonitorEvent Time Readings)) (s : Session Time Readings)
      → s.updates ≡ none
      → s.snapshot.revision < 2 ^ 64
      → let w = events (watch s) es in
        IsAnswered w w.answers
        × ((events w (selected ∷ selected ∷ selected ∷ [])).publishing ≡ ready)
        × (w.session.snapshot.revision ≡ (s.snapshot.revision + successes w.answers) % 2 ^ 64)
  events_lem es s u h =
      let w = events (watch s) es in
      let (a, c) =
        events-IsGood es s.snapshot.revision (watch s)
          ((refl, u), mod_small s.snapshot.revision h) in
      (a, published w.session w.session.updates w.publishing w.received w.answers, c)
