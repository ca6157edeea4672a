-- ===== src/Batcher/Steps.antt =====
-- The threads around `guiOutputBatcher` (guis/guis.go): producers that enqueue at any moment, and the
-- GUI thread, which runs one scheduled drain at a time.
use nbterminal.Base.{
  ℕ, suc, ◌≡◌, Option, none, some, List, [], ◌∷◌, ◌++◌, if◌then◌else◌, is_nil, Text, length,
}
use nbterminal.Batcher.Defs.{
  GuiOutputBatcher, Duty, schedule_drain, done, Rest, again, call, new_gui_output_batcher, enqueue,
  after_flush, drain_start, drain_end,
}

-- A callback is known by the number of characters that were sent before it.
abbrev pub Callback : Type 0
Callback = ℕ

-- Where a drain stands: it has text to append, has appended it, or calls what came after.
pub data Stage : Type 0 where
  appending : Text → Stage
  appended : Stage
  calling : List Callback → Stage

pub data Event : Type 0 where
  painted : Text → Event
  called : Callback → Event

-- `starting` drains have still to be handed to the GUI thread, `queued` ones wait there. `log` has the
-- newest event first, `sent` all the text that was enqueued, `requested` all the callbacks that were given
-- to `AfterFlush`, in order.
pub record System : Type 0 where
  pub batcher : GuiOutputBatcher Callback
  pub starting : ℕ
  pub queued : ℕ
  pub running : Option Stage
  pub log : List Event
  pub sent : Text
  pub requested : List Callback

abbrev pub initial : System
initial = record {
  batcher = new_gui_output_batcher;
  starting = 0;
  queued = 0;
  running = none;
  log = [];
  sent = [];
  requested = [];
}

abbrev pub due : Duty → ℕ → ℕ
due schedule_drain n = suc n
due done n = n

unfoldable pub produce : System → Text → System
unfolding enqueue
produce s text =
    let r = enqueue s.batcher text in
    record s { batcher = r.0; starting = due r.1 s.starting; sent = s.sent ++ text }

unfoldable pub request : System → System
unfolding after_flush
request s =
    let r = after_flush s.batcher (length s.sent) in
    record s {
      batcher = r.0;
      starting = due r.1 s.starting;
      requested = s.requested ++ length s.sent ∷ [];
    }

unfoldable pub begin_drain : System → System
unfolding drain_start
begin_drain s =
    let r = drain_start s.batcher in record s { batcher = r.0; running = some (appending r.1) }

abbrev with_rest : System → GuiOutputBatcher Callback × Rest Callback → System
with_rest s (b, again) = record s { batcher = b; running = none; starting = suc s.starting }
with_rest s (b, call fs) = record s { batcher = b; running = some (calling fs) }

unfoldable pub end_drain : System → System
unfolding drain_end
end_drain s = with_rest s (drain_end s.batcher)

abbrev pub paint : Text → List Event → List Event
paint text log = if is_nil text then log else painted text ∷ log

-- A step of the GUI thread or of the scheduler.
pub data GuiStep (s : System) : System → Type 0 where
  handing :
      {n : ℕ} → s.starting ≡ suc n → GuiStep s (record s { starting = n; queued = suc s.queued })
  draining :
      {n : ℕ}
      → s.running ≡ none
      → s.queued ≡ suc n
      → GuiStep s (begin_drain (record s { queued = n }))
  painting :
      {text : Text}
      → s.running ≡ some (appending text)
      → GuiStep s (record s { running = some appended; log = paint text s.log })
  ending : s.running ≡ some appended → GuiStep s (end_drain s)
  invoking :
      {f : Callback} {fs : List Callback}
      → s.running ≡ some (calling (f ∷ fs))
      → GuiStep s (record s { running = some (calling fs); log = called f ∷ s.log })
  returning : s.running ≡ some (calling []) → GuiStep s (record s { running = none })

pub data Step (s : System) : System → Type 0 where
  producing : (text : Text) → Step s (produce s text)
  requesting : Step s (request s)
  on_gui : {t : System} → GuiStep s t → Step s t

pub data Reachable : System → Type 0 where
  start : Reachable initial
  next : {s t : System} → Reachable s → Step s t → Reachable t
