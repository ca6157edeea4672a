-- ===== src/Batcher/Order.antt =====
-- What `guiOutputBatcher` (guis/guis.go) keeps through every interleaving of the threads around it.
use nbterminal.Base.{
  ℕ, ◌+◌, ◌≤◌, ◌≡◌, refl, sym, ap, ◌∙◌, subst, Bool, true, false, Option, none, some, List, [], ◌∷◌,
  ◌++◌, if◌then◌else◌, is_nil, Text, length, inl, inr, ◌⊎◌, All, All-append_end, All-map,
  Bool-cases, arith, length-append,
}
use mathlib.Core.List.{append_assoc, append-nil}
use nbterminal.Batcher.Defs.{enqueue, mark, after_flush, drain_start, drain_end}
use nbterminal.Batcher.Steps.{
  Callback, Stage, appending, appended, calling, Event, painted, called, System, initial, due,
  produce, request, begin_drain, end_drain, paint, GuiStep, handing, draining, painting, ending,
  invoking, returning, producing, requesting, on_gui, Reachable, start, next,
}

-- The text on the screen.
abbrev pub written : List Event → Text
written [] = []
written (painted text ∷ log) = written log ++ text
written (called f ∷ log) = written log

-- The callbacks that ran, the first one first.
abbrev pub called_in : List Event → List Callback
called_in [] = []
called_in (painted text ∷ log) = called_in log
called_in (called f ∷ log) = called_in log ++ f ∷ []

-- Each callback ran when all the text sent before it was on the screen.
abbrev pub IsTimely : List Event → Type 0
IsTimely [] = Unit
IsTimely (painted text ∷ log) = IsTimely log
IsTimely (called f ∷ log) = (f ≤ length (written log)) × IsTimely log

abbrev pub in_flight : Option Stage → Text
in_flight (some (appending text)) = text
in_flight _ = []

abbrev pub to_call : Option Stage → List Callback
to_call (some (calling fs)) = fs
to_call _ = []

-- A drain that has not made its second critical section counts as scheduled.
abbrev pub active_drain : Option Stage → ℕ
active_drain none = 0
active_drain (some (appending text)) = 1
active_drain (some appended) = 1
active_drain (some (calling fs)) = 0

abbrev pub drains : System → ℕ
drains s = s.starting + s.queued + active_drain s.running

abbrev pub Within : Text → Callback → Type 0
Within text f = f ≤ length text

pub record IsOrdered (s : System) : Type 0 where
  pub single : drains s ≡ (if s.batcher.scheduled then 1 else 0)
  pub in_order : written s.log ++ (in_flight s.running ++ s.batcher.pending) ≡ s.sent
  pub all_calls : called_in s.log ++ (to_call s.running ++ s.batcher.after) ≡ s.requested
  pub at_rest : (s.batcher.scheduled ≡ true) ⊎ ((s.batcher.pending ≡ []) × (s.batcher.after ≡ []))
  pub requests : All (Within s.sent) s.batcher.after
  pub calls : All (Within (written s.log)) (to_call s.running)
  pub timely : IsTimely s.log

initial-IsOrdered : IsOrdered initial
initial-IsOrdered = record {
  single = refl;
  in_order = refl;
  all_calls = refl;
  at_rest = inr (refl, refl);
  requests = tt;
  calls = tt;
  timely = tt;
}

Within-append : (text more : Text) (f : Callback) → Within text f → Within (text ++ more) f
Within-append text more f h = omega (arith, length-append text more)

All-Within-append :
    (text more : Text) (fs : List Callback) → All (Within text) fs → All (Within (text ++ more)) fs
All-Within-append text more fs =
    All-map (Within text) (Within (text ++ more)) fs (Within-append text more)

-- A batcher with something new, marked as scheduled.
mark-IsOrdered :
    (s : System)
    → drains s ≡ (if s.batcher.scheduled then 1 else 0)
    → written s.log ++ (in_flight s.running ++ s.batcher.pending) ≡ s.sent
    → called_in s.log ++ (to_call s.running ++ s.batcher.after) ≡ s.requested
    → All (Within s.sent) s.batcher.after
    → All (Within (written s.log)) (to_call s.running)
    → IsTimely s.log
    → IsOrdered
        (record s { batcher = (mark s.batcher).0; starting = due (mark s.batcher).1 s.starting })
mark-IsOrdered s single in_order all_calls requests calls timely =
    elim (Bool-cases s.batcher.scheduled) [
      | inl e ↦ rw e (record {
        single = rw e at single;
        in_order = in_order;
        all_calls = all_calls;
        at_rest = inl refl;
        requests = requests;
        calls = calls;
        timely = timely;
      })
      | inr e ↦ rw e (record {
        single = (let k = rw e at single in omega arith);
        in_order = in_order;
        all_calls = all_calls;
        at_rest = inl refl;
        requests = requests;
        calls = calls;
        timely = timely;
      })
    ]

in_order_more : (a b c d : Text) → a ++ (b ++ (c ++ d)) ≡ (a ++ (b ++ c)) ++ d
in_order_more a b c d = ap (a ++◌) (sym (append_assoc b c d)) ∙ sym (append_assoc a (b ++ c) d)

nil_of_is_nil : {A : Type 0} (xs : List A) → is_nil xs ≡ true → xs ≡ []
nil_of_is_nil [] h = refl
nil_of_is_nil (x ∷ xs) h = cc

le_one : (b : Bool) {n : ℕ} → n ≡ (if b then 1 else 0) → n ≤ 1
le_one true h = omega arith
le_one false h = omega arith

written-paint : (text : Text) (log : List Event) → written (paint text log) ≡ written log ++ text
written-paint [] log = sym (append-nil (written log))
written-paint (c ∷ text) log = refl

called_in-paint : (text : Text) (log : List Event) → called_in (paint text log) ≡ called_in log
called_in-paint [] log = refl
called_in-paint (c ∷ text) log = refl

paint-IsTimely : (text : Text) (log : List Event) → IsTimely log → IsTimely (paint text log)
paint-IsTimely [] log h = h
paint-IsTimely (c ∷ text) log h = h

produce-IsOrdered : (s : System) (text : Text) → IsOrdered s → IsOrdered (produce s text)
unfolding produce enqueue
produce-IsOrdered s [] h = record {
  single = h.single;
  in_order = h.in_order ∙ sym (append-nil s.sent);
  all_calls = h.all_calls;
  at_rest = h.at_rest;
  requests = All-Within-append s.sent [] s.batcher.after h.requests;
  calls = h.calls;
  timely = h.timely;
}
produce-IsOrdered s (c ∷ text) h =
    mark-IsOrdered
      (record s {
        batcher = record s.batcher { pending = s.batcher.pending ++ c ∷ text };
        sent = s.sent ++ c ∷ text;
      })
      h.single
      (in_order_more (written s.log) (in_flight s.running) s.batcher.pending (c ∷ text)
        ∙ ap (λ t. t ++ c ∷ text) h.in_order)
      h.all_calls (All-Within-append s.sent (c ∷ text) s.batcher.after h.requests) h.calls h.timely

request-IsOrdered : (s : System) → IsOrdered s → IsOrdered (request s)
unfolding request after_flush
request-IsOrdered s h =
    mark-IsOrdered
      (record s {
        batcher = record s.batcher { after = s.batcher.after ++ length s.sent ∷ [] };
        requested = s.requested ++ length s.sent ∷ [];
      })
      h.single h.in_order
      (in_order_more (called_in s.log) (to_call s.running) s.batcher.after (length s.sent ∷ [])
        ∙ ap (λ t. t ++ length s.sent ∷ []) h.all_calls)
      (All-append_end (Within s.sent) s.batcher.after (length s.sent) h.requests (omega arith))
      h.calls h.timely

end_drain-IsOrdered :
    (s : System) → s.running ≡ some appended → IsOrdered s → IsOrdered (end_drain s)
unfolding end_drain drain_end
end_drain-IsOrdered s e h = elim (Bool-cases (is_nil s.batcher.pending)) [
  | inl n ↦
      let k = rw (drains, e) at h.single in
      let one = le_one s.batcher.scheduled k in
      let all = rw (e, nil_of_is_nil s.batcher.pending n) at h.in_order in
      rw n (record {
        single = omega arith;
        in_order = rw e at h.in_order;
        all_calls = ap (called_in s.log ++◌) (append-nil s.batcher.after) ∙ (rw e at h.all_calls);
        at_rest = inr (nil_of_is_nil s.batcher.pending n, refl);
        requests = tt;
        calls =
            subst (λ t. All (Within t) s.batcher.after) (sym all ∙ append-nil (written s.log))
              h.requests;
        timely = h.timely;
      })
  | inr n ↦
      let k = rw (drains, e) at h.single in
      rw n (record {
        single = omega arith;
        in_order = rw e at h.in_order;
        all_calls = rw e at h.all_calls;
        at_rest = h.at_rest;
        requests = h.requests;
        calls = tt;
        timely = h.timely;
      })
]

pub step-IsOrdered : (s : System) {t : System} → GuiStep s t → IsOrdered s → IsOrdered t
unfolding begin_drain drain_start
step-IsOrdered s (handing e) h =
    let k = rw (drains, e) at h.single in
    record {
      single = omega arith;
      in_order = h.in_order;
      all_calls = h.all_calls;
      at_rest = h.at_rest;
      requests = h.requests;
      calls = h.calls;
      timely = h.timely;
    }
step-IsOrdered s (draining e q) h =
    let k = rw (drains, e, q) at h.single in
    record {
      single = omega arith;
      in_order = ap (written s.log ++◌) (append-nil s.batcher.pending) ∙ (rw e at h.in_order);
      all_calls = rw e at h.all_calls;
      at_rest = elim h.at_rest [ inl f ↦ inl f | inr (p, q) ↦ inr (refl, q) ];
      requests = h.requests;
      calls = tt;
      timely = h.timely;
    }
step-IsOrdered s (painting {text} e) h =
    let k = rw (drains, e) at h.single in
    record {
      single = k;
      in_order =
          rw (written-paint text s.log)
            (append_assoc (written s.log) text s.batcher.pending ∙ (rw e at h.in_order));
      all_calls = rw (called_in-paint text s.log) (rw e at h.all_calls);
      at_rest = h.at_rest;
      requests = h.requests;
      calls = tt;
      timely = paint-IsTimely text s.log h.timely;
    }
step-IsOrdered s (ending e) h = end_drain-IsOrdered s e h
step-IsOrdered s (invoking {f} {fs} e) h =
    let k = rw (drains, e) at h.single in
    let c = rw e at h.calls in
    record {
      single = k;
      in_order = rw e at h.in_order;
      all_calls =
          append_assoc (called_in s.log) (f ∷ []) (fs ++ s.batcher.after) ∙ (rw e at h.all_calls);
      at_rest = h.at_rest;
      requests = h.requests;
      calls = c.1;
      timely = (c.0, h.timely);
    }
step-IsOrdered s (returning e) h =
    let k = rw (drains, e) at h.single in
    record {
      single = k;
      in_order = rw e at h.in_order;
      all_calls = rw e at h.all_calls;
      at_rest = h.at_rest;
      requests = h.requests;
      calls = tt;
      timely = h.timely;
    }

-- Through every interleaving of producers, the scheduler and the GUI thread: at most one drain is
-- scheduled, queued or before the end of its second critical section; the text on the screen, that of
-- the drain and the pending text are, in this order, the text that was sent; the callbacks that ran,
-- those that the drain still has to call and those that wait are, in this order, the ones that were
-- requested; and a callback runs when all the text sent before it is on the screen.
pub Reachable-IsOrdered : (s : System) → Reachable s → IsOrdered s
Reachable-IsOrdered s start = initial-IsOrdered
Reachable-IsOrdered s (next {s = u} r (producing text)) =
    produce-IsOrdered u text (Reachable-IsOrdered u r)
Reachable-IsOrdered s (next {s = u} r requesting) = request-IsOrdered u (Reachable-IsOrdered u r)
Reachable-IsOrdered s (next {s = u} r (on_gui g)) = step-IsOrdered u g (Reachable-IsOrdered u r)
