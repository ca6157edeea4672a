-- ===== src/Batcher/Progress.antt =====
-- `guiOutputBatcher` (guis/guis.go) delivers: left alone, the GUI thread empties it.
use nbterminal.Base.{
  ℕ, zero, suc, ◌+◌, ◌*◌, ◌≤◌, ◌<◌, ◌≡◌, refl, sym, ap, ◌∙◌, subst, Option, none, some, List, [],
  ◌∷◌, if◌then◌else◌, is_nil, Text, length, inl, inr, ◌⊎◌, ◌≢◌, Bool-cases, arith,
}
use mathlib.Core.List.{append-nil}
use nbterminal.Batcher.Defs.{drain_start, drain_end}
use nbterminal.Batcher.Steps.{
  Callback, Stage, appending, appended, calling, System, begin_drain, end_drain, GuiStep, handing,
  draining, painting, ending, invoking, returning, Reachable,
}
use nbterminal.Batcher.Order.{
  IsOrdered, step-IsOrdered, written, called_in, drains, Reachable-IsOrdered,
}

abbrev more : System → ℕ
more s = if is_nil s.batcher.pending then 0 else 10

abbrev stage_work : System → Option Stage → ℕ
stage_work s none = 0
stage_work s (some (appending text)) = 3 + more s
stage_work s (some appended) = 2 + more s
stage_work s (some (calling fs)) = 1 + length fs

-- A bound on the steps that are left.
abbrev pub work : System → ℕ
work s = 5 * s.starting + 4 * s.queued + stage_work s s.running + length s.batcher.after

step-work : (s : System) {t : System} → GuiStep s t → work t < work s
unfolding begin_drain drain_start end_drain drain_end
step-work s (handing e) = rw e (omega arith)
step-work s (draining e q) = rw (e, q) (omega arith)
step-work s (painting e) = rw e (omega arith)
step-work s (ending e) = elim (Bool-cases (is_nil s.batcher.pending)) [
  | inl n ↦ rw (e, n) (omega arith)
  | inr n ↦ rw (e, n) (omega arith)
]
step-work s (invoking e) = rw e (omega arith)
step-work s (returning e) = rw e (omega arith)

abbrev pub IsSettled : System → Type 0
IsSettled s = (s.starting ≡ 0) × (s.queued ≡ 0) × (s.running ≡ none)

progress : (s : System) → IsSettled s ⊎ ((t : System) × GuiStep s t)
progress s = go s.starting s.queued s.running refl refl refl
  where
    go :
        (a b : ℕ) (r : Option Stage)
        → s.starting ≡ a
        → s.queued ≡ b
        → s.running ≡ r
        → IsSettled s ⊎ ((t : System) × GuiStep s t)
    go (suc a) b r p q e = inr (_, handing p)
    go zero b (some (appending text)) p q e = inr (_, painting e)
    go zero b (some appended) p q e = inr (_, ending e)
    go zero b (some (calling [])) p q e = inr (_, returning e)
    go zero b (some (calling (f ∷ fs))) p q e = inr (_, invoking e)
    go zero (suc b) none p q e = inr (_, draining e q)
    go zero zero none p q e = inl (p, q, e)

-- `n` steps of the GUI thread and the scheduler.
pub data GuiRun : ℕ → System → System → Type 0 where
  finished : {s : System} → GuiRun 0 s s
  stepping : {n : ℕ} {s t u : System} → GuiStep s t → GuiRun n t u → GuiRun (suc n) s u

step-sent : (s : System) {t : System} → GuiStep s t → t.sent ≡ s.sent
unfolding begin_drain drain_start end_drain drain_end
step-sent s (handing e) = refl
step-sent s (draining e q) = refl
step-sent s (painting e) = refl
step-sent s (ending e) = elim (Bool-cases (is_nil s.batcher.pending)) [
  | inl n ↦ rw n refl
  | inr n ↦ rw n refl
]
step-sent s (invoking e) = refl
step-sent s (returning e) = refl

step-requested : (s : System) {t : System} → GuiStep s t → t.requested ≡ s.requested
unfolding begin_drain drain_start end_drain drain_end
step-requested s (handing e) = refl
step-requested s (draining e q) = refl
step-requested s (painting e) = refl
step-requested s (ending e) = elim (Bool-cases (is_nil s.batcher.pending)) [
  | inl n ↦ rw n refl
  | inr n ↦ rw n refl
]
step-requested s (invoking e) = refl
step-requested s (returning e) = refl

-- Runs take at most `work s` steps.
run_bound : {n : ℕ} (s : System) {t : System} → GuiRun n s t → n + work t ≤ work s
run_bound s finished = omega arith
run_bound s (stepping {t} g r) = let a = step-work s g in let b = run_bound t r in omega arith

settled_lem :
    (s : System)
    → IsOrdered s
    → IsSettled s
    → (written s.log ≡ s.sent) × (called_in s.log ≡ s.requested)
settled_lem s h (p, q, e) =
    let k = rw (drains, p, q, e) at h.single in
    elim h.at_rest [
      | inl f ↦ absurd (zero_ne_one (k ∙ ap {B = ℕ} (λ b. if b then 1 else 0) f))
      | inr (f, g) ↦ (
        sym (append-nil (written s.log)) ∙ (rw (e, f) at h.in_order),
        sym (append-nil (called_in s.log)) ∙ (rw (e, g) at h.all_calls),
      )
    ]
  where
    zero_ne_one : ◌≢◌ {A = ℕ} 0 1
    zero_ne_one x = omega arith

abbrev pub IsDelivered : System → Text → List Callback → Type 0
IsDelivered t text fs = IsSettled t × (written t.log ≡ text) × (called_in t.log ≡ fs)

run_all :
    (fuel : ℕ) (s : System)
    → IsOrdered s
    → work s < fuel
    → (n : ℕ) × (t : System) × GuiRun n s t × IsDelivered t s.sent s.requested
run_all zero s h k = absurd (omega arith)
run_all (suc fuel) s h k = elim (progress s) [
  | inl e ↦ let (a, b) = settled_lem s h e in (0, s, finished, (e, a, b))
  | inr (t, g) ↦
      let w = step-work s g in
      let (n, u, r, d) = run_all fuel t (step-IsOrdered s g h) (omega arith) in
      (
        suc n,
        u,
        stepping g r,
        subst (IsDelivered u s.sent) (step-requested s g)
            (subst (λ x. IsDelivered u x t.requested) (step-sent s g) d),
      )
]

-- A run of the GUI thread keeps what was sent and requested.
run-kept :
    {n : ℕ} (s : System) {t : System}
    → GuiRun n s t
    → IsOrdered s
    → IsOrdered t × (t.sent ≡ s.sent) × (t.requested ≡ s.requested)
run-kept s finished h = (h, refl, refl)
run-kept s (stepping {t} g r) h =
    let (i, a, b) = run-kept t r (step-IsOrdered s g h) in
    (i, a ∙ step-sent s g, b ∙ step-requested s g)

-- Take any state that producers and the GUI thread reach, and any run of the GUI thread and the
-- scheduler alone from there. It has at most `work s` steps. Where it cannot go on, it is at rest with
-- all the text that was sent on the screen, in order, and every callback that was requested called,
-- once for each request and in order; and it can always be continued to such a rest.
pub delivery :
    (s : System) {n : ℕ} {t : System}
    → Reachable s
    → GuiRun n s t
    → (n ≤ work s)
      × (IsDelivered t s.sent s.requested ⊎ ((u : System) × GuiStep t u))
      × ((m : ℕ) × (u : System) × GuiRun m t u × IsDelivered u s.sent s.requested)
delivery s {n} {t} r g =
    let (h, a, b) = run-kept s g (Reachable-IsOrdered s r) in
    let k = run_bound s g in
    let sent : (u : System) → IsDelivered u t.sent t.requested → IsDelivered u s.sent s.requested =
      λ u d. subst (IsDelivered u s.sent) b (subst (λ x. IsDelivered u x t.requested) a d) in
    let (m, u, f, d) = run_all (suc (work t)) t h (omega arith) in
    (omega arith, stopped t h (progress t) sent, (m, u, f, sent u d))
  where
    stopped :
        {text : Text} {fs : List Callback} (t : System)
        → IsOrdered t
        → IsSettled t ⊎ ((u : System) × GuiStep t u)
        → ((u : System) → IsDelivered u t.sent t.requested → IsDelivered u text fs)
        → IsDelivered t text fs ⊎ ((u : System) × GuiStep t u)
    stopped t h (inl e) f = let (a, b) = settled_lem t h e in inl (f t (e, a, b))
    stopped t h (inr g) f = inr g
