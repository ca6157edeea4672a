-- ===== src/Runs/Exclusive.antt =====
-- A session runs one command at a time (guis/guis.go).
use nbterminal.Base.{
  ℕ, ◌+◌, ◌%◌, ◌^◌, ◌≡◌, ◌≢◌, ◌↔◌, refl, sym, ap, ◌∙◌, subst, Bool, true, false, not, ◌||◌, Option,
  some, is_some, is_nil, ◌==◌, Text, trim_space, lookup, insert, lookup-delete, lookup-insert,
  lookup-insert_other, Bool-cases, ==_iff, arith, inl, inr,
}
use nbterminal.Runs.{
  CommandRuns, begin_command_run_for_session, finish_command_run, command_running_for_session,
  cancel_command_run,
}

module _ {Cancel : Type 0} (a : CommandRuns Cancel) (f : Cancel) (session_id : Text) where
  abbrev key : Text
  key = trim_space session_id

  abbrev begun : CommandRuns Cancel
  begun = (begin_command_run_for_session a (some f) session_id).0

  abbrev run_id : ℕ
  run_id = (a.run_id + 1) % 2 ^ 64

  -- A run begins exactly where the session has a name and no run yet.
  pub begin-succeeds_iff :
      ((begin_command_run_for_session a (some f) session_id).1.1 ≡ true)
      ↔ ((is_nil key ≡ false) × (command_running_for_session a key ≡ false))
  unfolding begin_command_run_for_session command_running_for_session
  begin-succeeds_iff = ground arith

  begun_run :
      (begin_command_run_for_session a (some f) session_id).1.1 ≡ true
      → begin_command_run_for_session a (some f) session_id ≡ (
        record {
          runs = insert key (record { id = run_id; cancel = some f }) a.runs;
          run_id = run_id;
        },
        (run_id, true),
      )
  unfolding begin_command_run_for_session
  begun_run h = elim (Bool-cases (is_nil key)) [
    | inl e ↦ let k = rw e at h in cc
    | inr e ↦ elim (Bool-cases (is_some (lookup key a.runs))) [
      | inl g ↦ let k = rw (e, g) at h in cc
      | inr g ↦ rw (e, g) refl
    ]
  ]

  abbrev next : CommandRuns Cancel
  next = record {
    runs = insert key (record { id = run_id; cancel = some f }) a.runs;
    run_id = run_id;
  }

  found : lookup key next.runs ≡ some (record { id = run_id; cancel = some f })
  found = lookup-insert key (record { id = run_id; cancel = some f }) a.runs

  -- Neither a nil function nor any other is taken, under any spelling of the session.
  refused_again :
      (g : Option Cancel) (other : Text)
      → trim_space other ≡ key
      → begin_command_run_for_session next g other ≡ (next, (0, false))
  unfolding begin_command_run_for_session
  refused_again g other e =
      let held = ap (λ k. lookup k next.runs) e ∙ found in
      elim (Bool-cases (not (is_some g) || is_nil (trim_space other))) [
        | inl n ↦ rw n refl
        | inr n ↦ rw (n, held) refl
      ]

  abbrev IsCancellable : Option Cancel → Text → CommandRuns Cancel × (ℕ × Bool) → Type 0
  IsCancellable g other r =
      (command_running_for_session r.0 key ≡ true)
      × (cancel_command_run r.0 key ≡ (some f, true))
      × (begin_command_run_for_session r.0 g other ≡ (r.0, (0, false)))

  next-IsCancellable :
      (g : Option Cancel) (other : Text)
      → trim_space other ≡ key
      → IsCancellable g other (next, (run_id, true))
  unfolding command_running_for_session cancel_command_run
  next-IsCancellable g other e =
      (rw found refl, rw (found, cancel_command_run) refl, refused_again g other e)

  -- A run that has begun runs, and cancelling it calls its function; whatever function a second run
  -- brings, it is refused for the same session, however its name is spaced, and changes nothing.
  pub cancel-begin :
      (g : Option Cancel) (other : Text)
      → (begin_command_run_for_session a (some f) session_id).1.1 ≡ true
      → trim_space other ≡ key
      → (command_running_for_session begun key ≡ true)
        × (cancel_command_run begun key ≡ (some f, true))
        × (begin_command_run_for_session begun g other ≡ (begun, (0, false)))
  cancel-begin g other h e =
      subst (IsCancellable g other) (sym (begun_run h)) (next-IsCancellable g other e)

  abbrev IsEnded : ℕ → Text → CommandRuns Cancel × (ℕ × Bool) → Type 0
  IsEnded id other r =
      ((finish_command_run r.0 key r.1.0).1 ≡ true)
      × (command_running_for_session (finish_command_run r.0 key r.1.0).0 key ≡ false)
      × (finish_command_run r.0 key id ≡ (r.0, false))
      × (command_running_for_session r.0 other ≡ command_running_for_session a other)

  not_same : (id : ℕ) → id ≢ run_id → (run_id == id) ≡ false
  not_same id ne = elim (Bool-cases (run_id == id)) [
    | inl e ↦ absurd (ne (sym ((==_iff run_id id).0 e)))
    | inr e ↦ e
  ]

  same : (run_id == run_id) ≡ true
  same = (==_iff run_id run_id).1 refl

  next-IsEnded :
      (id : ℕ) (other : Text) → other ≢ key → id ≢ run_id → IsEnded id other (next, (run_id, true))
  unfolding command_running_for_session finish_command_run
  next-IsEnded id other ne nid = (
    rw (found, finish_command_run, same) refl,
    rw (found, finish_command_run, same, lookup-delete key next.runs) refl,
    rw (found, finish_command_run, not_same id nid) refl,
    ap is_some (lookup-insert_other key other (record { id = run_id; cancel = some f }) a.runs ne),
  )

  -- The run that has begun ends by its number and by no other, and another session is as before.
  pub finish-begin :
      (id : ℕ) (other : Text)
      → (begin_command_run_for_session a (some f) session_id).1.1 ≡ true
      → other ≢ key
      → id ≢ (begin_command_run_for_session a (some f) session_id).1.0
      → ((finish_command_run begun key (begin_command_run_for_session a (some f) session_id).1.0).1
          ≡ true)
        × (command_running_for_session
              (finish_command_run begun key
                (begin_command_run_for_session a (some f) session_id).1.0).0
              key
            ≡ false)
        × (finish_command_run begun key id ≡ (begun, false))
        × (command_running_for_session begun other ≡ command_running_for_session a other)
  finish-begin id other h ne nid =
      subst (IsEnded id other) (sym (begun_run h))
        (next-IsEnded id other ne (λ p. nid (p ∙ sym (ap (λ r. r.1.0) (begun_run h)))))
