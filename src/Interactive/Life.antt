-- ===== src/Interactive/Life.antt =====
-- Every sequence of calls of `interactiveRuntimeRegistry` (guis/interactive_runtime.go), and what is
-- left of the transports.
use nbterminal.Base.{
  ℕ, zero, suc, refl, ◌⊎◌, get_elem?, erase_idx, All-erase_idx, All-get_elem?, ◌≡◌, sym, ap, ◌∙◌,
  subst, inl, inr, true, Option, none, some, List, [], ◌∷◌, ◌++◌, Text, trim_space, lookup,
  lookup-nil, some_inj, All, All-map,
}
use nbterminal.Interactive.Defs.{
  cancelled, Transports, Runtime, Registry, Effects, start, replace_begin, replace_end, swap,
  close_all,
}
use nbterminal.Interactive.Owned.{
  IsIn, Held, made, AreOwn, close-Held, release-Held, close_all-Held, start-Held, start-made,
  replace_end-Held, replace_end-opened,
}
use nbterminal.Interactive.Own.{
  HasOwn, started-AreOwn, replace_end-AreOwn, close-AreOwn, release-AreOwn, replace_begin-HasOwn,
}
use nbterminal.Interactive.World.{
  Replacement, RegistryAction, starting, replace_beginning, replace_ending, closing_one, releasing,
  closing_all, World, new_world, begun, ended, act, run_world, endings, InFlight, Accounted,
}

module _ (kit : Transports) (context : kit.Session → kit.Cancel)
    (same_eq : (s t : kit.Session) → kit.same s t ≡ true → s ≡ t) where
  -- A transport is started once: the runtimes that the callers bring have its context.
  abbrev pub BringsOwn : RegistryAction kit → Type 0
  BringsOwn (starting id (some runtime) error) = HasOwn kit context runtime
  BringsOwn (replace_beginning id (some runtime)) = HasOwn kit context runtime
  BringsOwn _ = Unit

  abbrev AreBoth : Replacement kit → Type 0
  AreBoth x = HasOwn kit context x.previous × HasOwn kit context x.runtime

  -- The contexts are accounted for, and runtimes, registered or in a replacement, have their own.
  abbrev IsKept : World kit → Type 0
  IsKept w =
      AreOwn kit context w.registry × All AreBoth w.in_flight × All (Accounted kit w) w.contexts

  All-append :
      (P : kit.Cancel → Type 0) (xs ys : List kit.Cancel) → All P xs → All P ys → All P (xs ++ ys)
  All-append P [] ys h k = k
  All-append P (x ∷ xs) ys h k = (h.0, All-append P xs ys h.1 k)

  abbrev after : World kit → Registry kit → Effects kit → World kit
  after w r new = record w { registry = r; log = new ++ w.log }

  Accounted-more :
      (w : World kit) (r : Registry kit) (new : Effects kit)
      → ((c : kit.Cancel) → Held kit w.registry w.log c → Held kit r (new ++ w.log) c)
      → All (Accounted kit w) w.contexts
      → All (Accounted kit (after w r new)) w.contexts
  Accounted-more w r new f h =
      All-map (Accounted kit w) (Accounted kit (after w r new)) w.contexts
        (λ c a. elim a [ inl x ↦ inl (f c x) | inr y ↦ inr y ]) h

  nil-AreOwn : AreOwn kit context []
  nil-AreOwn key runtime e = let z = sym (lookup-nil key) ∙ e in cc

  nil-Held : (log : Effects kit) (c : kit.Cancel) → Held kit [] log c → IsIn (cancelled c) log
  nil-Held log c (inl (key, runtime, e, f)) = let z = sym (lookup-nil key) ∙ e in cc
  nil-Held log c (inr h) = h

  InFlight-erase_idx :
      (c : kit.Cancel) (xs : List (Replacement kit)) (n : ℕ) {x : Replacement kit}
      → get_elem? xs n ≡ some x
      → InFlight kit c xs
      → (x.runtime.cancel ≡ c) ⊎ InFlight kit c (erase_idx xs n)
  InFlight-erase_idx c [] n e h = inr h
  InFlight-erase_idx c (y ∷ xs) zero e (inl h) =
      inl (subst (λ z. z.runtime.cancel ≡ c) (some_inj e) h)
  InFlight-erase_idx c (y ∷ xs) zero e (inr h) = inr h
  InFlight-erase_idx c (y ∷ xs) (suc n) e (inl h) = inr (inl h)
  InFlight-erase_idx c (y ∷ xs) (suc n) e (inr h) = elim (InFlight-erase_idx c xs n e h) [
    | inl a ↦ inl a
    | inr b ↦ inr (inr b)
  ]

  begun-IsKept :
      (w : World kit) (id : Text) (new found : Option (Runtime kit))
      → BringsOwn (replace_beginning id new)
      → replace_begin kit w.registry id new ≡ found
      → IsKept w
      → IsKept (begun kit w id new found)
  begun-IsKept w id none found o e h = h
  begun-IsKept w id (some runtime) none o e h = h
  begun-IsKept w id (some runtime) (some previous) o e (own, both, kept) = (
    own,
    ((replace_begin-HasOwn kit context w.registry id runtime own e, o), both),
    (
      inr (inl refl),
      All-map (Accounted kit w) (Accounted kit (begun kit w id (some runtime) (some previous)))
          w.contexts (λ c a. elim a [ inl x ↦ inl x | inr y ↦ inr (inr y) ]) kept,
    ),
  )

  ended-IsKept :
      (w : World kit) (n : ℕ) (error : Option kit.StartError) (found : Option (Replacement kit))
      → get_elem? w.in_flight n ≡ found
      → IsKept w
      → IsKept (ended kit w n error found)
  ended-IsKept w n error none e h = h
  ended-IsKept w n error (some x) e (own, both, kept) =
      let (p, q) = All-get_elem? AreBoth w.in_flight n both e in
      let opened = replace_end-opened kit w.registry x.id x.previous x.runtime error w.log in
      (
        replace_end-AreOwn kit context w.registry x.id x.previous x.runtime error q own,
        All-erase_idx AreBoth w.in_flight n both,
        All-map (Accounted kit w) (Accounted kit (ended kit w n error (some x))) w.contexts
            (λ c a. elim a [
              | inl h ↦ inl (
                  replace_end-Held kit context same_eq w.registry x.id x.previous x.runtime error
                    w.log c own p h)
              | inr f ↦ elim (InFlight-erase_idx c w.in_flight n e f) [
                | inl same ↦ inl (
                    subst
                      (Held kit (ended kit w n error (some x)).registry
                        (ended kit w n error (some x)).log)
                      same opened)
                | inr rest ↦ inr rest
              ]
            ])
            kept,
      )

  made-Accounted :
      (w : World kit) (cs : List kit.Cancel)
      → All (Held kit w.registry w.log) cs
      → All (Accounted kit w) cs
  made-Accounted w cs h = All-map (Held kit w.registry w.log) (Accounted kit w) cs (λ c x. inl x) h

  start-AreOwn :
      (r : Registry kit) (id : Text) (new : Option (Runtime kit)) (error : Option kit.StartError)
      → BringsOwn (starting id new error)
      → AreOwn kit context r
      → AreOwn kit context (start kit r id new error).0
  unfolding start
  start-AreOwn r id none error o h = h
  start-AreOwn r id (some new) error o h = started-AreOwn kit context r id new error o h

  act-IsKept :
      (w : World kit) (a : RegistryAction kit) → BringsOwn a → IsKept w → IsKept (act kit w a)
  unfolding act close_all
  act-IsKept w (starting id new error) o (own, both, kept) =
      let s = start kit w.registry id new error in
      let w' = after w s.0 s.1.0 in
      (
        start-AreOwn w.registry id new error o own,
        both,
        All-append (Accounted kit w') (made kit new s.1.1) w.contexts
            (made-Accounted w' (made kit new s.1.1) (start-made kit w.registry id new error w.log))
            (Accounted-more w s.0 s.1.0 (start-Held kit w.registry id new error w.log) kept),
      )
  act-IsKept w (replace_beginning id new) o h =
      begun-IsKept w id new (replace_begin kit w.registry id new) o refl h
  act-IsKept w (replace_ending n error) o h =
      ended-IsKept w n error (get_elem? w.in_flight n) refl h
  act-IsKept w (closing_one id) o (own, both, kept) = (
    close-AreOwn kit context w.registry id own,
    both,
    Accounted-more w _ _ (close-Held kit w.registry id w.log) kept,
  )
  act-IsKept w (releasing id s) o (own, both, kept) = (
    release-AreOwn kit context w.registry id s own,
    both,
    Accounted-more w _ _ (release-Held kit w.registry id s w.log) kept,
  )
  act-IsKept w closing_all o (own, both, kept) = (
    nil-AreOwn,
    both,
    Accounted-more w [] (close_all kit w.registry).1 (close_all-Held kit w.registry w.log) kept,
  )

  run_world-IsKept :
      (actions : List (RegistryAction kit)) (w : World kit)
      → All BringsOwn actions
      → IsKept w
      → IsKept (run_world kit w actions)
  unfolding run_world
  run_world-IsKept [] w o h = h
  run_world-IsKept (a ∷ rest) w o h = run_world-IsKept rest (act kit w a) o.1 (act-IsKept w a o.0 h)

  -- Through every sequence of calls, with the two halves of each `Replace` apart, every context that
  -- was made is that of a registered runtime, or has been cancelled, or is that of a `Replace` that has
  -- not ended yet, given that each transport is started once.
  pub run_world_lem :
      (actions : List (RegistryAction kit))
      → All BringsOwn actions
      → All
          (Accounted kit (run_world kit (new_world kit) actions))
          (run_world kit (new_world kit) actions).contexts
  run_world_lem actions o = (run_world-IsKept actions (new_world kit) o (nil-AreOwn, tt, tt)).2

  -- In an empty registry a replacement that ends registers nothing.
  ending-empty :
      (w : World kit) (n : ℕ) (error : Option kit.StartError) (found : Option (Replacement kit))
      → w.registry ≡ []
      → (ended kit w n error found).registry ≡ []
  unfolding replace_end
  ending-empty w n error none e = e
  ending-empty w n (some x) (some y) e = e
  ending-empty w n none (some y) e =
      ap (λ o. (swap kit w.registry (trim_space y.id) y.previous y.runtime o).0)
        (ap (lookup (trim_space y.id)) e ∙ lookup-nil (trim_space y.id))
      ∙ e

  run_world-empty :
      (rest : List (ℕ × Option kit.StartError)) (w : World kit)
      → w.registry ≡ []
      → (run_world kit w (endings kit rest)).registry ≡ []
  unfolding run_world act
  run_world-empty [] w e = e
  run_world-empty ((n, error) ∷ rest) w e =
      run_world-empty rest (ended kit w n error (get_elem? w.in_flight n))
        (ending-empty w n error (get_elem? w.in_flight n) e)

  endings-BringOwn : (rest : List (ℕ × Option kit.StartError)) → All BringsOwn (endings kit rest)
  endings-BringOwn [] = tt
  endings-BringOwn ((n, error) ∷ rest) = (tt, endings-BringOwn rest)

  -- Given that each transport is started once: after any sequence of calls, a `CloseAll`, and the end
  -- of any of the `Replace` that were in flight, in any order and however the starts of their
  -- successors went, every context that was made has been cancelled but for those of the `Replace` that
  -- are still in flight.
  pub close_all-run_world :
      (actions : List (RegistryAction kit)) (rest : List (ℕ × Option kit.StartError))
      → All BringsOwn actions
      → let closed = act kit (run_world kit (new_world kit) actions) closing_all in
        let w = run_world kit closed (endings kit rest) in
        All (λ c. IsIn (cancelled c) w.log ⊎ InFlight kit c w.in_flight) w.contexts
  unfolding act close_all
  close_all-run_world actions rest o =
      let before = run_world kit (new_world kit) actions in
      let closed = act kit before closing_all in
      let w = run_world kit closed (endings kit rest) in
      let kept = run_world-IsKept (endings kit rest) closed (endings-BringOwn rest) (
        act-IsKept before closing_all tt
          (run_world-IsKept actions (new_world kit) o (nil-AreOwn, tt, tt))) in
      let empty = run_world-empty rest closed refl in
      All-map (Accounted kit w) (λ c. IsIn (cancelled c) w.log ⊎ InFlight kit c w.in_flight)
        w.contexts
        (λ c a. elim a [
          | inl x ↦ inl (nil-Held w.log c (subst (λ r. Held kit r w.log c) empty x))
          | inr y ↦ inr y
        ])
        kept.2
