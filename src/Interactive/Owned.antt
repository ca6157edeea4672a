-- ===== src/Interactive/Owned.antt =====
-- No transport of `interactiveRuntimeRegistry` (guis/interactive_runtime.go) is lost: its context is
-- that of a registered runtime, or has been cancelled.
use nbterminal.Base.{
  ◌≡◌, ◌≢◌, refl, sym, ap, ◌∙◌, subst, ◌⊎◌, inl, inr, true, Option, none, some, List, [], ◌∷◌, ◌++◌,
  is_nil, Text, text_eq, text_eq_iff, trim_space, lookup, delete, insert, lookup-delete_other,
  lookup-insert, lookup-insert_other, Bool-cases, Option-cases, some_inj, All,
}
use nbterminal.Interactive.Defs.{
  RuntimeError, exists, not_found, start_failed, cancelled, closed, Transports, Runtime, Registry,
  Effects, start, replace_end, close, release, close_all, closing, start_new, close_found,
  release_found,
}

abbrev pub IsIn : {A : Type 0} → A → List A → Type 0
IsIn x [] = ⊥
IsIn x (y ∷ ys) = (x ≡ y) ⊎ IsIn x ys

IsIn-append : {A : Type 0} (x : A) (xs ys : List A) → IsIn x ys → IsIn x (xs ++ ys)
IsIn-append x [] ys h = h
IsIn-append x (z ∷ xs) ys h = inr (IsIn-append x xs ys h)

IsIn-left : {A : Type 0} (x : A) (xs ys : List A) → IsIn x xs → IsIn x (xs ++ ys)
IsIn-left x [] ys h = elim h [ ]
IsIn-left x (z ∷ xs) ys (inl e) = inl e
IsIn-left x (z ∷ xs) ys (inr h) = inr (IsIn-left x xs ys h)

pub text-cases : (s t : Text) → (s ≡ t) ⊎ (s ≢ t)
text-cases s t = elim (Bool-cases (text_eq s t)) [
  | inl e ↦ inl ((text_eq_iff s t).0 e)
  | inr e ↦ inr (λ p. let q = (text_eq_iff s t).1 p in cc)
]

module _ (kit : Transports) where
  abbrev pub Registered : Registry kit → kit.Cancel → Type 0
  Registered r c =
      (key : Text) × (runtime : Runtime kit) × (lookup key r ≡ some runtime) × (runtime.cancel ≡ c)

  -- A context is that of a registered runtime, or among the cancelled ones.
  abbrev pub Held : Registry kit → Effects kit → kit.Cancel → Type 0
  Held r log c = Registered r c ⊎ IsIn (cancelled c) log

  more :
      (r : Registry kit) (new log : Effects kit) (c : kit.Cancel)
      → Held r log c
      → Held r (new ++ log) c
  more r new log c (inl h) = inl h
  more r new log c (inr h) = inr (IsIn-append (cancelled c) new log h)

  -- A runtime that is taken out, or replaced, was cancelled.
  out :
      (r s : Registry kit) (key : Text) (runtime : Runtime kit) (rest log : Effects kit)
      (c : kit.Cancel)
      → lookup key r ≡ some runtime
      → ((k : Text) → k ≢ key → lookup k s ≡ lookup k r)
      → Held r log c
      → Held s (cancelled runtime.cancel ∷ rest ++ log) c
  out r s key runtime rest log c e same (inr h) = inr (inr (IsIn-append (cancelled c) rest log h))
  out r s key runtime rest log c e same (inl (k, other, f, g)) = elim (text-cases k key) [
    | inl p ↦
        let q = some_inj (sym f ∙ (ap (λ k. lookup k r) p ∙ e)) in
        inr (inl (ap cancelled (sym g ∙ ap (λ x. x.cancel) q)))
    | inr p ↦ inl (k, other, same k p ∙ f, g)
  ]

  -- What a call leaves is held.
  abbrev Keeps : Registry kit → Effects kit → kit.Cancel → Registry kit → Effects kit → Type 0
  Keeps r log c s new = Held r log c → Held s (new ++ log) c

  pub close-Held :
      (r : Registry kit) (id : Text) (log : Effects kit) (c : kit.Cancel)
      → Held r log c
      → Held (close kit r id).0 ((close kit r id).1.0 ++ log) c
  unfolding close
  close-Held r id log c = go (lookup (trim_space id) r) refl
    where
      key : Text
      key = trim_space id

      go :
          (o : Option (Runtime kit))
          → lookup key r ≡ o
          → Keeps r log c (close_found kit r key o).0 (close_found kit r key o).1.0
      go none e h = h
      go (some runtime) e h =
          out r (delete key r) key runtime (closed runtime.session ∷ []) log c e
            (λ k p. lookup-delete_other key k r p) h

  pub release-Held :
      (r : Registry kit) (id : Text) (o : Option kit.Session) (log : Effects kit) (c : kit.Cancel)
      → Held r log c
      → Held (release kit r id o).0 ((release kit r id o).1.0 ++ log) c
  unfolding release
  release-Held r id none log c h = h
  release-Held r id (some s) log c h = go (lookup (trim_space id) r) refl h
    where
      key : Text
      key = trim_space id

      go :
          (o : Option (Runtime kit))
          → lookup key r ≡ o
          → Keeps r log c (release_found kit r key s o).0 (release_found kit r key s o).1.0
      go none e h = h
      go (some runtime) e h = elim (Bool-cases (kit.same runtime.session s)) [
        | inl f ↦
            rw f
              (out r (delete key r) key runtime [] log c e (λ k p. lookup-delete_other key k r p) h)
        | inr f ↦ rw f h
      ]

  closing-IsIn :
      (r : Registry kit) (c : kit.Cancel) → Registered r c → IsIn (cancelled c) (closing kit r)
  unfolding lookup
  closing-IsIn [] c (key, runtime, e, f) = cc
  closing-IsIn ((k, x) ∷ r) c (key, runtime, e, f) = elim (Bool-cases (text_eq k key)) [
    | inl g ↦ inl (ap cancelled (sym f ∙ ap (λ x. x.cancel) (sym (some_inj (rw (g, lookup) at e)))))
    | inr g ↦ inr (inr (closing-IsIn r c (key, runtime, rw (g, lookup) at e, f)))
  ]

  pub close_all-Held :
      (r : Registry kit) (log : Effects kit) (c : kit.Cancel)
      → Held r log c
      → Held (close_all kit r).0 ((close_all kit r).1 ++ log) c
  unfolding close_all
  close_all-Held r log c (inr h) = inr (IsIn-append (cancelled c) (closing kit r) log h)
  close_all-Held r log c (inl h) =
      inr (IsIn-left (cancelled c) (closing kit r) log (closing-IsIn r c h))

  start_new-Held :
      (r : Registry kit) (key : Text) (runtime : Runtime kit) (error : Option kit.StartError)
      (log : Effects kit) (c : kit.Cancel)
      → lookup key r ≡ none
      → Keeps r log c (start_new kit r key runtime error).0 (start_new kit r key runtime error).1.0
  start_new-Held r key runtime (some x) log c f h = more r (cancelled runtime.cancel ∷ []) log c h
  start_new-Held r key runtime none log c f (inr i) = inr i
  start_new-Held r key runtime none log c f (inl (k, x, g, q)) = elim (text-cases k key) [
    | inl p ↦ let z = sym g ∙ (ap (λ k. lookup k r) p ∙ f) in cc
    | inr p ↦ inl (k, x, lookup-insert_other key k runtime r p ∙ g, q)
  ]

  pub start-Held :
      (r : Registry kit) (id : Text) (runtime : Option (Runtime kit))
      (error : Option kit.StartError) (log : Effects kit) (c : kit.Cancel)
      → Held r log c
      → Held (start kit r id runtime error).0 ((start kit r id runtime error).1.0 ++ log) c
  unfolding start
  start-Held r id none error log c h = h
  start-Held r id (some runtime) error log c h = elim (Bool-cases (is_nil (trim_space id))) [
    | inl e ↦ rw e h
    | inr e ↦ elim (Option-cases (lookup (trim_space id) r)) [
      | inr (x, f) ↦ rw (e, f) h
      | inl f ↦ rw (e, f) (start_new-Held r (trim_space id) runtime error log c f h)
    ]
  ]

  -- The context that `Start` makes, if it comes that far.
  abbrev pub opened : kit.Cancel → Option (RuntimeError kit.StartError) → List kit.Cancel
  opened c none = c ∷ []
  opened c (some (start_failed e)) = c ∷ []
  opened c (some exists) = []
  opened c (some not_found) = []

  abbrev pub made : Option (Runtime kit) → Option (RuntimeError kit.StartError) → List kit.Cancel
  made none e = []
  made (some runtime) e = opened runtime.cancel e

  start_new-opened :
      (r : Registry kit) (key : Text) (runtime : Runtime kit) (error : Option kit.StartError)
      (log : Effects kit)
      → All
          (Held
            (start_new kit r key runtime error).0
            ((start_new kit r key runtime error).1.0 ++ log))
          (opened runtime.cancel (start_new kit r key runtime error).1.1)
  start_new-opened r key runtime (some x) log = (inr (inl refl), tt)
  start_new-opened r key runtime none log =
      (inl (key, runtime, lookup-insert key runtime r, refl), tt)

  pub start-made :
      (r : Registry kit) (id : Text) (runtime : Option (Runtime kit))
      (error : Option kit.StartError) (log : Effects kit)
      → All
          (Held (start kit r id runtime error).0 ((start kit r id runtime error).1.0 ++ log))
          (made runtime (start kit r id runtime error).1.1)
  unfolding start
  start-made r id none error log = tt
  start-made r id (some runtime) error log = elim (Bool-cases (is_nil (trim_space id))) [
    | inl e ↦ rw e tt
    | inr e ↦ elim (Option-cases (lookup (trim_space id) r)) [
      | inr (x, f) ↦ rw (e, f) tt
      | inl f ↦ rw (e, f) (start_new-opened r (trim_space id) runtime error log)
    ]
  ]

  -- A runtime keeps the context that its session was started with.
  abbrev pub AreOwn : (kit.Session → kit.Cancel) → Registry kit → Type 0
  AreOwn context r =
      (key : Text) (runtime : Runtime kit)
      → lookup key r ≡ some runtime
      → runtime.cancel ≡ context runtime.session

  module _ (context : kit.Session → kit.Cancel)
      (same_eq : (s t : kit.Session) → kit.same s t ≡ true → s ≡ t) where
    pub replace_end-Held :
        (r : Registry kit) (id : Text) (previous runtime : Runtime kit)
        (error : Option kit.StartError) (log : Effects kit) (c : kit.Cancel)
        → AreOwn context r
        → previous.cancel ≡ context previous.session
        → Held r log c
        → Held
            (replace_end kit r id previous runtime error).0
            ((replace_end kit r id previous runtime error).1.0 ++ log)
            c
    unfolding replace_end
    replace_end-Held r id previous runtime (some e) log c own p h =
        more r (cancelled runtime.cancel ∷ []) log c h
    replace_end-Held r id previous runtime none log c own p h =
        elim (Option-cases (lookup (trim_space id) r)) [
          | inl e ↦ rw e (more r (cancelled runtime.cancel ∷ closed runtime.session ∷ []) log c h)
          | inr (current, e) ↦ elim (Bool-cases (kit.same current.session previous.session)) [
            | inr f ↦
                rw (e, f) (more r (cancelled runtime.cancel ∷ closed runtime.session ∷ []) log c h)
            | inl f ↦
                let q =
                  own (trim_space id) current e
                  ∙ (ap context (same_eq current.session previous.session f) ∙ sym p) in
                rw (e, f)
                  (subst
                    (λ x.
                      Held (insert (trim_space id) runtime r)
                        (cancelled x ∷ closed previous.session ∷ log) c)
                    q
                    (out r (insert (trim_space id) runtime r) (trim_space id) current
                      (closed previous.session ∷ []) log c e
                      (λ k n. lookup-insert_other (trim_space id) k runtime r n) h))
          ]
        ]

  pub replace_end-opened :
      (r : Registry kit) (id : Text) (previous runtime : Runtime kit)
      (error : Option kit.StartError) (log : Effects kit)
      → Held
          (replace_end kit r id previous runtime error).0
          ((replace_end kit r id previous runtime error).1.0 ++ log)
          runtime.cancel
  unfolding replace_end
  replace_end-opened r id previous runtime (some e) log = inr (inl refl)
  replace_end-opened r id previous runtime none log =
      elim (Option-cases (lookup (trim_space id) r)) [
        | inl e ↦ rw e (inr (inl refl))
        | inr (current, e) ↦ elim (Bool-cases (kit.same current.session previous.session)) [
          | inr f ↦ rw (e, f) (inr (inl refl))
          | inl f ↦
              rw (e, f)
                (inl (trim_space id, runtime, lookup-insert (trim_space id) runtime r, refl))
        ]
      ]
