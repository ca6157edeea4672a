-- ===== src/Interactive/Defs.antt =====
-- `interactiveRuntimeRegistry` (guis/interactive_runtime.go): its state and its methods. A transport
-- and the function that cancels its context are opaque; the result of a transport's `Start` is an
-- argument. What a method does to transports is a list of effects.
use nbterminal.Base.{
  Bool, true, false, Option, none, some, List, [], ◌∷◌, if◌then◌else◌, is_some, is_nil, Text,
  trim_space, lookup, delete, insert,
}

pub record InteractiveRuntime (Session Cancel : Type 0) : Type 0 where
  pub session : Session
  pub cancel : Cancel

pub data RuntimeError (StartError : Type 0) : Type 0 where
  exists not_found : RuntimeError StartError
  start_failed : StartError → RuntimeError StartError

pub data Effect (Session Cancel : Type 0) : Type 0 where
  cancelled : Cancel → Effect Session Cancel
  closed : Session → Effect Session Cancel

-- The transports: `same` is `==` on sessions.
pub record Transports : Type 1 where
  pub Session : Type 0
  pub Cancel : Type 0
  pub StartError : Type 0
  pub same : Session → Session → Bool

module _ (kit : Transports) where
  abbrev pub Runtime : Type 0
  Runtime = InteractiveRuntime kit.Session kit.Cancel

  abbrev pub Effects : Type 0
  Effects = List (Effect kit.Session kit.Cancel)

  -- The field `runtimes`.
  abbrev pub Registry : Type 0
  Registry = List (Text × Runtime)

  -- The registry after a call, the effects, and the error.
  abbrev pub Outcome : Type 0
  Outcome = Registry × (Effects × Option (RuntimeError kit.StartError))

  abbrev pub failed : Registry → RuntimeError kit.StartError → Outcome
  failed r e = (r, ([], some e))

  abbrev pub start_new : Registry → Text → Runtime → Option kit.StartError → Outcome
  start_new r key runtime (some e) = (r, (cancelled runtime.cancel ∷ [], some (start_failed e)))
  start_new r key runtime none = (insert key runtime r, ([], none))

  abbrev pub start_named : Registry → Text → Runtime → Option kit.StartError → Outcome
  start_named r key runtime error =
      if is_nil key
      then failed r not_found
      else if is_some (lookup key r)
      then failed r exists
      else start_new r key runtime error

  -- `Start`, with the session and the cancel function of the new context, none for a nil session, and
  -- the error of the session's start.
  unfoldable pub start : Registry → Text → Option Runtime → Option kit.StartError → Outcome
  unfolding lookup insert
  start r id none error = failed r not_found
  start r id (some runtime) error = start_named r (trim_space id) runtime error

  -- `Replace` up to the start of the successor: the runtime to replace, none where it gives up.
  unfoldable pub replace_begin : Registry → Text → Option Runtime → Option Runtime
  unfolding lookup
  replace_begin r id none = none
  replace_begin r id (some runtime) =
      if is_nil (trim_space id) then none else lookup (trim_space id) r

  abbrev pub swap : Registry → Text → Runtime → Runtime → Option Runtime → Outcome
  swap r key previous runtime none =
      (r, (cancelled runtime.cancel ∷ closed runtime.session ∷ [], some exists))
  swap r key previous runtime (some current) =
      if kit.same current.session previous.session
      then (insert key runtime r, (cancelled previous.cancel ∷ closed previous.session ∷ [], none))
      else (r, (cancelled runtime.cancel ∷ closed runtime.session ∷ [], some exists))

  -- The rest of `Replace` from the start of the successor on, with the registry as it is when the start of the successor has returned.
  unfoldable pub replace_end : Registry → Text → Runtime → Runtime → Option kit.StartError → Outcome
  unfolding lookup insert
  replace_end r id previous runtime (some e) =
      (r, (cancelled runtime.cancel ∷ [], some (start_failed e)))
  replace_end r id previous runtime none =
      swap r (trim_space id) previous runtime (lookup (trim_space id) r)

  unfoldable pub session : Registry → Text → Option kit.Session
  unfolding lookup
  session r id = elim (lookup (trim_space id) r) [
    | none ↦ none
    | some runtime ↦ some runtime.session
  ]

  unfoldable pub has : Registry → Text → Bool
  unfolding session
  has r id = is_some (session r id)

  abbrev pub close_found : Registry → Text → Option Runtime → Registry × (Effects × Bool)
  close_found r key none = (r, ([], false))
  close_found r key (some runtime) =
      (delete key r, (cancelled runtime.cancel ∷ closed runtime.session ∷ [], true))

  unfoldable pub close : Registry → Text → Registry × (Effects × Bool)
  unfolding lookup delete
  close r id = close_found r (trim_space id) (lookup (trim_space id) r)

  abbrev pub release_found :
      Registry → Text → kit.Session → Option Runtime → Registry × (Effects × Bool)
  release_found r key s none = (r, ([], false))
  release_found r key s (some runtime) =
      if kit.same runtime.session s
      then (delete key r, (cancelled runtime.cancel ∷ [], true))
      else (r, ([], false))

  unfoldable pub release : Registry → Text → Option kit.Session → Registry × (Effects × Bool)
  unfolding lookup delete
  release r id none = (r, ([], false))
  release r id (some s) = release_found r (trim_space id) s (lookup (trim_space id) r)

  abbrev pub closing : Registry → Effects
  closing [] = []
  closing ((key, runtime) ∷ r) = cancelled runtime.cancel ∷ closed runtime.session ∷ closing r

  unfoldable pub close_all : Registry → Registry × Effects
  close_all r = ([], closing r)
