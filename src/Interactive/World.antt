-- ===== src/Interactive/World.antt =====
-- Sequences of calls of `interactiveRuntimeRegistry` (guis/interactive_runtime.go). `Replace` is two
-- calls: the one ends where the context of the successor has been made and its start begins, the other
-- begins where that start has returned. Between them the context is in flight.
use nbterminal.Base.{
  ℕ, ◌≡◌, ◌⊎◌, Option, none, some, List, [], ◌∷◌, ◌++◌, Text, get_elem?, erase_idx,
}
use nbterminal.Interactive.Defs.{
  Transports, Runtime, Registry, Effects, start, replace_begin, replace_end, close, release,
  close_all,
}
use nbterminal.Interactive.Owned.{Held, made}

module _ (kit : Transports) where
  -- A `Replace` between its halves: the runtime that it found, and the successor.
  pub record Replacement : Type 0 where
    pub id : Text
    pub previous : Runtime kit
    pub runtime : Runtime kit

  -- The calls that change something. A replacement in flight ends by its place among those.
  pub data RegistryAction : Type 0 where
    starting : Text → Option (Runtime kit) → Option kit.StartError → RegistryAction
    replace_beginning : Text → Option (Runtime kit) → RegistryAction
    replace_ending : ℕ → Option kit.StartError → RegistryAction
    closing_one : Text → RegistryAction
    releasing : Text → Option kit.Session → RegistryAction
    closing_all : RegistryAction

  -- The registry, what has been done to transports, newest first, the contexts that were made, and the
  -- replacements in flight.
  pub record World : Type 0 where
    pub registry : Registry kit
    pub log : Effects kit
    pub contexts : List kit.Cancel
    pub in_flight : List Replacement

  abbrev pub new_world : World
  new_world = record { registry = []; log = []; contexts = []; in_flight = [] }

  -- The context is made once the runtime to replace is found.
  abbrev pub begun : World → Text → Option (Runtime kit) → Option (Runtime kit) → World
  begun w id none found = w
  begun w id (some runtime) none = w
  begun w id (some runtime) (some previous) = record w {
    contexts = runtime.cancel ∷ w.contexts;
    in_flight = record { id = id; previous = previous; runtime = runtime } ∷ w.in_flight;
  }

  abbrev pub ended : World → ℕ → Option kit.StartError → Option Replacement → World
  ended w n error none = w
  ended w n error (some x) =
      let o = replace_end kit w.registry x.id x.previous x.runtime error in
      record w { registry = o.0; log = o.1.0 ++ w.log; in_flight = erase_idx w.in_flight n }

  unfoldable pub act : World → RegistryAction → World
  unfolding replace_end
  act w (starting id runtime error) =
      let o = start kit w.registry id runtime error in
      record w {
        registry = o.0;
        log = o.1.0 ++ w.log;
        contexts = made kit runtime o.1.1 ++ w.contexts;
      }
  act w (replace_beginning id runtime) =
      begun w id runtime (replace_begin kit w.registry id runtime)
  act w (replace_ending n error) = ended w n error (get_elem? w.in_flight n)
  act w (closing_one id) =
      let o = close kit w.registry id in record w { registry = o.0; log = o.1.0 ++ w.log }
  act w (releasing id s) =
      let o = release kit w.registry id s in record w { registry = o.0; log = o.1.0 ++ w.log }
  act w closing_all =
      let o = close_all kit w.registry in record w { registry = o.0; log = o.1 ++ w.log }

  unfoldable pub run_world : World → List RegistryAction → World
  unfolding act
  run_world w [] = w
  run_world w (a ∷ rest) = run_world (act w a) rest

  -- The ends of replacements.
  abbrev pub endings : List (ℕ × Option kit.StartError) → List RegistryAction
  endings [] = []
  endings ((n, error) ∷ rest) = replace_ending n error ∷ endings rest

  -- The context is that of a replacement in flight.
  abbrev pub InFlight : kit.Cancel → List Replacement → Type 0
  InFlight c [] = ⊥
  InFlight c (x ∷ xs) = (x.runtime.cancel ≡ c) ⊎ InFlight c xs

  abbrev pub Accounted : World → kit.Cancel → Type 0
  Accounted w c = Held kit w.registry w.log c ⊎ InFlight c w.in_flight
