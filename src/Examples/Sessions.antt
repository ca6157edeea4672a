-- ===== src/Examples/Sessions.antt =====
-- Tests of the models of the command runs (guis/guis.go), of guis/interactive_runtime.go and of
-- terminal/connection.go.
use nbterminal.Base.{
  ◌⊎◌, ℕ, ◌≡◌, ◌≢◌, ◌↔◌, refl, ap, true, false, some, none, List, [], ◌∷◌, arith, Text, codes,
  length, trim_space, ◌==◌, All, lookup, insert, text_eq, ==_iff, contains,
}
use nbterminal.Base.Int.{pos}
use nbterminal.Runs.{
  CommandRuns, begin_command_run_for_session, command_running_for_session, cancel_command_run,
}
use nbterminal.Runs.Exclusive.{cancel-begin}
use nbterminal.Interactive.Defs.{
  Transports, start, replace_begin, replace_end, InteractiveRuntime, cancelled,
}
use nbterminal.Interactive.Owned.{IsIn}
use nbterminal.Interactive.World.{
  new_world, act, run_world, RegistryAction, starting, replace_beginning, replace_ending,
  closing_all, endings, InFlight, Accounted,
}
use nbterminal.Interactive.Life.{BringsOwn, run_world_lem, close_all-run_world}
use nbterminal.Connections.Defs.{
  Connection, normalize, validate, normalize_connections, unique_connection_id, ssh_type,
}
use nbterminal.Connections.Distinct.{
  AreDistinct, IsNormalization, contains-unique_connection_id, IsExecutable,
  normalize_connections-AreDistinct, validate_iff,
}

abbrev idle : CommandRuns ℕ
idle = record { runs = []; run_id = 41 }

abbrev tab : Text
tab = codes "tab-1"

begins : (begin_command_run_for_session idle (some 7) tab).1.1 ≡ true
unfolding begin_command_run_for_session trim_space lookup
begins = refl

begun_number : (begin_command_run_for_session idle (some 7) tab).1.0 ≡ 42
unfolding begin_command_run_for_session trim_space lookup
begun_number = refl

spaced_tab : trim_space (codes " tab-1") ≡ trim_space tab
unfolding trim_space
spaced_tab = refl

cancel-begin_example :
    let begun = (begin_command_run_for_session idle (some 7) tab).0 in
    (command_running_for_session begun (trim_space tab) ≡ true)
    × (cancel_command_run begun (trim_space tab) ≡ (some 7, true))
    × (begin_command_run_for_session begun (some 8) (codes " tab-1") ≡ (begun, (0, false)))
cancel-begin_example = cancel-begin idle 7 tab (some 8) (codes " tab-1") begins spaced_tab

other_tab : codes "t" ≢ trim_space tab
unfolding trim_space
other_tab e = let n = ap length e in omega arith

stale_number : 41 ≢ (begin_command_run_for_session idle (some 7) tab).1.0
unfolding begin_command_run_for_session trim_space lookup
stale_number e = omega arith

-- A session and the function that cancels its context have the same number.
abbrev kit : Transports
kit = record { Session = ℕ; Cancel = ℕ; StartError = Text; same = λ a b. a == b }

abbrev runtime : ℕ → InteractiveRuntime ℕ ℕ
runtime n = record { session = n; cancel = n }

-- Sessions 2 and 3 are to replace session 1, and 3 is the later one to start; session 4 does not start;
-- session 5 is to replace session 2 and is still starting.
abbrev calls : List (RegistryAction kit)
calls =
    starting tab (some (runtime 1)) none
    ∷ replace_beginning tab (some (runtime 2))
    ∷ replace_beginning tab (some (runtime 3))
    ∷ replace_ending 1 none
    ∷ replace_ending 0 none
    ∷ starting (codes "tab-2") (some (runtime 4)) (some (codes "no shell"))
    ∷ replace_beginning tab (some (runtime 5))
    ∷ []

late_replacement :
    ((run_world kit (new_world kit) calls).registry ≡ (tab, runtime 2) ∷ [])
    × ((run_world kit (new_world kit) calls).contexts ≡ 5 ∷ 4 ∷ 3 ∷ 2 ∷ 1 ∷ [])
    × (length (run_world kit (new_world kit) calls).in_flight ≡ 1)
unfolding run_world act trim_space lookup insert text_eq start replace_begin replace_end
late_replacement = (refl, refl, refl)

same_number : (s t : ℕ) → (s == t) ≡ true → s ≡ t
same_number s t h = (==_iff s t).0 h

own_calls : All (BringsOwn kit (λ n. n) same_number) calls
own_calls = (refl, (refl, (refl, (tt, (tt, (refl, (refl, tt)))))))

run_world_lem_example :
    All
      (Accounted kit (run_world kit (new_world kit) calls))
      (run_world kit (new_world kit) calls).contexts
run_world_lem_example = run_world_lem kit (λ n. n) same_number calls own_calls

close_all-run_world_example :
    let closed = act kit (run_world kit (new_world kit) calls) closing_all in
    let w = run_world kit closed (endings kit ((0, none) ∷ [])) in
    All (λ c. IsIn (cancelled c) w.log ⊎ InFlight kit c w.in_flight) w.contexts
close_all-run_world_example =
    close_all-run_world kit (λ n. n) same_number calls ((0, none) ∷ []) own_calls

abbrev same_rune : ℕ → ℕ
same_rune c = c

abbrev server : Text → Connection ℕ
server id = record {
  id = id;
  name = codes "Web 1";
  type = ssh_type;
  host = codes "example.org";
  port = pos 0;
  username = codes "root";
  password = codes "secret";
  private_key = [];
  working_dir = [];
  description = [];
  host_key_callback = none;
}

abbrev servers : List (Connection ℕ)
servers = server (codes "web") ∷ server (codes "web") ∷ server [] ∷ []

normalize_connections-AreDistinct_example :
    AreDistinct same_rune [] (normalize_connections same_rune servers)
    × IsNormalization same_rune servers (normalize_connections same_rune servers)
normalize_connections-AreDistinct_example = normalize_connections-AreDistinct same_rune servers

validate_iff_example :
    (validate same_rune (server (codes "web")) ≡ none)
    ↔ IsExecutable same_rune (normalize same_rune (server (codes "web")))
validate_iff_example = validate_iff same_rune (server (codes "web"))

contains-unique_connection_id_example :
    contains
      (codes "web" ∷ codes "web-2" ∷ [])
      (unique_connection_id same_rune (codes "Web") (codes "web" ∷ codes "web-2" ∷ []))
    ≡ false
contains-unique_connection_id_example =
    contains-unique_connection_id same_rune (codes "Web") (codes "web" ∷ codes "web-2" ∷ [])
