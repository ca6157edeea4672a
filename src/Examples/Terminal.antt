-- ===== src/Examples/Terminal.antt =====
-- Tests of the models of guis/terminal_find.go, guis/command_history_navigation.go and of the parts of
-- guis/guis.go that move a selection and batch the output.
use nbterminal.Base.{
  ◌⊎◌, ℕ, ◌+◌, ◌≤◌, ◌≡◌, refl, true, false, some, List, [], ◌∷◌, arith, Text, codes, length, ◌==◌,
  trim_space, text_eq, is_blank, get_elem?,
}
use nbterminal.Base.Int.{pos, negsuc, ◌+ℤ◌, rem_ℤ}
use nbterminal.Navigator.{cycle_navigator_selection, cycle-cycle}
use nbterminal.Find.Defs.{
  Toolkit, TerminalFindState, search, refresh, current, restore, same_position, kept_index,
}
use nbterminal.Find.Defs
use nbterminal.Find.Laws.{moving, refreshing, run_find, IsFind, run_find_lem, current-refresh}
use nbterminal.History.{CommandHistoryCursor, new_command_history_cursor, collect, shown}
use nbterminal.History
use nbterminal.History.Traversal.{
  AreCommands, new_command_history_cursor-AreCommands, press, presses,
}
use nbterminal.Batcher.Steps.{
  System, initial, produce, request, begin_drain, GuiStep, handing, draining, Reachable, start,
  next, producing, requesting,
}
use nbterminal.Batcher.Defs.{enqueue, after_flush}
use nbterminal.Batcher.Order.{IsOrdered, Reachable-IsOrdered}
use nbterminal.Batcher.Progress.{GuiRun, finished, stepping, work, IsDelivered, delivery}

cycle-cycle_example :
    (cycle_navigator_selection
        (cycle_navigator_selection (pos 2) (pos 3) (pos 1))
        (pos 3)
        (negsuc 0)
      ≡ pos 2)
    × (cycle_navigator_selection
          (cycle_navigator_selection (pos 2) (pos 3) (negsuc 0))
          (pos 3)
          (pos 1)
        ≡ pos 2)
cycle-cycle_example = cycle-cycle 2 3 (omega arith)

-- A view is its text; a query matches at each of its runes.
abbrev positions : Text → Text → ℕ → List ℕ
positions [] query i = []
positions (c ∷ s) query i =
    let rest = positions s query (i + 1) in
    elim query [ [] ↦ [] | q ∷ qs ↦ elim (c == q) [ true ↦ i ∷ rest | false ↦ rest ] ]

abbrev toolkit : Toolkit
toolkit = record {
  View = Text;
  Match = ℕ;
  same = λ a b. a == b;
  search_text = λ view query o. positions view query 0;
  valid_query = λ query o. true;
}

abbrev fresh : TerminalFindState ℕ
fresh = record {
  query = [];
  case_sensitive = false;
  whole_word = false;
  regular_expression = false;
  invalid_pattern = false;
  matches = [];
  index = pos 0;
}

abbrev letter : Text
letter = 0x61 ∷ []

abbrev view : Text
view = codes "abcaxa"

run_find_lem_example : IsFind toolkit (
    run_find toolkit
      (search toolkit fresh (some view) letter)
      (moving (pos 1) ∷ refreshing (some view) ∷ []))
run_find_lem_example =
    run_find_lem toolkit fresh (some view) letter (moving (pos 1) ∷ refreshing (some view) ∷ [])

abbrev second : TerminalFindState ℕ
second = Defs.move toolkit (search toolkit fresh (some view) letter) (pos 1)

second_match : current toolkit second ≡ some 3
unfolding current Defs.move search is_blank ◌+ℤ◌ rem_ℤ
second_match = refl

search-second : get_elem? (search toolkit second (some view) letter).matches 1 ≡ some 3
unfolding search is_blank
search-second = refl

second_query : second.query ≡ letter
unfolding Defs.move search is_blank
second_query = refl

current-refresh_example :
    (y : ℕ) × (current toolkit (refresh toolkit second (some view)) ≡ some y) × ((y == 3) ≡ true)
unfolding Defs.move search is_blank
current-refresh_example =
    current-refresh toolkit second (some view) {m = 3} {x = 3} 1 second_match refl refl

abbrev entries : List Text
entries = codes "ls" ∷ codes " ls " ∷ codes "" ∷ codes "pwd" ∷ []

abbrev cursor : CommandHistoryCursor
cursor = new_command_history_cursor entries

new_command_history_cursor-AreCommands_example :
    AreCommands cursor.commands × (cursor.index ≡ length cursor.commands)
new_command_history_cursor-AreCommands_example = new_command_history_cursor-AreCommands entries

two_back : (presses 2 (negsuc 0) (cursor, letter)).1 ≡ codes "ls"
unfolding press History.move new_command_history_cursor collect trim_space text_eq
two_back = refl

cursor_commands : cursor.commands ≡ codes "ls" ∷ codes "pwd" ∷ []
unfolding new_command_history_cursor collect trim_space text_eq
cursor_commands = refl

-- A producer sends text, a command finishes, and more text comes.
abbrev busy : System
busy = produce (request (produce initial letter)) view

busy-Reachable : Reachable busy
busy-Reachable = next (next (next start (producing letter)) requesting) (producing view)

Reachable-IsOrdered_example : IsOrdered busy
Reachable-IsOrdered_example = Reachable-IsOrdered busy busy-Reachable

-- The drain is handed to the GUI thread and takes the text.
first_steps : GuiRun 2 busy (begin_drain (record busy { starting = 0; queued = 0 }))
unfolding produce request enqueue after_flush
first_steps = stepping (handing refl) (stepping (draining refl refl) finished)

delivery_example :
    let t = begin_drain (record busy { starting = 0; queued = 0 }) in
    (2 ≤ work busy)
    × (IsDelivered t busy.sent busy.requested ⊎ ((u : System) × GuiStep t u))
    × ((m : ℕ) × (u : System) × GuiRun m t u × IsDelivered u busy.sent busy.requested)
delivery_example = delivery busy busy-Reachable first_steps
