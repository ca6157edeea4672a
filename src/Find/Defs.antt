-- ===== src/Find/Defs.antt =====
-- The state and the methods of `terminalFindState` in guis/terminal_find.go. The terminal view, its
-- search and the validation of a pattern belong to the toolkit and are parameters.
use nbterminal.Base.{
  ℕ, Bool, true, false, not, ◌||◌, Option, none, some, List, [], ◌∷◌, ◌++◌, if◌then◌else◌, is_nil,
  length, find_idx, ltb, ◌==◌, bool_eq, Text, codes, decimal, is_blank, trim_space,
}
use nbterminal.Base.Int.{ℤ, pos, negsuc, ◌+ℤ◌, ltb_ℤ, rem_ℤ, pos_part}
use nbterminal.Workspace.Tabs.{at_index}

pub record SearchOptions : Type 0 where
  pub case_sensitive : Bool
  pub whole_word : Bool
  pub regular_expression : Bool

-- `TerminalTextMatch` is a type of the toolkit.
pub record TerminalFindState (Match : Type 0) : Type 0 where
  pub query : Text
  pub case_sensitive : Bool
  pub whole_word : Bool
  pub regular_expression : Bool
  pub invalid_pattern : Bool
  pub matches : List Match
  pub index : ℤ

-- The toolkit: how a view is searched, which patterns are valid, and `==` on matches.
pub record Toolkit : Type 1 where
  pub View : Type 0
  pub Match : Type 0
  pub same : Match → Match → Bool
  pub search_text : View → Text → SearchOptions → List Match
  pub valid_query : Text → SearchOptions → Bool

module _ (kit : Toolkit) where
  abbrev pub FindState : Type 0
  FindState = TerminalFindState kit.Match

  abbrev pub options : FindState → SearchOptions
  options s = record {
    case_sensitive = s.case_sensitive;
    whole_word = s.whole_word;
    regular_expression = s.regular_expression;
  }

  abbrev pub first_index : List kit.Match → ℤ
  first_index [] = negsuc 0
  first_index (m ∷ ms) = pos 0

  abbrev pub cleared : FindState → Text → FindState
  cleared s query = record s {
    query = query;
    index = negsuc 0;
    matches = [];
    invalid_pattern = false;
  }

  unfoldable pub search : FindState → Option kit.View → Text → FindState
  search s none query = cleared s query
  search s (some view) query =
      if is_blank query
      then cleared s query
      else if not (kit.valid_query query (options s))
      then record (cleared s query) { invalid_pattern = true }
      else (let ms = kit.search_text view query (options s) in
          record (cleared s query) { matches = ms; index = first_index ms })

  unfoldable pub set_case_sensitive : FindState → Option kit.View → Bool → FindState
  unfolding search
  set_case_sensitive s view enabled =
      if bool_eq s.case_sensitive enabled
      then s
      else search (record s { case_sensitive = enabled }) view s.query

  unfoldable pub set_whole_word : FindState → Option kit.View → Bool → FindState
  unfolding search
  set_whole_word s view enabled =
      if bool_eq s.whole_word enabled
      then s
      else search (record s { whole_word = enabled }) view s.query

  unfoldable pub set_regular_expression : FindState → Option kit.View → Bool → FindState
  unfolding search
  set_regular_expression s view enabled =
      if bool_eq s.regular_expression enabled
      then s
      else search (record s { regular_expression = enabled }) view s.query

  unfoldable pub current : FindState → Option kit.Match
  current s = at_index s.matches s.index

  -- The position of the match that was current, in the new matches.
  unfoldable pub same_position : Option kit.Match → List kit.Match → Option ℕ
  same_position none ms = none
  same_position (some m) ms = find_idx (λ x. kit.same x m) ms

  -- The old index, if the new matches reach that far; or else the first match.
  unfoldable pub kept_index : ℤ → List kit.Match → ℤ → ℤ
  kept_index (pos i) ms fallback = if ltb i (length ms) then pos i else fallback
  kept_index (negsuc n) ms fallback = fallback

  -- `Refresh` once the search has been made again.
  unfoldable pub restore : Option kit.Match → ℤ → FindState → FindState
  unfolding same_position kept_index
  restore old previous s = elim (same_position old s.matches) [
    | some i ↦ record s { index = pos i }
    | none ↦ record s { index = kept_index previous s.matches s.index }
  ]

  unfoldable pub refresh : FindState → Option kit.View → FindState
  unfolding search current restore
  refresh s view =
      let s' = search s view s.query in
      if is_nil s'.matches then s' else restore (current s) s.index s'

  unfoldable pub move : FindState → ℤ → FindState
  move s delta =
      let r = rem_ℤ (s.index +ℤ delta) (length s.matches) in
      if is_nil s.matches
      then record s { index = negsuc 0 }
      else record s { index = if ltb_ℤ r (pos 0) then r +ℤ pos (length s.matches) else r }

  unfoldable pub status : FindState → Text
  status s =
      if is_blank s.query
      then codes "Type to search"
      else if s.invalid_pattern
      then codes "Invalid regular expression"
      else if is_nil s.matches
      then codes "No matches"
      else decimal (pos_part (s.index +ℤ pos 1)) ++ (codes " of " ++ decimal (length s.matches))

-- `terminalFindInitialQuery`: a short selection on one line.
abbrev pub selection_limit : ℕ
selection_limit = 256

has_line_break : Text → Bool
has_line_break [] = false
has_line_break (c ∷ s) = c == 0x0d || c == 0x0a || has_line_break s

unfoldable pub terminal_find_initial_query : Text → Text
unfolding has_line_break
terminal_find_initial_query selection =
    let s = trim_space selection in
    if is_nil s || has_line_break s || ltb selection_limit (length s) then [] else s
