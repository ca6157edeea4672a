-- ===== src/History.antt =====
-- The recall of earlier commands: `commandHistoryCursor` of guis/command_history_navigation.go.
use nbterminal.Base.{
  ℕ, zero, suc, ◌+◌, ◌-◌, ◌≤◌, ◌<◌, ◌≡◌, refl, ◌∙◌, ◌≢◌, ◌⊎◌, inl, inr, Bool, true, false, not,
  ◌&&◌, ◌||◌, Option, none, some, List, [], ◌∷◌, ◌++◌, arith, if◌then◌else◌, is_nil, ltb, length,
  get_elem?, last?, All, Text, text_eq, text_eq_iff, is_blank, trim_space, Bool-cases,
  get_elem?_of_lt, ==_iff, ◌==◌,
}
pub mod Traversal
use nbterminal.Base.Int.{ℤ, pos, negsuc, ltb_ℤ}

pub record CommandHistoryCursor : Type 0 where
  pub commands : List Text
  pub index : ℕ
  pub draft : Text
  pub started : Bool

abbrev is_last : List Text → Text → Bool
is_last commands command = elim (last? commands) [ none ↦ false | some c ↦ text_eq c command ]

-- The loop of `newCommandHistoryCursor` over the commands of the entries.
unfoldable pub collect : List Text → List Text → List Text
collect commands [] = commands
collect commands (entry ∷ entries) =
    collect
      (if is_nil (trim_space entry) || is_last commands (trim_space entry)
        then commands
        else commands ++ trim_space entry ∷ [])
      entries

unfoldable pub new_command_history_cursor : List Text → CommandHistoryCursor
unfolding collect
new_command_history_cursor entries =
    let commands = collect [] entries in
    record { commands = commands; index = length commands; draft = []; started = false }

-- The first move of a traversal remembers the draft.
abbrev pub begun : CommandHistoryCursor → Text → CommandHistoryCursor
begun c current =
    if c.started then c else record c { draft = current; index = length c.commands; started = true }

abbrev pub stepped : CommandHistoryCursor → ℤ → CommandHistoryCursor
stepped c delta =
    if ltb_ℤ delta (pos 0) && ltb 0 c.index
    then record c { index = c.index - 1 }
    else if ltb_ℤ (pos 0) delta && ltb c.index (length c.commands)
    then record c { index = c.index + 1 }
    else c

-- The draft at the final position, a command before it; `none` is an index out of range.
abbrev pub shown : CommandHistoryCursor → Option Text
shown c = if c.index == length c.commands then some c.draft else get_elem? c.commands c.index

unfoldable pub move : CommandHistoryCursor → ℤ → Text → CommandHistoryCursor × Option Text
move c delta current =
    let c' = stepped (begun c current) delta in
    if is_nil c.commands then (c, some current) else (c', shown c')
