-- ===== src/History/Traversal.antt =====
-- What a traversal by `commandHistoryCursor` (guis/command_history_navigation.go) shows, and which
-- commands it goes through.
use nbterminal.Base.{
  ℕ, zero, suc, ◌≡◌, refl, ◌≢◌, inl, inr, true, false, Option, none, some, List, [], ◌∷◌, ◌++◌,
  is_nil, length, All, Text, text_eq, text_eq_iff, trim_space, Bool-cases, get_elem?_of_lt,
  All-append_end, trim_space_idem, get_elem?_of_lt,
}
use nbterminal.Base.Int.{ℤ}
use nbterminal.History.{CommandHistoryCursor, collect, new_command_history_cursor, move, is_last}

-- Neighbours differ.
abbrev pub HasNoRepeat : List Text → Type 0
HasNoRepeat [] = Unit
HasNoRepeat (x ∷ []) = Unit
HasNoRepeat (x ∷ y ∷ xs) = (x ≢ y) × HasNoRepeat (y ∷ xs)

abbrev pub IsCommand : Text → Type 0
IsCommand c = (is_nil c ≡ false) × (trim_space c ≡ c)

abbrev pub AreCommands : List Text → Type 0
AreCommands cs = HasNoRepeat cs × All IsCommand cs

text_eq_ne : (s t : Text) → text_eq s t ≡ false → s ≢ t
text_eq_ne s t e p = let h = (text_eq_iff s t).1 p in cc

HasNoRepeat-append_end :
    (cs : List Text) (c : Text) → HasNoRepeat cs → is_last cs c ≡ false → HasNoRepeat (cs ++ c ∷ [])
HasNoRepeat-append_end [] c h e = tt
HasNoRepeat-append_end (x ∷ []) c h e = (text_eq_ne x c e, tt)
HasNoRepeat-append_end (x ∷ y ∷ cs) c h e = (h.0, HasNoRepeat-append_end (y ∷ cs) c h.1 e)

collect-AreCommands : (entries cs : List Text) → AreCommands cs → AreCommands (collect cs entries)
unfolding collect
collect-AreCommands [] cs h = h
collect-AreCommands (e ∷ entries) cs h = elim (Bool-cases (is_nil (trim_space e))) [
  | inl n ↦ rw (n) (collect-AreCommands entries cs h)
  | inr n ↦ elim (Bool-cases (is_last cs (trim_space e))) [
    | inl l ↦ rw (n, l) (collect-AreCommands entries cs h)
    | inr l ↦
        rw (n, l)
          (collect-AreCommands entries (cs ++ trim_space e ∷ []) (
            HasNoRepeat-append_end cs (trim_space e) h.0 l,
            All-append_end IsCommand cs (trim_space e) h.1 (n, trim_space_idem e),
          ))
  ]
]

-- A new cursor goes through commands that are trimmed and not blank, no two neighbours equal, and
-- stands behind the last.
pub new_command_history_cursor-AreCommands :
    (entries : List Text)
    → AreCommands (new_command_history_cursor entries).commands
      × ((new_command_history_cursor entries).index
          ≡ length (new_command_history_cursor entries).commands)
unfolding new_command_history_cursor
new_command_history_cursor-AreCommands entries = (collect-AreCommands entries [] (tt, tt), refl)

-- A traversal under way stands at position `i`.
abbrev IsAt : List Text → Text → ℕ → CommandHistoryCursor → Type 0
IsAt cs draft i c = (c.started ≡ true) × (c.commands ≡ cs) × (c.draft ≡ draft) × (c.index ≡ i)

-- `handleCommandInputKey` on an arrow key, once the cursor is known: the text of the field goes to
-- `Move`, and the text that it gives goes to the field.
abbrev pub Field : Type 0
Field = CommandHistoryCursor × Text

abbrev pub text_or : Text → Option Text → Text
text_or text none = text
text_or text (some t) = t

unfoldable pub press : ℤ → Field → Field
unfolding move
press delta (c, text) = let r = move c delta text in (r.0, text_or text r.1)

abbrev pub presses : ℕ → ℤ → Field → Field
presses zero delta f = f
presses (suc n) delta f = presses n delta (press delta f)
