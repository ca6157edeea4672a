-- ===== src/Groups/Paths.antt =====
-- Group paths: `normalizeConnectionGroup` and `compactConnectionGroup` of guis/connection_manager.go,
-- `groupContainsPath` of guis/group_rename.go, and what they use of package `strings`.
use nbterminal.Base.{
  ℕ, Bool, true, false, not, ◌&&◌, ◌||◌, Option, none, some, List, [], ◌∷◌, ◌++◌, if◌then◌else◌,
  is_nil, ◌==◌, Text, text_eq, trim_space,
}

abbrev pub slash : ℕ
slash = 0x2f

abbrev pub push : ℕ → List Text → List Text
push c [] = (c ∷ []) ∷ []
push c (part ∷ parts) = (c ∷ part) ∷ parts

-- `strings.Split(s, "/")`.
unfoldable pub split : Text → List Text
split [] = [] ∷ []
split (c ∷ s) = let rest = split s in if c == slash then [] ∷ rest else push c rest

-- `strings.Join(parts, "/")`.
unfoldable pub join : List Text → Text
join [] = []
join (part ∷ []) = part
join (part ∷ next ∷ parts) = part ++ slash ∷ join (next ∷ parts)

-- The loop of `normalizeConnectionGroup`.
unfoldable pub kept_parts : List Text → List Text
kept_parts [] = []
kept_parts (part ∷ parts) =
    let rest = kept_parts parts in if is_nil (trim_space part) then rest else trim_space part ∷ rest

unfoldable pub segments : Text → List Text
unfolding split kept_parts
segments group = kept_parts (split group)

unfoldable pub normalize_connection_group : Text → Text
unfolding segments join
normalize_connection_group group = join (segments group)

-- The text before the last slash and the text behind it: `strings.LastIndex(s, "/")`.
unfoldable pub cut_last_slash : Text → Option (Text × Text)
cut_last_slash [] = none
cut_last_slash (c ∷ s) = elim (cut_last_slash s) [
  | some (a, b) ↦ some (c ∷ a, b)
  | none ↦ if c == slash then some ([], s) else none
]

unfoldable pub compact_connection_group : Text → Text
unfolding normalize_connection_group cut_last_slash
compact_connection_group group = elim (cut_last_slash (normalize_connection_group group)) [
  | none ↦ normalize_connection_group group
  | some (a, b) ↦ b
]

-- `strings.HasPrefix`.
unfoldable pub has_prefix : Text → Text → Bool
has_prefix s [] = true
has_prefix [] (d ∷ p) = false
has_prefix (c ∷ s) (d ∷ p) = c == d && has_prefix s p

-- `strings.TrimPrefix` of a text with the prefix.
unfoldable pub cut_prefix : Text → Text → Text
cut_prefix s [] = s
cut_prefix [] (d ∷ p) = []
cut_prefix (c ∷ s) (d ∷ p) = cut_prefix s p

unfoldable pub trim_prefix : Text → Text → Text
unfolding has_prefix cut_prefix
trim_prefix s p = if has_prefix s p then cut_prefix s p else s

-- The test that the loops make of normalized paths.
abbrev pub is_within : Text → Text → Bool
is_within path group = text_eq group path || has_prefix group (path ++ slash ∷ [])

unfoldable pub group_contains_path : Text → Text → Bool
unfolding normalize_connection_group has_prefix
group_contains_path parent candidate =
    let p = normalize_connection_group parent in
    let c = normalize_connection_group candidate in not (is_nil p) && is_within p c
