-- ===== src/Groups/Edit.antt =====
-- `renameConnectionGroup` and `connectionManagerRowsFiltered` of guis/connection_manager.go and
-- `removeConnectionGroup` of guis/group_remove.go.
use nbterminal.Base.{
  ℕ, suc, Bool, not, ◌&&◌, none, some, List, [], ◌∷◌, ◌++◌, if◌then◌else◌, is_nil, ◌==◌, ◌⊎◌, inl,
  inr, Text, text_eq,
}
use nbterminal.Profile.{ConnectionProfile}
use nbterminal.Groups.Paths.{
  slash, join, normalize_connection_group, cut_last_slash, has_prefix, trim_prefix, is_within,
  group_contains_path,
}

pub data GroupError : Type 0 where
  nothing_selected path_required path_unchanged inside_itself no_longer_exists : GroupError

-- The rows with `f` applied where the test holds, and how many there are.
unfoldable pub change_rows :
    (ConnectionProfile → Bool)
    → (ConnectionProfile → ConnectionProfile)
    → List ConnectionProfile
    → List ConnectionProfile × ℕ
change_rows test f [] = ([], 0)
change_rows test f (row ∷ rows) =
    let rest = change_rows test f rows in
    if test row then (f row ∷ rest.0, suc rest.1) else (row ∷ rest.0, rest.1)

-- A loop that changes nothing is an error.
abbrev pub checked : List ConnectionProfile × ℕ → GroupError ⊎ (List ConnectionProfile × ℕ)
checked r = if r.1 == 0 then inl no_longer_exists else inr r

abbrev pub renamed : Text → Text → ConnectionProfile → ConnectionProfile
renamed old_path new_path row = record row {
  group = new_path ++ trim_prefix (normalize_connection_group row.group) old_path;
}

unfoldable pub rename_connection_group :
    List ConnectionProfile → Text → Text → GroupError ⊎ (List ConnectionProfile × ℕ)
unfolding change_rows normalize_connection_group has_prefix trim_prefix
rename_connection_group rows old new =
    let old_path = normalize_connection_group old in
    let new_path = normalize_connection_group new in
    if is_nil old_path
    then inl nothing_selected
    else if is_nil new_path
    then inl path_required
    else if text_eq new_path old_path
    then inl path_unchanged
    else if has_prefix new_path (old_path ++ slash ∷ [])
    then inl inside_itself
    else checked (
        change_rows (λ row. is_within old_path (normalize_connection_group row.group))
          (renamed old_path new_path) rows)

abbrev pub parent_of : Text → Text
parent_of path = elim (cut_last_slash path) [ none ↦ [] | some (a, b) ↦ a ]

-- `strings.Trim(s, "/")`.
unfoldable pub trim_left_slashes : Text → Text
trim_left_slashes [] = []
trim_left_slashes (c ∷ s) = let rest = trim_left_slashes s in if c == slash then rest else c ∷ s

unfoldable pub trim_right_slashes : Text → Text
trim_right_slashes [] = []
trim_right_slashes (c ∷ s) =
    let rest = trim_right_slashes s in if c == slash && is_nil rest then [] else c ∷ rest

unfoldable pub trim_slashes : Text → Text
unfolding trim_left_slashes trim_right_slashes
trim_slashes s = trim_right_slashes (trim_left_slashes s)

abbrev pub destination : Text → Text → Text → Text
destination path fallback group =
    let suffix = trim_prefix (trim_prefix group path) (slash ∷ []) in
    let d = normalize_connection_group (trim_slashes (join (parent_of path ∷ suffix ∷ []))) in
    if is_nil d then fallback else d

abbrev pub moved_up : Text → Text → ConnectionProfile → ConnectionProfile
moved_up path fallback row = record row {
  group = destination path fallback (normalize_connection_group row.group);
}

unfoldable pub remove_connection_group :
    List ConnectionProfile → Text → Text → GroupError ⊎ (List ConnectionProfile × ℕ)
unfolding change_rows normalize_connection_group group_contains_path trim_prefix trim_slashes
    cut_last_slash join
remove_connection_group rows path fallback =
    let p = normalize_connection_group path in
    let fallback' = normalize_connection_group fallback in
    if is_nil p
    then inl nothing_selected
    else checked (
        change_rows (λ row. group_contains_path p (normalize_connection_group row.group))
          (moved_up p fallback') rows)

-- The filter of `connectionManagerRowsFiltered`; the search that follows is `filterConnections`.
unfoldable pub group_rows : Text → Bool → List ConnectionProfile → List ConnectionProfile
unfolding normalize_connection_group has_prefix
group_rows group favorites_only [] = []
group_rows group favorites_only (row ∷ rows) =
    let rest = group_rows group favorites_only rows in
    let g = normalize_connection_group group in
    let row_group = normalize_connection_group row.group in
    if favorites_only && not row.favorite
    then rest
    else if not (is_nil g)
        && not (text_eq row_group g)
        && not (has_prefix row_group (g ++ slash ∷ []))
    then rest
    else row ∷ rest
