-- ===== src/Examples/Hierarchy.antt =====
-- Tests of the models of the connection groups (guis/connection_manager.go, guis/group_remove.go) and
-- of the list of profiles (guis/guis.go).
use nbterminal.Base.{
  ◌<◌, ◌≡◌, ◌↔◌, refl, true, false, List, [], ◌∷◌, Text, codes, is_nil, inr, trim_space, text_eq,
}
use nbterminal.Profile.{ConnectionProfile, ssh}
use nbterminal.Groups.Paths.{
  segments, split, kept_parts, group_contains_path, has_prefix, trim_prefix,
}
use nbterminal.Groups.Edit.{
  rename_connection_group, remove_connection_group, change_rows, trim_slashes,
}
use nbterminal.Groups.Contains.{group_contains_path_lem, IsBelow}
use nbterminal.Groups.Rows.{RowsAgree, count_rows}
use nbterminal.Groups.Rename.{IsRenamed, rename_connection_group_lem}
use nbterminal.Groups.Remove.{IsMovedUp, remove_connection_group_lem}

abbrev row : Text → Text → ConnectionProfile
row id group = record {
  id = id;
  name = id;
  group = group;
  type = ssh;
  host = [];
  port = 22;
  username = [];
  password_enc = [];
  private_key = [];
  working_dir = [];
  last_used = [];
  favorite = false;
  description = [];
}

abbrev rows : List ConnectionProfile
rows =
    row (codes "a") (codes "Prod / Web")
    ∷ row (codes "b") (codes "Prod")
    ∷ row (codes "c") (codes "Product")
    ∷ []

abbrev prod : Text
prod = codes " Prod/"

group_contains_path_lem_example :
    (group_contains_path prod (codes "Prod/Web") ≡ true)
    ↔ ((is_nil (segments prod) ≡ false) × IsBelow (segments prod) (segments (codes "Prod/Web")))
group_contains_path_lem_example = group_contains_path_lem prod (codes "Prod/Web")

-- A group whose name only begins alike is another group.
product_outside : group_contains_path prod (codes "Product") ≡ false
unfolding group_contains_path split kept_parts trim_space text_eq has_prefix
product_outside = refl

web_inside : group_contains_path prod (codes "Prod / Web") ≡ true
unfolding group_contains_path split kept_parts trim_space text_eq has_prefix
web_inside = refl

abbrev renamed_rows : List ConnectionProfile
renamed_rows =
    row (codes "a") (codes "Live/Web")
    ∷ row (codes "b") (codes "Live")
    ∷ row (codes "c") (codes "Product")
    ∷ []

rename_rows : rename_connection_group rows prod (codes "Live") ≡ inr (renamed_rows, 2)
unfolding rename_connection_group split kept_parts trim_space text_eq has_prefix change_rows
    trim_prefix
rename_rows = refl

rename_connection_group_lem_example :
    RowsAgree (IsRenamed prod (codes "Live")) rows renamed_rows
    × (2 ≡ count_rows (λ r. group_contains_path prod r.group) rows)
    × (0 < 2)
rename_connection_group_lem_example =
    rename_connection_group_lem rows prod (codes "Live") rename_rows

abbrev fallback : Text
fallback = codes "Ungrouped"

abbrev moved_rows : List ConnectionProfile
moved_rows =
    row (codes "a") (codes "Web")
    ∷ row (codes "b") fallback
    ∷ row (codes "c") (codes "Product")
    ∷ []

remove_rows : remove_connection_group rows prod fallback ≡ inr (moved_rows, 2)
unfolding remove_connection_group split kept_parts trim_space text_eq has_prefix change_rows
    trim_prefix trim_slashes
remove_rows = refl

remove_connection_group_lem_example :
    RowsAgree (IsMovedUp prod fallback) rows moved_rows
    × (2 ≡ count_rows (λ r. group_contains_path prod r.group) rows)
    × (0 < 2)
remove_connection_group_lem_example = remove_connection_group_lem rows prod fallback remove_rows
