-- ===== src/Profiles.antt =====
-- The list of saved profiles by identity: `indexProfileByID`, `upsertProfile` and
-- `removeProfileByID` of guis/guis.go. A call gives the slice that the source returns; what the
-- in-place writes do to other slices over the same array is not modelled.
use nbterminal.Base.{
  ℕ, zero, suc, ◌≡◌, arith, refl, ap, ◌∙◌, inl, inr, Bool, Option, none, some, List, [], ◌∷◌, ◌++◌,
  set, erase_idx, length, get_elem?-set_self, get_elem?-append_end, lt-length_of_get_elem?,
  find_idx, find_idx-Fits, Text, text_eq, text_eq_refl, Bool-cases, Option-cases, some_inj,
}
use nbterminal.Base.Int.{ℤ, pos, negsuc}
use nbterminal.Profile.{ConnectionProfile}
use nbterminal.Workspace.Tabs.{at_index}

abbrev has_profile_id : Text → ConnectionProfile → Bool
has_profile_id id row = text_eq row.id id

abbrev index_of : Option ℕ → ℤ
index_of none = negsuc 0
index_of (some i) = pos i

unfoldable pub index_profile_by_id : List ConnectionProfile → Text → ℤ
unfolding text_eq
index_profile_by_id rows id = index_of (find_idx (has_profile_id id) rows)

abbrev upsert_at : List ConnectionProfile → ConnectionProfile → ℤ → List ConnectionProfile
upsert_at rows p (pos i) = set rows i p
upsert_at rows p (negsuc n) = rows ++ p ∷ []

unfoldable pub upsert_profile : List ConnectionProfile → ConnectionProfile → List ConnectionProfile
unfolding index_profile_by_id
upsert_profile rows p = upsert_at rows p (index_profile_by_id rows p.id)

abbrev remove_at : List ConnectionProfile → ℤ → List ConnectionProfile
remove_at rows (pos i) = erase_idx rows i
remove_at rows (negsuc n) = rows

unfoldable pub remove_profile_by_id : List ConnectionProfile → Text → List ConnectionProfile
unfolding index_profile_by_id
remove_profile_by_id rows id = remove_at rows (index_profile_by_id rows id)

find_append :
    (rows : List ConnectionProfile) (p : ConnectionProfile)
    → find_idx (has_profile_id p.id) rows ≡ none
    → find_idx (has_profile_id p.id) (rows ++ p ∷ []) ≡ some (length rows)
find_append [] p h = rw (text_eq_refl p.id) refl
find_append (row ∷ rows) p h = elim (Bool-cases (text_eq row.id p.id)) [
  | inl e ↦ let k = rw (e, find_idx) at h in cc
  | inr e ↦ elim (Option-cases (find_idx (has_profile_id p.id) rows)) [
    | inl n ↦ rw (e, find_append rows p n) refl
    | inr (i, s) ↦ let k = rw (e, s, find_idx) at h in cc
  ]
]

erase_idx-append_end :
    (rows : List ConnectionProfile) (p : ConnectionProfile)
    → erase_idx (rows ++ p ∷ []) (length rows) ≡ rows
erase_idx-append_end [] p = refl
erase_idx-append_end (row ∷ rows) p = ap (row ∷◌) (erase_idx-append_end rows p)

-- A profile with a new identity goes to the end, and removing it gives the list back.
pub remove-upsert :
    (rows : List ConnectionProfile) (p : ConnectionProfile)
    → index_profile_by_id rows p.id ≡ negsuc 0
    → remove_profile_by_id (upsert_profile rows p) p.id ≡ rows
unfolding remove_profile_by_id upsert_profile index_profile_by_id
remove-upsert rows p h = elim (Option-cases (find_idx (has_profile_id p.id) rows)) [
  | inl n ↦ rw (n, upsert_at) (rw (find_append rows p n) (erase_idx-append_end rows p))
  | inr (i, s) ↦ let k = rw (s, index_of) at h in cc
]

find_set :
    (rows : List ConnectionProfile) (p : ConnectionProfile) (i : ℕ)
    → find_idx (has_profile_id p.id) rows ≡ some i
    → find_idx (has_profile_id p.id) (set rows i p) ≡ some i
find_set [] p i h = cc
find_set (row ∷ rows) p zero h = rw (text_eq_refl p.id) refl
find_set (row ∷ rows) p (suc i) h = elim (Bool-cases (text_eq row.id p.id)) [
  | inl e ↦ let k = some_inj (rw (e, find_idx) at h) in absurd (omega arith)
  | inr e ↦ elim (Option-cases (find_idx (has_profile_id p.id) rows)) [
    | inl n ↦ let k = rw (e, n, find_idx) at h in cc
    | inr (j, s) ↦
        let k = some_inj (rw (e, s, find_idx) at h) in
        rw (e, find_set rows p i (s ∙ ap some (omega arith))) refl
  ]
]

-- A profile that was put in is found by its identity, whether it was new or took the place of an
-- older one.
pub index-upsert :
    (rows : List ConnectionProfile) (p : ConnectionProfile)
    → at_index (upsert_profile rows p) (index_profile_by_id (upsert_profile rows p) p.id) ≡ some p
unfolding upsert_profile index_profile_by_id
index-upsert rows p = elim (Option-cases (find_idx (has_profile_id p.id) rows)) [
  | inl n ↦ rw (n, upsert_at) (rw (find_append rows p n) (get_elem?-append_end rows p))
  | inr (i, s) ↦
      let (x, g, _) = find_idx-Fits (has_profile_id p.id) rows i s in
      rw (s, upsert_at)
        (rw (find_set rows p i s) (get_elem?-set_self rows i p (lt-length_of_get_elem? rows i g)))
]
