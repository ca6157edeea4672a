-- ===== src/ConnectionStore/Identities.antt =====
-- The identities of the saved connections (guis/guis.go, guis/connection_store_sqlite.go).
use nbterminal.Base.{
  ℕ, zero, suc, ◌+◌, ◌≡◌, refl, ap, true, false, List, [], ◌∷◌, is_nil, length, Text, codes,
  text_eq_refl, contains, first_unseen, trim_space, contains-first_unseen, arith, if-elim,
}
use nbterminal.Profile.{ConnectionProfile}
use nbterminal.Connections.Defs.{candidate}
use nbterminal.Connections.Distinct.{candidate-injective}
use nbterminal.ConnectionStore.Normalize.{
  Texts, or_default, base_profile_id, generated_id, unique_profile_id, normalize_from,
  normalize_profiles, has_profile, normalized_active_profile_id,
}

pub contains-unique_profile_id :
    (id : Text) (seen : List Text) → contains seen (unique_profile_id id seen) ≡ false
unfolding unique_profile_id
contains-unique_profile_id id seen =
    contains-first_unseen (candidate (base_profile_id id))
      (candidate-injective (base_profile_id id)) (suc (length seen)) 0 seen (omega arith)

-- No identity is empty, none is among those seen, none is there twice.
abbrev pub AreIdentified : List Text → List ConnectionProfile → Type 0
AreIdentified seen [] = Unit
AreIdentified seen (p ∷ rows) =
    (is_nil p.id ≡ false) × (contains seen p.id ≡ false) × AreIdentified (p.id ∷ seen) rows

pub base_not_empty : (id : Text) → is_nil (base_profile_id id) ≡ false
base_not_empty id =
    if-elim (λ s. is_nil s ≡ false) (is_nil (trim_space id)) (codes "conn") (trim_space id)
      (λ e. refl) (λ e. e)

candidate_not_empty :
    (base : Text) (n : ℕ) → is_nil base ≡ false → is_nil (candidate base n) ≡ false
candidate_not_empty [] n h = cc
candidate_not_empty (c ∷ base) zero h = refl
candidate_not_empty (c ∷ base) (suc n) h = refl

first_unseen_not_empty :
    (f : ℕ → Text) (fuel n : ℕ) (seen : List Text)
    → ((k : ℕ) → is_nil (f k) ≡ false)
    → is_nil (first_unseen f fuel n seen) ≡ false
unfolding first_unseen
first_unseen_not_empty f zero n seen h = h n
first_unseen_not_empty f (suc fuel) n seen h =
    if-elim (λ s. is_nil s ≡ false) (contains seen (f n)) (first_unseen f fuel (suc n) seen) (f n)
      (λ e. first_unseen_not_empty f fuel (suc n) seen h) (λ e. h n)

pub unique_not_empty : (id : Text) (seen : List Text) → is_nil (unique_profile_id id seen) ≡ false
unfolding unique_profile_id
unique_not_empty id seen =
    first_unseen_not_empty (candidate (base_profile_id id)) (suc (length seen)) 0 seen
      (λ k. candidate_not_empty (base_profile_id id) k (base_not_empty id))

module _ (texts : Texts) (clock : ℕ → ℕ) where
  normalize_from-AreIdentified :
      (rows : List ConnectionProfile) (i : ℕ) (seen : List Text)
      → AreIdentified seen (normalize_from texts clock i seen rows)
  unfolding normalize_from
  normalize_from-AreIdentified [] i seen = tt
  normalize_from-AreIdentified (p ∷ rows) i seen =
      let id = or_default p.id (generated_id (clock i) i) in
      (
        unique_not_empty id seen,
        contains-unique_profile_id id seen,
        normalize_from-AreIdentified rows (i + 1) (unique_profile_id id seen ∷ seen),
      )

  length-normalize_from :
      (rows : List ConnectionProfile) (i : ℕ) (seen : List Text)
      → length (normalize_from texts clock i seen rows) ≡ length rows
  unfolding normalize_from
  length-normalize_from [] i seen = refl
  length-normalize_from (p ∷ rows) i seen = ap suc (length-normalize_from rows (i + 1) _)

  -- The active identity is that of a row, and "" where there is none.
  abbrev pub IsActive : List ConnectionProfile → Text → Type 0
  IsActive [] active_id = active_id ≡ []
  IsActive (p ∷ rows) active_id = has_profile active_id (p ∷ rows) ≡ true

  pub normalized_active_profile_id-IsActive :
      (rows : List ConnectionProfile) (active_id : Text)
      → IsActive rows (normalized_active_profile_id rows active_id)
  unfolding normalized_active_profile_id
  normalized_active_profile_id-IsActive [] active_id = refl
  normalized_active_profile_id-IsActive (p ∷ rows) active_id =
      if-elim (λ id. has_profile id (p ∷ rows) ≡ true) (has_profile active_id (p ∷ rows)) active_id
        p.id (λ e. e) (λ e. rw (text_eq_refl p.id) refl)

  -- Whatever was saved, and whatever identity is asked for: the normalized profiles keep their number,
  -- their identities are not empty and all different, and the active one is among them.
  pub normalize_profiles-AreIdentified :
      (rows : List ConnectionProfile) (active_id : Text)
      → AreIdentified [] (normalize_profiles texts clock rows)
        × (length (normalize_profiles texts clock rows) ≡ length rows)
        × IsActive
            (normalize_profiles texts clock rows)
            (normalized_active_profile_id (normalize_profiles texts clock rows) active_id)
  unfolding normalize_profiles
  normalize_profiles-AreIdentified rows active_id = (
    normalize_from-AreIdentified rows 0 [],
    length-normalize_from rows 0 [],
    normalized_active_profile_id-IsActive (normalize_from texts clock 0 [] rows) active_id,
  )
