-- ===== src/ConnectionStore/Reopened.antt =====
-- A store that is opened again finds what was saved (guis/connection_store_sqlite.go).
use nbterminal.Base.{
  ℕ, ◌≡◌, refl, sym, ap, ◌∙◌, subst, true, false, none, some, List, [], ◌∷◌, is_nil, is_blank, Text,
  inr, All, lookup-insert,
}
use nbterminal.Profile.{ConnectionProfile}
use nbterminal.Security.Cipher.{Cipher, IsCipher, encrypted_id, decrypted_id}
use nbterminal.Database.Tx.{ConnectionRow, Tables}
use nbterminal.Database.ConnectionTable.{active_connection_metadata_key, or_nil, load_connections}
use nbterminal.Database.Written.{saved_tables}
use nbterminal.Database.Saved.{AreNew, ArePositioned, healthy, load_healthy}
use nbterminal.ConnectionStore.Normalize.{
  Texts, normalize_profiles, normalize_from, normalized_active_profile_id, has_profile,
}
use nbterminal.ConnectionStore.Identities.{normalize_profiles-AreIdentified}
use nbterminal.ConnectionStore.Settled.{normalize_profiles_idem}
use nbterminal.ConnectionStore.Rows.{ProfileJson, encrypted_connection_rows, decrypt_rows}
use nbterminal.ConnectionStore.Sqlite.{AppConfig, save_rows, save_active_sqlite}
use nbterminal.ConnectionStore.Loading.{load_store}
use nbterminal.ConnectionStore.RoundTrip.{IsProfile, rows_encrypted, id_encrypted}
use nbterminal.ConnectionStore.Opened.{
  opened_on, opened_store, take_rows_lem, load_store_lem, active_not_empty, saved_succeeds,
}

module _ {C : Type 0} (json : ProfileJson) (cipher : Cipher) (texts : Texts) (key : Text)
    (lawful : IsCipher cipher) (b : is_blank key ≡ false) where
  saved_and_loaded :
      (clock : ℕ → ℕ) (user : Text) (from_config : List C → List ConnectionProfile)
      → (draw last : ℕ) (t : Tables) (config config' : AppConfig C)
      → (p : ConnectionProfile) (rows : List ConnectionProfile) (active : Text)
      → (stored : List ConnectionRow) (id : Text) → AreNew [] stored
      → ArePositioned 0 stored
      → is_nil stored ≡ false
      → decrypt_rows json cipher stored key ≡ inr (p ∷ rows)
      → normalize_profiles texts clock (p ∷ rows) ≡ p ∷ rows
      → decrypted_id cipher id key ≡ some active
      → has_profile active (p ∷ rows) ≡ true
      → let o =
          save_rows json cipher texts
            (opened_store key t config)
            (p ∷ rows)
            active
            (inr stored)
            (some id) in
        let r =
          load_store json cipher texts clock user from_config draw last
            (opened_on key o.1.db config') in
        (o.0 ≡ none) × (r.0 ≡ inr tt) × (r.1.list ≡ p ∷ rows) × (r.1.active_id ≡ active)
  saved_and_loaded clock user from_config draw last t config config' p rows active stored id new
        placed k d n e h =
      let (ok, held) =
        saved_succeeds json cipher texts key lawful b t config (p ∷ rows) active stored id new in
      let t' = saved_tables t stored id in
      let load = load_store json cipher texts clock user from_config draw last in
      let found : load_connections (healthy t') ≡ (inr (stored, id), healthy t') =
        load_healthy stored t' placed refl
        ∙ ap (λ a. (inr (stored, or_nil a), healthy t'))
            (lookup-insert active_connection_metadata_key id t.metadata) in
      let q =
        ap (λ db. load (opened_on key db config')) held
        ∙ load_store_lem json cipher texts key lawful b clock user from_config draw last stored id
            t' config' found k in
      let (r, l, a) =
        take_rows_lem json cipher texts key lawful b clock user from_config stored id active p rows
          t' config' d n e h in
      (ok, ap (λ o. o.0) q ∙ r, ap (λ o. o.1.list) q ∙ l, ap (λ o. o.1.active_id) q ∙ a)

  -- On a database that does not fail, without an older file, with configurations that can be written, a
  -- lawful cipher and a key that is not blank: profiles, at least one, that JSON keeps once they are
  -- normalized are saved without an error; and a store with that key, opened on that database later,
  -- whatever else the configuration says and whatever the time is, loads the normalized profiles in
  -- their order, with the active identity.
  pub load-save_active :
      (clock later : ℕ → ℕ) (user : Text) (from_config : List C → List ConnectionProfile)
      → (draw last draw' last' : ℕ) (p : ConnectionProfile) (list : List ConnectionProfile)
      → (active_id : Text) (t : Tables) (config config' : AppConfig C)
      → All (IsProfile json cipher key lawful b) (normalize_profiles texts clock (p ∷ list))
      → let rows = normalize_profiles texts clock (p ∷ list) in
        let o =
          save_active_sqlite json cipher texts clock draw last
            (p ∷ list)
            active_id
            (opened_store key t config) in
        let r =
          load_store json cipher texts later user from_config draw' last'
            (opened_on key o.1.db config') in
        (o.0 ≡ none)
        × (r.0 ≡ inr tt)
        × (r.1.list ≡ rows)
        × (r.1.active_id ≡ normalized_active_profile_id rows active_id)
  unfolding save_active_sqlite encrypted_connection_rows normalize_profiles normalize_from
  load-save_active clock later user from_config draw last draw' last' p list active_id t config
        config' h =
      let rows = normalize_profiles texts clock (p ∷ list) in
      let active = normalized_active_profile_id rows active_id in
      let s = opened_store key t config in
      let (i, l, a) = normalize_profiles-AreIdentified texts clock (p ∷ list) active_id in
      let (stored, e, new, placed, back, same) =
        rows_encrypted json cipher key lawful b rows draw 0 [] [] h i tt in
      let (id, e', d, k) =
        id_encrypted json cipher key lawful b last active (active_not_empty rows [] active i a) in
      let q =
        ap (λ x. save_rows json cipher texts s rows active x (encrypted_id cipher last active key))
          {x = encrypted_connection_rows json cipher draw rows key} {y = inr stored} (rw b e)
        ∙ ap (save_rows json cipher texts s rows active (inr stored)) e' in
      subst
        (λ o.
          let r =
            load_store json cipher texts later user from_config draw' last'
              (opened_on key o.1.db config') in
          (o.0 ≡ none) × (r.0 ≡ inr tt) × (r.1.list ≡ rows) × (r.1.active_id ≡ active))
        (sym q)
        (saved_and_loaded later user from_config draw' last' t config config' _ _ active stored id
          new placed same back (normalize_profiles_idem texts clock later (p ∷ list)) d a)
