-- ===== src/ConnectionStore/Opened.antt =====
-- A store that is opened on a healthy database, and what it takes from the rows (guis/connection_store_sqlite.go).
use nbterminal.Base.{
  ℕ, ◌≡◌, refl, sym, ap, ◌∙◌, Bool, true, false, ◌&&◌, ◌||◌, not, none, some, List, [], ◌∷◌, is_nil,
  is_blank, Text, inl, inr, if◌then◌else◌, if-elim, Bool-cases, text_eq, text_eq_iff,
}
use nbterminal.Profile.{ConnectionProfile}
use nbterminal.Security.Cipher.{Cipher, IsCipher, decrypted_id}
use nbterminal.Database.Tx.{ConnectionRow, Tables, Db}
use nbterminal.Database.ConnectionTable.{metadata, load_connections, connections_migration_complete}
use nbterminal.Database.Written.{saved_tables}
use nbterminal.Database.Saved.{AreNew, healthy, save_healthy}
use nbterminal.ConnectionStore.Normalize.{
  Texts, normalize_profiles, normalized_active_profile_id, has_profile,
}
use nbterminal.ConnectionStore.Identities.{AreIdentified}
use nbterminal.ConnectionStore.Rows.{
  ProfileJson, decrypt_connection_rows, decrypted_active_profile_id, active_of, decrypt_rows,
}
use nbterminal.ConnectionStore.Sqlite.{
  AppConfig, ConnectionStore, Act, or_raise, on_db, ◌>>=◌, saved, save_rows, sync_sqlite_config,
  regular_file_exists, continued, cleared, db_result,
}
use nbterminal.ConnectionStore.Loading.{
  migrate_legacy_profiles, take_rows, take_profiles, take_list, take_active, load_store,
}

-- An identity that is active stays so.
active_kept :
    (p : ConnectionProfile) (rows : List ConnectionProfile) (id : Text)
    → has_profile id (p ∷ rows) ≡ true
    → normalized_active_profile_id (p ∷ rows) id ≡ id
unfolding normalized_active_profile_id
active_kept p rows id h = rw h refl

sync_succeeds :
    {C : Type 0} (config : AppConfig C)
    → config.save_fails ≡ false
    → (sync_sqlite_config config).0 ≡ false
unfolding sync_sqlite_config
sync_succeeds {C} config h =
    if-elim P (not config.is_loaded) (false, config)
      (if not config.has_path
        then (false, cleared config)
        else if config.save_fails
        then (true, config)
        else (false, cleared config))
      (λ e. refl)
      (λ e.
        if-elim P (not config.has_path) (false, cleared config)
          (if config.save_fails then (true, config) else (false, cleared config)) (λ f. refl)
          (λ f. rw h refl))
  where
    P : Bool × AppConfig C → Type 0
    P o = o.0 ≡ false

pub active_not_empty :
    (rows : List ConnectionProfile) (seen : List Text) (id : Text)
    → AreIdentified seen rows
    → has_profile id rows ≡ true
    → is_nil id ≡ false
active_not_empty [] seen id i h = cc
active_not_empty (p ∷ rows) seen id (n, c, i) h = elim (Bool-cases (text_eq p.id id)) [
  | inl q ↦ ap is_nil (sym ((text_eq_iff p.id id).0 q)) ∙ n
  | inr q ↦
      active_not_empty rows (p.id ∷ seen) id i
        (sym (ap (λ b. if b then true else has_profile id rows) q) ∙ h)
]

-- A store on a healthy database, without an older file, whose configuration can be written.
abbrev pub opened_on : {C : Type 0} → Text → Db → AppConfig C → ConnectionStore C
opened_on key db config = record {
  encryption_key = key;
  list = [];
  active_id = [];
  db = db;
  config = record config { save_fails = false };
  legacy = none;
}

abbrev pub opened_store : {C : Type 0} → Text → Tables → AppConfig C → ConnectionStore C
opened_store key t config = opened_on key (healthy t) config

module _ {C : Type 0} (json : ProfileJson) (cipher : Cipher) (texts : Texts) (key : Text)
    (lawful : IsCipher cipher) (b : is_blank key ≡ false) where
  -- The rows and the active identity are taken over.
  pub take_rows_lem :
      (clock : ℕ → ℕ) (user : Text) (from_config : List C → List ConnectionProfile)
      → (stored : List ConnectionRow) (id active : Text) (p : ConnectionProfile)
      → (rows : List ConnectionProfile) (t : Tables) (config : AppConfig C)
      → decrypt_rows json cipher stored key ≡ inr (p ∷ rows)
      → normalize_profiles texts clock (p ∷ rows) ≡ p ∷ rows
      → decrypted_id cipher id key ≡ some active
      → has_profile active (p ∷ rows) ≡ true
      → let o =
          take_rows json cipher texts clock user from_config
            (stored, id)
            (opened_store key t config) in
        (o.0 ≡ inr tt) × (o.1.list ≡ p ∷ rows) × (o.1.active_id ≡ active)
  unfolding take_rows decrypt_connection_rows decrypted_active_profile_id
  take_rows_lem clock user from_config stored id active p rows t config d n e h =
      let s = opened_store key t config in
      let s' = record s { list = p ∷ rows } in
      let take = take_profiles json cipher texts clock user from_config id in
      let q =
        ap (λ o. take o s) {y = inr (p ∷ rows)} (rw b d)
        ∙ ap (λ l. take_list json cipher texts clock user from_config id l s) n
        ∙ ap (λ o. take_active json cipher texts clock user from_config (p ∷ rows) o s')
            (ap (active_of json cipher (p ∷ rows)) e)
        ∙ ap (λ i. take_active json cipher texts clock user from_config (p ∷ rows) (inr i) s')
            (active_kept p rows active h) in
      (
        ap (λ o. o.0) q ∙ rw (sync_succeeds s.config refl) refl,
        ap (λ o. o.1.list) q,
        ap (λ o. o.1.active_id) q ∙ active_kept p rows active h,
      )

  -- Where there are rows and no older file, nothing is migrated.
  pub load_store_lem :
      (clock : ℕ → ℕ) (user : Text) (from_config : List C → List ConnectionProfile)
      → (draw last : ℕ) (stored : List ConnectionRow) (id : Text) (t : Tables)
        (config : AppConfig C)
      → load_connections (healthy t) ≡ (inr (stored, id), healthy t)
      → is_nil stored ≡ false
      → load_store json cipher texts clock user from_config draw last (opened_store key t config)
        ≡ take_rows json cipher texts clock user from_config
            (stored, id)
            (opened_store key t config)
  unfolding load_store regular_file_exists connections_migration_complete metadata
  load_store_lem clock user from_config draw last [] id t config e h = cc
  load_store_lem clock user from_config draw last (r ∷ stored) id t config e h =
      let s = opened_store key t config in ap (λ o. continued (db_result s o) K) e
    where
      K : List ConnectionRow × Text → Act C (Unit {0})
      K found s =
          (do
            exists ← or_raise (regular_file_exists s.legacy)
            complete ← on_db connections_migration_complete
            if exists || (is_nil found.0 && not complete)
                then migrate_legacy_profiles json cipher texts clock user from_config draw last
                  >>= take_rows json cipher texts clock user from_config
                else take_rows json cipher texts clock user from_config found)
            s

  pub saved_succeeds :
      (t : Tables) (config : AppConfig C) (rows : List ConnectionProfile) (active : Text)
      → (stored : List ConnectionRow) (id : Text) → AreNew [] stored
      → let o =
          save_rows json cipher texts
            (opened_store key t config)
            rows
            active
            (inr stored)
            (some id) in
        (o.0 ≡ none) × (o.1.db ≡ healthy (saved_tables t stored id))
  saved_succeeds t config rows active stored id new =
      let s = opened_store key t config in
      let e = ap (saved json cipher texts s rows active) (save_healthy stored id t new) in
      (ap (λ o. o.0) e ∙ rw (sync_succeeds s.config refl) refl, ap (λ o. o.1.db) e)
