-- ===== src/ConnectionStore/Loading.antt =====
-- `loadSQLiteLocked` of guis/connection_store_sqlite.go.
use nbterminal.Base.{
  ℕ, Bool, ◌&&◌, ◌||◌, not, Option, none, some, List, [], ◌∷◌, if◌then◌else◌, is_nil, is_blank,
  Text, ◌⊎◌, inl, inr,
}
use nbterminal.Profile.{ConnectionProfile}
use nbterminal.Security.Cipher.{Cipher, encrypted_id}
use nbterminal.Database.Tx.{ConnectionRow}
use nbterminal.Database.ConnectionTable.{
  load_connections, migrate_connections, connections_migration_complete,
}
use nbterminal.ConnectionStore.Normalize.{
  Texts, normalize_profiles, default_profiles, normalized_active_profile_id,
}
use nbterminal.ConnectionStore.Rows.{
  StoreError, config_failed, legacy_unreadable, legacy_not_removed, decode_failed, ProfileJson,
  or_encrypt_failed, encrypted_connection_rows, decrypt_connection_rows,
  decrypted_active_profile_id,
}
use nbterminal.ConnectionStore.Sqlite.{
  AppConfig, LegacyFile, Act, or_raise, modify, on_db, ◌>>=◌, ◌>>◌, sync_sqlite_config,
  regular_file_exists, configured_active_id,
}

module _ {C : Type 0} (json : ProfileJson) (cipher : Cipher) (texts : Texts) (clock : ℕ → ℕ)
    (user : Text) (from_config : List C → List ConnectionProfile) where
  abbrev pub or_profiles : List ConnectionProfile → List ConnectionProfile
  or_profiles [] = default_profiles texts clock user
  or_profiles (p ∷ rows) = p ∷ rows

  abbrev pub parsed : Option (List ConnectionProfile) → StoreError ⊎ List ConnectionProfile
  parsed none = inl decode_failed
  parsed (some rows) = inr rows

  -- `legacyProfilesForMigrationLocked`.
  unfoldable pub legacy_profiles :
      AppConfig C → Option LegacyFile → StoreError ⊎ List ConnectionProfile
  unfolding default_profiles is_blank
  legacy_profiles config none =
      inr (or_profiles (if config.is_loaded then from_config config.connections else []))
  legacy_profiles config (some f) =
      if not f.readable
      then inl legacy_unreadable
      else if is_blank f.text
      then inr (default_profiles texts clock user)
      else parsed (json.decode_list f.text)

  -- The file goes once the migration is recorded.
  abbrev pub removed : Bool → Option LegacyFile → StoreError ⊎ Option LegacyFile
  removed complete none = inr none
  removed complete (some f) =
      if complete then (if f.removable then inr none else inl legacy_not_removed) else inr (some f)

  unfoldable pub migrate_legacy_profiles : ℕ → ℕ → Act C (List ConnectionRow × Text)
  unfolding legacy_profiles normalize_profiles encrypted_connection_rows
      normalized_active_profile_id encrypted_id migrate_connections connections_migration_complete
      load_connections
  migrate_legacy_profiles draw last s =
      (do
        found ← or_raise (legacy_profiles s.config s.legacy)
        let rows = normalize_profiles texts clock found
        modify (λ t. record t { list = rows })
        stored ← or_raise (encrypted_connection_rows json cipher draw rows s.encryption_key)
        let active = normalized_active_profile_id rows (configured_active_id s.config)
        active_id ← or_raise (or_encrypt_failed (encrypted_id cipher last active s.encryption_key))
        on_db (migrate_connections stored active_id)
        complete ← on_db connections_migration_complete
        legacy ← or_raise (removed complete s.legacy)
        modify (λ t. record t { legacy = legacy })
        on_db load_connections)
        s

  abbrev pub config_synced : Bool × AppConfig C → Act C (Unit {0})
  config_synced o s = (if o.0 then inl config_failed else inr tt, record s { config = o.1 })

  abbrev pub take_active : List ConnectionProfile → StoreError ⊎ Text → Act C (Unit {0})
  take_active list (inl e) s = (inl e, s)
  take_active list (inr id) s =
      config_synced (sync_sqlite_config s.config)
        (record s { active_id = normalized_active_profile_id list id })

  abbrev pub take_list : Text → List ConnectionProfile → Act C (Unit {0})
  take_list stored_id list s =
      take_active list (decrypted_active_profile_id json cipher list stored_id s.encryption_key)
        (record s { list = list })

  abbrev pub take_profiles : Text → StoreError ⊎ List ConnectionProfile → Act C (Unit {0})
  take_profiles stored_id (inl e) s = (inl e, s)
  take_profiles stored_id (inr profiles) s =
      take_list stored_id (normalize_profiles texts clock profiles) s

  -- From the rows to the list and the active identity.
  unfoldable pub take_rows : List ConnectionRow × Text → Act C (Unit {0})
  unfolding decrypt_connection_rows normalize_profiles decrypted_active_profile_id
      normalized_active_profile_id sync_sqlite_config
  take_rows found s =
      take_profiles found.1 (decrypt_connection_rows json cipher found.0 s.encryption_key) s

  unfoldable pub load_store : ℕ → ℕ → Act C (Unit {0})
  unfolding load_connections regular_file_exists connections_migration_complete
      migrate_legacy_profiles take_rows
  load_store draw last s =
      (do
        found ← on_db load_connections
        exists ← or_raise (regular_file_exists s.legacy)
        complete ← on_db connections_migration_complete
        if exists || (is_nil found.0 && not complete)
            then migrate_legacy_profiles draw last >>= take_rows
            else take_rows found)
        s
