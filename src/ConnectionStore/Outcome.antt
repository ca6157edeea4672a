-- ===== src/ConnectionStore/Outcome.antt =====
-- What `saveActiveSQLiteLocked` (guis/connection_store_sqlite.go) leaves, whichever of its steps fail.
use nbterminal.Base.{
  ℕ, ◌≡◌, refl, Bool, true, false, Option, none, some, List, [], Text, ◌⊎◌, inl, inr,
}
use nbterminal.Profile.{ConnectionProfile}
use nbterminal.Security.Cipher.{Cipher, encrypted_id}
use nbterminal.Database.Tx.{ConnectionRow, Db, DbError}
use nbterminal.Database.ConnectionTable.{save_connections, save_tx}
use nbterminal.Database.Atomic.{IsAtomic, with_tx-IsAtomic}
use nbterminal.ConnectionStore.Normalize.{Texts, normalize_profiles, normalized_active_profile_id}
use nbterminal.ConnectionStore.Identities.{
  AreIdentified, IsActive, normalize_profiles-AreIdentified,
}
use nbterminal.ConnectionStore.Rows.{
  StoreError, config_failed, encrypt_failed, database, ProfileJson, encrypted_connection_rows,
}
use nbterminal.ConnectionStore.Sqlite.{
  AppConfig, ConnectionStore, synced, saved, save_rows, save_active_sqlite, sync_sqlite_config,
}

module _ {C : Type 0} (json : ProfileJson) (cipher : Cipher) (texts : Texts) where
  -- An error, and the store, its database and the configuration are as they were.
  abbrev pub IsUnchanged : ConnectionStore C → Option StoreError × ConnectionStore C → Type 0
  IsUnchanged s (r, s') =
      ((e : StoreError) × (r ≡ some e))
      × (s'.list ≡ s.list)
      × (s'.active_id ≡ s.active_id)
      × (s'.db.tables ≡ s.db.tables)
      × (s'.config ≡ s.config)

  -- The list and the active identity are the new ones; at most the configuration was not written.
  abbrev pub IsSaved :
      List ConnectionProfile → Text → Option StoreError × ConnectionStore C → Type 0
  IsSaved rows active_id (r, s') =
      ((r ≡ none) ⊎ (r ≡ some config_failed)) × (s'.list ≡ rows) × (s'.active_id ≡ active_id)

  synced-IsSaved :
      (s : ConnectionStore C) (o : Bool × AppConfig C)
      → IsSaved s.list s.active_id (synced json cipher texts s o)
  synced-IsSaved s (true, config) = (inr refl, refl, refl)
  synced-IsSaved s (false, config) = (inl refl, refl, refl)

  saved_lem :
      (s : ConnectionStore C) (rows : List ConnectionProfile) (active_id : Text)
      → (o : (DbError ⊎ Unit {0}) × Db) → IsAtomic s.db.tables o
      → IsUnchanged s (saved json cipher texts s rows active_id o)
        ⊎ IsSaved rows active_id (saved json cipher texts s rows active_id o)
  saved_lem s rows active_id (inl e, db) (inl (a, q)) = cc
  saved_lem s rows active_id (inl e, db) (inr t) = inl ((database e, refl), refl, refl, t, refl)
  saved_lem s rows active_id (inr u, db) h = inr (
      synced-IsSaved (record s { list = rows; active_id = active_id; db = db })
        (sync_sqlite_config s.config))

  save_rows_lem :
      (s : ConnectionStore C) (rows : List ConnectionProfile) (active_id : Text)
      → (stored : StoreError ⊎ List ConnectionRow) (id : Option Text)
      → IsUnchanged s (save_rows json cipher texts s rows active_id stored id)
        ⊎ IsSaved rows active_id (save_rows json cipher texts s rows active_id stored id)
  unfolding save_connections
  save_rows_lem s rows active_id (inl e) id = inl ((e, refl), refl, refl, refl, refl)
  save_rows_lem s rows active_id (inr stored) none =
      inl ((encrypt_failed, refl), refl, refl, refl, refl)
  save_rows_lem s rows active_id (inr stored) (some id) =
      saved_lem s rows active_id (save_connections stored id s.db)
        (with_tx-IsAtomic (save_tx stored id) s.db)

  -- Whichever statement, encryption or write fails: a save that fails before it is committed leaves the
  -- store, the database and the configuration as they were; any other leaves a list with identities
  -- that are not empty and all different, and an active identity among them, or "" for an empty list.
  pub save_active_lem :
      (clock : ℕ → ℕ) (draw last : ℕ) (list : List ConnectionProfile) (active_id : Text)
      → (s : ConnectionStore C)
      → let rows = normalize_profiles texts clock list in
        let active = normalized_active_profile_id rows active_id in
        let o = save_active_sqlite json cipher texts clock draw last list active_id s in
        (IsUnchanged s o ⊎ IsSaved rows active o)
        × AreIdentified [] rows
        × IsActive texts clock rows active
  unfolding save_active_sqlite
  save_active_lem clock draw last list active_id s =
      let rows = normalize_profiles texts clock list in
      let (i, l, a) = normalize_profiles-AreIdentified texts clock list active_id in
      (
        save_rows_lem s rows (normalized_active_profile_id rows active_id)
            (encrypted_connection_rows json cipher draw rows s.encryption_key)
            (encrypted_id cipher last (normalized_active_profile_id rows active_id)
              s.encryption_key),
        i,
        a,
      )
