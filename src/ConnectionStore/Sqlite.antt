-- ===== src/ConnectionStore/Sqlite.antt =====
-- `connectionStore` on a database (guis/connection_store_sqlite.go). What package `config` keeps of
-- connections is an opaque list, which `profilesFromConfig` turns into profiles; the texts, the clock
-- and the random numbers are arguments.
use nbterminal.Base.{
  ℕ, Bool, true, false, not, Option, none, some, List, [], if◌then◌else◌, Text, ◌⊎◌, inl, inr,
}
use nbterminal.Profile.{ConnectionProfile}
use nbterminal.Security.Cipher.{Cipher, encrypted_id}
use nbterminal.Database.Tx.{ConnectionRow, Db, DbError, Tx}
use nbterminal.Database.ConnectionTable.{save_connections, set_active_connection}
use nbterminal.ConnectionStore.Normalize.{Texts, normalize_profiles, normalized_active_profile_id}
use nbterminal.ConnectionStore.Rows.{
  StoreError, config_failed, legacy_unreadable, encrypt_failed, database, ProfileJson,
  encrypted_connection_rows,
}

-- `GlobalConfig` with what it keeps of connections, and what becomes of `SaveConfig`.
pub record AppConfig (C : Type 0) : Type 0 where
  pub is_loaded : Bool
  pub has_path : Bool
  pub save_fails : Bool
  pub connections : List C
  pub active_connection_id : Text

-- What stands at the path of an older version: a regular file or not (or not to be inspected), its text,
-- whether it can be read and made private, and whether it can be removed.
pub record LegacyFile : Type 0 where
  pub regular : Bool
  pub text : Text
  pub readable : Bool
  pub removable : Bool

pub record ConnectionStore (C : Type 0) : Type 0 where
  pub encryption_key : Text
  pub list : List ConnectionProfile
  pub active_id : Text
  pub db : Db
  pub config : AppConfig C
  pub legacy : Option LegacyFile

abbrev pub Act : Type 0 → Type 0 → Type 0
Act C A = ConnectionStore C → (StoreError ⊎ A) × ConnectionStore C

-- `regularFileExists`.
unfoldable pub regular_file_exists : Option LegacyFile → StoreError ⊎ Bool
regular_file_exists none = inr false
regular_file_exists (some f) = if f.regular then inr true else inl legacy_unreadable

module _ {C : Type 0} where
  abbrev pub pure : {A : Type 0} → A → Act C A
  pure a s = (inr a, s)

  abbrev pub or_raise : {A : Type 0} → StoreError ⊎ A → Act C A
  or_raise r s = (r, s)

  abbrev pub modify : (ConnectionStore C → ConnectionStore C) → Act C (Unit {0})
  modify f s = (inr tt, f s)

  abbrev pub db_result :
      {A : Type 0} → ConnectionStore C → (DbError ⊎ A) × Db → (StoreError ⊎ A) × ConnectionStore C
  db_result s (inl e, db) = (inl (database e), record s { db = db })
  db_result s (inr a, db) = (inr a, record s { db = db })

  abbrev pub on_db : {A : Type 0} → Tx A → Act C A
  on_db f s = db_result s (f s.db)

  abbrev pub continued :
      {A B : Type 0}
      → (StoreError ⊎ A) × ConnectionStore C
      → (A → Act C B)
      → (StoreError ⊎ B) × ConnectionStore C
  continued (inl e, s) f = (inl e, s)
  continued (inr a, s) f = f a s

  infixl 5 ◌>>=◌ ◌>>◌
  abbrev pub ◌>>=◌ : {A B : Type 0} → Act C A → (A → Act C B) → Act C B
  ◌>>=◌ m f s = continued (m s) f

  abbrev pub ◌>>◌ : {A B : Type 0} → Act C A → Act C B → Act C B
  m >> k = m >>= λ _. k

  abbrev pub cleared : AppConfig C → AppConfig C
  cleared c = record c { connections = []; active_connection_id = [] }

  -- `syncSQLiteConfig`, with whether it fails.
  unfoldable pub sync_sqlite_config : AppConfig C → Bool × AppConfig C
  sync_sqlite_config c =
      if not c.is_loaded
      then (false, c)
      else if not c.has_path
      then (false, cleared c)
      else if c.save_fails
      then (true, c)
      else (false, cleared c)

  abbrev pub configured_active_id : AppConfig C → Text
  configured_active_id c = if c.is_loaded then c.active_connection_id else []

module _ {C : Type 0} (json : ProfileJson) (cipher : Cipher) (texts : Texts) where
  abbrev pub synced : ConnectionStore C → Bool × AppConfig C → Option StoreError × ConnectionStore C
  synced s (failed, config) =
      (if failed then some config_failed else none, record s { config = config })

  -- What follows the save: the old list comes back where it has failed.
  abbrev pub saved :
      ConnectionStore C
      → List ConnectionProfile
      → Text
      → (DbError ⊎ Unit {0}) × Db
      → Option StoreError × ConnectionStore C
  saved s rows active_id (inl e, db) = (some (database e), record s { db = db })
  saved s rows active_id (inr _, db) =
      let s' = record s { list = rows; active_id = active_id; db = db } in
      synced s' (sync_sqlite_config s'.config)

  abbrev pub save_rows :
      ConnectionStore C
      → List ConnectionProfile
      → Text
      → StoreError ⊎ List ConnectionRow
      → Option Text
      → Option StoreError × ConnectionStore C
  save_rows s rows active_id (inl e) storage_id = (some e, s)
  save_rows s rows active_id (inr stored) none = (some encrypt_failed, s)
  save_rows s rows active_id (inr stored) (some id) =
      saved s rows active_id (save_connections stored id s.db)

  -- `saveActiveSQLiteLocked`; the row of the active identity draws the random number `last`.
  unfoldable pub save_active_sqlite :
      (ℕ → ℕ)
      → ℕ
      → ℕ
      → List ConnectionProfile
      → Text
      → ConnectionStore C
      → Option StoreError × ConnectionStore C
  unfolding normalize_profiles normalized_active_profile_id encrypted_connection_rows encrypted_id
      save_connections sync_sqlite_config
  save_active_sqlite clock draw last list active_id s =
      let rows = normalize_profiles texts clock list in
      let active = normalized_active_profile_id rows active_id in
      save_rows s rows active (encrypted_connection_rows json cipher draw rows s.encryption_key)
        (encrypted_id cipher last active s.encryption_key)

  abbrev pub active_set :
      ConnectionStore C → Text → (DbError ⊎ Unit {0}) × Db → Option StoreError × ConnectionStore C
  active_set s active_id (inl e, db) = (some (database e), record s { db = db })
  active_set s active_id (inr _, db) =
      let s' = record s { active_id = active_id; db = db } in
      synced s' (sync_sqlite_config s'.config)

  abbrev pub set_storage_id :
      ConnectionStore C → Text → Option Text → Option StoreError × ConnectionStore C
  set_storage_id s active none = (some encrypt_failed, s)
  set_storage_id s active (some id) = active_set s active (set_active_connection id s.db)

  -- `setActiveSQLiteLocked`.
  unfoldable pub set_active_sqlite :
      ℕ → Text → ConnectionStore C → Option StoreError × ConnectionStore C
  unfolding normalized_active_profile_id encrypted_id set_active_connection sync_sqlite_config
  set_active_sqlite draw active_id s =
      let active = normalized_active_profile_id s.list active_id in
      set_storage_id s active (encrypted_id cipher draw active s.encryption_key)
