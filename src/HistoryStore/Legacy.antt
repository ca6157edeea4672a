-- ===== src/HistoryStore/Legacy.antt =====
-- `MigrateLegacy` (terminal/log.go): the file of an older version goes into the database. The
-- fingerprint of a file, a code under the key, is a parameter.
use nbterminal.Base.{
  ℕ, ◌+◌, Bool, ◌&&◌, not, Option, none, some, List, [], ◌∷◌, if◌then◌else◌, is_nil, Text, ◌⊎◌, inl,
  inr,
}
use nbterminal.Base.Int.{ℤ, pos}
use nbterminal.HistoryStore.Entry.{Bytes, HistoryEntry}
use nbterminal.HistoryStore.File.{
  stat, open_file, read, remove, HistoryError, failed, Faults, Json, load_file,
}
use nbterminal.HistoryStore.Sqlite.{
  StoreError, database, on_file, not_regular, encrypted_history_row,
}
use nbterminal.Security.Cipher.{Cipher}
use nbterminal.Database.Tx.{HistoryRow, Db, DbError}
use nbterminal.Database.HistoryTable.{migrate_history, history_migration_complete}

-- The file of the store: its bytes, and whether it is a regular file.
abbrev pub LegacyFile : Type 0
LegacyFile = Option (Bytes × Bool)

abbrev pub content : LegacyFile → Option Bytes
content none = none
content (some (s, regular)) = some s

abbrev pub Migration : Type 0
Migration = (StoreError ⊎ Bool) × (Db × LegacyFile)

abbrev pub placed : Text → ℕ → HistoryRow → HistoryRow
placed source ordinal row = record row { legacy_source = source; legacy_ordinal = pos ordinal }

abbrev pub cons_row :
    StoreError ⊎ HistoryRow → StoreError ⊎ List HistoryRow → StoreError ⊎ List HistoryRow
cons_row (inl e) rows = inl e
cons_row (inr row) (inl e) = inl e
cons_row (inr row) (inr rows) = inr (row ∷ rows)

abbrev pub placed_row : Text → ℕ → StoreError ⊎ HistoryRow → StoreError ⊎ HistoryRow
placed_row source ordinal (inl e) = inl e
placed_row source ordinal (inr row) = inr (placed source ordinal row)

module _ (json : Json HistoryEntry) (cipher : Cipher) (fingerprint : Text → Bytes → Text) where
  -- `historyLegacySource`, "" where there is no file.
  unfoldable pub history_legacy_source : Faults → Text → LegacyFile → StoreError ⊎ Text
  history_legacy_source faults key none =
      if faults.fails stat then inl (on_file (failed stat)) else inr []
  history_legacy_source faults key (some (s, regular)) =
      if faults.fails stat
      then inl (on_file (failed stat))
      else if not regular
      then inl not_regular
      else if faults.fails open_file
      then inl (on_file (failed open_file))
      else if faults.fails read
      then inl (on_file (failed read))
      else inr (fingerprint key s)

  -- The rows of the entries, the first of which has the ordinal `index + 1`.
  unfoldable pub legacy_rows :
      ℤ → ℕ → Text → Text → ℕ → List HistoryEntry → StoreError ⊎ List HistoryRow
  unfolding encrypted_history_row
  legacy_rows now draw key source index [] = inr []
  legacy_rows now draw key source index (e ∷ es) =
      cons_row (placed_row source (index + 1) (encrypted_history_row json cipher now draw e key))
        (legacy_rows now (draw + 2) key source (index + 1) es)

  -- The file is removed once the migration is recorded.
  abbrev pub cleaned : Faults → Text → LegacyFile → Bool → (DbError ⊎ Bool) × Db → Migration
  cleaned faults source file applied (inl e, db) = (inl (database e), (db, file))
  cleaned faults source file applied (inr complete, db) =
      if not (is_nil source) && complete
      then (if faults.fails remove
          then (inl (on_file (failed remove)), (db, file))
          else (inr applied, (db, none)))
      else (inr applied, (db, file))

  abbrev pub migrated : Faults → Text → LegacyFile → (DbError ⊎ Bool) × Db → Migration
  migrated faults source file (inl e, db) = (inl (database e), (db, file))
  migrated faults source file (inr applied, db) =
      cleaned faults source file applied (history_migration_complete db)

  abbrev pub migrate_rows :
      Faults → Text → LegacyFile → Db → StoreError ⊎ List HistoryRow → Migration
  migrate_rows faults source file db (inl e) = (inl e, (db, file))
  migrate_rows faults source file db (inr rows) =
      migrated faults source file (migrate_history rows db)

  abbrev pub migrate_entries :
      Faults → ℤ → ℕ → Text → Text → LegacyFile → Db → HistoryError ⊎ List HistoryEntry → Migration
  migrate_entries faults now draw key source file db (inl e) = (inl (on_file e), (db, file))
  migrate_entries faults now draw key source file db (inr es) =
      migrate_rows faults source file db (legacy_rows now draw key source 0 es)

  abbrev pub migrate_source :
      Faults → ℤ → ℕ → Text → LegacyFile → Db → StoreError ⊎ Text → Migration
  migrate_source faults now draw key file db (inl e) = (inl e, (db, file))
  migrate_source faults now draw key file db (inr source) =
      migrate_entries faults now draw key source file db
        (load_file json faults (content file) (pos 0))

  -- `MigrateLegacy` of a store with a database.
  unfoldable pub migrate_legacy : Faults → ℤ → ℕ → Text → LegacyFile → Db → Migration
  unfolding history_legacy_source load_file legacy_rows migrate_history history_migration_complete
  migrate_legacy faults now draw key file db =
      migrate_source faults now draw key file db (history_legacy_source faults key file)
