-- ===== src/HistoryStore/Store.antt =====
-- `HistoryStore` (terminal/log.go): its methods choose between the database and the file.
use nbterminal.Base.{Bool, true, false, Option, none, some, List, [], Text, ◌⊎◌, inl, inr, ℕ}
use nbterminal.Base.Int.{ℤ, pos}
use nbterminal.HistoryStore.Entry.{Bytes, HistoryEntry}
use nbterminal.HistoryStore.File.{HistoryError, path_required, Faults, Json, load_file}
use nbterminal.HistoryStore.Append.{append_file}
use nbterminal.HistoryStore.Query.{load_for_connection_file, last_command}
use nbterminal.HistoryStore.Sqlite.{StoreError, on_file, append_sqlite, load_sqlite}
use nbterminal.Security.Cipher.{Cipher}
use nbterminal.Database.Tx.{Db}

-- `HistoryStore`, with the database it points to and the file at its path.
pub record HistoryStore : Type 0 where
  pub has_path : Bool
  pub file : Option Bytes
  pub db : Option Db
  pub encryption_key : Text

abbrev pub from_file : {A : Type 0} → HistoryError ⊎ A → StoreError ⊎ A
from_file (inl e) = inl (on_file e)
from_file (inr a) = inr a

abbrev pub file_error : Option HistoryError → Option StoreError
file_error none = none
file_error (some e) = some (on_file e)

module _ (json : Json HistoryEntry) (cipher : Cipher) where
  abbrev pub append_to :
      Faults
      → ℤ
      → ℕ
      → HistoryEntry
      → HistoryStore
      → Bool
      → Option Db
      → Option StoreError × HistoryStore
  append_to faults now draw e s has_path (some db) =
      let (r, db') = append_sqlite json cipher now draw e s.encryption_key db in
      (r, record s { db = some db' })
  append_to faults now draw e s false none = (some (on_file path_required), s)
  append_to faults now draw e s true none =
      let (r, file) = append_file json faults s.file e in (file_error r, record s { file = file })

  -- `Append`.
  unfoldable pub append_entry :
      Faults → ℤ → ℕ → HistoryEntry → HistoryStore → Option StoreError × HistoryStore
  unfolding append_sqlite append_file
  append_entry faults now draw e s = append_to faults now draw e s s.has_path s.db

  abbrev pub load_from :
      Faults → HistoryStore → ℤ → Bool → Option Db → StoreError ⊎ List HistoryEntry
  load_from faults s limit has_path (some db) =
      (load_sqlite json cipher s.encryption_key [] limit db).0
  load_from faults s limit false none = inl (on_file path_required)
  load_from faults s limit true none = from_file (load_file json faults s.file limit)

  -- `Load`.
  unfoldable pub load_entries : Faults → HistoryStore → ℤ → StoreError ⊎ List HistoryEntry
  unfolding load_sqlite load_file
  load_entries faults s limit = load_from faults s limit s.has_path s.db

  abbrev pub load_connection_from :
      Faults → HistoryStore → Text → ℤ → Bool → Option Db → StoreError ⊎ List HistoryEntry
  load_connection_from faults s id limit has_path (some db) =
      (load_sqlite json cipher s.encryption_key id limit db).0
  load_connection_from faults s id limit false none = inl (on_file path_required)
  load_connection_from faults s id limit true none =
      from_file (load_for_connection_file json faults s.file id limit)

  -- `LoadForConnection`.
  unfoldable pub load_for_connection :
      Faults → HistoryStore → Text → ℤ → StoreError ⊎ List HistoryEntry
  unfolding load_sqlite load_for_connection_file
  load_for_connection faults s id limit = load_connection_from faults s id limit s.has_path s.db

  abbrev pub last_from : StoreError ⊎ List HistoryEntry → StoreError ⊎ Option Bytes
  last_from (inl e) = inl e
  last_from (inr es) = inr (last_command es)

  -- `LastCommand`.
  unfoldable pub last_command_for : Faults → HistoryStore → Text → StoreError ⊎ Option Bytes
  unfolding load_for_connection last_command
  last_command_for faults s id = last_from (load_for_connection faults s id (pos 0))
