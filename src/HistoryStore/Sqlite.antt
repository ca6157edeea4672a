-- ===== src/HistoryStore/Sqlite.antt =====
-- `HistoryStore` on a database (terminal/log.go). Encryption is the interface of
-- nbterminal.Security.Cipher, JSON a parameter; texts and the bytes of JSON are both lists of numbers.
use nbterminal.Base.{
  ℕ, ◌+◌, ◌&&◌, not, Option, none, some, List, [], ◌∷◌, ◌++◌, if◌then◌else◌, is_nil, is_blank,
  text_eq, Text, ◌⊎◌, inl, inr,
}
use nbterminal.Base.Int.{ℤ, pos, negsuc, pos_part, eq_ℤ}
use nbterminal.HistoryStore.Entry.{Time, HistoryEntry}
use nbterminal.HistoryStore.Ring.{keep}
use nbterminal.HistoryStore.File.{HistoryError, Json}
use nbterminal.Security.Cipher.{Cipher, encrypted_id, decrypted_id}
use nbterminal.Database.Tx.{HistoryRow, Db, DbError}
use nbterminal.Database.HistoryTable.{append_history, load_history}

pub data StoreError : Type 0 where
  key_required encrypt_failed decrypt_failed decode_failed id_mismatch time_mismatch : StoreError
  database : DbError → StoreError
  on_file : HistoryError → StoreError
  not_regular : StoreError

-- `UnixNano`, with what it gives for the zero time.
abbrev pub unix_nano : Time → ℤ
unix_nano none = negsuc 6795364578871345151
unix_nano (some t) = t

-- The entry of which the row is made, at the time `now`.
abbrev pub timed : ℤ → HistoryEntry → HistoryEntry
timed now e = record e { time = elim e.time [ none ↦ some now | some t ↦ some t ] }

module _ (json : Json HistoryEntry) (cipher : Cipher) where
  abbrev pub row_of : HistoryEntry → Option Text → Option Text → StoreError ⊎ HistoryRow
  row_of e (some payload) (some id) = inr (record {
    recorded_at_ns = unix_nano e.time;
    connection_id = id;
    payload_enc = payload;
    legacy_source = [];
    legacy_ordinal = pos 0;
  })
  row_of e _ _ = inl encrypt_failed

  -- `encryptedHistoryRow`; the two encryptions draw `draw` and the number after it.
  unfoldable pub encrypted_history_row : ℤ → ℕ → HistoryEntry → Text → StoreError ⊎ HistoryRow
  unfolding is_blank encrypted_id
  encrypted_history_row now draw entry key =
      let e = timed now entry in
      if is_blank key
      then inl key_required
      else row_of e (cipher.encrypt draw (json.encode e) key)
          (encrypted_id cipher (draw + 1) e.connection_id key)

  abbrev pub appended : ℤ → StoreError ⊎ HistoryRow → Db → Option StoreError × Db
  appended now (inl e) db = (some e, db)
  appended now (inr row) db =
      let (r, db') = append_history now row db in
      elim r [ inl e ↦ (some (database e), db') | inr _ ↦ (none, db') ]

  -- `appendSQLiteLocked`.
  unfoldable pub append_sqlite : ℤ → ℕ → HistoryEntry → Text → Db → Option StoreError × Db
  unfolding encrypted_history_row append_history
  append_sqlite now draw entry key db = appended now (encrypted_history_row now draw entry key) db

  abbrev pub check_row : HistoryRow → HistoryEntry → Option Text → StoreError ⊎ HistoryEntry
  check_row row e none = inl id_mismatch
  check_row row e (some id) =
      if not (text_eq id e.connection_id)
      then inl id_mismatch
      else if not (eq_ℤ (unix_nano e.time) row.recorded_at_ns)
      then inl time_mismatch
      else inr e

  abbrev pub decode_entry : HistoryRow → Text → Option HistoryEntry → StoreError ⊎ HistoryEntry
  decode_entry row key none = inl decode_failed
  decode_entry row key (some e) = check_row row e (decrypted_id cipher row.connection_id key)

  abbrev pub decode_plaintext : HistoryRow → Text → Option Text → StoreError ⊎ HistoryEntry
  decode_plaintext row key none = inl decrypt_failed
  decode_plaintext row key (some plaintext) = decode_entry row key (json.decode plaintext)

  -- The body of the loop of `loadSQLiteLocked`, up to its filter.
  unfoldable pub decode_row : Text → HistoryRow → StoreError ⊎ HistoryEntry
  unfolding decrypted_id text_eq
  decode_row key row = decode_plaintext row key (cipher.decrypt row.payload_enc key)

  unfoldable pub decode_rows :
      Text → Text → ℕ → List HistoryEntry → List HistoryRow → StoreError ⊎ List HistoryEntry
  unfolding decode_row keep
  decode_rows key id limit entries [] = inr entries
  decode_rows key id limit entries (row ∷ rows) = elim (decode_row key row) [
    | inl e ↦ inl e
    | inr e ↦
        let skip = not (is_nil id) && not (text_eq e.connection_id id) in
        let next = if skip then entries else keep limit (entries ++ e ∷ []) in
        decode_rows key id limit next rows
  ]

  abbrev pub decoded :
      Text → Text → ℕ → (DbError ⊎ List HistoryRow) × Db → (StoreError ⊎ List HistoryEntry) × Db
  decoded key id limit (inl e, db) = (inl (database e), db)
  decoded key id limit (inr rows, db) = (decode_rows key id limit [] rows, db)

  -- `loadSQLiteLocked`: all rows are read where those of one connection are asked for.
  unfoldable pub load_sqlite : Text → Text → ℤ → Db → (StoreError ⊎ List HistoryEntry) × Db
  unfolding is_blank load_history decode_rows
  load_sqlite key id limit db =
      if is_blank key
      then (inl key_required, db)
      else decoded key id (pos_part limit) (load_history [] (if is_nil id then limit else pos 0) db)
