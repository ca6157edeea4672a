-- ===== src/Database/HistoryTable.antt =====
-- The command history of `DB` (internal/database/database.go).
use nbterminal.Base.{
  ℕ, Bool, true, false, ◌&&◌, ◌||◌, not, Option, none, some, List, [], ◌∷◌, ◌++◌, if◌then◌else◌,
  ltb, take, is_nil, map, reverse, Text, codes, ◌⊎◌, inr, text_eq,
}
use nbterminal.Base.Int.{ℤ, pos, ltb_ℤ, eq_ℤ, pos_part}
use nbterminal.Database.Tx.{
  HistoryRow, StoredHistory, Tables, DbError, row_incomplete, payload_required, Tx, pure, ◌>>=◌,
  ◌>>◌, raise_if, statement, query, exec, step, checked, with_tx,
}
use nbterminal.Database.ConnectionTable.{done, metadata, set_metadata}

abbrev pub history_migration_marker : Text
history_migration_marker = codes "legacy-history-v1"

abbrev pub stored : HistoryRow → Option (Text × ℤ) → StoredHistory
stored r legacy = record {
  recorded_at_ns = r.recorded_at_ns;
  connection_id = r.connection_id;
  payload_enc = r.payload_enc;
  legacy = legacy;
}

-- `INSERT INTO command_history`; the legacy columns stay NULL.
abbrev pub insert_history : ℤ → HistoryRow → Tables → Tables
insert_history at r t = record t {
  history = t.history ++ stored (record r { recorded_at_ns = at }) none ∷ [];
}

-- `AppendHistory` at the time `now`.
unfoldable pub append_history : ℤ → HistoryRow → Tx (Unit {0})
append_history now r = checked (do
  raise_if (is_nil r.payload_enc) payload_required
  let at = if eq_ℤ r.recorded_at_ns (pos 0) then now else r.recorded_at_ns
  exec (insert_history at r))

abbrev pub loaded : StoredHistory → HistoryRow
loaded r = record {
  recorded_at_ns = r.recorded_at_ns;
  connection_id = r.connection_id;
  payload_enc = r.payload_enc;
  legacy_source = [];
  legacy_ordinal = pos 0;
}

-- `WHERE connection_id = ?`, where one is given.
abbrev pub of_connection : Text → List StoredHistory → List StoredHistory
of_connection id [] = []
of_connection id (r ∷ rows) =
    let rest = of_connection id rows in
    if is_nil id || text_eq r.connection_id id then r ∷ rest else rest

-- The newest `limit` rows, `ORDER BY id DESC LIMIT ?` and turned round after it, or all of them.
unfoldable pub select_history : ℕ → List StoredHistory → List HistoryRow
select_history limit rows =
    if ltb 0 limit then reverse (map loaded (take limit (reverse rows))) else map loaded rows

unfoldable pub load_history : Text → ℤ → Tx (List HistoryRow)
unfolding select_history text_eq
load_history id limit =
    checked (query (λ t. select_history (pos_part limit) (of_connection id t.history)))

abbrev pub same_legacy : Text → ℤ → Option (Text × ℤ) → Bool
same_legacy source ordinal none = false
same_legacy source ordinal (some (s, o)) = text_eq s source && eq_ℤ o ordinal

abbrev pub has_legacy : Text → ℤ → List StoredHistory → Bool
has_legacy source ordinal [] = false
has_legacy source ordinal (r ∷ rows) =
    same_legacy source ordinal r.legacy || has_legacy source ordinal rows

-- `INSERT OR IGNORE INTO command_history`, under the unique index on the legacy columns.
abbrev pub insert_or_ignore_history : HistoryRow → Tables → DbError ⊎ (Bool × Tables)
insert_or_ignore_history r t =
    if has_legacy r.legacy_source r.legacy_ordinal t.history
    then inr (false, t)
    else inr (
      true,
      record t { history = t.history ++ stored r (some (r.legacy_source, r.legacy_ordinal)) ∷ [] },
    )

abbrev pub is_incomplete_history : HistoryRow → Bool
is_incomplete_history r =
    is_nil r.payload_enc || is_nil r.legacy_source || not (ltb_ℤ (pos 0) r.legacy_ordinal)

unfoldable pub migrate_history_rows : Bool → List HistoryRow → Tx Bool
unfolding text_eq
migrate_history_rows applied [] = pure applied
migrate_history_rows applied (r ∷ rows) = do
  raise_if (is_incomplete_history r) row_incomplete
  added ← statement (insert_or_ignore_history r)
  migrate_history_rows (applied || added) rows

unfoldable pub migrate_history_tx : List HistoryRow → Tx Bool
unfolding migrate_history_rows set_metadata
migrate_history_tx rows = do
  step
  applied ← migrate_history_rows false rows
  set_metadata history_migration_marker done
  pure applied

unfoldable pub migrate_history : List HistoryRow → Tx Bool
unfolding with_tx migrate_history_tx
migrate_history rows = with_tx (migrate_history_tx rows)

unfoldable pub history_migration_complete : Tx Bool
unfolding metadata text_eq
history_migration_complete = do value ← metadata history_migration_marker; pure (text_eq value done)
