-- ===== src/Database/ConnectionTable.antt =====
-- The connections and the metadata of `DB` (internal/database/database.go).
use nbterminal.Base.{
  Bool, true, false, ◌&&◌, ◌||◌, not, Option, none, some, List, [], ◌∷◌, ◌++◌, if◌then◌else◌, ltb,
  ◌==◌, is_nil, Text, codes, ◌⊎◌, inl, inr, text_eq, lookup, insert,
}
use nbterminal.Base.Int.{ℤ, pos, negsuc, ◌+ℤ◌, ltb_ℤ, eq_ℤ}
use nbterminal.Database.Tx.{
  ConnectionRow, Tables, DbError, constraint_failed, row_incomplete, Tx, pure, ◌>>=◌, ◌>>◌,
  raise_if, statement, query, exec, step, checked, with_tx,
}

abbrev pub connection_migration_marker : Text
connection_migration_marker = codes "legacy-connections-v1"

abbrev pub active_connection_metadata_key : Text
active_connection_metadata_key = codes "active_connection_id"

abbrev pub done : Text
done = codes "done"

abbrev pub or_nil : Option Text → Text
or_nil none = []
or_nil (some s) = s

-- `SELECT value FROM app_metadata WHERE key = ?`, "" where there is no row.
unfoldable pub metadata : Text → Tx Text
unfolding lookup
metadata key = query (λ t. or_nil (lookup key t.metadata))

-- `INSERT INTO app_metadata ... ON CONFLICT(key) DO UPDATE`.
abbrev pub put : Text → Text → Tables → Tables
put key value t = record t { metadata = insert key value t.metadata }

unfoldable pub set_metadata : Text → Text → Tx (Unit {0})
unfolding insert
set_metadata key value = exec (put key value)

-- The order of SQLite on texts.
unfoldable pub text_lt : Text → Text → Bool
text_lt [] [] = false
text_lt [] (b ∷ t) = true
text_lt (a ∷ s) [] = false
text_lt (a ∷ s) (b ∷ t) = let rest = text_lt s t in if ltb a b then true else a == b && rest

-- `ORDER BY position, id`.
abbrev pub row_before : ConnectionRow → ConnectionRow → Bool
row_before r s = ltb_ℤ r.position s.position || (eq_ℤ r.position s.position && text_lt r.id s.id)

unfoldable pub insert_ordered : ConnectionRow → List ConnectionRow → List ConnectionRow
unfolding text_lt
insert_ordered r [] = r ∷ []
insert_ordered r (s ∷ rows) =
    let rest = insert_ordered r rows in if row_before s r then s ∷ rest else r ∷ s ∷ rows

unfoldable pub ordered : List ConnectionRow → List ConnectionRow
unfolding insert_ordered
ordered [] = []
ordered (r ∷ rows) = insert_ordered r (ordered rows)

unfoldable pub load_connections : Tx (List ConnectionRow × Text)
unfolding ordered metadata
load_connections = checked (do
  rows ← query (λ t. ordered t.connections)
  active ← metadata active_connection_metadata_key
  pure (rows, active))

abbrev pub has_id : Text → List ConnectionRow → Bool
has_id id [] = false
has_id id (r ∷ rows) = text_eq r.id id || has_id id rows

-- `INSERT INTO connections`: `id` is the primary key.
abbrev pub insert_connection : ConnectionRow → Tables → DbError ⊎ (Unit {0} × Tables)
insert_connection r t =
    if has_id r.id t.connections
    then inl constraint_failed
    else inr (tt, record t { connections = t.connections ++ r ∷ [] })

abbrev pub is_incomplete : ConnectionRow → Bool
is_incomplete r = is_nil r.id || is_nil r.payload_enc

unfoldable pub insert_connections : List ConnectionRow → Tx (Unit {0})
unfolding text_eq
insert_connections [] = pure tt
insert_connections (r ∷ rows) = do
  raise_if (is_incomplete r) row_incomplete
  statement (insert_connection r)
  insert_connections rows

-- The functions that the operations pass to `withTx` are named `..._tx`.
unfoldable pub save_tx : List ConnectionRow → Text → Tx (Unit {0})
unfolding insert_connections set_metadata
save_tx rows active_id = do
  exec (λ t. record t { connections = [] })
  step
  insert_connections rows
  set_metadata active_connection_metadata_key active_id

unfoldable pub save_connections : List ConnectionRow → Text → Tx (Unit {0})
unfolding with_tx save_tx
save_connections rows active_id = with_tx (save_tx rows active_id)

unfoldable pub set_active_connection : Text → Tx (Unit {0})
unfolding set_metadata
set_active_connection active_id = checked (set_metadata active_connection_metadata_key active_id)

abbrev pub max_ℤ : ℤ → ℤ → ℤ
max_ℤ a b = if ltb_ℤ a b then b else a

-- `COALESCE(MAX(position), -1)`.
abbrev pub max_position : List ConnectionRow → ℤ
max_position [] = negsuc 0
max_position (r ∷ []) = r.position
max_position (r ∷ s ∷ rows) = max_ℤ r.position (max_position (s ∷ rows))

abbrev pub moved_by : ℤ → ConnectionRow → ConnectionRow
moved_by base r = record r { position = base +ℤ pos 1 +ℤ r.position }

-- `INSERT OR IGNORE INTO connections`, with whether it has added a row.
abbrev pub insert_or_ignore_connection : ConnectionRow → Tables → DbError ⊎ (Bool × Tables)
insert_or_ignore_connection r t =
    if has_id r.id t.connections
    then inr (false, t)
    else inr (true, record t { connections = t.connections ++ r ∷ [] })

unfoldable pub migrate_rows : ℤ → Bool → List ConnectionRow → Tx Bool
unfolding text_eq ◌+ℤ◌
migrate_rows base applied [] = pure applied
migrate_rows base applied (r ∷ rows) = do
  raise_if (is_incomplete r) row_incomplete
  added ← statement (insert_or_ignore_connection (moved_by base r))
  migrate_rows base (applied || added) rows

-- The active connection is set where there is none.
unfoldable pub migrate_active : Text → Tx (Unit {0})
unfolding metadata set_metadata
migrate_active active_id = do
  current ← metadata active_connection_metadata_key
  if is_nil current && not (is_nil active_id)
      then set_metadata active_connection_metadata_key active_id
      else pure tt

unfoldable pub migrate_tx : List ConnectionRow → Text → Tx Bool
unfolding migrate_rows migrate_active set_metadata
migrate_tx rows active_id = do
  step
  base ← query (λ t. max_position t.connections)
  applied ← migrate_rows base false rows
  migrate_active active_id
  set_metadata connection_migration_marker done
  pure applied

unfoldable pub migrate_connections : List ConnectionRow → Text → Tx Bool
unfolding with_tx migrate_tx
migrate_connections rows active_id = with_tx (migrate_tx rows active_id)

unfoldable pub connections_migration_complete : Tx Bool
unfolding metadata text_eq
connections_migration_complete = do
  value ← metadata connection_migration_marker
  pure (text_eq value done)
