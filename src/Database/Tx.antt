-- ===== src/Database/Tx.antt =====
-- Statements and transactions on the tables of internal/database/database.go. SQLite is not of this
-- repository: a statement is what its text says of the tables, it fails when the next failure of a
-- list says so, and a transaction that is rolled back leaves the tables as they were.
use nbterminal.Base.{Bool, true, false, Option, List, [], ◌∷◌, Text, ◌⊎◌, inl, inr, if◌then◌else◌}
use nbterminal.Base.Int.{ℤ}

pub record ConnectionRow : Type 0 where
  pub id : Text
  pub payload_enc : Text
  pub position : ℤ

pub record HistoryRow : Type 0 where
  pub recorded_at_ns : ℤ
  pub connection_id : Text
  pub payload_enc : Text
  pub legacy_source : Text
  pub legacy_ordinal : ℤ

-- A row of `command_history`, in the order of its `id`; `none` where the legacy columns are NULL.
pub record StoredHistory : Type 0 where
  pub recorded_at_ns : ℤ
  pub connection_id : Text
  pub payload_enc : Text
  pub legacy : Option (Text × ℤ)

-- `app_metadata`, `connections` without `updated_at_ns`, which is never read, and `command_history`.
pub record Tables : Type 0 where
  pub metadata : List (Text × Text)
  pub connections : List ConnectionRow
  pub history : List StoredHistory

-- `DB`: whether it is there and open, which of the next statements fail, and the tables.
pub record Db : Type 0 where
  pub is_open : Bool
  pub failures : List Bool
  pub tables : Tables

pub data DbError : Type 0 where
  not_open statement_failed constraint_failed row_incomplete payload_required : DbError

abbrev pub Tx : Type 0 → Type 0
Tx A = Db → (DbError ⊎ A) × Db

module _ {A : Type 0} where
  abbrev pub pure : A → Tx A
  pure a db = (inr a, db)

  abbrev pub raise : DbError → Tx A
  raise e db = (inl e, db)

abbrev pub bind_result : {A B : Type 0} → (DbError ⊎ A) × Db → (A → Tx B) → (DbError ⊎ B) × Db
bind_result (inl e, db) f = (inl e, db)
bind_result (inr a, db) f = f a db

infixl 5 ◌>>=◌ ◌>>◌
abbrev pub ◌>>=◌ : {A B : Type 0} → Tx A → (A → Tx B) → Tx B
◌>>=◌ m f db = bind_result (m db) f

abbrev pub ◌>>◌ : {A B : Type 0} → Tx A → Tx B → Tx B
m >> k = m >>= λ _. k

abbrev pub raise_if : Bool → DbError → Tx (Unit {0})
raise_if true e = raise e
raise_if false e = pure tt

-- The next failure, and those that follow.
abbrev pub next : List Bool → Bool × List Bool
next [] = (false, [])
next (b ∷ bs) = (b, bs)

abbrev pub consumed : Db → Db
consumed db = record db { failures = (next db.failures).1 }

abbrev pub executed : {A : Type 0} → Db → DbError ⊎ (A × Tables) → (DbError ⊎ A) × Db
executed db (inl e) = (inl e, db)
executed db (inr (a, tables)) = (inr a, record db { tables = tables })

-- A statement, with what it does to the tables.
abbrev pub statement : {A : Type 0} → (Tables → DbError ⊎ (A × Tables)) → Tx A
statement f db =
    if (next db.failures).0
    then (inl statement_failed, consumed db)
    else executed (consumed db) (f db.tables)

abbrev pub query : {A : Type 0} → (Tables → A) → Tx A
query f = statement (λ t. inr (f t, t))

abbrev pub exec : (Tables → Tables) → Tx (Unit {0})
exec f = statement (λ t. inr (tt, f t))

-- `BeginTx`, `PrepareContext` and `Commit` do nothing to the tables.
abbrev pub step : Tx (Unit {0})
step = exec (λ t. t)

abbrev pub checked : {A : Type 0} → Tx A → Tx A
checked f db = if db.is_open then f db else (inl not_open, db)

-- The end of a transaction that began with `tables`.
abbrev pub committed : {A : Type 0} → Tables → A → (DbError ⊎ Unit {0}) × Db → (DbError ⊎ A) × Db
committed tables a (inl e, db) = (inl e, record db { tables = tables })
committed tables a (inr _, db) = (inr a, db)

abbrev pub ended : {A : Type 0} → Tables → (DbError ⊎ A) × Db → (DbError ⊎ A) × Db
ended tables (inl e, db) = (inl e, record db { tables = tables })
ended tables (inr a, db) = committed tables a (step db)

-- `withTx`.
unfoldable pub with_tx : {A : Type 0} → Tx A → Tx A
with_tx f = checked (step >> λ db. ended db.tables (f db))
