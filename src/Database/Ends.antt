-- ===== src/Database/Ends.antt =====
-- What operations of internal/database/database.go leave where they succeed, statement by statement.
use nbterminal.Base.{◌≡◌, refl, Bool, true, false, ◌⊎◌, inl, inr, if-elim}
use nbterminal.Database.Tx.{
  Tables, Db, DbError, not_open, statement_failed, Tx, bind_result, consumed, executed, next,
  statement, query, exec, step, checked, committed, ended, raise_if, with_tx, ◌>>=◌,
}

-- An operation that succeeds leaves tables with `P`.
abbrev pub Ends : {A : Type 0} → (A → Tables → Type 0) → (DbError ⊎ A) × Db → Type 0
Ends P (inl e, db) = Unit
Ends P (inr a, db) = P a db.tables

module _ {A : Type 0} where
  pub Ends-bind :
      {B : Type 0} (P : A → Tables → Type 0) (Q : B → Tables → Type 0) (f : A → Tx B)
      → (o : (DbError ⊎ A) × Db) → Ends P o
      → ((a : A) (db : Db) → P a db.tables → Ends Q (f a db))
      → Ends Q (bind_result o f)
  Ends-bind P Q f (inl e, db) h g = tt
  Ends-bind P Q f (inr a, db) h g = g a db h

  executed-Ends :
      (P : A → Tables → Type 0) (db : Db) (r : DbError ⊎ (A × Tables))
      → ((a : A) (t : Tables) → r ≡ inr (a, t) → P a t)
      → Ends P (executed db r)
  executed-Ends P db (inl e) h = tt
  executed-Ends P db (inr (a, t)) h = h a t refl

  pub statement-Ends :
      (P : A → Tables → Type 0) (f : Tables → DbError ⊎ (A × Tables)) (db : Db)
      → ((a : A) (t : Tables) → f db.tables ≡ inr (a, t) → P a t)
      → Ends P (statement f db)
  statement-Ends P f db h =
      if-elim (Ends P) (next db.failures).0 (inl statement_failed, consumed db)
        (executed (consumed db) (f db.tables)) (λ e. tt)
        (λ e. executed-Ends P (consumed db) (f db.tables) h)

  pub query-Ends :
      (P : A → Tables → Type 0) (f : Tables → A) (db : Db)
      → P (f db.tables) db.tables
      → Ends P (query f db)
  query-Ends P f db h =
      if-elim (Ends P) (next db.failures).0 (inl statement_failed, consumed db)
        (inr (f db.tables), consumed db) (λ e. tt) (λ e. h)

  pub checked-Ends :
      (P : A → Tables → Type 0) (f : Tx A) (db : Db) → Ends P (f db) → Ends P (checked f db)
  checked-Ends P f db h = if-elim (Ends P) db.is_open (f db) (inl not_open, db) (λ e. h) (λ e. tt)

  committed-Ends :
      (P : A → Tables → Type 0) (t : Tables) (a : A) (db : Db)
      → P a db.tables
      → Ends P (committed t a (step db))
  committed-Ends P t a db h =
      if-elim (λ o. Ends P (committed t a o)) (next db.failures).0
        (inl statement_failed, consumed db) (inr tt, consumed db) (λ e. tt) (λ e. h)

  ended-Ends :
      (P : A → Tables → Type 0) (t : Tables) (o : (DbError ⊎ A) × Db)
      → Ends P o
      → Ends P (ended t o)
  ended-Ends P t (inl e, db) h = tt
  ended-Ends P t (inr a, db) h = committed-Ends P t a db h

pub exec-Ends :
    (P : Unit {0} → Tables → Type 0) (f : Tables → Tables) (db : Db)
    → P tt (f db.tables)
    → Ends P (exec f db)
exec-Ends P f db h =
    if-elim (Ends P) (next db.failures).0 (inl statement_failed, consumed db)
      (inr tt, record (consumed db) { tables = f db.tables }) (λ e. tt) (λ e. h)

pub raise-Ends :
    (P : Unit {0} → Tables → Type 0) (b : Bool) (e : DbError) (db : Db)
    → P tt db.tables
    → Ends P (raise_if b e db)
raise-Ends P true e db h = tt
raise-Ends P false e db h = h

pub with_tx-Ends :
    {A : Type 0} (P : A → Tables → Type 0) (f : Tx A) (db : Db)
    → ((db' : Db) → db'.tables ≡ db.tables → Ends P (f db'))
    → Ends P (with_tx f db)
unfolding with_tx
with_tx-Ends P f db h =
    let rest : Unit {0} → Tx _ = λ _ db'. ended db'.tables (f db') in
    checked-Ends P (step >>= rest) db (
      Ends-bind (λ _ t. t ≡ db.tables) P rest (step db)
        (exec-Ends (λ _ t. t ≡ db.tables) (λ t. t) db refl)
        (λ _ db' e. ended-Ends P db'.tables (f db') (h db' e)))
