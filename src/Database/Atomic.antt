-- ===== src/Database/Atomic.antt =====
-- Failing operations of internal/database/database.go leave the tables as they were.
use nbterminal.Base.{none, [], ◌∷◌, ◌++◌, ◌≡◌, refl, ◌⊎◌, inl, inr, if-elim, if◌then◌else◌}
use nbterminal.Base.Int.{ℤ, pos, eq_ℤ}
use nbterminal.Database.Tx.{
  HistoryRow, Tables, Db, DbError, not_open, statement_failed, Tx, bind_result, consumed, ◌>>=◌,
  step, checked, next, committed, ended, with_tx,
}
use nbterminal.Database.Ends.{Ends}

module _ {A : Type 0} where
  -- A result, or an error and the same tables.
  abbrev pub IsAtomic : Tables → (DbError ⊎ A) × Db → Type 0
  IsAtomic t (r, db) = ((a : A) × (r ≡ inr a)) ⊎ (db.tables ≡ t)

  committed-IsAtomic :
      (t : Tables) (a : A) (o : (DbError ⊎ Unit {0}) × Db) → IsAtomic t (committed t a o)
  committed-IsAtomic t a (inl e, db) = inr refl
  committed-IsAtomic t a (inr _, db) = inl (a, refl)

  ended-IsAtomic : (t : Tables) (o : (DbError ⊎ A) × Db) → IsAtomic t (ended t o)
  ended-IsAtomic t (inl e, db) = inr refl
  ended-IsAtomic t (inr a, db) = committed-IsAtomic t a (step db)

  checked-IsAtomic :
      (f : Tx A) (db : Db) → IsAtomic db.tables (f db) → IsAtomic db.tables (checked f db)
  checked-IsAtomic f db h =
      if-elim (IsAtomic db.tables) db.is_open (f db) (inl not_open, db) (λ e. h) (λ e. inr refl)

  pub with_tx-IsAtomic : (f : Tx A) (db : Db) → IsAtomic db.tables (with_tx f db)
  unfolding with_tx
  with_tx-IsAtomic f db =
      let rest : Unit {0} → Tx A = λ _ db'. ended db'.tables (f db') in
      checked-IsAtomic (step >>= rest) db (
        if-elim (λ o. IsAtomic db.tables (bind_result o rest)) (next db.failures).0
          (inl statement_failed, consumed db) (inr tt, consumed db) (λ e. inr refl)
          (λ e. ended-IsAtomic db.tables (f (consumed db))))

-- A result and tables with `P`, or an error and the same tables.
abbrev pub Commits : {A : Type 0} → (A → Tables → Type 0) → Tables → (DbError ⊎ A) × Db → Type 0
Commits P t (inl e, db) = db.tables ≡ t
Commits P t (inr a, db) = P a db.tables

-- The history with a new row, which is of the time `now` where it has none.
abbrev pub appended : Tables → ℤ → HistoryRow → Tables
appended t now row = record t {
  history =
      t.history
      ++ record {
        recorded_at_ns = if eq_ℤ row.recorded_at_ns (pos 0) then now else row.recorded_at_ns;
        connection_id = row.connection_id;
        payload_enc = row.payload_enc;
        legacy = none;
      }
        ∷ [];
}
