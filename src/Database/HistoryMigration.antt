-- ===== src/Database/HistoryMigration.antt =====
-- The tables after `MigrateHistory` (internal/database/database.go) that has succeeded.
use nbterminal.Base.{
  or_true, ◌≡◌, refl, sym, ap, ◌∙◌, subst, Bool, true, false, ◌||◌, some, List, [], ◌∷◌, ◌++◌, Text,
  ◌⊎◌, inl, inr, append_assoc, append_nil, All, Bool-cases, text_eq_refl, lookup, lookup-insert,
  ◌+◌, ==_iff,
}
use nbterminal.Base.Int.{ℤ, eq_ℤ, pos_part, neg_part}
use nbterminal.Database.Tx.{
  HistoryRow, StoredHistory, Tables, Db, DbError, row_incomplete, Tx, pure, statement, exec, step,
  raise_if, ◌>>=◌, ◌>>◌,
}
use nbterminal.Database.ConnectionTable.{done, put, set_metadata}
use nbterminal.Database.HistoryTable.{
  history_migration_marker, stored, has_legacy, same_legacy, insert_or_ignore_history,
  is_incomplete_history, migrate_history_rows, migrate_history_tx,
}
use nbterminal.Database.Ends.{Ends, Ends-bind, statement-Ends, exec-Ends, raise-Ends}
use nbterminal.Database.Written.{tables_of, Same}

abbrev with_history : Tables → List StoredHistory → Tables
with_history t rows = record t { history = rows }

-- A row of the file, by the file and its place there.
abbrev pub IsThere : List StoredHistory → HistoryRow → Type 0
IsThere rows r = has_legacy r.legacy_source r.legacy_ordinal rows ≡ true

eq_ℤ_self : (a : ℤ) → eq_ℤ a a ≡ true
eq_ℤ_self a = (==_iff (pos_part a + neg_part a) (pos_part a + neg_part a)).1 refl

same_legacy_self : (s : Text) (o : ℤ) → same_legacy s o (some (s, o)) ≡ true
same_legacy_self s o = rw (text_eq_refl s) (eq_ℤ_self o)

IsThere-append :
    (rows more : List StoredHistory) (r : HistoryRow) → IsThere rows r → IsThere (rows ++ more) r
IsThere-append [] more r h = cc
IsThere-append (x ∷ rows) more r h =
    elim (Bool-cases (same_legacy r.legacy_source r.legacy_ordinal x.legacy)) [
      | inl e ↦ rw e refl
      | inr e ↦ rw e (IsThere-append rows more r (rw e at h))
    ]

IsThere-last :
    (rows : List StoredHistory) (r : HistoryRow)
    → IsThere (rows ++ stored r (some (r.legacy_source, r.legacy_ordinal)) ∷ []) r
IsThere-last [] r = rw (same_legacy_self r.legacy_source r.legacy_ordinal) refl
IsThere-last (x ∷ rows) r =
    rw (IsThere-last rows r) (or_true (same_legacy r.legacy_source r.legacy_ordinal x.legacy))

-- Rows were added behind the old ones, and the row is there.
abbrev Grown : HistoryRow → Tables → Tables → Type 0
Grown r t u =
    (more : List StoredHistory) × (u ≡ with_history t (t.history ++ more))
    × IsThere (t.history ++ more) r

insert_or_ignore-Grown :
    (r : HistoryRow) (t : Tables) (a : Bool) (u : Tables)
    → insert_or_ignore_history r t ≡ inr (a, u)
    → Grown r t u
insert_or_ignore-Grown r t a u q =
    elim (Bool-cases (has_legacy r.legacy_source r.legacy_ordinal t.history)) [
      | inl n ↦
          let z = rw n at q in
          (
            [],
            sym (ap (tables_of t) z) ∙ ap (with_history t) (sym (append_nil t.history)),
            IsThere-append t.history [] r n,
          )
      | inr n ↦
          let z = rw n at q in
          (
            stored r (some (r.legacy_source, r.legacy_ordinal)) ∷ [],
            sym (ap (tables_of t) z),
            IsThere-last t.history r,
          )
    ]

abbrev HasAll : Tables → List HistoryRow → Tables → Type 0
HasAll t rows u =
    (more : List StoredHistory) × (u ≡ with_history t (t.history ++ more))
    × All (IsThere (t.history ++ more)) rows

HasAll-cons :
    (r : HistoryRow) (rows : List HistoryRow) (t u v : Tables)
    → Grown r t u
    → HasAll u rows v
    → HasAll t (r ∷ rows) v
HasAll-cons r rows t u v (m, e, h) (n, f, k) =
    let l = t.history ++ m in
    let k' =
      subst (λ c. All (IsThere (c ++ n)) rows) {x = u.history} {y = l} (ap (λ x. x.history) e) k in
    (
      m ++ n,
      f
          ∙ ap (λ x. with_history x (x.history ++ n)) e
          ∙ ap (with_history t) (append_assoc t.history m n),
      subst (λ c. All (IsThere c) (r ∷ rows)) (append_assoc t.history m n)
          (IsThere-append l n r h, k'),
    )

migrate_rows-Ends :
    (rows : List HistoryRow) (applied : Bool) (t : Tables) (db : Db)
    → db.tables ≡ t
    → Ends (λ _ u. HasAll t rows u) (migrate_history_rows applied rows db)
unfolding migrate_history_rows
migrate_rows-Ends [] applied t db e = ([], e ∙ ap (with_history t) (sym (append_nil t.history)), tt)
migrate_rows-Ends (r ∷ rows) applied t db e =
    let Q : Bool → Tables → Type 0 = λ _ u. HasAll t (r ∷ rows) u in
    let add = statement (insert_or_ignore_history r) in
    Ends-bind (Same t) Q (λ _. add >>= λ added. migrate_history_rows (applied || added) rows)
      (raise_if (is_incomplete_history r) row_incomplete db)
      (raise-Ends (Same t) (is_incomplete_history r) row_incomplete db e)
      (λ _ db1 e1.
        Ends-bind (λ _ u. Grown r t u) Q (λ added. migrate_history_rows (applied || added) rows)
          (add db1)
          (statement-Ends (λ _ u. Grown r t u) (insert_or_ignore_history r) db1
            (λ a u q. subst (λ x. Grown r x u) e1 (insert_or_ignore-Grown r db1.tables a u q)))
          (λ added db2 g.
            mapped r t db2.tables g (migrate_history_rows (applied || added) rows db2)
              (migrate_rows-Ends rows (applied || added) db2.tables db2 refl)))
  where
    mapped :
        (r : HistoryRow) (t u : Tables)
        → Grown r t u
        → (o : (DbError ⊎ Bool) × Db) → Ends (λ _ v. HasAll u rows v) o
        → Ends (λ _ v. HasAll t (r ∷ rows) v) o
    mapped r t u g (inl x, db) h = tt
    mapped r t u g (inr x, db) h = HasAll-cons r rows t u db.tables g h

-- What `MigrateHistory` leaves: the old history in its place, the migrated rows that were not there
-- behind it, each of them present, the connections as they were, and the mark of the migration.
abbrev pub IsHistoryMigrated : Tables → List HistoryRow → Tables → Type 0
IsHistoryMigrated t rows u =
    (more : List StoredHistory) × (u.history ≡ t.history ++ more)
    × All (IsThere u.history) rows
    × (u.connections ≡ t.connections)
    × (lookup history_migration_marker u.metadata ≡ some done)

pub migrate_history-Ends :
    (rows : List HistoryRow) (t : Tables) (db : Db)
    → db.tables ≡ t
    → Ends (λ _ u. IsHistoryMigrated t rows u) (migrate_history_tx rows db)
unfolding migrate_history_tx set_metadata
migrate_history-Ends rows t db e =
    let Q : Bool → Tables → Type 0 = λ _ u. IsHistoryMigrated t rows u in
    let mark = exec (put history_migration_marker done) in
    let end : Bool → Tx Bool = λ applied. mark >> pure applied in
    Ends-bind (Same t) Q (λ _. migrate_history_rows false rows >>= end) (step db)
      (exec-Ends (Same t) (λ x. x) db e)
      (λ _ db1 e1.
        Ends-bind (λ _ u. HasAll t rows u) Q end (migrate_history_rows false rows db1)
          (migrate_rows-Ends rows false t db1 e1)
          (λ applied db2 (more, f, h).
            let b = ap (λ x. x.history) f in
            Ends-bind (λ _ u. IsHistoryMigrated t rows u) Q (λ _. pure applied) (mark db2)
              (exec-Ends (λ _ u. IsHistoryMigrated t rows u) (put history_migration_marker done) db2
                (
                  more,
                  b,
                  subst (λ l. All (IsThere l) rows) (sym b) h,
                  ap (λ x. x.connections) f,
                  lookup-insert history_migration_marker done db2.tables.metadata,
                ))
              (λ _ db3 k. k)))
