-- ===== src/Database/Migrations.antt =====
-- The tables after a migration of internal/database/database.go that has succeeded.
use nbterminal.Base.{
  or_true, ◌≡◌, refl, sym, ap, ◌∙◌, subst, Bool, true, false, ◌&&◌, ◌||◌, not, some, List, [], ◌∷◌,
  ◌++◌, Text, ◌⊎◌, inl, inr, is_nil, append_assoc, append_nil, All, Bool-cases, text_eq,
  text_eq_refl, if◌then◌else◌, if-elim, lookup, lookup-insert,
}
use nbterminal.Base.Int.{ℤ}
use nbterminal.Database.Tx.{
  ConnectionRow, Tables, Db, DbError, row_incomplete, Tx, pure, statement, query, exec, step,
  raise_if, ◌>>=◌, ◌>>◌,
}
use nbterminal.Database.ConnectionTable.{
  connection_migration_marker, active_connection_metadata_key, done, metadata, put, set_metadata,
  has_id, is_incomplete, max_position, moved_by, insert_or_ignore_connection, migrate_rows,
  migrate_active, migrate_tx, or_nil,
}
use nbterminal.Database.Ends.{Ends, Ends-bind, statement-Ends, query-Ends, exec-Ends, raise-Ends}
use nbterminal.Database.Written.{tables_of, Same, with_connections}

has_id-append :
    (id : Text) (rows more : List ConnectionRow)
    → has_id id rows ≡ true
    → has_id id (rows ++ more) ≡ true
has_id-append id [] more h = cc
has_id-append id (r ∷ rows) more h = elim (Bool-cases (text_eq r.id id)) [
  | inl e ↦ rw e refl
  | inr e ↦ rw e (has_id-append id rows more (rw e at h))
]

has_id-last : (r : ConnectionRow) (rows : List ConnectionRow) → has_id r.id (rows ++ r ∷ []) ≡ true
has_id-last r [] = rw (text_eq_refl r.id) refl
has_id-last r (s ∷ rows) = rw (has_id-last r rows) (or_true (text_eq s.id r.id))

-- Rows were added behind the old ones, and one has the identity.
abbrev Grown : Text → Tables → Tables → Type 0
Grown id t u =
    (more : List ConnectionRow) × (u ≡ with_connections t (t.connections ++ more))
    × (has_id id (t.connections ++ more) ≡ true)

insert_or_ignore-Grown :
    (r : ConnectionRow) (t : Tables) (a : Bool) (u : Tables)
    → insert_or_ignore_connection r t ≡ inr (a, u)
    → Grown r.id t u
insert_or_ignore-Grown r t a u q = elim (Bool-cases (has_id r.id t.connections)) [
  | inl n ↦
      let z = rw n at q in
      (
        [],
        sym (ap (tables_of t) z) ∙ ap (with_connections t) (sym (append_nil t.connections)),
        has_id-append r.id t.connections [] n,
      )
  | inr n ↦ let z = rw n at q in (r ∷ [], sym (ap (tables_of t) z), has_id-last r t.connections)
]

-- The rows were added behind the old ones, and each identity is there.
abbrev HasAll : Tables → List ConnectionRow → Tables → Type 0
HasAll t rows u =
    (more : List ConnectionRow) × (u ≡ with_connections t (t.connections ++ more))
    × All (λ r. has_id r.id (t.connections ++ more) ≡ true) rows

HasAll-cons :
    (r : ConnectionRow) (rows : List ConnectionRow) (t u v : Tables)
    → Grown r.id t u
    → HasAll u rows v
    → HasAll t (r ∷ rows) v
HasAll-cons r rows t u v (m, e, h) (n, f, k) =
    let l = t.connections ++ m in
    let same = ap (λ x. x.connections) e in
    let k' =
      subst (λ c. All (λ s. has_id s.id (c ++ n) ≡ true) rows) {x = u.connections} {y = l} same k in
    (
      m ++ n,
      f
          ∙ ap (λ x. with_connections x (x.connections ++ n)) e
          ∙ ap (with_connections t) (append_assoc t.connections m n),
      subst (λ c. All (λ s. has_id s.id c ≡ true) (r ∷ rows)) (append_assoc t.connections m n)
          (has_id-append r.id l n h, k'),
    )

migrate_rows-Ends :
    (rows : List ConnectionRow) (base : ℤ) (applied : Bool) (t : Tables) (db : Db)
    → db.tables ≡ t
    → Ends (λ _ u. HasAll t rows u) (migrate_rows base applied rows db)
unfolding migrate_rows
migrate_rows-Ends [] base applied t db e =
    ([], e ∙ ap (with_connections t) (sym (append_nil t.connections)), tt)
migrate_rows-Ends (r ∷ rows) base applied t db e =
    let Q : Bool → Tables → Type 0 = λ _ u. HasAll t (r ∷ rows) u in
    let add = statement (insert_or_ignore_connection (moved_by base r)) in
    Ends-bind (Same t) Q (λ _. add >>= λ added. migrate_rows base (applied || added) rows)
      (raise_if (is_incomplete r) row_incomplete db)
      (raise-Ends (Same t) (is_incomplete r) row_incomplete db e)
      (λ _ db1 e1.
        Ends-bind (λ _ u. Grown r.id t u) Q (λ added. migrate_rows base (applied || added) rows)
          (add db1)
          (statement-Ends (λ _ u. Grown r.id t u) (insert_or_ignore_connection (moved_by base r))
            db1
            (λ a u q.
              subst (λ x. Grown r.id x u) e1
                (insert_or_ignore-Grown (moved_by base r) db1.tables a u q)))
          (λ added db2 g.
            mapped r t db2.tables g (migrate_rows base (applied || added) rows db2)
              (migrate_rows-Ends rows base (applied || added) db2.tables db2 refl)))
  where
    mapped :
        (r : ConnectionRow) (t u : Tables)
        → Grown r.id t u
        → (o : (DbError ⊎ Bool) × Db) → Ends (λ _ v. HasAll u rows v) o
        → Ends (λ _ v. HasAll t (r ∷ rows) v) o
    mapped r t u g (inl x, db) h = tt
    mapped r t u g (inr x, db) h = HasAll-cons r rows t u db.tables g h

-- What `MigrateConnections` leaves: the old connections in their place, the migrated ones that were
-- not there behind them, each identity present, the history as it was, and the mark of the migration.
abbrev pub IsMigrated : Tables → List ConnectionRow → Tables → Type 0
IsMigrated t rows u =
    (more : List ConnectionRow) × (u.connections ≡ t.connections ++ more)
    × All (λ r. has_id r.id u.connections ≡ true) rows
    × (u.history ≡ t.history)
    × (lookup connection_migration_marker u.metadata ≡ some done)

-- Only the metadata differ.
abbrev Kept : Tables → Tables → Type 0
Kept t u = (u.connections ≡ t.connections) × (u.history ≡ t.history)

migrate_active-Ends :
    (active_id : Text) (t : Tables) (db : Db)
    → db.tables ≡ t
    → Ends (λ _ u. Kept t u) (migrate_active active_id db)
unfolding migrate_active metadata set_metadata
migrate_active-Ends active_id t db e =
    let write = exec (put active_connection_metadata_key active_id) in
    let next : Text → Tx (Unit {0}) =
      λ current. if is_nil current && not (is_nil active_id) then write else pure tt in
    Ends-bind (Same t) (λ _ u. Kept t u) next
      (query (λ t. or_nil (lookup active_connection_metadata_key t.metadata)) db)
      (query-Ends (Same t) (λ t. or_nil (lookup active_connection_metadata_key t.metadata)) db e)
      (λ current db1 e1.
        if-elim (λ (m : Tx (Unit {0})). Ends (λ _ u. Kept t u) (m db1))
          (is_nil current && not (is_nil active_id)) write (pure tt)
          (λ _.
            exec-Ends (λ _ u. Kept t u) (put active_connection_metadata_key active_id) db1
              (ap (λ x. x.connections) e1, ap (λ x. x.history) e1))
          (λ _. (ap (λ x. x.connections) e1, ap (λ x. x.history) e1)))

pub migrate-Ends :
    (rows : List ConnectionRow) (active_id : Text) (t : Tables) (db : Db)
    → db.tables ≡ t
    → Ends (λ _ u. IsMigrated t rows u) (migrate_tx rows active_id db)
unfolding migrate_tx set_metadata
migrate-Ends rows active_id t db e =
    let Q : Bool → Tables → Type 0 = λ _ u. IsMigrated t rows u in
    let mark = exec (put connection_migration_marker done) in
    let end : Bool → Tx Bool = λ applied. migrate_active active_id >> (mark >> pure applied) in
    let from : ℤ → Tx Bool = λ base. migrate_rows base false rows >>= end in
    Ends-bind (Same t) Q (λ _. query (λ x. max_position x.connections) >>= from) (step db)
      (exec-Ends (Same t) (λ x. x) db e)
      (λ _ db1 e1.
        Ends-bind (Same t) Q from (query (λ x. max_position x.connections) db1)
          (query-Ends (Same t) (λ x. max_position x.connections) db1 e1)
          (λ base db2 e2.
            Ends-bind (λ _ u. HasAll t rows u) Q end (migrate_rows base false rows db2)
              (migrate_rows-Ends rows base false t db2 e2)
              (λ applied db3 (more, f, h).
                let b = ap (λ x. x.history) f in
                let a = ap (λ x. x.connections) f in
                Ends-bind (λ _ u. Kept db3.tables u) Q (λ _. mark >> pure applied)
                  (migrate_active active_id db3) (migrate_active-Ends active_id db3.tables db3 refl)
                  (λ _ db4 (c, d).
                    Ends-bind (λ _ u. IsMigrated t rows u) Q (λ _. pure applied) (mark db4)
                      (exec-Ends (λ _ u. IsMigrated t rows u) (put connection_migration_marker done)
                        db4
                        (
                          more,
                          c ∙ a,
                          subst (λ l. All (λ r. has_id r.id l ≡ true) rows) (sym (c ∙ a)) h,
                          d ∙ b,
                          lookup-insert connection_migration_marker done db4.tables.metadata,
                        ))
                      (λ _ db5 k. k)))))
