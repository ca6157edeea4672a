-- ===== src/Database/Written.antt =====
-- The tables after an operation of internal/database/database.go that has succeeded.
use nbterminal.Base.{
  ◌≡◌, sym, ap, ◌∙◌, subst, List, [], ◌∷◌, ◌++◌, Text, ◌⊎◌, inl, inr, append_assoc, append_nil,
  Bool-cases, insert,
}
use nbterminal.Database.Tx.{
  ConnectionRow, Tables, Db, DbError, row_incomplete, statement, exec, step, raise_if, ◌>>◌,
}
use nbterminal.Database.ConnectionTable.{
  active_connection_metadata_key, put, set_metadata, has_id, insert_connection, is_incomplete,
  insert_connections, save_tx,
}
use nbterminal.Database.Ends.{Ends, Ends-bind, statement-Ends, exec-Ends, raise-Ends}

-- The tables in the result of a statement.
abbrev pub tables_of : {A : Type 0} → Tables → DbError ⊎ (A × Tables) → Tables
tables_of t (inl e) = t
tables_of t (inr (a, u)) = u

-- The same tables, before anything is written.
abbrev pub Same : {A : Type 0} → Tables → A → Tables → Type 0
Same t a u = u ≡ t

abbrev pub with_connections : Tables → List ConnectionRow → Tables
with_connections t rows = record t { connections = rows }

inserted :
    (r : ConnectionRow) (t : Tables) (a : Unit {0}) (u : Tables)
    → insert_connection r t ≡ inr (a, u)
    → u ≡ with_connections t (t.connections ++ r ∷ [])
inserted r t a u q = elim (Bool-cases (has_id r.id t.connections)) [
  | inl n ↦ let z = rw n at q in cc
  | inr n ↦ let z = rw n at q in sym (ap (tables_of t) z)
]

insert_connections-Ends :
    (rows : List ConnectionRow) (t : Tables) (db : Db)
    → db.tables ≡ t
    → Ends (λ _ u. u ≡ with_connections t (t.connections ++ rows)) (insert_connections rows db)
unfolding insert_connections
insert_connections-Ends [] t db e = e ∙ ap (with_connections t) (sym (append_nil t.connections))
insert_connections-Ends (r ∷ rows) t db e =
    let t' = with_connections t (t.connections ++ r ∷ []) in
    Ends-bind (Same t) (λ _ u. u ≡ with_connections t (t.connections ++ r ∷ rows))
      (λ _. statement (insert_connection r) >> insert_connections rows)
      (raise_if (is_incomplete r) row_incomplete db)
      (raise-Ends (Same t) (is_incomplete r) row_incomplete db e)
      (λ _ db1 e1.
        Ends-bind (Same t') (λ _ u. u ≡ with_connections t (t.connections ++ r ∷ rows))
          (λ _. insert_connections rows) (statement (insert_connection r) db1)
          (statement-Ends (Same t') (insert_connection r) db1 (λ a u q.
            inserted r db1.tables a u q
            ∙ ap (λ x. with_connections x (x.connections ++ r ∷ [])) e1))
          (λ _ db2 e2.
            subst (λ l. Ends (λ _ u. u ≡ with_connections t l) (insert_connections rows db2))
              (append_assoc t.connections (r ∷ []) rows) (insert_connections-Ends rows t' db2 e2)))

-- What `SaveConnections` writes.
abbrev pub saved_tables : Tables → List ConnectionRow → Text → Tables
saved_tables t rows active_id = record t {
  connections = rows;
  metadata = insert active_connection_metadata_key active_id t.metadata;
}

pub save-Ends :
    (rows : List ConnectionRow) (active_id : Text) (t : Tables) (db : Db)
    → db.tables ≡ t
    → Ends (λ _ u. u ≡ saved_tables t rows active_id) (save_tx rows active_id db)
unfolding save_tx set_metadata
save-Ends rows active_id t db e =
    let Q : Unit {0} → Tables → Type 0 = λ _ u. u ≡ saved_tables t rows active_id in
    let empty = with_connections t [] in
    let write = exec (put active_connection_metadata_key active_id) in
    Ends-bind (Same empty) Q (λ _. step >> (insert_connections rows >> write))
      (exec (λ x. with_connections x []) db)
      (exec-Ends (Same empty) (λ x. with_connections x []) db (ap (λ x. with_connections x []) e))
      (λ _ db1 e1.
        Ends-bind (Same empty) Q (λ _. insert_connections rows >> write) (step db1)
          (exec-Ends (Same empty) (λ x. x) db1 e1)
          (λ _ db2 e2.
            Ends-bind (Same (with_connections t rows)) Q (λ _. write) (insert_connections rows db2)
              (insert_connections-Ends rows empty db2 e2)
              (λ _ db3 e3.
                exec-Ends Q (put active_connection_metadata_key active_id) db3
                  (ap (put active_connection_metadata_key active_id) e3))))
