-- ===== src/Database/Saved.antt =====
-- What `LoadConnections` reads of what `SaveConnections` has written (internal/database/database.go).
use nbterminal.Base.{
  ℕ, ◌+◌, ◌≡◌, refl, sym, ap, ◌∙◌, Bool, true, false, ◌&&◌, ◌||◌, List, [], ◌∷◌, ◌++◌, Text, inr,
  arith, append_assoc, append_nil, lookup, insert, lookup-insert, if-elim,
}
use nbterminal.Base.Int.{pos, ltb_ℤ, eq_ℤ}
use nbterminal.Database.Tx.{ConnectionRow, Tables, Db, with_tx}
use nbterminal.Database.ConnectionTable.{
  metadata, set_metadata, ordered, insert_ordered, text_lt, row_before, load_connections, has_id,
  is_incomplete, insert_connections, save_tx, save_connections, active_connection_metadata_key,
  or_nil,
}

-- A database that is open, and none of whose statements fails.
abbrev pub healthy : Tables → Db
healthy t = record { is_open = true; failures = []; tables = t }

-- The rows are whole, and no identity is there already or twice.
abbrev pub AreNew : List ConnectionRow → List ConnectionRow → Type 0
AreNew seen [] = Unit
AreNew seen (r ∷ rows) =
    (is_incomplete r ≡ false) × (has_id r.id seen ≡ false) × AreNew (seen ++ r ∷ []) rows

-- The positions count up from `n`.
abbrev pub ArePositioned : ℕ → List ConnectionRow → Type 0
ArePositioned n [] = Unit
ArePositioned n (r ∷ rows) = (r.position ≡ pos n) × ArePositioned (n + 1) rows

later_position :
    (n : ℕ) (b : Bool) → (ltb_ℤ (pos (n + 1)) (pos n) || (eq_ℤ (pos (n + 1)) (pos n) && b)) ≡ false
later_position n b = ground arith

not_before :
    (s r : ConnectionRow) (n : ℕ)
    → s.position ≡ pos (n + 1)
    → r.position ≡ pos n
    → row_before s r ≡ false
not_before s r n hs hr =
    ap (λ p. ltb_ℤ p r.position || (eq_ℤ p r.position && text_lt s.id r.id)) hs
    ∙ ap (λ p. ltb_ℤ (pos (n + 1)) p || (eq_ℤ (pos (n + 1)) p && text_lt s.id r.id)) hr
    ∙ later_position n (text_lt s.id r.id)

insert_first :
    (r : ConnectionRow) (rows : List ConnectionRow) (n : ℕ)
    → r.position ≡ pos n
    → ArePositioned (n + 1) rows
    → insert_ordered r rows ≡ r ∷ rows
unfolding insert_ordered
insert_first r [] n e h = refl
insert_first r (s ∷ rows) n e (f, h) =
    if-elim (λ l. l ≡ r ∷ s ∷ rows) (row_before s r) (s ∷ insert_ordered r rows) (r ∷ s ∷ rows)
      (λ q. let k = not_before s r n f e in cc) (λ q. refl)

ordered-ArePositioned :
    (rows : List ConnectionRow) (n : ℕ) → ArePositioned n rows → ordered rows ≡ rows
unfolding ordered
ordered-ArePositioned [] n h = refl
ordered-ArePositioned (r ∷ rows) n (e, h) =
    ap (insert_ordered r) (ordered-ArePositioned rows (n + 1) h) ∙ insert_first r rows n e h

insert_step :
    (r : ConnectionRow) (rows : List ConnectionRow) (t : Tables)
    → is_incomplete r ≡ false
    → has_id r.id t.connections ≡ false
    → insert_connections (r ∷ rows) (healthy t)
      ≡ insert_connections rows (healthy (record t { connections = t.connections ++ r ∷ [] }))
unfolding insert_connections
insert_step r rows t w f = rw (w, f) refl

insert_all :
    (rows : List ConnectionRow) (t : Tables)
    → AreNew t.connections rows
    → insert_connections rows (healthy t)
      ≡ (inr tt, healthy (record t { connections = t.connections ++ rows }))
unfolding insert_connections
insert_all [] t h =
    ap (λ c. (inr tt, healthy (record t { connections = c }))) (sym (append_nil t.connections))
insert_all (r ∷ rows) t (w, f, h) =
    insert_step r rows t w f
    ∙ insert_all rows (record t { connections = t.connections ++ r ∷ [] }) h
    ∙ ap (λ c. (inr tt, healthy (record t { connections = c })))
        (append_assoc t.connections (r ∷ []) rows)

pub save_healthy :
    (rows : List ConnectionRow) (active_id : Text) (t : Tables)
    → AreNew [] rows
    → save_connections rows active_id (healthy t) ≡ (
      inr tt,
      healthy (record t {
        connections = rows;
        metadata = insert active_connection_metadata_key active_id t.metadata;
      }),
    )
unfolding save_connections save_tx with_tx set_metadata
save_healthy rows active_id t h = rw (insert_all rows (record t { connections = [] }) h) refl

pub load_healthy :
    (rows : List ConnectionRow) (t : Tables)
    → ArePositioned 0 rows
    → t.connections ≡ rows
    → load_connections (healthy t)
      ≡ (inr (rows, or_nil (lookup active_connection_metadata_key t.metadata)), healthy t)
unfolding load_connections metadata
load_healthy rows t p e =
    ap (λ c. (inr (c, or_nil (lookup active_connection_metadata_key t.metadata)), healthy t))
      (ap ordered e ∙ ordered-ArePositioned rows 0 p)

-- On a database that is open and does not fail, rows that are whole, have different identities and
-- count their positions from 0 are saved without an error and loaded again in their order, with the
-- active identity.
pub load-save :
    (rows : List ConnectionRow) (active_id : Text) (t : Tables)
    → AreNew [] rows
    → ArePositioned 0 rows
    → ((save_connections rows active_id (healthy t)).0 ≡ inr tt)
      × ((load_connections (save_connections rows active_id (healthy t)).1).0
          ≡ inr (rows, active_id))
load-save rows active_id t n p =
    let e = save_healthy rows active_id t n in
    let saved = record t {
      connections = rows;
      metadata = insert active_connection_metadata_key active_id t.metadata;
    } in
    (
      ap (λ o. o.0) e,
      ap (λ o. (load_connections o.1).0) e
          ∙ ap (λ o. o.0) (load_healthy rows saved p refl)
          ∙ ap (λ a. inr (rows, or_nil a))
              (lookup-insert active_connection_metadata_key active_id t.metadata),
    )
