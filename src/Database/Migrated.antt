-- ===== src/Database/Migrated.antt =====
-- A second migration of the command history of internal/database/database.go.
use nbterminal.Base.{
  or_true, ◌≡◌, refl, sym, ap, ◌∙◌, Bool, true, false, ◌||◌, not, some, List, [], ◌∷◌, ◌++◌, Text,
  inl, inr, arith, if◌then◌else◌, if-elim, text_eq_refl, Bool-cases, insert_idem, All,
}
use nbterminal.Base.Int.{ℤ, eq_ℤ}
use nbterminal.Database.Tx.{HistoryRow, StoredHistory, Tables, with_tx, bind_result, executed}
use nbterminal.Database.ConnectionTable.{set_metadata, put, done}
use nbterminal.Database.HistoryTable.{
  history_migration_marker, stored, same_legacy, has_legacy, insert_or_ignore_history,
  is_incomplete_history, migrate_history_rows, migrate_history_tx, migrate_history,
}
use nbterminal.Database.Saved.{healthy}

-- What a migration makes of the table, and whether it adds a row.
abbrev legacy_of : HistoryRow → StoredHistory
legacy_of r = stored r (some (r.legacy_source, r.legacy_ordinal))

abbrev is_stored : List StoredHistory → HistoryRow → Bool
is_stored history r = has_legacy r.legacy_source r.legacy_ordinal history

added_one : List StoredHistory → HistoryRow → List StoredHistory
added_one history r = if is_stored history r then history else history ++ legacy_of r ∷ []

pub added : List HistoryRow → List StoredHistory → List StoredHistory
added [] history = history
added (r ∷ rows) history = added rows (added_one history r)

pub any_added : List HistoryRow → List StoredHistory → Bool
any_added [] history = false
any_added (r ∷ rows) history = not (is_stored history r) || any_added rows (added_one history r)

abbrev pub AreComplete : List HistoryRow → Type 0
AreComplete rows = All (λ r. is_incomplete_history r ≡ false) rows

eq_ℤ_refl : (a : ℤ) → eq_ℤ a a ≡ true
eq_ℤ_refl a = ground arith

or_false : (b : Bool) → (b || false) ≡ b
or_false b = ground arith

or_assoc : (a b c : Bool) → ((a || b) || c) ≡ (a || (b || c))
or_assoc a b c = ground arith

insert_or_ignore_lem :
    (r : HistoryRow) (t : Tables)
    → insert_or_ignore_history r t
      ≡ inr (not (is_stored t.history r), record t { history = added_one t.history r })
unfolding added_one
insert_or_ignore_lem r t = elim (Bool-cases (is_stored t.history r)) [
  | inl e ↦ rw e refl
  | inr e ↦ rw e refl
]

-- One row of the migration of a healthy database.
migrate_one :
    (r : HistoryRow) (rows : List HistoryRow) (applied : Bool) (t : Tables)
    → is_incomplete_history r ≡ false
    → migrate_history_rows applied (r ∷ rows) (healthy t)
      ≡ migrate_history_rows
          (applied || not (is_stored t.history r))
          rows
          (healthy (record t { history = added_one t.history r }))
unfolding migrate_history_rows
migrate_one r rows applied t h = rw h (
    ap
      (λ o.
        bind_result (executed (healthy t) o)
          (λ added. migrate_history_rows (applied || added) rows))
      (insert_or_ignore_lem r t))

migrate_all :
    (rows : List HistoryRow) (applied : Bool) (t : Tables)
    → AreComplete rows
    → migrate_history_rows applied rows (healthy t) ≡ (
      inr (applied || any_added rows t.history),
      healthy (record t { history = added rows t.history }),
    )
unfolding migrate_history_rows added any_added
migrate_all [] applied t h = ap (λ b. (inr b, healthy t)) (sym (or_false applied))
migrate_all (r ∷ rows) applied t h =
    migrate_one r rows applied t h.0
    ∙ migrate_all rows (applied || not (is_stored t.history r))
        (record t { history = added_one t.history r }) h.1
    ∙ ap (λ b. (inr b, healthy (record t { history = added rows (added_one t.history r) })))
        (or_assoc applied (not (is_stored t.history r)) (any_added rows (added_one t.history r)))

pub migrate_healthy :
    (rows : List HistoryRow) (t : Tables)
    → AreComplete rows
    → migrate_history rows (healthy t) ≡ (
      inr (any_added rows t.history),
      healthy (put history_migration_marker done (record t { history = added rows t.history })),
    )
unfolding migrate_history migrate_history_tx with_tx set_metadata
migrate_healthy rows t h = rw (migrate_all rows false t h) refl

-- The rows that a table has already.
abbrev AreStored : List HistoryRow → List StoredHistory → Type 0
AreStored rows history = All (λ r. is_stored history r ≡ true) rows

same_legacy_self :
    (r : HistoryRow) → same_legacy r.legacy_source r.legacy_ordinal (legacy_of r).legacy ≡ true
same_legacy_self r = rw (text_eq_refl r.legacy_source) (eq_ℤ_refl r.legacy_ordinal)

has_legacy-append :
    (source : Text) (ordinal : ℤ) (r : StoredHistory) (history : List StoredHistory)
    → has_legacy source ordinal (history ++ r ∷ [])
      ≡ (has_legacy source ordinal history || same_legacy source ordinal r.legacy)
has_legacy-append source ordinal r [] = or_false (same_legacy source ordinal r.legacy)
has_legacy-append source ordinal r (x ∷ history) =
    ap (λ b. same_legacy source ordinal x.legacy || b) (has_legacy-append source ordinal r history)
    ∙ sym (or_assoc (same_legacy source ordinal x.legacy) (has_legacy source ordinal history) _)

added_one_keeps :
    (history : List StoredHistory) (r q : HistoryRow)
    → is_stored history q ≡ true
    → is_stored (added_one history r) q ≡ true
unfolding added_one
added_one_keeps history r q h =
    if-elim (λ l. is_stored l q ≡ true) (is_stored history r) history (history ++ legacy_of r ∷ [])
      (λ e. h)
      (λ e.
        has_legacy-append q.legacy_source q.legacy_ordinal (legacy_of r) history
        ∙ ap (λ b. b || same_legacy q.legacy_source q.legacy_ordinal (legacy_of r).legacy) h)

added_one_stores :
    (history : List StoredHistory) (r : HistoryRow) → is_stored (added_one history r) r ≡ true
unfolding added_one
added_one_stores history r =
    if-elim (λ l. is_stored l r ≡ true) (is_stored history r) history (history ++ legacy_of r ∷ [])
      (λ e. e)
      (λ e.
        has_legacy-append r.legacy_source r.legacy_ordinal (legacy_of r) history
        ∙ ap (λ b. is_stored history r || b) (same_legacy_self r)
        ∙ or_true (is_stored history r))

added_keeps :
    (rows : List HistoryRow) (history : List StoredHistory) (q : HistoryRow)
    → is_stored history q ≡ true
    → is_stored (added rows history) q ≡ true
unfolding added
added_keeps [] history q h = h
added_keeps (r ∷ rows) history q h =
    added_keeps rows (added_one history r) q (added_one_keeps history r q h)

added-AreStored :
    (rows : List HistoryRow) (history : List StoredHistory) → AreStored rows (added rows history)
unfolding added
added-AreStored [] history = tt
added-AreStored (r ∷ rows) history = (
  added_keeps rows (added_one history r) r (added_one_stores history r),
  added-AreStored rows (added_one history r),
)

added_nothing :
    (rows : List HistoryRow) (history : List StoredHistory)
    → AreStored rows history
    → (added rows history ≡ history) × (any_added rows history ≡ false)
unfolding added any_added added_one
added_nothing [] history h = (refl, refl)
added_nothing (r ∷ rows) history (e, h) = rw e (added_nothing rows history h)

-- The two lists of rows come from the same places of the same files.
abbrev pub SamePlaces : List HistoryRow → List HistoryRow → Type 0
SamePlaces [] [] = Unit
SamePlaces (r ∷ rows) (q ∷ again) =
    (r.legacy_source ≡ q.legacy_source)
    × (r.legacy_ordinal ≡ q.legacy_ordinal)
    × SamePlaces rows again
SamePlaces _ _ = ⊥

AreStored-again :
    (rows again : List HistoryRow) (history : List StoredHistory)
    → SamePlaces rows again
    → AreStored rows history
    → AreStored again history
AreStored-again [] [] history s h = tt
AreStored-again [] (q ∷ again) history s h = absurd s
AreStored-again (r ∷ rows) [] history s h = absurd s
AreStored-again (r ∷ rows) (q ∷ again) history (a, b, s) (e, h) = (
  ap (λ source. has_legacy source q.legacy_ordinal history) (sym a)
      ∙ ap (λ ordinal. has_legacy r.legacy_source ordinal history) (sym b)
      ∙ e,
  AreStored-again rows again history s h,
)

-- The rows of a complete migration are added once: a migration of rows from the same places, however
-- they are encrypted, adds none and changes nothing.
pub migrate_history-again :
    (rows again : List HistoryRow) (t : Tables)
    → AreComplete rows
    → AreComplete again
    → SamePlaces rows again
    → ((b : Bool) × ((migrate_history rows (healthy t)).0 ≡ inr b))
      × (migrate_history again (migrate_history rows (healthy t)).1
          ≡ (inr false, (migrate_history rows (healthy t)).1))
migrate_history-again rows again t h g s =
    let e = migrate_healthy rows t h in
    let t' = put history_migration_marker done (record t { history = added rows t.history }) in
    let stored_rows =
      AreStored-again rows again (added rows t.history) s (added-AreStored rows t.history) in
    let (n, f) = added_nothing again (added rows t.history) stored_rows in
    (
      (any_added rows t.history, ap (λ o. o.0) e),
      ap (λ o. migrate_history again o.1) e
          ∙ migrate_healthy again t' g
          ∙ ap
              (λ b. (
                inr b,
                healthy (
                    put history_migration_marker done
                      (record t' { history = added again t'.history })),
              ))
              f
          ∙ ap
              (λ l. (
                inr false,
                healthy (put history_migration_marker done (record t' { history = l })),
              ))
              n
          ∙ ap (λ m. (inr false, healthy (record t' { metadata = m })))
              (insert_idem history_migration_marker done t.metadata)
          ∙ ap (λ o. (inr false, o.1)) (sym e),
    )
