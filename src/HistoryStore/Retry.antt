-- ===== src/HistoryStore/Retry.antt =====
-- A `MigrateLegacy` (terminal/log.go) that could not remove its file is made again.
use nbterminal.Base.{
  ℕ, ◌+◌, ◌≡◌, refl, sym, ap, ◌∙◌, Bool, true, false, ◌&&◌, none, some, List, [], ◌∷◌,
  if◌then◌else◌, is_nil, is_blank, Text, text_eq_refl, lookup-insert, inl, inr, All, arith,
}
use nbterminal.Base.Int.{ℤ, pos}
use nbterminal.HistoryStore.Entry.{Bytes, HistoryEntry}
use nbterminal.HistoryStore.File.{FileStep, remove, failed, Faults, Json, load_file}
use nbterminal.HistoryStore.Sqlite.{on_file, timed}
use nbterminal.HistoryStore.Held.{
  IsEntry, made_row, encrypted_row, decrypted-encrypted, key_not_empty,
}
use nbterminal.HistoryStore.Legacy.{
  LegacyFile, placed, cons_row, placed_row, history_legacy_source, legacy_rows, cleaned, migrated,
  migrate_rows, migrate_entries, migrate_legacy,
}
use nbterminal.Security.Cipher.{Cipher, IsCipher}
use nbterminal.Database.Tx.{HistoryRow, Tables, Db}
use nbterminal.Database.ConnectionTable.{metadata, put, done}
use nbterminal.Database.HistoryTable.{
  history_migration_marker, migrate_history, history_migration_complete, is_incomplete_history,
}
use nbterminal.Database.Saved.{healthy}
use nbterminal.Database.Migrated.{
  AreComplete, SamePlaces, added, any_added, migrate_healthy, migrate_history-again,
}

complete_after :
    (t : Tables)
    → history_migration_complete (healthy (put history_migration_marker done t))
      ≡ (inr true, healthy (put history_migration_marker done t))
unfolding history_migration_complete metadata
complete_after t =
    rw (lookup-insert history_migration_marker done t.metadata, text_eq_refl done) refl

module _ (json : Json HistoryEntry) (cipher : Cipher) (fingerprint : Text → Bytes → Text) where
  -- The rows have the source and count up.
  ArePlaced : Text → ℕ → List HistoryRow → List HistoryEntry → Type 0
  ArePlaced source index [] [] = Unit
  ArePlaced source index (r ∷ rows) (e ∷ es) =
      (r.legacy_source ≡ source)
      × (r.legacy_ordinal ≡ pos (index + 1))
      × ArePlaced source (index + 1) rows es
  ArePlaced source index _ _ = ⊥

  ArePlaced-same :
      (source : Text) (index : ℕ) (rows again : List HistoryRow) (es : List HistoryEntry)
      → ArePlaced source index rows es
      → ArePlaced source index again es
      → SamePlaces rows again
  unfolding ArePlaced
  ArePlaced-same source index [] [] [] p q = tt
  ArePlaced-same source index [] [] (e ∷ es) p q = absurd p
  ArePlaced-same source index [] (r ∷ again) [] p q = absurd q
  ArePlaced-same source index [] (r ∷ again) (e ∷ es) p q = absurd p
  ArePlaced-same source index (r ∷ rows) again [] p q = absurd p
  ArePlaced-same source index (r ∷ rows) [] (e ∷ es) p q = absurd q
  ArePlaced-same source index (r ∷ rows) (r' ∷ again) (e ∷ es) (a, b, p) (c, d, q) =
      (a ∙ sym c, b ∙ sym d, ArePlaced-same source (index + 1) rows again es p q)

  module _ (key : Text) (lawful : IsCipher cipher) (b : is_blank key ≡ false) where
    abbrev pub AreEntries : ℤ → List HistoryEntry → Type 0
    AreEntries now es = All (IsEntry json cipher key lawful b now) es

    placed_incomplete :
        (row : HistoryRow) (source : Text) (index : ℕ)
        → is_nil row.payload_enc ≡ false
        → is_nil source ≡ false
        → is_incomplete_history (placed source (index + 1) row) ≡ false
    placed_incomplete row source index n s = rw (n, s) (ground arith)

    legacy_rows_lem :
        (now : ℤ) (es : List HistoryEntry) (draw : ℕ) (source : Text) (index : ℕ)
        → AreEntries now es
        → is_nil source ≡ false
        → (rows : List HistoryRow) × (legacy_rows json cipher fingerprint now draw key source index
              es
            ≡ inr rows)
          × AreComplete rows
          × ArePlaced source index rows es
    unfolding legacy_rows ArePlaced
    legacy_rows_lem now [] draw source index h s = ([], refl, tt, tt)
    legacy_rows_lem now (e ∷ es) draw source index (h, hs) s =
        let (p, q, n) =
          lawful.encrypts draw (json.encode (timed now e)) key h.not_empty
            (key_not_empty json cipher key lawful b) in
        let (id, r, d) = decrypted-encrypted json cipher key lawful b (draw + 1) e.connection_id in
        let row = made_row json cipher key lawful b (timed now e) p id in
        let (rows, f, c, a) = legacy_rows_lem now es (draw + 2) source (index + 1) hs s in
        (
          placed source (index + 1) row ∷ rows,
          ap
                (λ o.
                  cons_row (placed_row source (index + 1) o)
                    (legacy_rows json cipher fingerprint now (draw + 2) key source (index + 1) es))
                (encrypted_row json cipher key lawful b now draw e p id q r)
              ∙ ap (cons_row (inr (placed source (index + 1) row))) f,
          (placed_incomplete row source index n s, c),
          (refl, refl, a),
        )

-- The steps of a call, of which only the removal can fail.
abbrev is_remove : FileStep → Bool
is_remove remove = true
is_remove _ = false

abbrev pub disk : Bool → Faults
disk broken = record { fails = λ step. is_remove step && broken; torn = 0 }

module _ (json : Json HistoryEntry) (cipher : Cipher) (fingerprint : Text → Bytes → Text) where
  -- A migration on a healthy database of rows that are complete.
  migrated-healthy :
      (broken : Bool) (source : Text) (file : LegacyFile) (rows : List HistoryRow) (t : Tables)
      → is_nil source ≡ false
      → AreComplete rows
      → let t' = put history_migration_marker done (record t { history = added rows t.history }) in
        migrated json cipher fingerprint
          (disk broken)
          source
          file
          (migrate_history rows (healthy t))
        ≡ (if broken
            then (inl (on_file (failed remove)), (healthy t', file))
            else (inr (any_added rows t.history), (healthy t', none)))
  migrated-healthy broken source file rows t s c =
      ap (migrated json cipher fingerprint (disk broken) source file) (migrate_healthy rows t c)
      ∙ ap (cleaned json cipher fingerprint (disk broken) source file (any_added rows t.history))
          (complete_after (record t { history = added rows t.history }))
      ∙ rw s refl

  module _ (key : Text) (lawful : IsCipher cipher) (b : is_blank key ≡ false) where
    legacy_start :
        (broken : Bool) (now : ℤ) (draw : ℕ) (s : Bytes) (db : Db) (es : List HistoryEntry)
        → load_file json (disk broken) (some s) (pos 0) ≡ inr es
        → migrate_legacy json cipher fingerprint (disk broken) now draw key (some (s, true)) db
          ≡ migrate_rows json cipher fingerprint
              (disk broken)
              (fingerprint key s)
              (some (s, true))
              db
              (legacy_rows json cipher fingerprint now draw key (fingerprint key s) 0 es)
    unfolding migrate_legacy history_legacy_source
    legacy_start broken now draw s db es h =
        ap
          (migrate_entries json cipher fingerprint (disk broken) now draw key (fingerprint key s)
            (some (s, true)) db)
          h

    same_load :
        (s : Bytes)
        → load_file json (disk true) (some s) (pos 0) ≡ load_file json (disk false) (some s) (pos 0)
    unfolding load_file
    same_load s = refl

    -- The removal of the file fails after a migration, on a database that does not fail, under a lawful
    -- encryption and a key that is not blank, of a file that can be loaded and has a fingerprint that
    -- is not empty, of entries whose JSON is decoded again and whose time is not 0: the call returns that error, and the next migration, which encrypts every row anew, adds
    -- nothing, changes nothing in the database and removes the file.
    pub migrate_legacy-retry :
        (now later : ℤ) (draw redraw : ℕ) (s : Bytes) (t : Tables) (es : List HistoryEntry)
        → load_file json (disk false) (some s) (pos 0) ≡ inr es
        → AreEntries json cipher fingerprint key lawful b now es
        → AreEntries json cipher fingerprint key lawful b later es
        → is_nil (fingerprint key s) ≡ false
        → let first =
            migrate_legacy json cipher fingerprint
              (disk true)
              now
              draw
              key
              (some (s, true))
              (healthy t) in
          (first.0 ≡ inl (on_file (failed remove)))
          × (migrate_legacy json cipher fingerprint
                (disk false)
                later
                redraw
                key
                (some (s, true))
                first.1.0
              ≡ (inr false, (first.1.0, none)))
    migrate_legacy-retry now later draw redraw s t es h g g' n =
        let source = fingerprint key s in
        let file : LegacyFile = some (s, true) in
        let (rows, e, c, a) =
          legacy_rows_lem json cipher fingerprint key lawful b now es draw source 0 g n in
        let (again, e', c', a') =
          legacy_rows_lem json cipher fingerprint key lawful b later es redraw source 0 g' n in
        let t' = put history_migration_marker done (record t { history = added rows t.history }) in
        let one =
          legacy_start true now draw s (healthy t) es (same_load s ∙ h)
          ∙ ap (migrate_rows json cipher fingerprint (disk true) source file (healthy t)) e
          ∙ migrated-healthy true source file rows t n c in
        let (x, k) =
          migrate_history-again rows again t c c'
            (ArePlaced-same json cipher fingerprint source 0 rows again es a a') in
        let m = migrate_healthy rows t c in
        let two =
          legacy_start false later redraw s (healthy t') es h
          ∙ ap (migrate_rows json cipher fingerprint (disk false) source file (healthy t')) e'
          ∙ ap (migrated json cipher fingerprint (disk false) source file)
              (ap (λ o. migrate_history again o.1) (sym m) ∙ k ∙ ap (λ o. (inr false, o.1)) m)
          ∙ ap (cleaned json cipher fingerprint (disk false) source file false)
              (complete_after (record t { history = added rows t.history }))
          ∙ rw n refl in
        (
          ap (λ o. o.0) one,
          ap (λ o. migrate_legacy json cipher fingerprint (disk false) later redraw key file o.1.0)
                one
              ∙ two
              ∙ ap (λ o. (inr false, (o.1.0, none))) (sym one),
        )
