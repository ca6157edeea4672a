-- ===== src/HistoryStore/Held.antt =====
-- A `HistoryStore` on a database (terminal/log.go) gives back what was appended.
use nbterminal.Base.{
  ℕ, zero, suc, ◌+◌, ◌-◌, ◌≡◌, refl, sym, ap, ◌∙◌, subst, Bool, true, false, ◌&&◌, ◌||◌, not, none,
  some, List, [], ◌∷◌, ◌++◌, if◌then◌else◌, is_nil, is_blank, is_nil_of_not_blank, text_eq,
  text_eq_refl, Text, inl, inr, map, drop, length, arith,
}
use nbterminal.Base.Int.{ℤ, pos, pos_part, eq_ℤ}
use nbterminal.HistoryStore.Entry.{HistoryEntry}
use nbterminal.HistoryStore.Ring.{keep, ring, recent, ring-nil, recent-recent}
use nbterminal.HistoryStore.File.{Json}
use nbterminal.HistoryStore.Selected.{of_connection, of_connection_nil}
use nbterminal.HistoryStore.Sqlite.{
  unix_nano, timed, row_of, encrypted_history_row, append_sqlite, appended, database, check_row,
  decode_entry, decode_plaintext, decode_row, decode_rows, load_sqlite,
}
use nbterminal.Security.Cipher.{Cipher, IsCipher, encrypted_id, decrypted_id}
use nbterminal.Database.Tx.{HistoryRow, StoredHistory, Tables}
use nbterminal.Database.HistoryTable
use nbterminal.Database.HistoryTable.{
  stored, loaded, select_history, append_history, load_history, insert_history,
}
use nbterminal.Database.Histories.{select_history-recent}
use nbterminal.Database.Saved.{healthy}

module _ (json : Json HistoryEntry) (cipher : Cipher) (key : Text) where
  -- Each row is decrypted to its entry.
  abbrev pub Held : List HistoryRow → List HistoryEntry → Type 0
  Held [] [] = Unit
  Held (row ∷ rows) (e ∷ es) = (decode_row json cipher key row ≡ inr e) × Held rows es
  Held _ _ = ⊥

  decode_step :
      (id : Text) (limit : ℕ) (row : HistoryRow) (rows : List HistoryRow) (e : HistoryEntry)
      → (acc : List HistoryEntry) → decode_row json cipher key row ≡ inr e
      → decode_rows json cipher key id limit acc (row ∷ rows)
        ≡ decode_rows json cipher key id limit
            (if is_nil id || text_eq e.connection_id id then keep limit (acc ++ e ∷ []) else acc)
            rows
  unfolding decode_rows
  decode_step id limit row rows e acc d =
      rw (decode_rows, d)
        (ap (λ next. decode_rows json cipher key id limit next rows)
          (skip_lem (is_nil id) (text_eq e.connection_id id) acc (keep limit (acc ++ e ∷ []))))
    where
      skip_lem :
          (a b : Bool) (x y : List HistoryEntry)
          → (if not a && not b then x else y) ≡ (if a || b then y else x)
      skip_lem true b x y = refl
      skip_lem false true x y = refl
      skip_lem false false x y = refl

  decode_rows-ring :
      (id : Text) (limit : ℕ) (rows : List HistoryRow) (es acc : List HistoryEntry)
      → Held rows es
      → decode_rows json cipher key id limit acc rows ≡ inr (ring limit acc (of_connection id es))
  unfolding ring decode_rows
  decode_rows-ring id limit [] [] acc h = refl
  decode_rows-ring id limit [] (e ∷ es) acc h = absurd h
  decode_rows-ring id limit (row ∷ rows) [] acc h = absurd h
  decode_rows-ring id limit (row ∷ rows) (e ∷ es) acc (d, h) =
      decode_step id limit row rows e acc d
      ∙ decode_rows-ring id limit rows es _ h
      ∙ ap inr (go (is_nil id || text_eq e.connection_id id))
    where
      go :
          (b : Bool)
          → ring limit (if b then keep limit (acc ++ e ∷ []) else acc) (of_connection id es)
            ≡ ring limit acc (if b then e ∷ of_connection id es else of_connection id es)
      go true = refl
      go false = refl

  Held-length :
      (rows : List HistoryRow) (es : List HistoryEntry) → Held rows es → length rows ≡ length es
  Held-length [] [] h = refl
  Held-length [] (e ∷ es) h = absurd h
  Held-length (row ∷ rows) [] h = absurd h
  Held-length (row ∷ rows) (e ∷ es) h = ap suc (Held-length rows es h.1)

  Held-drop :
      (n : ℕ) (rows : List HistoryRow) (es : List HistoryEntry)
      → Held rows es
      → Held (drop n rows) (drop n es)
  Held-drop zero rows es h = h
  Held-drop (suc n) [] [] h = h
  Held-drop (suc n) [] (e ∷ es) h = absurd h
  Held-drop (suc n) (row ∷ rows) [] h = absurd h
  Held-drop (suc n) (row ∷ rows) (e ∷ es) h = Held-drop n rows es h.1

  Held-recent :
      (n : ℕ) (rows : List HistoryRow) (es : List HistoryEntry)
      → Held rows es
      → Held (recent n rows) (recent n es)
  unfolding recent
  Held-recent zero rows es h = h
  Held-recent (suc n) rows es h =
      subst (λ k. Held (drop (k - suc n) rows) (drop (length es - suc n) es))
        (sym (Held-length rows es h)) (Held-drop (length es - suc n) rows es h)

  Held-append :
      (row : HistoryRow) (e : HistoryEntry) (rows : List HistoryRow) (es : List HistoryEntry)
      → Held rows es
      → decode_row json cipher key row ≡ inr e
      → Held (rows ++ row ∷ []) (es ++ e ∷ [])
  Held-append row e [] [] h d = (d, tt)
  Held-append row e [] (x ∷ es) h d = absurd h
  Held-append row e (r ∷ rows) [] h d = absurd h
  Held-append row e (r ∷ rows) (x ∷ es) h d = (h.0, Held-append row e rows es h.1 d)

  map-append :
      (history : List StoredHistory) (row : StoredHistory)
      → map loaded (history ++ row ∷ []) ≡ map loaded history ++ loaded row ∷ []
  map-append [] row = refl
  map-append (x ∷ history) row = ap (loaded x ∷◌) (map-append history row)

  -- The rows of the table.
  abbrev pub table_rows : Tables → List HistoryRow
  table_rows t = map loaded t.history

  all_rows : (history : List StoredHistory) → HistoryTable.of_connection [] history ≡ history
  all_rows [] = refl
  all_rows (r ∷ history) = ap (r ∷◌) (all_rows history)

  rows_of : (history : List StoredHistory) → select_history 0 history ≡ map loaded history
  unfolding select_history
  rows_of history = refl

  load_healthy :
      (id : Text) (limit : ℤ) (t : Tables)
      → is_blank key ≡ false
      → load_sqlite json cipher key id limit (healthy t) ≡ (
        decode_rows json cipher key id
            (pos_part limit)
            []
            (recent (pos_part (if is_nil id then limit else pos 0)) (table_rows t)),
        healthy t,
      )
  unfolding load_sqlite load_history
  load_healthy id limit t b =
      let n = pos_part (if is_nil id then limit else pos 0) in
      rw b (
        ap (λ rows. (decode_rows json cipher key id (pos_part limit) [] rows, healthy t))
          (ap (select_history n) (all_rows t.history)
            ∙ select_history-recent n t.history
            ∙ ap (recent n) (rows_of t.history)))

  recent_zero :
      (t : Tables) (es : List HistoryEntry)
      → Held (table_rows t) es
      → Held (recent 0 (table_rows t)) es
  unfolding recent
  recent_zero t es h = h

  -- With or without a connection, what is loaded is the newest of what the table holds.
  load-Held :
      (id : Text) (limit : ℤ) (t : Tables) (es : List HistoryEntry)
      → is_blank key ≡ false
      → Held (table_rows t) es
      → (load_sqlite json cipher key id limit (healthy t)).0
        ≡ inr (recent (pos_part limit) (of_connection id es))
  load-Held [] limit t es b h =
      let n = pos_part limit in
      ap (λ o. o.0) (load_healthy [] limit t b)
      ∙ decode_rows-ring [] n (recent n (table_rows t)) (recent n es) []
          (Held-recent n (table_rows t) es h)
      ∙ ap inr (
          ring-nil n (of_connection [] (recent n es))
          ∙ ap (recent n) (of_connection_nil (recent n es))
          ∙ recent-recent n es
          ∙ ap (recent n) (sym (of_connection_nil es)))
  load-Held (c ∷ id) limit t es b h =
      let n = pos_part limit in
      ap (λ o. o.0) (load_healthy (c ∷ id) limit t b)
      ∙ decode_rows-ring (c ∷ id) n (recent 0 (table_rows t)) es [] (recent_zero t es h)
      ∙ ap inr (ring-nil n (of_connection (c ∷ id) es))

  module _ (lawful : IsCipher cipher) (b : is_blank key ≡ false) where
    pub key_not_empty : is_nil key ≡ false
    key_not_empty = is_nil_of_not_blank key b

    pub decrypted-encrypted :
        (draw : ℕ) (id : Text)
        → (s : Text) × (encrypted_id cipher draw id key ≡ some s)
          × (decrypted_id cipher s key ≡ some id)
    unfolding encrypted_id decrypted_id
    decrypted-encrypted draw [] = ([], refl, refl)
    decrypted-encrypted draw (c ∷ id) =
        let (s, e, n) = lawful.encrypts draw (c ∷ id) key refl key_not_empty in
        (s, e, go s n (lawful.decrypts draw (c ∷ id) key s e))
      where
        go :
            (t : Text)
            → is_nil t ≡ false
            → cipher.decrypt t key ≡ some (c ∷ id)
            → decrypted_id cipher t key ≡ some (c ∷ id)
        go [] n d = cc
        go (x ∷ t) n d = d

    -- What the row of an entry is, and that it is the entry again.
    pub record IsEntry (now : ℤ) (e : HistoryEntry) : Type 0 where
      pub not_empty : is_nil (json.encode (timed now e)) ≡ false
      pub decodes : json.decode (json.encode (timed now e)) ≡ some (timed now e)
      pub not_epoch : eq_ℤ (unix_nano (timed now e).time) (pos 0) ≡ false

    abbrev pub made_row : HistoryEntry → Text → Text → HistoryRow
    made_row e payload id = record {
      recorded_at_ns = unix_nano e.time;
      connection_id = id;
      payload_enc = payload;
      legacy_source = [];
      legacy_ordinal = pos 0;
    }

    pub encrypted_row :
        (now : ℤ) (draw : ℕ) (e : HistoryEntry) (payload id : Text)
        → cipher.encrypt draw (json.encode (timed now e)) key ≡ some payload
        → encrypted_id cipher (draw + 1) e.connection_id key ≡ some id
        → encrypted_history_row json cipher now draw e key ≡ inr (made_row (timed now e) payload id)
    unfolding encrypted_history_row
    encrypted_row now draw e payload id q r = rw b (
        ap
          (λ o.
            row_of json cipher (timed now e) o (encrypted_id cipher (draw + 1) e.connection_id key))
          q
        ∙ ap (row_of json cipher (timed now e) (some payload)) r)

    append_row :
        (now : ℤ) (row : HistoryRow) (t : Tables)
        → is_nil row.payload_enc ≡ false
        → eq_ℤ row.recorded_at_ns (pos 0) ≡ false
        → append_history now row (healthy t)
          ≡ (inr tt, healthy (record t { history = t.history ++ stored row none ∷ [] }))
    unfolding append_history
    append_row now row t n z = rw (n, z) refl

    eq_ℤ_refl : (a : ℤ) → eq_ℤ a a ≡ true
    eq_ℤ_refl a = ground arith

    check_row_lem :
        (e : HistoryEntry) (payload id : Text)
        → check_row json cipher (made_row e payload id) e (some e.connection_id) ≡ inr e
    check_row_lem e payload id =
        rw (text_eq_refl e.connection_id, eq_ℤ_refl (unix_nano e.time)) refl

    decoded_row :
        (e : HistoryEntry) (payload id : Text)
        → cipher.decrypt payload key ≡ some (json.encode e)
        → json.decode (json.encode e) ≡ some e
        → decrypted_id cipher id key ≡ some e.connection_id
        → decode_row json cipher key (made_row e payload id) ≡ inr e
    unfolding decode_row
    decoded_row e payload id q j r =
        ap (decode_plaintext json cipher (made_row e payload id) key) q
        ∙ ap (decode_entry json cipher (made_row e payload id) key) j
        ∙ ap (check_row json cipher (made_row e payload id) e) r
        ∙ check_row_lem e payload id

    append_healthy :
        (now : ℤ) (draw : ℕ) (e : HistoryEntry) (t : Tables)
        → IsEntry now e
        → (row : StoredHistory) × (append_sqlite json cipher now draw e key (healthy t)
            ≡ (none, healthy (record t { history = t.history ++ row ∷ [] })))
          × (decode_row json cipher key (loaded row) ≡ inr (timed now e))
    unfolding append_sqlite
    append_healthy now draw e t h =
        let x = timed now e in
        let (p, q, n) = lawful.encrypts draw (json.encode x) key h.not_empty key_not_empty in
        let (s, r, d) = decrypted-encrypted (draw + 1) e.connection_id in
        let row = made_row x p s in
        (
          stored row none,
          ap (λ o. appended json cipher now o (healthy t)) (encrypted_row now draw e p s q r)
              ∙ ap (λ o. elim o.0 [ inl err ↦ (some (database err), o.1) | inr _ ↦ (none, o.1) ])
                  (append_row now row t n h.not_epoch),
          decoded_row x p s (lawful.decrypts draw (json.encode x) key p q) h.decodes d,
        )

    -- On a database that is open and does not fail, under a lawful encryption and a key that is not
    -- blank: an entry whose JSON is decoded again and whose time is not 0 is appended without an error,
    -- and the newest entries that are loaded for any connection, or for all, are those of what was there
    -- and the new one.
    pub load-append :
        (now : ℤ) (draw : ℕ) (e : HistoryEntry) (t : Tables) (es : List HistoryEntry)
        → (id : Text) (limit : ℤ) → IsEntry now e
        → Held (table_rows t) es
        → ((append_sqlite json cipher now draw e key (healthy t)).0 ≡ none)
          × ((load_sqlite json cipher key id limit
                (append_sqlite json cipher now draw e key (healthy t)).1).0
              ≡ inr (recent (pos_part limit) (of_connection id (es ++ timed now e ∷ []))))
    load-append now draw e t es id limit h k =
        let (row, a, d) = append_healthy now draw e t h in
        let t' = record t { history = t.history ++ row ∷ [] } in
        (
          ap (λ o. o.0) a,
          ap (λ o. (load_sqlite json cipher key id limit o.1).0) a
              ∙ load-Held id limit t' (es ++ timed now e ∷ []) b (
                  subst (λ rows. Held rows (es ++ timed now e ∷ []))
                    (sym (map-append t.history row))
                    (Held-append (loaded row) (timed now e) (table_rows t) es k d)),
        )
