-- ===== src/ConnectionStore/RoundTrip.antt =====
-- The rows of guis/connection_store_sqlite.go are decrypted to the profiles that were encrypted.
use nbterminal.Base.{
  or_true, ℕ, ◌+◌, ◌≡◌, refl, sym, ap, ◌∙◌, true, false, ◌||◌, some, some_inj, List, [], ◌∷◌, ◌++◌,
  is_nil, is_blank, is_nil_of_not_blank, Text, text_eq, text_eq_refl, text_eq_iff, contains, inl,
  inr, All, All-append_end, All-map, Bool-cases,
}
use nbterminal.Base.Int.{pos}
use nbterminal.Profile.{ConnectionProfile}
use nbterminal.Security.Cipher.{Cipher, IsCipher, encrypted_id, decrypted_id}
use nbterminal.Database.Tx.{ConnectionRow}
use nbterminal.Database.ConnectionTable.{has_id, is_incomplete}
use nbterminal.Database.Saved.{AreNew, ArePositioned}
use nbterminal.ConnectionStore.Identities.{AreIdentified}
use nbterminal.ConnectionStore.Rows.{
  ProfileJson, cons_result, connection_row, encrypted_rows, check_id, check_profile,
  decoded_profile, decrypt_connection_row, decrypt_rows,
}

module _ (json : ProfileJson) (cipher : Cipher) (key : Text) (lawful : IsCipher cipher)
    (b : is_blank key ≡ false) where
  -- The JSON of the profile is not empty and is decoded again.
  pub record IsProfile (p : ConnectionProfile) : Type 0 where
    pub not_empty : is_nil (json.encode p) ≡ false
    pub decodes : json.decode (json.encode p) ≡ some p

  -- The identity is encrypted to a text that is not empty and is decrypted again.
  pub id_encrypted :
      (draw : ℕ) (id : Text)
      → is_nil id ≡ false
      → (s : Text) × (encrypted_id cipher draw id key ≡ some s)
        × (decrypted_id cipher s key ≡ some id)
        × (is_nil s ≡ false)
  unfolding encrypted_id decrypted_id
  id_encrypted draw [] h = cc
  id_encrypted draw (c ∷ id) h =
      let (s, e, n) = lawful.encrypts draw (c ∷ id) key refl (is_nil_of_not_blank key b) in
      (s, e, go s n (lawful.decrypts draw (c ∷ id) key s e), n)
    where
      go :
          (t : Text)
          → is_nil t ≡ false
          → cipher.decrypt t key ≡ some (c ∷ id)
          → decrypted_id cipher t key ≡ some (c ∷ id)
      go [] n d = cc
      go (x ∷ t) n d = d

  -- Each stored identity is one of those.
  abbrev StoredAs : List Text → List ConnectionRow → Type 0
  StoredAs ids rows =
      All (λ r. (id : Text) × (decrypted_id cipher r.id key ≡ some id) × (contains ids id ≡ true))
        rows

  stored_new :
      (s id : Text) (ids : List Text) (rows : List ConnectionRow)
      → decrypted_id cipher s key ≡ some id
      → contains ids id ≡ false
      → StoredAs ids rows
      → has_id s rows ≡ false
  stored_new s id ids [] d n h = refl
  stored_new s id ids (r ∷ rows) d n ((i, e, c), h) = elim (Bool-cases (text_eq r.id s)) [
    | inl q ↦
        let same = (text_eq_iff r.id s).0 q in
        let equal = some_inj (sym e ∙ ap (λ t. decrypted_id cipher t key) same ∙ d) in
        let held = ap (contains ids) (sym equal) ∙ c in cc
    | inr q ↦ rw q (stored_new s id ids rows d n h)
  ]

  StoredAs-more :
      (id : Text) (ids : List Text) (rows : List ConnectionRow)
      → StoredAs ids rows
      → StoredAs (id ∷ ids) rows
  unfolding contains
  StoredAs-more id ids rows h =
      All-map (λ r. (i : Text) × (decrypted_id cipher r.id key ≡ some i) × (contains ids i ≡ true))
        (λ r. (i : Text) × (decrypted_id cipher r.id key ≡ some i) × (contains (id ∷ ids) i ≡ true))
        rows (λ r x. (x.0, x.1, ap (λ c. text_eq id x.0 || c) x.2 ∙ or_true (text_eq id x.0))) h

  profile_row : ℕ → Text → Text → ConnectionRow
  profile_row index payload id = record { id = id; payload_enc = payload; position = pos index }

  whole_row :
      (index : ℕ) (payload id : Text)
      → is_nil id ≡ false
      → is_nil payload ≡ false
      → is_incomplete (profile_row index payload id) ≡ false
  unfolding profile_row
  whole_row index payload id k m = rw (k, m) refl

  contains_self : (id : Text) (ids : List Text) → contains (id ∷ ids) id ≡ true
  unfolding contains
  contains_self id ids = rw (text_eq_refl id) refl

  row_decrypted :
      (p : ConnectionProfile) (index : ℕ) (payload id : Text)
      → cipher.decrypt payload key ≡ some (json.encode p)
      → json.decode (json.encode p) ≡ some p
      → is_nil p.id ≡ false
      → decrypted_id cipher id key ≡ some p.id
      → decrypt_connection_row json cipher (profile_row index payload id) key ≡ inr p
  unfolding decrypt_connection_row profile_row
  row_decrypted p index payload id d j n e =
      ap (decoded_profile json cipher id key) d
      ∙ ap (check_profile json cipher id key) j
      ∙ rw n (ap (check_id json cipher p) e ∙ rw (text_eq_refl p.id) refl)

  -- The rows of profiles with different identities: they can be stored, and are the profiles again.
  pub rows_encrypted :
      (rows : List ConnectionProfile) (draw index : ℕ) (ids : List Text) (seen : List ConnectionRow)
      → All IsProfile rows
      → AreIdentified ids rows
      → StoredAs ids seen
      → (stored : List ConnectionRow) × (encrypted_rows json cipher draw index rows key
          ≡ inr stored)
        × AreNew seen stored
        × ArePositioned index stored
        × (decrypt_rows json cipher stored key ≡ inr rows)
        × (is_nil stored ≡ is_nil rows)
  unfolding encrypted_rows decrypt_rows profile_row
  rows_encrypted [] draw index ids seen h i s = ([], refl, tt, tt, refl, refl)
  rows_encrypted (p ∷ rows) draw index ids seen (h, hs) (n, c, i) s =
      let (payload, e, m) =
        lawful.encrypts draw (json.encode p) key h.not_empty (is_nil_of_not_blank key b) in
      let (id, e', d, k) = id_encrypted (draw + 1) p.id n in
      let row = profile_row index payload id in
      let s' : StoredAs (p.id ∷ ids) (seen ++ row ∷ []) =
        All-append_end _ seen row (StoredAs-more p.id ids seen s)
          (p.id, d, contains_self p.id ids) in
      let (stored, f, new, placed, back, same) =
        rows_encrypted rows (draw + 2) (index + 1) (p.id ∷ ids) (seen ++ row ∷ []) hs i s' in
      (
        row ∷ stored,
        ap (λ o. cons_result o (encrypted_rows json cipher (draw + 2) (index + 1) rows key))
              (ap
                  (λ o.
                    connection_row json cipher index o (encrypted_id cipher (draw + 1) p.id key))
                  e
                ∙ ap (connection_row json cipher index (some payload)) e')
            ∙ ap (cons_result (inr row)) f,
        (whole_row index payload id k m, stored_new id p.id ids seen d c s, new),
        (refl, placed),
        ap (λ o. cons_result o (decrypt_rows json cipher stored key))
              (row_decrypted p index payload id (lawful.decrypts draw (json.encode p) key payload e)
                h.decodes n d)
            ∙ ap (cons_result (inr p)) back,
        refl,
      )
