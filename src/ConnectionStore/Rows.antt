-- ===== src/ConnectionStore/Rows.antt =====
-- The rows of guis/connection_store_sqlite.go. JSON is a parameter, encryption the interface of
-- nbterminal.Security.Cipher.
use nbterminal.Base.{
  ℕ, ◌+◌, Option, none, some, List, [], ◌∷◌, if◌then◌else◌, is_nil, is_blank, Text, text_eq, ◌⊎◌,
  inl, inr,
}
use nbterminal.Base.Int.{pos}
use nbterminal.Profile.{ConnectionProfile}
use nbterminal.Security.Cipher.{Cipher, encrypted_id, decrypted_id}
use nbterminal.Database.Tx.{ConnectionRow, DbError}
use nbterminal.ConnectionStore.Normalize.{normalized_active_profile_id}

pub data StoreError : Type 0 where
  key_required encrypt_failed decrypt_failed decode_failed id_empty id_mismatch : StoreError
  config_failed legacy_unreadable legacy_not_removed : StoreError
  database : DbError → StoreError

-- `json.Marshal` of a profile, `json.Unmarshal` of one, and of the list in an older file.
pub record ProfileJson : Type 0 where
  pub encode : ConnectionProfile → Text
  pub decode : Text → Option ConnectionProfile
  pub decode_list : Text → Option (List ConnectionProfile)

abbrev pub cons_result : {A : Type 0} → StoreError ⊎ A → StoreError ⊎ List A → StoreError ⊎ List A
cons_result (inl e) rest = inl e
cons_result (inr a) (inl e) = inl e
cons_result (inr a) (inr rest) = inr (a ∷ rest)

abbrev pub or_encrypt_failed : Option Text → StoreError ⊎ Text
or_encrypt_failed none = inl encrypt_failed
or_encrypt_failed (some s) = inr s

abbrev pub or_decrypt_failed : Option Text → StoreError ⊎ Text
or_decrypt_failed none = inl decrypt_failed
or_decrypt_failed (some s) = inr s

module _ (json : ProfileJson) (cipher : Cipher) where
  abbrev pub connection_row : ℕ → Option Text → Option Text → StoreError ⊎ ConnectionRow
  connection_row index (some payload) (some id) =
      inr (record { id = id; payload_enc = payload; position = pos index })
  connection_row index _ _ = inl encrypt_failed

  -- The loop of `encryptedConnectionRows` from `index`; each round draws two random numbers.
  unfoldable pub encrypted_rows :
      ℕ → ℕ → List ConnectionProfile → Text → StoreError ⊎ List ConnectionRow
  unfolding encrypted_id
  encrypted_rows draw index [] key = inr []
  encrypted_rows draw index (p ∷ rows) key =
      cons_result
        (connection_row index (cipher.encrypt draw (json.encode p) key)
          (encrypted_id cipher (draw + 1) p.id key))
        (encrypted_rows (draw + 2) (index + 1) rows key)

  unfoldable pub encrypted_connection_rows :
      ℕ → List ConnectionProfile → Text → StoreError ⊎ List ConnectionRow
  unfolding encrypted_rows is_blank
  encrypted_connection_rows draw rows key =
      if is_blank key then inl key_required else encrypted_rows draw 0 rows key

  abbrev pub check_id : ConnectionProfile → Option Text → StoreError ⊎ ConnectionProfile
  check_id p none = inl id_mismatch
  check_id p (some id) = if text_eq id p.id then inr p else inl id_mismatch

  abbrev pub check_profile : Text → Text → Option ConnectionProfile → StoreError ⊎ ConnectionProfile
  check_profile stored_id key none = inl decode_failed
  check_profile stored_id key (some p) =
      if is_nil p.id then inl id_empty else check_id p (decrypted_id cipher stored_id key)

  abbrev pub decoded_profile : Text → Text → Option Text → StoreError ⊎ ConnectionProfile
  decoded_profile stored_id key none = inl decrypt_failed
  decoded_profile stored_id key (some plaintext) =
      check_profile stored_id key (json.decode plaintext)

  unfoldable pub decrypt_connection_row : ConnectionRow → Text → StoreError ⊎ ConnectionProfile
  unfolding text_eq decrypted_id
  decrypt_connection_row row key = decoded_profile row.id key (cipher.decrypt row.payload_enc key)

  -- The loop of `decryptConnectionRows`.
  unfoldable pub decrypt_rows : List ConnectionRow → Text → StoreError ⊎ List ConnectionProfile
  unfolding decrypt_connection_row
  decrypt_rows [] key = inr []
  decrypt_rows (row ∷ rows) key =
      cons_result (decrypt_connection_row row key) (decrypt_rows rows key)

  unfoldable pub decrypt_connection_rows :
      List ConnectionRow → Text → StoreError ⊎ List ConnectionProfile
  unfolding decrypt_rows is_blank
  decrypt_connection_rows rows key =
      if is_blank key then inl key_required else decrypt_rows rows key

  abbrev pub active_of : List ConnectionProfile → Option Text → StoreError ⊎ Text
  active_of rows none = inl decrypt_failed
  active_of rows (some id) = inr (normalized_active_profile_id rows id)

  -- `decryptedActiveProfileID`.
  unfoldable pub decrypted_active_profile_id :
      List ConnectionProfile → Text → Text → StoreError ⊎ Text
  unfolding decrypted_id normalized_active_profile_id
  decrypted_active_profile_id rows stored_id key =
      active_of rows (decrypted_id cipher stored_id key)
