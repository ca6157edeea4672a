-- ===== src/Security/Cipher.antt =====
-- The interface of internal/security/codec.go to the stores: `EncryptPayloadGT` and
-- `DecryptPayloadGT`, with `none` for an error. An encryption takes the random number it draws, since
-- two encryptions of one text differ.
use nbterminal.Base.{ℕ, ◌≡◌, false, Option, some, [], ◌∷◌, is_nil, Text}

pub record Cipher : Type 0 where
  pub encrypt : ℕ → Text → Text → Option Text
  pub decrypt : Text → Text → Option Text

-- What the stores rely on.
pub record IsCipher (c : Cipher) : Type 0 where
  pub encrypts :
      (draw : ℕ) (plaintext key : Text)
      → is_nil plaintext ≡ false
      → is_nil key ≡ false
      → (s : Text) × (c.encrypt draw plaintext key ≡ some s) × (is_nil s ≡ false)
  pub decrypts :
      (draw : ℕ) (plaintext key s : Text)
      → c.encrypt draw plaintext key ≡ some s
      → c.decrypt s key ≡ some plaintext

module _ (c : Cipher) where
  -- `encryptedProfileStorageID` and `encryptedHistoryConnectionID`.
  unfoldable pub encrypted_id : ℕ → Text → Text → Option Text
  encrypted_id draw id key = elim id [ [] ↦ some [] | b ∷ s ↦ c.encrypt draw (b ∷ s) key ]

  -- `decryptedProfileStorageID` and `decryptedHistoryConnectionID`.
  unfoldable pub decrypted_id : Text → Text → Option Text
  decrypted_id id key = elim id [ [] ↦ some [] | b ∷ s ↦ c.decrypt (b ∷ s) key ]
