-- ===== src/Security/Codec.antt =====
-- internal/security/codec.go. The encryption of package gtbox, base64 and HMAC are parameters.
use nbterminal.Base.{
  ℕ, ◌||◌, Option, none, some, List, [], ◌∷◌, ◌++◌, if◌then◌else◌, is_nil, ◌==◌, Text, codes,
  text_eq,
}
use nbterminal.Security.Cipher.{Cipher}

pub record Primitives : Type 0 where
  -- `GTEnc` with what it draws, and `GTDec`: "" is a failure.
  pub gt_enc : ℕ → Text → Text → Text
  pub gt_dec : Text → Text → Text
  -- `base64.RawURLEncoding`.
  pub encode64 : Text → Text
  pub decode64 : Text → Option Text
  -- `payloadMAC`: the key, the version and the encoded ciphertext.
  pub payload_mac : Text → Text → Text → Text

abbrev pub version : Text
version = codes "v1"

abbrev pub dot : ℕ
dot = 0x2e

abbrev pub push_part : ℕ → List Text → List Text
push_part c [] = (c ∷ []) ∷ []
push_part c (part ∷ parts) = (c ∷ part) ∷ parts

-- `strings.Split(s, ".")`.
unfoldable pub split_dots : Text → List Text
split_dots [] = [] ∷ []
split_dots (c ∷ s) = let rest = split_dots s in if c == dot then [] ∷ rest else push_part c rest

module _ (p : Primitives) where
  unfoldable pub envelope_of : Text → Text → Text
  envelope_of encoded key =
      version ++ dot ∷ (encoded ++ dot ∷ p.encode64 (p.payload_mac key version encoded))

  unfoldable pub encrypt_payload : ℕ → Text → Text → Option Text
  unfolding envelope_of
  encrypt_payload draw plaintext key =
      let ciphertext = p.gt_enc draw plaintext key in
      if is_nil plaintext || is_nil key
      then none
      else if is_nil ciphertext
      then none
      else some (envelope_of (p.encode64 ciphertext) key)

  abbrev pub plaintext_of : Text → Text → Option Text
  plaintext_of ciphertext key =
      if is_nil ciphertext
      then none
      else if is_nil (p.gt_dec ciphertext key)
      then none
      else some (p.gt_dec ciphertext key)

  abbrev pub decrypt_ciphertext : Option Text → Text → Option Text
  decrypt_ciphertext none key = none
  decrypt_ciphertext (some ciphertext) key = plaintext_of ciphertext key

  -- The parts of the envelope, the last of them decoded.
  abbrev pub check_mac : Text → Text → Option Text → Text → Option Text
  check_mac ver encoded none key = none
  check_mac ver encoded (some provided) key =
      if text_eq provided (p.payload_mac key ver encoded)
      then decrypt_ciphertext (p.decode64 encoded) key
      else none

  abbrev pub decrypt_parts : List Text → Text → Option Text
  decrypt_parts (ver ∷ encoded ∷ mac ∷ []) key =
      if text_eq ver version then check_mac ver encoded (p.decode64 mac) key else none
  decrypt_parts _ key = none

  unfoldable pub decrypt_payload : Text → Text → Option Text
  unfolding split_dots text_eq
  decrypt_payload envelope key =
      if is_nil envelope || is_nil key then none else decrypt_parts (split_dots envelope) key

  abbrev pub codec : Cipher
  codec = record { encrypt = encrypt_payload; decrypt = decrypt_payload }
