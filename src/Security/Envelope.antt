-- ===== src/Security/Envelope.antt =====
-- The envelopes of internal/security/codec.go open again, and only with their code.
use nbterminal.Base.{
  ℕ, ◌≡◌, refl, sym, ap, ◌∙◌, subst, true, false, ◌||◌, none, some, List, [], ◌∷◌, ◌++◌,
  if◌then◌else◌, is_nil, ◌==◌, Text, text_eq, text_eq_refl, text_eq_iff, All, some_inj, Bool-cases,
  Option-cases, inl, inr,
}
use nbterminal.Security.Cipher.{IsCipher}
use nbterminal.Security.Codec.{
  Primitives, version, dot, split_dots, envelope_of, encrypt_payload, decrypt_ciphertext, check_mac,
  decrypt_parts, decrypt_payload, codec,
}

abbrev pub HasNoDot : Text → Type 0
HasNoDot s = All (λ c. (c == dot) ≡ false) s

split_one : (s : Text) → HasNoDot s → split_dots s ≡ s ∷ []
unfolding split_dots
split_one [] h = refl
split_one (c ∷ s) h = rw (split_one s h.1, h.0) refl

split_more : (s t : Text) → HasNoDot s → split_dots (s ++ dot ∷ t) ≡ s ∷ split_dots t
unfolding split_dots
split_more [] t h = refl
split_more (c ∷ s) t h = rw (split_more s t h.1, h.0) refl

-- What the packages promise: an encryption that is not empty is opened with the key, and base64 is
-- decoded again and has no dot.
pub record AreSound (p : Primitives) : Type 0 where
  pub opens :
      (draw : ℕ) (plaintext key : Text) → p.gt_dec (p.gt_enc draw plaintext key) key ≡ plaintext
  pub not_empty :
      (draw : ℕ) (plaintext key : Text)
      → is_nil plaintext ≡ false
      → is_nil key ≡ false
      → is_nil (p.gt_enc draw plaintext key) ≡ false
  pub decodes : (s : Text) → p.decode64 (p.encode64 s) ≡ some s
  pub no_dot : (s : Text) → HasNoDot (p.encode64 s)

module _ (p : Primitives) where
  split_envelope :
      (encoded key : Text)
      → HasNoDot encoded
      → HasNoDot (p.encode64 (p.payload_mac key version encoded))
      → split_dots (envelope_of p encoded key)
        ≡ version ∷ encoded ∷ p.encode64 (p.payload_mac key version encoded) ∷ []
  unfolding envelope_of
  split_envelope encoded key h m =
      split_more version (encoded ++ dot ∷ p.encode64 (p.payload_mac key version encoded))
        (refl, (refl, tt))
      ∙ ap (version ∷◌) (split_more encoded _ h)
      ∙ ap (λ l. version ∷ encoded ∷ l) (split_one _ m)

  module _ (sound : AreSound p) where
    open_envelope :
        (draw : ℕ) (plaintext key : Text)
        → is_nil plaintext ≡ false
        → is_nil key ≡ false
        → decrypt_payload p (envelope_of p (p.encode64 (p.gt_enc draw plaintext key)) key) key
          ≡ some plaintext
    unfolding decrypt_payload envelope_of
    open_envelope draw plaintext key n k =
        let c = p.gt_enc draw plaintext key in
        let e = p.encode64 c in
        let m = p.payload_mac key version e in
        rw k (
          ap (λ l. decrypt_parts p l key) (split_envelope e key (sound.no_dot c) (sound.no_dot m))
          ∙ ap (λ o. check_mac p version e o key) (sound.decodes m)
          ∙ rw (text_eq_refl m) (
              ap (λ o. decrypt_ciphertext p o key) (sound.decodes c)
              ∙ rw (sound.not_empty draw plaintext key n k)
                  (rw (sound.opens draw plaintext key, n) refl)))

    encrypt_some :
        (draw : ℕ) (plaintext key : Text)
        → is_nil plaintext ≡ false
        → is_nil key ≡ false
        → encrypt_payload p draw plaintext key
          ≡ some (envelope_of p (p.encode64 (p.gt_enc draw plaintext key)) key)
    unfolding encrypt_payload
    encrypt_some draw plaintext key n k = rw (n, k, sound.not_empty draw plaintext key n k) refl

    -- Every text that is not empty is encrypted under every key that is not, and opened again, if the
    -- packages encrypt it to something that is not empty, open what they encrypt, and base64 is decoded
    -- again and has no dot.
    pub decrypt-encrypt :
        (draw : ℕ) (plaintext key : Text)
        → is_nil plaintext ≡ false
        → is_nil key ≡ false
        → (s : Text) × (encrypt_payload p draw plaintext key ≡ some s)
          × (decrypt_payload p s key ≡ some plaintext)
    decrypt-encrypt draw plaintext key n k = (
      envelope_of p (p.encode64 (p.gt_enc draw plaintext key)) key,
      encrypt_some draw plaintext key n k,
      open_envelope draw plaintext key n k,
    )

    not_encrypted :
        (draw : ℕ) (plaintext key : Text)
        → (is_nil plaintext || is_nil key) ≡ true
        → encrypt_payload p draw plaintext key ≡ none
    unfolding encrypt_payload
    not_encrypted draw plaintext key h = rw h refl

    decrypts_lem :
        (draw : ℕ) (plaintext key s : Text)
        → encrypt_payload p draw plaintext key ≡ some s
        → decrypt_payload p s key ≡ some plaintext
    decrypts_lem draw plaintext key s h = elim (Bool-cases (is_nil plaintext)) [
      | inl n ↦ let e = not_encrypted draw plaintext key (ap (λ b. b || is_nil key) n) in cc
      | inr n ↦ elim (Bool-cases (is_nil key)) [
        | inl k ↦ let e = not_encrypted draw plaintext key (ap (λ b. b || is_nil key) n ∙ k) in cc
        | inr k ↦
            let e = some_inj (sym (encrypt_some draw plaintext key n k) ∙ h) in
            subst (λ t. decrypt_payload p t key ≡ some plaintext) e
              (open_envelope draw plaintext key n k)
      ]
    ]

    envelope_not_empty : (encoded key : Text) → is_nil (envelope_of p encoded key) ≡ false
    unfolding envelope_of
    envelope_not_empty encoded key = refl

    pub codec-IsCipher : IsCipher (codec p)
    codec-IsCipher = record {
      encrypts = λ draw plaintext key n k. (
        envelope_of p (p.encode64 (p.gt_enc draw plaintext key)) key,
        encrypt_some draw plaintext key n k,
        envelope_not_empty (p.encode64 (p.gt_enc draw plaintext key)) key,
      );
      decrypts = decrypts_lem;
    }

  -- The envelope has three parts, and the last is the code of the others under the key.
  abbrev pub IsAuthentic : List Text → Text → Type 0
  IsAuthentic parts key =
      (encoded mac : Text) × (parts ≡ version ∷ encoded ∷ mac ∷ [])
      × (p.decode64 mac ≡ some (p.payload_mac key version encoded))

  checked-mac :
      (encoded mac key t : Text)
      → check_mac p version encoded (p.decode64 mac) key ≡ some t
      → p.decode64 mac ≡ some (p.payload_mac key version encoded)
  checked-mac encoded mac key t h = elim (Option-cases (p.decode64 mac)) [
    | inl e ↦ let c = sym (ap (λ o. check_mac p version encoded o key) e) ∙ h in cc
    | inr (provided, e) ↦
        let h' = sym (ap (λ o. check_mac p version encoded o key) e) ∙ h in
        elim (Bool-cases (text_eq provided (p.payload_mac key version encoded))) [
          | inl q ↦ e ∙ ap some ((text_eq_iff provided (p.payload_mac key version encoded)).0 q)
          | inr q ↦
              let c =
                sym (ap (λ b. if b then decrypt_ciphertext p (p.decode64 encoded) key else none) q)
                ∙ h' in
              cc
        ]
  ]

  parts-IsAuthentic :
      (parts : List Text) (key t : Text)
      → decrypt_parts p parts key ≡ some t
      → IsAuthentic parts key
  parts-IsAuthentic [] key t h = cc
  parts-IsAuthentic (a ∷ []) key t h = cc
  parts-IsAuthentic (a ∷ b ∷ []) key t h = cc
  parts-IsAuthentic (a ∷ b ∷ c ∷ d ∷ parts) key t h = cc
  parts-IsAuthentic (ver ∷ encoded ∷ mac ∷ []) key t h = elim (Bool-cases (text_eq ver version)) [
    | inr q ↦
        let c =
          sym (ap (λ b. if b then check_mac p ver encoded (p.decode64 mac) key else none) q) ∙ h in
        cc
    | inl q ↦
        let v = (text_eq_iff ver version).0 q in
        let h' =
          sym (ap (λ b. if b then check_mac p ver encoded (p.decode64 mac) key else none) q) ∙ h in
        let h'' = sym (ap (λ w. check_mac p w encoded (p.decode64 mac) key) v) ∙ h' in
        (encoded, mac, ap (λ w. w ∷ encoded ∷ mac ∷ []) v, checked-mac encoded mac key t h'')
  ]

  -- An envelope that is decrypted has three parts: the version, the ciphertext, and the code of both
  -- under the key.
  pub decrypted-IsAuthentic :
      (envelope key t : Text)
      → decrypt_payload p envelope key ≡ some t
      → IsAuthentic (split_dots envelope) key
  unfolding decrypt_payload
  decrypted-IsAuthentic envelope key t h = elim (Bool-cases (is_nil envelope || is_nil key)) [
    | inl e ↦
        let c =
          sym (ap (λ b. if b then none else decrypt_parts p (split_dots envelope) key) e) ∙ h in
        cc
    | inr e ↦
        parts-IsAuthentic (split_dots envelope) key t
          (sym (ap (λ b. if b then none else decrypt_parts p (split_dots envelope) key) e) ∙ h)
  ]
