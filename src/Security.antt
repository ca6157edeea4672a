-- ===== src/Security.antt =====
-- The encryption of what is stored: internal/security/codec.go.
pub mod Cipher
pub mod Codec
pub mod Envelope
