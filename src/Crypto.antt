-- ===== src/Crypto.antt =====
-- The cryptography that lxmf-rs takes from the crates `sha2`, `hkdf` and `ed25519-dalek`, with what
-- the code relies on.
use lxmf_rs.Prelude.{◌<◌, ◌≡◌, Bool, true, Option, Bytes, length, All}

pub record Crypto : Type 0 where
  -- `Sha256`: a digest of 32 bytes.
  pub sha256 : Bytes → Bytes
  pub length-sha256 : (b : Bytes) → length (sha256 b) ≡ 32
  pub bytes-sha256 : (b : Bytes) → All (λ x. x < 256) (sha256 b)
  -- `Hkdf::<Sha256>::new(Some(salt), material)` and `expand(&[], &mut [0; 256])`.
  pub hkdf_expand : Bytes → Bytes → Option Bytes

-- Ed25519: a signature of 64 bytes, which the key's public half accepts.
pub record Signing : Type 1 where
  pub SigningKey : Type 0
  pub VerifyingKey : Type 0
  pub verifying_key : SigningKey → VerifyingKey
  pub sign : SigningKey → Bytes → Bytes
  pub verify : VerifyingKey → Bytes → Bytes → Bool
  pub length-sign : (k : SigningKey) (b : Bytes) → length (sign k b) ≡ 64
  pub verify-sign : (k : SigningKey) (b : Bytes) → verify (verifying_key k) b (sign k b) ≡ true
