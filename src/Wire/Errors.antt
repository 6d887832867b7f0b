-- ===== src/Wire/Errors.antt =====
-- The error types `LXMFError` (lxmf-rs/src/error.rs) and `RnsError` (lxmf-rs/src/rns/mod.rs), with
-- the two enumerations that the second one carries. The errors of third-party crates are kept by
-- their text.
use Prim.Native.String.{String}

pub data LxmfError : Type 0 where
  invalid_length invalid_payload invalid_bytes invalid_timestamp missing_signature : LxmfError
  qr msgpack_decode msgpack_encode io_error : String → LxmfError

pub data DeliveryMode : Type 0 where
  opportunistic direct propagated paper : DeliveryMode

pub data RnsCryptoPolicy : Type 0 where
  allow_plaintext enforce_ratchets : RnsCryptoPolicy

pub data RnsError : Type 0 where
  reticulum io : String → RnsError
  invalid_destination_hash : RnsError
  crypto_policy_violation : RnsCryptoPolicy → DeliveryMode → String → RnsError
  lxmf : LxmfError → RnsError
  msgpack : String → RnsError

-- `Result<A, E>`, and `?` as the bind of a `do` block.
pub data Result {ℓ} (E A : Type ℓ) : Type ℓ where
  ok : A → Result E A
  err : E → Result E A

infixl 5 ◌>>=◌
abbrev pub ◌>>=◌ {ℓ} : {E A B : Type ℓ} → Result E A → (A → Result E B) → Result E B
ok a >>= f = f a
err e >>= f = err e
