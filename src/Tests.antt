-- ===== src/Tests.antt =====
-- Concrete parameters for the examples: numbers for floats, a digest that is the length of its input,
-- and a codec that knows one value.
mod Stamps
mod Messages
mod Syncs
mod Routers
mod Peers
mod Propagations
mod Tickets
mod Transports
mod Runtimes
mod SyncNodes
mod Containers
mod Links
use Prim.Native.String.{String}
use lxmf_rs.Prelude.{
  ℕ, ◌+◌, ◌-◌, ◌%◌, ◌*◌, ◌/◌, ◌<◌, ◌≤◌, ◌≡◌, refl, sym, ap, Bool, true, Option, none, some, List,
  [], ◌∷◌, arith, Bytes, length, All, replicate, ltb, leb,
}
use lxmf_rs.Crypto.{Crypto, Signing}
use lxmf_rs.Wire.Errors.{Result, ok}
use lxmf_rs.Wire.Request.{Hashing}
use lxmf_rs.Wire.Value.{Value, Float, Msgpack, ℤ, pos, negsuc}

abbrev whole_part : ℤ → ℕ
whole_part (pos n) = n
whole_part (negsuc n) = 0

-- The model of `f64` by natural numbers is enough where only its values matter.
abbrev pub toy_float : Float
toy_float = record {
  F64 = ℕ;
  F32 = ℕ;
  zero_f64 = 0;
  widen = λ x. x;
  of_i64 = whole_part;
  of_u64 = λ n. n;
  to_u64 = λ x. x;
  add = λ a b. a + b;
  subtract = λ a b. a - b;
  divide = λ a b. a / b;
  less = ltb;
  at_most = leb;
  millis = λ x. x * 1000;
}

abbrev pub toy_digest : Bytes → Bytes
toy_digest b = (length b % 256) ∷ replicate 31 7

pub toy_digest-bytes : (b : Bytes) → All (λ x. x < 256) (toy_digest b)
toy_digest-bytes b = omega arith

abbrev pub toy_crypto : Crypto
toy_crypto = record {
  sha256 = toy_digest;
  length-sha256 = λ b. refl;
  bytes-sha256 = toy_digest-bytes;
  hkdf_expand = λ salt material. some (1 ∷ []);
}

-- A key that signs everything with the same bytes.
abbrev pub toy_signing : Signing
toy_signing = record {
  SigningKey = ℕ;
  VerifyingKey = ℕ;
  verifying_key = λ k. k;
  sign = λ k b. replicate 64 (k % 256);
  verify = λ k b s. true;
  length-sign = λ k b. refl;
  verify-sign = λ k b. refl;
}

abbrev pub toy_hashing : Hashing
toy_hashing = record {
  sha256 = toy_digest;
  length-sha256 = λ b. refl;
  request_meta = 0;
  request_context = 9;
}

-- Writes one byte for everything, and reads the one value `v`.
abbrev pub codec_of : Value toy_float → Msgpack toy_float
codec_of v = record {
  write_value = λ w. 1 ∷ [];
  read_value = λ b. ok v;
  Encodable = λ w. w ≡ v;
  read-write = λ w e. ap ok (sym e);
  length-write_value = λ w. omega arith;
}

abbrev pub no_text : String → Bytes
no_text s = []

abbrev pub hash16 : ℕ → Bytes
hash16 n = replicate 16 n

abbrev pub hash32 : ℕ → Bytes
hash32 n = replicate 32 n
