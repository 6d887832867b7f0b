-- ===== src/Wire/Value.antt =====
-- `rmpv::Value`, its conversions in lxmf-rs/src/rns/mod.rs, and what the code uses of `f64`.
use Prim.Native.String.{String}
use lxmf_rs.Prelude.{
  ℕ, ◌-◌, ◌%◌, ◌^◌, ◌<◌, ◌≤◌, ◌≡◌, refl, ap, Bool, Option, none, some, List, [], ◌∷◌, arith, Bytes,
  length, ltb, ◌==◌, if◌then◌else◌,
}
use lxmf_rs.Wire.Errors.{Result, ok}

-- `i64` values, and the integers of MessagePack; `negsuc n` is -(n + 1).
pub data ℤ : Type 0 where
  pos : ℕ → ℤ
  negsuc : ℕ → ℤ

-- What the code uses of `f64` and `f32`: the operations of the hardware are not modelled.
pub record Float : Type 1 where
  pub F64 : Type 0
  pub F32 : Type 0
  pub zero_f64 : F64
  pub widen : F32 → F64
  pub of_i64 : ℤ → F64
  pub of_u64 : ℕ → F64
  pub to_u64 : F64 → ℕ
  pub add : F64 → F64 → F64
  pub subtract : F64 → F64 → F64
  pub divide : F64 → F64 → F64
  -- `<` and `<=`.
  pub less : F64 → F64 → Bool
  pub at_most : F64 → F64 → Bool
  -- `(x.max(0.0) * 1000.0) as u64`.
  pub millis : F64 → ℕ

-- `rmpv::Value`. A `Utf8String` of rmpv may hold bytes that are no UTF-8: `bad_string`.
mutual
  pub data Value (fl : Float) : Type 0 where
    nil : Value fl
    boolean : Bool → Value fl
    integer : ℤ → Value fl
    f32 : fl.F32 → Value fl
    f64 : fl.F64 → Value fl
    string : String → Value fl
    bad_string : Bytes → Value fl
    binary : Bytes → Value fl
    array : Values fl → Value fl
    dict : Entries fl → Value fl
    ext : ℕ → Bytes → Value fl

  pub data Values (fl : Float) : Type 0 where
    end : Values fl
    item : Value fl → Values fl → Values fl

  pub data Entries (fl : Float) : Type 0 where
    stop : Entries fl
    entry : Value fl → Value fl → Entries fl → Entries fl

module _ {fl : Float} where
  -- An array is a `Vec<Value>`.
  abbrev pub to_list : Values fl → List (Value fl)
  to_list end = []
  to_list (item v vs) = v ∷ to_list vs

  abbrev pub of_list : List (Value fl) → Values fl
  of_list [] = end
  of_list (v ∷ vs) = item v (of_list vs)

  pub to_list-of_list : (vs : List (Value fl)) → to_list (of_list vs) ≡ vs
  to_list-of_list [] = refl
  to_list-of_list (v ∷ vs) = ap (◌∷◌ v) (to_list-of_list vs)

  -- A map is a `Vec<(Value, Value)>`.
  abbrev pub to_pairs : Entries fl → List (Value fl × Value fl)
  to_pairs stop = []
  to_pairs (entry k v es) = (k, v) ∷ to_pairs es

  abbrev pub of_pairs : List (Value fl × Value fl) → Entries fl
  of_pairs [] = stop
  of_pairs ((k, v) ∷ es) = entry k v (of_pairs es)

  pub to_pairs-of_pairs : (es : List (Value fl × Value fl)) → to_pairs (of_pairs es) ≡ es
  to_pairs-of_pairs [] = refl
  to_pairs-of_pairs (e ∷ es) = ap (◌∷◌ e) (to_pairs-of_pairs es)

-- Casts: `n as i64` of a `u64`, and `z as u64`, `z as u32`, `z as u8` of an `i64`.
abbrev pub to_signed : ℕ → ℤ
to_signed n = if ltb n (2 ^ 63) then pos n else negsuc (2 ^ 64 - n - 1)

abbrev pub to_u64 : ℤ → ℕ
to_u64 (pos n) = n % 2 ^ 64
to_u64 (negsuc n) = 2 ^ 64 - 1 - n % 2 ^ 64

abbrev pub to_u32 : ℤ → ℕ
to_u32 (pos n) = n % 2 ^ 32
to_u32 (negsuc n) = 2 ^ 32 - 1 - n % 2 ^ 32

abbrev pub to_u8 : ℤ → ℕ
to_u8 (pos n) = n % 2 ^ 8
to_u8 (negsuc n) = 2 ^ 8 - 1 - n % 2 ^ 8

-- A `u64` survives its way through `i64`.
pub to_u64-to_signed : (n : ℕ) → n < 2 ^ 64 → to_u64 (to_signed n) ≡ n
to_u64-to_signed n h = ground arith

-- `Integer::as_i64` and `Integer::as_u64`.
abbrev pub int_as_i64 : ℤ → Option ℤ
int_as_i64 (pos n) = if ltb n (2 ^ 63) then some (pos n) else none
int_as_i64 (negsuc n) = if ltb n (2 ^ 63) then some (negsuc n) else none

abbrev pub int_as_u64 : ℤ → Option ℕ
int_as_u64 (pos n) = some n
int_as_u64 (negsuc n) = none

pub int_as_i64-to_signed : (n : ℕ) → n < 2 ^ 64 → int_as_i64 (to_signed n) ≡ some (to_signed n)
int_as_i64-to_signed n h = ground arith

module _ {fl : Float} where
  -- `Value::as_i64`.
  unfoldable pub as_i64 : Value fl → Option ℤ
  as_i64 (integer z) = int_as_i64 z
  as_i64 nil = none
  as_i64 _ = none

  unfoldable pub value_to_bytes : Value fl → Option Bytes
  value_to_bytes (binary b) = some b
  value_to_bytes nil = none
  value_to_bytes _ = none

  unfoldable pub value_to_f64 : Value fl → Option fl.F64
  value_to_f64 (f64 x) = some x
  value_to_f64 (f32 x) = some (fl.widen x)
  value_to_f64 (integer z) = elim (int_as_i64 z) [ none ↦ none | some v ↦ some (fl.of_i64 v) ]
  value_to_f64 nil = none
  value_to_f64 _ = none

  -- `value_to_fixed_bytes::<N>`: binary data of exactly `size` bytes.
  unfoldable pub value_to_fixed_bytes : ℕ → Value fl → Option Bytes
  unfolding value_to_bytes
  value_to_fixed_bytes size v = elim (value_to_bytes v) [
    | none ↦ none
    | some bytes ↦ if length bytes == size then some bytes else none
  ]

module _ (fl : Float) where
  pub value_to_fixed_bytes_binary :
      (size : ℕ) (b : Bytes)
      → length b ≡ size
      → value_to_fixed_bytes {fl = fl} size (binary b) ≡ some b
  unfolding value_to_fixed_bytes
  value_to_fixed_bytes_binary size b h = ground arith

-- The encoder and the decoder of the crate `rmpv`. A decoder may refuse bytes with a text. What the
-- code relies on: a value within the limits of the format (its depth and its lengths) is decoded to
-- itself, and no value is written as no bytes.
pub record Msgpack (fl : Float) : Type 1 where
  pub write_value : Value fl → Bytes
  pub read_value : Bytes → Result String (Value fl)
  pub Encodable : Value fl → Type 0
  pub read-write : (v : Value fl) → Encodable v → read_value (write_value v) ≡ ok v
  pub length-write_value : (v : Value fl) → 1 ≤ length (write_value v)
