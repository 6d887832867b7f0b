-- ===== src/Propagation/Codec.antt =====
-- The entries of a `PropagationStore` on the wire, of lxmf-rs/src/rns/storage.rs.
use Prim.Native.String.{String}
use lxmf_rs.Prelude.{
  ℕ, ◌<◌, ◌^◌, ◌≡◌, refl, Option, none, some, List, [], ◌∷◌, arith, Bytes, length, take, get_elem?,
  leb, if◌then◌else◌,
}
use lxmf_rs.Wire.Errors.{Result, ok, err, ◌>>=◌, RnsError, msgpack}
use lxmf_rs.Wire.Request.{or_fail, of_decoder}
use lxmf_rs.Wire.Value.{
  Value, Float, Msgpack, ℤ, pos, negsuc, nil, integer, f64, binary, string, array, to_list, of_list,
  to_signed, as_i64, value_to_bytes, value_to_f64, value_to_fixed_bytes,
  value_to_fixed_bytes_binary,
}
use lxmf_rs.Propagation.{PropagationEntry}

-- `u64::try_from`.
abbrev pub unsigned : ℤ → Option ℕ
unsigned (pos n) = some n
unsigned (negsuc n) = none

-- `Option::or`.
abbrev pub or_else {ℓ} : {A : Type ℓ} → Option A → Option A → Option A
or_else none b = b
or_else (some a) b = some a

-- The hash in front of the message, if the entry names none.
unfoldable pub destination_of : Option Bytes → Bytes → Option Bytes
destination_of (some hash) lxm_data = some hash
destination_of none lxm_data = if leb 16 (length lxm_data) then some (take 16 lxm_data) else none

module _ {fl : Float} where
  unfoldable pub value_to_opt_u64 : Value fl → Option ℕ
  value_to_opt_u64 v = elim (as_i64 v) [ none ↦ none | some z ↦ unsigned z ]

  unfoldable pub value_to_opt_string : Value fl → Option String
  value_to_opt_string (string s) = some s
  value_to_opt_string nil = none
  value_to_opt_string _ = none

  -- The match on `Value::Nil`.
  unfoldable pub unless_nil : {A : Type 0} → (Value fl → Option A) → Value fl → Option A
  unless_nil f nil = none
  unless_nil f v = f v

  -- `if arr.len() > i { … } else { None }`.
  unfoldable pub at : {A : Type 0} → (Value fl → Option A) → List (Value fl) → ℕ → Option A
  unfolding unless_nil
  at f arr i = elim (get_elem? arr i) [ none ↦ none | some v ↦ unless_nil f v ]

  unfoldable pub hash_value : Option Bytes → Value fl
  hash_value none = nil
  hash_value (some hash) = binary hash

  unfoldable pub path_value : Option String → Value fl
  path_value none = nil
  path_value (some path) = string path

  unfoldable pub size_value : Option ℕ → Value fl
  size_value none = nil
  size_value (some size) = integer (to_signed size)

  unfoldable pub propagation_entry_to_value : PropagationEntry fl → Value fl
  unfolding hash_value path_value size_value
  propagation_entry_to_value e = array (
      of_list {fl = fl} (
        binary e.transient_id
        ∷ (binary e.lxm_data
            ∷ (f64 e.timestamp
                ∷ (hash_value e.destination_hash
                    ∷ (path_value e.filepath ∷ (size_value e.msg_size ∷ [])))))))

  unfoldable pub entry_of_items : List (Value fl) → Result RnsError (PropagationEntry fl)
  unfolding value_to_fixed_bytes value_to_bytes value_to_f64 at value_to_opt_string value_to_opt_u64
      destination_of
  entry_of_items (a ∷ (b ∷ (c ∷ rest))) = do
    transient_id ← or_fail "invalid transient id" (value_to_fixed_bytes 32 a)
    lxm_data ← or_fail "invalid lxm data" (value_to_bytes b)
    timestamp ← or_fail "invalid timestamp" (value_to_f64 c)
    ok (record {
      transient_id = transient_id;
      lxm_data = lxm_data;
      timestamp = timestamp;
      destination_hash = destination_of (at (value_to_fixed_bytes 16) rest 0) lxm_data;
      filepath = at value_to_opt_string rest 1;
      msg_size = or_else (at value_to_opt_u64 rest 2) (some (length lxm_data));
    })
  entry_of_items _ = err (msgpack "propagation entry missing fields")

  unfoldable pub propagation_entry_from_value : Value fl → Result RnsError (PropagationEntry fl)
  unfolding entry_of_items
  propagation_entry_from_value (array vs) = entry_of_items (to_list vs)
  propagation_entry_from_value nil = err (msgpack "propagation entry must be array")
  propagation_entry_from_value _ = err (msgpack "propagation entry must be array")

module _ {fl : Float} (codec : Msgpack fl) where
  unfoldable pub propagation_entry_to_bytes : PropagationEntry fl → Bytes
  unfolding propagation_entry_to_value
  propagation_entry_to_bytes e = codec.write_value (propagation_entry_to_value e)

  unfoldable pub propagation_entry_from_bytes : Bytes → Result RnsError (PropagationEntry fl)
  unfolding propagation_entry_from_value
  propagation_entry_from_bytes bytes = do
    value ← of_decoder (codec.read_value bytes)
    propagation_entry_from_value value

  abbrev pub IsHash : Option Bytes → Type 0
  IsHash none = Unit
  IsHash (some hash) = length hash ≡ 16

  abbrev pub IsSize : Option ℕ → Type 0
  IsSize none = Unit
  IsSize (some size) = size < 2 ^ 63

  -- An entry that the wire can hold: its hashes are whole, and its size is within `i64`.
  pub record IsWhole (e : PropagationEntry fl) : Type 0 where
    pub length-id : length e.transient_id ≡ 32
    pub hash : IsHash e.destination_hash
    pub size : IsSize e.msg_size
    pub encodable : codec.Encodable (propagation_entry_to_value e)

  -- The entry with what its message says where the entry itself does not: the destination, which is
  -- in front of the message, and the size.
  abbrev pub completed : PropagationEntry fl → PropagationEntry fl
  completed e = record e {
    destination_hash = destination_of e.destination_hash e.lxm_data;
    msg_size = or_else e.msg_size (some (length e.lxm_data));
  }

  path_at :
      (path : Option String) (a b : Value fl)
      → at value_to_opt_string (a ∷ (path_value path ∷ (b ∷ []))) 1 ≡ path
  unfolding at unless_nil value_to_opt_string path_value
  path_at none a b = refl
  path_at (some path) a b = refl

  hash_at :
      (hash : Option Bytes) (rest : List (Value fl))
      → IsHash hash
      → at (value_to_fixed_bytes 16) (hash_value hash ∷ rest) 0 ≡ hash
  unfolding at unless_nil hash_value
  hash_at none rest l = refl
  hash_at (some hash) rest l = value_to_fixed_bytes_binary fl 16 hash l

  size_at :
      (size : Option ℕ) (a b : Value fl)
      → IsSize size
      → at value_to_opt_u64 (a ∷ (b ∷ (size_value size ∷ []))) 2 ≡ size
  unfolding at unless_nil value_to_opt_u64 size_value as_i64
  size_at none a b h = refl
  size_at (some size) a b h = ground arith

  -- An entry comes back from the wire as it was, with the destination that stands in front of its
  -- message if it has none of its own and the message is long enough, and with the length of the
  -- message if it has no size; if its id has 32 bytes, its destination 16, its size fits in `i64`
  -- and the entry is within the limits of the format.
  pub propagation_entry-from-to_bytes :
      (e : PropagationEntry fl)
      → IsWhole e
      → propagation_entry_from_bytes (propagation_entry_to_bytes e) ≡ ok (completed e)
  unfolding propagation_entry_from_bytes propagation_entry_to_bytes propagation_entry_from_value
      propagation_entry_to_value entry_of_items value_to_bytes value_to_f64
  propagation_entry-from-to_bytes e w =
      let hash = hash_value e.destination_hash in
      let path = path_value e.filepath in
      let size = size_value e.msg_size in
      rw
        (
          codec.read-write (propagation_entry_to_value e) w.encodable,
          value_to_fixed_bytes_binary fl 32 e.transient_id w.length-id,
          hash_at e.destination_hash (path ∷ (size ∷ [])) w.hash,
          path_at e.filepath hash size,
          size_at e.msg_size hash path w.size,
        )
        refl
