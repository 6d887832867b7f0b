-- ===== src/Message/Packed.antt =====
-- A message on its way through a propagation node or on paper, of lxmf-rs/src/message.rs, once its
-- payload is encrypted. The base64 of the crate `base64` is a parameter.
use Prim.Native.String.{String, ◌++◌ as ◌++ˢ◌}
use lxmf_rs.Prelude.{ℕ, Option, none, some, [], ◌++◌, Bytes}
use lxmf_rs.Crypto.{Crypto}
use lxmf_rs.Stamp.{generate_stamp, workblock_expand_rounds_pn}
use lxmf_rs.Wire.Errors.{Result, ok, err, LxmfError, invalid_payload}
use lxmf_rs.Wire.Value.{Value, Float, Msgpack, f64, binary, array, item, end}
use lxmf_rs.Message.{LxMessage}

-- The bytes of an optional stamp.
abbrev pub bytes_or_none : Option Bytes → Bytes
bytes_or_none none = []
bytes_or_none (some stamp) = stamp

module _ {fl : Float} where
  unfoldable pub paper_packed_from_encrypted : LxMessage fl → Bytes → Bytes
  paper_packed_from_encrypted m encrypted = m.destination_hash ++ encrypted

  unfoldable pub propagation_container : LxMessage fl → Bytes → fl.F64 → Option Bytes → Value fl
  propagation_container m encrypted timestamp stamp =
      let lxm_data = m.destination_hash ++ (encrypted ++ bytes_or_none stamp) in
      array (item (f64 timestamp) (item (array (item (binary lxm_data) end)) end))

  unfoldable pub propagation_packed_from_encrypted :
      Msgpack fl → LxMessage fl → Bytes → fl.F64 → Option Bytes → Bytes
  unfolding propagation_container
  propagation_packed_from_encrypted codec m encrypted timestamp stamp =
      codec.write_value (propagation_container m encrypted timestamp stamp)

  unfoldable pub transient_id_from_encrypted : Crypto → LxMessage fl → Bytes → Bytes
  transient_id_from_encrypted cr m encrypted = cr.sha256 (m.destination_hash ++ encrypted)

  -- The id, the stamp and its value.
  unfoldable pub generate_propagation_stamp :
      Crypto
      → Msgpack fl
      → (ℕ → Bytes)
      → LxMessage fl
      → Bytes
      → ℕ
      → Result LxmfError (Bytes × Bytes × ℕ)
  unfolding transient_id_from_encrypted
  generate_propagation_stamp cr codec random m encrypted target_cost =
      let id = transient_id_from_encrypted cr m encrypted in
      let made = generate_stamp cr codec random id target_cost workblock_expand_rounds_pn in
      elim made.0 [ none ↦ err invalid_payload | some stamp ↦ ok (id, stamp, made.1) ]

unfoldable pub as_uri_from_paper : (Bytes → String) → Bytes → String
as_uri_from_paper base64 paper_packed = "lxm://" ++ˢ base64 paper_packed
