-- ===== src/Transport/Inbound.antt =====
-- The decoders of lxmf-rs/src/rns/transport.rs: `decode_packet_with_source`, `decode_propagated_payload`
-- and `decode_propagation_resource_payload`.
use Prim.Native.String.{String}
use lxmf_rs.Prelude.{Bool, true, Option, List, [], ◌∷◌, ◌++◌, Bytes}
use lxmf_rs.Crypto.{Crypto}
use lxmf_rs.Wire.Errors.{
  Result, ok, err, ◌>>=◌, LxmfError, invalid_payload, RnsError, lxmf, DeliveryMode, opportunistic,
  direct, propagated, paper,
}
use lxmf_rs.Wire.Value.{Value, Values, Float, Msgpack, nil, f64, binary, array, item, end}
use lxmf_rs.Wire.Request.{of_decoder}
use lxmf_rs.Message.{LxMessage}
use lxmf_rs.Message.Wire.{decode}
use lxmf_rs.Transport.Outbound.{Packet}

-- The answers of these decoders; `Received` has others, which packets of these kinds do not give.
pub data Received (fl : Float) : Type 0 where
  message : LxMessage fl → Received fl
  propagated_data : fl.F64 → Bytes → Bytes → Option Bytes → Bool → Received fl

abbrev pub bad_payload : {A : Type 0} → Result RnsError A
bad_payload = err (lxmf invalid_payload)

-- The `?` on an error of the message's decoder.
abbrev pub of_lxmf : {A : Type 0} → Result LxmfError A → Result RnsError A
of_lxmf (ok a) = ok a
of_lxmf (err e) = err (lxmf e)

module _ {fl : Float} where
  unfoldable pub array_of : Value fl → Result RnsError (Values fl)
  array_of (array vs) = ok vs
  array_of nil = bad_payload
  array_of _ = bad_payload

  unfoldable pub f64_of : Value fl → Result RnsError fl.F64
  f64_of (f64 x) = ok x
  f64_of nil = bad_payload
  f64_of _ = bad_payload

  unfoldable pub binary_of : Value fl → Result RnsError Bytes
  binary_of (binary b) = ok b
  binary_of nil = bad_payload
  binary_of _ = bad_payload

  -- The first two values, of two at least.
  unfoldable pub two_of : Values fl → Result RnsError (Value fl × Value fl)
  two_of (item a (item b rest)) = ok (a, b)
  two_of _ = bad_payload

  -- The only value.
  unfoldable pub one_of : Values fl → Result RnsError (Value fl)
  one_of (item a end) = ok a
  one_of _ = bad_payload

  unfoldable pub binaries_of : Values fl → Result RnsError (List Bytes)
  unfolding binary_of
  binaries_of end = ok []
  binaries_of (item v vs) = do b ← binary_of v; rest ← binaries_of vs; ok (b ∷ rest)

  unfoldable pub payload_of_value : Value fl → Result RnsError (List Bytes)
  unfolding array_of two_of binaries_of
  payload_of_value value = do
    arr ← array_of value
    two ← two_of arr
    messages ← array_of two.1
    binaries_of messages

  -- The time and the message of a container.
  unfoldable pub propagated_of_value : Value fl → Result RnsError (fl.F64 × Bytes)
  unfolding array_of two_of one_of f64_of binary_of
  propagated_of_value value = do
    arr ← array_of value
    two ← two_of arr
    timestamp ← f64_of two.0
    inner ← array_of two.1
    only ← one_of inner
    lxm_data ← binary_of only
    ok (timestamp, lxm_data)

module _ {fl : Float} (codec : Msgpack fl) where
  unfoldable pub decode_propagation_resource_payload : Bytes → Result RnsError (List Bytes)
  unfolding payload_of_value
  decode_propagation_resource_payload payload = do
    value ← of_decoder (codec.read_value payload)
    payload_of_value value

module _ {fl : Float} (cr : Crypto) (codec : Msgpack fl) (utf8 : String → Bytes) where
  unfoldable pub decode_propagated_payload :
      Bytes → Option Bytes → Bool → Result RnsError (Received fl)
  unfolding propagated_of_value
  decode_propagated_payload payload source_hash count_client_receive = do
    value ← of_decoder (codec.read_value payload)
    found ← propagated_of_value value
    ok (propagated_data found.0 found.1 (cr.sha256 found.1) source_hash count_client_receive)

  unfoldable pub decode_packet_with_source :
      Packet → DeliveryMode → Option Bytes → Result RnsError (Received fl)
  unfolding decode_propagated_payload
  decode_packet_with_source p opportunistic source_hash = do
    msg ← of_lxmf (decode cr codec utf8 (p.destination ++ p.payload))
    ok (message msg)
  decode_packet_with_source p direct source_hash = do
    msg ← of_lxmf (decode cr codec utf8 p.payload)
    ok (message msg)
  decode_packet_with_source p propagated source_hash =
      decode_propagated_payload p.payload source_hash true
  decode_packet_with_source p paper source_hash = bad_payload
