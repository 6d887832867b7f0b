-- ===== src/Message/Wire.antt =====
-- The bytes of a message, of lxmf-rs/src/message.rs: its payload, its id, the part that is signed,
-- and the decoder.
use Prim.Native.String.{String}
use lxmf_rs.Prelude.{
  ◌+◌, ◌*◌, Bool, false, Option, none, some, List, [], ◌∷◌, ◌++◌, Bytes, ltb, if◌then◌else◌, length,
  take, drop, is_some,
}
use lxmf_rs.Crypto.{Crypto, Signing}
use lxmf_rs.Wire.Errors.{
  Result, ok, err, ◌>>=◌, LxmfError, invalid_length, invalid_payload, invalid_bytes,
  invalid_timestamp, missing_signature, msgpack_decode,
}
use lxmf_rs.Wire.Value.{Value, Float, Msgpack, nil, f64, binary, string, array, to_list, of_list}
use lxmf_rs.Wire.Value.{value_to_f64 as rns_f64}
use lxmf_rs.Message.{LxMessage, new}

-- `ok_or`, and the `?` on the error of the decoder.
abbrev pub ok_or : {A : Type 0} → LxmfError → Option A → Result LxmfError A
ok_or e none = err e
ok_or e (some a) = ok a

abbrev pub of_decoder : {A : Type 0} → Result String A → Result LxmfError A
of_decoder (ok a) = ok a
of_decoder (err text) = err (msgpack_decode text)

module _ {fl : Float} where
  -- `utf8` is `String::as_bytes`.
  unfoldable pub value_to_bytes : (String → Bytes) → Value fl → Result LxmfError Bytes
  value_to_bytes utf8 (binary b) = ok b
  value_to_bytes utf8 (string s) = ok (utf8 s)
  value_to_bytes utf8 nil = err invalid_bytes
  value_to_bytes utf8 _ = err invalid_bytes

  unfoldable pub value_to_f64 : Value fl → Result LxmfError fl.F64
  unfolding rns_f64
  value_to_f64 v = ok_or invalid_timestamp (rns_f64 v)

  -- The values of `pack_payload`.
  unfoldable pub payload_values : LxMessage fl → Bool → List (Value fl)
  payload_values m include_stamp =
      let stamp : List (Value fl) = elim m.stamp [ none ↦ [] | some s ↦ binary s ∷ [] ] in
      f64 m.timestamp
      ∷ (binary m.title ∷ (binary m.content ∷ (m.fields ∷ (if include_stamp then stamp else []))))

unfoldable pub truncated_hash : Crypto → Bytes → Bytes
truncated_hash cr b = take 16 (cr.sha256 b)

unfoldable pub compute_message_id : Crypto → Bytes → Bytes → Bytes → Bytes
compute_message_id cr destination_hash source_hash packed_payload =
    cr.sha256 (destination_hash ++ (source_hash ++ packed_payload))

unfoldable pub build_signed_part : Bytes → Bytes → Bytes → Bytes → Bytes
build_signed_part destination_hash source_hash packed_payload message_id =
    destination_hash ++ (source_hash ++ (packed_payload ++ message_id))

module _ {fl : Float} (codec : Msgpack fl) where
  unfoldable pub pack_payload_values : List (Value fl) → Bytes
  pack_payload_values values = codec.write_value (array (of_list values))

  unfoldable pub pack_payload : LxMessage fl → Bool → Bytes
  unfolding pack_payload_values payload_values
  pack_payload m include_stamp = pack_payload_values (payload_values m include_stamp)

  unfoldable pub encode_with_signature : LxMessage fl → Result LxmfError Bytes
  unfolding pack_payload
  encode_with_signature m = do
    signature ← ok_or missing_signature m.signature
    ok (m.destination_hash ++ (m.source_hash ++ (signature ++ pack_payload m (is_some m.stamp))))

module _ {fl : Float} (cr : Crypto) (codec : Msgpack fl) where
  -- The id of a message, as `encode_signed`, `verify` and `validate_stamp` compute it.
  unfoldable pub message_id_of : LxMessage fl → Bytes
  unfolding compute_message_id pack_payload
  message_id_of m =
      compute_message_id cr m.destination_hash m.source_hash (pack_payload codec m false)

  unfoldable pub signed_part_of : LxMessage fl → Bytes
  unfolding build_signed_part message_id_of
  signed_part_of m =
      build_signed_part m.destination_hash m.source_hash (pack_payload codec m false)
        (message_id_of m)

  unfoldable pub verify : (ed : Signing) → ed.VerifyingKey → LxMessage fl → Result LxmfError Bool
  unfolding signed_part_of
  verify ed key m = do
    signature ← ok_or missing_signature m.signature
    ok (ed.verify key (signed_part_of m) signature)

  unfoldable pub stamp_of : (String → Bytes) → List (Value fl) → Result LxmfError (Option Bytes)
  unfolding value_to_bytes
  stamp_of utf8 [] = ok none
  stamp_of utf8 (v ∷ _) = do s ← value_to_bytes utf8 v; ok (some s)

  unfoldable pub decode_items :
      (String → Bytes) → Bytes → Bytes → Bytes → List (Value fl) → Result LxmfError (LxMessage fl)
  unfolding stamp_of value_to_f64 pack_payload_values compute_message_id new
  decode_items utf8 destination_hash source_hash signature (a ∷ (b ∷ (c ∷ (d ∷ rest)))) = do
    timestamp ← value_to_f64 a
    title ← value_to_bytes utf8 b
    content ← value_to_bytes utf8 c
    stamp ← stamp_of utf8 rest
    let packed = pack_payload_values codec (a ∷ (b ∷ (c ∷ (d ∷ []))))
    ok (record (new destination_hash source_hash) {
      timestamp = timestamp;
      title = title;
      content = content;
      fields = d;
      stamp = stamp;
      signature = some signature;
      message_id = some (compute_message_id cr destination_hash source_hash packed);
    })
  decode_items utf8 destination_hash source_hash signature _ = err invalid_payload

  unfoldable pub items_of : Value fl → Result LxmfError (List (Value fl))
  items_of (array vs) = ok (to_list vs)
  items_of nil = err invalid_payload
  items_of _ = err invalid_payload

  -- The destination, the source, the signature and the payload, once the bytes are cut.
  unfoldable pub decode_parts :
      (String → Bytes) → Bytes → Bytes → Bytes → Bytes → Result LxmfError (LxMessage fl)
  unfolding decode_items items_of
  decode_parts utf8 destination_hash source_hash signature packed_payload = do
    value ← of_decoder (codec.read_value packed_payload)
    items ← items_of value
    decode_items utf8 destination_hash source_hash signature items

  unfoldable pub decode : (String → Bytes) → Bytes → Result LxmfError (LxMessage fl)
  unfolding decode_parts
  decode utf8 bytes =
      if ltb (length bytes) (16 * 2 + 64 + 1)
      then err invalid_length
      else decode_parts utf8 (take 16 bytes) (take 16 (drop 16 bytes))
          (take 64 (drop (16 * 2) bytes)) (drop (16 * 2 + 64) bytes)
