-- ===== src/Sync/Codec.antt =====
-- `encode_peer_sync_request`, `decode_peer_sync_request` and the same for responses.
use lxmf_rs.Prelude.{
  Bool, true, ◌&&◌, Option, none, some, List, [], ◌∷◌, map, Bytes, length, leb, ◌==◌, if◌then◌else◌,
}
use lxmf_rs.Wire.Errors.{Result, ok, err, RnsError, msgpack, ◌>>=◌}
use lxmf_rs.Wire.Request.{or_fail, of_decoder}
use lxmf_rs.Wire.Value.{
  Value, Values, Float, Msgpack, ℤ, pos, negsuc, nil, boolean, integer, f64, binary, array, end,
  item, to_list, of_list, int_as_i64, value_to_bytes, value_to_f64, value_to_fixed_bytes,
}
use lxmf_rs.Sync.{
  PeerSyncRequest, offer, message_get_list, message_get, message_ack, PeerSyncResponse, error, bool,
  id_list, payload,
}

unfoldable pub get_or_ack :
    {F : Type 0} → Option (List Bytes) → Option (List Bytes) → Option F → PeerSyncRequest F
get_or_ack none none limit = message_get_list
get_or_ack none (some delivered) limit = message_ack delivered
get_or_ack (some wants) (some haves) limit = message_get wants haves limit
get_or_ack (some wants) none limit = message_get wants [] limit

abbrev pub all_fixed : List Bytes → Bool
all_fixed [] = true
all_fixed (b ∷ bs) = (length b == 32) && all_fixed bs

unfoldable pub error_code_of : Option ℤ → Result RnsError PeerSyncResponse
error_code_of none = err (msgpack "invalid error code")
error_code_of (some (negsuc n)) = err (msgpack "error code out of range")
error_code_of (some (pos code)) =
    if leb code 255 then ok (error code) else err (msgpack "error code out of range")

module _ {fl : Float} where
  -- `Value::Array(ids.iter().map(|id| Value::Binary(id.to_vec())).collect())`.
  unfoldable pub binaries : List Bytes → Value fl
  binaries ids = array (of_list (map binary ids))

  unfoldable pub limit_item : Option fl.F64 → Values fl
  limit_item none = end
  limit_item (some limit) = item (f64 limit) end

  unfoldable pub sync_request_value : PeerSyncRequest fl.F64 → Value fl
  unfolding binaries limit_item
  sync_request_value (offer peering_key available) =
      array (item (binary peering_key) (item (binaries available) end))
  sync_request_value message_get_list = array (item nil (item nil end))
  sync_request_value (message_get wants haves limit) =
      array (item (binaries wants) (item (binaries haves) (limit_item limit)))
  sync_request_value (message_ack delivered) = array (item nil (item (binaries delivered) end))

  unfoldable pub sync_response_value : PeerSyncResponse → Value fl
  unfolding binaries
  sync_response_value (error code) = integer (pos code)
  sync_response_value (bool flag) = boolean flag
  sync_response_value (id_list ids) = binaries ids
  sync_response_value (payload items) = binaries items

  -- The loops that push ids of 32 bytes, up to the first value that is none.
  unfoldable pub fixed_ids : List (Value fl) → Result RnsError (List Bytes)
  fixed_ids [] = ok []
  fixed_ids (v ∷ vs) = do
    id ← or_fail "invalid id" (value_to_fixed_bytes 32 v)
    ids ← fixed_ids vs
    ok (id ∷ ids)

  -- The two `match` blocks on `Value::Nil`, an array of ids, and the rest.
  unfoldable pub optional_ids :
      Result RnsError (Option (List Bytes)) → Value fl → Result RnsError (Option (List Bytes))
  unfolding fixed_ids
  optional_ids invalid nil = ok none
  optional_ids invalid (array vs) = do ids ← fixed_ids (to_list vs); ok (some ids)
  optional_ids invalid _ = invalid

  unfoldable pub limit_of : List (Value fl) → Result RnsError (Option fl.F64)
  limit_of [] = ok none
  limit_of (v ∷ vs) = do limit ← or_fail "invalid transfer limit" (value_to_f64 v); ok (some limit)

  unfoldable pub decode_get_or_ack :
      Value fl → List (Value fl) → Result RnsError (PeerSyncRequest fl.F64)
  unfolding optional_ids limit_of get_or_ack
  decode_get_or_ack wants_val [] = err (msgpack "missing haves")
  decode_get_or_ack wants_val (haves_val ∷ rest) = do
    wants ← optional_ids (err (msgpack "invalid wants")) wants_val
    haves ← optional_ids (err (msgpack "invalid haves")) haves_val
    limit ← limit_of rest
    ok (get_or_ack wants haves limit)

  unfoldable pub decode_offer : Bytes → List (Value fl) → Result RnsError (PeerSyncRequest fl.F64)
  unfolding fixed_ids
  decode_offer key [] = err (msgpack "missing list")
  decode_offer key (array vs ∷ rest) = do ids ← fixed_ids (to_list vs); ok (offer key ids)
  decode_offer key (_ ∷ rest) = err (msgpack "list must be array")

  unfoldable pub sync_request_of_items : List (Value fl) → Result RnsError (PeerSyncRequest fl.F64)
  unfolding decode_offer decode_get_or_ack
  sync_request_of_items [] = err (msgpack "peer sync req missing op")
  sync_request_of_items (binary key ∷ rest) = decode_offer key rest
  sync_request_of_items (v ∷ rest) = decode_get_or_ack v rest

  unfoldable pub sync_request_of_value : Value fl → Result RnsError (PeerSyncRequest fl.F64)
  unfolding sync_request_of_items
  sync_request_of_value (array vs) = sync_request_of_items (to_list vs)
  sync_request_of_value nil = err (msgpack "peer sync req must be array")
  sync_request_of_value _ = err (msgpack "peer sync req must be array")

  -- The loop over the items of a response: the binaries, and whether each has 32 bytes.
  unfoldable pub collect_binaries : List (Value fl) → Result RnsError (List Bytes)
  collect_binaries [] = ok []
  collect_binaries (v ∷ vs) = do
    bytes ← or_fail "payload must be binary" (value_to_bytes v)
    rest ← collect_binaries vs
    ok (bytes ∷ rest)

  unfoldable pub sync_response_of_items : List (Value fl) → Result RnsError PeerSyncResponse
  unfolding collect_binaries
  sync_response_of_items vs = do
    items ← collect_binaries vs
    ok (if all_fixed items then id_list items else payload items)

  unfoldable pub sync_response_of_value : Value fl → Result RnsError PeerSyncResponse
  unfolding sync_response_of_items error_code_of
  sync_response_of_value (boolean flag) = ok (bool flag)
  sync_response_of_value (integer z) = error_code_of (int_as_i64 z)
  sync_response_of_value (array vs) = sync_response_of_items (to_list vs)
  sync_response_of_value _ = err (msgpack "invalid peer sync response")

module _ {fl : Float} (codec : Msgpack fl) where
  unfoldable pub encode_peer_sync_request : PeerSyncRequest fl.F64 → Bytes
  unfolding sync_request_value
  encode_peer_sync_request req = codec.write_value (sync_request_value req)

  unfoldable pub decode_peer_sync_request : Bytes → Result RnsError (PeerSyncRequest fl.F64)
  unfolding sync_request_of_value
  decode_peer_sync_request bytes = do
    value ← of_decoder (codec.read_value bytes)
    sync_request_of_value value

  unfoldable pub encode_peer_sync_response : PeerSyncResponse → Bytes
  unfolding sync_response_value
  encode_peer_sync_response resp = codec.write_value (sync_response_value resp)

  unfoldable pub decode_peer_sync_response : Bytes → Result RnsError PeerSyncResponse
  unfolding sync_response_of_value
  decode_peer_sync_response bytes = do
    value ← of_decoder (codec.read_value bytes)
    sync_response_of_value value
