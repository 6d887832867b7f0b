-- ===== src/Sync/RoundTrip.antt =====
-- Peer sync messages come back from the wire.
use lxmf_rs.Prelude.{
  ◌<◌, ◌≡◌, refl, true, Option, none, some, List, [], ◌∷◌, map, arith, Bytes, length, All,
  if◌then◌else◌,
}
use lxmf_rs.Wire.Errors.{Result, ok, RnsError}
use lxmf_rs.Wire.Value.{
  Float, Msgpack, binary, to_list, of_list, to_list-of_list, value_to_bytes,
  value_to_fixed_bytes_binary, value_to_f64,
}
use lxmf_rs.Sync.{
  PeerSyncRequest, offer, message_get_list, message_get, message_ack, PeerSyncResponse, error, bool,
  id_list, payload,
}
use lxmf_rs.Sync.Codec.{
  binaries, sync_request_value, sync_response_value, fixed_ids, optional_ids, collect_binaries,
  all_fixed, sync_request_of_value, sync_response_of_value, encode_peer_sync_request,
  decode_peer_sync_request, encode_peer_sync_response, decode_peer_sync_response,
}

-- Ids of 32 bytes.
abbrev pub AreIds : List Bytes → Type 0
AreIds ids = All (λ id. length id ≡ 32) ids

abbrev pub HasIds : {F : Type 0} → PeerSyncRequest F → Type 0
HasIds (offer peering_key available) = AreIds available
HasIds message_get_list = Unit
HasIds (message_get wants haves limit) = AreIds wants × AreIds haves
HasIds (message_ack delivered) = AreIds delivered

module _ (fl : Float) where
  fixed_ids-map : (ids : List Bytes) → AreIds ids → fixed_ids {fl = fl} (map binary ids) ≡ ok ids
  unfolding fixed_ids
  fixed_ids-map [] h = refl
  fixed_ids-map (id ∷ ids) h = rw (value_to_fixed_bytes_binary fl 32 id h.0, fixed_ids-map ids h.1)

  fixed_ids-of_list :
      (ids : List Bytes)
      → AreIds ids
      → fixed_ids {fl = fl} (to_list (of_list (map binary ids))) ≡ ok ids
  fixed_ids-of_list ids h = rw (to_list-of_list {fl = fl} (map binary ids)) (fixed_ids-map ids h)

  optional_ids-binaries :
      (invalid : Result RnsError (Option (List Bytes))) (ids : List Bytes)
      → AreIds ids
      → optional_ids {fl = fl} invalid (binaries ids) ≡ ok (some ids)
  unfolding optional_ids binaries
  optional_ids-binaries invalid ids h = rw (fixed_ids-of_list ids h)

  sync_request_of_value-sync_request_value :
      (req : PeerSyncRequest fl.F64)
      → HasIds req
      → sync_request_of_value {fl = fl} (sync_request_value req) ≡ ok req
  unfolding sync_request_of_value sync_request_value value_to_f64
  sync_request_of_value-sync_request_value (offer key available) h =
      rw (fixed_ids-of_list available h)
  sync_request_of_value-sync_request_value message_get_list h = refl
  sync_request_of_value-sync_request_value (message_get wants haves none) h =
      rw (fixed_ids-of_list wants h.0, fixed_ids-of_list haves h.1)
  sync_request_of_value-sync_request_value (message_get wants haves (some limit)) h =
      rw (fixed_ids-of_list wants h.0, fixed_ids-of_list haves h.1)
  sync_request_of_value-sync_request_value (message_ack delivered) h =
      rw (fixed_ids-of_list delivered h)

  collect_binaries-map :
      (items : List Bytes) → collect_binaries {fl = fl} (map binary items) ≡ ok items
  unfolding collect_binaries value_to_bytes
  collect_binaries-map [] = refl
  collect_binaries-map (b ∷ items) = rw (collect_binaries-map items)

  collect_binaries-of_list :
      (items : List Bytes)
      → collect_binaries {fl = fl} (to_list (of_list (map binary items))) ≡ ok items
  collect_binaries-of_list items =
      rw (to_list-of_list {fl = fl} (map binary items)) (collect_binaries-map items)

-- Responses that the nodes send: error codes of one byte, ids of 32 bytes, any items.
abbrev pub IsResponse : PeerSyncResponse → Type 0
IsResponse (error code) = code < 256
IsResponse (bool flag) = Unit
IsResponse (id_list ids) = AreIds ids
IsResponse (payload items) = Unit

-- What the receiver makes of a response: a payload whose items all have 32 bytes, the empty one
-- among them, is taken for a list of ids.
abbrev pub as_received : PeerSyncResponse → PeerSyncResponse
as_received (payload items) = if all_fixed items then id_list items else payload items
as_received r = r

all_fixed-AreIds : (ids : List Bytes) → AreIds ids → all_fixed ids ≡ true
all_fixed-AreIds [] h = refl
all_fixed-AreIds (id ∷ ids) h = ground (arith, all_fixed-AreIds ids h.1)

module _ (fl : Float) where
  sync_response_of_value-sync_response_value :
      (r : PeerSyncResponse)
      → IsResponse r
      → sync_response_of_value {fl = fl} (sync_response_value r) ≡ ok (as_received r)
  unfolding sync_response_of_value sync_response_value
  sync_response_of_value-sync_response_value (error code) h = ground arith
  sync_response_of_value-sync_response_value (bool flag) h = refl
  sync_response_of_value-sync_response_value (id_list ids) h =
      rw (collect_binaries-of_list fl ids) (rw (all_fixed-AreIds ids h))
  sync_response_of_value-sync_response_value (payload items) h =
      rw (collect_binaries-of_list fl items)

module _ {fl : Float} (codec : Msgpack fl) where
  -- Every peer sync request whose ids have 32 bytes, and which is within the limits of the format,
  -- comes back from the wire as it was.
  pub decode-encode_peer_sync_request :
      (req : PeerSyncRequest fl.F64)
      → HasIds req
      → codec.Encodable (sync_request_value req)
      → decode_peer_sync_request codec (encode_peer_sync_request codec req) ≡ ok req
  unfolding decode_peer_sync_request encode_peer_sync_request
  decode-encode_peer_sync_request req h e =
      rw (codec.read-write (sync_request_value req) e)
        (sync_request_of_value-sync_request_value fl req h)

  -- Every peer sync response with an error code of one byte and ids of 32 bytes, and which is within
  -- the limits of the format, comes back from the wire as it was, but for one case: a payload of
  -- which no item has a length other than 32 bytes, as the empty payload, comes back as an id list.
  pub decode-encode_peer_sync_response :
      (r : PeerSyncResponse)
      → IsResponse r
      → codec.Encodable (sync_response_value r)
      → decode_peer_sync_response codec (encode_peer_sync_response codec r) ≡ ok (as_received r)
  unfolding decode_peer_sync_response encode_peer_sync_response
  decode-encode_peer_sync_response r h e =
      rw (codec.read-write (sync_response_value r) e)
        (sync_response_of_value-sync_response_value fl r h)
