-- ===== src/Tests/Syncs.antt =====
-- Examples for the codec of lxmf-rs/src/rns/peer.rs.
use lxmf_rs.Prelude.{ℕ, ◌≡◌, refl, [], ◌∷◌}
use lxmf_rs.Wire.Errors.{ok}
use lxmf_rs.Wire.Request.{RnsResponse}
use lxmf_rs.Wire.Value.{nil}
use lxmf_rs.Sync.{PeerSyncRequest, message_ack, PeerSyncResponse, payload}
use lxmf_rs.Sync.Codec.{
  sync_request_value, sync_response_value, encode_peer_sync_request, decode_peer_sync_request,
  encode_peer_sync_response, decode_peer_sync_response,
}
use lxmf_rs.Sync.RoundTrip.{
  decode-encode_peer_sync_request, decode-encode_peer_sync_response, as_received,
}
use lxmf_rs.Tests.{codec_of, hash16, hash32, toy_float}

abbrev ack : PeerSyncRequest ℕ
ack = message_ack (hash32 1 ∷ hash32 2 ∷ [])

decode-encode_peer_sync_request_example :
    decode_peer_sync_request
      (codec_of (sync_request_value ack))
      (encode_peer_sync_request (codec_of (sync_request_value ack)) ack)
    ≡ ok ack
decode-encode_peer_sync_request_example =
    decode-encode_peer_sync_request (codec_of (sync_request_value ack)) ack (refl, (refl, tt)) refl

-- A payload with an item of 32 bytes: it arrives as a list of ids.
abbrev messages : PeerSyncResponse
messages = payload (hash32 1 ∷ [])

decode-encode_peer_sync_response_example :
    decode_peer_sync_response
      (codec_of (sync_response_value messages))
      (encode_peer_sync_response (codec_of (sync_response_value messages)) messages)
    ≡ ok (as_received messages)
decode-encode_peer_sync_response_example =
    decode-encode_peer_sync_response (codec_of (sync_response_value messages)) messages tt refl

abbrev response : RnsResponse toy_float
response = record { request_id = hash16 4; body = nil }
