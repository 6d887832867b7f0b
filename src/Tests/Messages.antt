-- ===== src/Tests/Messages.antt =====
-- Examples for lxmf-rs/src/message.rs.
use lxmf_rs.Prelude.{ℕ, ◌≡◌, refl, true, false, some, [], ◌∷◌, ◌++◌, Bytes, take}
use lxmf_rs.Wire.Errors.{ok}
use lxmf_rs.Wire.Value.{nil}
use lxmf_rs.Message.{LxMessage, new}
use lxmf_rs.Message.Wire.{payload_values, message_id_of, pack_payload, truncated_hash}
use lxmf_rs.Message.Stamps.{
  encode_signed, validate_stamp, sign_and_encode, stamp_unless_deferred, ensure_stamp, stamp_unless,
  stamp_by_ticket, with_stamp,
}
use lxmf_rs.Message.Signed.{Arrives, payload, as_received, encode_signed-Arrives}
use lxmf_rs.Message.Accepted.{validate_stamp-encode_signed}
use lxmf_rs.Tests.{toy_float, toy_crypto, toy_signing, codec_of, no_text, hash16, hash32}

-- A message that is stamped with a ticket when it is sent.
abbrev greeting : LxMessage toy_float
greeting = record (new (hash16 1) (hash16 2)) {
  timestamp = 1700;
  title = 72 ∷ [];
  content = 73 ∷ 74 ∷ [];
  outbound_ticket = some (hash16 5);
  defer_stamp = false;
}

abbrev no_luck : ℕ → Bytes
no_luck n = hash32 255

-- The message without its stamp is what the ids are made of; the codec reads the stamped one.
abbrev stamped : LxMessage toy_float
stamped = record greeting { stamp = some (take 16 (toy_crypto.sha256 (hash16 5 ++ hash32 0))) }

encode_signed-Arrives_example :
    Arrives toy_crypto
      (codec_of (payload stamped))
      toy_signing
      3
      no_text
      (encode_signed toy_crypto (codec_of (payload stamped)) no_luck toy_signing 3 greeting)
unfolding encode_signed sign_and_encode stamp_unless_deferred ensure_stamp stamp_unless
    stamp_by_ticket with_stamp truncated_hash message_id_of pack_payload payload_values new
encode_signed-Arrives_example =
    encode_signed-Arrives toy_crypto (codec_of (payload stamped)) no_luck toy_signing 3 no_text
      greeting (record { length-destination = refl; length-source = refl }) refl

validate_stamp-encode_signed_example :
    (validate_stamp toy_crypto
      (codec_of nil)
      (as_received toy_crypto
        (codec_of nil)
        (encode_signed toy_crypto (codec_of nil) no_luck toy_signing 3 greeting).0)
      greeting.stamp_cost
      greeting.outbound_ticket).1
    ≡ ok true
unfolding encode_signed sign_and_encode stamp_unless_deferred ensure_stamp stamp_unless
    stamp_by_ticket with_stamp truncated_hash message_id_of pack_payload payload_values new
validate_stamp-encode_signed_example =
    validate_stamp-encode_signed toy_crypto (codec_of nil) no_luck toy_signing 3 greeting
      (take 16 (toy_crypto.sha256 (hash16 5 ++ hash32 0))) refl refl refl
