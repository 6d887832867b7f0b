-- ===== src/Tests/Transports.antt =====
-- Examples for lxmf-rs/src/rns/transport.rs.
use Prim.Native.String.{String}
use lxmf_rs.Prelude.{ℕ, ◌≡◌, refl, true, none, some, [], ◌∷◌, ◌++◌, arith, Bytes, replicate}
use lxmf_rs.Stamp.{generate_stamp, stamp_valid, stamp_value, validate_pn_stamp}
use lxmf_rs.Message.{LxMessage, new}
use lxmf_rs.Message.Packed.{
  propagation_container, propagation_packed_from_encrypted, transient_id_from_encrypted,
  generate_propagation_stamp, as_uri_from_paper,
}
use lxmf_rs.Message.Wire.{payload_values, encode_with_signature, pack_payload, pack_payload_values}
use lxmf_rs.Message.Stamps.{encode_signed, stamp_unless_deferred, sign_and_encode}
use lxmf_rs.Message.Signed.{as_received, payload}
use lxmf_rs.Wire.Value.{Value, nil, f64, binary, array, item, end}
use lxmf_rs.Wire.Errors.{
  ok, RnsError, opportunistic, direct, paper, allow_plaintext, enforce_ratchets,
}
use lxmf_rs.Router.Queue.Store.{QueuedMessage, InMemoryStore, in_memory}
use lxmf_rs.Router.Queue.{RnsRouter, default_retry}
use lxmf_rs.Router.Queue
use lxmf_rs.Router.Queue.Send.{next_delivery_with_retry}
use lxmf_rs.Transport.Outbound.{
  Buffers, RnsOutbound, null_encryptor, deliver, DeliveryOutput, paper_uri, deliver_checked,
  check_outbound, deliver_prepared, prepare_message, with_addresses, with_source,
  address_hash_to_array, deliver_encoded, deliver_packed, deliver_paper, needs_encryption,
}
use lxmf_rs.Transport.Policy.{in_the_open, IsRefused, next_delivery_with_retry-IsRefused}
use lxmf_rs.Transport.Encrypted.{IsEncrypted, deliver-IsEncrypted}
use lxmf_rs.Transport.Arrival.{Receives, as_direct, deliver-Receives}
use lxmf_rs.Transport.Inbound.{
  propagated_data, decode_propagated_payload, decode_propagation_resource_payload,
}
use lxmf_rs.Transport.Propagated.{validate_pn_stamp-generate_propagation_stamp}
use lxmf_rs.Tests.{toy_float, toy_crypto, toy_signing, codec_of, no_text, hash16, hash32}

abbrev no_luck : ℕ → Bytes
no_luck n = hash32 255

abbrev toy_buffers : Buffers
toy_buffers = record { packet_mdu = 500; write = λ b. ok b; write_fits = λ b l. refl }

-- Both ends, with the policy that asks for encryption and an encryptor that has none.
abbrev strict : RnsOutbound
strict = record {
  source = hash16 2;
  destination = hash16 1;
  encryptor = null_encryptor;
  crypto_policy = enforce_ratchets;
}

abbrev greeting : LxMessage toy_float
greeting = record (new (hash16 1) (hash16 2)) { content = 73 ∷ 74 ∷ [] }

abbrev to_base64 : Bytes → String
to_base64 b = "text"

abbrev in_queue : QueuedMessage toy_float
in_queue = record {
  id = 1;
  message = greeting;
  mode = opportunistic;
  attempts = 0;
  next_attempt_at_ms = 0;
}

abbrev waiting : RnsRouter toy_float (InMemoryStore toy_float) ℕ
waiting = record (Queue.new {fl = toy_float} {R = ℕ}) { outbound = in_queue ∷ [] }

abbrev show : RnsError → String
show e = "refused"

next_delivery_with_retry-IsRefused_example :
    IsRefused toy_crypto
      (codec_of nil)
      no_luck
      toy_signing
      3
      toy_buffers
      to_base64
      in_memory
      show
      strict
      waiting
      in_queue
      []
      (next_delivery_with_retry in_memory
        (deliver toy_crypto (codec_of nil) no_luck toy_signing 3 toy_buffers to_base64 strict)
        show
        waiting
        10)
next_delivery_with_retry-IsRefused_example =
    next_delivery_with_retry-IsRefused toy_crypto (codec_of nil) no_luck toy_signing 3 toy_buffers
      to_base64 in_memory show strict waiting in_queue [] 10 refl in_the_open refl (omega arith)

-- An encryptor that puts a byte in front.
abbrev sealed : RnsOutbound
sealed = record strict {
  encryptor = record { encrypt = λ d b. ok (9 ∷ b); provides_encryption = true };
}

deliver-IsEncrypted_example :
    IsEncrypted toy_crypto
      (codec_of nil)
      no_luck
      toy_signing
      3
      toy_buffers
      to_base64
      sealed
      greeting
      paper
      (paper_uri "lxm://text")
unfolding deliver deliver_checked check_outbound deliver_prepared prepare_message with_addresses
    with_source address_hash_to_array deliver_encoded deliver_packed deliver_paper as_uri_from_paper
    needs_encryption encode_signed stamp_unless_deferred sign_and_encode encode_with_signature
    pack_payload pack_payload_values new
deliver-IsEncrypted_example =
    deliver-IsEncrypted toy_crypto (codec_of nil) no_luck toy_signing 3 toy_buffers to_base64 sealed
      paper (paper_uri "lxm://text") greeting refl refl

-- The same two ends, with a policy that allows plaintext.
abbrev plain : RnsOutbound
plain = record strict { crypto_policy = allow_plaintext }

abbrev sent : Value toy_float
sent = payload greeting

deliver-Receives_example :
    (out : DeliveryOutput) × ((deliver toy_crypto
        (codec_of sent)
        no_luck
        toy_signing
        3
        toy_buffers
        to_base64
        plain
        greeting
        direct).1
      ≡ ok out)
    × Receives toy_crypto
        (codec_of sent)
        no_luck
        toy_signing
        3
        toy_buffers
        to_base64
        no_text
        (hash16 1)
        direct
        (as_received toy_crypto
          (codec_of sent)
          (encode_signed toy_crypto
            (codec_of sent)
            no_luck
            toy_signing
            3
            (record greeting { destination_hash = hash16 1; source_hash = hash16 2 })).0)
        out
unfolding encode_signed stamp_unless_deferred sign_and_encode payload_values new
deliver-Receives_example =
    deliver-Receives toy_crypto (codec_of sent) no_luck toy_signing 3 toy_buffers to_base64 no_text
      as_direct plain greeting refl refl refl refl

-- Long enough for a propagation node.
abbrev encrypted : Bytes
encrypted = replicate 200 1

abbrev wrapped : Value toy_float
wrapped =
    array
      (item (f64 1700) (item (array (item (binary (hash16 1 ++ (encrypted ++ hash32 5))) end)) end))

validate_pn_stamp-generate_propagation_stamp_example :
    let lxm = hash16 1 ++ (encrypted ++ hash32 5) in
    let packed =
      propagation_packed_from_encrypted
        (codec_of wrapped)
        greeting
        encrypted
        1700
        (some (hash32 5)) in
    (decode_propagation_resource_payload (codec_of wrapped) packed ≡ ok (lxm ∷ []))
    × (decode_propagated_payload toy_crypto (codec_of wrapped) no_text packed none true
        ≡ ok (propagated_data 1700 lxm (toy_crypto.sha256 lxm) none true))
    × (validate_pn_stamp toy_crypto (codec_of wrapped) lxm 4
        ≡ some (toy_crypto.sha256 (hash16 1 ++ encrypted), hash16 1 ++ encrypted, 4, hash32 5))
unfolding new propagation_container generate_propagation_stamp transient_id_from_encrypted
    generate_stamp stamp_valid stamp_value
validate_pn_stamp-generate_propagation_stamp_example =
    validate_pn_stamp-generate_propagation_stamp toy_crypto (codec_of wrapped) (λ n. hash32 5)
      no_text greeting encrypted 1700 4 (toy_crypto.sha256 (hash16 1 ++ encrypted)) (hash32 5) 4
      none true refl refl (omega arith) refl
