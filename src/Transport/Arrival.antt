-- ===== src/Transport/Arrival.antt =====
-- A message from `RnsOutbound::deliver` to the decoders of a receiver, both of
-- lxmf-rs/src/rns/transport.rs.
use Prim.Native.String.{String}
use lxmf_rs.Prelude.{
  ℕ, ◌≡◌, refl, sym, ap, ◌∙◌, inl, inr, Option, some, ◌++◌, Bytes, Bool-cases, length, take, drop,
  take-append, take-append-drop, leb, leb→le,
}
use lxmf_rs.Crypto.{Crypto, Signing}
use lxmf_rs.Wire.Errors.{
  Result, ok, err, LxmfError, DeliveryMode, opportunistic, direct, allow_plaintext,
}
use lxmf_rs.Wire.Value.{Float, Msgpack}
use lxmf_rs.Message.{LxMessage}
use lxmf_rs.Message.Wire.{decode, message_id_of, signed_part_of, encode_with_signature}
use lxmf_rs.Message.Stamps.{encode_signed, sign_and_encode, with_stamp}
use lxmf_rs.Message.Signed.{
  as_received, payload, Stamped, kept, added, identified, stamp_unless_deferred-Stamped,
  encode_signed-Arrives,
}
use lxmf_rs.Transport.Outbound.{
  Buffers, RnsOutbound, Packet, DeliveryOutput, packet, resource, method_direct,
  method_opportunistic, as_packet, check_outbound, deliver, deliver_checked, deliver_prepared,
  deliver_encoded, deliver_packed, deliver_as_packet_or_resource,
}
use lxmf_rs.Transport.Addressed.{addressed, prepare_message_lem, packet_from_payload_fits}
use lxmf_rs.Transport.Inbound.{message, decode_packet_with_source}

-- The modes that send a message itself, and its bytes at the receiver.
pub data SendsMessage : DeliveryMode → Type 0 where
  as_opportunistic : SendsMessage opportunistic
  as_direct : SendsMessage direct

abbrev pub whole : DeliveryMode → Bytes → Bytes → Bytes
whole opportunistic destination rest = destination ++ rest
whole _ destination rest = rest

ok_injective : {E : Type 0} {a b : Bytes} → ◌≡◌ {A = Result E Bytes} (ok a) (ok b) → a ≡ b
ok_injective e = cc

module _ {fl : Float} (cr : Crypto) (codec : Msgpack fl) (random : ℕ → Bytes) (ed : Signing)
    (k : ed.SigningKey) (buf : Buffers) (base64 : Bytes → String) (utf8 : String → Bytes) where
  -- What the receiver `to` makes of an output that is addressed to it, `a` in both cases.
  pub data Receives (to : Bytes) (mode : DeliveryMode) (a : LxMessage fl)
      : DeliveryOutput → Type 0 where
    by_packet :
        (p : Packet)
        → p.destination ≡ to
        → ((source_hash : Option Bytes)
            → decode_packet_with_source cr codec utf8 p mode source_hash ≡ ok (message a))
        → Receives to mode a (packet p)
    by_resource :
        (rest : Bytes)
        → decode cr codec utf8 (whole mode to rest) ≡ ok a
        → Receives to mode a (resource to rest)

  sign_and_encode-take :
      (m m2 : LxMessage fl) (id part : Bytes)
      → Stamped cr codec (identified cr codec m id) m2
      → length m.destination_hash ≡ 16
      → (b : Bytes) × ((sign_and_encode cr codec random ed k part m2).1 ≡ ok b)
        × (take 16 b ≡ m.destination_hash)
  unfolding sign_and_encode encode_with_signature with_stamp
  sign_and_encode-take m m2 id part kept l = (_, refl, take-append 16 m.destination_hash _ l)
  sign_and_encode-take m m2 id part (added stamp value) l =
      (_, refl, take-append 16 m.destination_hash _ l)

  decode_packet_with_source-whole :
      {mode : DeliveryMode}
      → SendsMessage mode
      → (d rest : Bytes) (a : LxMessage fl) (source_hash : Option Bytes)
      → decode cr codec utf8 (whole mode d rest) ≡ ok a
      → decode_packet_with_source cr codec utf8
          (record { destination = d; payload = rest })
          mode
          source_hash
        ≡ ok (message a)
  unfolding decode_packet_with_source
  decode_packet_with_source-whole as_opportunistic d rest a source_hash h = rw h refl
  decode_packet_with_source-whole as_direct d rest a source_hash h = rw h refl

  deliver_as_packet_or_resource-Receives :
      {mode : DeliveryMode}
      → SendsMessage mode
      → (d rest : Bytes) (m a : LxMessage fl) → decode cr codec utf8 (whole mode d rest) ≡ ok a
      → (out : DeliveryOutput) × ((deliver_as_packet_or_resource buf d rest m).1 ≡ ok out)
        × Receives d mode a out
  unfolding deliver_as_packet_or_resource
  deliver_as_packet_or_resource-Receives s d rest m a h =
      elim (Bool-cases (leb (length rest) buf.packet_mdu)) [
        | inl e ↦
            let p : Packet = record { destination = d; payload = rest } in
            let fits =
              packet_from_payload_fits buf d rest (leb→le (length rest) buf.packet_mdu e) in
            (
              packet p,
              rw e (ap as_packet fits),
              by_packet p refl (λ src. decode_packet_with_source-whole s d rest a src h),
            )
        | inr e ↦ (resource d rest, rw e refl, by_resource rest h)
      ]

  -- The bytes of the message, cut as the mode says.
  deliver_packed-Receives :
      {mode : DeliveryMode}
      → SendsMessage mode
      → (o : RnsOutbound) (m a : LxMessage fl) (b : Bytes) → take 16 b ≡ o.destination
      → decode cr codec utf8 b ≡ ok a
      → (out : DeliveryOutput) × ((deliver_packed cr codec random ed k buf base64 o m b mode).1
          ≡ ok out)
        × Receives o.destination mode a out
  unfolding deliver_packed
  deliver_packed-Receives as_opportunistic o m a b t h =
      let again : o.destination ++ drop 16 b ≡ b =
        ap (λ d. d ++ drop 16 b) (sym t) ∙ take-append-drop 16 b in
      deliver_as_packet_or_resource-Receives as_opportunistic o.destination (drop 16 b)
        (record m { method = some method_opportunistic }) a (ap (decode cr codec utf8) again ∙ h)
  deliver_packed-Receives as_direct o m a b t h =
      deliver_as_packet_or_resource-Receives as_direct o.destination b
        (record m { method = some method_direct }) a h

  encode_signed-take :
      (m : LxMessage fl) (b : Bytes)
      → length m.destination_hash ≡ 16
      → (encode_signed cr codec random ed k m).1 ≡ ok b
      → take 16 b ≡ m.destination_hash
  unfolding encode_signed
  encode_signed-take m b l h =
      let id = message_id_of cr codec m in
      let (m2, e, s) = stamp_unless_deferred-Stamped cr codec random m.defer_stamp m id in
      let part = signed_part_of cr codec m in
      let same : encode_signed cr codec random ed k m
          ≡ sign_and_encode cr codec random ed k part m2 =
        rw (e, encode_signed) refl in
      let (c, f, t) = sign_and_encode-take m m2 id part s l in
      let eq : c ≡ b = ok_injective (sym f ∙ sym (ap (λ r. r.1) same) ∙ h) in
      ap (take 16) (sym eq) ∙ t

  deliver_encoded-Receives :
      {mode : DeliveryMode}
      → SendsMessage mode
      → (o : RnsOutbound) (a : LxMessage fl) (r : LxMessage fl × Result LxmfError Bytes) (b : Bytes)
      → r.1 ≡ ok b
      → take 16 b ≡ o.destination
      → decode cr codec utf8 b ≡ ok a
      → (out : DeliveryOutput) × ((deliver_encoded cr codec random ed k buf base64 o r mode).1
          ≡ ok out)
        × Receives o.destination mode a out
  unfolding deliver_encoded
  deliver_encoded-Receives s o a (m, ok c) b e t h =
      let same : b ≡ c = sym (ok_injective e) in
      deliver_packed-Receives s o m a c (ap (take 16) (sym same) ∙ t)
        (ap (decode cr codec utf8) (sym same) ∙ h)
  deliver_encoded-Receives s o a (m, err x) b e t h = absurd (cc)

  -- A message arrives: if the policy allows plaintext, the two address hashes have 16 bytes and the
  -- payload with the stamp that was made is within the limits of the format, then `deliver` in the
  -- opportunistic and the direct mode returns a packet or a resource that is addressed to the
  -- destination. The receiver of a packet decodes it to the message with the addresses of the two
  -- ends, as signed; the data of a resource, after the destination in the opportunistic mode, are
  -- decoded to the same message.
  pub deliver-Receives :
      {mode : DeliveryMode}
      → SendsMessage mode
      → (o : RnsOutbound) (m : LxMessage fl) → o.crypto_policy ≡ allow_plaintext
      → length o.destination ≡ 16
      → length o.source ≡ 16
      → codec.Encodable (payload (encode_signed cr codec random ed k (addressed o m)).0)
      → (out : DeliveryOutput) × ((deliver cr codec random ed k buf base64 o m mode).1 ≡ ok out)
        × Receives o.destination mode
            (as_received cr codec (encode_signed cr codec random ed k (addressed o m)).0)
            out
  unfolding deliver deliver_checked check_outbound deliver_prepared
  deliver-Receives {mode} s o m p d c enc =
      let m1 = addressed o m in
      let arrives =
        encode_signed-Arrives cr codec random ed k utf8 m1
          (record { length-destination = d; length-source = c }) enc in
      let (out, sent, got) =
        deliver_encoded-Receives s o _ (encode_signed cr codec random ed k m1) arrives.bytes
          arrives.encoded (encode_signed-take m1 arrives.bytes d arrives.encoded) arrives.decoded in
      (
        out,
        ap
              (λ y.
                (deliver_checked cr codec random ed k buf base64 o m mode
                  (check_outbound y mode o.encryptor)).1)
              p
            ∙ ap (λ r. (deliver_prepared cr codec random ed k buf base64 o r mode).1)
                (prepare_message_lem o m d c)
            ∙ sent,
        got,
      )
