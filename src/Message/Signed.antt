-- ===== src/Message/Signed.antt =====
-- A message through `encode_signed`, `decode` and `verify` of lxmf-rs/src/message.rs.
use Prim.Native.String.{String}
use lxmf_rs.Prelude.{
  ℕ, ◌+◌, ◌≤◌, ◌≡◌, refl, sym, ap, subst, ◌∙◌, Bool, true, false, Option, none, some, inl, inr,
  ◌++◌, arith, Bytes, Bool-cases, Option-cases, ltb, ◌==◌, length, take, drop, is_some, take-append,
  drop-append, length-append, drop-drop,
}
use lxmf_rs.Crypto.{Crypto, Signing}
use lxmf_rs.Wire.Errors.{Result, ok, LxmfError}
use lxmf_rs.Wire.Value.{
  Value, Float, Msgpack, array, of_list, to_list-of_list, value_to_f64 as rns_f64,
}
use lxmf_rs.Message.{LxMessage, new}
use lxmf_rs.Message.Wire.{
  payload_values, message_id_of, signed_part_of, encode_with_signature, pack_payload, decode,
  decode_items, decode_parts, stamp_of, items_of, value_to_bytes, value_to_f64, pack_payload_values,
  verify,
}
use lxmf_rs.Message.Stamps.{
  encode_signed, ensure_stamp, stamp_by_ticket, stamp_by_cost, with_stamp, sign_and_encode,
  with_found, stamp_unless, stamp_unless_deferred, ticket_length,
}

-- The hashes of a message are arrays of 16 bytes.
pub record IsAddressed {fl : Float} (m : LxMessage fl) : Type 0 where
  pub length-destination : length m.destination_hash ≡ 16
  pub length-source : length m.source_hash ≡ 16

-- The payload of the message with its stamp.
abbrev pub payload : {fl : Float} → LxMessage fl → Value fl
payload m = array (of_list (payload_values m (is_some m.stamp)))

abbrev pub frame : Bytes → Bytes → Bytes → Bytes → Bytes
frame d s g p = d ++ (s ++ (g ++ p))

length-frame :
    (d s g p : Bytes) → length (frame d s g p) ≡ length d + (length s + (length g + length p))
length-frame d s g p =
    omega (arith, length-append d (s ++ (g ++ p)), length-append s (g ++ p), length-append g p)

drop_twice : (m n : ℕ) (b c e : Bytes) → drop m b ≡ c → drop n c ≡ e → drop (m + n) b ≡ e
drop_twice m n b c e h k = sym (drop-drop n m b) ∙ ap (drop n) h ∙ k

module _ {fl : Float} (cr : Crypto) (codec : Msgpack fl) where
  -- What a receiver knows of a message: all that is on the wire, and the id.
  abbrev pub as_received : LxMessage fl → LxMessage fl
  as_received m = record (new m.destination_hash m.source_hash) {
    timestamp = m.timestamp;
    title = m.title;
    content = m.content;
    fields = m.fields;
    stamp = m.stamp;
    signature = m.signature;
    message_id = some (message_id_of cr codec m);
  }

  pub decode-frame :
      (utf8 : String → Bytes) (d s g p : Bytes)
      → length d ≡ 16
      → length s ≡ 16
      → length g ≡ 64
      → 1 ≤ length p
      → decode cr codec utf8 (frame d s g p) ≡ decode_parts cr codec utf8 d s g p
  unfolding decode
  decode-frame utf8 d s g p hd hs hg hp =
      let long : ltb (length (frame d s g p)) 97 ≡ false = ground (arith, length-frame d s g p) in
      let cut_d : take 16 (frame d s g p) ≡ d = take-append 16 d _ hd in
      let rest_d : drop 16 (frame d s g p) ≡ s ++ (g ++ p) = drop-append 16 d _ hd in
      let rest_s : drop 32 (frame d s g p) ≡ g ++ p =
        drop_twice 16 16 (frame d s g p) (s ++ (g ++ p)) (g ++ p) rest_d (drop-append 16 s _ hs) in
      let rest_g : drop 96 (frame d s g p) ≡ p =
        drop_twice 32 64 (frame d s g p) (g ++ p) p rest_s (drop-append 64 g p hg) in
      rw (long, cut_d, rest_d, rest_s, rest_g, take-append 16 s (g ++ p) hs, take-append 64 g p hg)
        refl

  decode_items-payload_values :
      (utf8 : String → Bytes) (m : LxMessage fl) (g : Bytes)
      → m.signature ≡ some g
      → decode_items cr codec utf8 m.destination_hash m.source_hash g
          (payload_values m (is_some m.stamp))
        ≡ ok (as_received m)
  unfolding decode_items payload_values value_to_bytes value_to_f64 rns_f64 stamp_of message_id_of
      pack_payload
  decode_items-payload_values utf8 m g e = elim (Option-cases m.stamp) [
    | inl n ↦ rw (n, e) refl
    | inr (s, n) ↦ rw (n, e) refl
  ]

  pub decode_parts-payload :
      (utf8 : String → Bytes) (m : LxMessage fl) (g : Bytes)
      → m.signature ≡ some g
      → codec.Encodable (payload m)
      → decode_parts cr codec utf8 m.destination_hash m.source_hash g
          (pack_payload codec m (is_some m.stamp))
        ≡ ok (as_received m)
  unfolding decode_parts items_of pack_payload pack_payload_values
  decode_parts-payload utf8 m g e enc = rw (codec.read-write (payload m) enc) (
      ap (decode_items cr codec utf8 m.destination_hash m.source_hash g)
        (to_list-of_list (payload_values m (is_some m.stamp)))
      ∙ decode_items-payload_values utf8 m g e)

  -- What `ensure_stamp` makes of a message.
  pub data Stamped (m : LxMessage fl) : LxMessage fl → Type 0 where
    kept : Stamped m m
    added : (stamp : Bytes) (value : ℕ) → Stamped m (with_stamp m stamp value)

  with_found-Stamped :
      (random : ℕ → Bytes) (m : LxMessage fl) (found : Option Bytes × ℕ)
      → Stamped m (with_found cr codec random m found)
  unfolding with_found
  with_found-Stamped random m (none, value) = kept
  with_found-Stamped random m (some stamp, value) = added stamp value

  stamp_by_cost-Stamped :
      (random : ℕ → Bytes) (cost : Option ℕ) (m : LxMessage fl) (id : Bytes)
      → Stamped m (stamp_by_cost cr codec random cost m id)
  unfolding stamp_by_cost
  stamp_by_cost-Stamped random none m id = kept
  stamp_by_cost-Stamped random (some cost) m id = with_found-Stamped random m _

  pub stamp_by_ticket-Stamped :
      (random : ℕ → Bytes) (ticket : Option Bytes) (m : LxMessage fl) (id : Bytes)
      → Stamped m (stamp_by_ticket cr codec random ticket m id)
  unfolding stamp_by_ticket
  stamp_by_ticket-Stamped random none m id = stamp_by_cost-Stamped random m.stamp_cost m id
  stamp_by_ticket-Stamped random (some ticket) m id =
      elim (Bool-cases (length ticket == ticket_length)) [
        | inl e ↦ rw e (added _ _)
        | inr e ↦ rw e (stamp_by_cost-Stamped random m.stamp_cost m id)
      ]

  stamp_unless-Stamped :
      (random : ℕ → Bytes) (stamp : Option Bytes) (m : LxMessage fl) (id : Bytes)
      → (m2 : LxMessage fl) × (stamp_unless cr codec random stamp (some id) m ≡ ok m2)
        × Stamped m m2
  unfolding stamp_unless
  stamp_unless-Stamped random none m id =
      (_, refl, stamp_by_ticket-Stamped random m.outbound_ticket m id)
  stamp_unless-Stamped random (some stamp) m id = (m, refl, kept)

  -- A message, signed and encoded as `m'`, arrives.
  pub record Arrives (ed : Signing) (k : ed.SigningKey) (utf8 : String → Bytes)
      (o : LxMessage fl × Result LxmfError Bytes) : Type 0 where
    pub bytes : Bytes
    pub encoded : o.1 ≡ ok bytes
    pub decoded : decode cr codec utf8 bytes ≡ ok (as_received o.0)
    pub verified : verify cr codec ed (ed.verifying_key k) (as_received o.0) ≡ ok true

  sign_and_encode-Arrives :
      (random : ℕ → Bytes) (ed : Signing) (k : ed.SigningKey) (utf8 : String → Bytes)
      (m : LxMessage fl)
      → IsAddressed m
      → codec.Encodable (payload m)
      → Arrives ed k utf8 (sign_and_encode cr codec random ed k (signed_part_of cr codec m) m)
  unfolding sign_and_encode encode_with_signature pack_payload pack_payload_values verify
      signed_part_of message_id_of new
  sign_and_encode-Arrives random ed k utf8 m a enc =
      let m' = record m { signature = some (ed.sign k (signed_part_of cr codec m)) } in
      record {
        bytes = _;
        encoded = refl;
        decoded =
            decode-frame utf8 m.destination_hash m.source_hash _ _ a.length-destination
              a.length-source (ed.length-sign k (signed_part_of cr codec m))
              (codec.length-write_value (payload m))
            ∙ decode_parts-payload utf8 m' (ed.sign k (signed_part_of cr codec m)) refl enc;
        verified = ap ok (ed.verify-sign k (signed_part_of cr codec m));
      }

  Stamped-Arrives :
      (random : ℕ → Bytes) (ed : Signing) (k : ed.SigningKey) (utf8 : String → Bytes)
      (m m2 : LxMessage fl)
      → Stamped (record m { message_id = some (message_id_of cr codec m) }) m2
      → IsAddressed m
      → codec.Encodable (payload m2)
      → Arrives ed k utf8 (sign_and_encode cr codec random ed k (signed_part_of cr codec m) m2)
  unfolding signed_part_of message_id_of pack_payload with_stamp payload_values
  Stamped-Arrives random ed k utf8 m m2 kept a enc =
      sign_and_encode-Arrives random ed k utf8
        (record m { message_id = some (message_id_of cr codec m) })
        (record { length-destination = a.length-destination; length-source = a.length-source }) enc
  Stamped-Arrives random ed k utf8 m m2 (added stamp value) a enc =
      sign_and_encode-Arrives random ed k utf8
        (with_stamp (record m { message_id = some (message_id_of cr codec m) }) stamp value)
        (record { length-destination = a.length-destination; length-source = a.length-source }) enc

  abbrev pub identified : LxMessage fl → Bytes → LxMessage fl
  identified m id = record m { message_id = some id }

  pub stamp_unless_deferred-Stamped :
      (random : ℕ → Bytes) (deferred : Bool) (m : LxMessage fl) (id : Bytes)
      → (m2 : LxMessage fl) × (stamp_unless_deferred cr codec random deferred (identified m id)
          ≡ ok m2)
        × Stamped (identified m id) m2
  unfolding stamp_unless_deferred ensure_stamp
  stamp_unless_deferred-Stamped random true m id = (identified m id, refl, kept)
  stamp_unless_deferred-Stamped random false m id =
      stamp_unless-Stamped random m.stamp (identified m id) id

  -- A message that is signed and encoded arrives: `encode_signed` returns bytes, `decode` makes of
  -- them a message with the same addresses, timestamp, title, content, fields, stamp, signature and
  -- id, and `verify` accepts it with the public half of the key; this if its hashes are of 16 bytes
  -- and the payload, with the stamp that was made, is within the limits of the format.
  pub encode_signed-Arrives :
      (random : ℕ → Bytes) (ed : Signing) (k : ed.SigningKey) (utf8 : String → Bytes)
      (m : LxMessage fl)
      → IsAddressed m
      → codec.Encodable (payload (encode_signed cr codec random ed k m).0)
      → Arrives ed k utf8 (encode_signed cr codec random ed k m)
  unfolding encode_signed sign_and_encode
  encode_signed-Arrives random ed k utf8 m a enc =
      let (m2, e, s) =
        stamp_unless_deferred-Stamped random m.defer_stamp m (message_id_of cr codec m) in
      let same : encode_signed cr codec random ed k m
          ≡ sign_and_encode cr codec random ed k (signed_part_of cr codec m) m2 =
        rw (e, encode_signed) refl in
      rw same (
        Stamped-Arrives random ed k utf8 m m2 s a
          (subst (λ o. codec.Encodable (payload o.0)) same enc))
