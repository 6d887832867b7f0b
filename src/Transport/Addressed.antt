-- ===== src/Transport/Addressed.antt =====
-- A message gets the addresses of its two ends, in `RnsOutbound` of lxmf-rs/src/rns/transport.rs.
use lxmf_rs.Prelude.{◌≡◌, ◌≤◌, refl, true, inl, inr, ◌⊎◌, arith, Bytes, Bool-cases, length, ◌==◌}
use lxmf_rs.Wire.Errors.{ok, err, RnsError, invalid_destination_hash}
use lxmf_rs.Wire.Value.{Float}
use lxmf_rs.Message.{LxMessage}
use lxmf_rs.Transport.Outbound.{
  Buffers, RnsOutbound, packet_from_payload, address_hash_to_array, prepare_message, with_addresses,
  with_source,
}

-- The message with the addresses of the two ends.
abbrev pub addressed : {fl : Float} → RnsOutbound → LxMessage fl → LxMessage fl
addressed o m = record m { destination_hash = o.destination; source_hash = o.source }

pub packet_from_payload_fits :
    (buf : Buffers) (d rest : Bytes)
    → length rest ≤ buf.packet_mdu
    → packet_from_payload buf d rest ≡ ok (record { destination = d; payload = rest })
unfolding packet_from_payload
packet_from_payload_fits buf d rest l = rw (buf.write_fits rest l, packet_from_payload) refl

module _ {fl : Float} where
  pub prepare_message_lem :
      (o : RnsOutbound) (m : LxMessage fl)
      → length o.destination ≡ 16
      → length o.source ≡ 16
      → prepare_message o m ≡ (addressed o m, ok tt)
  unfolding prepare_message with_addresses with_source address_hash_to_array
  prepare_message_lem o m d s =
      let p : (length o.destination == 16) ≡ true = ground arith in
      let q : (length o.source == 16) ≡ true = ground arith in rw (p, q) refl

  pub prepare_message-cases :
      (o : RnsOutbound) (m : LxMessage fl)
      → (prepare_message o m ≡ (addressed o m, ok tt))
        ⊎ ((m' : LxMessage fl) × (e : RnsError) × (prepare_message o m ≡ (m', err e)))
  unfolding prepare_message with_addresses with_source address_hash_to_array
  prepare_message-cases o m = elim (Bool-cases (length o.destination == 16)) [
    | inl p ↦ elim (Bool-cases (length o.source == 16)) [
      | inl q ↦ inl (rw (p, q) refl)
      | inr q ↦
          inr (
            record m { destination_hash = o.destination },
            invalid_destination_hash,
            rw (p, q) refl,
          )
    ]
    | inr p ↦ inr (m, invalid_destination_hash, rw p refl)
  ]
