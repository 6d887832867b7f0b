-- ===== src/Transport/Carried.antt =====
-- What a packet, a resource and a URI of lxmf-rs/src/rns/transport.rs carry of an encrypted message.
use Prim.Native.String.{String, ◌++◌ as ◌++ˢ◌}
use lxmf_rs.Prelude.{
  ◌≡◌, refl, sym, ap, ◌∙◌, subst, inl, inr, none, Bytes, Bool-cases, length, leb, leb→le, [], ◌∷◌,
  ◌++◌,
}
use lxmf_rs.Wire.Errors.{Result, ok, RnsError, DeliveryMode, propagated, paper}
use lxmf_rs.Wire.Value.{Float, Msgpack, f64, binary, array, item, end}
use lxmf_rs.Message.{LxMessage}
use lxmf_rs.Message.Packed.{propagation_container, propagation_packed_from_encrypted}
use lxmf_rs.Transport.Outbound.{
  Buffers, DeliveryOutput, packet, resource, paper_uri, as_packet, deliver_as_packet_or_resource,
}
use lxmf_rs.Transport.Addressed.{packet_from_payload_fits}

pub ok_injective :
    {a b : DeliveryOutput} → ◌≡◌ {A = Result RnsError DeliveryOutput} (ok a) (ok b) → a ≡ b
ok_injective e = cc

append_nil : (b : Bytes) → b ++ [] ≡ b
append_nil [] = refl
append_nil (x ∷ b) = ap (◌∷◌ x) (append_nil b)

module _ {fl : Float} (codec : Msgpack fl) (base64 : Bytes → String) where
  -- What a propagation node gets: a time, and one message with its destination in front.
  abbrev pub for_node : Bytes → fl.F64 → Bytes → Bytes
  for_node to time ciphertext =
      codec.write_value
        (array (item (f64 time) (item (array (item (binary (to ++ ciphertext)) end)) end)))

  -- An output that holds the destination, the time for a propagation node, and the ciphertext, and
  -- nothing else.
  pub data Carries (to : Bytes) (time : fl.F64) (ciphertext : Bytes)
      : DeliveryMode → DeliveryOutput → Type 0 where
    by_packet :
        Carries to time ciphertext propagated
          (packet (record { destination = to; payload = for_node to time ciphertext }))
    by_resource : Carries to time ciphertext propagated (resource to (for_node to time ciphertext))
    on_paper : Carries to time ciphertext paper (paper_uri ("lxm://" ++ˢ base64 (to ++ ciphertext)))

  pub propagation_packed_from_encrypted_lem :
      (m : LxMessage fl) (c : Bytes)
      → propagation_packed_from_encrypted codec m c m.timestamp none
        ≡ for_node m.destination_hash m.timestamp c
  unfolding propagation_packed_from_encrypted propagation_container
  propagation_packed_from_encrypted_lem m c =
      ap
        (λ b. codec.write_value (
          array (
            item (f64 m.timestamp)
              (item (array (item (binary (m.destination_hash ++ b)) end)) end))))
        (append_nil c)

  pub deliver_as_packet_or_resource-Carries :
      (buf : Buffers) (to : Bytes) (time : fl.F64) (c payload : Bytes) (m : LxMessage fl)
      (out : DeliveryOutput)
      → payload ≡ for_node to time c
      → (deliver_as_packet_or_resource buf to payload m).1 ≡ ok out
      → Carries to time c propagated out
  unfolding deliver_as_packet_or_resource
  deliver_as_packet_or_resource-Carries buf to time c payload m out e h =
      elim (Bool-cases (leb (length payload) buf.packet_mdu)) [
        | inl q ↦
            let fits = leb→le (length payload) buf.packet_mdu q in
            let made = packet_from_payload_fits buf to payload fits in
            let sent : (deliver_as_packet_or_resource buf to payload m).1
                ≡ ok (packet (record { destination = to; payload = payload })) =
              rw q (ap as_packet made) in
            subst (Carries to time c propagated) (ok_injective (sym sent ∙ h)) (
              subst
                (λ b.
                  Carries to time c propagated (packet (record { destination = to; payload = b })))
                (sym e) by_packet)
        | inr q ↦
            let sent : (deliver_as_packet_or_resource buf to payload m).1
                ≡ ok (resource to payload) =
              rw q refl in
            subst (Carries to time c propagated) (ok_injective (sym sent ∙ h))
              (subst (λ b. Carries to time c propagated (resource to b)) (sym e) by_resource)
      ]
