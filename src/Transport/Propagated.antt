-- ===== src/Transport/Propagated.antt =====
-- A message for a propagation node: `generate_propagation_stamp` and
-- `propagation_packed_from_encrypted` of lxmf-rs/src/message.rs at the sender,
-- `decode_propagation_resource_payload` and `decode_propagated_payload` of
-- lxmf-rs/src/rns/transport.rs and `validate_pn_stamp` of lxmf-rs/src/message.rs at the node.
use Prim.Native.String.{String}
use lxmf_rs.Prelude.{
  ℕ, ◌<◌, ◌≡◌, refl, sym, ap, ◌∙◌, Bool, Option, none, some, [], ◌∷◌, ◌++◌, Bytes, length,
}
use mathlib.Core.List.{append_assoc}
use lxmf_rs.Crypto.{Crypto}
use lxmf_rs.Stamp.{validate_pn_stamp, lxmf_overhead, stamp_size}
use lxmf_rs.Stamp.Search.{validate_pn_stamp-generate_stamp}
use lxmf_rs.Wire.Errors.{Result, ok, err, LxmfError, invalid_payload}
use lxmf_rs.Wire.Value.{Float, Msgpack}
use lxmf_rs.Message.{LxMessage}
use lxmf_rs.Message.Packed.{
  propagation_container, propagation_packed_from_encrypted, transient_id_from_encrypted,
  generate_propagation_stamp,
}
use lxmf_rs.Transport.Inbound.{
  propagated_data, decode_propagated_payload, decode_propagation_resource_payload, payload_of_value,
  propagated_of_value, array_of, two_of, one_of, f64_of, binary_of, binaries_of,
}

made_parts :
    {id stamp : Bytes} {value : ℕ} (i : Bytes) (r : Option Bytes × ℕ)
    → ◌≡◌ {A = Result LxmfError (Bytes × Bytes × ℕ)}
        (elim r.0 [ none ↦ err invalid_payload | some s ↦ ok (i, s, r.1) ])
        (ok (id, stamp, value))
    → (i ≡ id) × (r ≡ (some stamp, value))
made_parts i (none, n) h = absurd (cc)
made_parts i (some s, n) h =
    let e = parts_equal h in (ap (λ p. p.0) e, ap (λ p. (some (p.1), p.2)) e)
  where
    parts_equal :
        {a b : Bytes × Bytes × ℕ}
        → ◌≡◌ {A = Result LxmfError (Bytes × Bytes × ℕ)} (ok a) (ok b)
        → a ≡ b
    parts_equal e = cc

module _ {fl : Float} (cr : Crypto) (codec : Msgpack fl) (random : ℕ → Bytes)
    (utf8 : String → Bytes) where
  -- A message for a propagation node gets there with its stamp: if `generate_propagation_stamp` made a
  -- stamp of 32 bytes for a message longer than the overhead of the format, then from the container
  -- with the stamp, within the limits of the format, both decoders read the same single message and its
  -- time, and `validate_pn_stamp` accepts this message at the cost of the stamp, with the transient id,
  -- the stamp and the value that the sender computed.
  pub validate_pn_stamp-generate_propagation_stamp :
      (m : LxMessage fl) (encrypted : Bytes) (timestamp : fl.F64) (cost : ℕ) (id stamp : Bytes)
      (value : ℕ) (source : Option Bytes) (counts : Bool)
      → generate_propagation_stamp cr codec random m encrypted cost ≡ ok (id, stamp, value)
      → length stamp ≡ stamp_size
      → lxmf_overhead < length (m.destination_hash ++ encrypted)
      → codec.Encodable (propagation_container m encrypted timestamp (some stamp))
      → let lxm = m.destination_hash ++ (encrypted ++ stamp) in
        let packed = propagation_packed_from_encrypted codec m encrypted timestamp (some stamp) in
        (decode_propagation_resource_payload codec packed ≡ ok (lxm ∷ []))
        × (decode_propagated_payload cr codec utf8 packed source counts
            ≡ ok (propagated_data timestamp lxm (cr.sha256 lxm) source counts))
        × (validate_pn_stamp cr codec lxm cost
            ≡ some (id, m.destination_hash ++ encrypted, value, stamp))
  unfolding generate_propagation_stamp transient_id_from_encrypted propagation_packed_from_encrypted
      propagation_container decode_propagation_resource_payload decode_propagated_payload
      payload_of_value propagated_of_value array_of two_of one_of f64_of binary_of binaries_of
  validate_pn_stamp-generate_propagation_stamp m encrypted timestamp cost id stamp value source
        counts g l h enc =
      let lxm = m.destination_hash ++ encrypted in
      let (same, made) = made_parts (cr.sha256 lxm) _ g in
      let read = codec.read-write _ enc in
      (
        rw read refl,
        rw read refl,
        ap (λ d. validate_pn_stamp cr codec d cost)
              (sym (append_assoc m.destination_hash encrypted stamp))
            ∙ validate_pn_stamp-generate_stamp cr codec random lxm stamp value cost h l made
            ∙ ap (λ i. some (i, lxm, value, stamp)) same,
      )
