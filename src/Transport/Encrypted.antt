-- ===== src/Transport/Encrypted.antt =====
-- What leaves under `EnforceRatchets` of lxmf-rs/src/rns/transport.rs: only what the encryptor made.
use Prim.Native.String.{String, ◌++◌ as ◌++ˢ◌}
use lxmf_rs.Prelude.{
  ℕ, ◌≡◌, refl, sym, ap, ◌∙◌, subst, Bool, true, false, inl, inr, some, Bytes, drop, ◌++◌,
}
use lxmf_rs.Crypto.{Crypto, Signing}
use lxmf_rs.Wire.Errors.{
  Result, ok, err, LxmfError, RnsError, DeliveryMode, opportunistic, direct, propagated, paper,
  enforce_ratchets,
}
use lxmf_rs.Wire.Value.{Float, Msgpack}
use lxmf_rs.Message.{LxMessage}
use lxmf_rs.Message.Stamps.{encode_signed, sign_and_encode, with_stamp}
use lxmf_rs.Message.Wire.{message_id_of, signed_part_of}
use lxmf_rs.Message.Signed.{Stamped, kept, added, identified, stamp_unless_deferred-Stamped}
use lxmf_rs.Message.Packed.{paper_packed_from_encrypted, as_uri_from_paper}
use lxmf_rs.Transport.Outbound.{
  Buffers, RnsOutbound, EncryptHook, DeliveryOutput, paper_uri, method_propagated, method_paper,
  check_outbound, needs_encryption, deliver, deliver_checked, deliver_prepared, prepare_message,
  deliver_encoded, deliver_packed, deliver_propagated, deliver_paper,
}
use lxmf_rs.Transport.Addressed.{addressed, prepare_message-cases}
use lxmf_rs.Transport.Carried.{
  Carries, on_paper, for_node, ok_injective, propagation_packed_from_encrypted_lem,
  deliver_as_packet_or_resource-Carries,
}

module _ {fl : Float} (cr : Crypto) (codec : Msgpack fl) (random : ℕ → Bytes) (ed : Signing)
    (k : ed.SigningKey) (buf : Buffers) (base64 : Bytes → String) where
  -- Signing keeps the destination and the time.
  abbrev Keeps : LxMessage fl → LxMessage fl → Type 0
  Keeps m m' = (m'.destination_hash ≡ m.destination_hash) × (m'.timestamp ≡ m.timestamp)

  sign_and_encode-Keeps :
      (m m2 : LxMessage fl) (id part : Bytes)
      → Stamped cr codec (identified cr codec m id) m2
      → Keeps m (sign_and_encode cr codec random ed k part m2).0
  unfolding sign_and_encode with_stamp
  sign_and_encode-Keeps m m2 id part kept = (refl, refl)
  sign_and_encode-Keeps m m2 id part (added stamp value) = (refl, refl)

  encode_signed-Keeps : (m : LxMessage fl) → Keeps m (encode_signed cr codec random ed k m).0
  unfolding encode_signed
  encode_signed-Keeps m =
      let id = message_id_of cr codec m in
      let part = signed_part_of cr codec m in
      let (m2, e, s) = stamp_unless_deferred-Stamped cr codec random m.defer_stamp m id in
      let same : encode_signed cr codec random ed k m
          ≡ sign_and_encode cr codec random ed k part m2 =
        rw (e, encode_signed) refl in
      subst (λ r. Keeps m r.0) (sym same) (sign_and_encode-Keeps m m2 id part s)

  -- The output is made of the message, with the addresses of the two ends and signed: without its
  -- destination it is encrypted for the destination, by an encryptor that provides encryption.
  pub record IsEncrypted (o : RnsOutbound) (m : LxMessage fl) (mode : DeliveryMode)
      (out : DeliveryOutput) : Type 0 where
    pub packed : Bytes
    pub signed : (encode_signed cr codec random ed k (addressed o m)).1 ≡ ok packed
    pub ciphertext : Bytes
    pub provided : o.encryptor.provides_encryption ≡ true
    pub encrypted : o.encryptor.encrypt o.destination (drop 16 packed) ≡ ok ciphertext
    pub carried : Carries codec base64 o.destination m.timestamp ciphertext mode out

  deliver_propagated-Carries :
      (o : RnsOutbound) (m m1 : LxMessage fl) (out : DeliveryOutput) (r : Result RnsError Bytes)
      → Keeps (addressed o m) m1
      → (deliver_propagated cr codec random ed k buf base64 o m1 r).1 ≡ ok out
      → (c : Bytes) × (r ≡ ok c) × Carries codec base64 o.destination m.timestamp c propagated out
  unfolding deliver_propagated
  deliver_propagated-Carries o m m1 out (ok c) s h =
      let payload = propagation_packed_from_encrypted_lem codec base64 m1 c in
      let moved : for_node codec base64 m1.destination_hash m1.timestamp c
          ≡ for_node codec base64 o.destination m.timestamp c =
        rw (s.0, s.1) refl in
      (
        c,
        refl,
        deliver_as_packet_or_resource-Carries codec base64 buf o.destination m.timestamp c _ m1 out
            (payload ∙ moved) h,
      )
  deliver_propagated-Carries o m m1 out (err x) s h = absurd (cc)

  deliver_paper-Carries :
      (o : RnsOutbound) (m m1 : LxMessage fl) (out : DeliveryOutput) (r : Result RnsError Bytes)
      → Keeps (addressed o m) m1
      → (deliver_paper cr codec random ed k buf base64 m1 r).1 ≡ ok out
      → (c : Bytes) × (r ≡ ok c) × Carries codec base64 o.destination m.timestamp c paper out
  unfolding deliver_paper paper_packed_from_encrypted as_uri_from_paper
  deliver_paper-Carries o m m1 out (ok c) s h = (
    c,
    refl,
    subst (Carries codec base64 o.destination m.timestamp c paper)
        (ap (λ d. paper_uri ("lxm://" ++ˢ base64 (d ++ c))) (sym s.0) ∙ ok_injective h) on_paper,
  )
  deliver_paper-Carries o m m1 out (err x) s h = absurd (cc)

  -- What the check lets through.
  data Passes : DeliveryMode → Type 0 where
    to_node : Passes propagated
    to_paper : Passes paper

  check_outbound-Passes :
      (mode : DeliveryMode) (e : EncryptHook) (b : Bool)
      → e.provides_encryption ≡ b
      → check_outbound enforce_ratchets mode e ≡ ok tt
      → Passes mode × (b ≡ true)
  unfolding check_outbound needs_encryption
  check_outbound-Passes opportunistic e b p h = absurd (cc)
  check_outbound-Passes direct e b p h = absurd (cc)
  check_outbound-Passes propagated e true p h = (to_node, refl)
  check_outbound-Passes propagated e false p h =
      absurd (cc (sym (ap (needs_encryption propagated) p) ∙ h))
  check_outbound-Passes paper e true p h = (to_paper, refl)
  check_outbound-Passes paper e false p h = absurd (cc (sym (ap (needs_encryption paper) p) ∙ h))

  deliver_packed-Carries :
      {mode : DeliveryMode}
      → Passes mode
      → (o : RnsOutbound) (m m1 : LxMessage fl) (packed : Bytes) (out : DeliveryOutput)
      → Keeps (addressed o m) m1
      → (deliver_packed cr codec random ed k buf base64 o m1 packed mode).1 ≡ ok out
      → (c : Bytes) × (o.encryptor.encrypt o.destination (drop 16 packed) ≡ ok c)
        × Carries codec base64 o.destination m.timestamp c mode out
  unfolding deliver_packed
  deliver_packed-Carries to_node o m m1 packed out s h =
      deliver_propagated-Carries o m (record m1 { method = some method_propagated }) out _ s h
  deliver_packed-Carries to_paper o m m1 packed out s h =
      deliver_paper-Carries o m (record m1 { method = some method_paper }) out _ s h

  module _ (o : RnsOutbound) (mode : DeliveryMode) (out : DeliveryOutput) (m : LxMessage fl) where
    deliver_encoded-IsEncrypted :
        (r : LxMessage fl × Result LxmfError Bytes)
        → r ≡ encode_signed cr codec random ed k (addressed o m)
        → Passes mode × (o.encryptor.provides_encryption ≡ true)
        → (deliver_encoded cr codec random ed k buf base64 o r mode).1 ≡ ok out
        → IsEncrypted o m mode out
    unfolding deliver_encoded
    deliver_encoded-IsEncrypted (m1, ok packed) e p h =
        let stays : Keeps (addressed o m) m1 =
          subst (λ r. Keeps (addressed o m) r.0) (sym e) (encode_signed-Keeps (addressed o m)) in
        let (c, made, carries) = deliver_packed-Carries p.0 o m m1 packed out stays h in
        record {
          packed = packed;
          signed = sym (ap (λ r. r.1) e);
          ciphertext = c;
          provided = p.1;
          encrypted = made;
          carried = carries;
        }
    deliver_encoded-IsEncrypted (m1, err x) e p h = absurd (cc)

    deliver_prepared-IsEncrypted :
        Passes mode × (o.encryptor.provides_encryption ≡ true)
        → (deliver_prepared cr codec random ed k buf base64 o (prepare_message o m) mode).1 ≡ ok out
        → IsEncrypted o m mode out
    unfolding deliver_prepared
    deliver_prepared-IsEncrypted p h = elim (prepare_message-cases o m) [
      | inl e ↦
          deliver_encoded-IsEncrypted (encode_signed cr codec random ed k (addressed o m)) refl p
            (ap (λ r. (deliver_prepared cr codec random ed k buf base64 o r mode).1) (sym e) ∙ h)
      | inr (m1, x, e) ↦
          refused x
            (ap (λ r. (deliver_prepared cr codec random ed k buf base64 o r mode).1) (sym e) ∙ h)
    ]
      where
        refused :
            (x : RnsError)
            → ◌≡◌ {A = Result RnsError DeliveryOutput} (err x) (ok out)
            → IsEncrypted o m mode out
        refused x h = absurd (cc)

    deliver_checked-IsEncrypted :
        (r : Result RnsError (Unit {0}))
        → r ≡ check_outbound enforce_ratchets mode o.encryptor
        → (deliver_checked cr codec random ed k buf base64 o m mode r).1 ≡ ok out
        → IsEncrypted o m mode out
    unfolding deliver_checked
    deliver_checked-IsEncrypted (ok _) e h =
        let passes = check_outbound-Passes mode o.encryptor _ refl (sym e) in
        deliver_prepared-IsEncrypted passes h
    deliver_checked-IsEncrypted (err x) e h = absurd (cc)

    -- Under `EnforceRatchets` what `deliver` hands out is encrypted. It is the message with the
    -- addresses of the two ends, signed, without its destination, as the encryptor, one that provides
    -- encryption, makes of it for the destination: in a packet or a resource that is addressed to the
    -- destination and holds the time, the destination and this ciphertext, for a propagation node; or
    -- in a URI that holds the destination and this ciphertext, on paper. Nothing else leaves, and
    -- nothing in any other mode.
    pub deliver-IsEncrypted :
        o.crypto_policy ≡ enforce_ratchets
        → (deliver cr codec random ed k buf base64 o m mode).1 ≡ ok out
        → IsEncrypted o m mode out
    unfolding deliver
    deliver-IsEncrypted p h = deliver_checked-IsEncrypted _ refl (
        sym (
          ap
            (λ c.
              (deliver_checked cr codec random ed k buf base64 o m mode
                (check_outbound c mode o.encryptor)).1)
            p)
        ∙ h)
