-- ===== src/Message/Accepted.antt =====
-- The stamp that a sender makes is one that the receiver accepts: `ensure_stamp` and
-- `validate_stamp` of lxmf-rs/src/message.rs.
use lxmf_rs.Prelude.{
  ℕ, ◌≡◌, refl, sym, ap, ◌∙◌, subst, true, false, Option, none, some, inl, inr, ◌++◌, arith, Bytes,
  Bytes-discrete, Bool-cases, Option-cases, ◌==◌, length, length-take,
}
use lxmf_rs.Crypto.{Crypto, Signing}
use lxmf_rs.Stamp.{
  generate_stamp, search_stamp, stamp_workblock, workblock_expand_rounds, max_rounds, stamp_valid,
}
use lxmf_rs.Stamp.Search.{Finds, search_stamp-Finds, generate_stamp_made, generate_stamp_failed}
use lxmf_rs.Wire.Errors.{ok}
use lxmf_rs.Wire.Value.{Float, Msgpack}
use lxmf_rs.Message.{LxMessage, new}
use lxmf_rs.Message.Wire.{
  truncated_hash, message_id_of, signed_part_of, pack_payload, payload_values,
}
use lxmf_rs.Message.Stamps.{
  encode_signed, stamp_by_ticket, stamp_by_cost, with_found, with_stamp, check_cost, check_stamp,
  is_ticket_stamp, validate_stamp, same_bytes, ticket_length, cost_ticket, validate_given,
  stamp_unless, stamp_unless_deferred, ensure_stamp, sign_and_encode,
}
use lxmf_rs.Message.Signed.{as_received, Stamped, kept, added, identified, stamp_by_ticket-Stamped}

same_bytes_refl : (b : Bytes) → same_bytes b b ≡ true
same_bytes_refl b =
    elim (Bytes-discrete b b) as (λ d. elim d [ yes _ ↦ true | no _ ↦ false ] ≡ true) [
      | yes _ ↦ refl
      | no n ↦ absurd (n refl)
    ]

some_injective : {a b : Bytes} → ◌≡◌ {A = Option Bytes} (some a) (some b) → a ≡ b
some_injective e = cc

module _ {fl : Float} (cr : Crypto) (codec : Msgpack fl) (random : ℕ → Bytes) where
  is_ticket_stamp-truncated_hash :
      (ticket id : Bytes)
      → (length ticket == ticket_length) ≡ true
      → is_ticket_stamp cr codec ticket id (truncated_hash cr (ticket ++ id)) ≡ true
  unfolding is_ticket_stamp truncated_hash
  is_ticket_stamp-truncated_hash ticket id e =
      let l : length (truncated_hash cr (ticket ++ id)) ≡ ticket_length =
        length-take 16 (cr.sha256 (ticket ++ id))
          (omega (arith, cr.length-sha256 (ticket ++ id))) in
      rw (e, l, same_bytes_refl (truncated_hash cr (ticket ++ id))) refl

  found_valid :
      (id : Bytes) (cost : ℕ) (s : Bytes)
      → (generate_stamp cr codec random id cost workblock_expand_rounds).0 ≡ some s
      → (workblock : Bytes) × (stamp_workblock cr codec id workblock_expand_rounds ≡ some workblock)
        × (stamp_valid cr workblock s cost ≡ true)
  found_valid id cost s g =
      elim (Option-cases (stamp_workblock cr codec id workblock_expand_rounds)) [
        | inl e ↦
            absurd
              (cc (sym (ap (λ r. r.0) (generate_stamp_failed cr codec random id cost _ e)) ∙ g))
        | inr (workblock, e) ↦
            let found : (search_stamp cr random workblock cost (max_rounds cost) 0).0 ≡ some s =
              sym (ap (λ r. r.0) (generate_stamp_made cr codec random id workblock cost _ e)) ∙ g in
            (
              workblock,
              e,
              finds_valid workblock _ found
                  (search_stamp-Finds cr random workblock cost (max_rounds cost) 0),
            )
      ]
    where
      finds_valid :
          (workblock : Bytes) (r : Option Bytes × ℕ)
          → r.0 ≡ some s
          → Finds cr random workblock cost (max_rounds cost) 0 r
          → stamp_valid cr workblock s cost ≡ true
      finds_valid workblock (none, value) e f = absurd (cc)
      finds_valid workblock (some t, value) e (i, h, d, v, w, b) =
          let same : t ≡ s = cc in subst (λ x. stamp_valid cr workblock x cost ≡ true) same v

  -- `r` is the message at the receiver, `id` its id.
  check_cost-found :
      (r : LxMessage fl) (id : Bytes) (cost : ℕ) (s : Bytes)
      → (generate_stamp cr codec random id cost workblock_expand_rounds).0 ≡ some s
      → (check_cost cr codec r id s (some cost)).1 ≡ ok true
  unfolding check_cost
  check_cost-found r id cost s g =
      let (workblock, e, v) = found_valid id cost s g in rw (e, v, check_cost) refl

  with_found-check_cost :
      (r m : LxMessage fl) (id : Bytes) (cost : ℕ) (s : Bytes) (found : Option Bytes × ℕ)
      → found ≡ generate_stamp cr codec random id cost workblock_expand_rounds
      → m.stamp ≡ none
      → (with_found cr codec random m found).stamp ≡ some s
      → (check_cost cr codec r id s (some cost)).1 ≡ ok true
  unfolding with_found
  with_found-check_cost r m id cost s (none, value) g n e = absurd (cc)
  with_found-check_cost r m id cost s (some t, value) g n e =
      check_cost-found r id cost s (sym (ap (λ f. f.0) g) ∙ e)

  stamp_by_cost-check_cost :
      (r m : LxMessage fl) (id : Bytes) (cost : Option ℕ) (s : Bytes)
      → m.stamp ≡ none
      → (stamp_by_cost cr codec random cost m id).stamp ≡ some s
      → (check_cost cr codec r id s cost).1 ≡ ok true
  unfolding stamp_by_cost
  stamp_by_cost-check_cost r m id none s n e = absurd (cc)
  stamp_by_cost-check_cost r m id (some cost) s n e = with_found-check_cost r m id cost s _ refl n e

  stamp_by_ticket-check_stamp :
      (r m : LxMessage fl) (id : Bytes) (ticket : Option Bytes) (s : Bytes)
      → m.stamp ≡ none
      → (stamp_by_ticket cr codec random ticket m id).stamp ≡ some s
      → (check_stamp cr codec r id s m.stamp_cost ticket).1 ≡ ok true
  unfolding stamp_by_ticket check_stamp with_stamp
  stamp_by_ticket-check_stamp r m id none s n e = stamp_by_cost-check_cost r m id m.stamp_cost s n e
  stamp_by_ticket-check_stamp r m id (some ticket) s n e =
      elim (Bool-cases (length ticket == ticket_length)) [
        | inl l ↦
            let taken : stamp_by_ticket cr codec random (some ticket) m id
                ≡ with_stamp m (truncated_hash cr (ticket ++ id)) cost_ticket =
              rw l refl in
            let made : truncated_hash cr (ticket ++ id) ≡ s =
              some_injective (sym (ap (λ x. x.stamp) taken) ∙ e) in
            rw
              (subst (λ x. is_ticket_stamp cr codec ticket id x ≡ true) made
                (is_ticket_stamp-truncated_hash ticket id l))
              refl
        | inr l ↦
            let other : is_ticket_stamp cr codec ticket id s ≡ false =
              rw (l, is_ticket_stamp) refl in
            let worked : stamp_by_ticket cr codec random (some ticket) m id
                ≡ stamp_by_cost cr codec random m.stamp_cost m id =
              rw l refl in
            rw other (
              stamp_by_cost-check_cost r m id m.stamp_cost s n (sym (ap (λ x. x.stamp) worked) ∙ e))
      ]

  Stamped-message_id_of :
      (m m2 : LxMessage fl) (id : Bytes)
      → Stamped cr codec (identified cr codec m id) m2
      → message_id_of cr codec m2 ≡ message_id_of cr codec m
  unfolding message_id_of with_stamp pack_payload payload_values
  Stamped-message_id_of m m2 id kept = refl
  Stamped-message_id_of m m2 id (added stamp value) = refl

  as_received-message_id_of :
      (m2 : LxMessage fl) (g : Option Bytes)
      → message_id_of cr codec (as_received cr codec (record m2 { signature = g }))
        ≡ message_id_of cr codec m2
  unfolding message_id_of pack_payload payload_values new
  as_received-message_id_of m2 g = refl

  pub encode_signed_fresh :
      (ed : Signing) (k : ed.SigningKey) (m : LxMessage fl)
      → m.stamp ≡ none
      → m.defer_stamp ≡ false
      → let id = message_id_of cr codec m in
        encode_signed cr codec random ed k m
        ≡ sign_and_encode cr codec random ed k
            (signed_part_of cr codec m)
            (stamp_by_ticket cr codec random m.outbound_ticket (identified cr codec m id) id)
  unfolding encode_signed stamp_unless_deferred ensure_stamp stamp_unless
  encode_signed_fresh ed k m n d =
      let m1 = identified cr codec m (message_id_of cr codec m) in
      let made =
        ap (λ b. stamp_unless_deferred cr codec random b m1) d
        ∙ ap (λ s. stamp_unless cr codec random s m1.message_id m1) n in
      rw (made, encode_signed) refl

  -- The stamp that `encode_signed` makes for a message that had none is accepted: if a stamp was
  -- made, `validate_stamp` of the message as received, with the sender's ticket and stamp cost, says
  -- yes, be it a stamp by ticket or a proof of work.
  pub validate_stamp-encode_signed :
      (ed : Signing) (k : ed.SigningKey) (m : LxMessage fl) (s : Bytes)
      → m.stamp ≡ none
      → m.defer_stamp ≡ false
      → let m' = (encode_signed cr codec random ed k m).0 in
        m'.stamp ≡ some s
        → (validate_stamp cr codec (as_received cr codec m') m.stamp_cost m.outbound_ticket).1
          ≡ ok true
  unfolding validate_stamp validate_given sign_and_encode
  validate_stamp-encode_signed ed k m s n d e =
      let id = message_id_of cr codec m in
      let m1 = identified cr codec m id in
      let m2 = stamp_by_ticket cr codec random m.outbound_ticket m1 id in
      let same = encode_signed_fresh ed k m n d in
      let made : m2.stamp ≡ some s = sym (ap (λ o. o.0.stamp) same) ∙ e in
      let r =
        as_received cr codec
          (record m2 { signature = some (ed.sign k (signed_part_of cr codec m)) }) in
      let r1 = record r { stamp_checked = true; message_id = some (message_id_of cr codec r) } in
      let id' : message_id_of cr codec r ≡ id =
        as_received-message_id_of m2 (some (ed.sign k (signed_part_of cr codec m)))
        ∙ Stamped-message_id_of m m2 id
            (stamp_by_ticket-Stamped cr codec random m.outbound_ticket m1 id) in
      rw same (
        subst (λ o. (validate_given cr codec o r m.stamp_cost m.outbound_ticket).1 ≡ ok true)
          (sym made)
          (subst (λ i. (check_stamp cr codec r1 i s m.stamp_cost m.outbound_ticket).1 ≡ ok true)
            (sym id') (stamp_by_ticket-check_stamp r1 m1 id m.outbound_ticket s n made)))
