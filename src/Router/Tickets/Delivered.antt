-- ===== src/Router/Tickets/Delivered.antt =====
-- A ticket from one end to the other: `generate_ticket` and `get_inbound_tickets` of
-- lxmf-rs/src/rns/router.rs at the receiver, `encode_signed` of lxmf-rs/src/message.rs at the sender, and
-- `validate_stamp_with_tickets` at the receiver again.
use lxmf_rs.Prelude.{
  ℕ, ◌≡◌, refl, sym, ap, ◌∙◌, subst, true, false, Option, none, some, ◌++◌, arith, ◌||◌, Bytes,
  length, ◌==◌,
}
use lxmf_rs.Crypto.{Crypto, Signing}
use lxmf_rs.Wire.Errors.{ok}
use lxmf_rs.Wire.Value.{Float, Msgpack}
use lxmf_rs.Message.{LxMessage, new}
use lxmf_rs.Message.Wire.{
  truncated_hash, message_id_of, signed_part_of, pack_payload, payload_values,
}
use lxmf_rs.Message.Stamps.{
  encode_signed, sign_and_encode, stamp_by_ticket, with_stamp, validate_stamp, cost_ticket,
  ticket_length,
}
use lxmf_rs.Message.Signed.{as_received, identified}
use lxmf_rs.Message.Accepted.{validate_stamp-encode_signed, encode_signed_fresh}
use lxmf_rs.Router.Tickets.{TicketEntry, TicketStore, now_s, generate_ticket, get_inbound_tickets}
use lxmf_rs.Router.Tickets.Laws.{Reach}
use lxmf_rs.Router.Tickets.Given.{generate_ticket-Holds, Holds-get_inbound_tickets}
use lxmf_rs.Router.Tickets.Accepted.{
  try_stamp, or_false, validate_stamp_with_tickets, accepts_any-contains,
  validate_stamp_with_tickets-accepts_any,
}

module _ {fl : Float} (cr : Crypto) (codec : Msgpack fl) (random : ℕ → Bytes) (ed : Signing)
    (k : ed.SigningKey) where
  -- The message that leaves the sender with a stamp by ticket.
  abbrev ticketed : LxMessage fl → Bytes → LxMessage fl
  ticketed m t =
      let id = message_id_of cr codec m in
      record (with_stamp (identified cr codec m id) (truncated_hash cr (t ++ id)) cost_ticket) {
        signature = some (ed.sign k (signed_part_of cr codec m));
      }

  encode_signed-ticketed :
      (m : LxMessage fl) (t : Bytes)
      → m.stamp ≡ none
      → m.defer_stamp ≡ false
      → m.outbound_ticket ≡ some t
      → length t ≡ ticket_length
      → (encode_signed cr codec random ed k m).0 ≡ ticketed m t
  unfolding sign_and_encode stamp_by_ticket
  encode_signed-ticketed m t n d o l =
      let id = message_id_of cr codec m in
      let m1 = identified cr codec m id in
      let q : (length t == ticket_length) ≡ true = ground arith in
      let made : stamp_by_ticket cr codec random (some t) m1 id
          ≡ with_stamp m1 (truncated_hash cr (t ++ id)) cost_ticket =
        rw q refl in
      let sent : LxMessage fl → LxMessage fl =
        λ x. (sign_and_encode cr codec random ed k (signed_part_of cr codec m) x).0 in
      ap (λ r. r.0) (encode_signed_fresh cr codec random ed k m n d)
      ∙ ap (λ g. sent (stamp_by_ticket cr codec random g m1 id)) o
      ∙ ap sent made

  validate_stamp-ticketed :
      (m : LxMessage fl) (t : Bytes) (cost : Option ℕ)
      → m.stamp ≡ none
      → m.defer_stamp ≡ false
      → m.outbound_ticket ≡ some t
      → length t ≡ ticket_length
      → (validate_stamp cr codec
          (as_received cr codec (encode_signed cr codec random ed k m).0)
          cost
          (some t)).1
        ≡ ok true
  unfolding message_id_of signed_part_of pack_payload payload_values with_stamp new
  validate_stamp-ticketed m t cost n d o l =
      let mc = record m { stamp_cost = cost } in
      let sent = encode_signed-ticketed m t n d o l in
      let sent_c = encode_signed-ticketed mc t n d o l in
      let same : as_received cr codec (ticketed mc t) ≡ as_received cr codec (ticketed m t) =
        refl in
      let good =
        validate_stamp-encode_signed cr codec random ed k mc
          (truncated_hash cr (t ++ message_id_of cr codec m)) n d (ap (λ x. x.stamp) sent_c) in
      subst
        (λ g.
          (validate_stamp cr codec (as_received cr codec (encode_signed cr codec random ed k m).0)
            cost g).1
          ≡ ok true)
        o
        (subst (λ x. (validate_stamp cr codec x cost m.outbound_ticket).1 ≡ ok true)
          (ap (as_received cr codec) sent_c ∙ same ∙ sym (ap (as_received cr codec) sent)) good)

  -- A ticket works. If a node that keeps its tickets in a store that the calls reach gives a ticket to a
  -- destination, be it a new one or one that it gave before, and the destination signs a message
  -- without a stamp with that ticket, then until the ticket expires the node accepts the message as
  -- received, with the tickets that it then takes from the destination, whatever stamp cost it asks.
  pub validate_stamp_with_tickets-generate_ticket :
      (s : TicketStore fl) (d : Bytes) (then_ms expiry_s : ℕ) (bytes : Bytes) (e : TicketEntry fl)
      (m : LxMessage fl) (cost now_ms : ℕ)
      → Reach s
      → length bytes ≡ ticket_length
      → (generate_ticket s d then_ms expiry_s bytes).1 ≡ some e
      → m.stamp ≡ none
      → m.defer_stamp ≡ false
      → m.outbound_ticket ≡ some e.ticket
      → fl.less (now_s fl now_ms) e.expires_at_s ≡ true
      → (validate_stamp_with_tickets cr codec
          (as_received cr codec (encode_signed cr codec random ed k m).0)
          cost
          (get_inbound_tickets (generate_ticket s d then_ms expiry_s bytes).0 d now_ms)).1
        ≡ true
  unfolding try_stamp
  validate_stamp_with_tickets-generate_ticket s d then_ms expiry_s bytes e m cost now_ms r l g n f o
        v =
      let s' = (generate_ticket s d then_ms expiry_s bytes).0 in
      let h = generate_ticket-Holds d then_ms expiry_s bytes e r l g in
      let (offered, given, has) = Holds-get_inbound_tickets s' d e now_ms h v in
      let received = as_received cr codec (encode_signed cr codec random ed k m).0 in
      let good = ap or_false (validate_stamp-ticketed m e.ticket (some cost) n f o h.long) in
      let any = accepts_any-contains cr codec received cost e.ticket offered has good in
      subst (λ ts. (validate_stamp_with_tickets cr codec received cost ts).1 ≡ true) (sym given)
        (validate_stamp_with_tickets-accepts_any cr codec received cost (some offered)
          ∙ ap (λ b. b || (try_stamp cr codec received cost none).1) any)
