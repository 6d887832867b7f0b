-- ===== src/Tests/Tickets.antt =====
-- Examples for the tickets of lxmf-rs/src/rns/router.rs.
use lxmf_rs.Prelude.{
  ℕ, ◌≡◌, refl, true, false, none, some, [], ◌∷◌, ◌||◌, arith, Bytes, ltb, retain,
}
use lxmf_rs.Prelude.HashMap.{get}
use lxmf_rs.Message.{LxMessage, new}
use lxmf_rs.Message.Stamps.{encode_signed}
use lxmf_rs.Message.Signed.{as_received}
use lxmf_rs.Wire.Value.{Value, nil, dict, entry, stop, pos, integer, as_i64}
use lxmf_rs.Router.Tickets.{
  TicketEntry, TicketStore, empty, now_s, is_recent, find_renewable, tickets_of, renew_or_add,
  generate_ticket, remember_ticket, get_outbound_ticket, get_inbound_tickets, clean_expired,
}
use lxmf_rs.Router.Tickets.Laws.{start, generates, remembers}
use lxmf_rs.Router.Tickets.Given.{clean_expired-is_unseen}
use lxmf_rs.Router.Tickets.Accepted.{
  try_stamp, accepts_any, or_none, validate_stamp_with_tickets,
  validate_stamp_with_tickets-accepts_any,
}
use lxmf_rs.Router.Tickets.Delivered.{validate_stamp_with_tickets-generate_ticket}
use lxmf_rs.Router.Tickets.Field.{
  insert_ticket_field, extract_ticket_field, entries_of, others, is_ticket_key, ticket_entry,
  extract-insert_ticket_field,
}
use lxmf_rs.Tests.{toy_float, toy_crypto, toy_signing, codec_of, hash16, hash32}

abbrev greeting : LxMessage toy_float
greeting = record (new (hash16 1) (hash16 2)) {
  content = 73 ∷ 74 ∷ [];
  outbound_ticket = some (hash16 5);
  defer_stamp = false;
}

abbrev no_luck : ℕ → Bytes
no_luck n = hash32 255

abbrev given : TicketEntry toy_float
given = record { expires_at_s = 105; ticket = hash16 5 }

-- The ticket is given in second 5, and the message comes in second 60.
validate_stamp_with_tickets-generate_ticket_example :
    (validate_stamp_with_tickets toy_crypto
      (codec_of nil)
      (as_received toy_crypto
        (codec_of nil)
        (encode_signed toy_crypto (codec_of nil) no_luck toy_signing 3 greeting).0)
      20
      (get_inbound_tickets
        (generate_ticket (empty {fl = toy_float}) (hash16 2) 5000 100 (hash16 5)).0
        (hash16 2)
        60_000)).1
    ≡ true
unfolding new generate_ticket is_recent renew_or_add find_renewable tickets_of now_s empty get
validate_stamp_with_tickets-generate_ticket_example =
    validate_stamp_with_tickets-generate_ticket toy_crypto (codec_of nil) no_luck toy_signing 3
      empty (hash16 2) 5000 100 (hash16 5) given greeting 20 60_000 start refl refl refl refl refl
      refl

validate_stamp_with_tickets-accepts_any_example :
    (validate_stamp_with_tickets toy_crypto
      (codec_of nil)
      greeting
      0
      (some (hash16 4 ∷ hash16 5 ∷ []))).1
    ≡ (accepts_any toy_crypto (codec_of nil) greeting 0 (or_none (some (hash16 4 ∷ hash16 5 ∷ [])))
        || (try_stamp toy_crypto (codec_of nil) greeting 0 none).1)
validate_stamp_with_tickets-accepts_any_example =
    validate_stamp_with_tickets-accepts_any toy_crypto (codec_of nil) greeting 0
      (some (hash16 4 ∷ hash16 5 ∷ []))

-- A store with a ticket in each direction.
abbrev stocked : TicketStore toy_float
stocked =
    remember_ticket (generate_ticket empty (hash16 2) 5000 100 (hash16 5)).0 (hash16 3)
      (record { expires_at_s = 7; ticket = hash16 6 })

clean_expired-is_unseen_example :
    (get_outbound_ticket (clean_expired stocked 8000) (hash16 3) 8000
      ≡ get_outbound_ticket stocked (hash16 3) 8000)
    × (get_inbound_tickets (clean_expired stocked 8000) (hash16 3) 8000
        ≡ get_inbound_tickets stocked (hash16 3) 8000)
clean_expired-is_unseen_example =
    clean_expired-is_unseen (λ (x y : ℕ) (h : ltb x y ≡ true). ground arith) stocked (hash16 3) 8000
      (remembers (hash16 3) (record { expires_at_s = 7; ticket = hash16 6 })
        (generates (hash16 2) 5000 100 (hash16 5) refl start))

-- The fields hold an older ticket and another field.
abbrev older : Value toy_float
older = dict (entry (integer (pos 12)) nil (entry (integer (pos 4)) nil stop))

extract-insert_ticket_field_example :
    (extract_ticket_field (insert_ticket_field older 105 (hash16 5)) ≡ some (105, hash16 5))
    × (retain is_ticket_key (entries_of (insert_ticket_field older 105 (hash16 5)))
        ≡ ticket_entry 105 (hash16 5) ∷ [])
    × (others (entries_of (insert_ticket_field older 105 (hash16 5))) ≡ others (entries_of older))
unfolding entries_of as_i64
extract-insert_ticket_field_example =
    extract-insert_ticket_field older 105 (hash16 5) refl (refl, (refl, tt))
