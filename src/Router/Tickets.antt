-- ===== src/Router/Tickets.antt =====
-- `TicketStore` of lxmf-rs/src/rns/router.rs: tickets that a sender may stamp its messages with in
-- place of a proof of work. The program reads its maps in no particular order; where the order shows
-- (`generate_ticket` takes the first ticket that is good enough), it is that of the list here.
pub mod Laws
pub mod Given
pub mod Accepted
pub mod Delivered
pub mod Field
use lxmf_rs.Prelude.{
  ℕ, ◌*◌, Bool, true, false, not, Option, none, some, List, [], ◌∷◌, Bytes, Bytes-discrete,
  if◌then◌else◌, retain,
}
use lxmf_rs.Prelude.HashMap.{get, insert}
use lxmf_rs.Wire.Value.{Float}

pub record TicketEntry (fl : Float) : Type 0 where
  pub expires_at_s : fl.F64
  pub ticket : Bytes

-- Outbound: the ticket that a destination gave. Inbound: the tickets given out, with their expiry.
pub record TicketStore (fl : Float) : Type 0 where
  pub outbound : List (Bytes × TicketEntry fl)
  pub inbound : List (Bytes × List (Bytes × fl.F64))
  pub last_deliveries : List (Bytes × fl.F64)

-- In seconds, of lxmf-rs/src/constants.rs.
abbrev pub ticket_grace : ℕ
ticket_grace = 5 * 24 * 60 * 60

abbrev pub ticket_renew : ℕ
ticket_renew = 14 * 24 * 60 * 60

abbrev pub ticket_interval : ℕ
ticket_interval = 1 * 24 * 60 * 60

-- The tickets given to a destination: `entry(…).or_default()`.
unfoldable pub tickets_of : {A : Type 0} → Option (List A) → List A
tickets_of none = []
tickets_of (some tickets) = tickets

-- `if tickets.is_empty() { None } else { Some(tickets) }`.
unfoldable pub unless_empty : List Bytes → Option (List Bytes)
unless_empty [] = none
unless_empty (t ∷ ts) = some (t ∷ ts)

module _ (fl : Float) where
  unfoldable pub now_s : ℕ → fl.F64
  now_s now_ms = fl.divide (fl.of_u64 now_ms) (fl.of_u64 1000)

  -- The ticket that the destination was given lately, so that it gets no other.
  unfoldable pub is_recent : fl.F64 → Option fl.F64 → Bool
  is_recent now none = false
  is_recent now (some last) = fl.less (fl.subtract now last) (fl.of_u64 ticket_interval)

  -- The first ticket that is valid for longer than the time of renewal.
  unfoldable pub find_renewable : fl.F64 → List (Bytes × fl.F64) → Option (TicketEntry fl)
  find_renewable now [] = none
  find_renewable now ((ticket, expires_at) ∷ tickets) =
      if fl.less (fl.of_u64 ticket_renew) (fl.subtract expires_at now)
      then some (record { expires_at_s = expires_at; ticket = ticket })
      else find_renewable now tickets

  unfoldable pub unexpired : fl.F64 → Option (TicketEntry fl) → Option Bytes
  unexpired now none = none
  unexpired now (some e) = if fl.less now e.expires_at_s then some e.ticket else none

  unfoldable pub valid_tickets : fl.F64 → List (Bytes × fl.F64) → List Bytes
  valid_tickets now [] = []
  valid_tickets now ((ticket, expires_at) ∷ tickets) =
      let rest = valid_tickets now tickets in if fl.less now expires_at then ticket ∷ rest else rest

  unfoldable pub valid_inbound : fl.F64 → Option (List (Bytes × fl.F64)) → Option (List Bytes)
  unfolding valid_tickets unless_empty
  valid_inbound now none = none
  valid_inbound now (some tickets) = unless_empty (valid_tickets now tickets)

  unfoldable pub is_within_grace : fl.F64 → Bytes × fl.F64 → Bool
  is_within_grace now e = fl.at_most now (fl.add e.1 (fl.of_u64 ticket_grace))

  -- The loop over `values_mut`.
  unfoldable pub clean_each :
      fl.F64 → List (Bytes × List (Bytes × fl.F64)) → List (Bytes × List (Bytes × fl.F64))
  unfolding is_within_grace
  clean_each now [] = []
  clean_each now ((d, tickets) ∷ m) = (d, retain (is_within_grace now) tickets) ∷ clean_each now m

  unfoldable pub is_unexpired : fl.F64 → Bytes × TicketEntry fl → Bool
  is_unexpired now e = fl.less now e.1.expires_at_s

module _ {fl : Float} where
  unfoldable pub empty : TicketStore fl
  empty = record { outbound = []; inbound = []; last_deliveries = [] }

  unfoldable pub add_ticket : TicketStore fl → Bytes → TicketEntry fl → TicketStore fl
  unfolding tickets_of
  add_ticket s destination_hash e = record s {
    inbound =
        insert Bytes-discrete destination_hash
          (insert Bytes-discrete e.ticket e.expires_at_s
            (tickets_of (get Bytes-discrete destination_hash s.inbound)))
          s.inbound;
  }

  unfoldable pub renew_or_add :
      TicketStore fl
      → Bytes
      → TicketEntry fl
      → Option (TicketEntry fl)
      → TicketStore fl × Option (TicketEntry fl)
  unfolding add_ticket
  renew_or_add s destination_hash fresh none = (add_ticket s destination_hash fresh, some fresh)
  renew_or_add s destination_hash fresh (some found) = (s, some found)

  -- `bytes` is what the random source gives for the new ticket.
  unfoldable pub generate_ticket :
      TicketStore fl → Bytes → ℕ → ℕ → Bytes → TicketStore fl × Option (TicketEntry fl)
  unfolding now_s is_recent find_renewable tickets_of renew_or_add
  generate_ticket s destination_hash now_ms expiry_s bytes =
      if is_recent fl (now_s fl now_ms) (get Bytes-discrete destination_hash s.last_deliveries)
      then (s, none)
      else renew_or_add s destination_hash
          (record { expires_at_s = fl.add (now_s fl now_ms) (fl.of_u64 expiry_s); ticket = bytes })
          (find_renewable fl (now_s fl now_ms)
            (tickets_of (get Bytes-discrete destination_hash s.inbound)))

  unfoldable pub remember_ticket : TicketStore fl → Bytes → TicketEntry fl → TicketStore fl
  remember_ticket s destination_hash e = record s {
    outbound = insert Bytes-discrete destination_hash e s.outbound;
  }

  unfoldable pub get_outbound_ticket : TicketStore fl → Bytes → ℕ → Option Bytes
  unfolding unexpired now_s
  get_outbound_ticket s destination_hash now_ms =
      unexpired fl (now_s fl now_ms) (get Bytes-discrete destination_hash s.outbound)

  unfoldable pub get_inbound_tickets : TicketStore fl → Bytes → ℕ → Option (List Bytes)
  unfolding valid_inbound now_s
  get_inbound_tickets s destination_hash now_ms =
      valid_inbound fl (now_s fl now_ms) (get Bytes-discrete destination_hash s.inbound)

  unfoldable pub mark_ticket_delivered : TicketStore fl → Bytes → ℕ → TicketStore fl
  unfolding now_s
  mark_ticket_delivered s destination_hash now_ms = record s {
    last_deliveries = insert Bytes-discrete destination_hash (now_s fl now_ms) s.last_deliveries;
  }

  unfoldable pub clean_expired : TicketStore fl → ℕ → TicketStore fl
  unfolding clean_each now_s is_unexpired
  clean_expired s now_ms = record s {
    outbound = retain (is_unexpired fl (now_s fl now_ms)) s.outbound;
    inbound = clean_each fl (now_s fl now_ms) s.inbound;
  }
