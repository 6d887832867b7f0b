-- ===== src/Router/Tickets/Given.antt =====
-- The tickets that a `TicketStore` of lxmf-rs/src/rns/router.rs gives out are those that it takes, and
-- cleaning does not show.
use lxmf_rs.Prelude.{
  ℕ, ◌≡◌, refl, sym, ap, ◌∙◌, subst, true, Option, none, some, List, [], ◌∷◌, arith, inl, inr,
  Bytes, Bytes-discrete, Bool-cases, Option-cases, length,
}
use lxmf_rs.Prelude.HashMap.{
  get, Distinct, get-insert_self, get-retain_kept, get-retain_dropped, get-retain-none, contains,
}
use lxmf_rs.Message.Stamps.{ticket_length}
use lxmf_rs.Wire.Value.{Float}
use lxmf_rs.Router.Tickets.{
  TicketEntry, TicketStore, ticket_grace, now_s, is_recent, find_renewable, tickets_of, add_ticket,
  renew_or_add, generate_ticket, unexpired, get_outbound_ticket, unless_empty, valid_inbound,
  get_inbound_tickets, is_unexpired, clean_expired,
}
use lxmf_rs.Router.Tickets.Laws.{
  IsStore, Reach, Reach-IsStore, IsStore-tickets_of, find_renewable-get, some_injective,
  valid_tickets-retain, contains-valid_tickets, get-clean_each, cleaned,
}

-- The answer to a ticket that is valid: a list with it.
abbrev pub Offers : Bytes → Option (List Bytes) → Type 0
Offers t o = (l : List Bytes) × (o ≡ some l) × (contains Bytes-discrete t l ≡ true)

contains-unless_empty :
    (t : Bytes) (ts : List Bytes) → contains Bytes-discrete t ts ≡ true → Offers t (unless_empty ts)
unfolding unless_empty contains
contains-unless_empty t [] h = absurd (ground arith)
contains-unless_empty t (u ∷ ts) h = (u ∷ ts, refl, h)

-- `e` is among the tickets that the store takes from `d`.
pub record Holds {fl : Float} (s : TicketStore fl) (d : Bytes) (e : TicketEntry fl) : Type 0 where
  pub tickets : List (Bytes × fl.F64)
  pub given : get Bytes-discrete d s.inbound ≡ some tickets
  pub held : get Bytes-discrete e.ticket tickets ≡ some e.expires_at_s
  pub long : length e.ticket ≡ ticket_length

module _ (fl : Float) where
  valid_inbound-cleaned :
      ((x y : fl.F64)
        → fl.less x y ≡ true
        → fl.at_most x (fl.add y (fl.of_u64 ticket_grace)) ≡ true)
      → (now : fl.F64) (o : Option (List (Bytes × fl.F64)))
      → valid_inbound fl now (cleaned fl now o) ≡ valid_inbound fl now o
  unfolding valid_inbound
  valid_inbound-cleaned grace now none = refl
  valid_inbound-cleaned grace now (some tickets) =
      ap unless_empty (valid_tickets-retain fl grace now tickets)

module _ {fl : Float} where
  given_Holds :
      (s : TicketStore fl) (d : Bytes) (e : TicketEntry fl) (o : Option (List (Bytes × fl.F64)))
      → get Bytes-discrete d s.inbound ≡ o
      → get Bytes-discrete e.ticket (tickets_of o) ≡ some e.expires_at_s
      → length e.ticket ≡ ticket_length
      → Holds s d e
  unfolding tickets_of get
  given_Holds s d e none g h l = absurd (ground arith)
  given_Holds s d e (some tickets) g h l = record {
    tickets = tickets;
    given = g;
    held = h;
    long = l;
  }

  add_ticket-Holds :
      (s : TicketStore fl) (d : Bytes) (e : TicketEntry fl)
      → length e.ticket ≡ ticket_length
      → Holds (add_ticket s d e) d e
  unfolding add_ticket
  add_ticket-Holds s d e l = record {
    tickets = _;
    given = get-insert_self Bytes-discrete d _ s.inbound;
    held =
        get-insert_self Bytes-discrete e.ticket e.expires_at_s
          (tickets_of (get Bytes-discrete d s.inbound));
    long = l;
  }

  renew_or_add-Holds :
      {s : TicketStore fl} (d : Bytes) (now : fl.F64) (e fresh : TicketEntry fl)
      → length fresh.ticket ≡ ticket_length
      → IsStore s
      → (o : Option (TicketEntry fl))
      → o ≡ find_renewable fl now (tickets_of (get Bytes-discrete d s.inbound))
      → (renew_or_add s d fresh o).1 ≡ some e
      → Holds (renew_or_add s d fresh o).0 d e
  unfolding renew_or_add
  renew_or_add-Holds {s} d now e fresh l h none f g =
      subst (Holds (add_ticket s d fresh) d) (some_injective g) (add_ticket-Holds s d fresh l)
  renew_or_add-Holds {s} d now e fresh l h (some found) f g =
      let given = find_renewable-get fl now _ e (IsStore-tickets_of d h) (sym f ∙ g) in
      given_Holds s d e (get Bytes-discrete d s.inbound) refl given.0 given.1

  -- A ticket that the store gives to a destination is one that it holds for it from then on: a found
  -- one as well as a new one.
  pub generate_ticket-Holds :
      {s : TicketStore fl} (d : Bytes) (now_ms expiry_s : ℕ) (bytes : Bytes) (e : TicketEntry fl)
      → Reach s
      → length bytes ≡ ticket_length
      → (generate_ticket s d now_ms expiry_s bytes).1 ≡ some e
      → Holds (generate_ticket s d now_ms expiry_s bytes).0 d e
  unfolding generate_ticket
  generate_ticket-Holds {s} d now_ms expiry_s bytes e r l =
      elim (Bool-cases (is_recent fl (now_s fl now_ms) (get Bytes-discrete d s.last_deliveries))) [
        | inl p ↦ rw p (λ g. absurd (cc g))
        | inr p ↦ rw p (
            renew_or_add-Holds {s = s} d (now_s fl now_ms) e
              (record {
                expires_at_s = fl.add (now_s fl now_ms) (fl.of_u64 expiry_s);
                ticket = bytes;
              })
              l (Reach-IsStore r) _ refl)
      ]

  -- A ticket that is held is taken from the destination until it expires.
  pub Holds-get_inbound_tickets :
      (s : TicketStore fl) (d : Bytes) (e : TicketEntry fl) (now_ms : ℕ)
      → Holds s d e
      → fl.less (now_s fl now_ms) e.expires_at_s ≡ true
      → Offers e.ticket (get_inbound_tickets s d now_ms)
  unfolding get_inbound_tickets valid_inbound
  Holds-get_inbound_tickets s d e now_ms h v =
      subst (λ o. Offers e.ticket (valid_inbound fl (now_s fl now_ms) o)) (sym h.given)
        (contains-unless_empty e.ticket _
          (contains-valid_tickets fl (now_s fl now_ms) e.ticket e.expires_at_s h.tickets h.held v))

  get_outbound_ticket-clean_expired :
      (s : TicketStore fl) (d : Bytes) (now_ms : ℕ)
      → Distinct Bytes-discrete s.outbound
      → get_outbound_ticket (clean_expired s now_ms) d now_ms ≡ get_outbound_ticket s d now_ms
  unfolding get_outbound_ticket clean_expired unexpired is_unexpired
  get_outbound_ticket-clean_expired s d now_ms h =
      let p = is_unexpired fl (now_s fl now_ms) in
      elim (Option-cases (get Bytes-discrete d s.outbound)) [
        | inl n ↦ rw (n, get-retain-none Bytes-discrete p d s.outbound n)
        | inr (e, g) ↦ elim (Bool-cases (fl.less (now_s fl now_ms) e.expires_at_s)) [
          | inl v ↦ rw (g, get-retain_kept Bytes-discrete p d e s.outbound g v)
          | inr v ↦ rw (g, v, get-retain_dropped Bytes-discrete p d e s.outbound h g v)
        ]
      ]

  -- Cleaning the expired tickets shows to nobody: in any store that the calls reach, the ticket for a
  -- destination and the tickets taken from it are the same after `clean_expired` as before, at the time
  -- of the cleaning. The hypothesis on `f64` is that what is below `y` is at most `y` and the grace.
  pub clean_expired-is_unseen :
      ((x y : fl.F64)
        → fl.less x y ≡ true
        → fl.at_most x (fl.add y (fl.of_u64 ticket_grace)) ≡ true)
      → (s : TicketStore fl) (d : Bytes) (now_ms : ℕ) → Reach s
      → (get_outbound_ticket (clean_expired s now_ms) d now_ms ≡ get_outbound_ticket s d now_ms)
        × (get_inbound_tickets (clean_expired s now_ms) d now_ms ≡ get_inbound_tickets s d now_ms)
  unfolding get_inbound_tickets clean_expired
  clean_expired-is_unseen grace s d now_ms r = (
    get_outbound_ticket-clean_expired s d now_ms (Reach-IsStore r).outbound-Distinct,
    ap (valid_inbound fl (now_s fl now_ms)) (get-clean_each fl (now_s fl now_ms) d s.inbound)
        ∙ valid_inbound-cleaned fl grace (now_s fl now_ms) (get Bytes-discrete d s.inbound),
  )
