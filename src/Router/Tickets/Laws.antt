-- ===== src/Router/Tickets/Laws.antt =====
-- What holds of the tables of a `TicketStore` of lxmf-rs/src/rns/router.rs after any history, and
-- what that makes of cleaning and of the tickets given out.
use lxmf_rs.Prelude.{
  ℕ, ◌≡◌, refl, sym, ap, ◌∙◌, subst, true, Option, none, some, List, [], ◌∷◌, arith, inl, inr,
  Bytes, Bytes-discrete, Bool-cases, length, All, retain, All-retain,
}
use lxmf_rs.Prelude.HashMap.{
  get, insert, Distinct, insert-Distinct, retain-Distinct, All-remove, All-get, contains,
}
use lxmf_rs.Message.Stamps.{ticket_length}
use lxmf_rs.Wire.Value.{Float}
use lxmf_rs.Router.Tickets.{
  TicketEntry, TicketStore, ticket_grace, ticket_renew, empty, now_s, is_recent, find_renewable,
  tickets_of, add_ticket, renew_or_add, generate_ticket, remember_ticket, valid_tickets,
  mark_ticket_delivered, is_within_grace, clean_each, clean_expired,
}

-- No ticket twice for a destination, and each of the right length.
abbrev pub AreTickets : (fl : Float) → Bytes × List (Bytes × fl.F64) → Type 0
AreTickets fl e = Distinct Bytes-discrete e.1 × All (λ t. length t.0 ≡ ticket_length) e.1

pub record IsStore {fl : Float} (s : TicketStore fl) : Type 0 where
  pub outbound-Distinct : Distinct Bytes-discrete s.outbound
  pub inbound-Distinct : Distinct Bytes-discrete s.inbound
  pub tickets-AreTickets : All (AreTickets fl) s.inbound

-- The calls that change a store. The random source fills 16 bytes.
pub data Reach {fl : Float} : TicketStore fl → Type 0 where
  start : Reach empty
  generates :
      {s : TicketStore fl} (d : Bytes) (now_ms expiry_s : ℕ) (bytes : Bytes)
      → length bytes ≡ ticket_length
      → Reach s
      → Reach (generate_ticket s d now_ms expiry_s bytes).0
  remembers :
      {s : TicketStore fl} (d : Bytes) (e : TicketEntry fl)
      → Reach s
      → Reach (remember_ticket s d e)
  delivers :
      {s : TicketStore fl} (d : Bytes) (now_ms : ℕ)
      → Reach s
      → Reach (mark_ticket_delivered s d now_ms)
  cleans : {s : TicketStore fl} (now_ms : ℕ) → Reach s → Reach (clean_expired s now_ms)

pub some_injective : {A : Type 0} {a b : A} → ◌≡◌ {A = Option A} (some a) (some b) → a ≡ b
some_injective e = cc

module _ (fl : Float) where
  abbrev pub cleaned : fl.F64 → Option (List (Bytes × fl.F64)) → Option (List (Bytes × fl.F64))
  cleaned now none = none
  cleaned now (some tickets) = some (retain (is_within_grace fl now) tickets)

  pub get-clean_each :
      (now : fl.F64) (d : Bytes) (m : List (Bytes × List (Bytes × fl.F64)))
      → get Bytes-discrete d (clean_each fl now m) ≡ cleaned now (get Bytes-discrete d m)
  unfolding clean_each get
  get-clean_each now d [] = refl
  get-clean_each now d ((j, tickets) ∷ m) = ground (arith, get-clean_each now d m)

  clean_each-Distinct :
      (now : fl.F64) (m : List (Bytes × List (Bytes × fl.F64)))
      → Distinct Bytes-discrete m
      → Distinct Bytes-discrete (clean_each fl now m)
  unfolding clean_each
  clean_each-Distinct now [] h = tt
  clean_each-Distinct now ((j, tickets) ∷ m) h =
      (get-clean_each now j m ∙ ap (cleaned now) h.0, clean_each-Distinct now m h.1)

  clean_each-AreTickets :
      (now : fl.F64) (m : List (Bytes × List (Bytes × fl.F64)))
      → All (AreTickets fl) m
      → All (AreTickets fl) (clean_each fl now m)
  unfolding clean_each
  clean_each-AreTickets now [] h = tt
  clean_each-AreTickets now ((j, tickets) ∷ m) h = (
    (
      retain-Distinct Bytes-discrete (is_within_grace fl now) tickets h.0.0,
      All-retain _ (is_within_grace fl now) tickets h.0.1,
    ),
    clean_each-AreTickets now m h.1,
  )

  -- Cleaning drops no ticket that is still valid, if a valid one is within the time of grace.
  pub valid_tickets-retain :
      ((x y : fl.F64)
        → fl.less x y ≡ true
        → fl.at_most x (fl.add y (fl.of_u64 ticket_grace)) ≡ true)
      → (now : fl.F64) (tickets : List (Bytes × fl.F64))
      → valid_tickets fl now (retain (is_within_grace fl now) tickets)
        ≡ valid_tickets fl now tickets
  unfolding valid_tickets is_within_grace
  valid_tickets-retain grace now [] = refl
  valid_tickets-retain grace now ((t, x) ∷ tickets) =
      ground (arith, grace now x, valid_tickets-retain grace now tickets)

  pub contains-valid_tickets :
      (now : fl.F64) (t : Bytes) (x : fl.F64) (tickets : List (Bytes × fl.F64))
      → get Bytes-discrete t tickets ≡ some x
      → fl.less now x ≡ true
      → contains Bytes-discrete t (valid_tickets fl now tickets) ≡ true
  unfolding valid_tickets get contains
  contains-valid_tickets now t x [] h v = absurd (ground arith)
  contains-valid_tickets now t x ((j, y) ∷ tickets) h v =
      ground (arith, contains-valid_tickets now t x tickets)

  pub find_renewable-get :
      (now : fl.F64) (tickets : List (Bytes × fl.F64)) (e : TicketEntry fl)
      → AreTickets fl ([], tickets)
      → find_renewable fl now tickets ≡ some e
      → (get Bytes-discrete e.ticket tickets ≡ some e.expires_at_s)
        × (length e.ticket ≡ ticket_length)
  unfolding find_renewable get
  find_renewable-get now [] e d h = absurd (ground arith)
  find_renewable-get now ((t, x) ∷ tickets) e d h =
      elim (Bool-cases (fl.less (fl.of_u64 ticket_renew) (fl.subtract x now))) [
        | inl p ↦
            let same : ◌≡◌ {A = Option (TicketEntry fl)}
                (some (record { expires_at_s = x; ticket = t })) (some e) =
              ground arith in
            subst
              (λ o.
                (get Bytes-discrete o.ticket ((t, x) ∷ tickets) ≡ some o.expires_at_s)
                × (length o.ticket ≡ ticket_length))
              (some_injective same) (ground arith, d.1.0)
        | inr p ↦
            let rest = find_renewable-get now tickets e (d.0.1, d.1.1) (ground arith) in
            elim (Bytes-discrete t e.ticket) [
              | yes q ↦ absurd (cc (sym (d.0.0), ap (λ i. get Bytes-discrete i tickets) q, rest.0))
              | no n ↦ (ground arith, rest.1)
            ]
      ]

AreTickets-tickets_of :
    (fl : Float) (d : Bytes) (o : Option (List (Bytes × fl.F64)))
    → ((tickets : List (Bytes × fl.F64)) → o ≡ some tickets → AreTickets fl (d, tickets))
    → AreTickets fl (d, tickets_of o)
unfolding tickets_of
AreTickets-tickets_of fl d none h = (tt, tt)
AreTickets-tickets_of fl d (some tickets) h = h tickets refl

module _ {fl : Float} where
  pub IsStore-tickets_of :
      {s : TicketStore fl} (d : Bytes)
      → IsStore s
      → AreTickets fl (d, tickets_of (get Bytes-discrete d s.inbound))
  IsStore-tickets_of {s} d h =
      AreTickets-tickets_of fl d (get Bytes-discrete d s.inbound) (λ tickets g.
        All-get Bytes-discrete (AreTickets fl) d tickets s.inbound h.tickets-AreTickets g)

  add_ticket-IsStore :
      {s : TicketStore fl} (d : Bytes) (e : TicketEntry fl)
      → length e.ticket ≡ ticket_length
      → IsStore s
      → IsStore (add_ticket s d e)
  unfolding add_ticket insert
  add_ticket-IsStore {s} d e l h =
      let a = IsStore-tickets_of d h in
      let ts = tickets_of (get Bytes-discrete d s.inbound) in
      record {
        outbound-Distinct = h.outbound-Distinct;
        inbound-Distinct =
            insert-Distinct Bytes-discrete d (insert Bytes-discrete e.ticket e.expires_at_s ts)
              s.inbound h.inbound-Distinct;
        tickets-AreTickets = (
          (
            insert-Distinct Bytes-discrete e.ticket e.expires_at_s ts a.0,
            (l, All-remove Bytes-discrete _ e.ticket ts a.1),
          ),
          All-remove Bytes-discrete (AreTickets fl) d s.inbound h.tickets-AreTickets,
        );
      }

  renew_or_add-IsStore :
      {s : TicketStore fl} (d : Bytes) (e : TicketEntry fl) (o : Option (TicketEntry fl))
      → length e.ticket ≡ ticket_length
      → IsStore s
      → IsStore (renew_or_add s d e o).0
  unfolding renew_or_add
  renew_or_add-IsStore d e none l h = add_ticket-IsStore d e l h
  renew_or_add-IsStore d e (some found) l h = h

  generate_ticket-IsStore :
      {s : TicketStore fl} (d : Bytes) (now_ms expiry_s : ℕ) (bytes : Bytes)
      → length bytes ≡ ticket_length
      → IsStore s
      → IsStore (generate_ticket s d now_ms expiry_s bytes).0
  unfolding generate_ticket
  generate_ticket-IsStore {s} d now_ms expiry_s bytes l h =
      elim (Bool-cases (is_recent fl (now_s fl now_ms) (get Bytes-discrete d s.last_deliveries))) [
        | inl e ↦ rw e h
        | inr e ↦ rw e (
            renew_or_add-IsStore {s = s} d
              (record {
                expires_at_s = fl.add (now_s fl now_ms) (fl.of_u64 expiry_s);
                ticket = bytes;
              })
              _ l h)
      ]

  -- The tables of a store are maps after any history, and hold tickets of 16 bytes.
  pub Reach-IsStore : {s : TicketStore fl} → Reach s → IsStore s
  unfolding empty remember_ticket mark_ticket_delivered clean_expired
  Reach-IsStore start = record {
    outbound-Distinct = tt;
    inbound-Distinct = tt;
    tickets-AreTickets = tt;
  }
  Reach-IsStore (generates d now_ms expiry_s bytes l r) =
      generate_ticket-IsStore d now_ms expiry_s bytes l (Reach-IsStore r)
  Reach-IsStore (remembers {s} d e r) =
      let h = Reach-IsStore r in
      record {
        outbound-Distinct = insert-Distinct Bytes-discrete d e s.outbound h.outbound-Distinct;
        inbound-Distinct = h.inbound-Distinct;
        tickets-AreTickets = h.tickets-AreTickets;
      }
  Reach-IsStore (delivers d now_ms r) =
      let h = Reach-IsStore r in
      record {
        outbound-Distinct = h.outbound-Distinct;
        inbound-Distinct = h.inbound-Distinct;
        tickets-AreTickets = h.tickets-AreTickets;
      }
  Reach-IsStore (cleans {s} now_ms r) =
      let h = Reach-IsStore r in
      record {
        outbound-Distinct = retain-Distinct Bytes-discrete _ s.outbound h.outbound-Distinct;
        inbound-Distinct = clean_each-Distinct fl (now_s fl now_ms) s.inbound h.inbound-Distinct;
        tickets-AreTickets =
            clean_each-AreTickets fl (now_s fl now_ms) s.inbound h.tickets-AreTickets;
      }
