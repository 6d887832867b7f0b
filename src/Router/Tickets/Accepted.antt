-- ===== src/Router/Tickets/Accepted.antt =====
-- `validate_stamp_with_tickets` of lxmf-rs/src/rns/router.rs: a message is good if any of the tickets
-- that its sender may hold makes its stamp, or if the stamp is a proof of work.
use lxmf_rs.Prelude.{
  ℕ, ◌≡◌, refl, ap, ◌∙◌, Bool, true, false, Option, none, some, List, [], ◌∷◌, arith, inl, inr,
  Bytes, Bytes-discrete, Bool-cases, Option-cases, ◌||◌,
}
use lxmf_rs.Prelude.HashMap.{contains}
use lxmf_rs.Crypto.{Crypto}
use lxmf_rs.Stamp.{stamp_workblock, stamp_valid, workblock_expand_rounds}
use lxmf_rs.Wire.Errors.{Result, ok, err, LxmfError}
use lxmf_rs.Wire.Value.{Float, Msgpack}
use lxmf_rs.Message.{LxMessage}
use lxmf_rs.Message.Wire.{message_id_of, pack_payload, payload_values}
use lxmf_rs.Message.Stamps.{
  validate_stamp, validate_given, check_stamp, check_cost, is_ticket_stamp,
}

-- `unwrap_or(false)`.
abbrev pub or_false : Result LxmfError Bool → Bool
or_false (ok b) = b
or_false (err e) = false

-- `if … { return true; }`.
abbrev pub unless_accepted :
    {fl : Float} → LxMessage fl × Bool → (LxMessage fl → LxMessage fl × Bool) → LxMessage fl × Bool
unless_accepted (m, true) rest = (m, true)
unless_accepted (m, false) rest = rest m

abbrev pub or_none : Option (List Bytes) → List Bytes
or_none none = []
or_none (some tickets) = tickets

or_assoc : (a b c : Bool) → (a || (b || c)) ≡ ((a || b) || c)
or_assoc true b c = refl
or_assoc false b c = refl

or_true : (a : Bool) → (a || true) ≡ true
or_true true = refl
or_true false = refl

unless_accepted_lem :
    {fl : Float} (r : LxMessage fl × Bool) (rest : LxMessage fl → LxMessage fl × Bool) (b c : Bool)
    → r.1 ≡ b
    → (rest r.0).1 ≡ c
    → (unless_accepted r rest).1 ≡ (b || c)
unless_accepted_lem (m, true) rest b c e f = rw (← e) refl
unless_accepted_lem (m, false) rest b c e f = rw (← e) f

module _ {fl : Float} (cr : Crypto) (codec : Msgpack fl) where
  unfoldable pub try_stamp : LxMessage fl → ℕ → Option Bytes → LxMessage fl × Bool
  unfolding validate_stamp
  try_stamp m cost ticket =
      let checked = validate_stamp cr codec m (some cost) ticket in (checked.0, or_false checked.1)

  -- The loop over the tickets, and what follows it.
  unfoldable pub try_tickets : ℕ → List Bytes → LxMessage fl → LxMessage fl × Bool
  unfolding try_stamp
  try_tickets cost [] m = try_stamp m cost none
  try_tickets cost (t ∷ ts) m = unless_accepted (try_stamp m cost (some t)) (try_tickets cost ts)

  unfoldable pub validate_stamp_with_tickets :
      LxMessage fl → ℕ → Option (List Bytes) → LxMessage fl × Bool
  unfolding try_tickets
  validate_stamp_with_tickets m cost none = try_tickets cost [] m
  validate_stamp_with_tickets m cost (some tickets) = try_tickets cost tickets m

  -- What `validate_stamp` reads of a message.
  pub record Same (m m' : LxMessage fl) : Type 0 where
    pub stamp-same : m'.stamp ≡ m.stamp
    pub id-same : message_id_of cr codec m' ≡ message_id_of cr codec m

  check_cost-Same :
      (m : LxMessage fl) (id s : Bytes) (cost : Option ℕ)
      → Same m (check_cost cr codec m id s cost).0
  unfolding check_cost message_id_of pack_payload payload_values
  check_cost-Same m id s none = record { stamp-same = refl; id-same = refl }
  check_cost-Same m id s (some cost) =
      elim (Option-cases (stamp_workblock cr codec id workblock_expand_rounds)) [
        | inl e ↦ rw (e, check_cost) (record { stamp-same = refl; id-same = refl })
        | inr (w, e) ↦ elim (Bool-cases (stamp_valid cr w s cost)) [
          | inl v ↦ rw (e, v, check_cost) (record { stamp-same = refl; id-same = refl })
          | inr v ↦ rw (e, v, check_cost) (record { stamp-same = refl; id-same = refl })
        ]
      ]

  check_cost_verdict :
      (m m' : LxMessage fl) (id s : Bytes) (cost : Option ℕ)
      → (check_cost cr codec m' id s cost).1 ≡ (check_cost cr codec m id s cost).1
  unfolding check_cost
  check_cost_verdict m m' id s none = refl
  check_cost_verdict m m' id s (some cost) =
      elim (Option-cases (stamp_workblock cr codec id workblock_expand_rounds)) [
        | inl e ↦ rw (e, check_cost) refl
        | inr (w, e) ↦ elim (Bool-cases (stamp_valid cr w s cost)) [
          | inl v ↦ rw (e, v, check_cost) refl
          | inr v ↦ rw (e, v, check_cost) refl
        ]
      ]

  check_stamp_verdict :
      (m m' : LxMessage fl) (id s : Bytes) (cost : Option ℕ) (ticket : Option Bytes)
      → (check_stamp cr codec m' id s cost ticket).1 ≡ (check_stamp cr codec m id s cost ticket).1
  unfolding check_stamp
  check_stamp_verdict m m' id s cost none = check_cost_verdict m m' id s cost
  check_stamp_verdict m m' id s cost (some t) =
      elim (Bool-cases (is_ticket_stamp cr codec t id s)) [
        | inl e ↦ rw e refl
        | inr e ↦ rw e (check_cost_verdict m m' id s cost)
      ]

  check_stamp-Same :
      (m : LxMessage fl) (id s : Bytes) (cost : Option ℕ) (ticket : Option Bytes)
      → Same m (check_stamp cr codec m id s cost ticket).0
  unfolding check_stamp message_id_of pack_payload payload_values
  check_stamp-Same m id s cost none = check_cost-Same m id s cost
  check_stamp-Same m id s cost (some t) = elim (Bool-cases (is_ticket_stamp cr codec t id s)) [
    | inl e ↦ rw e (record { stamp-same = refl; id-same = refl })
    | inr e ↦ rw e (check_cost-Same m id s cost)
  ]

  validate_given-Same :
      (o : Option Bytes) (m : LxMessage fl) (cost : Option ℕ) (ticket : Option Bytes)
      → Same m (validate_given cr codec o m cost ticket).0
  unfolding validate_given message_id_of pack_payload payload_values
  validate_given-Same none m cost ticket = record { stamp-same = refl; id-same = refl }
  validate_given-Same (some s) m cost ticket =
      let id = message_id_of cr codec m in
      let m1 = record m { stamp_checked = true; message_id = some id } in
      let h = check_stamp-Same m1 id s cost ticket in
      record { stamp-same = h.stamp-same; id-same = h.id-same }

  validate_given_verdict :
      (o : Option Bytes) (m m' : LxMessage fl) (cost : Option ℕ) (ticket : Option Bytes)
      → message_id_of cr codec m' ≡ message_id_of cr codec m
      → (validate_given cr codec o m' cost ticket).1 ≡ (validate_given cr codec o m cost ticket).1
  unfolding validate_given
  validate_given_verdict none m m' cost ticket e = refl
  validate_given_verdict (some s) m m' cost ticket e =
      let id = message_id_of cr codec m in
      let r = record m' { stamp_checked = true; message_id = some (message_id_of cr codec m') } in
      ap (λ i. (check_stamp cr codec r i s cost ticket).1) e
      ∙ check_stamp_verdict (record m { stamp_checked = true; message_id = some id }) r id s cost
          ticket

  -- An earlier check changes no later verdict.
  try_stamp-Same :
      (m m' : LxMessage fl) (cost : ℕ) (ticket : Option Bytes)
      → Same m m'
      → (try_stamp m' cost ticket).1 ≡ (try_stamp m cost ticket).1
  unfolding try_stamp validate_stamp
  try_stamp-Same m m' cost ticket h = ap or_false (
      ap (λ o. (validate_given cr codec o m' (some cost) ticket).1) h.stamp-same
      ∙ validate_given_verdict m.stamp m m' (some cost) ticket h.id-same)

  try_stamp_seen :
      (m m' : LxMessage fl) (cost : ℕ) (ticket : Option Bytes)
      → Same m m'
      → Same m (try_stamp m' cost ticket).0
  unfolding try_stamp validate_stamp
  try_stamp_seen m m' cost ticket h =
      let k = validate_given-Same m'.stamp m' (some cost) ticket in
      record { stamp-same = k.stamp-same ∙ h.stamp-same; id-same = k.id-same ∙ h.id-same }

  -- One of the tickets is accepted for the message as it came.
  unfoldable pub accepts_any : LxMessage fl → ℕ → List Bytes → Bool
  accepts_any m cost [] = false
  accepts_any m cost (t ∷ ts) = (try_stamp m cost (some t)).1 || accepts_any m cost ts

  try_tickets-accepts_any :
      (cost : ℕ) (ts : List Bytes) (m m' : LxMessage fl)
      → Same m m'
      → (try_tickets cost ts m').1 ≡ (accepts_any m cost ts || (try_stamp m cost none).1)
  unfolding try_tickets accepts_any
  try_tickets-accepts_any cost [] m m' h = try_stamp-Same m m' cost none h
  try_tickets-accepts_any cost (t ∷ ts) m m' h =
      unless_accepted_lem (try_stamp m' cost (some t)) (try_tickets cost ts) _ _
        (try_stamp-Same m m' cost (some t) h)
        (try_tickets-accepts_any cost ts m (try_stamp m' cost (some t)).0
          (try_stamp_seen m m' cost (some t) h))
      ∙ or_assoc ((try_stamp m cost (some t)).1) (accepts_any m cost ts) ((try_stamp m cost none).1)

  -- The order of the tickets and the checks before do not matter: the message is good exactly when one
  -- of the tickets, or none, is accepted for the message as it came.
  pub validate_stamp_with_tickets-accepts_any :
      (m : LxMessage fl) (cost : ℕ) (tickets : Option (List Bytes))
      → (validate_stamp_with_tickets m cost tickets).1
        ≡ (accepts_any m cost (or_none tickets) || (try_stamp m cost none).1)
  unfolding validate_stamp_with_tickets accepts_any
  validate_stamp_with_tickets-accepts_any m cost none = refl
  validate_stamp_with_tickets-accepts_any m cost (some tickets) =
      try_tickets-accepts_any cost tickets m m (record { stamp-same = refl; id-same = refl })

  pub accepts_any-contains :
      (m : LxMessage fl) (cost : ℕ) (t : Bytes) (ts : List Bytes)
      → contains Bytes-discrete t ts ≡ true
      → (try_stamp m cost (some t)).1 ≡ true
      → accepts_any m cost ts ≡ true
  unfolding accepts_any contains
  accepts_any-contains m cost t [] h a = absurd (ground arith)
  accepts_any-contains m cost t (u ∷ ts) h a = elim (Bytes-discrete u t) [
    | yes e ↦ rw (e, a) refl
    | no n ↦ rw (accepts_any-contains m cost t ts (ground arith) a) (or_true _)
  ]
