-- ===== src/Router/Tickets/Field.antt =====
-- `insert_ticket_field` and `extract_ticket_field` of lxmf-rs/src/rns/router.rs: a ticket travels in the
-- fields of a message.
use lxmf_rs.Prelude.{
  ℕ, ◌≡◌, refl, ap, ◌∙◌, Bool, true, false, not, Option, none, some, List, [], ◌∷◌, ◌++◌, arith,
  inl, inr, Bytes, Bool-cases, Option-cases, length, ◌==◌, if◌then◌else◌, retain, retain_kept,
  retain_dropped, All, is_some,
}
use lxmf_rs.Wire.Value.{
  Value, Float, pos, to_u64, as_i64, value_to_f64, nil, integer, f64, binary, array, dict, of_list,
  to_list, of_pairs, to_pairs, to_pairs-of_pairs,
}
use lxmf_rs.Message.Stamps.{ticket_length}

-- `FIELD_TICKET` of lxmf-rs/src/constants.rs.
abbrev pub field_ticket : ℕ
field_ticket = 0x0c

module _ {fl : Float} where
  -- `Some(FIELD_TICKET as u64)`, as the key of an entry.
  unfoldable pub is_ticket_key : Value fl × Value fl → Bool
  is_ticket_key e = elim (as_i64 e.0) [ none ↦ false | some z ↦ to_u64 z == field_ticket ]

  unfoldable pub entries_of : Value fl → List (Value fl × Value fl)
  entries_of (dict es) = to_pairs es
  entries_of nil = []
  entries_of _ = []

  abbrev pub ticket_entry : fl.F64 → Bytes → Value fl × Value fl
  ticket_entry expires_at_s ticket = (
    integer (pos field_ticket),
    array (of_list {fl = fl} (f64 expires_at_s ∷ (binary ticket ∷ []))),
  )

  unfoldable pub insert_ticket_field : Value fl → fl.F64 → Bytes → Value fl
  unfolding entries_of is_ticket_key
  insert_ticket_field fields expires_at_s ticket = dict (
      of_pairs (
        retain (λ e. not (is_ticket_key e)) (entries_of fields)
        ++ ticket_entry expires_at_s ticket ∷ []))

  unfoldable pub binary_of : Value fl → Option Bytes
  binary_of (binary b) = some b
  binary_of nil = none
  binary_of _ = none

  -- The checks of the two items, in order.
  unfoldable pub ticket_of_items : List (Value fl) → Option (fl.F64 × Bytes)
  unfolding value_to_f64 binary_of
  ticket_of_items (a ∷ (b ∷ rest)) = elim (value_to_f64 a) [
    | none ↦ none
    | some expires_at_s ↦ elim (binary_of b) [
      | none ↦ none
      | some ticket ↦ if length ticket == ticket_length then some (expires_at_s, ticket) else none
    ]
  ]
  ticket_of_items _ = none

  unfoldable pub ticket_of_value : Value fl → Option (fl.F64 × Bytes)
  unfolding ticket_of_items
  ticket_of_value (array vs) = ticket_of_items (to_list vs)
  ticket_of_value nil = none
  ticket_of_value _ = none

  -- A key that is no integer ends the search.
  unfoldable pub extract_from : List (Value fl × Value fl) → Option (fl.F64 × Bytes)
  unfolding ticket_of_value
  extract_from [] = none
  extract_from ((key, val) ∷ es) = elim (as_i64 key) [
    | none ↦ none
    | some z ↦ if to_u64 z == field_ticket then ticket_of_value val else extract_from es
  ]

  unfoldable pub extract_ticket_field : Value fl → Option (fl.F64 × Bytes)
  unfolding extract_from
  extract_ticket_field (dict es) = extract_from (to_pairs es)
  extract_ticket_field nil = none
  extract_ticket_field _ = none

  -- The fields of LXMF have integers for keys.
  abbrev pub HasIntegerKeys : Value fl → Type 0
  unfolding entries_of
  HasIntegerKeys fields = All (λ e. is_some (as_i64 e.0) ≡ true) (entries_of fields)

  abbrev pub others : List (Value fl × Value fl) → List (Value fl × Value fl)
  unfolding is_ticket_key
  others = retain (λ e. not (is_ticket_key e))

  extract_from-others :
      (x : fl.F64) (t : Bytes) (es : List (Value fl × Value fl))
      → length t ≡ ticket_length
      → All (λ e. is_some (as_i64 e.0) ≡ true) es
      → extract_from (others es ++ ticket_entry x t ∷ []) ≡ some (x, t)
  unfolding extract_from is_ticket_key as_i64 ticket_of_value ticket_of_items value_to_f64 binary_of
  extract_from-others x t [] l h = ground arith
  extract_from-others x t ((k, v) ∷ es) l h = elim (Option-cases (as_i64 k)) [
    | inl e ↦ absurd (cc (ap is_some e, h.0))
    | inr (z, e) ↦ elim (Bool-cases (to_u64 z == field_ticket)) [
      | inl q ↦
          rw (retain_dropped (λ y. not (is_ticket_key y)) (k, v) es (rw (e, q, is_ticket_key) refl))
            (extract_from-others x t es l h.1)
      | inr q ↦
          rw (retain_kept (λ y. not (is_ticket_key y)) (k, v) es (rw (e, q, is_ticket_key) refl))
            (rw (e, q, extract_from) (extract_from-others x t es l h.1))
    ]
  ]

  others-append :
      (es : List (Value fl × Value fl)) (x : fl.F64) (t : Bytes)
      → others (others es ++ ticket_entry x t ∷ []) ≡ others es
  unfolding is_ticket_key as_i64
  others-append [] x t = refl
  others-append (e ∷ es) x t = elim (Bool-cases (not (is_ticket_key e))) [
    | inl q ↦ rw (retain_kept (λ y. not (is_ticket_key y)) e es q) (
        retain_kept (λ y. not (is_ticket_key y)) e (others es ++ ticket_entry x t ∷ []) q
        ∙ ap (◌∷◌ e) (others-append es x t))
    | inr q ↦ rw (retain_dropped (λ y. not (is_ticket_key y)) e es q) (others-append es x t)
  ]

  retain-others :
      (es : List (Value fl × Value fl)) (x : fl.F64) (t : Bytes)
      → retain is_ticket_key (others es ++ ticket_entry x t ∷ []) ≡ ticket_entry x t ∷ []
  unfolding is_ticket_key as_i64
  retain-others [] x t = refl
  retain-others (e ∷ es) x t = elim (Bool-cases (is_ticket_key e)) [
    | inl q ↦
        rw (retain_dropped (λ y. not (is_ticket_key y)) e es (ap not q)) (retain-others es x t)
    | inr q ↦ rw (retain_kept (λ y. not (is_ticket_key y)) e es (ap not q)) (
        retain_dropped is_ticket_key e (others es ++ ticket_entry x t ∷ []) q
        ∙ retain-others es x t)
  ]

  -- A ticket of 16 bytes that is put into the fields of a message, be they a map or not, is read from
  -- them, if the keys of the fields are integers of 64 bits; it is the only ticket there, so that an
  -- older one is gone, and every other field stays, in its place.
  pub extract-insert_ticket_field :
      (fields : Value fl) (x : fl.F64) (t : Bytes)
      → length t ≡ ticket_length
      → HasIntegerKeys fields
      → (extract_ticket_field (insert_ticket_field fields x t) ≡ some (x, t))
        × (retain is_ticket_key (entries_of (insert_ticket_field fields x t))
            ≡ ticket_entry x t ∷ [])
        × (others (entries_of (insert_ticket_field fields x t)) ≡ others (entries_of fields))
  unfolding extract_ticket_field insert_ticket_field entries_of
  extract-insert_ticket_field fields x t l h =
      let all = others (entries_of fields) ++ ticket_entry x t ∷ [] in
      (
        ap extract_from (to_pairs-of_pairs all) ∙ extract_from-others x t (entries_of fields) l h,
        ap (retain is_ticket_key) (to_pairs-of_pairs all) ∙ retain-others (entries_of fields) x t,
        ap others (to_pairs-of_pairs all) ∙ others-append (entries_of fields) x t,
      )
