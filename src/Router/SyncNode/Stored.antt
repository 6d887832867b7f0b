-- ===== src/Router/SyncNode/Stored.antt =====
-- What `keep_entry` of the peer sync in lxmf-rs/src/rns/router.rs leaves under an id.
use Prim.Native.String.{String}
use lxmf_rs.Prelude.{
  ite, ◌⊎◌, ℕ, ◌≡◌, refl, ap, ◌∙◌, subst, Bool, true, false, inl, inr, Option, none, some, List, [],
  ◌∷◌, arith, Bytes, Bytes-discrete, Bool-cases, length, retain, retain_kept, retain_dropped,
  saturating_add64,
}
use lxmf_rs.Prelude.HashMap.{get, has, keys, contains, has-insert}
use lxmf_rs.Crypto.{Crypto}
use lxmf_rs.Wire.Errors.{Result, ok, err, RnsError}
use lxmf_rs.Wire.Value.{Float, Msgpack}
use lxmf_rs.Propagation.{PropagationStore, PropagationEntry, has_entry, get_entry, insert_entry}
use lxmf_rs.Propagation.Codec.{propagation_entry_from_bytes}
use lxmf_rs.Router.Tickets.{now_s}
use lxmf_rs.Router.SyncNode.{LxmfRouter}
use lxmf_rs.Router.SyncNode.Stamped.{get_entry-insert_entry}
use lxmf_rs.Router.SyncNode.Payload.{
  Applied, mark_locally_processed, is_seen, check_entry, keep_entry, take_entry, take_decoded,
  take_item, take_items,
}

pub contains-retain :
    (p : Bytes → Bool) (id : Bytes) (l : List Bytes)
    → contains Bytes-discrete id l ≡ true
    → p id ≡ true
    → contains Bytes-discrete id (retain p l) ≡ true
unfolding contains
contains-retain p id [] h t = absurd (ground arith)
contains-retain p id (j ∷ l) h t = elim (Bytes-discrete j id) [
  | yes e ↦
      rw (retain_kept p j l (ap p e ∙ t))
        (subst (λ i. contains Bytes-discrete i (j ∷ retain p l) ≡ true) e (self j (retain p l)))
  | no n ↦ elim (Bool-cases (p j)) [
    | inl q ↦ rw (retain_kept p j l q) (ground (arith, contains-retain p id l))
    | inr q ↦ rw (retain_dropped p j l q) (ground (arith, contains-retain p id l))
  ]
]
  where
    self : (i : Bytes) (k : List Bytes) → contains Bytes-discrete i (i ∷ k) ≡ true
    self i k = ground arith

pub keys-get :
    {V : Type 0} (k : Bytes) (m : List (Bytes × V)) (v : V)
    → get Bytes-discrete k m ≡ some v
    → contains Bytes-discrete k (keys Bytes-discrete m) ≡ true
unfolding contains get
keys-get k [] v h = absurd (ground arith)
keys-get k ((j, w) ∷ m) v h = ground (arith, keys-get k m v)

module _ {fl : Float} (cr : Crypto) (codec : Msgpack fl)
    (entry_filename : Bytes → fl.F64 → ℕ → String) where
  -- The message that stands under an id, if any, and the message that is to stand there if none does.
  abbrev pub Stands : LxmfRouter fl → Bytes → PropagationEntry fl → Type 0
  Stands r id e = get_entry r.propagation_store id ≡ some e

  Stands-is_seen :
      (r : LxmfRouter fl) (id : Bytes) (e : PropagationEntry fl)
      → Stands r id e
      → is_seen r id ≡ true
  unfolding is_seen has_entry get_entry has
  Stands-is_seen r id e h = ground arith

  -- A message that stands stays, whatever comes.
  keep_entry-Stands :
      (r : LxmfRouter fl) (x : PropagationEntry fl) (now_ms : ℕ) (id : Bytes)
      (e : PropagationEntry fl)
      → Stands r id e
      → Stands (keep_entry cr codec entry_filename r x now_ms) id e
  unfolding keep_entry mark_locally_processed
  keep_entry-Stands r x now_ms id e h = elim (Bool-cases (is_seen r x.transient_id)) [
    | inl q ↦ rw q h
    | inr q ↦
        rw (q, get_entry-insert_entry cr codec entry_filename r.propagation_store x id)
          (elim (Bytes-discrete x.transient_id id)
            as (λ d. ite d (some x) (get_entry r.propagation_store id) ≡ some e) [
              | yes p ↦ absurd (cc (Stands-is_seen r id e h, q, ap (is_seen r) p))
              | no n ↦ h
            ])
  ]

  take_decoded-Stands :
      (cost : Option ℕ) (a : Applied fl) (d : Result RnsError (PropagationEntry fl)) (now_ms : ℕ)
      (id : Bytes) (e : PropagationEntry fl)
      → Stands a.router id e
      → Stands (take_decoded cr codec entry_filename cost a d now_ms).router id e
  unfolding take_decoded take_entry
  take_decoded-Stands cost a (ok x) now_ms id e h = checked (check_entry cr codec cost x)
    where
      checked :
          (o : Option (PropagationEntry fl))
          → Stands (take_entry cr codec entry_filename a o now_ms).router id e
      checked none = h
      checked (some y) = keep_entry-Stands a.router y now_ms id e h
  take_decoded-Stands cost a (err x) now_ms id e h = h

  pub take_items-Stands :
      (cost : Option ℕ) (items : List Bytes) (now_ms : ℕ) (a : Applied fl) (id : Bytes)
      (e : PropagationEntry fl)
      → Stands a.router id e
      → Stands (take_items cr codec entry_filename cost items now_ms a).router id e
  unfolding take_items take_item
  take_items-Stands cost [] now_ms a id e h = h
  take_items-Stands cost (item ∷ items) now_ms a id e h =
      take_items-Stands cost items now_ms (take_item cr codec entry_filename cost a item now_ms) id
        e
        (take_decoded-Stands cost
          (record a { received_bytes = saturating_add64 a.received_bytes (length item) })
          (propagation_entry_from_bytes codec item) now_ms id e h)

  -- The message stands, or nothing is known of its id.
  abbrev pub Pending : LxmfRouter fl → Bytes → PropagationEntry fl → Type 0
  Pending r id e = Stands r id e ⊎ (is_seen r id ≡ false)

  pub keep_entry_new :
      (r : LxmfRouter fl) (e : PropagationEntry fl) (now_ms : ℕ)
      → Pending r e.transient_id e
      → Stands (keep_entry cr codec entry_filename r e now_ms) e.transient_id e
  unfolding keep_entry mark_locally_processed
  keep_entry_new r e now_ms (inl h) = keep_entry-Stands r e now_ms e.transient_id e h
  keep_entry_new r e now_ms (inr q) =
      rw (q, get_entry-insert_entry cr codec entry_filename r.propagation_store e e.transient_id)
        (elim (Bytes-discrete e.transient_id e.transient_id)
          as (λ d. ite d (some e) (get_entry r.propagation_store e.transient_id) ≡ some e) [
            | yes p ↦ refl
            | no n ↦ absurd (n refl)
          ])

  has_entry-insert_entry :
      (s : PropagationStore fl) (e : PropagationEntry fl) (id : Bytes)
      → has_entry (insert_entry cr codec entry_filename s e) id
        ≡ ite (Bytes-discrete e.transient_id id) true (has_entry s id)
  unfolding has_entry has get_entry
  has_entry-insert_entry s e id = elim (Bytes-discrete e.transient_id id) [
    | yes p ↦ ground (arith, get_entry-insert_entry cr codec entry_filename s e id)
    | no n ↦ ground (arith, get_entry-insert_entry cr codec entry_filename s e id)
  ]

  -- Another message tells nothing of the id.
  keep_entry_other :
      (r : LxmfRouter fl) (x : PropagationEntry fl) (now_ms : ℕ) (id : Bytes)
      → ¬ (x.transient_id ≡ id)
      → is_seen r id ≡ false
      → is_seen (keep_entry cr codec entry_filename r x now_ms) id ≡ false
  unfolding keep_entry mark_locally_processed is_seen
  keep_entry_other r x now_ms id n f = elim (Bool-cases (is_seen r x.transient_id)) [
    | inl q ↦ rw q f
    | inr q ↦ rw q (
        ground (
          arith,
          has_entry-insert_entry r.propagation_store x id,
          has-insert Bytes-discrete x.transient_id id (now_s fl now_ms) r.locally_processed,
        ))
  ]

  pub keep_entry-Pending :
      (r : LxmfRouter fl) (x : PropagationEntry fl) (now_ms : ℕ) (id : Bytes)
      (e : PropagationEntry fl)
      → ¬ (x.transient_id ≡ id)
      → Pending r id e
      → Pending (keep_entry cr codec entry_filename r x now_ms) id e
  keep_entry-Pending r x now_ms id e n (inl h) = inl (keep_entry-Stands r x now_ms id e h)
  keep_entry-Pending r x now_ms id e n (inr f) = inr (keep_entry_other r x now_ms id n f)
