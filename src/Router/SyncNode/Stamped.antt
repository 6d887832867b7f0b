-- ===== src/Router/SyncNode/Stamped.antt =====
-- What a propagation node that asks for stamps takes from a peer, by `apply_peer_sync_payload` of
-- lxmf-rs/src/rns/router.rs.
use Prim.Native.String.{String}
use lxmf_rs.Prelude.{
  ℕ, ◌-◌, ◌≡◌, refl, sym, ◌∙◌, subst, false, ◌⊎◌, inl, inr, Option, none, some, List, [], ◌∷◌, ◌++◌,
  arith, Bytes, Bytes-discrete, Bool-cases, Option-cases, ite, length, saturating_add64,
}
use lxmf_rs.Prelude.HashMap.{has, get-insert}
use lxmf_rs.Crypto.{Crypto}
use lxmf_rs.Stamp.{validate_pn_stamp}
use lxmf_rs.Stamp.Search.{IsStamped, validate_pn_stamp-IsStamped}
use lxmf_rs.Wire.Errors.{Result, ok, err, RnsError}
use lxmf_rs.Wire.Value.{Float, Msgpack}
use lxmf_rs.Sync.{PeerSyncResponse}
use lxmf_rs.Propagation.{
  PropagationStore, PropagationEntry, has_entry, get_entry, insert_entry, insert_with_stamp_value,
  insert_with_stamp_value_and_filename,
}
use lxmf_rs.Propagation.Codec.{propagation_entry_from_bytes}
use lxmf_rs.Router.SyncNode.{LxmfRouter, PropagationValidation, with_peer}
use lxmf_rs.Router.SyncNode.Payload.{
  Applied, mark_locally_processed, min_stamp_cost, is_seen, check_entry, keep_entry, take_entry,
  take_decoded, take_item, take_items, items_of, finish_payload, apply_peer_sync_payload,
}

module _ {fl : Float} (cr : Crypto) (codec : Msgpack fl)
    (entry_filename : Bytes → fl.F64 → ℕ → String) where
  -- A message with a stamp that is good for the cost, under the hash of the message.
  abbrev pub IsPaid : ℕ → PropagationEntry fl → Type 0
  IsPaid cost e =
      (r : Bytes × Bytes × ℕ × Bytes) × IsStamped cr codec e.lxm_data cost r
      × (r.0 ≡ e.transient_id)

  -- What stands under an id is what stood there, or a message that is paid for.
  abbrev pub IsKept : ℕ → PropagationStore fl → Bytes → Option (PropagationEntry fl) → Type 0
  IsKept cost s id now =
      (now ≡ get_entry s id)
      ⊎ ((get_entry s id ≡ none)
          × (e : PropagationEntry fl) × (now ≡ some e)
          × (e.transient_id ≡ id)
          × IsPaid cost e)

  check_entry-IsPaid :
      (cost : ℕ) (e e' : PropagationEntry fl)
      → check_entry cr codec (some cost) e ≡ some e'
      → IsPaid cost e'
  unfolding check_entry
  check_entry-IsPaid cost e e' h =
      elim (Option-cases (validate_pn_stamp cr codec e.lxm_data cost)) [
        | inl n ↦ absurd (ground arith)
        | inr (r, n) ↦
            let stamped = validate_pn_stamp-IsStamped cr codec e.lxm_data cost r n in
            let same : record e { transient_id = r.0; lxm_data = r.1 ++ r.3 } ≡ e' = ground arith in
            subst (IsPaid cost) same
              (r, subst (λ d. IsStamped cr codec d cost r) (sym stamped.parts) stamped, refl)
      ]

  pub get_entry-insert_entry :
      (s : PropagationStore fl) (e : PropagationEntry fl) (id : Bytes)
      → get_entry (insert_entry cr codec entry_filename s e) id
        ≡ ite (Bytes-discrete e.transient_id id) (some e) (get_entry s id)
  unfolding get_entry insert_entry insert_with_stamp_value insert_with_stamp_value_and_filename
  get_entry-insert_entry s e id = elim (Option-cases (validate_pn_stamp cr codec e.lxm_data 0)) [
    | inl n ↦ rw (n, insert_entry) (get-insert Bytes-discrete e.transient_id id e s.entries)
    | inr (v, n) ↦ rw (n, insert_entry) (get-insert Bytes-discrete e.transient_id id e s.entries)
  ]

  pub unseen :
      (r : LxmfRouter fl) (id : Bytes)
      → is_seen r id ≡ false
      → get_entry r.propagation_store id ≡ none
  unfolding is_seen has_entry get_entry has
  unseen r id h = ground arith

  was_none :
      (cost : ℕ) (s : PropagationStore fl) (id : Bytes) (now : Option (PropagationEntry fl))
      → IsKept cost s id now
      → now ≡ none
      → get_entry s id ≡ none
  was_none cost s id now (inl same) n = sym same ∙ n
  was_none cost s id now (inr new) n = new.0

  keep_entry-IsKept :
      (cost : ℕ) (s : PropagationStore fl) (id : Bytes) (r : LxmfRouter fl)
      (e : PropagationEntry fl) (now_ms : ℕ)
      → IsPaid cost e
      → IsKept cost s id (get_entry r.propagation_store id)
      → IsKept cost s id
          (get_entry (keep_entry cr codec entry_filename r e now_ms).propagation_store id)
  unfolding keep_entry mark_locally_processed
  keep_entry-IsKept cost s id r e now_ms paid h = elim (Bool-cases (is_seen r e.transient_id)) [
    | inl q ↦ rw q h
    | inr q ↦
        rw (q, get_entry-insert_entry r.propagation_store e id)
          (elim (Bytes-discrete e.transient_id id)
            as (λ d. IsKept cost s id (ite d (some e) (get_entry r.propagation_store id))) [
              | yes p ↦ inr (
                was_none cost s id _ h (
                    subst (λ i. get_entry r.propagation_store i ≡ none) p
                      (unseen r e.transient_id q)),
                e,
                refl,
                p,
                paid,
              )
              | no n ↦ h
            ])
  ]

  abbrev Holds : ℕ → PropagationStore fl → Bytes → Applied fl → Type 0
  Holds cost s id a = IsKept cost s id (get_entry a.router.propagation_store id)

  take_checked-IsKept :
      (cost : ℕ) (s : PropagationStore fl) (id : Bytes) (a : Applied fl) (e : PropagationEntry fl)
      (now_ms : ℕ)
      → Holds cost s id a
      → Holds cost s id
          (take_entry cr codec entry_filename a (check_entry cr codec (some cost) e) now_ms)
  unfolding take_entry
  take_checked-IsKept cost s id a e now_ms h =
      elim (Option-cases (check_entry cr codec (some cost) e)) [
        | inl n ↦ rw n h
        | inr (e', n) ↦
            rw n (keep_entry-IsKept cost s id a.router e' now_ms (check_entry-IsPaid cost e e' n) h)
      ]

  take_decoded-IsKept :
      (cost : ℕ) (s : PropagationStore fl) (id : Bytes) (a : Applied fl)
      (d : Result RnsError (PropagationEntry fl)) (now_ms : ℕ)
      → Holds cost s id a
      → Holds cost s id (take_decoded cr codec entry_filename (some cost) a d now_ms)
  unfolding take_decoded
  take_decoded-IsKept cost s id a (ok e) now_ms h = take_checked-IsKept cost s id a e now_ms h
  take_decoded-IsKept cost s id a (err x) now_ms h = h

  take_items-IsKept :
      (cost : ℕ) (s : PropagationStore fl) (id : Bytes) (items : List Bytes) (now_ms : ℕ)
      (a : Applied fl)
      → Holds cost s id a
      → Holds cost s id (take_items cr codec entry_filename (some cost) items now_ms a)
  unfolding take_items take_item
  take_items-IsKept cost s id [] now_ms a h = h
  take_items-IsKept cost s id (item ∷ items) now_ms a h =
      take_items-IsKept cost s id items now_ms
        (take_item cr codec entry_filename (some cost) a item now_ms)
        (take_decoded-IsKept cost s id
          (record a { received_bytes = saturating_add64 a.received_bytes (length item) })
          (propagation_entry_from_bytes codec item) now_ms h)

  -- A node that asks for stamps takes from a peer, whatever it sends, no message without one: after
  -- apply_peer_sync_payload there stands under an id what stood there before, or, if nothing did, a
  -- message whose hash is the id, followed by a stamp that meets the cost that the node asks, less
  -- its flexibility.
  pub apply_peer_sync_payload-IsKept :
      (r : LxmfRouter fl) (cfg : PropagationValidation) (peer_id : Bytes)
      (response : PeerSyncResponse) (now_ms : ℕ) (id : Bytes)
      → r.propagation_validation ≡ some cfg
      → IsKept (cfg.stamp_cost - cfg.stamp_cost_flex) r.propagation_store id (
          get_entry
            (apply_peer_sync_payload cr codec entry_filename r peer_id response
              now_ms).0.propagation_store
            id)
  unfolding apply_peer_sync_payload finish_payload with_peer min_stamp_cost
  apply_peer_sync_payload-IsKept r cfg peer_id response now_ms id v =
      let cost = cfg.stamp_cost - cfg.stamp_cost_flex in
      let start : Applied fl = record {
        router = r;
        delivered = [];
        invalid_count = 0;
        received_bytes = 0;
      } in
      subst
        (λ o.
          Holds cost r.propagation_store id (
            take_items cr codec entry_filename (min_stamp_cost o) (items_of response) now_ms start))
        (sym v)
        (take_items-IsKept cost r.propagation_store id (items_of response) now_ms start (inl refl))
