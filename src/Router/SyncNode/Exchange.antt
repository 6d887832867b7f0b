-- ===== src/Router/SyncNode/Exchange.antt =====
-- One exchange of the peer sync protocol between two nodes, by the handlers of `LxmfRouter` in
-- lxmf-rs/src/rns/router.rs: an offer, the request for what is wanted, and the messages sent.
use Prim.Native.String.{String}
use lxmf_rs.Prelude.{
  ◌∙◌, ℕ, ◌≡◌, refl, sym, ap, subst, true, false, not, inl, inr, Option, none, some, List, [], ◌∷◌,
  arith, Bytes, Bytes-discrete, Option-cases, is_empty, if◌then◌else◌,
}
use lxmf_rs.Prelude.HashMap.{has, contains}
use lxmf_rs.Crypto.{Crypto}
use lxmf_rs.Wire.Value.{Float, Msgpack}
use lxmf_rs.Sync.{PeerSyncRequest, offer, bool, id_list, payload}
use lxmf_rs.Propagation.{PropagationStore, PropagationEntry, has_entry, get_entry}
use lxmf_rs.Propagation.Codec.{completed}
use lxmf_rs.Router.SyncNode.{
  LxmfRouter, with_peer, list_ids, wanted, accept_offer, accepts_key, handle_peer_sync_offer,
  wants_of, get_wanted, peer_sync_message_get, collect_items, limit_bytes, serve_items,
  handle_peer_sync_message_get,
}
use lxmf_rs.Router.SyncNode.Payload.{
  Applied, min_stamp_cost, is_seen, take_items, items_of, finish_payload, apply_peer_sync_payload,
}
use lxmf_rs.Router.SyncNode.Stored.{contains-retain, keys-get, take_items-Stands}
use lxmf_rs.Router.SyncNode.Taken.{AreWhole, collect_items-Stands}

module _ {fl : Float} (cr : Crypto) (codec : Msgpack fl)
    (entry_filename : Bytes → fl.F64 → ℕ → String) where
  -- The node `a` answers the request of the node `b`, if `b` has one.
  abbrev pub answered :
      LxmfRouter fl
      → Bytes
      → Bytes
      → ℕ
      → LxmfRouter fl × Option (PeerSyncRequest fl.F64)
      → LxmfRouter fl
  answered a id_a id_b now_ms (b, none) = b
  answered a id_a id_b now_ms (b, some request) =
      (apply_peer_sync_payload cr codec entry_filename b id_a
        (handle_peer_sync_message_get cr codec a id_b request).1 now_ms).0

  -- The node `b` after an offer of all that the node `a` has.
  abbrev pub exchange : LxmfRouter fl → LxmfRouter fl → Bytes → Bytes → Bytes → ℕ → LxmfRouter fl
  exchange a b id_a id_b peering_key now_ms =
      let offered =
        handle_peer_sync_offer cr codec b id_a (offer peering_key (list_ids a.propagation_store))
          now_ms in
      answered a id_a id_b now_ms
        (peer_sync_message_get cr codec offered.0 id_a offered.1 none now_ms)

  wants_of-accept_offer :
      (s : PropagationStore fl) (wants : List Bytes)
      → wants_of cr codec s (if is_empty wants then bool false else id_list wants) ≡ wants
  unfolding wants_of
  wants_of-accept_offer s [] = refl
  wants_of-accept_offer s (w ∷ ws) = refl

  -- What the node has under an id after a response: what it had, or else what came.
  abbrev pub first_copy : Option (PropagationEntry fl) → PropagationEntry fl → PropagationEntry fl
  first_copy none e = e
  first_copy (some old) e = old

  payload_stored :
      (s : PropagationStore fl) (r : LxmfRouter fl) (ids : List Bytes) (peer_id : Bytes)
      (now_ms : ℕ) (id : Bytes) (e : PropagationEntry fl)
      → AreWhole cr codec entry_filename s
      → r.propagation_validation ≡ none
      → get_entry s id ≡ some e
      → contains Bytes-discrete id ids ≡ true
      → is_seen r id ≡ false
      → get_entry
          (apply_peer_sync_payload cr codec entry_filename r peer_id
            (payload (collect_items cr codec s none ids 0).0)
            now_ms).0.propagation_store
          id
        ≡ some (completed codec e)
  unfolding apply_peer_sync_payload finish_payload with_peer min_stamp_cost items_of
  payload_stored s r ids peer_id now_ms id e w v g c f =
      let items = (collect_items cr codec s none ids 0).0 in
      let start : Applied fl = record {
        router = r;
        delivered = [];
        invalid_count = 0;
        received_bytes = 0;
      } in
      subst
        (λ o.
          get_entry
            (take_items cr codec entry_filename (min_stamp_cost o) items now_ms
              start).router.propagation_store
            id
          ≡ some (completed codec e))
        (sym v)
        (collect_items-Stands cr codec entry_filename s now_ms id e w g ids start 0 c (inr f))

  answered_stored :
      (a b : LxmfRouter fl) (id_a id_b : Bytes) (wants : List Bytes) (now_ms : ℕ) (id : Bytes)
      (e : PropagationEntry fl)
      → AreWhole cr codec entry_filename a.propagation_store
      → b.propagation_validation ≡ none
      → get_entry a.propagation_store id ≡ some e
      → contains Bytes-discrete id wants ≡ true
      → is_seen b id ≡ false
      → get_entry
          (answered a id_a id_b now_ms
            (get_wanted cr codec b id_a wants none now_ms)).propagation_store
          id
        ≡ some (completed codec e)
  unfolding get_wanted handle_peer_sync_message_get serve_items limit_bytes contains is_seen
      with_peer
  answered_stored a b id_a id_b [] now_ms id e w v g c f = absurd (ground arith)
  answered_stored a b id_a id_b (x ∷ xs) now_ms id e w v g c f =
      payload_stored a.propagation_store (get_wanted cr codec b id_a (x ∷ xs) none now_ms).0
        (x ∷ xs) id_a now_ms id e w v g c f

  answered_kept :
      (a b : LxmfRouter fl) (id_a id_b : Bytes) (wants : List Bytes) (now_ms : ℕ) (id : Bytes)
      (e : PropagationEntry fl)
      → get_entry b.propagation_store id ≡ some e
      → get_entry
          (answered a id_a id_b now_ms
            (get_wanted cr codec b id_a wants none now_ms)).propagation_store
          id
        ≡ some e
  unfolding get_wanted handle_peer_sync_message_get serve_items limit_bytes items_of
      apply_peer_sync_payload finish_payload with_peer
  answered_kept a b id_a id_b [] now_ms id e h = h
  answered_kept a b id_a id_b (x ∷ xs) now_ms id e h =
      take_items-Stands cr codec entry_filename (min_stamp_cost b.propagation_validation)
        (collect_items cr codec a.propagation_store none (x ∷ xs) 0).0 now_ms
        (record {
          router = (get_wanted cr codec b id_a (x ∷ xs) none now_ms).0;
          delivered = [];
          invalid_count = 0;
          received_bytes = 0;
        })
        id e h

  lacks :
      (s : PropagationStore fl) (id : Bytes) → get_entry s id ≡ none → not (has_entry s id) ≡ true
  unfolding has_entry get_entry has
  lacks s id n = ground arith

  unseen_with :
      (b : LxmfRouter fl) (id : Bytes)
      → get_entry b.propagation_store id ≡ none
      → has Bytes-discrete id b.locally_processed ≡ false
      → is_seen b id ≡ false
  unfolding is_seen has_entry get_entry has
  unseen_with b id n l = ground arith

  -- After an offer of the ids of all that the node `a` has, the node `b` asks for what it lacks and
  -- takes what it gets: under every id of `a` its store holds the message that it held before, or else
  -- the message of `a`, as it comes over the wire. This is so if `b` has not had the message before
  -- and given it away, accepts the peering key of `a` and asks no stamp of a message, and if every
  -- message of `a` can go over the wire and stands under its id.
  pub get_entry-exchange :
      (a b : LxmfRouter fl) (id_a id_b peering_key : Bytes) (now_ms : ℕ) (id : Bytes)
      (e : PropagationEntry fl)
      → AreWhole cr codec entry_filename a.propagation_store
      → accepts_key cr codec b.peering_validation id_a peering_key ≡ true
      → b.propagation_validation ≡ none
      → (get_entry b.propagation_store id ≡ none
          → has Bytes-discrete id b.locally_processed ≡ false)
      → get_entry a.propagation_store id ≡ some e
      → get_entry (exchange a b id_a id_b peering_key now_ms).propagation_store id
        ≡ some (first_copy (get_entry b.propagation_store id) (completed codec e))
  unfolding handle_peer_sync_offer accept_offer peer_sync_message_get wanted with_peer list_ids
      is_seen get_entry
  get_entry-exchange a b id_a id_b peering_key now_ms id e w k v l g =
      let ids = list_ids a.propagation_store in
      let wants = wanted b.propagation_store ids in
      let b' = (accept_offer b id_a wants now_ms).0 in
      let known = keys-get id a.propagation_store.entries e g in
      rw (k, wants_of-accept_offer b.propagation_store wants)
        (elim (Option-cases (get_entry b.propagation_store id)) [
          | inl n ↦
              answered_stored a b' id_a id_b wants now_ms id e w v g
                (contains-retain (λ i. not (has_entry b.propagation_store i)) id ids known
                  (lacks b.propagation_store id n))
                (unseen_with b id n (l n))
              ∙ ap (λ o. some (first_copy o (completed codec e))) (sym n)
          | inr (old, n) ↦
              answered_kept a b' id_a id_b wants now_ms id old n
              ∙ ap (λ o. some (first_copy o (completed codec e))) (sym n)
        ])
