-- ===== src/Router/SyncNode/Payload.antt =====
-- What `LxmfRouter` of lxmf-rs/src/rns/router.rs does with messages that a peer sends, and with its
-- acknowledgement of messages sent.
use Prim.Native.String.{String}
use lxmf_rs.Prelude.{
  ℕ, ◌-◌, Bool, true, false, ◌||◌, Option, none, some, List, [], ◌∷◌, ◌++◌, Bytes, Bytes-discrete,
  length, is_empty, ◌==◌, if◌then◌else◌, saturating_add64,
}
use lxmf_rs.Prelude.HashMap.{has, insert}
use lxmf_rs.Crypto.{Crypto}
use lxmf_rs.Stamp.{validate_pn_stamp}
use lxmf_rs.Wire.Errors.{Result, ok, err, RnsError}
use lxmf_rs.Wire.Value.{Float, Msgpack}
use lxmf_rs.Sync.{
  PeerSyncRequest, PeerSyncResponse, offer, message_get_list, message_get, message_ack, error, bool,
  id_list, payload,
}
use lxmf_rs.Peer.{Peer, PeerState, on_payload_complete, throttle}
use lxmf_rs.Peer.Table.{get_peer}
use lxmf_rs.Propagation.{PropagationStore, PropagationEntry, has_entry, remove_entry, insert_entry}
use lxmf_rs.Propagation.Codec.{propagation_entry_from_bytes}
use lxmf_rs.Router.Tickets.{now_s}
use lxmf_rs.Router.SyncNode.{
  LxmfRouter, PropagationValidation, with_peer, with_known_peer,
  propagation_invalid_stamp_throttle_ms,
}

-- The variables of the loop of `apply_peer_sync_payload`.
pub record Applied (fl : Float) : Type 0 where
  pub router : LxmfRouter fl
  pub delivered : List Bytes
  pub invalid_count : ℕ
  pub received_bytes : ℕ

unfoldable pub min_stamp_cost : Option PropagationValidation → Option ℕ
min_stamp_cost none = none
min_stamp_cost (some cfg) = some (cfg.stamp_cost - cfg.stamp_cost_flex)

-- The items of a response: `if let PeerSyncResponse::Payload(items) = response`.
unfoldable pub items_of : PeerSyncResponse → List Bytes
items_of (payload items) = items
items_of (error code) = []
items_of (bool b) = []
items_of (id_list ids) = []

module _ {fl : Float} where
  unfoldable pub mark_locally_processed : LxmfRouter fl → Bytes → ℕ → LxmfRouter fl
  unfolding now_s
  mark_locally_processed r transient_id now_ms = record r {
    locally_processed = insert Bytes-discrete transient_id (now_s fl now_ms) r.locally_processed;
  }

  -- `seen`.
  unfoldable pub is_seen : LxmfRouter fl → Bytes → Bool
  unfolding has_entry
  is_seen r transient_id =
      has_entry r.propagation_store transient_id
      || has Bytes-discrete transient_id r.locally_processed

module _ {fl : Float} (cr : Crypto) (codec : Msgpack fl) where
  -- The entry with the id and the message that its stamp is valid for.
  unfoldable pub check_entry : Option ℕ → PropagationEntry fl → Option (PropagationEntry fl)
  unfolding validate_pn_stamp
  check_entry none e = some e
  check_entry (some cost) e = elim (validate_pn_stamp cr codec e.lxm_data cost) [
    | none ↦ none
    | some found ↦ some (record e { transient_id = found.0; lxm_data = found.1 ++ found.3 })
  ]

module _ {fl : Float} (cr : Crypto) (codec : Msgpack fl)
    (entry_filename : Bytes → fl.F64 → ℕ → String) where
  unfoldable pub keep_entry : LxmfRouter fl → PropagationEntry fl → ℕ → LxmfRouter fl
  unfolding is_seen mark_locally_processed insert_entry
  keep_entry r e now_ms =
      if is_seen r e.transient_id
      then r
      else mark_locally_processed
          (record r {
            propagation_store = insert_entry cr codec entry_filename r.propagation_store e;
          })
          e.transient_id now_ms

  unfoldable pub take_entry : Applied fl → Option (PropagationEntry fl) → ℕ → Applied fl
  unfolding keep_entry
  take_entry a none now_ms = record a { invalid_count = saturating_add64 a.invalid_count 1 }
  take_entry a (some e) now_ms = record a {
    router = keep_entry a.router e now_ms;
    delivered = a.delivered ++ e.transient_id ∷ [];
  }

  unfoldable pub take_decoded :
      Option ℕ → Applied fl → Result RnsError (PropagationEntry fl) → ℕ → Applied fl
  unfolding check_entry take_entry
  take_decoded cost a (ok e) now_ms = take_entry a (check_entry cr codec cost e) now_ms
  take_decoded cost a (err x) now_ms = a

  unfoldable pub take_item : Option ℕ → Applied fl → Bytes → ℕ → Applied fl
  unfolding take_decoded propagation_entry_from_bytes
  take_item cost a item now_ms =
      take_decoded cost
        (record a { received_bytes = saturating_add64 a.received_bytes (length item) })
        (propagation_entry_from_bytes codec item) now_ms

  unfoldable pub take_items : Option ℕ → List Bytes → ℕ → Applied fl → Applied fl
  unfolding take_item
  take_items cost [] now_ms a = a
  take_items cost (item ∷ items) now_ms a =
      take_items cost items now_ms (take_item cost a item now_ms)

  -- The changes to the peer, in order.
  unfoldable pub settle_peer : Applied fl → ℕ → Peer fl.F64 → Peer fl.F64
  unfolding throttle on_payload_complete
  settle_peer a now_ms p =
      let counted = record p {
        messages_incoming = saturating_add64 p.messages_incoming (length a.delivered);
        messages_unhandled = a.invalid_count;
        rx_bytes = saturating_add64 p.rx_bytes a.received_bytes;
      } in
      if a.invalid_count == 0
      then on_payload_complete counted now_ms
      else throttle counted now_ms propagation_invalid_stamp_throttle_ms

  unfoldable pub finish_payload :
      Applied fl → Bytes → ℕ → LxmfRouter fl × Option (PeerSyncRequest fl.F64)
  unfolding with_peer settle_peer
  finish_payload a peer_id now_ms = (
    with_peer a.router peer_id now_ms (settle_peer a now_ms),
    if is_empty a.delivered then none else some (message_ack a.delivered),
  )

  unfoldable pub apply_peer_sync_payload :
      LxmfRouter fl → Bytes → PeerSyncResponse → ℕ → LxmfRouter fl × Option (PeerSyncRequest fl.F64)
  unfolding min_stamp_cost items_of take_items finish_payload
  apply_peer_sync_payload r peer_id response now_ms =
      finish_payload
        (take_items (min_stamp_cost r.propagation_validation) (items_of response) now_ms
          (record { router = r; delivered = []; invalid_count = 0; received_bytes = 0 }))
        peer_id now_ms

module _ {fl : Float} where
  unfoldable pub remove_each : PropagationStore fl → List Bytes → PropagationStore fl
  unfolding remove_entry
  remove_each s [] = s
  remove_each s (id ∷ ids) = remove_each (remove_entry s id).0 ids

  unfoldable pub handle_peer_sync_ack :
      LxmfRouter fl → Bytes → PeerSyncRequest fl.F64 → ℕ → LxmfRouter fl × PeerSyncResponse
  unfolding remove_each with_peer on_payload_complete
  handle_peer_sync_ack r peer_id (message_ack delivered) now_ms = (
    with_peer (record r { propagation_store = remove_each r.propagation_store delivered }) peer_id
        now_ms (λ p. on_payload_complete p now_ms),
    bool true,
  )
  handle_peer_sync_ack r peer_id (offer peering_key available) now_ms = (r, error 0x01)
  handle_peer_sync_ack r peer_id message_get_list now_ms = (r, error 0x01)
  handle_peer_sync_ack r peer_id (message_get wants haves limit) now_ms = (r, error 0x01)

  -- `next_sync_ms` and the state of a peer that is known, and whether it is.
  unfoldable pub request_peer_sync : LxmfRouter fl → Bytes → ℕ → LxmfRouter fl × Bool
  unfolding with_known_peer get_peer
  request_peer_sync r peer_id now_ms = (
    with_known_peer r peer_id (λ p. record p { next_sync_ms = now_ms; state = PeerState.idle }),
    elim (get_peer r.peers peer_id) [ none ↦ false | some _ ↦ true ],
  )
