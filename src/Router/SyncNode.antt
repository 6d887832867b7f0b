-- ===== src/Router/SyncNode.antt =====
-- The handlers of the peer sync protocol of `LxmfRouter` in lxmf-rs/src/rns/router.rs, as steps over
-- the fields of the router that they touch. What they write to files is left out.
pub mod Payload
pub mod Stored
pub mod Taken
pub mod Exchange
pub mod Stamped
use Prim.Native.String.{String}
use lxmf_rs.Prelude.{
  ℕ, ◌+◌, ◌-◌, ◌*◌, Bool, true, false, not, ◌||◌, Option, none, some, List, [], ◌∷◌, ◌++◌, Bytes,
  Bytes-discrete, length, is_empty, ltb, if◌then◌else◌, retain, saturating_add64,
}
use lxmf_rs.Prelude.HashMap.{has, insert, keys}
use lxmf_rs.Crypto.{Crypto}
use lxmf_rs.Stamp.{validate_peering_key, validate_pn_stamp}
use lxmf_rs.Wire.Errors.{Result, ok, err, RnsError}
use lxmf_rs.Wire.Value.{Float, Msgpack}
use lxmf_rs.Sync.{
  PeerSyncRequest, PeerSyncResponse, offer, message_get_list, message_get, message_ack, error, bool,
  id_list, payload,
}
use lxmf_rs.Peer.{
  Peer, PeerState, idle, awaiting_payload, on_failure, on_payload_complete, on_offer_response,
  throttle,
}
use lxmf_rs.Peer.Table.{PeerTable, upsert, set_peer, get_peer}
use lxmf_rs.Propagation.{
  PropagationStore, PropagationEntry, has_entry, get_entry, remove_entry, insert_entry,
}
use lxmf_rs.Propagation.Codec.{propagation_entry_to_bytes, propagation_entry_from_bytes}
use lxmf_rs.Router.Tickets.{now_s}

-- The constants of lxmf-rs/src/rns/peer.rs.
abbrev pub peer_error_invalid_key : ℕ
peer_error_invalid_key = 0xf3

abbrev pub propagation_invalid_stamp_throttle_ms : ℕ
propagation_invalid_stamp_throttle_ms = 180_000

pub record PeeringValidation : Type 0 where
  pub local_identity_hash : Bytes
  pub target_cost : ℕ

pub record PropagationValidation : Type 0 where
  pub stamp_cost : ℕ
  pub stamp_cost_flex : ℕ

pub record LxmfRouter (fl : Float) : Type 0 where
  pub peers : PeerTable fl.F64
  pub propagation_store : PropagationStore fl
  pub client_propagation_messages_served : ℕ
  pub peering_validation : Option PeeringValidation
  pub propagation_validation : Option PropagationValidation
  pub locally_processed : List (Bytes × fl.F64)

module _ {fl : Float} where
  -- `let peer = self.peers.upsert(…)` and what is then done to the peer.
  unfoldable pub with_peer : LxmfRouter fl → Bytes → ℕ → (Peer fl.F64 → Peer fl.F64) → LxmfRouter fl
  unfolding upsert set_peer
  with_peer r peer_id now_ms change =
      let lent = upsert fl.zero_f64 r.peers peer_id now_ms in
      record r { peers = set_peer lent.0 (change lent.1) }

  -- The same for a peer that is known: `if let Some(peer) = self.peers.get_mut(…)`.
  unfoldable pub with_known_peer :
      LxmfRouter fl → Bytes → (Peer fl.F64 → Peer fl.F64) → LxmfRouter fl
  unfolding get_peer set_peer
  with_known_peer r peer_id change = elim (get_peer r.peers peer_id) [
    | none ↦ r
    | some p ↦ record r { peers = set_peer r.peers (change p) }
  ]

  -- `PropagationStore::list_ids`.
  unfoldable pub list_ids : PropagationStore fl → List Bytes
  list_ids s = keys Bytes-discrete s.entries

  unfoldable pub wanted : PropagationStore fl → List Bytes → List Bytes
  unfolding has_entry
  wanted s available = retain (λ id. not (has_entry s id)) available

  unfoldable pub accept_offer :
      LxmfRouter fl → Bytes → List Bytes → ℕ → LxmfRouter fl × PeerSyncResponse
  unfolding with_peer
  accept_offer r peer_id wants now_ms = (
    with_peer r peer_id now_ms (λ p. record p {
      last_attempt_ms = now_ms;
      state = if is_empty wants then idle else awaiting_payload;
    }),
    if is_empty wants then bool false else id_list wants,
  )

module _ {fl : Float} (cr : Crypto) (codec : Msgpack fl) where
  unfoldable pub accepts_key : Option PeeringValidation → Bytes → Bytes → Bool
  unfolding validate_peering_key
  accepts_key none peer_id peering_key = true
  accepts_key (some v) peer_id peering_key =
      validate_peering_key cr codec (v.local_identity_hash ++ peer_id) peering_key v.target_cost

  unfoldable pub handle_peer_sync_offer :
      LxmfRouter fl → Bytes → PeerSyncRequest fl.F64 → ℕ → LxmfRouter fl × PeerSyncResponse
  unfolding wanted accepts_key accept_offer with_peer on_failure
  handle_peer_sync_offer r peer_id (offer peering_key available) now_ms =
      if accepts_key r.peering_validation peer_id peering_key
      then accept_offer r peer_id (wanted r.propagation_store available) now_ms
      else (with_peer r peer_id now_ms (λ p. on_failure p now_ms), error peer_error_invalid_key)
  handle_peer_sync_offer r peer_id message_get_list now_ms = (r, error 0x01)
  handle_peer_sync_offer r peer_id (message_get wants haves limit) now_ms = (r, error 0x01)
  handle_peer_sync_offer r peer_id (message_ack delivered) now_ms = (r, error 0x01)

  -- What a response asks for.
  unfoldable pub wants_of : PropagationStore fl → PeerSyncResponse → List Bytes
  unfolding list_ids
  wants_of s (id_list ids) = ids
  wants_of s (bool true) = list_ids s
  wants_of s (bool false) = []
  wants_of s (payload items) = []
  wants_of s (error code) = []

  unfoldable pub get_wanted :
      LxmfRouter fl
      → Bytes
      → List Bytes
      → Option fl.F64
      → ℕ
      → LxmfRouter fl × Option (PeerSyncRequest fl.F64)
  unfolding with_peer list_ids
  get_wanted r peer_id wants transfer_limit_kb now_ms = if is_empty wants then (r, none) else (
    with_peer r peer_id now_ms
        (λ p. record p { last_attempt_ms = now_ms; state = awaiting_payload }),
    some (message_get wants (list_ids r.propagation_store) transfer_limit_kb),
  )

  unfoldable pub peer_sync_message_get :
      LxmfRouter fl
      → Bytes
      → PeerSyncResponse
      → Option fl.F64
      → ℕ
      → LxmfRouter fl × Option (PeerSyncRequest fl.F64)
  unfolding wants_of get_wanted
  peer_sync_message_get r peer_id response transfer_limit_kb now_ms =
      get_wanted r peer_id (wants_of r.propagation_store response) transfer_limit_kb now_ms

  -- `total_bytes.saturating_add(bytes.len()) > limit`.
  unfoldable pub exceeds : Option ℕ → ℕ → ℕ → Bool
  exceeds none total size = false
  exceeds (some limit) total size = ltb limit (saturating_add64 total size)

  -- One turn of the loop, with the turns after it.
  unfoldable pub add_item :
      Option ℕ → Option (PropagationEntry fl) → ℕ → (ℕ → List Bytes × ℕ) → List Bytes × ℕ
  unfolding exceeds propagation_entry_to_bytes
  add_item limit none total rest = rest total
  add_item limit (some e) total rest =
      let bytes = propagation_entry_to_bytes codec e in
      let after = rest (saturating_add64 total (length bytes)) in
      if exceeds limit total (length bytes) then rest total else (bytes ∷ after.0, after.1)

  unfoldable pub collect_items : PropagationStore fl → Option ℕ → List Bytes → ℕ → List Bytes × ℕ
  unfolding add_item get_entry
  collect_items s limit [] total = ([], total)
  collect_items s limit (id ∷ ids) total =
      add_item limit (get_entry s id) total (collect_items s limit ids)

  -- `(kb * 1000.0) as usize`: the cast makes 0 of what is negative.
  unfoldable pub limit_bytes : Option fl.F64 → Option ℕ
  limit_bytes none = none
  limit_bytes (some kb) = some (fl.millis kb)

  unfoldable pub serve_items :
      LxmfRouter fl → Bytes → List Bytes × ℕ → LxmfRouter fl × PeerSyncResponse
  unfolding with_known_peer
  serve_items r peer_id (items, total_bytes) =
      let r' = with_known_peer r peer_id (λ p. record p {
        messages_outgoing = saturating_add64 p.messages_outgoing (length items);
        tx_bytes = saturating_add64 p.tx_bytes total_bytes;
      }) in
      (
        record r' {
          client_propagation_messages_served =
              saturating_add64 r'.client_propagation_messages_served (length items);
        },
        payload items,
      )

  unfoldable pub handle_peer_sync_message_get :
      LxmfRouter fl → Bytes → PeerSyncRequest fl.F64 → LxmfRouter fl × PeerSyncResponse
  unfolding list_ids limit_bytes collect_items serve_items
  handle_peer_sync_message_get r peer_id message_get_list =
      (r, id_list (list_ids r.propagation_store))
  handle_peer_sync_message_get r peer_id (message_get wants haves transfer_limit_kb) =
      serve_items r peer_id
        (collect_items r.propagation_store (limit_bytes transfer_limit_kb) wants 0)
  handle_peer_sync_message_get r peer_id (offer peering_key available) = (r, error 0x01)
  handle_peer_sync_message_get r peer_id (message_ack delivered) = (r, error 0x01)
