-- ===== src/Peer.antt =====
-- lxmf-rs/src/rns/peer.rs: the record of a peer that a propagation node syncs with, and the moves
-- of its sync state. Times and counters are machine words that saturate; `f64` is a parameter.
pub mod Backoff
pub mod Table
pub mod Lifecycle
pub mod Queues
use Prim.Native.String.{String}
use lxmf_rs.Prelude.{
  ℕ, ◌*◌, min, Bool, true, false, not, ◌&&◌, ◌||◌, Option, none, some, List, [], ◌∷◌, ◌++◌, Bytes,
  leb, is_empty, ◌==◌, if◌then◌else◌, saturating_add64, saturating_add32,
}
use lxmf_rs.Sync.{PeerSyncResponse, error, bool, id_list, payload}

pub data PeerState : Type 0 where
  idle offer_sent awaiting_payload backoff : PeerState

abbrev pub strategy_persistent : ℕ
strategy_persistent = 2

abbrev pub default_sync_strategy : ℕ
default_sync_strategy = strategy_persistent

abbrev pub peer_backoff_step_ms : ℕ
peer_backoff_step_ms = 12 * 60 * 1000

abbrev pub peer_backoff_max_ms : ℕ
peer_backoff_max_ms = 14 * 24 * 60 * 60 * 1000

-- `F` is the type of `f64` values. The two queues have their front first.
pub record Peer (F : Type 0) : Type 0 where
  pub id : Bytes
  pub state : PeerState
  pub last_sync_ms : ℕ
  pub last_attempt_ms : ℕ
  pub next_sync_ms : ℕ
  pub backoff_ms : ℕ
  pub failures : ℕ
  pub last_heard_ms : ℕ
  pub rx_bytes : ℕ
  pub tx_bytes : ℕ
  pub messages_offered : ℕ
  pub messages_outgoing : ℕ
  pub messages_incoming : ℕ
  pub messages_unhandled : ℕ
  pub peering_key : Option Bytes
  pub peering_key_value : Option ℕ
  pub sync_transfer_rate : F
  pub handled_messages_queue : List Bytes
  pub unhandled_messages_queue : List Bytes
  pub sync_strategy : ℕ
  pub peering_cost : Option ℕ
  pub metadata : Option (List (String × Bytes))
  pub peering_timebase : ℕ
  pub link_establishment_rate : F
  pub propagation_transfer_limit : Option F
  pub propagation_sync_limit : Option ℕ
  pub propagation_stamp_cost : Option ℕ
  pub propagation_stamp_cost_flexibility : Option ℕ
  pub currently_transferring_messages : Option (List Bytes)
  pub current_sync_transfer_started : Option ℕ

-- The `next.min(PEER_BACKOFF_MAX_MS)` of `on_failure`.
unfoldable pub next_backoff_ms : ℕ → ℕ
next_backoff_ms backoff_ms =
    min
      (if backoff_ms == 0
        then peer_backoff_step_ms
        else saturating_add64 backoff_ms peer_backoff_step_ms)
      peer_backoff_max_ms

module _ {F : Type 0} where
  -- `zero` is the literal `0.0`.
  unfoldable pub new : F → Bytes → ℕ → Peer F
  new zero id now_ms = record {
    id = id;
    state = idle;
    last_sync_ms = 0;
    last_attempt_ms = 0;
    next_sync_ms = now_ms;
    backoff_ms = 0;
    failures = 0;
    last_heard_ms = 0;
    rx_bytes = 0;
    tx_bytes = 0;
    messages_offered = 0;
    messages_outgoing = 0;
    messages_incoming = 0;
    messages_unhandled = 0;
    peering_key = none;
    peering_key_value = none;
    sync_transfer_rate = zero;
    handled_messages_queue = [];
    unhandled_messages_queue = [];
    sync_strategy = default_sync_strategy;
    peering_cost = none;
    metadata = none;
    peering_timebase = 0;
    link_establishment_rate = zero;
    propagation_transfer_limit = none;
    propagation_sync_limit = none;
    propagation_stamp_cost = none;
    propagation_stamp_cost_flexibility = none;
    currently_transferring_messages = none;
    current_sync_transfer_started = none;
  }

  unfoldable pub is_alive : Peer F → Bool
  is_alive p = elim p.state [ backoff ↦ false | _ ↦ true ]

  unfoldable pub set_alive : Peer F → Bool → Peer F
  set_alive p false = elim p.state [ idle ↦ record p { state = backoff } | _ ↦ p ]
  set_alive p true = elim p.state [ backoff ↦ record p { state = idle } | _ ↦ p ]

  unfoldable pub mark_heard : Peer F → ℕ → Peer F
  mark_heard p now_ms = record p { last_heard_ms = now_ms }

  unfoldable pub queue_unhandled_message : Peer F → Bytes → Peer F
  queue_unhandled_message p transient_id = record p {
    unhandled_messages_queue = p.unhandled_messages_queue ++ transient_id ∷ [];
  }

  unfoldable pub queue_handled_message : Peer F → Bytes → Peer F
  queue_handled_message p transient_id = record p {
    handled_messages_queue = p.handled_messages_queue ++ transient_id ∷ [];
  }

  unfoldable pub queued_items : Peer F → Bool
  queued_items p =
      not (is_empty p.handled_messages_queue) || not (is_empty p.unhandled_messages_queue)

  unfoldable pub peering_key_ready : Peer F → Bool
  peering_key_ready p = elim p.peering_cost [
    | none ↦ false
    | some cost ↦ elim p.peering_key_value [ none ↦ false | some value ↦ leb cost value ]
  ]

  unfoldable pub should_sync : Peer F → ℕ → Bool
  should_sync p now_ms = elim p.state [
    | idle ↦ leb p.next_sync_ms now_ms
    | backoff ↦ leb p.next_sync_ms now_ms
    | _ ↦ false
  ]

  unfoldable pub on_offer_sent : Peer F → ℕ → Peer F
  on_offer_sent p now_ms = record p { state = offer_sent; last_attempt_ms = now_ms }

  unfoldable pub on_sync_complete : Peer F → ℕ → Peer F
  on_sync_complete p now_ms = record p {
    last_sync_ms = now_ms;
    last_attempt_ms = now_ms;
    failures = 0;
    backoff_ms = 0;
    next_sync_ms = now_ms;
    state = idle;
  }

  unfoldable pub on_failure : Peer F → ℕ → Peer F
  unfolding next_backoff_ms
  on_failure p now_ms =
      let backoff_ms = next_backoff_ms p.backoff_ms in
      record p {
        failures = saturating_add32 p.failures 1;
        backoff_ms = backoff_ms;
        next_sync_ms = saturating_add64 now_ms backoff_ms;
        state = backoff;
      }

  unfoldable pub throttle : Peer F → ℕ → ℕ → Peer F
  throttle p now_ms throttle_ms = record p {
    failures = saturating_add32 p.failures 1;
    backoff_ms = throttle_ms;
    next_sync_ms = saturating_add64 now_ms throttle_ms;
    state = backoff;
  }

  unfoldable pub on_payload_complete : Peer F → ℕ → Peer F
  unfolding on_sync_complete
  on_payload_complete p now_ms = on_sync_complete p now_ms

  unfoldable pub on_timeout : Peer F → ℕ → Peer F
  unfolding on_failure
  on_timeout p now_ms = on_failure p now_ms

  -- The state is assigned again after the call on each branch.
  unfoldable pub on_offer_response : Peer F → PeerSyncResponse → ℕ → Peer F
  unfolding on_sync_complete on_failure
  on_offer_response p (bool true) now_ms = record p { state = awaiting_payload }
  on_offer_response p (id_list ids) now_ms = record p { state = awaiting_payload }
  on_offer_response p (bool false) now_ms = record (on_sync_complete p now_ms) { state = idle }
  on_offer_response p (payload items) now_ms = record (on_sync_complete p now_ms) { state = idle }
  on_offer_response p (error code) now_ms = record (on_failure p now_ms) { state = backoff }
