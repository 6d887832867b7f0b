-- ===== src/Peer/Lifecycle.antt =====
-- The moves of a peer as a step relation, and what every history keeps.
use lxmf_rs.Prelude.{
  ℕ, ◌≤◌, ◌<◌, ◌≡◌, refl, ◌∙◌, ◌⊎◌, inl, List, [], ◌∷◌, Bool, true, false, Bytes, arith, u32_max,
  u64_max,
}
use lxmf_rs.Sync.{PeerSyncResponse, error, bool, id_list, payload}
use lxmf_rs.Peer.{
  Peer, peer_backoff_max_ms, new, set_alive, mark_heard, on_offer_sent, on_offer_response,
  on_sync_complete, on_payload_complete, on_timeout, on_failure, throttle,
}

-- A throttle longer than the longest backoff does not occur: the one call passes 180 seconds.
pub data Step {F : Type 0} (p : Peer F) : Peer F → Type 0 where
  offers : (now_ms : ℕ) → now_ms ≤ u64_max → Step p (on_offer_sent p now_ms)
  responds :
      (r : PeerSyncResponse) (now_ms : ℕ) → now_ms ≤ u64_max → Step p (on_offer_response p r now_ms)
  completes : (now_ms : ℕ) → now_ms ≤ u64_max → Step p (on_payload_complete p now_ms)
  times_out : (now_ms : ℕ) → Step p (on_timeout p now_ms)
  throttles :
      (now_ms throttle_ms : ℕ)
      → throttle_ms ≤ peer_backoff_max_ms
      → Step p (throttle p now_ms throttle_ms)
  revives : (alive : Bool) → Step p (set_alive p alive)
  hears : (now_ms : ℕ) → now_ms ≤ u64_max → Step p (mark_heard p now_ms)

pub data Reach {F : Type 0} (p : Peer F) : Peer F → Type 0 where
  here : Reach p p
  next : {q r : Peer F} → Reach p q → Step q r → Reach p r

-- What a peer counts besides its failures.
abbrev pub counters : {F : Type 0} → Peer F → List ℕ
counters p =
    p.rx_bytes
    ∷ (p.tx_bytes
        ∷ (p.messages_offered
            ∷ (p.messages_outgoing ∷ (p.messages_incoming ∷ (p.messages_unhandled ∷ [])))))

-- No backoff without a failure, none over fourteen days, and no count or time over its word.
pub record IsSane {F : Type 0} (p : Peer F) : Type 0 where
  pub backoff_bound : p.backoff_ms ≤ peer_backoff_max_ms
  pub failures_bound : p.failures ≤ u32_max
  pub next_sync_bound : p.next_sync_ms ≤ u64_max
  pub last_sync_bound : p.last_sync_ms ≤ u64_max
  pub last_attempt_bound : p.last_attempt_ms ≤ u64_max
  pub last_heard_bound : p.last_heard_ms ≤ u64_max
  pub failed : (0 < p.failures) ⊎ (p.backoff_ms ≡ 0)

module _ {F : Type 0} where
  on_failure-IsSane : (p : Peer F) (now_ms : ℕ) → IsSane p → IsSane (on_failure p now_ms)
  unfolding on_failure
  on_failure-IsSane p now_ms v = record {
    backoff_bound = omega arith;
    failures_bound = omega arith;
    next_sync_bound = omega arith;
    last_sync_bound = v.last_sync_bound;
    last_attempt_bound = v.last_attempt_bound;
    last_heard_bound = v.last_heard_bound;
    failed = inl (omega arith);
  }

  on_sync_complete-IsSane :
      (p : Peer F) (now_ms : ℕ) → now_ms ≤ u64_max → IsSane p → IsSane (on_sync_complete p now_ms)
  unfolding on_sync_complete
  on_sync_complete-IsSane p now_ms h v = omega arith

  on_offer_response-IsSane :
      (p : Peer F) (r : PeerSyncResponse) (now_ms : ℕ)
      → now_ms ≤ u64_max
      → IsSane p
      → IsSane (on_offer_response p r now_ms)
  unfolding on_offer_response
  on_offer_response-IsSane p (bool true) now_ms h v = omega arith
  on_offer_response-IsSane p (id_list ids) now_ms h v = omega arith
  on_offer_response-IsSane p (bool false) now_ms h v = on_sync_complete-IsSane p now_ms h v
  on_offer_response-IsSane p (payload items) now_ms h v = on_sync_complete-IsSane p now_ms h v
  on_offer_response-IsSane p (error code) now_ms h v = on_failure-IsSane p now_ms v

  set_alive-IsSane : (p : Peer F) (alive : Bool) → IsSane p → IsSane (set_alive p alive)
  unfolding set_alive
  set_alive-IsSane p alive v = ground arith

  Step-IsSane : {p q : Peer F} → Step p q → IsSane p → IsSane q
  unfolding on_offer_sent on_payload_complete on_timeout throttle mark_heard
  Step-IsSane (offers now_ms h) v = omega arith
  Step-IsSane {p} (responds r now_ms h) v = on_offer_response-IsSane p r now_ms h v
  Step-IsSane {p} (completes now_ms h) v = on_sync_complete-IsSane p now_ms h v
  Step-IsSane {p} (times_out now_ms) v = on_failure-IsSane p now_ms v
  Step-IsSane (throttles now_ms throttle_ms h) v = record {
    backoff_bound = h;
    failures_bound = omega arith;
    next_sync_bound = omega arith;
    last_sync_bound = v.last_sync_bound;
    last_attempt_bound = v.last_attempt_bound;
    last_heard_bound = v.last_heard_bound;
    failed = inl (omega arith);
  }
  Step-IsSane {p} (revives alive) v = set_alive-IsSane p alive v
  Step-IsSane (hears now_ms h) v = omega arith

  pub new-IsSane :
      (zero : F) (id : Bytes) (now_ms : ℕ) → now_ms ≤ u64_max → IsSane (new zero id now_ms)
  unfolding new
  new-IsSane zero id now_ms h = omega arith

  on_offer_response-counters :
      (p : Peer F) (r : PeerSyncResponse) (now_ms : ℕ)
      → counters (on_offer_response p r now_ms) ≡ counters p
  unfolding on_offer_response on_sync_complete on_failure
  on_offer_response-counters p (bool true) now_ms = refl
  on_offer_response-counters p (id_list ids) now_ms = refl
  on_offer_response-counters p (bool false) now_ms = refl
  on_offer_response-counters p (payload items) now_ms = refl
  on_offer_response-counters p (error code) now_ms = refl

  set_alive-counters : (p : Peer F) (alive : Bool) → counters (set_alive p alive) ≡ counters p
  unfolding set_alive
  set_alive-counters p alive = ground arith

  Step-counters : {p q : Peer F} → Step p q → counters q ≡ counters p
  unfolding on_offer_sent on_payload_complete on_sync_complete on_timeout on_failure throttle
      mark_heard
  Step-counters (offers now_ms h) = refl
  Step-counters {p} (responds r now_ms h) = on_offer_response-counters p r now_ms
  Step-counters (completes now_ms h) = refl
  Step-counters (times_out now_ms) = refl
  Step-counters (throttles now_ms throttle_ms h) = refl
  Step-counters {p} (revives alive) = set_alive-counters p alive
  Step-counters (hears now_ms h) = refl

  -- From any sane peer, every history of moves, with times within `u64` and throttles of at most
  -- fourteen days, leads to a sane one: the backoff is at most fourteen days, the count of failures
  -- and the times fit their words, and a peer that has not failed since its last sync has no backoff.
  -- No move changes what the peer counts of bytes and messages.
  pub Reach-IsSane : {p q : Peer F} → IsSane p → Reach p q → IsSane q × (counters q ≡ counters p)
  Reach-IsSane v here = (v, refl)
  Reach-IsSane v (next r s) =
      let (w, same) = Reach-IsSane v r in (Step-IsSane s w, Step-counters s ∙ same)
