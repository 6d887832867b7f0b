-- ===== src/Router/Queue.antt =====
-- `RnsRouter` of lxmf-rs/src/rns/router.rs: the queue of outbound messages, its retries, and the
-- deliveries in flight. What sends a message (`RnsOutbound::deliver`) and where messages are stored
-- (`MessageStore`) are parameters; the callbacks, which see the router not at all, are left out.
pub mod Store
pub mod Send
pub mod Restore
pub mod Ledger
pub mod Accounts
pub mod Attempts
pub mod Restored
pub mod Timeouts
pub mod Delay
use Prim.Native.String.{String}
use lxmf_rs.Prelude.{
  ℕ, ◌+◌, ◌-◌, ◌*◌, ◌%◌, ◌^◌, min, max, Bool, true, false, Option, none, some, List, [], ◌∷◌, ◌++◌,
  Bytes, ltb, leb, ◌==◌, ◌&&◌, ◌||◌, if◌then◌else◌, u64_max, saturating_add64, retain, ℕ_discrete,
}
use lxmf_rs.Prelude.HashMap.{get, insert, remove, keys}
use lxmf_rs.Message.{
  LxMessage, state_outbound, state_sending, state_sent, state_delivered, state_failed,
}
use lxmf_rs.Wire.Errors.{Result, ok, err, DeliveryMode, RnsError, crypto_policy_violation}
use lxmf_rs.Wire.Value.{Float}
use lxmf_rs.Router.DeliveredCache.{DeliveredCache, seen_before, mark_delivered}
use lxmf_rs.Router.DeliveredCache
use Store.{QueuedMessage, FailedDelivery, MessageStore, InMemoryStore, empty}

pub record RetryPolicy : Type 0 where
  pub max_attempts : ℕ
  pub base_delay_ms : ℕ
  pub max_delay_ms : ℕ

abbrev pub default_retry : RetryPolicy
default_retry = record { max_attempts = 3; base_delay_ms = 500; max_delay_ms = 5_000 }

-- `saturating_mul` in `u64`, and `1u64 << pow` for a `pow` of at most 20.
unfoldable pub retry_delay_ms : RetryPolicy → ℕ → ℕ
retry_delay_ms policy attempt =
    min (min (policy.base_delay_ms * 2 ^ min (attempt - 1) 20) u64_max) policy.max_delay_ms

-- `D` is what `deliver` makes of a message: packets or a resource.
pub record QueuedDelivery (fl : Float) (D : Type 0) : Type 0 where
  pub id : ℕ
  pub delivery : D
  pub message : LxMessage fl

pub record InflightDelivery (fl : Float) : Type 0 where
  pub id : ℕ
  pub message : LxMessage fl
  pub sent_at_ms : ℕ
  pub timeout_ms : ℕ

-- What arrives: a message, or another payload, which stays opaque here (`R`).
pub data Received (fl : Float) (R : Type 0) : Type 0 where
  lxm : LxMessage fl → Received fl R
  other : R → Received fl R

-- `S` is the state of the store.
pub record RnsRouter (fl : Float) (S R : Type 0) : Type 0 where
  pub outbound : List (QueuedMessage fl)
  pub failed : List (FailedDelivery fl)
  pub inbound : List (Received fl R)
  pub next_id : ℕ
  pub retry : RetryPolicy
  pub store : S
  pub inflight : List (ℕ × InflightDelivery fl)
  pub delivered_cache : DeliveredCache

abbrev pub delivered_cache_max : ℕ
delivered_cache_max = 2048

unfoldable pub is_expired : {fl : Float} → ℕ → ℕ × InflightDelivery fl → Bool
is_expired now_ms e = leb e.1.timeout_ms (now_ms - e.1.sent_at_ms)

-- The message as it enters the queue.
unfoldable pub enqueued :
    {fl : Float} {S R : Type 0} → RnsRouter fl S R → LxMessage fl → DeliveryMode → QueuedMessage fl
enqueued r message mode = record {
  id = r.next_id;
  message = record message { state = state_outbound };
  mode = mode;
  attempts = 0;
  next_attempt_at_ms = 0;
}

-- `if let Some(failed) = … { timed_out.push(failed) }`.
abbrev pub reported : {fl : Float} → Option (FailedDelivery fl) → List (FailedDelivery fl)
reported none = []
reported (some failed) = failed ∷ []

module _ {fl : Float} {R : Type 0} where
  -- The fields as each of the constructors sets them.
  unfoldable pub created : {S : Type 0} → S → RetryPolicy → RnsRouter fl S R
  created store retry = record {
    outbound = [];
    failed = [];
    inbound = [];
    next_id = 1;
    retry = retry;
    store = store;
    inflight = [];
    delivered_cache = DeliveredCache.new delivered_cache_max;
  }

  unfoldable pub with_retry : RetryPolicy → RnsRouter fl (InMemoryStore fl) R
  unfolding created
  with_retry retry = created empty retry

  unfoldable pub new : RnsRouter fl (InMemoryStore fl) R
  unfolding created
  new = created empty default_retry

module _ {fl : Float} {S R : Type 0} (ms : MessageStore fl S) where
  -- `next_id += 1` wraps in a release build.
  unfoldable pub enqueue : RnsRouter fl S R → LxMessage fl → DeliveryMode → RnsRouter fl S R × ℕ
  unfolding enqueued
  enqueue r message mode =
      let item = enqueued r message mode in
      (
        record r {
          next_id = (r.next_id + 1) % 2 ^ 64;
          store = ms.save_outbound r.store item;
          outbound = r.outbound ++ item ∷ [];
        },
        r.next_id,
      )

  unfoldable pub pop_failed : RnsRouter fl S R → RnsRouter fl S R × Option (FailedDelivery fl)
  pop_failed r = elim r.failed [ [] ↦ (r, none) | f ∷ rest ↦ (record r { failed = rest }, some f) ]

  unfoldable pub mark_inflight :
      {D : Type 0} → RnsRouter fl S R → QueuedDelivery fl D → ℕ → ℕ → RnsRouter fl S R
  mark_inflight r d sent_at_ms timeout_ms = record r {
    inflight =
        insert ℕ_discrete d.id
          (record {
            id = d.id;
            message = record d.message { state = state_sent };
            sent_at_ms = sent_at_ms;
            timeout_ms = timeout_ms;
          })
          r.inflight;
  }

  unfoldable pub mark_delivered_id : RnsRouter fl S R → ℕ → RnsRouter fl S R × Option (LxMessage fl)
  mark_delivered_id r id = elim (get ℕ_discrete id r.inflight) [
    | none ↦ (r, none)
    | some d ↦ (
      record r { inflight = remove ℕ_discrete id r.inflight },
      some (record d.message { state = state_delivered }),
    )
  ]

  unfoldable pub mark_failed :
      RnsRouter fl S R → ℕ → String → ℕ → RnsRouter fl S R × Option (FailedDelivery fl)
  mark_failed r id error attempts = elim (get ℕ_discrete id r.inflight) [
    | none ↦ (r, none)
    | some d ↦
        let failed : FailedDelivery fl = record {
          id = id;
          error = error;
          message = record d.message { state = state_failed };
          attempts = attempts;
        } in
        (
          record r {
            inflight = remove ℕ_discrete id r.inflight;
            store = ms.save_failed r.store failed;
            failed = r.failed ++ failed ∷ [];
          },
          some failed,
        )
  ]

  -- The loop over the expired ids.
  unfoldable pub fail_each : RnsRouter fl S R → List ℕ → RnsRouter fl S R × List (FailedDelivery fl)
  unfolding mark_failed
  fail_each r [] = (r, [])
  fail_each r (id ∷ ids) =
      let first = mark_failed r id "delivery timeout" 0 in
      let rest = fail_each first.0 ids in (rest.0, reported first.1 ++ rest.1)

  unfoldable pub poll_timeouts : RnsRouter fl S R → ℕ → RnsRouter fl S R × List (FailedDelivery fl)
  unfolding fail_each is_expired
  poll_timeouts r now_ms = fail_each r (keys ℕ_discrete (retain (is_expired now_ms) r.inflight))

  -- `receive_packet_with_source` once the packet is decoded.
  unfoldable pub receive : RnsRouter fl S R → Received fl R → RnsRouter fl S R
  receive r (other payload) = record r { inbound = r.inbound ++ other payload ∷ [] }
  receive r (lxm msg) = elim msg.message_id [
    | none ↦ record r { store = ms.save_inbound r.store msg; inbound = r.inbound ++ lxm msg ∷ [] }
    | some id ↦ if seen_before r.delivered_cache id then r else record r {
      delivered_cache = (mark_delivered r.delivered_cache id).0;
      store = ms.save_inbound r.store msg;
      inbound = r.inbound ++ lxm msg ∷ [];
    }
  ]
