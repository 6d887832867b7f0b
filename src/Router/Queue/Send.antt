-- ===== src/Router/Queue/Send.antt =====
-- `next_delivery` and `next_delivery_with_retry` of `RnsRouter` in lxmf-rs/src/rns/router.rs.
use Prim.Native.String.{String}
use lxmf_rs.Prelude.{
  ℕ, ◌+◌, ◌%◌, ◌^◌, Option, none, some, List, [], ◌∷◌, ◌++◌, ltb, if◌then◌else◌, saturating_add64,
}
use lxmf_rs.Message.{LxMessage, state_sending, state_sent, state_failed}
use lxmf_rs.Wire.Errors.{Result, ok, err, DeliveryMode, RnsError, crypto_policy_violation}
use lxmf_rs.Wire.Value.{Float}
use lxmf_rs.Router.Queue.Store.{QueuedMessage, FailedDelivery, MessageStore}
use lxmf_rs.Router.Queue.{RnsRouter, QueuedDelivery, retry_delay_ms}

-- The router after a call, and what the call returns.
abbrev pub Outcome : Float → Type 0 → Type 0 → Type 0 → Type 0
Outcome fl S R D = RnsRouter fl S R × Option (Result RnsError (QueuedDelivery fl D))

-- The item as it goes to `deliver`; `attempts += 1` wraps in a release build.
unfoldable pub started : {fl : Float} → QueuedMessage fl → QueuedMessage fl
started item = record item {
  attempts = (item.attempts + 1) % 2 ^ 32;
  message = record item.message { state = state_sending };
}

-- Sending. `deliver` may change the message, and `show` is `to_string` of an error.
module _ {fl : Float} {S R D : Type 0} (ms : MessageStore fl S)
    (deliver : LxMessage fl → DeliveryMode → LxMessage fl × Result RnsError D)
    (show : RnsError → String) where
  unfoldable pub succeed : RnsRouter fl S R → QueuedMessage fl → D → Outcome fl S R D
  succeed r item delivery = (
    record r { store = ms.remove_outbound r.store item.id },
    some (
        ok (record {
          id = item.id;
          delivery = delivery;
          message = record item.message { state = state_sent };
        })),
  )

  unfoldable pub give_up : RnsRouter fl S R → QueuedMessage fl → RnsError → RnsRouter fl S R
  give_up r item e =
      let failed : FailedDelivery fl = record {
        id = item.id;
        error = show e;
        message = record item.message { state = state_failed };
        attempts = item.attempts;
      } in
      record r {
        store = ms.save_failed (ms.remove_outbound r.store item.id) failed;
        failed = r.failed ++ failed ∷ [];
      }

  unfoldable pub try_again : RnsRouter fl S R → QueuedMessage fl → ℕ → RnsRouter fl S R
  try_again r item now_ms =
      let later : QueuedMessage fl = record item {
        next_attempt_at_ms = saturating_add64 now_ms (retry_delay_ms r.retry item.attempts);
      } in
      record r { store = ms.save_outbound r.store later; outbound = r.outbound ++ later ∷ [] }

  unfoldable pub retry_up_to : RnsRouter fl S R → QueuedMessage fl → ℕ → RnsError → RnsRouter fl S R
  unfolding give_up try_again
  retry_up_to r item now_ms e =
      if ltb item.attempts r.retry.max_attempts then try_again r item now_ms else give_up r item e

  unfoldable pub retry_or_fail :
      RnsRouter fl S R → QueuedMessage fl → ℕ → RnsError → RnsRouter fl S R
  unfolding give_up retry_up_to
  retry_or_fail r item now_ms (crypto_policy_violation policy mode reason) =
      give_up r item (crypto_policy_violation policy mode reason)
  retry_or_fail r item now_ms e = retry_up_to r item now_ms e

  unfoldable pub send : RnsRouter fl S R → QueuedMessage fl → ℕ → Outcome fl S R D
  unfolding succeed retry_or_fail
  send r item now_ms =
      let sent = deliver item.message item.mode in
      let item' = record item { message = sent.0 } in
      elim sent.1 [
        | ok delivery ↦ succeed r item' delivery
        | err e ↦ (retry_or_fail r item' now_ms e, some (err e))
      ]

  -- `front` is the queue as `pop_front` finds it.
  unfoldable pub send_front : RnsRouter fl S R → List (QueuedMessage fl) → ℕ → Outcome fl S R D
  unfolding send started
  send_front r [] now_ms = (r, none)
  send_front r (item ∷ rest) now_ms =
      if ltb now_ms item.next_attempt_at_ms
      then (r, none)
      else send (record r { outbound = rest }) (started item) now_ms

  unfoldable pub next_delivery_with_retry : RnsRouter fl S R → ℕ → Outcome fl S R D
  unfolding send_front
  next_delivery_with_retry r now_ms = send_front r r.outbound now_ms

  send_once : RnsRouter fl S R → QueuedMessage fl → Outcome fl S R D
  unfolding succeed
  send_once r item =
      let sent = deliver item.message item.mode in
      elim sent.1 [
        | ok delivery ↦ succeed r (record item { message = sent.0 }) delivery
        | err e ↦ (r, some (err e))
      ]

  -- Without retries a failed item is dropped from the queue and stays in the store.
  unfoldable pub next_delivery : RnsRouter fl S R → ℕ → Outcome fl S R D
  unfolding send_once started
  next_delivery r now_ms = elim r.outbound [
    | [] ↦ (r, none)
    | item ∷ rest ↦
        if ltb now_ms item.next_attempt_at_ms
        then (r, none)
        else send_once (record r { outbound = rest }) (started item)
  ]
