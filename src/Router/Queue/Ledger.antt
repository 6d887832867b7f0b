-- ===== src/Router/Queue/Ledger.antt =====
-- What becomes of the messages that `RnsRouter` of lxmf-rs/src/rns/router.rs accepts: a ledger of
-- the ids handed out, of those delivered, and of the attempts made.
use Prim.Native.String.{String}
use lxmf_rs.Prelude.{
  ℕ, ◌+◌, ◌-◌, ◌%◌, ◌^◌, ◌<◌, ◌≡◌, refl, Option, none, some, inl, inr, List, ◌⊎◌, [], ◌∷◌, ◌++◌,
  arith, saturating_add64, Bool-cases, ltb, ltb→lt, ◌==◌, if◌then◌else◌, All, take,
}
use lxmf_rs.Message.{LxMessage}
use lxmf_rs.Wire.Errors.{
  Result, ok, err, DeliveryMode, RnsError, reticulum, io, invalid_destination_hash,
  crypto_policy_violation, lxmf, msgpack,
}
use lxmf_rs.Wire.Value.{Float}
use lxmf_rs.Router.Queue.Store.{QueuedMessage, FailedDelivery, MessageStore}
use lxmf_rs.Router.Queue.{RnsRouter, RetryPolicy, QueuedDelivery, enqueue, retry_delay_ms}
use lxmf_rs.Router.Queue.Restore.{restored}
use lxmf_rs.Router.Queue.Send.{
  Outcome, next_delivery_with_retry, send, succeed, retry_or_fail, give_up, try_again, started,
  send_front, retry_up_to,
}

Result-cases : {E A : Type 0} (r : Result E A) → ((a : A) × (r ≡ ok a)) ⊎ ((e : E) × (r ≡ err e))
Result-cases (ok a) = inl (a, refl)
Result-cases (err e) = inr (e, refl)

List-cases : {A : Type 0} (l : List A) → (l ≡ []) ⊎ ((x : A) × (xs : List A) × (l ≡ x ∷ xs))
List-cases [] = inl refl
List-cases (x ∷ xs) = inr (x, xs, refl)

-- How often an id occurs.
abbrev pub count : ℕ → List ℕ → ℕ
count x [] = 0
count x (y ∷ ys) = (if x == y then 1 else 0) + count x ys

pub count_append : (x : ℕ) (ys zs : List ℕ) → count x (ys ++ zs) ≡ count x ys + count x zs
count_append x [] zs = omega arith
count_append x (y ∷ ys) zs = omega (arith, count_append x ys zs)

abbrev pub outbound_ids : {fl : Float} → List (QueuedMessage fl) → List ℕ
outbound_ids [] = []
outbound_ids (m ∷ ms) = m.id ∷ outbound_ids ms

abbrev pub failed_ids : {fl : Float} → List (FailedDelivery fl) → List ℕ
failed_ids [] = []
failed_ids (f ∷ fs) = f.id ∷ failed_ids fs

-- The ids that a call hands to the network.
abbrev pub sent_ids :
    {fl : Float} {D : Type 0} → Option (Result RnsError (QueuedDelivery fl D)) → List ℕ
sent_ids none = []
sent_ids (some (err e)) = []
sent_ids (some (ok d)) = d.id ∷ []

abbrev pub tries : {A : Type 0} → Option A → ℕ
tries none = 0
tries (some _) = 1

-- The attempts that the queued items may still make.
abbrev pub budget : {fl : Float} → ℕ → List (QueuedMessage fl) → ℕ
budget most [] = 0
budget most (m ∷ ms) = (most - m.attempts) + budget most ms

pub outbound_ids_append :
    {fl : Float} (x : ℕ) (ms : List (QueuedMessage fl)) (m : QueuedMessage fl)
    → count x (outbound_ids (ms ++ m ∷ [])) ≡ count x (outbound_ids ms) + count x (m.id ∷ [])
outbound_ids_append x [] m = omega arith
outbound_ids_append x (n ∷ ms) m = omega (arith, outbound_ids_append x ms m)

pub failed_ids_append :
    {fl : Float} (x : ℕ) (fs : List (FailedDelivery fl)) (f : FailedDelivery fl)
    → count x (failed_ids (fs ++ f ∷ [])) ≡ count x (failed_ids fs) + count x (f.id ∷ [])
failed_ids_append x [] f = omega arith
failed_ids_append x (n ∷ fs) f = omega (arith, failed_ids_append x fs f)

pub budget_append :
    {fl : Float} (most : ℕ) (ms : List (QueuedMessage fl)) (m : QueuedMessage fl)
    → budget most (ms ++ m ∷ []) ≡ budget most ms + (most - m.attempts)
budget_append most [] m = omega arith
budget_append most (n ∷ ms) m = omega (arith, budget_append most ms m)

module _ {fl : Float} {S R D : Type 0} (ms : MessageStore fl S)
    (deliver : LxMessage fl → DeliveryMode → LxMessage fl × Result RnsError D)
    (show : RnsError → String) where
  -- What a call of `next_delivery_with_retry` can do to the queue.
  pub data Effect (r : RnsRouter fl S R) (now_ms : ℕ) (o : Outcome fl S R D) : Type 0 where
    waits :
        o ≡ (r, none)
        → All (λ item. now_ms < item.next_attempt_at_ms) (take 1 r.outbound)
        → Effect r now_ms o
    hands_out :
        (item : QueuedMessage fl) (rest : List (QueuedMessage fl))
        → r.outbound ≡ item ∷ rest
        → o.0.outbound ≡ rest
        → o.0.failed ≡ r.failed
        → sent_ids o.1 ≡ item.id ∷ []
        → tries o.1 ≡ 1
        → o.0.retry ≡ r.retry
        → o.0.next_id ≡ r.next_id
        → Effect r now_ms o
    retries :
        (item later : QueuedMessage fl) (rest : List (QueuedMessage fl))
        → r.outbound ≡ item ∷ rest
        → o.0.outbound ≡ rest ++ later ∷ []
        → later.id ≡ item.id
        → later.attempts ≡ (item.attempts + 1) % 2 ^ 32
        → later.attempts < r.retry.max_attempts
        → later.next_attempt_at_ms ≡ saturating_add64 now_ms (retry_delay_ms r.retry later.attempts)
        → o.0.failed ≡ r.failed
        → sent_ids o.1 ≡ []
        → tries o.1 ≡ 1
        → o.0.retry ≡ r.retry
        → o.0.next_id ≡ r.next_id
        → Effect r now_ms o
    gives_up :
        (item : QueuedMessage fl) (rest : List (QueuedMessage fl)) (f : FailedDelivery fl)
        → r.outbound ≡ item ∷ rest
        → o.0.outbound ≡ rest
        → o.0.failed ≡ r.failed ++ f ∷ []
        → f.id ≡ item.id
        → sent_ids o.1 ≡ []
        → tries o.1 ≡ 1
        → o.0.retry ≡ r.retry
        → o.0.next_id ≡ r.next_id
        → Effect r now_ms o

  retry_up_to-Effect :
      (r : RnsRouter fl S R) (item item' : QueuedMessage fl) (rest : List (QueuedMessage fl))
      (now_ms : ℕ) (e : RnsError)
      → r.outbound ≡ item ∷ rest
      → item'.id ≡ item.id
      → item'.attempts ≡ (item.attempts + 1) % 2 ^ 32
      → Effect r now_ms
          (retry_up_to ms deliver show (record r { outbound = rest }) item' now_ms e, some (err e))
  unfolding retry_up_to try_again give_up
  retry_up_to-Effect r item item' rest now_ms e q i a =
      elim (Bool-cases (ltb item'.attempts r.retry.max_attempts)) [
        | inl t ↦ rw t (retries item _ rest q refl i a (ltb→lt _ _ t) refl refl refl refl refl refl)
        | inr t ↦ rw t (gives_up item rest _ q refl refl i refl refl refl refl)
      ]

  retry_or_fail-Effect :
      (r : RnsRouter fl S R) (item item' : QueuedMessage fl) (rest : List (QueuedMessage fl))
      (now_ms : ℕ) (e : RnsError)
      → r.outbound ≡ item ∷ rest
      → item'.id ≡ item.id
      → item'.attempts ≡ (item.attempts + 1) % 2 ^ 32
      → Effect r now_ms (
        retry_or_fail ms deliver show (record r { outbound = rest }) item' now_ms e,
        some (err e),
      )
  unfolding retry_or_fail give_up
  retry_or_fail-Effect r item item' rest now_ms (crypto_policy_violation policy mode reason) q i a =
      (gives_up item rest _ q refl refl i refl refl refl refl)
  retry_or_fail-Effect r item item' rest now_ms (reticulum s) q i a =
      retry_up_to-Effect r item item' rest now_ms (reticulum s) q i a
  retry_or_fail-Effect r item item' rest now_ms (io s) q i a =
      retry_up_to-Effect r item item' rest now_ms (io s) q i a
  retry_or_fail-Effect r item item' rest now_ms invalid_destination_hash q i a =
      retry_up_to-Effect r item item' rest now_ms invalid_destination_hash q i a
  retry_or_fail-Effect r item item' rest now_ms (lxmf s) q i a =
      retry_up_to-Effect r item item' rest now_ms (lxmf s) q i a
  retry_or_fail-Effect r item item' rest now_ms (msgpack s) q i a =
      retry_up_to-Effect r item item' rest now_ms (msgpack s) q i a

  send-Effect :
      (r : RnsRouter fl S R) (item : QueuedMessage fl) (rest : List (QueuedMessage fl)) (now_ms : ℕ)
      → r.outbound ≡ item ∷ rest
      → Effect r now_ms (send ms deliver show (record r { outbound = rest }) (started item) now_ms)
  unfolding send started succeed
  send-Effect r item rest now_ms q =
      elim (Result-cases (deliver (started item).message (started item).mode).1) [
        | inl (d, e) ↦ rw (e, send) (hands_out item rest q refl refl refl refl refl refl)
        | inr (x, e) ↦
            rw (e, send)
              (retry_or_fail-Effect r item
                (record (started item) {
                  message = (deliver (started item).message (started item).mode).0;
                })
                rest now_ms x q refl refl)
      ]

  send_front-Effect :
      (r : RnsRouter fl S R) (front : List (QueuedMessage fl)) (now_ms : ℕ)
      → r.outbound ≡ front
      → Effect r now_ms (send_front ms deliver show r front now_ms)
  unfolding send_front
  send_front-Effect r [] now_ms q = waits refl (rw q tt)
  send_front-Effect r (item ∷ rest) now_ms q =
      elim (Bool-cases (ltb now_ms item.next_attempt_at_ms)) [
        | inl t ↦ waits (rw t) (rw q (ltb→lt _ _ t, tt))
        | inr t ↦ rw t (send-Effect r item rest now_ms q)
      ]

  pub next_delivery_with_retry-Effect :
      (r : RnsRouter fl S R) (now_ms : ℕ)
      → Effect r now_ms (next_delivery_with_retry ms deliver show r now_ms)
  unfolding next_delivery_with_retry
  next_delivery_with_retry-Effect r now_ms = send_front-Effect r r.outbound now_ms refl

  -- From a router that `with_store` makes of a store, the calls of a sender: `issued` are the ids that
  -- `enqueue` returned, `delivered` the ids whose delivery was handed out, `attempts` the calls that
  -- tried to send. The routers of `new` and `with_retry` are those of an empty store.
  pub data Reach (store : S) (retry : RetryPolicy)
      : RnsRouter fl S R → List ℕ → List ℕ → ℕ → Type 0 where
    start : Reach store retry (restored ms store retry) [] [] 0
    enqueues :
        {r : RnsRouter fl S R} {issued delivered : List ℕ} {attempts : ℕ} (message : LxMessage fl)
        (mode : DeliveryMode)
        → Reach store retry r issued delivered attempts
        → Reach store retry
            (enqueue ms r message mode).0
            ((enqueue ms r message mode).1 ∷ issued)
            delivered
            attempts
    sends :
        {r : RnsRouter fl S R} {issued delivered : List ℕ} {attempts : ℕ} (now_ms : ℕ)
        → Reach store retry r issued delivered attempts
        → Reach store retry
            (next_delivery_with_retry ms deliver show r now_ms).0
            issued
            (sent_ids (next_delivery_with_retry ms deliver show r now_ms).1 ++ delivered)
            (tries (next_delivery_with_retry ms deliver show r now_ms).1 + attempts)
