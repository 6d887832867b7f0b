-- ===== src/Router/Runtime/Front.antt =====
-- What the tick of `LxmfRuntime` in lxmf-rs/src/rns/router.rs tries, and what it leaves in the queue.
use Prim.Native.String.{String}
use lxmf_rs.Prelude.{
  ℕ, ◌+◌, ◌^◌, ◌%◌, ◌<◌, ◌≡◌, List, [], ◌∷◌, ◌++◌, All, length, saturating_add64, ltb,
  if◌then◌else◌,
}
use lxmf_rs.Message.{LxMessage}
use lxmf_rs.Wire.Errors.{Result, DeliveryMode, RnsError}
use lxmf_rs.Wire.Value.{Float}
use lxmf_rs.Router.Queue.Store.{QueuedMessage, MessageStore}
use lxmf_rs.Router.Queue.{RetryPolicy, retry_delay_ms}
use lxmf_rs.Router.Queue.Send.{Outcome}
use lxmf_rs.Router.Queue.Ledger.{tries}
use lxmf_rs.Router.Runtime.{Collected}
use lxmf_rs.Router.Runtime.Due.{collected}

-- A retry that waits: the delay is not 0.
abbrev pub IsPatient : RetryPolicy → Type 0
IsPatient policy = (0 < policy.base_delay_ms) × (0 < policy.max_delay_ms)

module _ {fl : Float} where
  -- The messages in front of the first that is not due, and the others.
  abbrev pub due_front : ℕ → List (QueuedMessage fl) → List (QueuedMessage fl)
  due_front now_ms [] = []
  due_front now_ms (m ∷ q) = if ltb now_ms m.next_attempt_at_ms then [] else m ∷ due_front now_ms q

  abbrev pub behind : ℕ → List (QueuedMessage fl) → List (QueuedMessage fl)
  behind now_ms [] = []
  behind now_ms (m ∷ q) = if ltb now_ms m.next_attempt_at_ms then m ∷ q else behind now_ms q

  abbrev pub IsWaiting : ℕ → QueuedMessage fl → Type 0
  IsWaiting now_ms m = now_ms < m.next_attempt_at_ms

  -- Which of the messages tried, in order, are to be tried again: each with the same id, one attempt
  -- more than it had and fewer than the policy allows, after the delay of the policy.
  pub data TriedAgain (policy : RetryPolicy) (now_ms : ℕ)
      : List (QueuedMessage fl) → List (QueuedMessage fl) → Type 0 where
    nothing : TriedAgain policy now_ms [] []
    settles :
        {q again : List (QueuedMessage fl)} (m : QueuedMessage fl)
        → TriedAgain policy now_ms q again
        → TriedAgain policy now_ms (m ∷ q) again
    requeues :
        {q again : List (QueuedMessage fl)} (m later : QueuedMessage fl)
        → later.id ≡ m.id
        → later.attempts ≡ (m.attempts + 1) % 2 ^ 32
        → later.attempts < policy.max_attempts
        → later.next_attempt_at_ms ≡ saturating_add64 now_ms (retry_delay_ms policy later.attempts)
        → TriedAgain policy now_ms q again
        → TriedAgain policy now_ms (m ∷ q) (later ∷ again)

module _ {fl : Float} {S R D : Type 0} (ms : MessageStore fl S)
    (deliver : LxMessage fl → DeliveryMode → LxMessage fl × Result RnsError D)
    (show : RnsError → String) where
  -- What the loop leaves of `q` with waiting messages behind it.
  abbrev Leaves :
      RetryPolicy
      → ℕ
      → List (QueuedMessage fl)
      → List (QueuedMessage fl)
      → Collected fl S R D
      → Type 0
  Leaves policy now_ms q last c =
      (again : List (QueuedMessage fl)) × (c.0.outbound ≡ behind now_ms q ++ (last ++ again))
      × TriedAgain policy now_ms (due_front now_ms q) again
      × (collected ms deliver show c ≡ length (due_front now_ms q))

  -- One attempt on the message `m`, which is due.
  abbrev Passed :
      RetryPolicy
      → ℕ
      → QueuedMessage fl
      → List (QueuedMessage fl)
      → List (QueuedMessage fl)
      → Outcome fl S R D
      → Type 0
  Passed policy now_ms m q last o =
      (new : List (QueuedMessage fl)) × (o.0.outbound ≡ q ++ (last ++ new))
      × All (IsWaiting now_ms) new
      × ((tried again : List (QueuedMessage fl))
          → TriedAgain policy now_ms tried again
          → TriedAgain policy now_ms (m ∷ tried) (new ++ again))
      × (tries o.1 ≡ 1)
