-- ===== src/Router/Queue/Attempts.antt =====
-- How often `RnsRouter` of lxmf-rs/src/rns/router.rs tries a message, and that its retries end.
use Prim.Native.String.{String}
use lxmf_rs.Prelude.{
  ℕ, ◌+◌, ◌-◌, ◌*◌, ◌≤◌, ◌<◌, ◌≡◌, refl, ap, ◌∙◌, sym, subst, List, [], ◌∷◌, arith, All, take,
  length, Option, none, some, ◌⊎◌, inl, inr, u32_max, u64_max, All-append, zero, suc,
}
use lxmf_rs.Message.{LxMessage}
use lxmf_rs.Wire.Errors.{Result, DeliveryMode, RnsError}
use lxmf_rs.Wire.Value.{Float}
use lxmf_rs.Router.Queue.Store.{QueuedMessage, MessageStore}
use lxmf_rs.Router.Queue.{RnsRouter, RetryPolicy, enqueue, enqueued}
use lxmf_rs.Router.Queue.Restore.{restored, rebase}
use lxmf_rs.Router.Queue.Restored.{restored-All, restored-retry, restored-length}
use lxmf_rs.Router.Queue.Send.{Outcome, next_delivery_with_retry, send_front}
use lxmf_rs.Router.Queue.Ledger.{
  tries, budget, budget_append, Effect, waits, hands_out, retries, gives_up,
  next_delivery_with_retry-Effect, Reach, start, enqueues, sends,
}
use lxmf_rs.Router.Queue.Accounts.{most_attempts}

-- An item that may still be tried, at a time that the clock can show.
abbrev pub IsOpen : {fl : Float} → ℕ → QueuedMessage fl → Type 0
IsOpen most item = (item.attempts < most) × (item.next_attempt_at_ms ≤ u64_max)

-- How many messages a router has had: those of its store, and those it accepted.
abbrev pub accepted : {fl : Float} {S : Type 0} → MessageStore fl S → S → List ℕ → ℕ
accepted ms store issued = length (ms.load_outbound store) + length issued

rebase-IsOpen :
    {fl : Float} (most : ℕ) (base : Option ℕ) (item : QueuedMessage fl)
    → IsOpen most item
    → IsOpen most (rebase base item)
unfolding rebase
rebase-IsOpen most none item h = h
rebase-IsOpen most (some base) item h = ground arith

budget-length :
    {fl : Float} (most : ℕ) (q : List (QueuedMessage fl)) → budget most q ≤ length q * most
budget-length most [] = omega arith
budget-length most (m ∷ q) = grind (arith, budget-length most q)

module _ {fl : Float} {S R D : Type 0} (ms : MessageStore fl S)
    (deliver : LxMessage fl → DeliveryMode → LxMessage fl × Result RnsError D)
    (show : RnsError → String) where
  pub IsOpen-Effect :
      (now_ms : ℕ) (r : RnsRouter fl S R) (o : Outcome fl S R D)
      → Effect ms deliver show r now_ms o
      → All (IsOpen (most_attempts r.retry)) r.outbound
      → All (IsOpen (most_attempts r.retry)) o.0.outbound
  IsOpen-Effect now_ms r o (waits e w) h = rw e h
  IsOpen-Effect now_ms r o (hands_out item rest q e f s t p u) h =
      rw e (subst (All (IsOpen (most_attempts r.retry))) q h).1
  IsOpen-Effect now_ms r o (retries item later rest q e i a b n f s t p u) h = rw e (
      All-append _ rest (later ∷ []) (subst (All (IsOpen (most_attempts r.retry))) q h).1
        ((omega arith, omega arith), tt))
  IsOpen-Effect now_ms r o (gives_up item rest f q e g i s t p u) h =
      rw e (subst (All (IsOpen (most_attempts r.retry))) q h).1

  pub retry-Effect :
      (now_ms : ℕ) (r : RnsRouter fl S R) (o : Outcome fl S R D)
      → Effect ms deliver show r now_ms o
      → o.0.retry ≡ r.retry
  retry-Effect now_ms r o (waits e w) = rw e refl
  retry-Effect now_ms r o (hands_out item rest q e f s t p u) = p
  retry-Effect now_ms r o (retries item later rest q e i a b n f s t p u) = p
  retry-Effect now_ms r o (gives_up item rest f q e g i s t p u) = p

  -- Each attempt takes at least one from the budget.
  pub budget-Effect :
      (now_ms most : ℕ) (r : RnsRouter fl S R) (o : Outcome fl S R D)
      → Effect ms deliver show r now_ms o
      → most ≤ u32_max
      → All (IsOpen most) r.outbound
      → budget most o.0.outbound + tries o.1 ≤ budget most r.outbound
  budget-Effect now_ms most r o (waits e w) m h = rw e (omega arith)
  budget-Effect now_ms most r o (hands_out item rest q e f s t p u) m h =
      let h' = subst (All (IsOpen most)) q h in rw (q, e, t) (omega arith)
  budget-Effect now_ms most r o (retries item later rest q e i a b n f s t p u) m h =
      let h' = subst (All (IsOpen most)) q h in
      rw (q, e, t) (omega (arith, budget_append most rest later))
  budget-Effect now_ms most r o (gives_up item rest f q e g i s t p u) m h =
      let h' = subst (All (IsOpen most)) q h in rw (q, e, t) (omega arith)

  pub Reach-retry :
      {store : S} {retry : RetryPolicy} {r : RnsRouter fl S R} {issued delivered : List ℕ}
      {attempts : ℕ}
      → Reach ms deliver show store retry r issued delivered attempts
      → r.retry ≡ retry
  unfolding enqueue
  Reach-retry {store} {retry} start = restored-retry R ms store retry
  Reach-retry (enqueues message mode h) = Reach-retry h
  Reach-retry (sends {r} now_ms h) =
      retry-Effect now_ms r _ (next_delivery_with_retry-Effect ms deliver show r now_ms)
      ∙ Reach-retry h

  pub Reach-IsOpen :
      {store : S} {retry : RetryPolicy} {r : RnsRouter fl S R} {issued delivered : List ℕ}
      {attempts : ℕ}
      → Reach ms deliver show store retry r issued delivered attempts
      → All (IsOpen (most_attempts retry)) (ms.load_outbound store)
      → All (IsOpen (most_attempts r.retry)) r.outbound
  unfolding enqueue enqueued
  Reach-IsOpen {store} {retry} start o = rw (restored-retry R ms store retry) (
      restored-All R ms store retry (IsOpen (most_attempts retry))
        (rebase-IsOpen (most_attempts retry)) o)
  Reach-IsOpen (enqueues {r} message mode h) o =
      All-append _ r.outbound (enqueued r message mode ∷ []) (Reach-IsOpen h o)
        ((omega arith, omega arith), tt)
  Reach-IsOpen (sends {r} now_ms h) o =
      let e = next_delivery_with_retry-Effect ms deliver show r now_ms in
      rw (retry-Effect now_ms r _ e) (IsOpen-Effect now_ms r _ e (Reach-IsOpen h o))

  pub Reach-budget :
      {store : S} {retry : RetryPolicy} {r : RnsRouter fl S R} {issued delivered : List ℕ}
      {attempts : ℕ}
      → Reach ms deliver show store retry r issued delivered attempts
      → retry.max_attempts ≤ u32_max
      → All (IsOpen (most_attempts retry)) (ms.load_outbound store)
      → attempts + budget (most_attempts retry) r.outbound
        ≤ accepted ms store issued * most_attempts retry
  unfolding enqueue enqueued
  Reach-budget {store} {retry} start m o = grind (
    arith,
    budget-length (most_attempts retry) (restored {R = R} ms store retry).outbound,
    restored-length R ms store retry,
  )
  Reach-budget {retry = retry} (enqueues {r} {issued} message mode h) m o = grind (
    arith,
    Reach-budget h m o,
    budget_append (most_attempts retry) r.outbound (enqueued r message mode),
  )
  Reach-budget {retry = retry} (sends {r} now_ms h) m o =
      let still : All (IsOpen (most_attempts retry)) r.outbound =
        subst (λ p. All (IsOpen (most_attempts p)) r.outbound) (Reach-retry h) (Reach-IsOpen h o) in
      omega (
        arith,
        Reach-budget h m o,
        budget-Effect now_ms (most_attempts retry) r _
            (next_delivery_with_retry-Effect ms deliver show r now_ms) (omega arith) still,
      )

  -- Calls at the last moment that the clock can show, when every queued item is due.
  unfoldable pub drain : ℕ → RnsRouter fl S R → RnsRouter fl S R
  unfolding next_delivery_with_retry
  drain zero r = r
  drain (suc n) r = drain n (next_delivery_with_retry ms deliver show r u64_max).0

  -- A call either takes from the budget or finds nothing to do.
  progress :
      (most : ℕ) (r : RnsRouter fl S R) (o : Outcome fl S R D)
      → Effect ms deliver show r u64_max o
      → All (IsOpen most) r.outbound
      → (o.0.outbound ≡ []) ⊎ (tries o.1 ≡ 1)
  progress most r o (waits e w) h = inl (rw e (front r.outbound w h))
    where
      front :
          (q : List (QueuedMessage fl))
          → All (λ item. u64_max < item.next_attempt_at_ms) (take 1 q)
          → All (IsOpen most) q
          → q ≡ []
      front [] w h = refl
      front (item ∷ rest) w h = absurd (omega arith)
  progress most r o (hands_out item rest q e f s t p u) h = inr t
  progress most r o (retries item later rest q e i a b n f s t p u) h = inr t
  progress most r o (gives_up item rest f q e g i s t p u) h = inr t

  drain_empty : (n : ℕ) (r : RnsRouter fl S R) → r.outbound ≡ [] → (drain n r).outbound ≡ []
  unfolding drain next_delivery_with_retry
  drain_empty zero r e = e
  drain_empty (suc n) r e =
      drain_empty n _ (ap (λ q. (send_front ms deliver show r q u64_max).0.outbound) e ∙ e)

  drain-budget :
      (n most : ℕ) (r : RnsRouter fl S R)
      → most ≡ most_attempts r.retry
      → r.retry.max_attempts ≤ u32_max
      → All (IsOpen most) r.outbound
      → budget most r.outbound ≤ n
      → (drain n r).outbound ≡ []
  unfolding drain
  drain-budget zero most r m u h b = spent r.outbound h b
    where
      spent : (q : List (QueuedMessage fl)) → All (IsOpen most) q → budget most q ≤ 0 → q ≡ []
      spent [] h b = refl
      spent (item ∷ rest) h b = absurd (omega arith)
  drain-budget (suc n) most r m u h b =
      let e = next_delivery_with_retry-Effect ms deliver show r u64_max in
      let o = next_delivery_with_retry ms deliver show r u64_max in
      let same : o.0.retry ≡ r.retry = retry-Effect u64_max r o e in
      let still : All (IsOpen most) o.0.outbound =
        subst (λ k. All (IsOpen k) o.0.outbound) (sym m)
          (IsOpen-Effect u64_max r o e (subst (λ k. All (IsOpen k) r.outbound) m h)) in
      elim (progress most r o e h) [
        | inl empty ↦ drain_empty n o.0 empty
        | inr tried ↦
            drain-budget n most o.0 (rw same m) (rw same u) still
              (omega (arith, budget-Effect u64_max most r o e (omega arith) h))
      ]

  -- Each message gets a bounded number of attempts, and then the queue lets go of it. After any
  -- sequence of calls of `enqueue` and `next_delivery_with_retry` on a router that `with_store` made of
  -- a store, or `new` or `with_retry` of none, the attempts made are at most `max_attempts` (one if
  -- that is 0) for each message that the store had or the router accepted; and as many calls as remain
  -- of that bound, at the last time that the clock can show, leave the outbound queue empty, whatever
  -- `deliver` returns. This is so for a policy of at most `u32::MAX` attempts, if each message that
  -- the store had may still be tried, at a time within `u64`.
  pub Reach-drain :
      {store : S} {retry : RetryPolicy} {r : RnsRouter fl S R} {issued delivered : List ℕ}
      {attempts : ℕ}
      → Reach ms deliver show store retry r issued delivered attempts
      → retry.max_attempts ≤ u32_max
      → All (IsOpen (most_attempts retry)) (ms.load_outbound store)
      → let bound = accepted ms store issued * most_attempts retry in
        (attempts ≤ bound) × ((drain (bound - attempts) r).outbound ≡ [])
  Reach-drain {r = r} h m o = (
    omega (arith, Reach-budget h m o),
    drain-budget _ _ r refl (rw (Reach-retry h) m) (Reach-IsOpen h o)
        (rw (Reach-retry h) (omega (arith, Reach-budget h m o))),
  )
