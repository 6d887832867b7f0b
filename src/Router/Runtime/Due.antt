-- ===== src/Router/Runtime/Due.antt =====
-- What the tick of `LxmfRuntime` in lxmf-rs/src/rns/router.rs does to the queue: its loop ends, and
-- leaves nothing that is due at the front.
use Prim.Native.String.{String}
use lxmf_rs.Prelude.{
  ℕ, zero, suc, ◌+◌, ◌*◌, ◌%◌, ◌^◌, ◌≤◌, ◌<◌, ◌≡◌, refl, sym, ap, ◌∙◌, subst, true, ◌⊎◌, inl, inr,
  Option, none, some, List, arith, All, take, length, u32_max, Bool-cases, retain, ℕ_discrete,
}
use lxmf_rs.Prelude.HashMap.{keys}
use lxmf_rs.Message.{LxMessage}
use lxmf_rs.Wire.Errors.{Result, ok, err, DeliveryMode, RnsError}
use lxmf_rs.Wire.Value.{Float}
use lxmf_rs.Router.Queue.Store.{QueuedMessage, MessageStore}
use lxmf_rs.Router.Queue.{RnsRouter, RetryPolicy, QueuedDelivery, is_expired}
use lxmf_rs.Router.Queue
use lxmf_rs.Router.Queue.Send.{Outcome, next_delivery_with_retry}
use lxmf_rs.Router.Queue.Ledger.{
  tries, budget, Effect, waits, hands_out, retries, gives_up, next_delivery_with_retry-Effect,
  Reach,
}
use lxmf_rs.Router.Queue.Timeouts.{fail_each_lem}
use lxmf_rs.Router.Queue.Accounts.{most_attempts}
use lxmf_rs.Router.Queue.Attempts.{
  IsOpen, IsOpen-Effect, retry-Effect, budget-Effect, Reach-retry, Reach-IsOpen, Reach-budget,
  accepted,
}
use lxmf_rs.Router.Runtime.{
  LxmfRuntime, RuntimeTick, Collected, Ticking, collect, deliver_due, is_turn, is_due, outbound_job,
  flag_jobs, store_job, peersync_job, inflight_job, request_job, tick, job_outbound_interval,
  job_store_interval, job_peersync_interval, no_tick,
}

-- Nothing at the front of the queue is due.
abbrev pub IsIdle : {fl : Float} → ℕ → List (QueuedMessage fl) → Type 0
IsIdle now_ms q = All (λ item. now_ms < item.next_attempt_at_ms) (take 1 q)

module _ {fl : Float} {S R D : Type 0} (ms : MessageStore fl S)
    (deliver : LxMessage fl → DeliveryMode → LxMessage fl × Result RnsError D)
    (show : RnsError → String) where
  -- How many attempts the loop has collected.
  abbrev pub collected : Collected fl S R D → ℕ
  collected c = length c.1 + length c.2

  pub collect_tried :
      (o : Option (Result RnsError (QueuedDelivery fl D))) (r : RnsRouter fl S R)
      (rest : Collected fl S R D)
      → tries o ≡ 1
      → ((collect ms deliver show o r rest).0 ≡ rest.0)
        × (collected (collect ms deliver show o r rest) ≡ collected rest + 1)
  collect_tried none r rest h = absurd (omega arith)
  collect_tried (some (ok d)) r rest h = (refl, omega arith)
  collect_tried (some (err e)) r rest h = (refl, omega arith)

  acts :
      (r : RnsRouter fl S R) (now_ms : ℕ) (o : Outcome fl S R D)
      → Effect ms deliver show r now_ms o
      → ((o ≡ (r, none)) × IsIdle now_ms r.outbound) ⊎ (tries o.1 ≡ 1)
  acts r now_ms o (waits e w) = inl (e, w)
  acts r now_ms o (hands_out item rest q e f s t p u) = inr t
  acts r now_ms o (retries item later rest q e i a b n f s t p u) = inr t
  acts r now_ms o (gives_up item rest f q e g i s t p u) = inr t

  -- The loop comes to its `break`, and each attempt takes from the budget.
  abbrev Settles : ℕ → ℕ → RnsRouter fl S R → Collected fl S R D → Type 0
  Settles now_ms most r c =
      IsIdle now_ms c.0.outbound × (collected c + budget most c.0.outbound ≤ budget most r.outbound)

  deliver_due-Settles :
      (n most now_ms : ℕ) (r : RnsRouter fl S R)
      → most ≡ most_attempts r.retry
      → r.retry.max_attempts ≤ u32_max
      → All (IsOpen most) r.outbound
      → budget most r.outbound < n
      → Settles now_ms most r (deliver_due ms deliver show n r now_ms)
  unfolding deliver_due
  deliver_due-Settles zero most now_ms r m u h b = absurd (omega arith)
  deliver_due-Settles (suc n) most now_ms r m u h b =
      let e = next_delivery_with_retry-Effect ms deliver show r now_ms in
      let o = next_delivery_with_retry ms deliver show r now_ms in
      elim (acts r now_ms o e) [
        | inl (same, idle) ↦
            subst
              (λ p.
                Settles now_ms most r
                  (collect ms deliver show p.1 p.0 (deliver_due ms deliver show n p.0 now_ms)))
              (sym same) (idle, omega arith)
        | inr tried ↦
            let kept : o.0.retry ≡ r.retry = retry-Effect ms deliver show now_ms r o e in
            let still : All (IsOpen most) o.0.outbound =
              subst (λ k. All (IsOpen k) o.0.outbound) (sym m)
                (IsOpen-Effect ms deliver show now_ms r o e
                  (subst (λ k. All (IsOpen k) r.outbound) m h)) in
            let spent = budget-Effect ms deliver show now_ms most r o e (omega arith) h in
            let rest = deliver_due ms deliver show n o.0 now_ms in
            let (idle, left) =
              deliver_due-Settles n most now_ms o.0 (rw kept m) (rw kept u) still (omega arith) in
            let (same, more) = collect_tried o.1 o.0 rest tried in
            (
              subst (λ x. IsIdle now_ms x.outbound) (sym same) idle,
              omega (arith, left, spent, more, tried, ap (λ x. budget most x.outbound) same),
            )
      ]

  -- A job leaves the queue and what was collected as they are.
  abbrev pub Keeps : Ticking fl S R D → Ticking fl S R D → Type 0
  Keeps a b =
      (b.0.router.outbound ≡ a.0.router.outbound)
      × (b.1.deliveries ≡ a.1.deliveries)
      × (b.1.delivery_errors ≡ a.1.delivery_errors)

  Keeps-trans : (a b c : Ticking fl S R D) → Keeps a b → Keeps b c → Keeps a c
  Keeps-trans a b c h k = (k.0 ∙ h.0, k.1 ∙ h.1, k.2 ∙ h.2)

  store_job-Keeps :
      (now_ms : ℕ) (a : Ticking fl S R D) → Keeps a (store_job ms deliver show now_ms a)
  unfolding store_job
  store_job-Keeps now_ms (rt, t) =
      elim (Bool-cases (is_turn rt.processing_count job_store_interval)) [
        | inl e ↦ elim (Bool-cases (is_due now_ms rt.last_store_ms rt.config.store_interval_ms)) [
          | inl d ↦ rw (e, d) (refl, refl, refl)
          | inr d ↦ rw (e, d) (refl, refl, refl)
        ]
        | inr e ↦ rw e (refl, refl, refl)
      ]

  peersync_job-Keeps :
      (now_ms : ℕ) (a : Ticking fl S R D) → Keeps a (peersync_job ms deliver show now_ms a)
  unfolding peersync_job
  peersync_job-Keeps now_ms (rt, t) =
      elim (Bool-cases (is_turn rt.processing_count job_peersync_interval)) [
        | inl e ↦ elim (Bool-cases (is_due now_ms rt.last_pn_ms rt.config.pn_interval_ms)) [
          | inl d ↦ rw (e, d) (refl, refl, refl)
          | inr d ↦ rw (e, d) (refl, refl, refl)
        ]
        | inr e ↦ rw e (refl, refl, refl)
      ]

  inflight_job-Keeps :
      (now_ms : ℕ) (a : Ticking fl S R D) → Keeps a (inflight_job ms deliver show now_ms a)
  unfolding inflight_job Queue.poll_timeouts
  inflight_job-Keeps now_ms (rt, t) =
      elim (Bool-cases (is_due now_ms rt.last_inflight_ms rt.config.inflight_interval_ms)) [
        | inl d ↦ rw d (
          (fail_each_lem ms rt.router
              (keys ℕ_discrete (retain (is_expired now_ms) rt.router.inflight))).2,
          refl,
          refl,
        )
        | inr d ↦ rw d (refl, refl, refl)
      ]

  request_job-Keeps :
      (now_ms : ℕ) (a : Ticking fl S R D) → Keeps a (request_job ms deliver show now_ms a)
  unfolding request_job
  request_job-Keeps now_ms (rt, t) =
      elim (Bool-cases (is_due now_ms rt.last_request_ms rt.config.request_interval_ms)) [
        | inl d ↦ rw d (refl, refl, refl)
        | inr d ↦ rw d (refl, refl, refl)
      ]

  pub tick-Keeps :
      (fuel : ℕ) (rt : LxmfRuntime fl S R) (now_ms : ℕ)
      → Keeps
          (outbound_job ms deliver show fuel now_ms
            (record rt { processing_count = (rt.processing_count + 1) % 2 ^ 64 }, no_tick))
          (tick ms deliver show fuel rt now_ms)
  unfolding tick flag_jobs
  tick-Keeps fuel rt now_ms =
      let a =
        outbound_job ms deliver show fuel now_ms
          (record rt { processing_count = (rt.processing_count + 1) % 2 ^ 64 }, no_tick) in
      let b = flag_jobs ms deliver show a in
      let c = store_job ms deliver show now_ms b in
      let d = peersync_job ms deliver show now_ms c in
      let e = inflight_job ms deliver show now_ms d in
      let f = request_job ms deliver show now_ms e in
      Keeps-trans a c f (store_job-Keeps now_ms b) (
        Keeps-trans c d f (peersync_job-Keeps now_ms c)
          (Keeps-trans d e f (inflight_job-Keeps now_ms d) (request_job-Keeps now_ms e)))

  pub outbound_job_lem :
      (fuel now_ms : ℕ) (rt : LxmfRuntime fl S R) (t : RuntimeTick fl D)
      → is_due now_ms rt.last_outbound_ms rt.config.outbound_interval_ms ≡ true
      → let c = deliver_due ms deliver show fuel rt.router now_ms in
        outbound_job ms deliver show fuel now_ms (rt, t) ≡ (
          record rt { router = c.0; last_outbound_ms = now_ms },
          record t { outbound_ran = true; deliveries = c.1; delivery_errors = c.2 },
        )
  unfolding outbound_job
  outbound_job_lem fuel now_ms rt t d =
      let turn : is_turn rt.processing_count job_outbound_interval ≡ true = ground arith in
      rw (turn, d) refl

  -- The loop of a tick ends, whatever the delays. After any sequence of calls of `enqueue` and
  -- `next_delivery_with_retry` on a router made of a store, for a policy of at most `u32::MAX`
  -- attempts, if each message that the store had may still be tried, a tick with the outbound interval
  -- over ends within one round more than the attempts that all the messages may have; the message at
  -- the front of the queue is not due after it, and the deliveries and the errors that it reports, with
  -- the attempts made before, stay within that bound.
  pub tick-IsIdle :
      {store : S} {retry : RetryPolicy} (rt : LxmfRuntime fl S R) {issued delivered : List ℕ}
      {attempts : ℕ} (now_ms : ℕ)
      → Reach ms deliver show store retry rt.router issued delivered attempts
      → retry.max_attempts ≤ u32_max
      → All (IsOpen (most_attempts retry)) (ms.load_outbound store)
      → is_due now_ms rt.last_outbound_ms rt.config.outbound_interval_ms ≡ true
      → let bound = accepted ms store issued * most_attempts retry in
        let out = tick ms deliver show (suc bound) rt now_ms in
        IsIdle now_ms out.0.router.outbound
        × (length out.1.deliveries + length out.1.delivery_errors + attempts ≤ bound)
  tick-IsIdle {store} {retry} rt {issued} {attempts = attempts} now_ms h m o d =
      let most = most_attempts retry in
      let n = suc (accepted ms store issued * most) in
      let kept = Reach-retry ms deliver show h in
      let left = Reach-budget ms deliver show h m o in
      let still : All (IsOpen most) rt.router.outbound =
        subst (λ p. All (IsOpen (most_attempts p)) rt.router.outbound) kept
          (Reach-IsOpen ms deliver show h o) in
      let c = deliver_due ms deliver show n rt.router now_ms in
      let (idle, spent) =
        deliver_due-Settles n most now_ms rt.router (rw kept refl) (rw kept m) still
          (omega (arith, left)) in
      let counted = record rt { processing_count = (rt.processing_count + 1) % 2 ^ 64 } in
      let made = outbound_job_lem n now_ms counted no_tick d in
      let (queue, deliveries, errors) = tick-Keeps n rt now_ms in
      let queue' = queue ∙ ap (λ x. x.0.router.outbound) made in
      let deliveries' = deliveries ∙ ap (λ x. x.1.deliveries) made in
      let errors' = errors ∙ ap (λ x. x.1.delivery_errors) made in
      (
        subst (IsIdle now_ms) (sym queue') idle,
        omega (arith, ap length deliveries', ap length errors', spent, left),
      )
