-- ===== src/Router/Runtime.antt =====
-- `LxmfRuntime` of lxmf-rs/src/rns/router.rs: the jobs that a tick of the clock runs, over the queue of
-- outbound messages and the pending requests.
pub mod Due
pub mod Front
use Prim.Native.String.{String}
use lxmf_rs.Prelude.{
  ℕ, zero, suc, ◌+◌, ◌-◌, ◌*◌, ◌%◌, ◌^◌, Bool, true, false, Option, none, some, List, [], ◌∷◌,
  Bytes, leb, ◌==◌, ◌&&◌, if◌then◌else◌,
}
use lxmf_rs.Message.{LxMessage}
use lxmf_rs.Wire.Errors.{Result, ok, err, DeliveryMode, RnsError}
use lxmf_rs.Wire.Value.{Float}
use lxmf_rs.Sync.{PeerSyncRequest}
use lxmf_rs.Router.Queue.Store.{FailedDelivery, MessageStore}
use lxmf_rs.Router.Queue.{RnsRouter, QueuedDelivery}
use lxmf_rs.Router.Queue
use lxmf_rs.Router.Queue.Send.{next_delivery_with_retry}
use lxmf_rs.Router.Requests.{RnsRequestManager}
use lxmf_rs.Router.Requests

-- How many ticks from one run of a job to the next.
abbrev pub job_outbound_interval : ℕ
job_outbound_interval = 1

abbrev pub job_stamps_interval : ℕ
job_stamps_interval = 1

abbrev pub job_links_interval : ℕ
job_links_interval = 1

abbrev pub job_transient_interval : ℕ
job_transient_interval = 60

abbrev pub job_store_interval : ℕ
job_store_interval = 120

abbrev pub job_peersync_interval : ℕ
job_peersync_interval = 6

abbrev pub job_peeringest_interval : ℕ
job_peeringest_interval = 6

abbrev pub job_rotate_interval : ℕ
job_rotate_interval = 56 * job_peeringest_interval

pub record RuntimeConfig : Type 0 where
  pub outbound_interval_ms : ℕ
  pub inflight_interval_ms : ℕ
  pub request_interval_ms : ℕ
  pub pn_interval_ms : ℕ
  pub store_interval_ms : ℕ
  pub name : Option String
  pub autopeer : Option Bool

abbrev pub default_config : RuntimeConfig
default_config = record {
  outbound_interval_ms = 1000;
  inflight_interval_ms = 1000;
  request_interval_ms = 1000;
  pn_interval_ms = 5000;
  store_interval_ms = 8 * 60 * 1000;
  name = none;
  autopeer = none;
}

pub record RuntimeTick (fl : Float) (D : Type 0) : Type 0 where
  pub deliveries : List (QueuedDelivery fl D)
  pub delivery_errors : List String
  pub inflight_failures : List (FailedDelivery fl)
  pub request_timeouts : List Bytes
  pub peer_sync_requests : List (Bytes × PeerSyncRequest fl.F64)
  pub pn_ran : Bool
  pub outbound_ran : Bool
  pub stamps_ran : Bool
  pub links_ran : Bool
  pub transient_ran : Bool
  pub store_ran : Bool
  pub peeringest_ran : Bool
  pub rotate_ran : Bool
  pub peersync_ran : Bool

-- `RuntimeTick::default()`.
unfoldable pub no_tick : {fl : Float} {D : Type 0} → RuntimeTick fl D
no_tick = record {
  deliveries = [];
  delivery_errors = [];
  inflight_failures = [];
  request_timeouts = [];
  peer_sync_requests = [];
  pn_ran = false;
  outbound_ran = false;
  stamps_ran = false;
  links_ran = false;
  transient_ran = false;
  store_ran = false;
  peeringest_ran = false;
  rotate_ran = false;
  peersync_ran = false;
}

pub record LxmfRuntime (fl : Float) (S R : Type 0) : Type 0 where
  pub router : RnsRouter fl S R
  pub requests : RnsRequestManager fl
  pub config : RuntimeConfig
  pub last_outbound_ms : ℕ
  pub last_inflight_ms : ℕ
  pub last_request_ms : ℕ
  pub last_pn_ms : ℕ
  pub last_store_ms : ℕ
  pub processing_count : ℕ

unfoldable pub with_config :
    {fl : Float} {S R : Type 0} → RnsRouter fl S R → RuntimeConfig → LxmfRuntime fl S R
with_config router config = record {
  router = router;
  requests = Requests.new;
  config = config;
  last_outbound_ms = 0;
  last_inflight_ms = 0;
  last_request_ms = 0;
  last_pn_ms = 0;
  last_store_ms = 0;
  processing_count = 0;
}

-- `processing_count % interval == 0`.
abbrev pub is_turn : ℕ → ℕ → Bool
is_turn count interval = count % interval == 0

-- `now_ms.saturating_sub(last) >= interval`.
abbrev pub is_due : ℕ → ℕ → ℕ → Bool
is_due now_ms last interval = leb interval (now_ms - last)

-- What the loop of the outbound job has collected: the router, the deliveries and the errors.
abbrev pub Collected : Float → Type 0 → Type 0 → Type 0 → Type 0
Collected fl S R D = RnsRouter fl S R × List (QueuedDelivery fl D) × List String

-- The runtime and what a tick reports.
abbrev pub Ticking : Float → Type 0 → Type 0 → Type 0 → Type 0
Ticking fl S R D = LxmfRuntime fl S R × RuntimeTick fl D

module _ {fl : Float} {S R D : Type 0} (ms : MessageStore fl S)
    (deliver : LxMessage fl → DeliveryMode → LxMessage fl × Result RnsError D)
    (show : RnsError → String) where
  -- One `match`, with what the rest of the loop collects; `None` breaks.
  abbrev pub collect :
      Option (Result RnsError (QueuedDelivery fl D))
      → RnsRouter fl S R
      → Collected fl S R D
      → Collected fl S R D
  collect none r rest = (r, [], [])
  collect (some (ok delivery)) r (r', deliveries, errors) = (r', delivery ∷ deliveries, errors)
  collect (some (err e)) r (r', deliveries, errors) = (r', deliveries, show e ∷ errors)

  -- The loop, for at most `fuel` rounds.
  unfoldable pub deliver_due : ℕ → RnsRouter fl S R → ℕ → Collected fl S R D
  unfolding next_delivery_with_retry
  deliver_due zero r now_ms = (r, [], [])
  deliver_due (suc fuel) r now_ms =
      let o = next_delivery_with_retry ms deliver show r now_ms in
      collect o.1 o.0 (deliver_due fuel o.0 now_ms)

  unfoldable pub outbound_job : ℕ → ℕ → Ticking fl S R D → Ticking fl S R D
  unfolding deliver_due
  outbound_job fuel now_ms (rt, t) =
      if is_turn rt.processing_count job_outbound_interval
      then (if is_due now_ms rt.last_outbound_ms rt.config.outbound_interval_ms
          then (let out = deliver_due fuel rt.router now_ms in
              (
                record rt { router = out.0; last_outbound_ms = now_ms },
                record t { outbound_ran = true; deliveries = out.1; delivery_errors = out.2 },
              ))
          else (rt, record t { outbound_ran = true }))
      else (rt, t)

  -- The flags of the jobs that only run elsewhere.
  unfoldable pub flag_jobs : Ticking fl S R D → Ticking fl S R D
  flag_jobs (rt, t) = (
    rt,
    record t {
      stamps_ran = is_turn rt.processing_count job_stamps_interval;
      links_ran = is_turn rt.processing_count job_links_interval;
      transient_ran = is_turn rt.processing_count job_transient_interval;
      peeringest_ran = is_turn rt.processing_count job_peeringest_interval;
      rotate_ran = is_turn rt.processing_count job_rotate_interval;
    },
  )

  unfoldable pub store_job : ℕ → Ticking fl S R D → Ticking fl S R D
  store_job now_ms (rt, t) =
      if is_turn rt.processing_count job_store_interval
      then (
        if is_due now_ms rt.last_store_ms rt.config.store_interval_ms
            then record rt { last_store_ms = now_ms }
            else rt,
        record t { store_ran = true },
      )
      else (rt, t)

  unfoldable pub peersync_job : ℕ → Ticking fl S R D → Ticking fl S R D
  peersync_job now_ms (rt, t) =
      if is_turn rt.processing_count job_peersync_interval
      then (if is_due now_ms rt.last_pn_ms rt.config.pn_interval_ms
          then (record rt { last_pn_ms = now_ms }, record t { peersync_ran = true; pn_ran = true })
          else (rt, record t { peersync_ran = true }))
      else (rt, t)

  unfoldable pub inflight_job : ℕ → Ticking fl S R D → Ticking fl S R D
  unfolding Queue.poll_timeouts
  inflight_job now_ms (rt, t) =
      if is_due now_ms rt.last_inflight_ms rt.config.inflight_interval_ms
      then (let out = Queue.poll_timeouts ms rt.router now_ms in
          (
            record rt { router = out.0; last_inflight_ms = now_ms },
            record t { inflight_failures = out.1 },
          ))
      else (rt, t)

  unfoldable pub request_job : ℕ → Ticking fl S R D → Ticking fl S R D
  unfolding Requests.poll_timeouts
  request_job now_ms (rt, t) =
      if is_due now_ms rt.last_request_ms rt.config.request_interval_ms
      then (let out = Requests.poll_timeouts rt.requests now_ms in
          (
            record rt { requests = out.0; last_request_ms = now_ms },
            record t { request_timeouts = out.1 },
          ))
      else (rt, t)

  -- `processing_count` wraps.
  unfoldable pub tick : ℕ → LxmfRuntime fl S R → ℕ → Ticking fl S R D
  unfolding outbound_job flag_jobs store_job peersync_job inflight_job request_job no_tick
  tick fuel rt now_ms =
      let counted = record rt { processing_count = (rt.processing_count + 1) % 2 ^ 64 } in
      request_job now_ms (
        inflight_job now_ms (
          peersync_job now_ms
            (store_job now_ms (flag_jobs (outbound_job fuel now_ms (counted, no_tick))))))
