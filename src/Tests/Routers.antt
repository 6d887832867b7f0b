-- ===== src/Tests/Routers.antt =====
-- Examples for lxmf-rs/src/rns/router.rs.
use Prim.Native.String.{String}
use lxmf_rs.Prelude.{
  ℕ, ◌+◌, ◌-◌, ◌*◌, ◌≤◌, ◌<◌, ◌≡◌, refl, not, some, List, [], ◌∷◌, ◌++◌, arith, Bytes,
  Bytes-discrete, ℕ_discrete, All, retain, last, length,
}
use lxmf_rs.Prelude.HashMap.{contains, keys, insert, get}
use lxmf_rs.Message.{LxMessage, new}
use lxmf_rs.Wire.Errors.{Result, ok, err, DeliveryMode, direct, opportunistic, RnsError, reticulum}
use lxmf_rs.Wire.Request.{RnsRequest, RnsResponse}
use lxmf_rs.Wire.Value.{nil}
use lxmf_rs.Router.DeliveredCache.{DeliveredCache, seen_before}
use lxmf_rs.Router.DeliveredCache
use lxmf_rs.Router.DeliveredCache.History.{Unique, run, spec_run, run-new-spec_run}
use lxmf_rs.Router.Requests.{
  RnsRequestManager, PendingRequest, is_pending, record_response, take_response, is_timed_out,
  poll_timeouts, draft,
}
use lxmf_rs.Router.Requests
use lxmf_rs.Router.Requests.Laws.{start, next, registers, poll_timeouts_lem}
use lxmf_rs.Router.Queue.{
  RnsRouter, RetryPolicy, default_retry, enqueue, enqueued, is_expired, retry_delay_ms, created,
}
use lxmf_rs.Router.Queue
use lxmf_rs.Router.Queue.Send.{
  Outcome, next_delivery_with_retry, send_front, send, started, succeed, retry_or_fail, retry_up_to,
  try_again,
}
use lxmf_rs.Router.Queue.Restore.{
  insert_by_id, sort_by_id, restore_one, restore_each, restore_outbound, restored,
}
use lxmf_rs.Router.Queue.Restored.{restore_outbound-fresh}
use lxmf_rs.Router.Queue.Timeouts.{poll_timeouts-is_expired}
use lxmf_rs.Router.Queue.Store.{QueuedMessage, InMemoryStore, in_memory}
use lxmf_rs.Router.Queue.Ledger
use lxmf_rs.Router.Queue.Ledger.{count, outbound_ids, failed_ids, enqueues, sends, sent_ids, tries}
use lxmf_rs.Router.Queue.Accounts.{most_attempts}
use lxmf_rs.Router.Queue.Attempts.{accepted, drain, Reach-drain}
use lxmf_rs.Tests.{toy_float, toy_hashing, codec_of, no_text, hash16, hash32}

-- A cache of two: the third id drives out the first, which is then new again.
abbrev arrivals : List Bytes
arrivals = hash32 1 ∷ hash32 1 ∷ hash32 2 ∷ hash32 3 ∷ hash32 1 ∷ []

run-new-spec_run_example :
    let c = (run (DeliveredCache.new 2) arrivals).0 in
    let log = (spec_run 2 [] arrivals).0 in
    ((run (DeliveredCache.new 2) arrivals).1 ≡ (spec_run 2 [] arrivals).1)
    × (c.order ≡ last 2 log)
    × Unique c.order
    × ((j : Bytes) → seen_before c j ≡ contains Bytes-discrete j (last 2 log))
    × (length c.order ≤ 2)
run-new-spec_run_example = run-new-spec_run 2 arrivals

abbrev request_1 : PendingRequest
request_1 = record {
  request_id = hash16 1;
  path_hash = hash16 0;
  sent_at_ms = 100;
  timeout_ms = 50;
}

abbrev request_2 : PendingRequest
request_2 = record {
  request_id = hash16 2;
  path_hash = hash16 0;
  sent_at_ms = 100;
  timeout_ms = 500;
}

abbrev waiting : RnsRequestManager toy_float
waiting = record { pending = (hash16 2, request_2) ∷ (hash16 1, request_1) ∷ []; responses = [] }

abbrev answer : RnsResponse toy_float
answer = record { request_id = hash16 1; body = nil }

-- The request manager after two requests.
poll_timeouts_lem_example :
    let m = Requests.new {fl = toy_float} in
    let m1 = record m { pending = insert Bytes-discrete (hash16 1) request_1 m.pending } in
    let m2 = record m1 { pending = insert Bytes-discrete (hash16 2) request_2 m1.pending } in
    ((poll_timeouts m2 200).0.pending ≡ retain (λ e. not (is_timed_out 200 e)) m2.pending)
    × ((poll_timeouts m2 200).1 ≡ keys Bytes-discrete (retain (is_timed_out 200) m2.pending))
    × ((poll_timeouts m2 200).0.responses ≡ m2.responses)
poll_timeouts_lem_example =
    poll_timeouts_lem _ 200
      (next (next start (registers (hash16 1) request_1)) (registers (hash16 2) request_2))

abbrev asked : RnsRequest toy_float
asked = draft toy_hashing (codec_of nil) no_text (some "/offer") nil 5000

abbrev hello : LxMessage toy_float
hello = new (hash16 1) (hash16 2)

abbrev bye : LxMessage toy_float
bye = new (hash16 3) (hash16 2)

-- A network that has a path for direct messages only.
abbrev deliver : LxMessage toy_float → DeliveryMode → LxMessage toy_float × Result RnsError ℕ
deliver m direct = (m, ok 1)
deliver m _ = (m, err (reticulum "down"))

abbrev show : RnsError → String
show e = "failed"

-- A store with a message that an earlier run left in it.
abbrev left : QueuedMessage toy_float
left = record { id = 7; message = hello; mode = direct; attempts = 1; next_attempt_at_ms = 900 }

abbrev left_store : InMemoryStore toy_float
left_store = record { outbound = left ∷ []; inbound = []; failed = [] }

-- What `with_store` makes of it.
abbrev fresh : RnsRouter toy_float (InMemoryStore toy_float) Unit
fresh = restored in_memory left_store default_retry

abbrev queued_1 : RnsRouter toy_float (InMemoryStore toy_float) Unit × ℕ
queued_1 = enqueue in_memory fresh hello direct

abbrev queued_2 : RnsRouter toy_float (InMemoryStore toy_float) Unit × ℕ
queued_2 = enqueue in_memory queued_1.0 bye opportunistic

-- The message of the store leaves, and then the first of the two new ones; the
-- second one fails and waits.
abbrev sent_1 : Outcome toy_float (InMemoryStore toy_float) Unit ℕ
sent_1 = next_delivery_with_retry in_memory deliver show queued_2.0 10

abbrev sent_2 : Outcome toy_float (InMemoryStore toy_float) Unit ℕ
sent_2 = next_delivery_with_retry in_memory deliver show sent_1.0 20

abbrev sent_3 : Outcome toy_float (InMemoryStore toy_float) Unit ℕ
sent_3 = next_delivery_with_retry in_memory deliver show sent_2.0 30

abbrev all_issued : List ℕ
all_issued = queued_2.1 ∷ queued_1.1 ∷ []

abbrev all_delivered : List ℕ
all_delivered = sent_ids sent_3.1 ++ (sent_ids sent_2.1 ++ (sent_ids sent_1.1 ++ []))

abbrev all_attempts : ℕ
all_attempts = tries sent_3.1 + (tries sent_2.1 + (tries sent_1.1 + 0))

history :
    Ledger.Reach in_memory deliver show left_store default_retry sent_3.0 all_issued all_delivered
      all_attempts
history =
    sends 30 (sends 20 (sends 10 (enqueues bye opportunistic (enqueues hello direct Ledger.start))))

Reach-drain_example :
    let bound = accepted in_memory left_store all_issued * most_attempts default_retry in
    (all_attempts ≤ bound)
    × ((drain in_memory deliver show (bound - all_attempts) sent_3.0).outbound ≡ [])
unfolding in_memory
Reach-drain_example =
    Reach-drain in_memory deliver show history (omega arith) ((omega arith, omega arith), tt)

-- A router over the store that the first one left: the last message is there twice.
abbrev restarted : RnsRouter toy_float (InMemoryStore toy_float) Unit
restarted = created sent_3.0.store default_retry

restore_outbound-fresh_example :
    All
      (λ m. m.id < (restore_outbound in_memory restarted).next_id)
      (restore_outbound in_memory restarted).outbound
    × ((i : ℕ)
        → count i (outbound_ids (restore_outbound in_memory restarted).outbound)
          ≡ count i (outbound_ids restarted.outbound)
            + count i (outbound_ids (in_memory.load_outbound restarted.store)))
unfolding created restored restore_outbound sort_by_id insert_by_id restore_one restore_each
    in_memory enqueue enqueued next_delivery_with_retry send_front send started succeed
    retry_or_fail retry_up_to try_again
restore_outbound-fresh_example = restore_outbound-fresh in_memory restarted tt (omega arith)

restored_twice : count 9 (outbound_ids (in_memory.load_outbound restarted.store)) ≡ 2
unfolding created restored restore_outbound sort_by_id insert_by_id restore_one restore_each
    in_memory enqueue enqueued next_delivery_with_retry send_front send started succeed
    retry_or_fail retry_up_to try_again
restored_twice = refl

abbrev flying : RnsRouter toy_float (InMemoryStore toy_float) Unit
flying = record fresh {
  inflight =
      (4, record { id = 4; message = hello; sent_at_ms = 100; timeout_ms = 50 })
      ∷ (5, record { id = 5; message = bye; sent_at_ms = 100; timeout_ms = 500 })
      ∷ [];
}

poll_timeouts-is_expired_example :
    ((Queue.poll_timeouts in_memory flying 200).0.inflight
      ≡ retain (λ e. not (is_expired 200 e)) flying.inflight)
    × (failed_ids (Queue.poll_timeouts in_memory flying 200).1
        ≡ keys ℕ_discrete (retain (is_expired 200) flying.inflight))
    × ((Queue.poll_timeouts in_memory flying 200).0.failed
        ≡ flying.failed ++ (Queue.poll_timeouts in_memory flying 200).1)
    × ((Queue.poll_timeouts in_memory flying 200).0.outbound ≡ flying.outbound)
unfolding get ℕ_discrete
poll_timeouts-is_expired_example = poll_timeouts-is_expired in_memory flying 200 (refl, (refl, tt))
