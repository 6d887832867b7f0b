-- ===== src/Router/Requests/Laws.antt =====
-- The life of a request: registered, then answered once or timed out.
use Prim.Native.String.{String}
use lxmf_rs.Prelude.{
  ℕ, ◌≡◌, refl, Bool, true, false, not, none, some, inl, inr, List, arith, Bytes, Bytes-discrete,
  Option-cases, retain,
}
use lxmf_rs.Prelude.HashMap.{
  get, insert, remove, has, keys, remove_all, Distinct, get-remove_self, get-insert_self,
  remove-Distinct, insert-Distinct, remove_all-keys-retain, retain-Distinct,
}
use lxmf_rs.Wire.Request.{RnsResponse}
use lxmf_rs.Wire.Value.{Value, Float}
use lxmf_rs.Router.Requests.{
  RnsRequestManager, PendingRequest, is_pending, record_response, take_response, is_timed_out,
  poll_timeouts, new,
}

-- No id twice, in both tables, and no id in both.
pub record IsManager {fl : Float} (m : RnsRequestManager fl) : Type 0 where
  pub pending_distinct : Distinct Bytes-discrete m.pending
  pub responses_distinct : Distinct Bytes-discrete m.responses

remove_all-Distinct :
    (p : Bytes × PendingRequest → Bool) (m : List (Bytes × PendingRequest))
    → Distinct Bytes-discrete m
    → Distinct Bytes-discrete (remove_all Bytes-discrete (keys Bytes-discrete (retain p m)) m)
remove_all-Distinct p m d =
    rw (remove_all-keys-retain Bytes-discrete p m d) (retain-Distinct Bytes-discrete _ m d)

module _ {fl : Float} where
  record_known :
      (m : RnsRequestManager fl) (r : RnsResponse fl) (q : PendingRequest)
      → get Bytes-discrete r.request_id m.pending ≡ some q
      → record_response m r ≡ (
        record {
          pending = remove Bytes-discrete r.request_id m.pending;
          responses = insert Bytes-discrete r.request_id r m.responses;
        },
        true,
      )
  unfolding record_response
  record_known m r q e = rw (e, record_response)

  -- The response to a pending request is stored and is taken once; after that the request is not
  -- pending, a second response under its id is refused and changes nothing.
  pub record_response_once :
      (m : RnsRequestManager fl) (r late : RnsResponse fl)
      → is_pending m r.request_id ≡ true
      → late.request_id ≡ r.request_id
      → let (m', stored) = record_response m r in
        let (m'', found) = take_response m' r.request_id in
        (stored ≡ true)
        × (is_pending m' r.request_id ≡ false)
        × (found ≡ some r)
        × ((take_response m'' r.request_id).1 ≡ none)
        × (record_response m' late ≡ (m', false))
  unfolding is_pending has take_response record_response
  record_response_once m r late p e = ground (
    arith,
    get-remove_self Bytes-discrete r.request_id m.pending,
    get-insert_self Bytes-discrete r.request_id r m.responses,
    get-remove_self Bytes-discrete r.request_id (insert Bytes-discrete r.request_id r m.responses),
  )

  record_unknown :
      (m : RnsRequestManager fl) (r : RnsResponse fl)
      → get Bytes-discrete r.request_id m.pending ≡ none
      → record_response m r ≡ (m, false)
  unfolding record_response
  record_unknown m r e = rw (e, record_response)

  -- What the manager of a node goes through. An outgoing request stands by its pending entry.
  pub data Step (m : RnsRequestManager fl) : RnsRequestManager fl → Type 0 where
    registers :
        (id : Bytes) (q : PendingRequest)
        → Step m (record m { pending = insert Bytes-discrete id q m.pending })
    records : (r : RnsResponse fl) → Step m (record_response m r).0
    takes : (id : Bytes) → Step m (take_response m id).0
    polls : (now_ms : ℕ) → Step m (poll_timeouts m now_ms).0

  pub data Reach : RnsRequestManager fl → Type 0 where
    start : Reach new
    next : {m n : RnsRequestManager fl} → Reach m → Step m n → Reach n

  record_response-IsManager :
      (m : RnsRequestManager fl) (r : RnsResponse fl)
      → IsManager m
      → IsManager (record_response m r).0
  record_response-IsManager m r v =
      elim (Option-cases (get Bytes-discrete r.request_id m.pending)) [
        | inl e ↦ rw (record_unknown m r e) v
        | inr (q, e) ↦ rw (record_known m r q e) (record {
          pending_distinct =
              remove-Distinct Bytes-discrete r.request_id m.pending v.pending_distinct;
          responses_distinct =
              insert-Distinct Bytes-discrete r.request_id r m.responses v.responses_distinct;
        })
      ]

  Step-IsManager : {m n : RnsRequestManager fl} → Step m n → IsManager m → IsManager n
  unfolding take_response poll_timeouts
  Step-IsManager {m} (registers id q) v = record {
    pending_distinct = insert-Distinct Bytes-discrete id q m.pending v.pending_distinct;
    responses_distinct = v.responses_distinct;
  }
  Step-IsManager {m} (records r) v = record_response-IsManager m r v
  Step-IsManager {m} (takes id) v = record {
    pending_distinct = v.pending_distinct;
    responses_distinct = remove-Distinct Bytes-discrete id m.responses v.responses_distinct;
  }
  Step-IsManager {m} (polls now_ms) v = record {
    pending_distinct = remove_all-Distinct (is_timed_out now_ms) m.pending v.pending_distinct;
    responses_distinct = v.responses_distinct;
  }

  Reach-IsManager : {m : RnsRequestManager fl} → Reach m → IsManager m
  unfolding new
  Reach-IsManager start = record { pending_distinct = tt; responses_distinct = tt }
  Reach-IsManager (next r s) = Step-IsManager s (Reach-IsManager r)

  -- After any history from a new manager, `poll_timeouts` reports the ids of the requests whose time is
  -- up, drops exactly those, keeps all others in place, and touches no response.
  pub poll_timeouts_lem :
      (m : RnsRequestManager fl) (now_ms : ℕ)
      → Reach m
      → let (m', timed_out) = poll_timeouts m now_ms in
        (m'.pending ≡ retain (λ e. not (is_timed_out now_ms e)) m.pending)
        × (timed_out ≡ keys Bytes-discrete (retain (is_timed_out now_ms) m.pending))
        × (m'.responses ≡ m.responses)
  unfolding poll_timeouts
  poll_timeouts_lem m now_ms r =
      let v : IsManager m = Reach-IsManager r in
      (
        remove_all-keys-retain Bytes-discrete (is_timed_out now_ms) m.pending v.pending_distinct,
        refl,
        refl,
      )
