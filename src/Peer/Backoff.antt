-- ===== src/Peer/Backoff.antt =====
-- The backoff of a peer that fails again and again, and when a peer is due.
use lxmf_rs.Prelude.{
  ℕ, ◌+◌, ◌*◌, ◌≤◌, ◌≡◌, refl, min, Bool, true, false, Option, none, some, List, [], ◌∷◌, arith,
  leb, length, u32_max, saturating_add64, ap, ◌∙◌,
}
use lxmf_rs.Sync.{PeerSyncResponse, error, bool, id_list, payload}
use lxmf_rs.Peer.{
  Peer, idle, backoff, peer_backoff_step_ms, peer_backoff_max_ms, next_backoff_ms, on_failure,
  on_offer_sent, on_offer_response, should_sync,
}

-- A run of failures at the given times.
abbrev pub fail_all : {F : Type 0} → Peer F → List ℕ → Peer F
fail_all p [] = p
fail_all p (now_ms ∷ times) = fail_all (on_failure p now_ms) times

abbrev pub backoff_after : ℕ → ℕ
backoff_after n = min (n * peer_backoff_step_ms) peer_backoff_max_ms

next_backoff_ms-backoff_after : (k : ℕ) → next_backoff_ms (backoff_after k) ≡ backoff_after (k + 1)
unfolding next_backoff_ms
next_backoff_ms-backoff_after k = ground arith

abbrev pub is_due : Option ℕ → ℕ → Bool
is_due none now_ms = false
is_due (some from_ms) now_ms = leb from_ms now_ms

module _ {F : Type 0} where
  fail_all_from :
      (k : ℕ) (p : Peer F) (times : List ℕ)
      → p.backoff_ms ≡ backoff_after k
      → p.failures ≤ u32_max
      → ((fail_all p times).backoff_ms ≡ backoff_after (k + length times))
        × ((fail_all p times).failures ≡ min (p.failures + length times) u32_max)
  unfolding on_failure
  fail_all_from k p [] h f = omega arith
  fail_all_from k p (now_ms ∷ times) h f =
      let e : next_backoff_ms p.backoff_ms ≡ backoff_after (k + 1) =
        rw h (next_backoff_ms-backoff_after k) in
      let (b, c) = fail_all_from (k + 1) (on_failure p now_ms) times e (omega arith) in
      (omega arith, omega arith)

  -- After `n` failures in a row of a peer with no backoff, and one more at `now_ms`, the backoff is
  -- `n + 1` steps of twelve minutes, at most fourteen days, and the next sync is due that long after
  -- the last failure, in saturating arithmetic; the count of failures saturates at `u32::MAX`.
  pub on_failure-backoff_after :
      (p : Peer F) (times : List ℕ) (now_ms : ℕ)
      → p.backoff_ms ≡ 0
      → p.failures ≤ u32_max
      → let q = on_failure (fail_all p times) now_ms in
        let wait = backoff_after (length times + 1) in
        (q.backoff_ms ≡ wait)
        × (q.next_sync_ms ≡ saturating_add64 now_ms wait)
        × (q.failures ≡ min (p.failures + length times + 1) u32_max)
        × (q.state ≡ backoff)
  unfolding on_failure
  on_failure-backoff_after p times now_ms h f =
      let (b, c) = fail_all_from 0 p times (omega arith) f in
      let b' : (fail_all p times).backoff_ms ≡ backoff_after (length times) = omega arith in
      let e : next_backoff_ms (fail_all p times).backoff_ms ≡ backoff_after (length times + 1) =
        rw b' (next_backoff_ms-backoff_after (length times)) in
      (e, rw e, omega arith, refl)

  -- The abstract view of a peer's schedule: `none` while an exchange runs, and the time from which
  -- a new sync may start otherwise.
  abbrev pub wakes_at : Peer F → Option ℕ
  wakes_at p = elim p.state [
    | idle ↦ some p.next_sync_ms
    | backoff ↦ some p.next_sync_ms
    | _ ↦ none
  ]

  abbrev pub wakes_after : Peer F → PeerSyncResponse → ℕ → Option ℕ
  wakes_after p (bool true) now_ms = none
  wakes_after p (id_list ids) now_ms = none
  wakes_after p (bool false) now_ms = some now_ms
  wakes_after p (payload items) now_ms = some now_ms
  wakes_after p (error code) now_ms = some (saturating_add64 now_ms (next_backoff_ms p.backoff_ms))

  pub should_sync-is_due :
      (p : Peer F) (now_ms : ℕ) → should_sync p now_ms ≡ is_due (wakes_at p) now_ms
  unfolding should_sync
  should_sync-is_due p now_ms = ground arith

  wakes_at-on_offer_response :
      (p : Peer F) (r : PeerSyncResponse) (now_ms : ℕ)
      → wakes_at (on_offer_response p r now_ms) ≡ wakes_after p r now_ms
  unfolding on_offer_response
  wakes_at-on_offer_response p (bool true) now_ms = refl
  wakes_at-on_offer_response p (bool false) now_ms = refl
  wakes_at-on_offer_response p (id_list ids) now_ms = refl
  wakes_at-on_offer_response p (payload items) now_ms = refl
  wakes_at-on_offer_response p (error code) now_ms = refl

  -- Once an offer is out the peer is due at no time, and the response to the offer settles when it
  -- is due again: at no time if messages are to follow, from now on if there is nothing to send, and
  -- after the next backoff if the response is an error.
  pub should_sync-on_offer_response :
      (p : Peer F) (r : PeerSyncResponse) (sent_ms now_ms later_ms : ℕ)
      → let q = on_offer_sent p sent_ms in
        (should_sync q later_ms ≡ false)
        × (should_sync (on_offer_response q r now_ms) later_ms
            ≡ is_due (wakes_after p r now_ms) later_ms)
  unfolding on_offer_sent
  should_sync-on_offer_response p r sent_ms now_ms later_ms = (
    should_sync-is_due _ later_ms,
    should_sync-is_due _ later_ms
        ∙ ap (λ w. is_due w later_ms)
            (wakes_at-on_offer_response (on_offer_sent p sent_ms) r now_ms ∙ same r),
  )
    where
      same :
          (r : PeerSyncResponse)
          → wakes_after (on_offer_sent p sent_ms) r now_ms ≡ wakes_after p r now_ms
      same (bool true) = refl
      same (bool false) = refl
      same (id_list ids) = refl
      same (payload items) = refl
      same (error code) = refl
