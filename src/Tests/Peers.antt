-- ===== src/Tests/Peers.antt =====
-- Examples for lxmf-rs/src/rns/peer.rs.
use lxmf_rs.Prelude.{
  ℕ, ◌+◌, ◌≡◌, refl, false, [], ◌∷◌, arith, length, min, Bytes-discrete, u32_max, saturating_add64,
}
use lxmf_rs.Sync.{error}
use lxmf_rs.Peer.{
  Peer, backoff, new, on_failure, on_offer_sent, on_offer_response, on_timeout, should_sync,
}
use lxmf_rs.Peer.Backoff.{
  fail_all, backoff_after, is_due, wakes_after, on_failure-backoff_after,
  should_sync-on_offer_response,
}
use lxmf_rs.Peer.Lifecycle.{
  here, next, responds, times_out, IsSane, counters, new-IsSane, Reach-IsSane,
}
use lxmf_rs.Peer.Table.{PeerTable, IsTable, Picks, next_ready, next_ready-Picks}
use lxmf_rs.Prelude.HashMap.{get}
use lxmf_rs.Tests.{hash16}

abbrev one_peer : Peer ℕ
one_peer = new 0 (hash16 1) 1000

on_failure-backoff_after_example :
    let q = on_failure (fail_all one_peer (5000 ∷ 6000 ∷ [])) 7000 in
    let wait = backoff_after (length {A = ℕ} (5000 ∷ 6000 ∷ []) + 1) in
    (q.backoff_ms ≡ wait)
    × (q.next_sync_ms ≡ saturating_add64 7000 wait)
    × (q.failures ≡ min (one_peer.failures + length {A = ℕ} (5000 ∷ 6000 ∷ []) + 1) u32_max)
    × (q.state ≡ backoff)
unfolding new
on_failure-backoff_after_example =
    on_failure-backoff_after one_peer (5000 ∷ 6000 ∷ []) 7000 refl (omega arith)

should_sync-on_offer_response_example :
    let q = on_offer_sent one_peer 2000 in
    (should_sync q 9000 ≡ false)
    × (should_sync (on_offer_response q (error 1) 3000) 9000
        ≡ is_due (wakes_after one_peer (error 1) 3000) 9000)
should_sync-on_offer_response_example =
    should_sync-on_offer_response one_peer (error 1) 2000 3000 9000

-- Offered, refused, timed out.
Reach-IsSane_example :
    let q = on_failure (on_offer_response one_peer (error 1) 3000) 4000 in
    IsSane q × (counters q ≡ counters one_peer)
unfolding on_timeout
Reach-IsSane_example =
    Reach-IsSane (new-IsSane {F = ℕ} 0 (hash16 1) 1000 (omega arith))
      (next (next here (responds (error 1) 3000 (omega arith))) (times_out 4000))

abbrev two_peers : PeerTable ℕ
two_peers = record {
  peers = (hash16 1, new 0 (hash16 1) 9000) ∷ (hash16 2, new 0 (hash16 2) 1000) ∷ [];
}

two_peers-IsTable : IsTable two_peers
unfolding new get Bytes-discrete
two_peers-IsTable = record { distinct = (refl, (refl, tt)); keyed = (refl, (refl, tt)) }

next_ready-Picks_example : Picks two_peers.peers 9500 (next_ready two_peers 9500)
next_ready-Picks_example = next_ready-Picks two_peers 9500 two_peers-IsTable
