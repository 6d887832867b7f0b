-- ===== src/Tests/Propagations.antt =====
-- Examples for `PropagationStore` of lxmf-rs/src/rns/storage.rs.
use lxmf_rs.Prelude.{ℕ, ◌+◌, ◌-◌, ◌≡◌, false, not, ◌&&◌, ◌||◌, Bytes-discrete, none, length, retain}
use lxmf_rs.Propagation.{
  PropagationStore, PropagationEntry, new, insert_with_stamp_value_and_filename, remove_older_than,
  is_old, is_peer_handled, has_entry, handled_messages_for_peer,
}
use lxmf_rs.Prelude.HashMap.{contains}
use lxmf_rs.Peer.{Peer, queued_items, queue_handled_message}
use lxmf_rs.Peer
use lxmf_rs.Peer.Queues.{process_queues, process_queues-is_peer_handled}
use lxmf_rs.Propagation.Tables.{
  Reach, start, next, inserts, ages, IsStore, Reach-IsStore, remove_older_than-is_old,
}
use lxmf_rs.Tests.{toy_float, hash16, hash32}

abbrev entry_at : ℕ → ℕ → PropagationEntry toy_float
entry_at n time = record {
  transient_id = hash32 n;
  lxm_data = hash16 n;
  timestamp = time;
  destination_hash = none;
  filepath = none;
  msg_size = none;
}

abbrev one : PropagationStore toy_float
one = insert_with_stamp_value_and_filename new (entry_at 1 10) 5 "a"

abbrev two : PropagationStore toy_float
two = insert_with_stamp_value_and_filename one (entry_at 2 90) 6 "b"

-- Two messages come in.
two-Reach : Reach two
two-Reach = next (next start (inserts (entry_at 1 10) 5 "a")) (inserts (entry_at 2 90) 6 "b")

Reach-IsStore_example : IsStore (remove_older_than two 100000 60000).0
Reach-IsStore_example = Reach-IsStore (next two-Reach (ages 100000 60000))

-- The first message is older than a minute, the second is not.
remove_older_than-is_old_example :
    ((remove_older_than two 100000 60000).0.entries
      ≡ retain (λ e. not (is_old (100000 - 60000) e)) two.entries)
    × (length (remove_older_than two 100000 60000).0.entries
          + (remove_older_than two 100000 60000).1
        ≡ length two.entries)
remove_older_than-is_old_example = remove_older_than-is_old two 100000 60000 two-Reach

-- A peer that has the first message.
abbrev holder : Peer ℕ
holder = queue_handled_message (Peer.new 0 (hash16 7) 0) (hash32 1)

process_queues-is_peer_handled_example :
    let (p', s') = process_queues holder two in
    (queued_items p' ≡ false)
    × (is_peer_handled s' (hash32 1) holder.id ≡ (
        is_peer_handled two (hash32 1) holder.id
        || (has_entry two (hash32 1)
            && (contains Bytes-discrete (hash32 1) holder.handled_messages_queue
                && not (
                    contains Bytes-discrete
                      (hash32 1)
                      (handled_messages_for_peer two holder.id))))))
process_queues-is_peer_handled_example = process_queues-is_peer_handled holder two (hash32 1)
