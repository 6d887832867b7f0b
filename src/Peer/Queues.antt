-- ===== src/Peer/Queues.antt =====
-- `process_queues` of lxmf-rs/src/rns/peer.rs: what a peer's two queues say goes into the propagation
-- store.
use lxmf_rs.Prelude.{
  ◌≡◌, refl, ap, ◌∙◌, Bool, false, not, ◌&&◌, ◌||◌, List, [], ◌∷◌, arith, Bytes, Bytes-discrete,
  if◌then◌else◌,
}
use lxmf_rs.Prelude.HashMap.{contains}
use lxmf_rs.Wire.Value.{Float}
use lxmf_rs.Peer.{Peer, queued_items}
use lxmf_rs.Propagation.{
  PropagationStore, has_entry, add_handled_peer, remove_unhandled_peer, add_unhandled_peer,
  is_peer_handled, handled_messages_for_peer, unhandled_messages_for_peer,
}
use lxmf_rs.Propagation.Peers.{is_peer_handled-add-remove}

module _ {fl : Float} (handled unhandled : List Bytes) (peer : Bytes) where
  -- A round of the first loop; `handled` and `unhandled` are what the store said before it.
  unfoldable pub mark_one : PropagationStore fl → Bytes → PropagationStore fl
  mark_one s id =
      let added =
        if contains Bytes-discrete id handled then s else (add_handled_peer s id peer).0 in
      if contains Bytes-discrete id unhandled then remove_unhandled_peer added id peer else added

  unfoldable pub mark_each : PropagationStore fl → List Bytes → PropagationStore fl
  unfolding mark_one
  mark_each s [] = s
  mark_each s (id ∷ ids) = mark_each (mark_one s id) ids

  unfoldable pub offer_one : PropagationStore fl → Bytes → PropagationStore fl
  offer_one s id =
      if not (contains Bytes-discrete id handled) && not (contains Bytes-discrete id unhandled)
      then (add_unhandled_peer s id peer).0
      else s

  unfoldable pub offer_each : PropagationStore fl → List Bytes → PropagationStore fl
  unfolding offer_one
  offer_each s [] = s
  offer_each s (id ∷ ids) = offer_each (offer_one s id) ids

module _ {fl : Float} where
  unfoldable pub process_queues :
      Peer fl.F64 → PropagationStore fl → Peer fl.F64 × PropagationStore fl
  unfolding mark_each offer_each
  process_queues p s =
      let handled = handled_messages_for_peer s p.id in
      let unhandled = unhandled_messages_for_peer s p.id in
      (
        record p { handled_messages_queue = []; unhandled_messages_queue = [] },
        offer_each handled unhandled p.id
            (mark_each handled unhandled p.id s p.handled_messages_queue)
            p.unhandled_messages_queue,
      )

module _ {fl : Float} (handled unhandled : List Bytes) (peer j : Bytes) where
  abbrev new_to : List Bytes → PropagationStore fl → Bool
  new_to ids s =
      has_entry s j && (contains Bytes-discrete j ids && not (contains Bytes-discrete j handled))

  mark_one-has_entry :
      (s : PropagationStore fl) (id : Bytes)
      → has_entry (mark_one handled unhandled peer s id) j ≡ has_entry s j
  unfolding mark_one add_handled_peer remove_unhandled_peer has_entry
  mark_one-has_entry s id = ground arith

  offer_one-is_peer_handled :
      (s : PropagationStore fl) (id : Bytes)
      → is_peer_handled (offer_one handled unhandled peer s id) j peer ≡ is_peer_handled s j peer
  unfolding offer_one add_unhandled_peer is_peer_handled
  offer_one-is_peer_handled s id = ground arith

  remove_unhandled_peer-is_peer_handled :
      (s : PropagationStore fl) (id : Bytes)
      → is_peer_handled (remove_unhandled_peer s id peer) j peer ≡ is_peer_handled s j peer
  unfolding remove_unhandled_peer is_peer_handled
  remove_unhandled_peer-is_peer_handled s id = ground arith

  mark_one-is_peer_handled :
      (s : PropagationStore fl) (id : Bytes)
      → is_peer_handled (mark_one handled unhandled peer s id) j peer
        ≡ (is_peer_handled s j peer || new_to (id ∷ []) s)
  unfolding mark_one contains
  mark_one-is_peer_handled s id =
      let added =
        if contains Bytes-discrete id handled then s else (add_handled_peer s id peer).0 in
      let same_entry : id ≡ j → has_entry s id ≡ has_entry s j = λ e. ap (has_entry s) e in
      let same_known : id ≡ j
          → contains Bytes-discrete id handled ≡ contains Bytes-discrete j handled =
        λ e. ap (λ i. contains Bytes-discrete i handled) e in
      ground (
        arith,
        remove_unhandled_peer-is_peer_handled added id,
        same_entry,
        same_known,
        (is_peer_handled-add-remove s id peer j peer).0,
      )

  mark_each-is_peer_handled :
      (s : PropagationStore fl) (ids : List Bytes)
      → is_peer_handled (mark_each handled unhandled peer s ids) j peer
        ≡ (is_peer_handled s j peer || new_to ids s)
  unfolding mark_each contains
  mark_each-is_peer_handled s [] = ground arith
  mark_each-is_peer_handled s (id ∷ ids) = ground (
    arith,
    mark_each-is_peer_handled (mark_one handled unhandled peer s id) ids,
    mark_one-is_peer_handled s id,
    mark_one-has_entry s id,
  )

  offer_each-is_peer_handled :
      (s : PropagationStore fl) (ids : List Bytes)
      → is_peer_handled (offer_each handled unhandled peer s ids) j peer ≡ is_peer_handled s j peer
  unfolding offer_each
  offer_each-is_peer_handled s [] = refl
  offer_each-is_peer_handled s (id ∷ ids) =
      offer_each-is_peer_handled (offer_one handled unhandled peer s id) ids
      ∙ offer_one-is_peer_handled s id

module _ {fl : Float} where
  -- `process_queues` empties both queues of the peer. After it the peer has a message exactly if it
  -- had it before, or if the message is in the store and stood in the queue of handled messages, and
  -- was not among those of the peer when the call began.
  pub process_queues-is_peer_handled :
      (p : Peer fl.F64) (s : PropagationStore fl) (j : Bytes)
      → let (p', s') = process_queues p s in
        (queued_items p' ≡ false)
        × (is_peer_handled s' j p.id ≡ (
            is_peer_handled s j p.id
            || (has_entry s j
                && (contains Bytes-discrete j p.handled_messages_queue
                    && not (contains Bytes-discrete j (handled_messages_for_peer s p.id))))))
  unfolding process_queues queued_items
  process_queues-is_peer_handled p s j =
      let handled = handled_messages_for_peer s p.id in
      let unhandled = unhandled_messages_for_peer s p.id in
      (
        refl,
        offer_each-is_peer_handled handled unhandled p.id j
              (mark_each handled unhandled p.id s p.handled_messages_queue)
              p.unhandled_messages_queue
            ∙ mark_each-is_peer_handled handled unhandled p.id j s p.handled_messages_queue,
      )
