-- ===== src/Router/Links/Lost.antt =====
-- What becomes of a transfer whose link is closed: `process_link_events` and `clean_links` of
-- lxmf-rs/src/rns/router.rs.
use lxmf_rs.Prelude.{
  ℕ, ◌≡◌, refl, sym, subst, true, false, inl, inr, Option, none, some, List, [], ◌∷◌, ◌++◌, ite,
  arith, Bytes, Bytes-discrete, length, ltb, leb, ◌==◌, ◌||◌, Bool-cases, if◌then◌else◌,
}
use lxmf_rs.Wire.Value.{Float}
use lxmf_rs.Router.Links.{
  LinkTracker, PropagationLinkInfo, LinkEvent, LinkEventData, data_event, activated, closed,
  touch_first, touch_outbound, update_link_activity, add_direct_link, has_direct_link, whole_hash,
  on_data, on_activated, close_outbound, on_closed, on_event, process_link_events, pr_idle,
  pr_link_established, pr_complete, pr_link_failed, pr_transfer_failed,
}
use lxmf_rs.Router.Links.Clean.{
  Transfer, clean_tracker, state_or_idle, failure_of, settle_outbound, acknowledge_sync_completion,
  clean_links,
}
use lxmf_rs.Router.Links.Alive.{process_link_events-append}

-- What every event keeps of the link to a propagation node.
module _ (P : Option PropagationLinkInfo → Type 0) (now_ms : ℕ)
    (touched : (o : Option PropagationLinkInfo) (id : Bytes) → P o → P (touch_outbound o id now_ms))
    (closes : (o : Option PropagationLinkInfo) (id : Bytes) → P o → P (close_outbound o id)) where
  update_link_activity-kept :
      (t : LinkTracker) (id : Bytes)
      → P t.outbound_propagation_link
      → P (update_link_activity t id now_ms).outbound_propagation_link
  unfolding update_link_activity
  update_link_activity-kept t id p =
      elim (Bool-cases (touch_first t.active_propagation_links id now_ms).1) [
        | inl q ↦ rw (q, update_link_activity) p
        | inr q ↦ rw (q, update_link_activity) (touched t.outbound_propagation_link id p)
      ]

  on_event-kept :
      (t : LinkTracker) (k : LinkEvent) (id : Bytes) (hash : Option Bytes)
      → P t.outbound_propagation_link
      → P (on_event t k id hash now_ms).outbound_propagation_link
  unfolding on_event on_data on_activated on_closed add_direct_link
  on_event-kept t data_event id none p = update_link_activity-kept t id p
  on_event-kept t data_event id (some hash) p =
      let once = update_link_activity-kept t id p in
      elim (Bytes-discrete hash id)
        as (λ d.
          P
            (ite d (update_link_activity t id now_ms) (
              update_link_activity (update_link_activity t id now_ms) hash
                now_ms)).outbound_propagation_link) [
                  | yes e ↦ once
                  | no n ↦ update_link_activity-kept (update_link_activity t id now_ms) hash once
                ]
  on_event-kept t activated id none p = p
  on_event-kept t activated id (some hash) p = elim (Bool-cases (has_direct_link t hash)) [
    | inl e ↦ rw (e, on_activated) (update_link_activity-kept t hash p)
    | inr e ↦ rw (e, on_activated) p
  ]
  on_event-kept t closed id hash p = closes t.outbound_propagation_link id p

  process_link_events-kept :
      (t : LinkTracker) (es : List LinkEventData)
      → P t.outbound_propagation_link
      → P (process_link_events t es now_ms).outbound_propagation_link
  unfolding process_link_events
  process_link_events-kept t [] p = p
  process_link_events-kept t (e ∷ es) p = elim (Bool-cases (length e.id == 16)) [
    | inl w ↦
        rw (w, process_link_events)
          (process_link_events-kept (on_event t e.event e.id (whole_hash e.address_hash) now_ms) es
            (on_event-kept t e.event e.id (whole_hash e.address_hash) p))
    | inr w ↦ rw (w, process_link_events) (process_link_events-kept t es p)
  ]

-- The link that has the id.
abbrev IsLink : Bytes → Option PropagationLinkInfo → Type 0
IsLink id none = ⊥
IsLink id (some l) = l.link_id ≡ id

abbrev IsLost : Option PropagationLinkInfo → Type 0
IsLost none = ⊥
IsLost (some l) = l.is_closed ≡ true

touch_outbound-IsLink :
    (i : Bytes) (now_ms : ℕ) (o : Option PropagationLinkInfo) (id : Bytes)
    → IsLink i o
    → IsLink i (touch_outbound o id now_ms)
unfolding touch_outbound
touch_outbound-IsLink i now_ms none id h = elim h [ ]
touch_outbound-IsLink i now_ms (some l) id h = ground arith

touch_outbound-IsLost :
    (now_ms : ℕ) (o : Option PropagationLinkInfo) (id : Bytes)
    → IsLost o
    → IsLost (touch_outbound o id now_ms)
unfolding touch_outbound
touch_outbound-IsLost now_ms none id h = elim h [ ]
touch_outbound-IsLost now_ms (some l) id h = ground arith

close_outbound-IsLink :
    (i : Bytes) (o : Option PropagationLinkInfo) (id : Bytes)
    → IsLink i o
    → IsLink i (close_outbound o id)
unfolding close_outbound
close_outbound-IsLink i none id h = elim h [ ]
close_outbound-IsLink i (some l) id h = ground arith

close_outbound-IsLost :
    (o : Option PropagationLinkInfo) (id : Bytes) → IsLost o → IsLost (close_outbound o id)
unfolding close_outbound
close_outbound-IsLost none id h = elim h [ ]
close_outbound-IsLost (some l) id h = ground arith

close_outbound_gone :
    (o : Option PropagationLinkInfo) (id : Bytes) → IsLink id o → IsLost (close_outbound o id)
unfolding close_outbound
close_outbound_gone none id h = elim h [ ]
close_outbound_gone (some l) id h = ground arith

process_link_events_gone :
    (t : LinkTracker) (e : LinkEventData) (after : List LinkEventData) (now_ms : ℕ)
    → length e.id ≡ 16
    → e.event ≡ closed
    → IsLink e.id t.outbound_propagation_link
    → IsLost (process_link_events t (e ∷ after) now_ms).outbound_propagation_link
unfolding process_link_events
process_link_events_gone t e after now_ms l k h =
    let long : (length e.id == 16) ≡ true = rw l refl in
    let hash = whole_hash e.address_hash in
    rw (long, process_link_events)
      (process_link_events-kept IsLost now_ms (touch_outbound-IsLost now_ms) close_outbound-IsLost
        (on_event t e.event e.id hash now_ms) after
        (subst (λ k. IsLost (on_event t k e.id hash now_ms).outbound_propagation_link) (sym k)
          (unfold on_event on_closed in close_outbound_gone t.outbound_propagation_link e.id h)))

-- How a transfer ends that loses its link.
abbrev pub outcome : ℕ → ℕ
outcome state =
    if ltb state pr_link_established
    then pr_link_failed
    else if ltb state pr_complete
    then pr_transfer_failed
    else if state == pr_complete
    then pr_idle
    else state

settled_state :
    (state : ℕ)
    → (if false || leb state pr_complete then state_or_idle (failure_of state) else state)
      ≡ outcome state
unfolding failure_of
settled_state state = ground arith

module _ {fl : Float} where
  settle_outbound_gone :
      (r : Transfer fl) (o : Option PropagationLinkInfo)
      → IsLost o
      → ((settle_outbound r o).link_tracker.outbound_propagation_link ≡ none)
        × ((settle_outbound r o).propagation_transfer_state ≡ outcome r.propagation_transfer_state)
        × ((settle_outbound r o).propagation_transfer_last_result ≡ none)
  unfolding settle_outbound acknowledge_sync_completion failure_of
  settle_outbound_gone r none h = elim h [ ]
  settle_outbound_gone r (some l) h =
      rw (h, settle_outbound) (refl, settled_state r.propagation_transfer_state, refl)

  -- When the link to a propagation node is closed, whatever other events come with that, the next
  -- cleaning forgets the link and settles the transfer: it failed to get a link if none was
  -- established, it failed if it had one and was not complete, it is idle if it was complete, and a
  -- state behind that stays. The hypotheses are that the event has an id of 16 bytes, that of the
  -- outbound link.
  pub clean_links_closed :
      (r : Transfer fl) (before after : List LinkEventData) (e : LinkEventData)
      (now_ms later_ms : ℕ)
      → length e.id ≡ 16
      → e.event ≡ closed
      → IsLink e.id r.link_tracker.outbound_propagation_link
      → let r' =
          clean_links
            (record r {
              link_tracker = process_link_events r.link_tracker (before ++ e ∷ after) now_ms;
            })
            later_ms in
        (r'.link_tracker.outbound_propagation_link ≡ none)
        × (r'.propagation_transfer_state ≡ outcome r.propagation_transfer_state)
        × (r'.propagation_transfer_last_result ≡ none)
  unfolding clean_links
  clean_links_closed r before after e now_ms later_ms l k h =
      let t = r.link_tracker in
      let t2 = process_link_events t (before ++ e ∷ after) now_ms in
      let link =
        process_link_events-kept (IsLink e.id) now_ms (touch_outbound-IsLink e.id now_ms)
          (close_outbound-IsLink e.id) t before h in
      settle_outbound_gone (record r { link_tracker = clean_tracker t2 later_ms })
        t2.outbound_propagation_link
        (subst (λ x. IsLost x.outbound_propagation_link)
          (sym (process_link_events-append t before (e ∷ after) now_ms))
          (process_link_events_gone (process_link_events t before now_ms) e after now_ms l k link))
