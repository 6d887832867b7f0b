-- ===== src/Router/Links.antt =====
-- The links that a router knows, `LinkTracker` of lxmf-rs/src/rns/router.rs, with the events of
-- links and the cleaning of those that are silent, over the fields of `LxmfRouter` that they touch.
-- An event is that of the reticulum crate, without the payload of its data, which nothing here reads.
pub mod Clean
pub mod Heard
pub mod Alive
pub mod Cleaned
pub mod Lost
use lxmf_rs.Prelude.{
  ℕ, ◌+◌, ◌-◌, ◌*◌, Bool, true, false, not, ◌||◌, Option, none, some, List, [], ◌∷◌, ◌++◌, ite,
  Bytes, Bytes-discrete, length, map, ltb, leb, ◌==◌, if◌then◌else◌, retain,
}
use lxmf_rs.Prelude.HashMap.{get, has, insert, remove, keys, remove_all, contains, add, delete}

abbrev pub link_max_inactivity : ℕ
link_max_inactivity = 10 * 60

abbrev pub p_link_max_inactivity : ℕ
p_link_max_inactivity = 3 * 60

-- The states of a transfer.
abbrev pub pr_idle : ℕ
pr_idle = 0x00

abbrev pub pr_link_established : ℕ
pr_link_established = 0x03

abbrev pub pr_complete : ℕ
pr_complete = 0x07

abbrev pub pr_link_failed : ℕ
pr_link_failed = 0xf1

abbrev pub pr_transfer_failed : ℕ
pr_transfer_failed = 0xf2

pub record DirectLinkInfo : Type 0 where
  pub link_id : Bytes
  pub last_activity_ms : ℕ

pub record PropagationLinkInfo : Type 0 where
  pub link_id : Bytes
  pub last_activity_ms : ℕ
  pub is_closed : Bool

pub record LinkTracker : Type 0 where
  pub direct_links : List (Bytes × DirectLinkInfo)
  pub active_propagation_links : List PropagationLinkInfo
  pub outbound_propagation_link : Option PropagationLinkInfo
  pub validated_peer_links : List Bytes

unfoldable pub new : LinkTracker
new = record {
  direct_links = [];
  active_propagation_links = [];
  outbound_propagation_link = none;
  validated_peer_links = [];
}

unfoldable pub add_direct_link : LinkTracker → Bytes → ℕ → LinkTracker
add_direct_link t link_id now_ms = record t {
  direct_links =
      insert Bytes-discrete link_id (record { link_id = link_id; last_activity_ms = now_ms })
        t.direct_links;
}

abbrev open_link : Bytes → ℕ → PropagationLinkInfo
open_link link_id now_ms = record {
  link_id = link_id;
  last_activity_ms = now_ms;
  is_closed = false;
}

unfoldable pub add_propagation_link : LinkTracker → Bytes → ℕ → LinkTracker
add_propagation_link t link_id now_ms = record t {
  active_propagation_links = t.active_propagation_links ++ open_link link_id now_ms ∷ [];
}

unfoldable pub set_outbound_propagation_link : LinkTracker → Bytes → ℕ → LinkTracker
set_outbound_propagation_link t link_id now_ms = record t {
  outbound_propagation_link = some (open_link link_id now_ms);
}

abbrev pub close : PropagationLinkInfo → PropagationLinkInfo
close l = record l { is_closed = true }

unfoldable pub mark_outbound_propagation_link_closed : LinkTracker → LinkTracker
mark_outbound_propagation_link_closed t = record t {
  outbound_propagation_link = elim t.outbound_propagation_link [
    | none ↦ none
    | some l ↦ some (close l)
  ];
}

unfoldable pub touch_direct :
    List (Bytes × DirectLinkInfo) → Bytes → ℕ → List (Bytes × DirectLinkInfo)
touch_direct links link_id now_ms = elim (get Bytes-discrete link_id links) [
  | none ↦ links
  | some info ↦ insert Bytes-discrete link_id (record info { last_activity_ms = now_ms }) links
]

-- The first link of the id is touched; whether there was one.
unfoldable pub touch_first : List PropagationLinkInfo → Bytes → ℕ → List PropagationLinkInfo × Bool
touch_first [] link_id now_ms = ([], false)
touch_first (l ∷ ls) link_id now_ms =
    let rest = touch_first ls link_id now_ms in
    ite (Bytes-discrete l.link_id link_id) (record l { last_activity_ms = now_ms } ∷ ls, true)
      (l ∷ rest.0, rest.1)

unfoldable pub touch_outbound : Option PropagationLinkInfo → Bytes → ℕ → Option PropagationLinkInfo
touch_outbound none link_id now_ms = none
touch_outbound (some l) link_id now_ms =
    ite (Bytes-discrete l.link_id link_id) (some (record l { last_activity_ms = now_ms })) (some l)

unfoldable pub update_link_activity : LinkTracker → Bytes → ℕ → LinkTracker
unfolding touch_direct touch_first touch_outbound
update_link_activity t link_id now_ms =
    let touched = touch_first t.active_propagation_links link_id now_ms in
    record t {
      direct_links = touch_direct t.direct_links link_id now_ms;
      active_propagation_links = touched.0;
      outbound_propagation_link =
          if touched.1
          then t.outbound_propagation_link
          else touch_outbound t.outbound_propagation_link link_id now_ms;
    }

unfoldable pub has_direct_link : LinkTracker → Bytes → Bool
has_direct_link t link_id = has Bytes-discrete link_id t.direct_links

unfoldable pub any_link : List PropagationLinkInfo → Bytes → Bool
any_link [] link_id = false
any_link (l ∷ ls) link_id = ite (Bytes-discrete l.link_id link_id) true (any_link ls link_id)

unfoldable pub has_propagation_link : LinkTracker → Bytes → Bool
unfolding any_link
has_propagation_link t link_id = any_link t.active_propagation_links link_id

unfoldable pub add_validated_peer_link : LinkTracker → Bytes → LinkTracker
add_validated_peer_link t link_id = record t {
  validated_peer_links = add Bytes-discrete link_id t.validated_peer_links;
}

unfoldable pub is_validated_peer_link : LinkTracker → Bytes → Bool
is_validated_peer_link t link_id = contains Bytes-discrete link_id t.validated_peer_links

-- `LinkEvent` and `LinkEventData`.
pub data LinkEvent : Type 0 where
  data_event : LinkEvent
  activated : LinkEvent
  closed : LinkEvent

pub record LinkEventData : Type 0 where
  pub id : Bytes
  pub address_hash : Bytes
  pub event : LinkEvent

-- `Some` for a hash of the right length.
unfoldable pub whole_hash : Bytes → Option Bytes
whole_hash hash = if length hash == 16 then some hash else none

unfoldable pub on_data : LinkTracker → Bytes → Option Bytes → ℕ → LinkTracker
unfolding update_link_activity
on_data t link_id none now_ms = update_link_activity t link_id now_ms
on_data t link_id (some hash) now_ms =
    let t' = update_link_activity t link_id now_ms in
    ite (Bytes-discrete hash link_id) t' (update_link_activity t' hash now_ms)

unfoldable pub on_activated : LinkTracker → Option Bytes → ℕ → LinkTracker
unfolding has_direct_link add_direct_link update_link_activity
on_activated t none now_ms = t
on_activated t (some hash) now_ms =
    if has_direct_link t hash
    then update_link_activity t hash now_ms
    else add_direct_link t hash now_ms

abbrev pub close_if : Bytes → PropagationLinkInfo → PropagationLinkInfo
close_if link_id l = ite (Bytes-discrete l.link_id link_id) (close l) l

unfoldable pub close_outbound : Option PropagationLinkInfo → Bytes → Option PropagationLinkInfo
close_outbound none link_id = none
close_outbound (some l) link_id = some (close_if link_id l)

unfoldable pub on_closed : LinkTracker → Bytes → LinkTracker
unfolding close_outbound
on_closed t link_id = record t {
  outbound_propagation_link = close_outbound t.outbound_propagation_link link_id;
  active_propagation_links = map (close_if link_id) t.active_propagation_links;
}

unfoldable pub on_event : LinkTracker → LinkEvent → Bytes → Option Bytes → ℕ → LinkTracker
unfolding on_data on_activated on_closed
on_event t data_event link_id hash now_ms = on_data t link_id hash now_ms
on_event t activated link_id hash now_ms = on_activated t hash now_ms
on_event t closed link_id hash now_ms = on_closed t link_id

unfoldable pub process_link_events : LinkTracker → List LinkEventData → ℕ → LinkTracker
unfolding on_event whole_hash
process_link_events t [] now_ms = t
process_link_events t (e ∷ es) now_ms =
    process_link_events
      (if length e.id == 16 then on_event t e.event e.id (whole_hash e.address_hash) now_ms else t)
      es now_ms
