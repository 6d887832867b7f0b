-- ===== src/Router/Links/Heard.antt =====
-- What the events of links do to the direct links, of lxmf-rs/src/rns/router.rs.
use lxmf_rs.Prelude.{
  ℕ, ◌≡◌, refl, true, inl, inr, Option, none, some, List, [], ◌∷◌, ite, arith, Bytes,
  Bytes-discrete, length, ◌==◌, Bool-cases, Option-cases,
}
use lxmf_rs.Prelude.HashMap.{get, has, insert, Distinct, get-insert, insert-Distinct}
use lxmf_rs.Router.Links.{
  LinkTracker, DirectLinkInfo, LinkEvent, LinkEventData, data_event, activated, closed,
  touch_direct, update_link_activity, has_direct_link, add_direct_link, whole_hash, on_data,
  on_activated, on_closed, on_event, process_link_events,
}

-- The link is known, and was heard of at the time.
abbrev pub IsHeard : List (Bytes × DirectLinkInfo) → Bytes → ℕ → Type 0
IsHeard links hash now_ms =
    (info : DirectLinkInfo) × (get Bytes-discrete hash links ≡ some info)
    × (info.last_activity_ms ≡ now_ms)

pub insert-IsHeard :
    (links : List (Bytes × DirectLinkInfo)) (id hash : Bytes) (info : DirectLinkInfo) (now_ms : ℕ)
    → info.last_activity_ms ≡ now_ms
    → IsHeard links hash now_ms
    → IsHeard (insert Bytes-discrete id info links) hash now_ms
insert-IsHeard links id hash info now_ms n h = elim (Bytes-discrete id hash) [
  | yes p ↦ (info, ground (arith, get-insert Bytes-discrete id hash info links), n)
  | no q ↦ (h.0, ground (arith, get-insert Bytes-discrete id hash info links), h.2)
]

pub insert_at_now :
    (links : List (Bytes × DirectLinkInfo)) (hash : Bytes) (info : DirectLinkInfo) (now_ms : ℕ)
    → info.last_activity_ms ≡ now_ms
    → IsHeard (insert Bytes-discrete hash info links) hash now_ms
insert_at_now links hash info now_ms n =
    (info, ground (arith, get-insert Bytes-discrete hash hash info links), n)

pub touch_direct-IsHeard :
    (links : List (Bytes × DirectLinkInfo)) (id hash : Bytes) (now_ms : ℕ)
    → IsHeard links hash now_ms
    → IsHeard (touch_direct links id now_ms) hash now_ms
unfolding touch_direct
touch_direct-IsHeard links id hash now_ms h = elim (Option-cases (get Bytes-discrete id links)) [
  | inl n ↦ rw (n, touch_direct) h
  | inr (info, n) ↦ rw (n, touch_direct) (insert-IsHeard links id hash _ now_ms refl h)
]

pub touch_direct_at_now :
    (links : List (Bytes × DirectLinkInfo)) (hash : Bytes) (now_ms : ℕ)
    → has Bytes-discrete hash links ≡ true
    → IsHeard (touch_direct links hash now_ms) hash now_ms
unfolding touch_direct has
touch_direct_at_now links hash now_ms h = elim (Option-cases (get Bytes-discrete hash links)) [
  | inl n ↦ absurd (ground arith)
  | inr (info, n) ↦ rw (n, touch_direct) (insert_at_now links hash _ now_ms refl)
]

pub touch_direct-Distinct :
    (links : List (Bytes × DirectLinkInfo)) (id : Bytes) (now_ms : ℕ)
    → Distinct Bytes-discrete links
    → Distinct Bytes-discrete (touch_direct links id now_ms)
unfolding touch_direct
touch_direct-Distinct links id now_ms d = elim (Option-cases (get Bytes-discrete id links)) [
  | inl n ↦ rw (n, touch_direct) d
  | inr (info, n) ↦ rw (n, touch_direct) (insert-Distinct Bytes-discrete id _ links d)
]

pub touch_direct-has :
    (links : List (Bytes × DirectLinkInfo)) (id hash : Bytes) (now_ms : ℕ)
    → has Bytes-discrete hash links ≡ true
    → has Bytes-discrete hash (touch_direct links id now_ms) ≡ true
unfolding touch_direct has
touch_direct-has links id hash now_ms h = elim (Option-cases (get Bytes-discrete id links)) [
  | inl n ↦ rw (n, touch_direct) h
  | inr (info, n) ↦
      rw (n, touch_direct)
        (ground (
          arith,
          get-insert Bytes-discrete id hash (record info { last_activity_ms = now_ms }) links,
        ))
]

-- What every event keeps of the direct links.
module _ (P : List (Bytes × DirectLinkInfo) → Type 0) (now_ms : ℕ)
    (touched : (links : List (Bytes × DirectLinkInfo)) (id : Bytes)
      → P links
      → P (touch_direct links id now_ms))
    (added : (links : List (Bytes × DirectLinkInfo)) (id : Bytes)
      → P links
      → P (
          insert Bytes-discrete id
            (record { link_id = id; last_activity_ms = now_ms })
            links)) where
  on_event-kept :
      (t : LinkTracker) (k : LinkEvent) (id : Bytes) (hash : Option Bytes)
      → P t.direct_links
      → P (on_event t k id hash now_ms).direct_links
  unfolding on_event on_data on_activated on_closed update_link_activity add_direct_link
  on_event-kept t data_event id none p = touched t.direct_links id p
  on_event-kept t data_event id (some hash) p =
      let once = touched t.direct_links id p in
      elim (Bytes-discrete hash id)
        as (λ d.
          P
            (ite d (update_link_activity t id now_ms)
              (update_link_activity (update_link_activity t id now_ms) hash now_ms)).direct_links) [
                | yes e ↦ once
                | no n ↦ touched (touch_direct t.direct_links id now_ms) hash once
              ]
  on_event-kept t activated id none p = p
  on_event-kept t activated id (some hash) p = elim (Bool-cases (has_direct_link t hash)) [
    | inl e ↦ rw e (touched t.direct_links hash p)
    | inr e ↦ rw e (added t.direct_links hash p)
  ]
  on_event-kept t closed id hash p = p

  pub process_link_events-kept :
      (t : LinkTracker) (es : List LinkEventData)
      → P t.direct_links
      → P (process_link_events t es now_ms).direct_links
  unfolding process_link_events
  process_link_events-kept t [] p = p
  process_link_events-kept t (e ∷ es) p = elim (Bool-cases (length e.id == 16)) [
    | inl w ↦
        rw (w, process_link_events)
          (process_link_events-kept (on_event t e.event e.id (whole_hash e.address_hash) now_ms) es
            (on_event-kept t e.event e.id (whole_hash e.address_hash) p))
    | inr w ↦ rw (w, process_link_events) (process_link_events-kept t es p)
  ]
