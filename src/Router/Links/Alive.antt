-- ===== src/Router/Links/Alive.antt =====
-- A direct link that is heard of stays: `process_link_events` and `clean_links` of
-- lxmf-rs/src/rns/router.rs.
use lxmf_rs.Prelude.{
  ℕ, ◌+◌, ◌*◌, ◌≤◌, ◌≡◌, refl, sym, subst, true, not, inl, inr, ◌⊎◌, some, List, [], ◌∷◌, ◌++◌, ite,
  arith, Bytes, Bytes-discrete, length, ◌==◌, Bool-cases, if◌then◌else◌, retain,
}
use lxmf_rs.Prelude.HashMap.{
  get, has, insert, Distinct, insert-Distinct, get-retain_kept, has-insert,
}
use lxmf_rs.Wire.Value.{Float}
use lxmf_rs.Router.Links.{
  LinkTracker, DirectLinkInfo, LinkEvent, LinkEventData, data_event, activated, link_max_inactivity,
  touch_direct, update_link_activity, has_direct_link, add_direct_link, whole_hash, on_data,
  on_activated, on_event, process_link_events,
}
use lxmf_rs.Router.Links.Cleaned.{clean_links-is_silent}
use lxmf_rs.Router.Links.Clean.{Transfer, is_silent, is_silent_direct, clean_links}
use lxmf_rs.Router.Links.Heard.{
  IsHeard, insert-IsHeard, insert_at_now, touch_direct-IsHeard, touch_direct_at_now,
  touch_direct-Distinct, touch_direct-has, process_link_events-kept,
}

on_event_at_now :
    (t : LinkTracker) (k : LinkEvent) (id hash : Bytes) (now_ms : ℕ)
    → ((k ≡ activated) ⊎ ((k ≡ data_event) × (has_direct_link t hash ≡ true)))
    → IsHeard (on_event t k id (some hash) now_ms).direct_links hash now_ms
unfolding on_event on_data on_activated update_link_activity add_direct_link has_direct_link
on_event_at_now t k id hash now_ms (inl same) =
    subst (λ k. IsHeard (on_event t k id (some hash) now_ms).direct_links hash now_ms) (sym same)
      (elim (Bool-cases (has_direct_link t hash)) [
        | inl q ↦ rw (q, on_activated) (touch_direct_at_now t.direct_links hash now_ms q)
        | inr q ↦ rw (q, on_activated) (insert_at_now t.direct_links hash _ now_ms refl)
      ])
on_event_at_now t k id hash now_ms (inr known) =
    subst (λ k. IsHeard (on_event t k id (some hash) now_ms).direct_links hash now_ms) (sym known.0)
      (elim (Bytes-discrete hash id)
        as (λ d.
          IsHeard
            (ite d (update_link_activity t id now_ms)
              (update_link_activity (update_link_activity t id now_ms) hash now_ms)).direct_links
            hash now_ms) [
              | yes e ↦
                  subst (λ i. IsHeard (touch_direct t.direct_links i now_ms) hash now_ms) e
                    (touch_direct_at_now t.direct_links hash now_ms known.1)
              | no n ↦
                  touch_direct_at_now (touch_direct t.direct_links id now_ms) hash now_ms
                    (touch_direct-has t.direct_links id hash now_ms known.1)
            ])

insert-has :
    (links : List (Bytes × DirectLinkInfo)) (id hash : Bytes) (info : DirectLinkInfo)
    → has Bytes-discrete hash links ≡ true
    → has Bytes-discrete hash (insert Bytes-discrete id info links) ≡ true
insert-has links id hash info h = ground (arith, has-insert Bytes-discrete id hash info links)

pub process_link_events-append :
    (t : LinkTracker) (before after : List LinkEventData) (now_ms : ℕ)
    → process_link_events t (before ++ after) now_ms
      ≡ process_link_events (process_link_events t before now_ms) after now_ms
unfolding process_link_events
process_link_events-append t [] after now_ms = refl
process_link_events-append t (e ∷ before) after now_ms =
    process_link_events-append
      (if length e.id == 16 then on_event t e.event e.id (whole_hash e.address_hash) now_ms else t)
      before after now_ms

process_link_events_at_now :
    (t : LinkTracker) (e : LinkEventData) (after : List LinkEventData) (now_ms : ℕ)
    → length e.id ≡ 16
    → length e.address_hash ≡ 16
    → ((e.event ≡ activated) ⊎ ((e.event ≡ data_event) × (has_direct_link t e.address_hash ≡ true)))
    → IsHeard (process_link_events t (e ∷ after) now_ms).direct_links e.address_hash now_ms
unfolding process_link_events whole_hash
process_link_events_at_now t e after now_ms l m k =
    let long : (length e.id == 16) ≡ true = rw l refl in
    let whole : whole_hash e.address_hash ≡ some e.address_hash = rw m refl in
    rw (long, process_link_events)
      (process_link_events-kept (λ links. IsHeard links e.address_hash now_ms) now_ms
        (λ links id. touch_direct-IsHeard links id e.address_hash now_ms)
        (λ links id. insert-IsHeard links id e.address_hash _ now_ms refl)
        (on_event t e.event e.id (whole_hash e.address_hash) now_ms) after
        (rw whole (on_event_at_now t e.event e.id e.address_hash now_ms k)))

get-has :
    (hash : Bytes) (links : List (Bytes × DirectLinkInfo)) (info : DirectLinkInfo)
    → get Bytes-discrete hash links ≡ some info
    → has Bytes-discrete hash links ≡ true
unfolding has
get-has hash links info g = rw (g, has) refl

speaks :
    (info : DirectLinkInfo) (now_ms later_ms : ℕ)
    → info.last_activity_ms ≡ now_ms
    → later_ms ≤ now_ms + link_max_inactivity * 1000
    → not (is_silent (link_max_inactivity * 1000) later_ms info.last_activity_ms) ≡ true
unfolding is_silent
speaks info now_ms later_ms n h = ground arith

-- A direct link that is heard of when events come in, as it is activated, or as data come over it and
-- it is known, is still there after any cleaning in the next ten minutes, whatever other events come
-- with these; if the hashes of the event have 16 bytes and no direct link is in the table twice.
pub clean_links-process_link_events :
    {fl : Float} (r : Transfer fl) (before after : List LinkEventData) (e : LinkEventData)
    (now_ms later_ms : ℕ)
    → Distinct Bytes-discrete r.link_tracker.direct_links
    → length e.id ≡ 16
    → length e.address_hash ≡ 16
    → ((e.event ≡ activated)
        ⊎ ((e.event ≡ data_event) × (has_direct_link r.link_tracker e.address_hash ≡ true)))
    → later_ms ≤ now_ms + link_max_inactivity * 1000
    → has_direct_link
        (clean_links
          (record r {
            link_tracker = process_link_events r.link_tracker (before ++ e ∷ after) now_ms;
          })
          later_ms).link_tracker
        e.address_hash
      ≡ true
unfolding has_direct_link
clean_links-process_link_events r before after e now_ms later_ms d l m k h =
    let t = r.link_tracker in
    let hash = e.address_hash in
    let t1 = process_link_events t before now_ms in
    let t2 = process_link_events t (before ++ e ∷ after) now_ms in
    let known : has_direct_link t hash ≡ true → has_direct_link t1 hash ≡ true =
      process_link_events-kept (λ links. has Bytes-discrete hash links ≡ true) now_ms
        (λ links id. touch_direct-has links id hash now_ms) (λ links id. insert-has links id hash _)
        t before in
    let distinct : Distinct Bytes-discrete t2.direct_links =
      process_link_events-kept (Distinct Bytes-discrete) now_ms
        (λ links id. touch_direct-Distinct links id now_ms)
        (λ links id. insert-Distinct Bytes-discrete id _ links) t (before ++ e ∷ after) d in
    let heard : IsHeard t2.direct_links hash now_ms =
      subst (λ x. IsHeard x.direct_links hash now_ms)
        (sym (process_link_events-append t before (e ∷ after) now_ms))
        (process_link_events_at_now t1 e after now_ms l m (still k known)) in
    let cleaned = clean_links-is_silent (record r { link_tracker = t2 }) later_ms hash distinct in
    subst (λ links. has Bytes-discrete hash links ≡ true) (sym cleaned.0)
      (get-has hash (retain (λ x. not (is_silent_direct later_ms x)) t2.direct_links) heard.0 (
        get-retain_kept Bytes-discrete (λ x. not (is_silent_direct later_ms x)) hash heard.0
          t2.direct_links heard.1 (speaks heard.0 now_ms later_ms heard.2 h)))
  where
    still : {A B C D : Type 0} → A ⊎ (B × C) → (C → D) → A ⊎ (B × D)
    still (inl a) f = inl a
    still (inr x) f = inr (x.0, f x.1)
