-- ===== src/Tests/Links.antt =====
-- Examples for the links of lxmf-rs/src/rns/router.rs.
use lxmf_rs.Prelude.{
  ◌≡◌, refl, true, false, not, inr, none, some, [], ◌∷◌, ◌++◌, arith, Bytes-discrete, if◌then◌else◌,
  retain,
}
use lxmf_rs.Prelude.HashMap.{keys, contains, has, get}
use lxmf_rs.Router.Links.{
  LinkTracker, LinkEventData, data_event, closed, has_direct_link, is_validated_peer_link,
  process_link_events,
}
use lxmf_rs.Router.Links.Clean.{Transfer, is_silent_direct, is_silent_propagation, clean_links}
use lxmf_rs.Router.Links.Cleaned.{clean_links-is_silent}
use lxmf_rs.Router.Links.Alive.{clean_links-process_link_events}
use lxmf_rs.Router.Links.Lost.{outcome, clean_links_closed}
use lxmf_rs.Tests.{toy_float, hash16}

-- Two direct links, of which one is validated, and one to a propagation node.
abbrev tracker : LinkTracker
tracker = record {
  direct_links =
      (hash16 1, record { link_id = hash16 1; last_activity_ms = 5 })
      ∷ ((hash16 2, record { link_id = hash16 2; last_activity_ms = 700_000 }) ∷ []);
  active_propagation_links =
      record { link_id = hash16 3; last_activity_ms = 5; is_closed = false } ∷ [];
  outbound_propagation_link =
      some (record { link_id = hash16 4; last_activity_ms = 5; is_closed = false });
  validated_peer_links = hash16 1 ∷ [];
}

abbrev receiving : Transfer toy_float
receiving = record {
  link_tracker = tracker;
  propagation_transfer_state = 5;
  propagation_transfer_last_result = some 1;
  propagation_transfer_progress = 3;
  wants_download_on_path_available_from = none;
  wants_download_on_path_available_to = none;
  wants_download_on_path_available_timeout = none;
}

clean_links-is_silent_example :
    let t' = (clean_links receiving 700_001).link_tracker in
    let dropped = retain (is_silent_direct 700_001) tracker.direct_links in
    (t'.direct_links ≡ retain (λ e. not (is_silent_direct 700_001 e)) tracker.direct_links)
    × (t'.active_propagation_links
        ≡ retain (λ l. not (is_silent_propagation 700_001 l)) tracker.active_propagation_links)
    × (is_validated_peer_link t' (hash16 1) ≡ (
        if contains Bytes-discrete (hash16 1) (keys Bytes-discrete dropped)
        then false
        else is_validated_peer_link tracker (hash16 1)))
unfolding get Bytes-discrete
clean_links-is_silent_example =
    clean_links-is_silent receiving 700_001 (hash16 1) (refl, (refl, tt))

abbrev heard_of : LinkEventData
heard_of = record { id = hash16 9; address_hash = hash16 1; event = data_event }

abbrev lost : LinkEventData
lost = record { id = hash16 4; address_hash = hash16 2; event = closed }

clean_links-process_link_events_example :
    has_direct_link
      (clean_links
        (record receiving {
          link_tracker = process_link_events tracker ((lost ∷ []) ++ heard_of ∷ []) 650_000;
        })
        1_000_000).link_tracker
      (hash16 1)
    ≡ true
unfolding has_direct_link has get Bytes-discrete
clean_links-process_link_events_example =
    clean_links-process_link_events receiving (lost ∷ []) [] heard_of 650_000 1_000_000
      (refl, (refl, tt)) refl refl (inr (refl, refl)) (omega arith)

clean_links_closed_example :
    let r' =
      clean_links
        (record receiving {
          link_tracker = process_link_events tracker ((heard_of ∷ []) ++ lost ∷ []) 650_000;
        })
        1_000_000 in
    (r'.link_tracker.outbound_propagation_link ≡ none)
    × (r'.propagation_transfer_state ≡ outcome 5)
    × (r'.propagation_transfer_last_result ≡ none)
clean_links_closed_example =
    clean_links_closed receiving (heard_of ∷ []) [] lost 650_000 1_000_000 refl refl refl
