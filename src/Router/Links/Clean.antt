-- ===== src/Router/Links/Clean.antt =====
-- `LxmfRouter::clean_links` and `LxmfRouter::acknowledge_sync_completion` of
-- lxmf-rs/src/rns/router.rs, over the fields that they touch.
use lxmf_rs.Prelude.{
  ℕ, zero, suc, ◌+◌, ◌-◌, ◌*◌, Bool, false, ◌||◌, ◌&&◌, Option, none, some, List, [], ◌∷◌, Bytes,
  Bytes-discrete, ltb, leb, ◌==◌, if◌then◌else◌, retain,
}
use lxmf_rs.Prelude.HashMap.{keys, remove_all, delete}
use lxmf_rs.Wire.Value.{Float}
use lxmf_rs.Router.Links.{
  LinkTracker, DirectLinkInfo, PropagationLinkInfo, link_max_inactivity, p_link_max_inactivity,
  pr_idle, pr_link_established, pr_complete, pr_link_failed, pr_transfer_failed,
}

-- The tracker and the state of the transfer from a propagation node.
pub record Transfer (fl : Float) : Type 0 where
  pub link_tracker : LinkTracker
  pub propagation_transfer_state : ℕ
  pub propagation_transfer_last_result : Option ℕ
  pub propagation_transfer_progress : fl.F64
  pub wants_download_on_path_available_from : Option Bytes
  pub wants_download_on_path_available_to : Option Bytes
  pub wants_download_on_path_available_timeout : Option ℕ

unfoldable pub is_silent : ℕ → ℕ → ℕ → Bool
is_silent limit_ms now_ms last_activity_ms = ltb limit_ms (now_ms - last_activity_ms)

abbrev pub is_silent_direct : ℕ → Bytes × DirectLinkInfo → Bool
is_silent_direct now_ms e = is_silent (link_max_inactivity * 1000) now_ms e.1.last_activity_ms

abbrev pub is_silent_propagation : ℕ → PropagationLinkInfo → Bool
is_silent_propagation now_ms l = is_silent (p_link_max_inactivity * 1000) now_ms l.last_activity_ms

unfoldable pub delete_each : List Bytes → List Bytes → List Bytes
delete_each [] validated = validated
delete_each (id ∷ ids) validated = delete_each ids (delete Bytes-discrete id validated)

-- The indices of the silent links, from that of the first on.
unfoldable pub silent_indices : ℕ → List PropagationLinkInfo → ℕ → List ℕ
silent_indices now_ms [] i = []
silent_indices now_ms (l ∷ ls) i =
    let rest = silent_indices now_ms ls (i + 1) in
    if is_silent_propagation now_ms l then i ∷ rest else rest

-- `Vec::remove`.
unfoldable pub remove_at {ℓ} : {A : Type ℓ} → ℕ → List A → List A
remove_at i [] = []
remove_at zero (x ∷ xs) = xs
remove_at (suc i) (x ∷ xs) = x ∷ remove_at i xs

-- In reverse order: the last index goes first.
unfoldable pub remove_reversed {ℓ} : {A : Type ℓ} → List ℕ → List A → List A
unfolding remove_at
remove_reversed [] xs = xs
remove_reversed (i ∷ is) xs = remove_at i (remove_reversed is xs)

unfoldable pub clean_tracker : LinkTracker → ℕ → LinkTracker
unfolding delete_each silent_indices remove_reversed
clean_tracker t now_ms =
    let closed = keys Bytes-discrete (retain (is_silent_direct now_ms) t.direct_links) in
    record t {
      validated_peer_links = delete_each closed t.validated_peer_links;
      direct_links = remove_all Bytes-discrete closed t.direct_links;
      active_propagation_links =
          remove_reversed (silent_indices now_ms t.active_propagation_links 0)
            t.active_propagation_links;
    }

-- `failure_state`, or idle.
abbrev pub state_or_idle : Option ℕ → ℕ
state_or_idle none = pr_idle
state_or_idle (some failure) = failure

-- What a link that is closed makes of the transfer.
unfoldable pub failure_of : ℕ → Option ℕ
failure_of state =
    if state == pr_complete
    then none
    else if ltb state pr_link_established
    then some pr_link_failed
    else if leb pr_link_established state && ltb state pr_complete
    then some pr_transfer_failed
    else none

module _ {fl : Float} where
  unfoldable pub acknowledge_sync_completion : Transfer fl → Bool → Option ℕ → Transfer fl
  acknowledge_sync_completion r reset_state failure_state = record r {
    propagation_transfer_last_result = none;
    propagation_transfer_state =
        if reset_state || leb r.propagation_transfer_state pr_complete
        then state_or_idle failure_state
        else r.propagation_transfer_state;
    propagation_transfer_progress = fl.zero_f64;
    wants_download_on_path_available_from = none;
    wants_download_on_path_available_to = none;
    wants_download_on_path_available_timeout = none;
  }

  unfoldable pub settle_outbound : Transfer fl → Option PropagationLinkInfo → Transfer fl
  unfolding acknowledge_sync_completion failure_of
  settle_outbound r none = r
  settle_outbound r (some l) =
      if l.is_closed
      then acknowledge_sync_completion
          (record r { link_tracker = record r.link_tracker { outbound_propagation_link = none } })
          false (failure_of r.propagation_transfer_state)
      else r

  unfoldable pub clean_links : Transfer fl → ℕ → Transfer fl
  unfolding clean_tracker settle_outbound
  clean_links r now_ms =
      settle_outbound (record r { link_tracker = clean_tracker r.link_tracker now_ms })
        r.link_tracker.outbound_propagation_link
