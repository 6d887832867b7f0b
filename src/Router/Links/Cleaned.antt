-- ===== src/Router/Links/Cleaned.antt =====
-- What `clean_links` of lxmf-rs/src/rns/router.rs leaves of the links.
use lxmf_rs.Prelude.{
  ℕ, ◌+◌, ◌≡◌, refl, sym, ap, ◌∙◌, false, not, inl, inr, Option, none, some, List, [], ◌∷◌, ◌++◌,
  arith, Bytes, Bytes-discrete, length, length-append, Bool-cases, if◌then◌else◌, retain,
  retain_kept, retain_dropped,
}
use lxmf_rs.Prelude.HashMap.{
  keys, contains, delete, Distinct, remove_all-keys-retain, contains-delete,
}
use lxmf_rs.Wire.Value.{Float}
use lxmf_rs.Router.Links.{PropagationLinkInfo, is_validated_peer_link}
use lxmf_rs.Router.Links.Clean.{
  is_silent_direct, is_silent_propagation, delete_each, silent_indices, remove_at, remove_reversed,
  clean_tracker, Transfer, settle_outbound, acknowledge_sync_completion, clean_links,
}

append_one {ℓ} :
    {A : Type ℓ} (xs : List A) (x : A) (ys : List A) → (xs ++ x ∷ []) ++ ys ≡ xs ++ x ∷ ys
append_one [] x ys = refl
append_one (z ∷ xs) x ys = ap (◌∷◌ z) (append_one xs x ys)

remove_at-append {ℓ} :
    {A : Type ℓ} (xs : List A) (x : A) (ys : List A)
    → remove_at (length xs) (xs ++ x ∷ ys) ≡ xs ++ ys
unfolding remove_at
remove_at-append [] x ys = refl
remove_at-append (z ∷ xs) x ys = ap (◌∷◌ z) (remove_at-append xs x ys)

-- The indices are those of the silent links, and stay so while the links behind them go.
remove_reversed-silent_indices :
    (now_ms : ℕ) (before ls : List PropagationLinkInfo) (n : ℕ)
    → n ≡ length before
    → remove_reversed (silent_indices now_ms ls n) (before ++ ls)
      ≡ before ++ retain (λ l. not (is_silent_propagation now_ms l)) ls
unfolding remove_reversed silent_indices
remove_reversed-silent_indices now_ms before [] n e = refl
remove_reversed-silent_indices now_ms before (l ∷ ls) n e =
    let later =
      remove_reversed-silent_indices now_ms (before ++ l ∷ []) ls (n + 1)
        (omega (arith, length-append before (l ∷ []))) in
    elim (Bool-cases (is_silent_propagation now_ms l)) [
      | inl q ↦
          rw (q, retain_dropped (λ l. not (is_silent_propagation now_ms l)) l ls (ap not q))
            (ap (remove_at n) (
                ap (remove_reversed (silent_indices now_ms ls (n + 1)))
                  (sym (append_one before l ls))
                ∙ later
                ∙ append_one before l _)
              ∙ ap
                  (λ i.
                    remove_at i
                      (before ++ l ∷ retain (λ l. not (is_silent_propagation now_ms l)) ls))
                  e
              ∙ remove_at-append before l _)
      | inr q ↦
          rw (q, retain_kept (λ l. not (is_silent_propagation now_ms l)) l ls (ap not q))
            (ap (remove_reversed (silent_indices now_ms ls (n + 1))) (sym (append_one before l ls))
              ∙ later
              ∙ append_one before l _)
    ]

contains-delete_each :
    (ids validated : List Bytes) (id : Bytes)
    → contains Bytes-discrete id (delete_each ids validated)
      ≡ (if contains Bytes-discrete id ids then false else contains Bytes-discrete id validated)
unfolding delete_each contains
contains-delete_each [] validated id = refl
contains-delete_each (j ∷ ids) validated id = ground (
  arith,
  contains-delete_each ids (delete Bytes-discrete j validated) id,
  contains-delete Bytes-discrete j id validated,
)

module _ {fl : Float} where
  settle_outbound-links :
      (r : Transfer fl) (o : Option PropagationLinkInfo)
      → (settle_outbound r o).link_tracker ≡ record r.link_tracker {
        outbound_propagation_link = (settle_outbound r o).link_tracker.outbound_propagation_link;
      }
  unfolding settle_outbound acknowledge_sync_completion
  settle_outbound-links r none = refl
  settle_outbound-links r (some l) = elim (Bool-cases l.is_closed) [
    | inl q ↦ rw (q, settle_outbound) refl
    | inr q ↦ rw (q, settle_outbound) refl
  ]

  -- What the cleaning makes of the links, whatever it makes of the transfer.
  pub clean_links-clean_tracker :
      (r : Transfer fl) (now_ms : ℕ)
      → (clean_links r now_ms).link_tracker ≡ record (clean_tracker r.link_tracker now_ms) {
        outbound_propagation_link = (clean_links r now_ms).link_tracker.outbound_propagation_link;
      }
  unfolding clean_links
  clean_links-clean_tracker r now_ms =
      settle_outbound-links (record r { link_tracker = clean_tracker r.link_tracker now_ms })
        r.link_tracker.outbound_propagation_link

  -- clean_links drops the direct links that were silent for more than ten minutes, with their
  -- validation, and the propagation links that were silent for more than three minutes; it keeps all
  -- others, in order, and every other validation. This is so if no direct link is in the table twice.
  pub clean_links-is_silent :
      (r : Transfer fl) (now_ms : ℕ) (id : Bytes)
      → Distinct Bytes-discrete r.link_tracker.direct_links
      → let t = r.link_tracker in
        let t' = (clean_links r now_ms).link_tracker in
        let dropped = retain (is_silent_direct now_ms) t.direct_links in
        (t'.direct_links ≡ retain (λ e. not (is_silent_direct now_ms e)) t.direct_links)
        × (t'.active_propagation_links
            ≡ retain (λ l. not (is_silent_propagation now_ms l)) t.active_propagation_links)
        × (is_validated_peer_link t' id ≡ (
            if contains Bytes-discrete id (keys Bytes-discrete dropped)
            then false
            else is_validated_peer_link t id))
  unfolding clean_tracker is_validated_peer_link
  clean_links-is_silent r now_ms id d =
      let t = r.link_tracker in
      let same = clean_links-clean_tracker r now_ms in
      (
        ap (λ x. x.direct_links) same
            ∙ remove_all-keys-retain Bytes-discrete (is_silent_direct now_ms) t.direct_links d,
        ap (λ x. x.active_propagation_links) same
            ∙ remove_reversed-silent_indices now_ms [] t.active_propagation_links 0 refl,
        ap (λ x. contains Bytes-discrete id x.validated_peer_links) same
            ∙ contains-delete_each
                (keys Bytes-discrete (retain (is_silent_direct now_ms) t.direct_links))
                t.validated_peer_links id,
      )
