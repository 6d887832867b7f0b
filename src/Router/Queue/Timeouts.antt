-- ===== src/Router/Queue/Timeouts.antt =====
-- Deliveries in flight whose time is up: `poll_timeouts` of `RnsRouter` in lxmf-rs/src/rns/router.rs.
use Prim.Native.String.{String}
use lxmf_rs.Prelude.{
  ℕ, ◌≡◌, refl, sym, subst, ap, ◌∙◌, Bool, true, false, not, inl, inr, List, [], ◌∷◌, ◌++◌, arith,
  Option-cases, Bool-cases, retain_kept, retain_dropped, ℕ_discrete, retain,
}
use lxmf_rs.Prelude.HashMap.{
  contains, contains-keys-retain, has, get, keys, remove, remove_all, remove_absent,
  remove_all-keys-retain, Distinct,
}
use lxmf_rs.Wire.Value.{Float}
use lxmf_rs.Router.Queue.Store.{FailedDelivery, MessageStore}
use lxmf_rs.Router.Queue.Ledger.{failed_ids}
use lxmf_rs.Router.Queue.{RnsRouter, is_expired, mark_failed, fail_each, poll_timeouts, reported}

append_nil : {A : Type 0} (xs : List A) → xs ++ [] ≡ xs
append_nil [] = refl
append_nil (x ∷ xs) = ap (◌∷◌ x) (append_nil xs)

append_append : {A : Type 0} (xs ys zs : List A) → (xs ++ ys) ++ zs ≡ xs ++ (ys ++ zs)
append_append [] ys zs = refl
append_append (x ∷ xs) ys zs = ap (◌∷◌ x) (append_append xs ys zs)

failed_ids-append :
    {fl : Float} (fs gs : List (FailedDelivery fl))
    → failed_ids (fs ++ gs) ≡ failed_ids fs ++ failed_ids gs
failed_ids-append [] gs = refl
failed_ids-append (f ∷ fs) gs = ap (◌∷◌ f.id) (failed_ids-append fs gs)

-- Each id is in the map when its turn comes, if those before it are taken out.
Present : {V : Type 0} → List ℕ → List (ℕ × V) → Type 0
Present [] m = Unit
Present (id ∷ ids) m = (has ℕ_discrete id m ≡ true) × Present ids (remove ℕ_discrete id m)

Present-cons :
    {V : Type 0} (ids : List ℕ) (k : ℕ) (v : V) (m : List (ℕ × V))
    → contains ℕ_discrete k ids ≡ false
    → Present ids m
    → Present ids ((k, v) ∷ m)
unfolding Present contains has get remove
Present-cons [] k v m c h = tt
Present-cons (id ∷ ids) k v m c h = elim (ℕ_discrete k id) [
  | yes p ↦ absurd (ground arith)
  | no p ↦
      let e : remove ℕ_discrete id ((k, v) ∷ m) ≡ (k, v) ∷ remove ℕ_discrete id m = ground arith in
      let there : has ℕ_discrete id ((k, v) ∷ m) ≡ true = ground (arith, h.0) in
      (there, rw e (Present-cons ids k v (remove ℕ_discrete id m) (ground arith) h.1))
]

Present-keys-retain :
    {V : Type 0} (p : ℕ × V → Bool) (m : List (ℕ × V))
    → Distinct ℕ_discrete m
    → Present (keys ℕ_discrete (retain p m)) m
unfolding Present has get remove
Present-keys-retain p [] d = tt
Present-keys-retain p ((k, v) ∷ m) d = elim (Bool-cases (p (k, v))) [
  | inl e ↦
      let gone : remove ℕ_discrete k ((k, v) ∷ m) ≡ m =
        ground (arith, remove_absent ℕ_discrete k m d.0) in
      let there : has ℕ_discrete k ((k, v) ∷ m) ≡ true = ground arith in
      rw (retain_kept p (k, v) m e) (there, rw gone (Present-keys-retain p m d.1))
  | inr e ↦ rw (retain_dropped p (k, v) m e) (
      Present-cons _ k v m (contains-keys-retain ℕ_discrete p k m d.0)
        (Present-keys-retain p m d.1))
]

module _ {fl : Float} {S R : Type 0} (ms : MessageStore fl S) where
  mark_failed-inflight :
      (r : RnsRouter fl S R) (id : ℕ) (error : String) (attempts : ℕ)
      → (mark_failed ms r id error attempts).0.inflight ≡ remove ℕ_discrete id r.inflight
  unfolding mark_failed
  mark_failed-inflight r id error attempts = elim (Option-cases (get ℕ_discrete id r.inflight)) [
    | inl e ↦ rw (e, mark_failed) (sym (remove_absent ℕ_discrete id r.inflight e))
    | inr (d, e) ↦ rw (e, mark_failed) refl
  ]

  mark_failed-failed :
      (r : RnsRouter fl S R) (id : ℕ) (error : String) (attempts : ℕ)
      → (mark_failed ms r id error attempts).0.failed
        ≡ r.failed ++ reported (mark_failed ms r id error attempts).1
  unfolding mark_failed
  mark_failed-failed r id error attempts = elim (Option-cases (get ℕ_discrete id r.inflight)) [
    | inl e ↦ rw (e, mark_failed) (sym (append_nil r.failed))
    | inr (d, e) ↦ rw (e, mark_failed) refl
  ]

  pub mark_failed-outbound :
      (r : RnsRouter fl S R) (id : ℕ) (error : String) (attempts : ℕ)
      → (mark_failed ms r id error attempts).0.outbound ≡ r.outbound
  unfolding mark_failed
  mark_failed-outbound r id error attempts = elim (Option-cases (get ℕ_discrete id r.inflight)) [
    | inl e ↦ rw (e, mark_failed) refl
    | inr (d, e) ↦ rw (e, mark_failed) refl
  ]

  mark_failed_id :
      (r : RnsRouter fl S R) (id : ℕ) (error : String) (attempts : ℕ)
      → has ℕ_discrete id r.inflight ≡ true
      → failed_ids (reported (mark_failed ms r id error attempts).1) ≡ id ∷ []
  unfolding mark_failed has
  mark_failed_id r id error attempts h = elim (Option-cases (get ℕ_discrete id r.inflight)) [
    | inl e ↦ absurd (ground arith)
    | inr (d, e) ↦ rw (e, mark_failed) refl
  ]

  pub fail_each_lem :
      (r : RnsRouter fl S R) (ids : List ℕ)
      → let (r', failures) = fail_each ms r ids in
        (r'.inflight ≡ remove_all ℕ_discrete ids r.inflight)
        × (r'.failed ≡ r.failed ++ failures)
        × (r'.outbound ≡ r.outbound)
  unfolding fail_each remove_all
  fail_each_lem r [] = (refl, sym (append_nil r.failed), refl)
  fail_each_lem r (id ∷ ids) =
      let first = mark_failed ms r id "delivery timeout" 0 in
      let (inflight, failures, outbound) = fail_each_lem first.0 ids in
      (
        inflight ∙ ap (remove_all ℕ_discrete ids) (mark_failed-inflight r id "delivery timeout" 0),
        failures
            ∙ ap (λ l. l ++ (fail_each ms first.0 ids).1)
                (mark_failed-failed r id "delivery timeout" 0)
            ∙ append_append r.failed (reported first.1) (fail_each ms first.0 ids).1,
        outbound ∙ mark_failed-outbound r id "delivery timeout" 0,
      )

  fail_each_ids :
      (r : RnsRouter fl S R) (ids : List ℕ)
      → Present ids r.inflight
      → failed_ids (fail_each ms r ids).1 ≡ ids
  unfolding fail_each Present
  fail_each_ids r [] h = refl
  fail_each_ids r (id ∷ ids) h =
      let first = mark_failed ms r id "delivery timeout" 0 in
      let still : Present ids first.0.inflight =
        subst (Present ids) (sym (mark_failed-inflight r id "delivery timeout" 0)) h.1 in
      failed_ids-append (reported first.1) (fail_each ms first.0 ids).1
      ∙ ap (λ l. l ++ failed_ids (fail_each ms first.0 ids).1)
          (mark_failed_id r id "delivery timeout" 0 h.0)
      ∙ ap (◌∷◌ id) (fail_each_ids first.0 ids still)

  -- If no id is in flight twice, `poll_timeouts` fails exactly the deliveries whose time is up: it
  -- takes them, and no others, out of the deliveries in flight, reports one failure for each of their
  -- ids in order, appends the failures to the list of failed deliveries, and leaves the outbound queue
  -- as it is.
  pub poll_timeouts-is_expired :
      (r : RnsRouter fl S R) (now_ms : ℕ)
      → Distinct ℕ_discrete r.inflight
      → let (r', failures) = poll_timeouts ms r now_ms in
        (r'.inflight ≡ retain (λ e. not (is_expired now_ms e)) r.inflight)
        × (failed_ids failures ≡ keys ℕ_discrete (retain (is_expired now_ms) r.inflight))
        × (r'.failed ≡ r.failed ++ failures)
        × (r'.outbound ≡ r.outbound)
  unfolding poll_timeouts
  poll_timeouts-is_expired r now_ms d =
      let ids = keys ℕ_discrete (retain (is_expired now_ms) r.inflight) in
      let (inflight, failures, outbound) = fail_each_lem r ids in
      (
        inflight ∙ remove_all-keys-retain ℕ_discrete (is_expired now_ms) r.inflight d,
        fail_each_ids r ids (Present-keys-retain (is_expired now_ms) r.inflight d),
        failures,
        outbound,
      )
