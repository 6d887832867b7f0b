-- ===== src/Router/Queue/Restored.antt =====
-- A router that starts again from its store: `restore_outbound` of lxmf-rs/src/rns/router.rs.
use lxmf_rs.Prelude.{
  if◌then◌else◌, ℕ, ◌+◌, ◌<◌, ◌≡◌, refl, Option, none, some, inl, inr, List, [], ◌∷◌, arith,
  Bool-cases, leb, All, All-append, All-mono, u64_max, ap, ◌∙◌, length, length-append,
}
use lxmf_rs.Wire.Value.{Float}
use lxmf_rs.Router.Queue.Store.{QueuedMessage, MessageStore, in_memory, empty}
use lxmf_rs.Router.Queue.{RnsRouter, RetryPolicy, created, new, with_retry}
use lxmf_rs.Router.Queue.Restore.{
  insert_by_id, sort_by_id, has_immediate, least_attempt_time, rebase, restore_one, restore_each,
  restore_outbound, restored, with_store,
}
use lxmf_rs.Router.Queue.Ledger.{count, outbound_ids, outbound_ids_append}

-- An id whose successor is an id too.
abbrev pub HasNext : {fl : Float} → QueuedMessage fl → Type 0
HasNext item = item.id < u64_max

module _ {fl : Float} where
  insert_by_id-All :
      (P : QueuedMessage fl → Type 0) (x : QueuedMessage fl) (xs : List (QueuedMessage fl))
      → P x
      → All P xs
      → All P (insert_by_id x xs)
  unfolding insert_by_id
  insert_by_id-All P x [] p h = (p, tt)
  insert_by_id-All P x (y ∷ ys) p h = elim (Bool-cases (leb x.id y.id)) [
    | inl e ↦ rw e (p, h)
    | inr e ↦ rw e (h.0, insert_by_id-All P x ys p h.1)
  ]

  sort_by_id-All :
      (P : QueuedMessage fl → Type 0) (xs : List (QueuedMessage fl))
      → All P xs
      → All P (sort_by_id xs)
  unfolding sort_by_id
  sort_by_id-All P [] h = tt
  sort_by_id-All P (x ∷ xs) h = insert_by_id-All P x _ h.0 (sort_by_id-All P xs h.1)

  insert_by_id-count :
      (i : ℕ) (x : QueuedMessage fl) (xs : List (QueuedMessage fl))
      → count i (outbound_ids (insert_by_id x xs)) ≡ count i (outbound_ids (x ∷ xs))
  unfolding insert_by_id
  insert_by_id-count i x [] = refl
  insert_by_id-count i x (y ∷ ys) = elim (Bool-cases (leb x.id y.id)) [
    | inl e ↦ rw e refl
    | inr e ↦ rw e (omega (arith, insert_by_id-count i x ys))
  ]

  sort_by_id-count :
      (i : ℕ) (xs : List (QueuedMessage fl))
      → count i (outbound_ids (sort_by_id xs)) ≡ count i (outbound_ids xs)
  unfolding sort_by_id
  sort_by_id-count i [] = refl
  sort_by_id-count i (x ∷ xs) =
      insert_by_id-count i x (sort_by_id xs) ∙ omega (arith, sort_by_id-count i xs)

  insert_by_id-length :
      (x : QueuedMessage fl) (xs : List (QueuedMessage fl))
      → length (insert_by_id x xs) ≡ length xs + 1
  unfolding insert_by_id
  insert_by_id-length x [] = refl
  insert_by_id-length x (y ∷ ys) = ground (arith, insert_by_id-length x ys)

  sort_by_id-length : (xs : List (QueuedMessage fl)) → length (sort_by_id xs) ≡ length xs
  unfolding sort_by_id
  sort_by_id-length [] = refl
  sort_by_id-length (x ∷ xs) =
      omega (arith, insert_by_id-length x (sort_by_id xs), sort_by_id-length xs)

  rebase-id : (base : Option ℕ) (item : QueuedMessage fl) → (rebase base item).id ≡ item.id
  unfolding rebase
  rebase-id none item = refl
  rebase-id (some base) item = ground arith

module _ {fl : Float} {S R : Type 0} where
  restore_each-fresh :
      (base : Option ℕ) (r : RnsRouter fl S R) (items : List (QueuedMessage fl))
      → All (λ m. m.id < r.next_id) r.outbound
      → All HasNext items
      → All (λ m. m.id < (restore_each base r items).next_id) (restore_each base r items).outbound
  unfolding restore_each restore_one
  restore_each-fresh base r [] h n = h
  restore_each-fresh base r (item ∷ items) h n =
      restore_each-fresh base (restore_one base r item) items
        (All-append _ r.outbound (rebase base item ∷ [])
          (All-mono _ _ r.outbound (λ m p. omega arith) h) (omega (arith, rebase-id base item), tt))
        n.1

  restore_each-count :
      (i : ℕ) (base : Option ℕ) (r : RnsRouter fl S R) (items : List (QueuedMessage fl))
      → count i (outbound_ids (restore_each base r items).outbound)
        ≡ count i (outbound_ids r.outbound) + count i (outbound_ids items)
  unfolding restore_each restore_one
  restore_each-count i base r [] = omega arith
  restore_each-count i base r (item ∷ items) =
      restore_each-count i base (restore_one base r item) items
      ∙ omega (
        arith,
        outbound_ids_append i r.outbound (rebase base item),
        ap (λ j. count i (j ∷ [])) (rebase-id base item),
      )

  -- After `restore_outbound` the queue holds the ids that it held and those that the store holds,
  -- each as often as the two together, and `next_id` is above all of them; this if it was above those in the
  -- queue, and no id in the store is `u64::MAX`.
  pub restore_outbound-fresh :
      (ms : MessageStore fl S) (r : RnsRouter fl S R)
      → All (λ m. m.id < r.next_id) r.outbound
      → All HasNext (ms.load_outbound r.store)
      → let r' = restore_outbound ms r in
        All (λ m. m.id < r'.next_id) r'.outbound
        × ((i : ℕ)
            → count i (outbound_ids r'.outbound)
              ≡ count i (outbound_ids r.outbound)
                + count i (outbound_ids (ms.load_outbound r.store)))
  unfolding restore_outbound
  restore_outbound-fresh ms r h n = (
    restore_each-fresh _ r _ h (sort_by_id-All HasNext _ n),
    λ i.
        restore_each-count i _ r _
        ∙ ap (λ c. count i (outbound_ids r.outbound) + c)
            (sort_by_id-count i (ms.load_outbound r.store)),
  )

  restore_each-All :
      (P : QueuedMessage fl → Type 0) (base : Option ℕ) (r : RnsRouter fl S R)
      (items : List (QueuedMessage fl))
      → ((item : QueuedMessage fl) → P item → P (rebase base item))
      → All P r.outbound
      → All P items
      → All P (restore_each base r items).outbound
  unfolding restore_each restore_one
  restore_each-All P base r [] k h n = h
  restore_each-All P base r (item ∷ items) k h n =
      restore_each-All P base (restore_one base r item) items k
        (All-append P r.outbound (rebase base item ∷ []) h (k item n.0, tt)) n.1

  restore_each-failed :
      (base : Option ℕ) (r : RnsRouter fl S R) (items : List (QueuedMessage fl))
      → (restore_each base r items).failed ≡ r.failed
  unfolding restore_each restore_one
  restore_each-failed base r [] = refl
  restore_each-failed base r (item ∷ items) =
      restore_each-failed base (restore_one base r item) items

  restore_each-retry :
      (base : Option ℕ) (r : RnsRouter fl S R) (items : List (QueuedMessage fl))
      → (restore_each base r items).retry ≡ r.retry
  unfolding restore_each restore_one
  restore_each-retry base r [] = refl
  restore_each-retry base r (item ∷ items) = restore_each-retry base (restore_one base r item) items

  restore_each-length :
      (base : Option ℕ) (r : RnsRouter fl S R) (items : List (QueuedMessage fl))
      → length (restore_each base r items).outbound ≡ length r.outbound + length items
  unfolding restore_each restore_one
  restore_each-length base r [] = omega arith
  restore_each-length base r (item ∷ items) = omega (
    arith,
    restore_each-length base (restore_one base r item) items,
    length-append r.outbound (rebase base item ∷ []),
  )

-- A router that `with_store` makes of a store.
module _ {fl : Float} {S : Type 0} (R : Type 0) (ms : MessageStore fl S) (store : S)
    (retry : RetryPolicy) where
  abbrev first : RnsRouter fl S R
  first = restored ms store retry

  abbrev items : List (QueuedMessage fl)
  unfolding sort_by_id
  items = sort_by_id (ms.load_outbound store)

  abbrev base : Option ℕ
  unfolding has_immediate least_attempt_time
  base = if has_immediate items then none else least_attempt_time items

  abbrev blank : RnsRouter fl S R
  unfolding created
  blank = created store retry

  pub restored-All :
      (P : QueuedMessage fl → Type 0)
      → ((base : Option ℕ) (item : QueuedMessage fl) → P item → P (rebase base item))
      → All P (ms.load_outbound store)
      → All P first.outbound
  unfolding restored restore_outbound created
  restored-All P k n =
      restore_each-All P base blank items (k base) tt (sort_by_id-All P (ms.load_outbound store) n)

  pub restored-failed : first.failed ≡ []
  unfolding restored restore_outbound created
  restored-failed = restore_each-failed base blank items

  pub restored-retry : first.retry ≡ retry
  unfolding restored restore_outbound created
  restored-retry = restore_each-retry base blank items

  pub restored-length : length first.outbound ≡ length (ms.load_outbound store)
  unfolding restored restore_outbound created
  restored-length =
      omega
        (arith, restore_each-length base blank items, sort_by_id-length (ms.load_outbound store))

  pub restored-count :
      (i : ℕ)
      → count i (outbound_ids first.outbound) ≡ count i (outbound_ids (ms.load_outbound store))
  unfolding restored restore_outbound created
  restored-count i =
      omega
        (arith, restore_each-count i base blank items, sort_by_id-count i (ms.load_outbound store))

  pub restored-fresh :
      All HasNext (ms.load_outbound store) → All (λ m. m.id < first.next_id) first.outbound
  unfolding restored restore_outbound created
  restored-fresh n =
      restore_each-fresh base blank items tt (sort_by_id-All HasNext (ms.load_outbound store) n)

-- The other constructors are those of an empty store.
with_retry-restored :
    {fl : Float} {R : Type 0} (retry : RetryPolicy)
    → with_retry {fl = fl} {R = R} retry ≡ restored in_memory empty retry
unfolding with_retry restored restore_outbound sort_by_id in_memory restore_each
with_retry-restored retry = refl

new-with_store : {fl : Float} {R : Type 0} → new {fl = fl} {R = R} ≡ with_store in_memory empty
unfolding new with_store restored restore_outbound sort_by_id in_memory restore_each
new-with_store = refl
