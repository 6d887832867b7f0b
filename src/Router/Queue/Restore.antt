-- ===== src/Router/Queue/Restore.antt =====
-- `restore_outbound` and `with_store` of `RnsRouter` in lxmf-rs/src/rns/router.rs.
use lxmf_rs.Prelude.{
  ℕ, ◌-◌, min, max, Bool, false, Option, none, some, List, [], ◌∷◌, ◌++◌, ltb, leb, ◌==◌, ◌&&◌,
  ◌||◌, if◌then◌else◌, saturating_add64,
}
use lxmf_rs.Wire.Value.{Float}
use lxmf_rs.Router.Queue.Store.{QueuedMessage, MessageStore}
use lxmf_rs.Router.Queue.{RnsRouter, RetryPolicy, default_retry, created}

-- `Vec::sort_by_key` on the id: a stable sort.
unfoldable pub insert_by_id :
    {fl : Float} → QueuedMessage fl → List (QueuedMessage fl) → List (QueuedMessage fl)
insert_by_id x [] = x ∷ []
insert_by_id x (y ∷ ys) =
    let rest = insert_by_id x ys in if leb x.id y.id then x ∷ y ∷ ys else y ∷ rest

unfoldable pub sort_by_id : {fl : Float} → List (QueuedMessage fl) → List (QueuedMessage fl)
unfolding insert_by_id
sort_by_id [] = []
sort_by_id (x ∷ xs) = insert_by_id x (sort_by_id xs)

module _ {fl : Float} where
  unfoldable pub has_immediate : List (QueuedMessage fl) → Bool
  has_immediate [] = false
  has_immediate (x ∷ xs) = (x.next_attempt_at_ms == 0) || has_immediate xs

  unfoldable pub least_attempt_time : List (QueuedMessage fl) → Option ℕ
  least_attempt_time [] = none
  least_attempt_time (x ∷ xs) = elim (least_attempt_time xs) [
    | none ↦ if ltb 0 x.next_attempt_at_ms then some x.next_attempt_at_ms else none
    | some t ↦ if ltb 0 x.next_attempt_at_ms then some (min x.next_attempt_at_ms t) else some t
  ]

  unfoldable pub rebase : Option ℕ → QueuedMessage fl → QueuedMessage fl
  rebase none item = item
  rebase (some base) item =
      if ltb 0 item.next_attempt_at_ms && leb base item.next_attempt_at_ms
      then record item { next_attempt_at_ms = item.next_attempt_at_ms - base }
      else item

module _ {fl : Float} {S R : Type 0} where
  -- A round of the loop that appends the items and raises `next_id`.
  unfoldable pub restore_one : Option ℕ → RnsRouter fl S R → QueuedMessage fl → RnsRouter fl S R
  unfolding rebase
  restore_one base r item = record r {
    next_id = max r.next_id (saturating_add64 item.id 1);
    outbound = r.outbound ++ rebase base item ∷ [];
  }

  unfoldable pub restore_each :
      Option ℕ → RnsRouter fl S R → List (QueuedMessage fl) → RnsRouter fl S R
  unfolding restore_one
  restore_each base r [] = r
  restore_each base r (item ∷ items) = restore_each base (restore_one base r item) items

  unfoldable pub restore_outbound : MessageStore fl S → RnsRouter fl S R → RnsRouter fl S R
  unfolding sort_by_id has_immediate least_attempt_time restore_each
  restore_outbound ms r =
      let items = sort_by_id (ms.load_outbound r.store) in
      let base = if has_immediate items then none else least_attempt_time items in
      restore_each base r items

  -- What `with_store` makes of a store, for any policy.
  unfoldable pub restored : MessageStore fl S → S → RetryPolicy → RnsRouter fl S R
  unfolding created restore_outbound
  restored ms store retry = restore_outbound ms (created store retry)

  unfoldable pub with_store : MessageStore fl S → S → RnsRouter fl S R
  unfolding restored
  with_store ms store = restored ms store default_retry
