-- ===== src/Router/DeliveredCache.antt =====
-- `DeliveredCache` of lxmf-rs/src/rns/router.rs: the bounded memory of delivered message ids.
pub mod History
use lxmf_rs.Prelude.{ℕ, Bool, true, false, List, [], ◌∷◌, ◌++◌, Bytes, Bytes-discrete, ltb, length}
use lxmf_rs.Prelude.HashMap.{contains, add, delete}

-- The front of `order` comes first.
pub record DeliveredCache : Type 0 where
  pub max_entries : ℕ
  pub order : List Bytes
  pub seen : List Bytes

unfoldable pub new : ℕ → DeliveredCache
new max_entries = record { max_entries = max_entries; order = []; seen = [] }

unfoldable pub seen_before : DeliveredCache → Bytes → Bool
seen_before c id = contains Bytes-discrete id c.seen

-- `while self.order.len() > self.max_entries { … }`: a round takes the front off `order`, so the
-- recursion is on that list, and its end is the `None` of `pop_front`.
evict : ℕ → List Bytes → List Bytes → List Bytes × List Bytes
evict max_entries [] seen = ([], seen)
evict max_entries (oldest ∷ order) seen = elim (ltb max_entries (length (oldest ∷ order))) [
  | true ↦ evict max_entries order (delete Bytes-discrete oldest seen)
  | false ↦ (oldest ∷ order, seen)
]

unfoldable pub mark_delivered : DeliveredCache → Bytes → DeliveredCache × Bool
unfolding evict
mark_delivered c id = elim (contains Bytes-discrete id c.seen) [
  | true ↦ (c, false)
  | false ↦
      let kept = evict c.max_entries (c.order ++ id ∷ []) (add Bytes-discrete id c.seen) in
      (record c { order = kept.0; seen = kept.1 }, true)
]
