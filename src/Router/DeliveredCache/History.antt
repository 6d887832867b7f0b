-- ===== src/Router/DeliveredCache/History.antt =====
-- The delivered cache against the history of deliveries: it holds the latest `max_entries` ids.
use lxmf_rs.Prelude.{
  ℕ, zero, suc, ◌-◌, ◌≤◌, ◌≡◌, refl, sym, ap, ◌∙◌, inl, inr, Bool, true, false, List, [], ◌∷◌, ◌++◌,
  arith, Bytes, Bytes-discrete, Bool-cases, ltb, length, drop, last, last-append_last,
  length-last-le, ite,
}
use lxmf_rs.Prelude.HashMap.{contains, add, delete, contains-delete, contains-add}
use lxmf_rs.Router.DeliveredCache.{DeliveredCache, new, seen_before, mark_delivered, evict}

drop-nil : (n : ℕ) → drop {A = Bytes} n [] ≡ []
drop-nil zero = refl
drop-nil (suc n) = refl

abbrev pub Unique : List Bytes → Type 0
Unique [] = Unit
Unique (x ∷ xs) = (contains Bytes-discrete x xs ≡ false) × Unique xs

-- The set holds what the queue holds.
abbrev pub Agrees : List Bytes → List Bytes → Type 0
Agrees seen order = (j : Bytes) → contains Bytes-discrete j seen ≡ contains Bytes-discrete j order

evict-order : (n : ℕ) (order seen : List Bytes) → (evict n order seen).0 ≡ last n order
unfolding evict
evict-order n [] seen = sym (drop-nil (0 - n))
evict-order n (x ∷ order) seen = elim (Bool-cases (ltb n (length (x ∷ order)))) [
  | inl e ↦
      let k : suc (length order) - n ≡ suc (length order - n) = ground arith in
      rw (e, evict) (rw k (evict-order n order (delete Bytes-discrete x seen)))
  | inr e ↦ let k : suc (length order) - n ≡ 0 = ground arith in rw (e, evict) (rw k)
]

evict-Agrees :
    (n : ℕ) (order seen : List Bytes)
    → Unique order
    → Agrees seen order
    → Agrees (evict n order seen).1 (evict n order seen).0
unfolding evict contains
evict-Agrees n [] seen u a = a
evict-Agrees n (x ∷ order) seen u a = elim (Bool-cases (ltb n (length (x ∷ order)))) [
  | inl e ↦ rw (e, evict) (evict-Agrees n order (delete Bytes-discrete x seen) u.1 tail)
  | inr e ↦ rw (e, evict) a
]
  where
    tail : Agrees (delete Bytes-discrete x seen) order
    tail j = ground (arith, contains-delete Bytes-discrete x j seen, a j, u.0)

contains-append :
    (j x : Bytes) (xs : List Bytes)
    → contains Bytes-discrete j (xs ++ x ∷ [])
      ≡ ite (Bytes-discrete x j) true (contains Bytes-discrete j xs)
unfolding contains
contains-append j x [] = refl
contains-append j x (y ∷ xs) = ground (arith, contains-append j x xs)

append-Unique :
    (x : Bytes) (xs : List Bytes)
    → contains Bytes-discrete x xs ≡ false
    → Unique xs
    → Unique (xs ++ x ∷ [])
unfolding contains
append-Unique x [] h u = (refl, tt)
append-Unique x (y ∷ xs) h u =
    (ground (arith, contains-append y x xs, u.0), append-Unique x xs (ground arith) u.1)

drop-Unique : (n : ℕ) (xs : List Bytes) → Unique xs → Unique (drop n xs)
drop-Unique zero xs u = u
drop-Unique (suc n) [] u = u
drop-Unique (suc n) (x ∷ xs) u = drop-Unique n xs u.1

-- The specification: the log of all accepted ids, oldest first. An id is accepted unless it is among
-- the latest `n` accepted ones.
pub spec_mark : ℕ → List Bytes → Bytes → List Bytes × Bool
spec_mark n log id = elim (contains Bytes-discrete id (last n log)) [
  | true ↦ (log, false)
  | false ↦ (log ++ id ∷ [], true)
]

pub spec_run : ℕ → List Bytes → List Bytes → List Bytes × List Bool
spec_run n log [] = (log, [])
spec_run n log (id ∷ ids) =
    let first = spec_mark n log id in
    let rest = spec_run n first.0 ids in (rest.0, first.1 ∷ rest.1)

pub run : DeliveredCache → List Bytes → DeliveredCache × List Bool
run c [] = (c, [])
run c (id ∷ ids) =
    let first = mark_delivered c id in let rest = run first.0 ids in (rest.0, first.1 ∷ rest.1)

-- A cache of `n` entries that stands for a log.
pub record Holds (n : ℕ) (log : List Bytes) (c : DeliveredCache) : Type 0 where
  pub bound : c.max_entries ≡ n
  pub latest : c.order ≡ last n log
  pub unique : Unique c.order
  pub agrees : Agrees c.seen c.order

module _ (c : DeliveredCache) (id : Bytes) where
  mark_old : contains Bytes-discrete id c.seen ≡ true → mark_delivered c id ≡ (c, false)
  unfolding mark_delivered
  mark_old e = rw (e, mark_delivered)

  mark_new :
      contains Bytes-discrete id c.seen ≡ false
      → let kept = evict c.max_entries (c.order ++ id ∷ []) (add Bytes-discrete id c.seen) in
        mark_delivered c id ≡ (record c { order = kept.0; seen = kept.1 }, true)
  unfolding mark_delivered
  mark_new e = rw (e, mark_delivered)

module _ (n : ℕ) (log : List Bytes) (id : Bytes) where
  spec_old : contains Bytes-discrete id (last n log) ≡ true → spec_mark n log id ≡ (log, false)
  unfolding spec_mark
  spec_old e = rw (e, spec_mark)

  spec_new :
      contains Bytes-discrete id (last n log) ≡ false → spec_mark n log id ≡ (log ++ id ∷ [], true)
  unfolding spec_mark
  spec_new e = rw (e, spec_mark)

kept-Holds :
    (n : ℕ) (log : List Bytes) (c : DeliveredCache) (id : Bytes)
    → Holds n log c
    → contains Bytes-discrete id c.seen ≡ false
    → let kept = evict c.max_entries (c.order ++ id ∷ []) (add Bytes-discrete id c.seen) in
      Holds n (log ++ id ∷ []) (record c { order = kept.0; seen = kept.1 })
kept-Holds n log c id h e = record {
  bound = h.bound;
  latest = latest;
  unique = rw order (drop-Unique _ (c.order ++ id ∷ []) added);
  agrees = evict-Agrees c.max_entries (c.order ++ id ∷ []) _ added λ j.
      ground
        (arith, contains-add Bytes-discrete id j c.seen, contains-append j id c.order, h.agrees j);
}
  where
    order :
        (evict c.max_entries (c.order ++ id ∷ []) (add Bytes-discrete id c.seen)).0
        ≡ last c.max_entries (c.order ++ id ∷ [])
    order = evict-order c.max_entries (c.order ++ id ∷ []) (add Bytes-discrete id c.seen)

    latest :
        (evict c.max_entries (c.order ++ id ∷ []) (add Bytes-discrete id c.seen)).0
        ≡ last n (log ++ id ∷ [])
    latest =
        order
        ∙ ap (λ m. last m (c.order ++ id ∷ [])) h.bound
        ∙ ap (λ o. last n (o ++ id ∷ [])) h.latest
        ∙ last-append_last n log id

    added : Unique (c.order ++ id ∷ [])
    added = append-Unique id c.order (sym (h.agrees id) ∙ e) h.unique

mark_delivered-Holds :
    (n : ℕ) (log : List Bytes) (c : DeliveredCache) (id : Bytes)
    → Holds n log c
    → Holds n (spec_mark n log id).0 (mark_delivered c id).0
      × ((mark_delivered c id).1 ≡ (spec_mark n log id).1)
mark_delivered-Holds n log c id h = elim (Bool-cases (contains Bytes-discrete id c.seen)) [
  | inl e ↦ rw (mark_old c id e, spec_old n log id (sym same ∙ e)) (h, refl)
  | inr e ↦ rw (mark_new c id e, spec_new n log id (sym same ∙ e)) (kept-Holds n log c id h e, refl)
]
  where
    same : contains Bytes-discrete id c.seen ≡ contains Bytes-discrete id (last n log)
    same = h.agrees id ∙ ap (contains Bytes-discrete id) h.latest

run-Holds :
    (n : ℕ) (log : List Bytes) (c : DeliveredCache) (ids : List Bytes)
    → Holds n log c
    → Holds n (spec_run n log ids).0 (run c ids).0 × ((run c ids).1 ≡ (spec_run n log ids).1)
unfolding run spec_run
run-Holds n log c [] h = (h, refl)
run-Holds n log c (id ∷ ids) h =
    let (h', r) = mark_delivered-Holds n log c id h in
    let (h'', rs) = run-Holds n (spec_mark n log id).0 (mark_delivered c id).0 ids h' in (h'', cc)

new-Holds : (n : ℕ) → Holds n [] (new n)
unfolding new
new-Holds n = record {
  bound = refl;
  latest = sym (drop-nil (0 - n));
  unique = tt;
  agrees = λ j. refl;
}

-- From a new cache of any size, every sequence of deliveries gets the answers of the log: an id is
-- accepted exactly when it is not among the latest `max_entries` accepted ids. Then the queue holds
-- those ids in order and none twice, `seen_before` answers for exactly those, and the queue is no
-- longer than `max_entries`.
pub run-new-spec_run :
    (n : ℕ) (ids : List Bytes)
    → let c = (run (new n) ids).0 in
      let log = (spec_run n [] ids).0 in
      ((run (new n) ids).1 ≡ (spec_run n [] ids).1)
      × (c.order ≡ last n log)
      × Unique c.order
      × ((j : Bytes) → seen_before c j ≡ contains Bytes-discrete j (last n log))
      × (length c.order ≤ n)
unfolding seen_before
run-new-spec_run n ids =
    let (h, r) = run-Holds n [] (new n) ids (new-Holds n) in
    (
      r,
      h.latest,
      h.unique,
      λ j. h.agrees j ∙ ap (contains Bytes-discrete j) h.latest,
      rw h.latest (length-last-le n (spec_run n [] ids).0),
    )
