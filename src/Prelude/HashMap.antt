-- ===== src/Prelude/HashMap.antt =====
-- `HashMap` and `HashSet` of the standard library as association lists and lists. The program
-- relies on no order of iteration; here an entry that is inserted comes first.
use Prim.Native.Nat.{◌+◌}
use mathlib.Core.Bool.{Bool, true, false, not}
use mathlib.Core.List.{List, [], ◌∷◌}
use mathlib.Core.Logic.{ite, inl, inr}
use mathlib.Core.Option.{Option, none, some}
use mathlib.Core.Path.{◌≡◌, refl, ap, ◌∙◌, subst}
use native.Mathlib.Omega.{arith}
use lxmf_rs.Prelude.Lists.{length, All, retain, retain_kept, retain_dropped}
use lxmf_rs.Prelude.Tests.{Bool-cases}

module _ {ℓ} {K V : Type ℓ} (dec : Discrete K) where
  unfoldable pub get : K → List (K × V) → Option V
  get k [] = none
  get k ((j, v) ∷ m) = ite (dec j k) (some v) (get k m)

  unfoldable pub remove : K → List (K × V) → List (K × V)
  remove k [] = []
  remove k ((j, v) ∷ m) = let rest = remove k m in ite (dec j k) rest ((j, v) ∷ rest)

  unfoldable pub insert : K → V → List (K × V) → List (K × V)
  unfolding remove
  insert k v m = (k, v) ∷ remove k m

  -- `contains_key`.
  unfoldable pub has : K → List (K × V) → Bool
  unfolding get
  has k m = elim (get k m) [ none ↦ false | some _ ↦ true ]

  -- No key occurs twice: what makes the list a map.
  abbrev pub Distinct : List (K × V) → Type ℓ
  Distinct [] = Unit
  Distinct (e ∷ m) = (get e.0 m ≡ none) × Distinct m

  pub get-remove : (k j : K) (m : List (K × V)) → get j (remove k m) ≡ ite (dec k j) none (get j m)
  unfolding get remove
  get-remove k j [] = ground arith
  get-remove k j ((i, v) ∷ m) = ground (arith, get-remove k j m)

  pub get-insert :
      (k j : K) (v : V) (m : List (K × V)) → get j (insert k v m) ≡ ite (dec k j) (some v) (get j m)
  unfolding get insert
  get-insert k j v m = ground (arith, get-remove k j m)

  pub get-insert_self : (k : K) (v : V) (m : List (K × V)) → get k (insert k v m) ≡ some v
  get-insert_self k v m = ground (arith, get-insert k k v m)

  pub get-remove_self : (k : K) (m : List (K × V)) → get k (remove k m) ≡ none
  get-remove_self k m = ground (arith, get-remove k k m)

  pub remove-Distinct : (k : K) (m : List (K × V)) → Distinct m → Distinct (remove k m)
  unfolding remove
  remove-Distinct k [] d = d
  remove-Distinct k ((i, v) ∷ m) d = ground (arith, remove-Distinct k m d.1, get-remove k i m)

  pub insert-Distinct : (k : K) (v : V) (m : List (K × V)) → Distinct m → Distinct (insert k v m)
  unfolding insert
  insert-Distinct k v m d = (get-remove_self k m, remove-Distinct k m d)

  pub remove_absent : (k : K) (m : List (K × V)) → get k m ≡ none → remove k m ≡ m
  unfolding get remove
  remove_absent k [] h = refl
  remove_absent k ((i, v) ∷ m) h = ground (arith, remove_absent k m)

  pub length-remove_present :
      (k : K) (v : V) (m : List (K × V))
      → Distinct m
      → get k m ≡ some v
      → length (remove k m) + 1 ≡ length m
  unfolding get remove
  length-remove_present k v [] d h = absurd (ground arith)
  length-remove_present k v ((i, w) ∷ m) d h =
      ground (arith, length-remove_present k v m d.1, remove_absent k m)

  module _ {κ} (P : K × V → Type κ) where
    pub All-remove : (k : K) (m : List (K × V)) → All P m → All P (remove k m)
    unfolding remove
    All-remove k [] h = h
    All-remove k ((i, v) ∷ m) h = ground (arith, All-remove k m h.1)

    pub All-get : (k : K) (v : V) (m : List (K × V)) → All P m → get k m ≡ some v → P (k, v)
    unfolding get
    All-get k v [] h e = absurd (ground arith)
    All-get k v ((i, w) ∷ m) h e = ground (arith, All-get k v m h.1)

-- Sets.
module _ {K : Type 0} (dec : Discrete K) where
  unfoldable pub contains : K → List K → Bool
  contains k [] = false
  contains k (j ∷ s) = ite (dec j k) true (contains k s)

  -- `HashSet::insert`, without its result.
  unfoldable pub add : K → List K → List K
  unfolding contains
  add k s = elim (contains k s) [ true ↦ s | false ↦ k ∷ s ]

  unfoldable pub delete : K → List K → List K
  delete k [] = []
  delete k (j ∷ s) = let rest = delete k s in ite (dec j k) rest (j ∷ rest)

  pub contains-delete :
      (k j : K) (s : List K) → contains j (delete k s) ≡ ite (dec k j) false (contains j s)
  unfolding contains delete
  contains-delete k j [] = ground arith
  contains-delete k j (i ∷ s) = ground (arith, contains-delete k j s)

  pub contains-add :
      (k j : K) (s : List K) → contains j (add k s) ≡ ite (dec k j) true (contains j s)
  unfolding contains add
  contains-add k j s = ground arith

-- `for id in ids { map.remove(id) }`, with the ids of the entries that pass a test: what is left is
-- what fails it.
module _ {K V : Type 0} (dec : Discrete K) where
  abbrev pub keys : List (K × V) → List K
  keys [] = []
  keys (e ∷ m) = e.0 ∷ keys m

  unfoldable pub remove_all : List K → List (K × V) → List (K × V)
  remove_all [] m = m
  remove_all (k ∷ ks) m = remove_all ks (remove dec k m)

  remove_all-cons :
      (ks : List K) (k : K) (v : V) (m : List (K × V))
      → contains dec k ks ≡ false
      → remove_all ks ((k, v) ∷ m) ≡ (k, v) ∷ remove_all ks m
  unfolding remove_all contains
  remove_all-cons [] k v m h = refl
  remove_all-cons (j ∷ ks) k v m h = elim (dec k j) [
    | yes p ↦ absurd (ground arith)
    | no p ↦
        let e : remove dec j ((k, v) ∷ m) ≡ (k, v) ∷ remove dec j m =
          unfold remove in ground arith in
        rw e (remove_all-cons ks k v (remove dec j m) (ground arith))
  ]

  pub contains-keys-retain :
      (p : K × V → Bool) (k : K) (m : List (K × V))
      → get dec k m ≡ none
      → contains dec k (keys (retain p m)) ≡ false
  unfolding get contains
  contains-keys-retain p k [] h = refl
  contains-keys-retain p k ((j, v) ∷ m) h = ground (arith, contains-keys-retain p k m)

  pub remove_all-keys-retain :
      (p : K × V → Bool) (m : List (K × V))
      → Distinct dec m
      → remove_all (keys (retain p m)) m ≡ retain (λ e. not (p e)) m
  unfolding remove_all
  remove_all-keys-retain p [] d = refl
  remove_all-keys-retain p ((k, v) ∷ m) d = elim (Bool-cases (p (k, v))) [
    | inl e ↦
        let gone : remove dec k ((k, v) ∷ m) ≡ m =
          unfold remove in ground (arith, remove_absent dec k m d.0) in
        rw (retain_kept p (k, v) m e, retain_dropped (λ x. not (p x)) (k, v) m (ap not e))
          (ap (remove_all (keys (retain p m))) gone ∙ remove_all-keys-retain p m d.1)
    | inr e ↦
        rw (retain_dropped p (k, v) m e, retain_kept (λ x. not (p x)) (k, v) m (ap not e))
          (remove_all-cons _ k v m (contains-keys-retain p k m d.0)
            ∙ ap (◌∷◌ (k, v)) (remove_all-keys-retain p m d.1))
  ]

  pub get-retain-none :
      (p : K × V → Bool) (k : K) (m : List (K × V))
      → get dec k m ≡ none
      → get dec k (retain p m) ≡ none
  unfolding get
  get-retain-none p k [] h = refl
  get-retain-none p k ((j, v) ∷ m) h = ground (arith, get-retain-none p k m)

  pub get-retain_kept :
      (p : K × V → Bool) (k : K) (v : V) (m : List (K × V))
      → get dec k m ≡ some v
      → p (k, v) ≡ true
      → get dec k (retain p m) ≡ some v
  unfolding get
  get-retain_kept p k v [] h t = absurd (ground arith)
  get-retain_kept p k v ((j, w) ∷ m) h t = elim (dec j k) [
    | yes e ↦
        subst
          (λ i.
            get dec i ((j, w) ∷ m) ≡ some v
            → p (i, v) ≡ true
            → get dec i (retain p ((j, w) ∷ m)) ≡ some v)
          e (λ g q. ground arith) h t
    | no n ↦ ground (arith, get-retain_kept p k v m)
  ]

  pub get-retain_dropped :
      (p : K × V → Bool) (k : K) (v : V) (m : List (K × V))
      → Distinct dec m
      → get dec k m ≡ some v
      → p (k, v) ≡ false
      → get dec k (retain p m) ≡ none
  unfolding get
  get-retain_dropped p k v [] d h t = refl
  get-retain_dropped p k v ((j, w) ∷ m) d h t = elim (dec j k) [
    | yes e ↦
        subst
          (λ i.
            get dec i ((j, w) ∷ m) ≡ some v
            → p (i, v) ≡ false
            → get dec i (retain p ((j, w) ∷ m)) ≡ none)
          e (λ g q. ground (arith, get-retain-none p j m d.0)) h t
    | no n ↦ ground (arith, get-retain_dropped p k v m d.1)
  ]

  pub retain-Distinct :
      (p : K × V → Bool) (m : List (K × V)) → Distinct dec m → Distinct dec (retain p m)
  retain-Distinct p [] d = tt
  retain-Distinct p ((k, v) ∷ m) d =
      ground (arith, retain-Distinct p m d.1, get-retain-none p k m d.0)

  pub has-insert :
      (k j : K) (v : V) (m : List (K × V))
      → has dec j (insert dec k v m) ≡ ite (dec k j) true (has dec j m)
  unfolding has
  has-insert k j v m = elim (dec k j) [
    | yes p ↦ ground (arith, get-insert dec k j v m)
    | no p ↦ ground (arith, get-insert dec k j v m)
  ]

  pub has-remove :
      (k j : K) (m : List (K × V)) → has dec j (remove dec k m) ≡ ite (dec k j) false (has dec j m)
  unfolding has
  has-remove k j m = ground (arith, get-remove dec k j m)

  pub has-insert_self : (k : K) (v : V) (m : List (K × V)) → has dec k (insert dec k v m) ≡ true
  has-insert_self k v m = ground (arith, has-insert k k v m)
