-- ===== src/Stamp/Search.antt =====
-- The search for a stamp and the validation of what it finds.
use mathlib.Core.Path.{subst}
use lxmf_rs.Prelude.{
  ℕ, zero, suc, ◌+◌, ◌-◌, ◌≤◌, ◌<◌, ◌≡◌, refl, sym, ap, ◌∙◌, inl, inr, true, false, Option, none,
  some, ◌++◌, arith, Bytes, Bool-cases, Option-cases, leb, length, take, drop, take-append,
  drop-append, take-append-drop, length-drop, length-take, length-append, if◌then◌else◌,
}
use lxmf_rs.Crypto.{Crypto}
use lxmf_rs.Wire.Value.{Float, Msgpack}
use lxmf_rs.Stamp.{
  search_stamp, stamp_valid, stamp_value, max_rounds, generate_stamp, stamp_workblock,
  validate_pn_stamp, lxmf_overhead, stamp_size, workblock_expand_rounds_pn,
}

-- What a search of the rounds `n` to `n + rounds` ends with.
abbrev pub Finds : Crypto → (ℕ → Bytes) → Bytes → ℕ → ℕ → ℕ → Option Bytes × ℕ → Type 0
Finds cr random workblock cost rounds n (none, value) =
    (value ≡ 0) × ((i : ℕ) → i < rounds → stamp_valid cr workblock (random (n + i)) cost ≡ false)
Finds cr random workblock cost rounds n (some stamp, value) =
    (i : ℕ) × (i < rounds)
    × (stamp ≡ random (n + i))
    × (stamp_valid cr workblock stamp cost ≡ true)
    × (value ≡ stamp_value cr workblock stamp)
    × ((j : ℕ) → j < i → stamp_valid cr workblock (random (n + j)) cost ≡ false)

shift_all {ℓ} :
    (P : ℕ → Type ℓ) (n k : ℕ)
    → P n
    → ((i : ℕ) → i < k → P (n + 1 + i))
    → (i : ℕ) → i < suc k
    → P (n + i)
shift_all P n k first rest zero h = let e : n + 0 ≡ n = omega arith in rw e first
shift_all P n k first rest (suc i) h =
    let e : n + suc i ≡ n + 1 + i = omega arith in rw e (rest i (omega arith))

module _ (cr : Crypto) (random : ℕ → Bytes) (workblock : Bytes) (cost : ℕ) where
  abbrev Misses : ℕ → Type 0
  Misses i = stamp_valid cr workblock (random i) cost ≡ false

  later_Finds :
      (rounds n : ℕ) (r : Option Bytes × ℕ)
      → Misses n
      → Finds cr random workblock cost rounds (n + 1) r
      → Finds cr random workblock cost (suc rounds) n r
  later_Finds rounds n (none, value) e (v, all) = (v, shift_all Misses n rounds e all)
  later_Finds rounds n (some stamp, value) e (i, h, s, ok, v, before) =
      let k : n + suc i ≡ n + 1 + i = omega arith in
      (suc i, omega arith, rw k s, ok, v, shift_all Misses n i e before)

  -- The search takes the first stamp that meets the cost, with its value, and gives up exactly if
  -- none of its rounds draws one.
  pub search_stamp-Finds :
      (rounds n : ℕ)
      → Finds cr random workblock cost rounds n (search_stamp cr random workblock cost rounds n)
  unfolding search_stamp
  search_stamp-Finds zero n = (refl, λ i h. absurd (omega arith))
  search_stamp-Finds (suc rounds) n = elim (Bool-cases (stamp_valid cr workblock (random n) cost)) [
    | inl e ↦
        let k : n + 0 ≡ n = omega arith in
        rw e (0, omega arith, rw k, e, refl, λ j h. absurd (omega arith))
    | inr e ↦ rw e (later_Finds rounds n _ e (search_stamp-Finds rounds (n + 1)))
  ]

module _ {fl : Float} (cr : Crypto) (codec : Msgpack fl) where
  -- What `validate_pn_stamp` accepts.
  pub record IsStamped (transient_data : Bytes) (cost : ℕ) (r : Bytes × Bytes × ℕ × Bytes)
      : Type 0 where
    pub parts : r.1 ++ r.3 ≡ transient_data
    pub stamp_length : length r.3 ≡ stamp_size
    pub long_enough : lxmf_overhead < length r.1
    pub hashed : r.0 ≡ cr.sha256 r.1
    pub workblock : Bytes
    pub made : stamp_workblock cr codec r.0 workblock_expand_rounds_pn ≡ some workblock
    pub meets : stamp_valid cr workblock r.3 cost ≡ true
    pub worth : r.2 ≡ stamp_value cr workblock r.3

  abbrev checked : Bytes → Bytes → ℕ → Option (Bytes × Bytes × ℕ × Bytes)
  checked lxm stamp cost =
      elim (stamp_workblock cr codec (cr.sha256 lxm) workblock_expand_rounds_pn) [
        | none ↦ none
        | some workblock ↦
            if stamp_valid cr workblock stamp cost
            then some (cr.sha256 lxm, lxm, stamp_value cr workblock stamp, stamp)
            else none
      ]

  validate_pn_stamp-checked :
      (transient_data : Bytes) (cost : ℕ)
      → lxmf_overhead + stamp_size < length transient_data
      → let n = length transient_data - stamp_size in
        validate_pn_stamp cr codec transient_data cost
        ≡ checked (take n transient_data) (drop n transient_data) cost
  unfolding validate_pn_stamp
  validate_pn_stamp-checked d cost h =
      let e : leb (length d) (lxmf_overhead + stamp_size) ≡ false = ground arith in rw e

  pub generate_stamp_made :
      (random : ℕ → Bytes) (id workblock : Bytes) (cost rounds : ℕ)
      → stamp_workblock cr codec id rounds ≡ some workblock
      → generate_stamp cr codec random id cost rounds
        ≡ search_stamp cr random workblock cost (max_rounds cost) 0
  unfolding generate_stamp
  generate_stamp_made random id workblock cost rounds e = rw (e, generate_stamp)

  pub generate_stamp_failed :
      (random : ℕ → Bytes) (id : Bytes) (cost rounds : ℕ)
      → stamp_workblock cr codec id rounds ≡ none
      → generate_stamp cr codec random id cost rounds ≡ (none, 0)
  unfolding generate_stamp
  generate_stamp_failed random id cost rounds e = rw (e, generate_stamp)

  checked-generate_stamp :
      (random : ℕ → Bytes) (lxm stamp : Bytes) (value cost : ℕ)
      → generate_stamp cr codec random (cr.sha256 lxm) cost workblock_expand_rounds_pn
        ≡ (some stamp, value)
      → checked lxm stamp cost ≡ some (cr.sha256 lxm, lxm, value, stamp)
  checked-generate_stamp random lxm stamp value cost g =
      elim (Option-cases (stamp_workblock cr codec (cr.sha256 lxm) workblock_expand_rounds_pn)) [
        | inl e ↦ absurd (failed e)
        | inr (workblock, e) ↦
            let found : search_stamp cr random workblock cost (max_rounds cost) 0
                ≡ (some stamp, value) =
              sym (generate_stamp_made random (cr.sha256 lxm) workblock cost _ e) ∙ g in
            let (i, h, s, meets, worth, before) =
              subst (Finds cr random workblock cost (max_rounds cost) 0) found
                (search_stamp-Finds cr random workblock cost (max_rounds cost) 0) in
            rw (e, checked) (rw (meets, worth))
      ]
    where
      failed : stamp_workblock cr codec (cr.sha256 lxm) workblock_expand_rounds_pn ≡ none → ⊥
      failed e =
          let clash : ◌≡◌ {A = Option Bytes × ℕ} (none, 0) (some stamp, value) =
            sym (generate_stamp_failed random (cr.sha256 lxm) cost _ e) ∙ g in
          cc (ap (λ (r : Option Bytes × ℕ). r.0) clash)

  validate_pn_stamp_short :
      (transient_data : Bytes) (cost : ℕ)
      → leb (length transient_data) (lxmf_overhead + stamp_size) ≡ true
      → validate_pn_stamp cr codec transient_data cost ≡ none
  unfolding validate_pn_stamp
  validate_pn_stamp_short d cost short = rw short

  -- A message with the stamp that the search found for its hash, appended as `generate_propagation_stamp`
  -- has it, is accepted at the same cost, with the same id, value and stamp; this for a message longer
  -- than the overhead of the format and a stamp of 32 bytes.
  pub validate_pn_stamp-generate_stamp :
      (random : ℕ → Bytes) (lxm_data stamp : Bytes) (value cost : ℕ)
      → lxmf_overhead < length lxm_data
      → length stamp ≡ stamp_size
      → generate_stamp cr codec random (cr.sha256 lxm_data) cost workblock_expand_rounds_pn
        ≡ (some stamp, value)
      → validate_pn_stamp cr codec (lxm_data ++ stamp) cost
        ≡ some (cr.sha256 lxm_data, lxm_data, value, stamp)
  validate_pn_stamp-generate_stamp random lxm stamp value cost h s g =
      let size : length (lxm ++ stamp) ≡ length lxm + length stamp = length-append lxm stamp in
      let n : length lxm ≡ length (lxm ++ stamp) - stamp_size = omega arith in
      let cut : take (length (lxm ++ stamp) - stamp_size) (lxm ++ stamp) ≡ lxm =
        take-append _ lxm stamp n in
      let rest : drop (length (lxm ++ stamp) - stamp_size) (lxm ++ stamp) ≡ stamp =
        drop-append _ lxm stamp n in
      validate_pn_stamp-checked (lxm ++ stamp) cost (omega arith)
      ∙ ap (λ t. checked t (drop (length (lxm ++ stamp) - stamp_size) (lxm ++ stamp)) cost) cut
      ∙ ap (λ d. checked lxm d cost) rest
      ∙ checked-generate_stamp random lxm stamp value cost g

  checked-IsStamped :
      (lxm stamp : Bytes) (cost : ℕ) (r : Bytes × Bytes × ℕ × Bytes)
      → length stamp ≡ stamp_size
      → lxmf_overhead < length lxm
      → checked lxm stamp cost ≡ some r
      → IsStamped (lxm ++ stamp) cost r
  checked-IsStamped lxm stamp cost r s h e =
      elim (Option-cases (stamp_workblock cr codec (cr.sha256 lxm) workblock_expand_rounds_pn)) [
        | inl none_made ↦ absurd (ground arith)
        | inr (workblock, made) ↦ elim (Bool-cases (stamp_valid cr workblock stamp cost)) [
          | inl meets ↦
              let same : r ≡ (cr.sha256 lxm, lxm, stamp_value cr workblock stamp, stamp) =
                ground arith in
              rw same (record {
                parts = refl;
                stamp_length = s;
                long_enough = h;
                hashed = refl;
                workblock = workblock;
                made = made;
                meets = meets;
                worth = refl;
              })
          | inr misses ↦ absurd (ground arith)
        ]
      ]

  -- Whatever `validate_pn_stamp` accepts is a message longer than the overhead followed by a stamp of
  -- 32 bytes; the id it returns is the hash of the message, and the stamp meets the cost over the
  -- workblock of that id and has the returned value there.
  pub validate_pn_stamp-IsStamped :
      (transient_data : Bytes) (cost : ℕ) (r : Bytes × Bytes × ℕ × Bytes)
      → validate_pn_stamp cr codec transient_data cost ≡ some r
      → IsStamped transient_data cost r
  validate_pn_stamp-IsStamped d cost r e =
      elim (Bool-cases (leb (length d) (lxmf_overhead + stamp_size))) [
        | inl short ↦ absurd (refused short)
        | inr long ↦
            let n = length d - stamp_size in
            let big : lxmf_overhead + stamp_size < length d = ground arith in
            let below : n ≤ length d = omega arith in
            rw (sym (take-append-drop n d)) (
              checked-IsStamped (take n d) (drop n d) cost r (omega (arith, length-drop n d))
                (omega (arith, length-take n d below))
                (sym (validate_pn_stamp-checked d cost big) ∙ e))
      ]
    where
      refused : leb (length d) (lxmf_overhead + stamp_size) ≡ true → ⊥
      refused short = cc (validate_pn_stamp_short d cost short)
