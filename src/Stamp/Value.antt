-- ===== src/Stamp/Value.antt =====
-- What a stamp is worth, and when it meets a cost, as statements about the number of its hash.
use native.Mathlib.Nat.{add_comm, one-le-pow, pow-le-pow_right, pow-suc}
use native.Mathlib.Numerals.{towards_suc}
use lxmf_rs.Prelude.{
  ℕ, suc, ◌+◌, ◌-◌, ◌*◌, ◌^◌, ◌≤◌, ◌<◌, ◌≡◌, refl, sym, ap, ◌∙◌, inl, inr, true, ◌⊎◌, ◌&&◌, ◌||◌,
  [], ◌∷◌, ◌++◌, arith, Bytes, Bool-cases, leb, leb→le, ◌==◌, length,
}
use lxmf_rs.Crypto.{Crypto}
use lxmf_rs.Stamp.{count_zeros, leading_zeros, target_of, not_above, stamp_value, stamp_valid}
use lxmf_rs.Stamp.Number.{
  target_of-AreBytes, length-target_of, number, number-lt, bytes_range, AreBytes, not_above-number,
  number-target_of, shift_lem, table, table_lem,
}

zeros_table :
    table 256 (λ b.
      (b == 0)
      || (leb ((b + 1) * 2 ^ leading_zeros b) 256 && leb 256 (b * 2 ^ leading_zeros b * 2)))
    ≡ true
unfolding table leading_zeros
zeros_table = refl

leading_zeros_lem :
    (b : ℕ)
    → b < 256
    → 0 < b
    → ((b + 1) * 2 ^ leading_zeros b ≤ 256) × (256 ≤ b * 2 ^ leading_zeros b * 2)
leading_zeros_lem b h p = let t = table_lem b 256 _ h zeros_table in ground arith

pow_eight : (v : ℕ) → 2 ^ (8 + v) ≡ 256 * 2 ^ v
pow_eight v = rw (add_comm 8 v) (simp towards_suc (omega arith))

mul_mono : (a b r : ℕ) → a ≤ b → a * r ≤ b * r
mul_mono a b r h = grind arith

-- A byte in front of a number `n` below `r`; `z` is the power of two for the byte's zeros.
shift_below : (b z r n : ℕ) → 0 < z → (b + 1) * z ≤ 256 → n < r → (b * r + n) * z < 256 * r
shift_below b z r n pos fits below =
    let row : b * r + n + 1 ≤ (b + 1) * r = omega arith in
    omega (arith, mul_mono _ _ z row, mul_mono _ _ r fits)

shift_above : (b z r n : ℕ) → 256 ≤ b * z * 2 → 256 * r ≤ (b * r + n) * z * 2
shift_above b z r n h = omega (arith, mul_mono _ _ r h)

zeros_above :
    (v l r n w : ℕ)
    → (v ≡ 8 * l) ⊎ (r ≤ n * w * 2)
    → (8 + v ≡ 8 * suc l) ⊎ (256 * r ≤ (0 * r + n) * (256 * w) * 2)
zeros_above v l r n w (inl h) = inl (omega arith)
zeros_above v l r n w (inr h) = inr (omega arith)

-- The count of leading zeros `v`: the number times 2 ^ v still fits, and times 2 ^ (v + 1) does not,
-- unless all bits are zero.
pub count_zeros_lem :
    (bs : Bytes)
    → AreBytes bs
    → (number bs * 2 ^ count_zeros bs < bytes_range (length bs))
      × ((count_zeros bs ≡ 8 * length bs)
          ⊎ (bytes_range (length bs) ≤ number bs * 2 ^ count_zeros bs * 2))
unfolding count_zeros number
count_zeros_lem [] h = (omega arith, inl refl)
count_zeros_lem (b ∷ bs) h =
    let (below, above) = count_zeros_lem bs h.1 in
    elim (Bool-cases (b == 0)) [
      | inl e ↦
          let none : b ≡ 0 = ground arith in
          rw (e, pow_eight (count_zeros bs), none) (omega arith, zeros_above _ _ _ _ _ above)
      | inr e ↦
          let some : 0 < b = ground arith in
          let (fits, top) = leading_zeros_lem b h.0 some in
          rw e (
            shift_below b _ _ _ (one-le-pow (leading_zeros b) 2 (omega arith)) fits
                (number-lt bs h.1),
            inr (shift_above b _ _ _ top),
          )
    ]

cancel : (n q p : ℕ) → 0 < p → n * p ≤ q * p → n ≤ q
cancel n q p pos h = elim (Bool-cases (leb n q)) [
  | inl e ↦ ground arith
  | inr e ↦ let more : q + 1 ≤ n = ground arith in absurd (omega (arith, mul_mono (q + 1) n p more))
]

abbrev whole : ℕ
whole = 2 ^ 256

pow_pos : (k : ℕ) → 0 < 2 ^ k
pow_pos k = one-le-pow k 2 (omega arith)

scaled_mono : (n i j : ℕ) → i ≤ j → n * 2 ^ i ≤ n * 2 ^ j
scaled_mono n i j h = omega (arith, mul_mono (2 ^ i) (2 ^ j) n (pow-le-pow_right (omega arith) h))

meets : (n v c q : ℕ) → q * 2 ^ c ≡ whole → n * 2 ^ v < whole → c ≤ v → n ≤ q
meets n v c q e below h = cancel n q (2 ^ c) (pow_pos c) (omega (arith, scaled_mono n c v h))

one_bit :
    (n v c q : ℕ)
    → q * 2 ^ c ≡ whole
    → whole ≤ n * 2 ^ v * 2
    → n ≤ q
    → v < c
    → (c ≡ v + 1) × (n ≡ q)
one_bit n v c q e above le h =
    let cap : n * 2 ^ c ≤ q * 2 ^ c = mul_mono n q (2 ^ c) le in
    let next : 2 ^ suc v ≡ 2 ^ v * 2 = pow-suc 2 v in
    let next' : 2 ^ suc (suc v) ≡ 2 ^ suc v * 2 = pow-suc 2 (suc v) in
    let grows : n * 2 ^ suc v ≤ n * 2 ^ c = scaled_mono n (suc v) c h in
    let full : n * 2 ^ suc v ≡ n * 2 ^ v * 2 = rw next (omega arith) in
    elim (Bool-cases (leb c (v + 1))) [
      | inl small ↦ (
        ground arith,
        let least : q ≤ n = cancel q n (2 ^ c) (pow_pos c) (omega arith) in omega arith,
      )
      | inr large ↦
          let far : n * 2 ^ suc (suc v) ≤ n * 2 ^ c =
            scaled_mono n (suc (suc v)) c (ground arith) in
          let full' : n * 2 ^ suc (suc v) ≡ n * 2 ^ v * 4 = rw (next', next) (omega arith) in
          absurd (omega arith)
    ]

-- The number of the hash that a stamp makes over a workblock.
abbrev pub hash_number : Crypto → Bytes → Bytes → ℕ
hash_number cr workblock stamp = number (cr.sha256 (workblock ++ stamp))

module _ (cr : Crypto) (workblock stamp : Bytes) where
  hash_range : bytes_range (length (cr.sha256 (workblock ++ stamp))) ≡ 2 ^ 256
  hash_range = ap bytes_range (cr.length-sha256 (workblock ++ stamp))

  -- The value of a stamp is the number of leading zero bits of its hash: shifted left by that many
  -- bits the hash still fits in 256 bits, and by one more it does not, unless the hash is zero.
  pub stamp_value-hash_number :
      let v = stamp_value cr workblock stamp in
      (hash_number cr workblock stamp * 2 ^ v < 2 ^ 256)
      × ((v ≡ 256) ⊎ (2 ^ 256 ≤ hash_number cr workblock stamp * 2 ^ v * 2))
  unfolding stamp_value
  stamp_value-hash_number =
      let (below, above) =
        count_zeros_lem (cr.sha256 (workblock ++ stamp)) (cr.bytes-sha256 (workblock ++ stamp)) in
      let size : length (cr.sha256 (workblock ++ stamp)) ≡ 32 =
        cr.length-sha256 (workblock ++ stamp) in
      (rw size at below, rw size at above)

  meets_target :
      (s : ℕ)
      → s < 256
      → not_above (cr.sha256 (workblock ++ stamp)) (target_of s)
        ≡ leb (hash_number cr workblock stamp) (2 ^ s)
  meets_target s h =
      not_above-number (cr.sha256 (workblock ++ stamp)) (target_of s)
        (cr.length-sha256 (workblock ++ stamp) ∙ sym (length-target_of s))
        (cr.bytes-sha256 (workblock ++ stamp)) (target_of-AreBytes s)
      ∙ ap (leb (hash_number cr workblock stamp)) (number-target_of s h)

  -- A stamp meets a cost from 1 to 256 exactly when its hash is at most 2 ^ (256 - cost); it meets
  -- the cost 0, and no cost over 256.
  pub stamp_valid-hash_number :
      (cost : ℕ)
      → stamp_valid cr workblock stamp cost
        ≡ ((cost == 0) || (leb cost 256 && leb (hash_number cr workblock stamp) (2 ^ (256 - cost))))
  unfolding stamp_valid
  stamp_valid-hash_number cost = ground (arith, meets_target (256 - cost))

  -- A stamp worth its cost or more meets it, for a cost of at most 256.
  pub stamp_valid_of_value :
      (cost : ℕ)
      → cost ≤ 256
      → cost ≤ stamp_value cr workblock stamp
      → stamp_valid cr workblock stamp cost ≡ true
  stamp_valid_of_value cost h p =
      let le =
        meets (hash_number cr workblock stamp) (stamp_value cr workblock stamp) cost
          (2 ^ (256 - cost)) (shift_lem cost h) stamp_value-hash_number.0 p in
      ground (arith, stamp_valid-hash_number cost)

  -- A stamp that meets a cost is worth the cost or one bit less. It is worth less only if its hash is
  -- the bound 2 ^ (256 - cost) itself.
  pub value_of_stamp_valid :
      (cost : ℕ)
      → stamp_valid cr workblock stamp cost ≡ true
      → (cost ≤ stamp_value cr workblock stamp)
        ⊎ ((cost ≡ stamp_value cr workblock stamp + 1)
            × (hash_number cr workblock stamp ≡ 2 ^ (256 - cost)))
  value_of_stamp_valid cost h = elim (Bool-cases (leb cost (stamp_value cr workblock stamp))) [
    | inl enough ↦ inl (leb→le _ _ enough)
    | inr short ↦
        let v = stamp_value cr workblock stamp in
        let less : v < cost = ground arith in
        let (fits, le) = bounds (omega arith) in
        elim stamp_value-hash_number.1 [
          | inl all ↦ absurd (omega arith)
          | inr above ↦ inr (one_bit _ v cost _ (shift_lem cost fits) above le less)
        ]
  ]
    where
      bounds : 0 < cost → (cost ≤ 256) × (hash_number cr workblock stamp ≤ 2 ^ (256 - cost))
      bounds pos = ground (arith, stamp_valid-hash_number cost)
