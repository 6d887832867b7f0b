-- ===== src/Stamp.antt =====
-- The proof-of-work stamps of lxmf-rs/src/message.rs: the workblock, the value of a stamp, the test
-- of a stamp against a cost, the search for one, and the stamps of a propagation node.
pub mod Number
pub mod Value
pub mod Search
use lxmf_rs.Prelude.{
  ℕ, zero, suc, ◌+◌, ◌-◌, ◌*◌, ◌/◌, ◌%◌, ◌^◌, Bool, true, false, Option, none, some, List, [], ◌∷◌,
  ◌++◌, Bytes, ltb, leb, ◌==◌, if◌then◌else◌, length, take, drop, set, replicate, u32_max,
}
use lxmf_rs.Crypto.{Crypto}
use lxmf_rs.Wire.Value.{Float, Msgpack, integer, pos}

abbrev pub stamp_size : ℕ
stamp_size = 32

-- LXMF_OVERHEAD of lxmf-rs/src/constants.rs.
abbrev pub lxmf_overhead : ℕ
lxmf_overhead = 2 * 16 + 64 + 8 + 8

abbrev pub workblock_expand_rounds : ℕ
workblock_expand_rounds = 3000

abbrev pub workblock_expand_rounds_pn : ℕ
workblock_expand_rounds_pn = 1000

abbrev pub workblock_expand_rounds_peering : ℕ
workblock_expand_rounds_peering = 25

-- `u8::leading_zeros`.
unfoldable pub leading_zeros : ℕ → ℕ
leading_zeros b =
    if leb 128 b
    then 0
    else if leb 64 b
    then 1
    else if leb 32 b
    then 2
    else if leb 16 b
    then 3
    else if leb 8 b
    then 4
    else if leb 4 b
    then 5
    else if leb 2 b
    then 6
    else if leb 1 b
    then 7
    else 8

-- The loop of `stamp_value` over the bytes of the hash.
unfoldable pub count_zeros : Bytes → ℕ
unfolding leading_zeros
count_zeros [] = 0
count_zeros (b ∷ bs) = let rest = count_zeros bs in if b == 0 then 8 + rest else leading_zeros b

-- `[0u8; HASH_LENGTH]` with one bit set.
unfoldable pub target_of : ℕ → Bytes
target_of shift = set (replicate 32 0) ((32 - 1) - shift / 8) (2 ^ (shift % 8))

-- The loop over `hash.iter().zip(target.iter())`.
unfoldable pub not_above : Bytes → Bytes → Bool
not_above (h ∷ hs) (t ∷ ts) =
    let rest = not_above hs ts in if ltb h t then true else if ltb t h then false else rest
not_above _ _ = true

module _ {fl : Float} (cr : Crypto) (codec : Msgpack fl) where
  -- `pack_u64_msgpack`.
  unfoldable pub pack_u64_msgpack : ℕ → Bytes
  pack_u64_msgpack value = codec.write_value (integer (pos value))

  -- `for n in 0..expand_rounds`, from `n`; `None` is the error of `expand`.
  unfoldable pub workblock_from : Bytes → ℕ → ℕ → Option Bytes
  unfolding pack_u64_msgpack
  workblock_from material zero n = some []
  workblock_from material (suc rounds) n =
      elim (cr.hkdf_expand (cr.sha256 (material ++ pack_u64_msgpack n)) material) [
        | none ↦ none
        | some out ↦ elim (workblock_from material rounds (n + 1)) [
          | none ↦ none
          | some rest ↦ some (out ++ rest)
        ]
      ]

  unfoldable pub stamp_workblock : Bytes → ℕ → Option Bytes
  unfolding workblock_from
  stamp_workblock material expand_rounds = workblock_from material expand_rounds 0

-- The most rounds of the search.
abbrev pub max_rounds : ℕ → ℕ
max_rounds stamp_cost =
    if leb stamp_cost 15 then u32_max else if leb stamp_cost 20 then 10_000_000 else 1_000_000

module _ (cr : Crypto) where
  unfoldable pub stamp_value : Bytes → Bytes → ℕ
  unfolding count_zeros
  stamp_value workblock stamp = count_zeros (cr.sha256 (workblock ++ stamp))

  unfoldable pub stamp_valid : Bytes → Bytes → ℕ → Bool
  unfolding not_above target_of
  stamp_valid workblock stamp target_cost =
      if target_cost == 0
      then true
      else if ltb 256 target_cost
      then false
      else (let shift = 256 - target_cost in
          if leb 256 shift
          then true
          else not_above (cr.sha256 (workblock ++ stamp)) (target_of shift))

  -- The loop of `generate_stamp`: `random n` is what `OsRng` writes in round `n`, and `rounds` those
  -- that are left. The loop has one round at least.
  unfoldable pub search_stamp : (ℕ → Bytes) → Bytes → ℕ → ℕ → ℕ → Option Bytes × ℕ
  search_stamp random workblock stamp_cost zero n = (none, 0)
  search_stamp random workblock stamp_cost (suc rounds) n =
      let rest = search_stamp random workblock stamp_cost rounds (n + 1) in
      if stamp_valid workblock (random n) stamp_cost
      then (some (random n), stamp_value workblock (random n))
      else rest

module _ {fl : Float} (cr : Crypto) (codec : Msgpack fl) where
  unfoldable pub generate_stamp : (ℕ → Bytes) → Bytes → ℕ → ℕ → Option Bytes × ℕ
  unfolding stamp_workblock search_stamp
  generate_stamp random message_id stamp_cost expand_rounds =
      elim (stamp_workblock cr codec message_id expand_rounds) [
        | none ↦ (none, 0)
        | some workblock ↦ search_stamp cr random workblock stamp_cost (max_rounds stamp_cost) 0
      ]

  unfoldable pub validate_peering_key : Bytes → Bytes → ℕ → Bool
  unfolding stamp_workblock stamp_valid
  validate_peering_key peering_id peering_key target_cost =
      elim (stamp_workblock cr codec peering_id workblock_expand_rounds_peering) [
        | none ↦ false
        | some workblock ↦ stamp_valid cr workblock peering_key target_cost
      ]

  unfoldable pub generate_peering_key : (ℕ → Bytes) → Bytes → ℕ → Option Bytes
  unfolding generate_stamp
  generate_peering_key random peering_id target_cost =
      (generate_stamp random peering_id target_cost workblock_expand_rounds_peering).0

  -- The transient id, the message without its stamp, the value and the stamp.
  unfoldable pub validate_pn_stamp : Bytes → ℕ → Option (Bytes × Bytes × ℕ × Bytes)
  unfolding stamp_workblock stamp_valid stamp_value
  validate_pn_stamp transient_data target_cost =
      if leb (length transient_data) (lxmf_overhead + stamp_size)
      then none
      else (let split_at = length transient_data - stamp_size in
          let lxm_data = take split_at transient_data in
          let stamp = drop split_at transient_data in
          let transient_id = cr.sha256 lxm_data in
          elim (stamp_workblock cr codec transient_id workblock_expand_rounds_pn) [
            | none ↦ none
            | some workblock ↦
                if stamp_valid cr workblock stamp target_cost
                then some (transient_id, lxm_data, stamp_value cr workblock stamp, stamp)
                else none
          ])
