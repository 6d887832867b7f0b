-- ===== src/Tests/Stamps.antt =====
-- Examples for the stamps of lxmf-rs/src/message.rs.
use lxmf_rs.Prelude.{
  ℕ, ◌+◌, ◌-◌, ◌*◌, ◌^◌, ◌≤◌, ◌<◌, ◌≡◌, refl, ◌&&◌, ◌||◌, ◌⊎◌, some, [], ◌∷◌, ◌++◌, arith, Bytes,
  leb, ◌==◌, replicate,
}
use lxmf_rs.Stamp.{stamp_valid, stamp_value, search_stamp, validate_pn_stamp, generate_stamp}
use lxmf_rs.Stamp.Value.{
  hash_number, stamp_value-hash_number, stamp_valid-hash_number, value_of_stamp_valid,
}
use lxmf_rs.Stamp.Search.{
  Finds, IsStamped, search_stamp-Finds, validate_pn_stamp-generate_stamp,
  validate_pn_stamp-IsStamped,
}
use lxmf_rs.Wire.Value.{nil}
use lxmf_rs.Tests.{toy_crypto, codec_of, hash32}

-- Three bytes: the digest begins with 3, six zero bits.
abbrev block : Bytes
block = 1 ∷ 2 ∷ []

abbrev good : Bytes
good = 9 ∷ []

abbrev tries : ℕ → Bytes
tries n = replicate (200 - n * 199) n

stamp_value-hash_number_example :
    let v = stamp_value toy_crypto block good in
    (hash_number toy_crypto block good * 2 ^ v < 2 ^ 256)
    × ((v ≡ 256) ⊎ (2 ^ 256 ≤ hash_number toy_crypto block good * 2 ^ v * 2))
stamp_value-hash_number_example = stamp_value-hash_number toy_crypto block good

stamp_valid-hash_number_example :
    stamp_valid toy_crypto block good 6
    ≡ ((6 == 0) || (leb 6 256 && leb (hash_number toy_crypto block good) (2 ^ (256 - 6))))
stamp_valid-hash_number_example = stamp_valid-hash_number toy_crypto block good 6

value_of_stamp_valid_example :
    (6 ≤ stamp_value toy_crypto block good)
    ⊎ ((6 ≡ stamp_value toy_crypto block good + 1)
        × (hash_number toy_crypto block good ≡ 2 ^ (256 - 6)))
unfolding stamp_valid
value_of_stamp_valid_example = value_of_stamp_valid toy_crypto block good 6 refl

-- The first try misses and the second one meets the cost.
search_stamp-Finds_example :
    Finds toy_crypto tries block 4 5 0 (search_stamp toy_crypto tries block 4 5 0)
search_stamp-Finds_example = search_stamp-Finds toy_crypto tries block 4 5 0

abbrev lxm : Bytes
lxm = replicate 120 3

validate_pn_stamp-generate_stamp_example :
    validate_pn_stamp toy_crypto (codec_of nil) (lxm ++ hash32 5) 4
    ≡ some (toy_crypto.sha256 lxm, lxm, 4, hash32 5)
unfolding generate_stamp stamp_valid stamp_value
validate_pn_stamp-generate_stamp_example =
    validate_pn_stamp-generate_stamp toy_crypto (codec_of nil) (λ n. hash32 5) lxm (hash32 5) 4 4
      (omega arith) refl refl

validate_pn_stamp-IsStamped_example :
    IsStamped toy_crypto
      (codec_of nil)
      (lxm ++ hash32 5)
      4
      (toy_crypto.sha256 lxm, lxm, 4, hash32 5)
unfolding validate_pn_stamp
validate_pn_stamp-IsStamped_example =
    validate_pn_stamp-IsStamped toy_crypto (codec_of nil) (lxm ++ hash32 5) 4
      (toy_crypto.sha256 lxm, lxm, 4, hash32 5) refl
