-- ===== src/Router/Queue/Delay.antt =====
-- The delay before a retry: `retry_delay_ms` of lxmf-rs/src/rns/router.rs.
use native.Mathlib.Nat.{pow-le-pow_right, pow-suc, mul-le-mul_left}
use lxmf_rs.Prelude.{ℕ, suc, ◌+◌, ◌-◌, ◌*◌, ◌^◌, ◌≤◌, ◌≡◌, min, arith, u64_max}
use lxmf_rs.Router.Queue.{RetryPolicy, retry_delay_ms}

-- The delay doubles with each attempt until it meets the longest one. For an attempt from the first
-- to the twentieth, and a longest delay within `u64`, the next delay is twice this one, or
-- `max_delay_ms` where that is less; no delay is longer than `max_delay_ms`, and none is shorter than
-- that of an earlier attempt.
pub retry_delay_ms-doubles :
    (policy : RetryPolicy) (attempt later : ℕ)
    → 1 ≤ attempt
    → attempt ≤ 20
    → attempt ≤ later
    → policy.max_delay_ms ≤ u64_max
    → (retry_delay_ms policy (attempt + 1)
        ≡ min (2 * retry_delay_ms policy attempt) policy.max_delay_ms)
      × (retry_delay_ms policy later ≤ policy.max_delay_ms)
      × (retry_delay_ms policy attempt ≤ retry_delay_ms policy later)
unfolding retry_delay_ms
retry_delay_ms-doubles policy attempt later first last h m =
    let now : min (attempt - 1) 20 ≡ attempt - 1 = omega arith in
    let next : min (attempt + 1 - 1) 20 ≡ suc (attempt - 1) = omega arith in
    let twice : policy.base_delay_ms * 2 ^ suc (attempt - 1)
        ≡ 2 * (policy.base_delay_ms * 2 ^ (attempt - 1)) =
      grind (arith, pow-suc 2 (attempt - 1)) in
    (
      rw (now, next, twice) (omega arith),
      omega arith,
      grind (
        arith,
        mul-le-mul_left policy.base_delay_ms (
            pow-le-pow_right {n = 2} (omega arith) {i = min (attempt - 1) 20}
              {j = min (later - 1) 20} (omega arith)),
      ),
    )
