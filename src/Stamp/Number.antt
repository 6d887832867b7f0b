-- ===== src/Stamp/Number.antt =====
-- A hash as a number, most significant byte first, and the comparison of byte strings as the order of
-- these numbers.
use lxmf_rs.Prelude.{
  ℕ, zero, suc, ◌+◌, ◌-◌, ◌*◌, ◌%◌, ◌^◌, ◌≤◌, ◌<◌, ◌≡◌, refl, Bool, true, false, ◌&&◌, [], ◌∷◌,
  arith, Bytes, ltb, leb, ◌==◌, length, length-set, All, All-set, replicate, ltb→lt, if◌then◌else◌,
}
use lxmf_rs.Stamp.{not_above, target_of}

abbrev pub bytes_range : ℕ → ℕ
bytes_range zero = 1
bytes_range (suc n) = 256 * bytes_range n

unfoldable pub number : Bytes → ℕ
number [] = 0
number (b ∷ bs) = b * bytes_range (length bs) + number bs

abbrev pub AreBytes : Bytes → Type 0
AreBytes bs = All (λ x. x < 256) bs

pub number-lt : (bs : Bytes) → AreBytes bs → number bs < bytes_range (length bs)
unfolding number
number-lt [] h = omega arith
number-lt (b ∷ bs) h =
    let r = bytes_range (length bs) in
    let below : number bs < r = number-lt bs h.1 in
    let most : suc b * r ≤ 256 * r = grind arith in grind arith

lex_lt : (h t r a b : ℕ) → a < r → h < t → h * r + a < t * r + b
lex_lt h t r a b p q = let m : suc h * r ≤ t * r = grind arith in grind arith

lex_step :
    (h t r a b : ℕ)
    → a < r
    → b < r
    → (if ltb h t then true else if ltb t h then false else leb a b) ≡ leb (h * r + a) (t * r + b)
lex_step h t r a b p q = ground (arith, lex_lt h t r a b, lex_lt t h r b a)

-- The comparison is that of the numbers.
pub not_above-number :
    (hs ts : Bytes)
    → length hs ≡ length ts
    → AreBytes hs
    → AreBytes ts
    → not_above hs ts ≡ leb (number hs) (number ts)
unfolding not_above number
not_above-number [] [] e p q = refl
not_above-number [] (t ∷ ts) e p q = absurd (omega arith)
not_above-number (h ∷ hs) [] e p q = absurd (omega arith)
not_above-number (h ∷ hs) (t ∷ ts) e p q =
    let same : length hs ≡ length ts = omega arith in
    let below : number ts < bytes_range (length hs) = rw same (number-lt ts q.1) in
    rw (not_above-number hs ts same p.1 q.1, ← same)
      (lex_step h t (bytes_range (length hs)) (number hs) (number ts) (number-lt hs p.1) below)

-- A test of every number below a bound, for tables that are computed.
unfoldable pub table : ℕ → (ℕ → Bool) → Bool
table zero holds = true
table (suc last) holds = table last holds && holds last

pub table_lem :
    (entry bound : ℕ) (holds : ℕ → Bool)
    → entry < bound
    → table bound holds ≡ true
    → holds entry ≡ true
unfolding table
table_lem entry zero holds below checked = absurd (omega arith)
table_lem entry (suc last) holds below checked = ground (arith, table_lem entry last holds)

target_table : table 256 (λ s. number (target_of s) == 2 ^ s) ≡ true
unfolding table number target_of
target_table = refl

pub number-target_of : (s : ℕ) → s < 256 → number (target_of s) ≡ 2 ^ s
number-target_of s h = let t = table_lem s 256 _ h target_table in ground arith

shift_table : table 257 (λ c. 2 ^ (256 - c) * 2 ^ c == 2 ^ 256) ≡ true
unfolding table
shift_table = refl

pub shift_lem : (c : ℕ) → c ≤ 256 → 2 ^ (256 - c) * 2 ^ c ≡ 2 ^ 256
shift_lem c h = let t = table_lem c 257 _ (omega arith) shift_table in ground arith

bit_table : table 8 (λ k. ltb (2 ^ k) 256) ≡ true
unfolding table
bit_table = refl

pub target_of-AreBytes : (s : ℕ) → AreBytes (target_of s)
unfolding target_of
target_of-AreBytes s =
    let t = table_lem (s % 8) 8 _ (omega arith) bit_table in
    All-set (λ x. x < 256) (replicate 32 0) _ _ (omega arith) (ltb→lt _ _ t)

pub length-target_of : (s : ℕ) → length (target_of s) ≡ 32
unfolding target_of
length-target_of s = length-set (replicate 32 0) _ _
