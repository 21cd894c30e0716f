-- ===== src/ByteStream/Unbiased.antt =====
-- Why `below` of the byte stream is unbiased: what its threshold is, and how often each result
-- comes from the values under it.
use native.Mathlib.Nat.{
  pow-suc, mod-eq_of_lt, pow-le-pow_right, mul-le-mul_left, add_comm, mul_comm,
  add-mul-mod_self_left, add-zero, add-suc, zero-mul, div-add-mod', mul-div_cancel, mod-lt,
  le-mul_of_pos_right, le-div_iff_mul-le,
}
use native.Mathlib.Numerals.{towards_suc, add-one}
use igame.Common.{
  ℕ, zero, suc, ◌+◌, ◌-◌, ◌*◌, ◌/◌, ◌%◌, ◌^◌, ◌≤◌, ◌<◌, ◌≡◌, refl, arith, ◌==◌, if◌then◌else◌, ltb,
  inl, inr, Bool-cases, ap, sym, ◌∙◌,
}
use igame.ByteStream.{bits, bit_length, bytes_for, threshold_for}

-- `i + j` in Boolean steps: how many of the numbers below `n` give the remainder `r`.
pub hits : ℕ → ℕ → ℕ → ℕ
hits zero upper r = 0
hits (suc n) upper r = hits n upper r + (if n % upper == r then 1 else 0)

bits_bound : (f n : ℕ) → n ≤ f → n < 2 ^ bits f n
unfolding bits
bits_bound zero n h = omega arith
bits_bound (suc f) n h = elim (Bool-cases (n == 0)) [
  | inl e ↦ rw e (ground arith)
  | inr e ↦ rw (e, pow-suc) (ground (arith, bits_bound f (n / 2)))
]

-- A number lies below the power of two of its bit length.
pub lt-bit_length : (n : ℕ) → n < 2 ^ bit_length n
unfolding bit_length
lt-bit_length n = bits_bound n n (omega arith)

pow-add-eight : (x : ℕ) → 2 ^ (x + 8) ≡ 256 * 2 ^ x
pow-add-eight x = simp towards_suc (omega arith)

pow-split : (q r : ℕ) → 2 ^ (8 * q + r) ≡ 256 ^ q * 2 ^ r
pow-split zero r = let e : 8 * 0 + r ≡ r = omega arith in rw e (omega arith)
pow-split (suc q) r =
    let e : 8 * suc q + r ≡ 8 * q + r + 8 = omega arith in
    rw (e, pow-add-eight (8 * q + r), pow-split q r, pow-suc) (omega arith)

pow-le-bytes : (m : ℕ) → 2 ^ m ≤ 256 ^ (m / 8 + 1)
pow-le-bytes m =
    let e : m ≡ 8 * (m / 8) + m % 8 = omega arith in
    let small : 2 ^ (m % 8) ≤ 2 ^ 8 =
      pow-le-pow_right {n = 2} (omega arith) {i = m % 8} {j = 8} (omega arith) in
    let bound : 256 ^ (m / 8) * 2 ^ (m % 8) ≤ 256 ^ (m / 8) * 256 =
      mul-le-mul_left (256 ^ (m / 8)) small in
    let split : 2 ^ m ≡ 256 ^ (m / 8) * 2 ^ (m % 8) =
      ap (λ (k : ℕ). 2 ^ k) e ∙ pow-split (m / 8) (m % 8) in
    rw (add-one, pow-suc) (omega (arith, split))

pub upper-le-limit : (upper : ℕ) → 0 < upper → upper ≤ 256 ^ bytes_for upper
upper-le-limit upper h = omega (
  arith,
  lt-bit_length (upper - 1),
  pow-le-bytes (bit_length (upper - 1)),
  pow-le-pow_right {n = 256} (omega arith) {i = bit_length (upper - 1) / 8 + 1}
      {j = bytes_for upper} (omega arith),
)

mod-block : (q upper k : ℕ) → k < upper → (q * upper + k) % upper ≡ k
mod-block q upper k h =
    rw (add_comm (q * upper) k, mul_comm q upper, add-mul-mod_self_left k upper q) (mod-eq_of_lt h)

-- A whole number of blocks of `upper` values has each remainder once per block.
hits-block :
    (q upper r k : ℕ)
    → r < upper
    → k ≤ upper
    → hits (q * upper + k) upper r ≡ hits (q * upper) upper r + (if ltb r k then 1 else 0)
unfolding hits
hits-block q upper r zero hr hk = rw add-zero (ground arith)
hits-block q upper r (suc k) hr hk =
    rw (add-suc, mod-block q upper k hk) (ground (arith, hits-block q upper r k hr))

hits-blocks : (q upper r : ℕ) → r < upper → hits (q * upper) upper r ≡ q
unfolding hits
hits-blocks zero upper r h = rw (zero-mul) refl
hits-blocks (suc q) upper r h =
    let e : suc q * upper ≡ q * upper + upper = omega arith in
    rw e (ground (arith, hits-block q upper r upper h, hits-blocks q upper r h))

-- For every positive bound: the threshold is no more than the number of values that
-- the sampled bytes can have, more than half of it, and each result below the bound comes from
-- equally many of the values under the threshold.
pub threshold_unbiased :
    (upper : ℕ)
    → 0 < upper
    → (threshold_for upper ≤ 256 ^ bytes_for upper)
      × (256 ^ bytes_for upper < 2 * threshold_for upper)
      × ((r : ℕ) → r < upper → hits (threshold_for upper) upper r ≡ threshold_for upper / upper)
threshold_unbiased upper h =
    let n : ℕ = 256 ^ bytes_for upper in
    let whole : n - n % upper ≡ n / upper * upper = omega (arith, div-add-mod' n upper) in
    let some_block : 1 ≤ n / upper =
      (le-div_iff_mul-le {k = upper} {x = 1} {y = n} h).1 (omega (arith, upper-le-limit upper h)) in
    (
      omega arith,
      omega (
        arith,
        whole,
        mod-lt n {m = upper} h,
        le-mul_of_pos_right {m = n / upper} upper some_block,
      ),
      λ r hr. rw whole (hits-blocks (n / upper) upper r hr ∙ sym (mul-div_cancel (n / upper) h)),
    )
