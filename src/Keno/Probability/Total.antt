-- ===== src/Keno/Probability/Total.antt =====
-- The probabilities of a ticket's matches add up to one: Vandermonde's identity.
use native.Mathlib.Nat.{zero-add, sub-zero, suc-add, suc-sub-suc, eq_of_mul-eq-mul_left, mul_comm}
use igame.Common.{
  ℕ, zero, suc, ◌+◌, ◌-◌, ◌*◌, ◌≤◌, ◌<◌, ◌≡◌, refl, sym, ap, ◌∙◌, min, List, [], ◌∷◌, map, arith,
  leb, Bool-cases, inl, inr,
}
use igame.Common.Counts.{range}
use mathlib.Core.Path.{fun_ext}
use igame.Keno.Probability.{
  Fraction, fraction, add, comb, sum_fractions, probability_fraction, match_distribution,
}

-- The sum of `f k * g (n - k)` for `k` from 0 to `n`.
conv : (ℕ → ℕ) → (ℕ → ℕ) → ℕ → ℕ
conv f g zero = f 0 * g 0
conv f g (suc n) = f 0 * g (suc n) + conv (λ k. f (suc k)) g n

conv-add : (f h g : ℕ → ℕ) (n : ℕ) → conv (λ k. f k + h k) g n ≡ conv f g n + conv h g n
unfolding conv
conv-add f h g zero = omega arith
conv-add f h g (suc n) = omega (arith, conv-add (λ k. f (suc k)) (λ k. h (suc k)) g n)

conv-zero : (g : ℕ → ℕ) (n : ℕ) → conv (λ k. 0) g n ≡ 0
unfolding conv
conv-zero g zero = omega arith
conv-zero g (suc n) = omega (arith, conv-zero g n)

-- Vandermonde's identity.
conv-comb : (a b n : ℕ) → conv (comb a) (comb b) n ≡ comb (a + b) n
unfolding conv comb
conv-comb zero b zero = omega arith
conv-comb zero b (suc n) = rw zero-add (omega (arith, conv-zero (comb b) n))
conv-comb (suc a) b zero = omega arith
conv-comb (suc a) b (suc n) = rw suc-add (
    omega (
      arith,
      conv-add (comb a) (λ k. comb a (suc k)) (comb b) n,
      conv-comb a b n,
      conv-comb a b (suc n),
    ))

-- The first `m` values of `t` added up.
unfoldable pub tsum : (ℕ → ℕ) → ℕ → ℕ
tsum t zero = 0
tsum t (suc m) = t 0 + tsum (λ k. t (suc k)) m

conv-tsum : (f g : ℕ → ℕ) (n : ℕ) → tsum (λ k. f k * g (n - k)) (suc n) ≡ conv f g n
unfolding conv tsum
conv-tsum f g zero = omega arith
conv-tsum f g (suc n) =
    let shift : tsum (λ k. f (suc k) * g (suc n - suc k)) (suc n)
        ≡ tsum (λ k. f (suc k) * g (n - k)) (suc n) =
      ap (λ (t : ℕ → ℕ). tsum t (suc n))
        (fun_ext (λ (k : ℕ). ap (λ (x : ℕ). f (suc k) * g x) (suc-sub-suc n k))) in
    let first : f 0 * g (suc n - 0) ≡ f 0 * g (suc n) =
      ap (λ (x : ℕ). f 0 * g x) (sub-zero (suc n)) in
    omega (arith, shift, first, conv-tsum (λ k. f (suc k)) g n)

tsum-tail : (m n : ℕ) (t : ℕ → ℕ) → ((k : ℕ) → m ≤ k → t k ≡ 0) → m ≤ n → tsum t n ≡ tsum t m
unfolding tsum
tsum-tail m zero t h le = let e : m ≡ 0 = omega arith in rw e refl
tsum-tail zero (suc n) t h le = omega (
  arith,
  h 0 (omega arith),
  tsum-tail zero n (λ k. t (suc k)) (λ k p. h (suc k) (omega arith)) (omega arith),
)
tsum-tail (suc m) (suc n) t h le =
    omega (arith, tsum-tail m n (λ k. t (suc k)) (λ k p. h (suc k) (omega arith)) (omega arith))

comb-above : (n k : ℕ) → n < k → comb n k ≡ 0
unfolding comb
comb-above n zero h = elim h [ ]
comb-above zero (suc k) h = refl
comb-above (suc n) (suc k) h =
    omega (arith, comb-above n k (omega arith), comb-above n (suc k) (omega arith))

pub comb-pos : (n k : ℕ) → k ≤ n → 0 < comb n k
unfolding comb
comb-pos n zero h = omega arith
comb-pos zero (suc k) h = elim h [ ]
comb-pos (suc n) (suc k) h = omega (arith, comb-pos n k (omega arith))

-- The fraction is `n / d`.
abbrev pub IsOver : Fraction → ℕ → ℕ → Type 0
IsOver f n d = (f.num * d ≡ n * f.den) × (0 < f.den)

pub IsOver-add :
    (f g : Fraction) (a b d : ℕ) → IsOver f a d → IsOver g b d → IsOver (add f g) (a + b) d
unfolding add
IsOver-add f g a b d h k =
    (omega (arith, ap (λ (x : ℕ). x * g.den) h.0, ap (λ (x : ℕ). x * f.den) k.0), grind arith)

IsOver-sum :
    (p : ℕ → Fraction) (t : ℕ → ℕ) (d m lo : ℕ) (total : Fraction) (a : ℕ)
    → ((k : ℕ) → k < lo + m → IsOver (p k) (t k) d)
    → IsOver total a d
    → IsOver (sum_fractions total (map p (range lo m))) (a + tsum (λ k. t (lo + k)) m) d
unfolding tsum sum_fractions
IsOver-sum p t d zero lo total a each h = let e : a + 0 ≡ a = omega arith in rw e h
IsOver-sum p t d (suc m) lo total a each h =
    let rest : tsum (λ k. t (lo + suc k)) m ≡ tsum (λ k. t (lo + 1 + k)) m =
      ap (λ (u : ℕ → ℕ). tsum u m) (fun_ext (λ (k : ℕ). ap t (omega arith))) in
    let first : t (lo + 0) ≡ t lo = ap t (omega arith) in
    let e : a + (t (lo + 0) + tsum (λ k. t (lo + suc k)) m)
        ≡ a + t lo + tsum (λ k. t (lo + 1 + k)) m =
      omega (arith, rest, first) in
    rw e (
      IsOver-sum p t d m (lo + 1) (add total (p lo)) (a + t lo) (λ k b. each k (omega arith))
        (IsOver-add total (p lo) a (t lo) d h (each lo (omega arith))))

-- The number of ways to match `k` of the drawn numbers and miss with the rest.
pub ways : ℕ → ℕ → ℕ → ℕ → ℕ
ways picks pool_size draw_count k = comb draw_count k * comb (pool_size - draw_count) (picks - k)

module _ (picks pool_size draw_count : ℕ) (in_pool : picks ≤ pool_size)
    (drawn : draw_count ≤ pool_size) where
  -- Each probability is its number of ways over all the ways to pick.
  pub probability-IsOver :
      (k : ℕ)
      → k ≤ picks
      → IsOver
          (probability_fraction picks k pool_size draw_count)
          (ways picks pool_size draw_count k)
          (comb pool_size picks)
  unfolding probability_fraction ways
  probability-IsOver k h = ground (
    arith,
    comb-above draw_count k,
    comb-above (pool_size - draw_count) (picks - k),
    comb-pos pool_size picks in_pool,
  )

  pub ways-total :
      tsum (ways picks pool_size draw_count) (min picks draw_count + 1) ≡ comb pool_size picks
  unfolding ways
  ways-total = elim (Bool-cases (leb picks draw_count)) [
    | inl few ↦ let e : min picks draw_count + 1 ≡ suc picks = ground arith in rw e whole
    | inr many ↦
        let e : min picks draw_count + 1 ≡ draw_count + 1 = ground arith in
        rw e (
          sym (
            tsum-tail (draw_count + 1) (suc picks) (ways picks pool_size draw_count)
              (λ k b. omega (
                arith,
                ap (λ (x : ℕ). x * comb (pool_size - draw_count) (picks - k))
                    (comb-above draw_count k (omega arith)),
              ))
              (ground arith))
          ∙ whole)
  ]
    where
      whole : tsum (ways picks pool_size draw_count) (suc picks) ≡ comb pool_size picks
      whole =
          conv-tsum (comb draw_count) (comb (pool_size - draw_count)) picks
          ∙ conv-comb draw_count (pool_size - draw_count) picks
          ∙ ap (λ (x : ℕ). comb x picks) (omega arith)

-- The probabilities.
abbrev pub probabilities : ℕ → ℕ → ℕ → List Fraction
probabilities picks pool_size draw_count =
    map (λ r. r.1) (match_distribution picks pool_size draw_count)

map-map {ℓ κ μ} :
    {A : Type ℓ} {B : Type κ} {C : Type μ} (f : A → B) (g : B → C) (xs : List A)
    → map g (map f xs) ≡ map (λ x. g (f x)) xs
map-map f g [] = refl
map-map f g (x ∷ xs) = rw (map-map f g xs)

-- For a pool that holds the picks and the drawn numbers, the probabilities of all numbers of
-- matches add up to exactly one: the sum has a positive denominator and its numerator equals it.
pub distribution_total :
    (picks pool_size draw_count : ℕ)
    → picks ≤ pool_size
    → draw_count ≤ pool_size
    → let total = sum_fractions (fraction 0 1) (probabilities picks pool_size draw_count) in
      (0 < total.den) × (total.num ≡ total.den)
unfolding match_distribution
distribution_total picks pool draws in_pool drawn =
    let d : ℕ = comb pool picks in
    let p : ℕ → Fraction = λ k. probability_fraction picks k pool draws in
    let n : ℕ = min picks draws + 1 in
    let plain : tsum (λ k. ways picks pool draws (0 + k)) n ≡ tsum (ways picks pool draws) n =
      ap (λ (u : ℕ → ℕ). tsum u n)
        (fun_ext (λ (k : ℕ). ap (ways picks pool draws) (omega arith))) in
    let over : IsOver (sum_fractions (fraction 0 1) (map p (range 0 n)))
        (0 + tsum (λ k. ways picks pool draws (0 + k)) n) d =
      IsOver-sum p (ways picks pool draws) d n 0 (fraction 0 1) 0
        (λ k b. probability-IsOver picks pool draws in_pool drawn k (omega arith)) (omega arith) in
    rw (map-map {B = ℕ × Fraction} {C = Fraction} (λ k. (k, p k)) (λ r. r.1) (range 0 n)) (
      finish (sum_fractions (fraction 0 1) (map p (range 0 n)))
        (0 + tsum (λ k. ways picks pool draws (0 + k)) n) d over (comb-pos pool picks in_pool)
        (omega (arith, plain, ways-total picks pool draws in_pool drawn)))
  where
    finish : (f : Fraction) (a d : ℕ) → IsOver f a d → 0 < d → a ≡ d → (0 < f.den) × (f.num ≡ f.den)
    finish f a d h pos e = (
      h.1,
      eq_of_mul-eq-mul_left d pos f.num f.den
          (mul_comm d f.num ∙ h.0 ∙ ap (λ (x : ℕ). x * f.den) e),
    )
