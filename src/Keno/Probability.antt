-- ===== src/Keno/Probability.antt =====
-- The hypergeometric probabilities of packages/core/keno.py, as exact fractions: a numerator and a
-- denominator, compared by cross multiplication (Python's `Fraction` keeps them in lowest terms).
pub mod Total
use igame.Common.{
  ℕ, zero, suc, ◌+◌, ◌-◌, ◌*◌, min, Bool, ◌&&◌, ◌||◌, not, List, [], ◌∷◌, map, leb, ltb,
  if◌then◌else◌,
}
use igame.Common.Counts.{range}

pub record Fraction : Type 0 where
  pub num : ℕ
  pub den : ℕ

abbrev pub fraction : ℕ → ℕ → Fraction
fraction n d = record { num = n; den = d }

unfoldable pub add : Fraction → Fraction → Fraction
add f g = fraction (f.num * g.den + g.num * f.den) (f.den * g.den)

unfoldable pub mul : Fraction → Fraction → Fraction
mul f g = fraction (f.num * g.num) (f.den * g.den)

abbrev pub leb_fraction : Fraction → Fraction → Bool
leb_fraction f g = leb (f.num * g.den) (g.num * f.den)

-- `math.comb`, by Pascal's rule.
unfoldable pub comb : ℕ → ℕ → ℕ
comb n zero = 1
comb zero (suc k) = 0
comb (suc n) (suc k) = comb n k + comb n (suc k)

-- The test `misses > non_drawn` is written without the subtraction, which could go below zero.
unfoldable pub probability_fraction : ℕ → ℕ → ℕ → ℕ → Fraction
probability_fraction picks matches pool_size draw_count =
    let misses = picks - matches in
    if not (leb matches picks)
    then fraction 0 1
    else if ltb pool_size (draw_count + misses) || ltb draw_count matches
    then fraction 0 1
    else fraction (comb draw_count matches * comb (pool_size - draw_count) misses)
        (comb pool_size picks)

-- `_match_distribution_fraction`: the probability of each number of matches, with that number.
unfoldable pub match_distribution : ℕ → ℕ → ℕ → List (ℕ × Fraction)
match_distribution picks pool_size draw_count =
    map (λ k. (k, probability_fraction picks k pool_size draw_count))
      (range 0 (min picks draw_count + 1))

-- `total = Fraction(0)`, then `total += f` for each.
unfoldable pub sum_fractions : Fraction → List Fraction → Fraction
sum_fractions total [] = total
sum_fractions total (f ∷ fs) = sum_fractions (add total f) fs
