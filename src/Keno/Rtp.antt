-- ===== src/Keno/Rtp.antt =====
-- The return to player of a paytable in packages/core/keno.py, summed as exact fractions, and the
-- guard on it. Multipliers are in ten-thousandths. The comparison with the floor and the ceiling
-- is exact here; the source's rounding to 40 digits is finer than any two such fractions differ.
pub mod Bounds
use igame.Common.{ℕ, ◌+◌, Bool, ◌&&◌, List, [], ◌∷◌, ltb, max, if◌then◌else◌}
use igame.Common.Result.{Result, ok, err}
use igame.Keno.{Multipliers, multiplier_of, number_pool_size, draw_count}
use igame.Keno.Probability.{Fraction, fraction, add, mul, leb_fraction, match_distribution}

abbrev pub multiplier_fraction : ℕ → Multipliers → Fraction
multiplier_fraction matches multipliers = fraction (multiplier_of matches multipliers) 10000

-- The loop of `_fraction_sum_rtp`.
unfoldable pub rtp_loop : Multipliers → Fraction → List (ℕ × Fraction) → Fraction
rtp_loop multipliers total [] = total
rtp_loop multipliers total ((matches, probability) ∷ rest) =
    rtp_loop multipliers (add total (mul probability (multiplier_fraction matches multipliers)))
      rest

unfoldable pub compute_rtp : ℕ → Multipliers → Fraction
compute_rtp picks multipliers =
    rtp_loop multipliers (fraction 0 1) (match_distribution picks number_pool_size draw_count)

-- The loop of `hit_frequency`.
unfoldable pub hit_loop : Multipliers → Fraction → List (ℕ × Fraction) → Fraction
hit_loop multipliers total [] = total
hit_loop multipliers total ((matches, probability) ∷ rest) =
    hit_loop multipliers
      (if ltb 0 (multiplier_of matches multipliers) then add total probability else total) rest

unfoldable pub hit_frequency : ℕ → Multipliers → Fraction
hit_frequency picks multipliers =
    hit_loop multipliers (fraction 0 1) (match_distribution picks number_pool_size draw_count)

-- 0 for an empty paytable.
unfoldable pub max_multiplier : Multipliers → ℕ
max_multiplier [] = 0
max_multiplier ((k, m) ∷ rest) = max m (max_multiplier rest)

pub data PaytableRtpOutOfRange : Type 0 where
  out_of_range : ℕ → Fraction → PaytableRtpOutOfRange

abbrev pub rtp_floor : Fraction
rtp_floor = fraction 75 100

abbrev pub rtp_ceiling : Fraction
rtp_ceiling = fraction 97 100

unfoldable pub validate_paytable_rtp :
    ℕ → Multipliers → Fraction → Fraction → Result PaytableRtpOutOfRange Fraction
validate_paytable_rtp picks multipliers floor ceiling =
    let rtp = compute_rtp picks multipliers in
    if leb_fraction floor rtp && leb_fraction rtp ceiling
    then ok rtp
    else err (out_of_range picks rtp)
