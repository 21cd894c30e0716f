-- ===== src/Examples/Tickets.antt =====
-- Bingo cards (packages/core/bingo.py), and Keno tickets and paytables (packages/core/keno.py).
use igame.Common.{map, ℕ, ◌*◌, ◌<◌, ◌≡◌, refl, true, List, [], ◌∷◌, arith}
use igame.Bingo.{Grid, row, col, diag, mark_grid, winning_patterns, has_won}
use igame.Bingo.Won.{name, lines_won, names-winning_patterns}
use igame.Keno.{Multipliers, validate_picks}
use igame.Keno.Tickets.{Validates, validate_picks-Validates}
use igame.Keno.Probability.{fraction, sum_fractions}
use igame.Keno.Probability.Total.{probabilities, distribution_total}
use igame.Keno.Rtp.{max_multiplier}

-- The free cell holds 0.
abbrev pub grid : Grid
grid =
    (1 ∷ 16 ∷ 31 ∷ 46 ∷ 61 ∷ [])
    ∷ (2 ∷ 17 ∷ 32 ∷ 47 ∷ 62 ∷ [])
    ∷ (3 ∷ 18 ∷ 0 ∷ 48 ∷ 63 ∷ [])
    ∷ (4 ∷ 19 ∷ 33 ∷ 49 ∷ 64 ∷ [])
    ∷ (5 ∷ 20 ∷ 34 ∷ 50 ∷ 65 ∷ [])
    ∷ []

abbrev paytable : Multipliers
paytable = (2, 10000) ∷ (3, 400000) ∷ []

-- The first row, and the row with the free cell.
abbrev two_rows : List ℕ
two_rows = 1 ∷ 16 ∷ 31 ∷ 46 ∷ 61 ∷ 3 ∷ 18 ∷ 48 ∷ 63 ∷ []

two_rows_win : has_won grid two_rows (row ∷ col ∷ diag ∷ []) 2 ≡ true
unfolding has_won mark_grid
two_rows_win = refl

names-winning_patterns_example :
    map name (winning_patterns grid two_rows (row ∷ [])) ≡ lines_won grid two_rows (row ∷ [])
names-winning_patterns_example = names-winning_patterns grid two_rows (row ∷ [])

validate_picks-Validates_example :
    Validates 1 5 (3 ∷ 80 ∷ 3 ∷ []) (validate_picks (3 ∷ 80 ∷ 3 ∷ []) 1 5)
validate_picks-Validates_example = validate_picks-Validates (3 ∷ 80 ∷ 3 ∷ []) 1 5

distribution_total_example :
    (0 < (sum_fractions (fraction 0 1) (probabilities 3 80 20)).den)
    × ((sum_fractions (fraction 0 1) (probabilities 3 80 20)).num
        ≡ (sum_fractions (fraction 0 1) (probabilities 3 80 20)).den)
distribution_total_example = distribution_total 3 80 20 (omega arith) (omega arith)

half_is_low : max_multiplier ((3, 5000) ∷ []) * 100 < 750000
unfolding max_multiplier
half_is_low = omega arith
