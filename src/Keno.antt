-- ===== src/Keno.antt =====
-- packages/core/keno.py: ticket validation, match counting and payout. The probabilities and the
-- draw of that file are in the modules below. A pick is a natural number; a negative one would
-- fail the same test as 0.
pub mod Tier
pub mod Tickets
pub mod Probability
pub mod Rtp
pub mod Draw
pub mod Autoplay
use igame.Common.{
  ℕ, ◌+◌, ◌*◌, ◌/◌, min, Bool, true, false, ◌&&◌, not, Option, none, some, List, [], ◌∷◌, leb, ◌==◌,
  if◌then◌else◌, length,
}
use igame.Common.Counts.{contains, one_if}
use igame.Common.Result.{Result, ok, err, ◌>>=◌, ◌>>◌, raise_if}

abbrev pub number_pool_size : ℕ
number_pool_size = 80

abbrev pub draw_count : ℕ
draw_count = 20

abbrev pub min_picks : ℕ
min_picks = 1

abbrev pub max_picks : ℕ
max_picks = 10

pub data KenoError : Type 0 where
  invalid_pick_count : ℕ → KenoError
  duplicate_picks : List ℕ → KenoError
  pick_out_of_range : ℕ → KenoError

-- The loop of `validate_picks`; `seen` holds the numbers so far, the last one first.
unfoldable pub check_picks : List ℕ → List ℕ → List ℕ → Result KenoError (List ℕ)
check_picks picks seen [] = ok seen
check_picks picks seen (value ∷ rest) =
    let next = check_picks picks (value ∷ seen) rest in
    if not (leb 1 value && leb value number_pool_size)
    then err (pick_out_of_range value)
    else if contains value seen
    then err (duplicate_picks picks)
    else next

-- The frozen set is a list without repetitions.
unfoldable pub validate_picks : List ℕ → ℕ → ℕ → Result KenoError (List ℕ)
unfolding check_picks
validate_picks picks low high =
    if not (leb low (length picks) && leb (length picks) high)
    then err (invalid_pick_count (length picks))
    else check_picks picks [] picks

-- `len(picks & set(drawn_numbers))`, for picks without repetitions.
unfoldable pub count_matches : List ℕ → List ℕ → ℕ
count_matches [] drawn = 0
count_matches (p ∷ ps) drawn = one_if (contains p drawn) + count_matches ps drawn

-- A paytable: from the number of matches to the multiplier, in ten-thousandths. A paytable is JSON and may hold any
-- decimal; finer and negative multipliers are outside the model.
abbrev pub Multipliers : Type 0
Multipliers = List (ℕ × ℕ)

-- `multipliers.get(matches, Decimal(0))`
unfoldable pub multiplier_of : ℕ → Multipliers → ℕ
multiplier_of matches [] = 0
multiplier_of matches ((k, m) ∷ rest) = if k == matches then m else multiplier_of matches rest

-- The stake and the payout are in cents, so the product is cut at a whole cent.
unfoldable pub compute_payout : ℕ → ℕ → Multipliers → ℕ → ℕ
compute_payout stake matches multipliers max_win_per_ticket =
    min (stake * multiplier_of matches multipliers / 10000) max_win_per_ticket
