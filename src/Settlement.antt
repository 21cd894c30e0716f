-- ===== src/Settlement.antt =====
-- services/engine/settlement.py: the payout arithmetic of a Bingo round. Amounts are whole cents, so
-- the two-decimal `quantize(CENT, ROUND_DOWN)` is division that drops the remainder.
pub mod Shares
use igame.Common.{ℕ, ◌*◌, ◌||◌, List, replicate}
use igame.Common.Int.{ℤ, pos, pos_part, ◌-ℤ◌, ◌*ℤ◌, ltb_ℤ, leb_ℤ, trunc_div}
use igame.Common.Result.{Result, ok, err, ◌>>=◌, ◌>>◌, raise_if}

pub data ValueError : Type 0 where
  negative_pot bad_house_cut bad_num_winners : ValueError

-- (derash, house_cut)
unfoldable pub compute_derash : ℤ → ℤ → Result ValueError (ℤ × ℤ)
compute_derash pot house_cut_bps = do
  raise_if (ltb_ℤ pot (pos 0)) negative_pot
  raise_if (ltb_ℤ house_cut_bps (pos 0) || ltb_ℤ (pos 10000) house_cut_bps) bad_house_cut
  let derash = trunc_div (pot *ℤ (pos 10000 -ℤ house_cut_bps)) 10000
  ok (derash, pot -ℤ derash)

-- (shares, leftover_to_house)
unfoldable pub split_derash : ℤ → ℤ → Result ValueError (List ℤ × ℤ)
split_derash derash num_winners = do
  raise_if (leb_ℤ num_winners (pos 0)) bad_num_winners
  let share = trunc_div derash (pos_part num_winners)
  ok (replicate (pos_part num_winners) share, derash -ℤ share *ℤ num_winners)
