-- ===== src/Examples/Limits.antt =====
-- A player with a deposit cap, a loss cap, a cool-off and a self-exclusion
-- (packages/core/responsible_gaming.py).
use igame.Common.Counts.{contains}
use igame.Common.{not, ◌&&◌, ◌+◌, ◌*◌, ◌≡◌, refl, ◌↔◌, false, some, [], ◌∷◌, arith}
use igame.Common.Int.{pos, ◌+ℤ◌, ◌≤ℤ◌}
use igame.ResponsibleGaming.{
  marketing_eligible_user_ids, blank, User, Db, find_limits, get_or_create_limits, effective,
  effective_deposit_cap, effective_loss_cap, set_deposit_limit, put_self_excluded, find_user,
  check_play_allowed, check_stake_allowed, loss_cap_of,
}
use igame.ResponsibleGaming.Caps.{limits_of, AtMost}
use igame.ResponsibleGaming.Caps.Deposit.{
  DepositIsWf, set_deposit_limit-tightens, set_deposit_limit-falls_back,
}
use igame.ResponsibleGaming.Caps.Loss.{LossIsWf}
use igame.ResponsibleGaming.Blocks.{HasIds, is_user, marketing-iff-allowed, check_stake_allowed_iff}
use igame.ResponsibleGaming.Exclusion.{Steps, stay, step, deposit_limit}

abbrev player : User
player = record { id = 7; status = "active" }

-- A cap of 500.00 that became 1000.00 at time 100, and the same for losses.
abbrev capped : Db
capped = record {
  users = player ∷ [];
  limits =
      record (blank 7) {
        daily_deposit_cap = some (pos 50000);
        pending_daily_deposit_cap = some (pos 100000);
        pending_daily_deposit_cap_effective_at = some 100;
        daily_loss_cap = some (pos 50000);
        pending_daily_loss_cap = some (pos 100000);
        pending_daily_loss_cap_effective_at = some 100;
      }
      ∷ [];
}

capped_wf : DepositIsWf (limits_of capped 7)
unfolding get_or_create_limits find_limits
capped_wf = omega arith

capped_loss_wf : LossIsWf (limits_of capped 7)
unfolding get_or_create_limits find_limits
capped_loss_wf = omega arith

cap_in_force : effective_deposit_cap (limits_of capped 7) 200 ≡ some (pos 100000)
unfolding get_or_create_limits find_limits effective_deposit_cap effective
cap_in_force = refl

loss_cap_in_force : effective_loss_cap (limits_of capped 7) 200 ≡ some (pos 100000)
unfolding get_or_create_limits find_limits effective_loss_cap effective
loss_cap_in_force = refl

set_deposit_limit-tightens_example :
    AtMost
      (pos 100000)
      (effective_deposit_cap (limits_of (set_deposit_limit capped 7 (pos 200000) 200).1 7) 300)
set_deposit_limit-tightens_example =
    set_deposit_limit-tightens capped 7 (pos 200000) (pos 100000) 200 300 capped_wf cap_in_force
      (omega arith)

set_deposit_limit-falls_back_example :
    (effective_deposit_cap (limits_of capped 7) 200 ≡ some (pos 100000))
    × (effective_deposit_cap (limits_of (set_deposit_limit capped 7 (pos 200000) 200).1 7) 300
        ≡ some (pos 50000))
unfolding get_or_create_limits find_limits
set_deposit_limit-falls_back_example =
    set_deposit_limit-falls_back capped 7 (pos 200000) (pos 50000) (pos 100000) 100 200 300 refl
      refl refl (omega arith) refl (omega arith)

capped_user : find_user 7 capped.users ≡ some player
unfolding find_user
capped_user = refl

capped_ids : HasIds capped.users
unfolding find_user
capped_ids = (refl, tt)

marketing-iff-allowed_example :
    contains 7 (marketing_eligible_user_ids capped 200)
    ≡ (is_user (find_user 7 capped.users) && not (check_play_allowed capped 7 200).blocked)
marketing-iff-allowed_example = marketing-iff-allowed capped 7 200 capped_ids

capped_losses : loss_cap_of (find_limits 7 capped.limits) 200 ≡ some (pos 100000)
unfolding find_limits effective_loss_cap effective
capped_losses = refl

check_stake_allowed_iff_example :
    ((check_stake_allowed capped 7 (pos 2000) (pos 99000) 200).blocked ≡ false)
    ↔ (((check_play_allowed capped 7 200).blocked ≡ false) × (pos 99000 +ℤ pos 2000 ≤ℤ pos 100000))
check_stake_allowed_iff_example =
    check_stake_allowed_iff capped 7 200 (pos 2000) (pos 99000) (pos 100000) player capped_user
      capped_losses

abbrev excluded : Db
excluded = record {
  users = record { id = 7; status = "self_excluded" } ∷ [];
  limits = put_self_excluded (200 + 180 * 86400) (limits_of capped 7) ∷ [];
}

-- The player asks for a higher cap afterwards.
abbrev asks_again : Steps excluded (set_deposit_limit excluded 7 (pos 900000) 300).1
asks_again =
    step (deposit_limit excluded 7 (pos 900000) 300)
      (stay (set_deposit_limit excluded 7 (pos 900000) 300).1)
