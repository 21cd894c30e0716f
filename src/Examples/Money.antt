-- ===== src/Examples/Money.antt =====
-- Runs of the settlement arithmetic (services/engine/settlement.py) and of the admin roles
-- (services/admin/rbac.py).
use igame.Common.{
  ℕ, ◌+◌, ◌*◌, ◌-◌, ◌≤◌, ◌<◌, ◌≡◌, refl, ◌↔◌, ◌⊎◌, true, false, List, arith, replicate,
}
use igame.Common.Int.{ℤ, pos, negsuc, ◌+ℤ◌, ◌-ℤ◌, ◌*ℤ◌, ◌≤ℤ◌, ltb_ℤ}
use igame.Common.Result.{ok, err}
use igame.Settlement.{compute_derash, split_derash, negative_pot, bad_house_cut}
use igame.Settlement.Shares.{
  sum, compute_derash_exact, compute_derash_raises, split_derash_exact, settlement_conserves,
}
use igame.Rbac.{is_in, allowed_roles, has_permission}

derash_of_a_pot : compute_derash (pos 100001) (pos 1500) ≡ ok (pos 85000, pos 15001)
unfolding compute_derash ◌*ℤ◌ ◌-ℤ◌
derash_of_a_pot = refl

shares_of_three : split_derash (pos 85000) (pos 3) ≡ ok (replicate 3 (pos 28333), pos 1)
unfolding split_derash ◌*ℤ◌ ◌-ℤ◌
shares_of_three = refl

compute_derash_exact_example :
    (d h : ℕ) × (compute_derash (pos 100001) (pos 1500) ≡ ok (pos d, pos h))
    × (d + h ≡ 100001)
    × (d * 10000 ≤ 100001 * (10000 - 1500))
    × (100001 * (10000 - 1500) < (d + 1) * 10000)
compute_derash_exact_example = compute_derash_exact 100001 1500 (omega arith)

compute_derash_raises_example :
    ((compute_derash (negsuc 0) (pos 20000) ≡ err negative_pot) ↔ (ltb_ℤ (negsuc 0) (pos 0) ≡ true))
    × ((compute_derash (negsuc 0) (pos 20000) ≡ err bad_house_cut) ↔ (
        (pos 0 ≤ℤ negsuc 0)
        × ((ltb_ℤ (pos 20000) (pos 0) ≡ true) ⊎ (ltb_ℤ (pos 10000) (pos 20000) ≡ true))))
compute_derash_raises_example = compute_derash_raises (negsuc 0) (pos 20000)

split_derash_exact_example :
    (shares : List ℤ) × (share left : ℕ) × (split_derash (pos 85000) (pos 3)
      ≡ ok (shares, pos left))
    × (shares ≡ replicate 3 (pos share))
    × (sum shares +ℤ pos left ≡ pos 85000)
    × (left < 3)
split_derash_exact_example = split_derash_exact 85000 3 (omega arith)

settlement_conserves_example : sum (replicate 3 (pos 28333)) +ℤ (pos 1 +ℤ pos 15001) ≡ pos 100001
settlement_conserves_example =
    settlement_conserves 100001 1500 3 (omega arith) (omega arith) derash_of_a_pot shares_of_three

support_views : has_permission "support" "users:view" ≡ ok true
unfolding has_permission allowed_roles is_in
support_views = refl

ops_do_not_approve : has_permission "ops" "payments:approve" ≡ ok false
unfolding has_permission allowed_roles is_in
ops_do_not_approve = refl
