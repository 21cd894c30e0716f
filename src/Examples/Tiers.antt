-- ===== src/Examples/Tiers.antt =====
-- Two risk tiers of Keno and the evaluations of eight days (packages/core/keno_tier_automation.py).
use igame.Common.{ℕ, ◌-◌, ◌≤◌, ◌≡◌, refl, none, some, List, [], ◌∷◌}
use igame.Common.Int.{pos, ◌*ℤ◌}
use igame.Keno.Tier.{
  promotion_hold, automated_promotion, circuit_breaker, TierChangeResult, unchanged, changed_to,
  Tier, TierState, Db, apply_tier_change, find_tier, put_latest, latest_tiers, best_tier,
  eligible_tier, set_candidate, promote, transition, evaluate_tier_transition, next_lower,
  check_circuit_breaker,
}
use igame.Keno.Tier.Held.{Reached, began, evaluated, HeldSince, promotion-held}

abbrev first_tier : Tier
first_tier = record { id = 1; tier_number = 1; min_reserve = pos 0; effective_from = 0 }

abbrev second_tier : Tier
second_tier = record { id = 2; tier_number = 2; min_reserve = pos 5000; effective_from = 0 }

abbrev tiers : List Tier
tiers = first_tier ∷ second_tier ∷ []

abbrev at_first : TierState
at_first = record { current_tier_id = 1; candidate_tier_id = none; candidate_since = none }

abbrev fresh : Db
fresh = record { tiers = tiers; state = some at_first; changes = [] }

abbrev candidate : Db
candidate = set_candidate fresh at_first (some 2) (some 1000)

abbrev promotion : TierChangeResult
promotion = changed_to first_tier second_tier automated_promotion

abbrev promoted_db : Db
promoted_db = record {
  tiers = tiers;
  state = some (record { current_tier_id = 2; candidate_tier_id = none; candidate_since = none });
  changes =
      record {
        from_tier_id = 1;
        to_tier_id = 2;
        trigger = automated_promotion;
        reserve_balance = pos 7000;
      }
      ∷ [];
}

becomes_candidate : evaluate_tier_transition fresh (pos 6000) 1000 ≡ some (unchanged, candidate)
unfolding evaluate_tier_transition transition promote eligible_tier best_tier latest_tiers
    put_latest find_tier
becomes_candidate = refl

is_promoted : evaluate_tier_transition candidate (pos 7000) 700000 ≡ some (promotion, promoted_db)
unfolding evaluate_tier_transition transition promote apply_tier_change eligible_tier best_tier
    latest_tiers put_latest find_tier
is_promoted = refl

abbrev reached : Reached tiers candidate ((pos 6000, 1000) ∷ [])
reached = evaluated fresh (pos 6000) 1000 (began fresh at_first refl refl refl) becomes_candidate

promotion-held_example :
    (id since : ℕ) × HeldSince tiers id since ((pos 7000, 700000) ∷ (pos 6000, 1000) ∷ [])
    × (promotion_hold ≤ 700000 - since)
    × (promoted_db.state
        ≡ some (record { current_tier_id = id; candidate_tier_id = none; candidate_since = none }))
promotion-held_example =
    promotion-held tiers candidate ((pos 6000, 1000) ∷ []) (pos 7000) 700000 promotion promoted_db
      reached is_promoted refl

found_first : find_tier 1 tiers ≡ some first_tier
unfolding find_tier
found_first = refl

abbrev tripped_db : Db
tripped_db = record promoted_db {
  state = some at_first;
  changes =
      record {
        from_tier_id = 1;
        to_tier_id = 2;
        trigger = automated_promotion;
        reserve_balance = pos 7000;
      }
      ∷ record {
        from_tier_id = 2;
        to_tier_id = 1;
        trigger = circuit_breaker;
        reserve_balance = pos 6500;
      }
      ∷ [];
}

trips :
    check_circuit_breaker promoted_db (some 20000) (pos 3000) (some (pos 1000)) (pos 6500) 800000
    ≡ some (changed_to second_tier first_tier circuit_breaker, tripped_db)
unfolding check_circuit_breaker next_lower latest_tiers put_latest find_tier apply_tier_change ◌*ℤ◌
trips = refl
