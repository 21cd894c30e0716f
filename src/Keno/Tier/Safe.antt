-- ===== src/Keno/Tier/Safe.antt =====
-- No evaluation and no trip of the circuit breaker (packages/core/keno_tier_automation.py) leaves a
-- tier higher than it should be.
use mathlib.Core.Path.{subst}
use mathlib.Core.Bool.{false≢true, ◌||◌}
use igame.Common.{
  ℕ, ◌≤◌, ◌<◌, ◌≡◌, refl, ap, sym, ◌∙◌, ◌⊎◌, inl, inr, true, false, some, List, [], ◌∷◌, arith,
  Bool-cases, Option-cases, ◌≢◌,
}
use igame.Common.Int.{ℤ, pos, ◌≤ℤ◌, leb_ℤ, ◌*ℤ◌}
use igame.Keno.Tier.{
  TierChangeResult, Tier, TierState, Db, apply_tier_change, find_tier, latest_tiers, best_tier,
  eligible_tier, transition, evaluate_tier_transition,
}
use igame.Keno.Tier.Transition.{
  Outcome, promoted, waiting, restarted, demoted, kept, cleared, transition-Outcome,
}
use igame.Keno.Tier.{next_lower, break_circuit, check_circuit_breaker}
use igame.Keno.Tier.Carried.{some-injective, evaluate-cases, eligible-best, best_tier-meets}

-- The state after an evaluation, next to the tier that was carried.
Outcome-state :
    (db : Db) (reserve : ℤ) (now : ℕ) (s : TierState) (current eligible : Tier)
    (x : TierChangeResult × Db)
    → db.state ≡ some s
    → Outcome db s current eligible reserve now x
    → (s' : TierState) × (x.1.state ≡ some s')
      × ((s'.current_tier_id ≡ eligible.id)
          ⊎ ((s'.current_tier_id ≡ s.current_tier_id)
              × (current.tier_number ≤ eligible.tier_number)))
unfolding apply_tier_change
Outcome-state db reserve now s current eligible _ e (promoted since lt c d h) = (_, refl, inl refl)
Outcome-state db reserve now s current eligible _ e (waiting since lt c d) =
    (s, e, inr (refl, omega arith))
Outcome-state db reserve now s current eligible _ e (restarted lt) =
    (_, refl, inr (refl, omega arith))
Outcome-state db reserve now s current eligible _ e (demoted lt) = (_, refl, inl refl)
Outcome-state db reserve now s current eligible _ e (kept le n) = (s, e, inr (refl, le))
Outcome-state db reserve now s current eligible _ e (cleared le) = (_, refl, inr (refl, le))

-- After an evaluation the tier in force is the one it found eligible, or the one before it when that
-- is not above the eligible one: a demotion never waits.
pub evaluate-never-above :
    (db : Db) (reserve : ℤ) (now : ℕ) (s : TierState) (current : Tier) (result : TierChangeResult)
    (db' : Db)
    → db.state ≡ some s
    → find_tier s.current_tier_id db.tiers ≡ some current
    → evaluate_tier_transition db reserve now ≡ some (result, db')
    → (s' : TierState) × (db'.state ≡ some s')
      × ((s'.current_tier_id ≡ (eligible_tier db reserve now current).id)
          ⊎ ((s'.current_tier_id ≡ s.current_tier_id)
              × (current.tier_number ≤ (eligible_tier db reserve now current).tier_number)))
unfolding evaluate_tier_transition
evaluate-never-above db reserve now s current result db' e c h =
    let same : transition db s current (eligible_tier db reserve now current) reserve now
        ≡ (result, db') =
      ground arith in
    let o =
      subst
        (λ (y : TierChangeResult × Db).
          Outcome db s current (eligible_tier db reserve now current) reserve now y)
        same (transition-Outcome db s current (eligible_tier db reserve now current) reserve now) in
    Outcome-state db reserve now s current (eligible_tier db reserve now current) (result, db') e o

changed-number :
    (db : Db) (reserve : ℤ) (now : ℕ) (s : TierState) (current eligible : Tier)
    (x : TierChangeResult × Db)
    → Outcome db s current eligible reserve now x
    → x.0.changed ≡ true
    → (current.tier_number ≢ eligible.tier_number)
      × (x.0.to_tier_number ≡ some eligible.tier_number)
changed-number db reserve now s current eligible _ (promoted since lt c d h) p =
    (λ q. omega arith, refl)
changed-number db reserve now s current eligible _ (waiting since lt c d) p = cc
changed-number db reserve now s current eligible _ (restarted lt) p = cc
changed-number db reserve now s current eligible _ (demoted lt) p = (λ q. omega arith, refl)
changed-number db reserve now s current eligible _ (kept le n) p = cc
changed-number db reserve now s current eligible _ (cleared le) p = cc

-- A tier that an evaluation changes to is one whose minimum the reserve meets.
pub evaluate-meets :
    (db : Db) (reserve : ℤ) (now : ℕ) (result : TierChangeResult) (db' : Db)
    → evaluate_tier_transition db reserve now ≡ some (result, db')
    → result.changed ≡ true
    → (t : Tier) × (best_tier reserve (latest_tiers now db.tiers) ≡ some t)
      × (t.min_reserve ≤ℤ reserve)
      × (result.to_tier_number ≡ some t.tier_number)
evaluate-meets db reserve now result db' e p =
    elim (evaluate-cases db reserve now (result, db') e) [
      | inl (n, same) ↦
          absurd (false≢true (sym (ap (λ (x : TierChangeResult × Db). x.0.changed) same) ∙ p))
      | inr v ↦
          let eligible = eligible_tier db reserve now v.current in
          let (ne, to) =
            changed-number db reserve now v.s v.current eligible (result, db') v.outcome p in
          elim (eligible-best db reserve now v.current) [
            | inl (n, same) ↦ absurd (ne (sym (ap (λ (t : Tier). t.tier_number) same)))
            | inr best ↦ (
              eligible,
              best,
              best_tier-meets reserve (latest_tiers now db.tiers) eligible best,
              to,
            )
          ]
    ]

next_lower-below :
    (n : ℕ) (ts : List Tier) (t : Tier) → next_lower n ts ≡ some t → t.tier_number < n
unfolding next_lower
next_lower-below n [] t h = cc
next_lower-below n (u ∷ us) t h = elim (Option-cases (next_lower n us)) [
  | inl e ↦ ground arith
  | inr (v, e) ↦ ground (arith, next_lower-below n us v e)
]

-- The circuit breaker changes the tier only when what was paid in the last 24 hours exceeds the
-- configured multiple of what was expected, and then to a lower tier.
pub check_circuit_breaker-lowers :
    (db : Db) (multiple : ℕ) (actual expected reserve : ℤ) (now : ℕ) (result : TierChangeResult)
    (db' : Db)
    → check_circuit_breaker db (some multiple) actual (some expected) reserve now
      ≡ some (result, db')
    → result.changed ≡ true
    → (leb_ℤ (actual *ℤ pos 10000) (expected *ℤ pos multiple) ≡ false)
      × ((from to : ℕ) × (result.from_tier_number ≡ some from)
          × (result.to_tier_number ≡ some to)
          × (to < from))
unfolding check_circuit_breaker
check_circuit_breaker-lowers db multiple actual expected reserve now result db' h p =
    elim (Option-cases db.state) [
      | inl e ↦ absurd (ground arith)
      | inr (s, e) ↦
          elim (Bool-cases
            (leb_ℤ expected (pos 0) || leb_ℤ (actual *ℤ pos 10000) (expected *ℤ pos multiple))) [
              | inl quiet ↦ absurd (ground arith)
              | inr hot ↦ elim (Option-cases (find_tier s.current_tier_id db.tiers)) [
                | inl n ↦ absurd (ground arith)
                | inr (current, c) ↦
                    elim (Option-cases
                      (next_lower current.tier_number (latest_tiers now db.tiers))) [
                        | inl n ↦ absurd (ground arith)
                        | inr (lower, l) ↦
                            let below =
                              next_lower-below current.tier_number (latest_tiers now db.tiers) lower
                                l in
                            let same : ◌≡◌ {A = TierChangeResult × Db}
                                (break_circuit db current (some lower) reserve) (result, db') =
                              some-injective (ground arith) in
                            (
                              ground arith,
                              (
                                current.tier_number,
                                lower.tier_number,
                                sym (ap (λ (x : TierChangeResult × Db). x.0.from_tier_number) same),
                                sym (ap (λ (x : TierChangeResult × Db). x.0.to_tier_number) same),
                                below,
                              ),
                            )
                      ]
              ]
            ]
    ]
