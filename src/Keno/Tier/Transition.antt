-- ===== src/Keno/Tier/Transition.antt =====
-- The outcomes of evaluate_tier_transition of packages/core/keno_tier_automation.py.
use mathlib.Core.Path.{subst}
use igame.Common.{
  ℕ, ◌-◌, ◌≤◌, ◌<◌, ◌≡◌, ap, sym, inl, inr, true, Option, none, some, arith, tests, ==_iff, leb,
  ltb, Bool-cases, Option-cases,
}
use igame.Common.Int.{ℤ}
use igame.Keno.Tier.{
  promotion_hold, automated_promotion, automated_demotion, TierChangeResult, unchanged, changed_to,
  Tier, TierState, Db, apply_tier_change, same_candidate, set_candidate, promote, settle,
  transition,
}

-- What an evaluation did, for the row of the state, the current tier and the eligible one.
pub data Outcome (db : Db) (s : TierState) (current eligible : Tier) (reserve : ℤ) (now : ℕ)
    : TierChangeResult × Db → Type 0 where
  promoted :
      (since : ℕ)
      → current.tier_number < eligible.tier_number
      → s.candidate_tier_id ≡ some eligible.id
      → s.candidate_since ≡ some since
      → promotion_hold ≤ now - since
      → Outcome db s current eligible reserve now (
        changed_to current eligible automated_promotion,
        apply_tier_change db current.id eligible.id automated_promotion reserve,
      )
  waiting :
      (since : ℕ)
      → current.tier_number < eligible.tier_number
      → s.candidate_tier_id ≡ some eligible.id
      → s.candidate_since ≡ some since
      → Outcome db s current eligible reserve now (unchanged, db)
  restarted :
      current.tier_number < eligible.tier_number
      → Outcome db s current eligible reserve now
          (unchanged, set_candidate db s (some eligible.id) (some now))
  demoted :
      eligible.tier_number < current.tier_number
      → Outcome db s current eligible reserve now (
        changed_to current eligible automated_demotion,
        apply_tier_change db current.id eligible.id automated_demotion reserve,
      )
  kept :
      current.tier_number ≤ eligible.tier_number
      → s.candidate_tier_id ≡ none
      → Outcome db s current eligible reserve now (unchanged, db)
  cleared :
      current.tier_number ≤ eligible.tier_number
      → Outcome db s current eligible reserve now (unchanged, set_candidate db s none none)

same_candidate_iff : (c : Option ℕ) (id : ℕ) → same_candidate c id ≡ true → c ≡ some id
same_candidate_iff none id h = cc
same_candidate_iff (some c) id h = ap some ((==_iff c id).0 h)

promote-Outcome :
    (db : Db) (s : TierState) (current eligible : Tier) (reserve : ℤ) (now : ℕ)
    → current.tier_number < eligible.tier_number
    → Outcome db s current eligible reserve now (promote db s current eligible reserve now)
unfolding promote
promote-Outcome db s current eligible reserve now lt = elim (Option-cases s.candidate_since) [
  | inl e ↦ to restart (ground arith) (restarted lt)
  | inr (since, e) ↦ elim (Bool-cases (same_candidate s.candidate_tier_id eligible.id)) [
    | inr n ↦ to restart (ground arith) (restarted lt)
    | inl c ↦
        let same = same_candidate_iff s.candidate_tier_id eligible.id c in
        elim (Bool-cases (leb promotion_hold (now - since))) [
          | inl h ↦ to move (ground arith) (promoted since lt same e (omega tests))
          | inr n ↦ to (unchanged, db) (ground arith) (waiting since lt same e)
        ]
  ]
]
  where
    restart : TierChangeResult × Db
    restart = (unchanged, set_candidate db s (some eligible.id) (some now))

    move : TierChangeResult × Db
    move = (
      changed_to current eligible automated_promotion,
      apply_tier_change db current.id eligible.id automated_promotion reserve,
    )

    to :
        (x : TierChangeResult × Db)
        → promote db s current eligible reserve now ≡ x
        → Outcome db s current eligible reserve now x
        → Outcome db s current eligible reserve now (promote db s current eligible reserve now)
    to x e o =
        subst (λ (y : TierChangeResult × Db). Outcome db s current eligible reserve now y) (sym e) o

settle-Outcome :
    (db : Db) (s : TierState) (current eligible : Tier) (reserve : ℤ) (now : ℕ)
    → current.tier_number ≤ eligible.tier_number
    → Outcome db s current eligible reserve now (settle db s)
unfolding settle
settle-Outcome db s current eligible reserve now le = elim (Option-cases s.candidate_tier_id) [
  | inl e ↦ to (unchanged, db) (ground arith) (kept le e)
  | inr (c, e) ↦ to (unchanged, set_candidate db s none none) (ground arith) (cleared le)
]
  where
    to :
        (x : TierChangeResult × Db)
        → settle db s ≡ x
        → Outcome db s current eligible reserve now x
        → Outcome db s current eligible reserve now (settle db s)
    to x e o =
        subst (λ (y : TierChangeResult × Db). Outcome db s current eligible reserve now y) (sym e) o

pub transition-Outcome :
    (db : Db) (s : TierState) (current eligible : Tier) (reserve : ℤ) (now : ℕ)
    → Outcome db s current eligible reserve now (transition db s current eligible reserve now)
unfolding transition
transition-Outcome db s current eligible reserve now =
    elim (Bool-cases (ltb current.tier_number eligible.tier_number)) [
      | inl up ↦ rw up (promote-Outcome db s current eligible reserve now (omega tests))
      | inr n ↦ elim (Bool-cases (ltb eligible.tier_number current.tier_number)) [
        | inl down ↦ rw (n, down) (demoted (omega tests))
        | inr m ↦ rw (n, m) (settle-Outcome db s current eligible reserve now (ground arith))
      ]
    ]
