-- ===== src/Keno/Tier.antt =====
-- packages/core/keno_tier_automation.py: promotion and demotion between the risk tiers of Keno, and
-- the daily circuit breaker. Times are seconds, amounts are cents.
pub mod Transition
pub mod Carried
pub mod Held
pub mod Safe
use igame.Common.{
  ℕ, ◌+◌, ◌-◌, ◌*◌, Bool, true, false, not, ◌&&◌, ◌||◌, Option, none, some, List, [], ◌∷◌, ◌++◌,
  ◌==◌, leb, ltb, if◌then◌else◌,
}
use igame.Common.Int.{ℤ, pos, ◌+ℤ◌, ◌*ℤ◌, leb_ℤ, ltb_ℤ}

-- 7 days.
abbrev pub promotion_hold : ℕ
promotion_hold = 7 * 86400

pub data Trigger : Type 0 where
  automated_promotion : Trigger
  automated_demotion : Trigger
  circuit_breaker : Trigger

pub record TierChangeResult : Type 0 where
  pub changed : Bool
  pub from_tier_number : Option ℕ
  pub to_tier_number : Option ℕ
  pub trigger : Option Trigger

abbrev pub unchanged : TierChangeResult
unchanged = record {
  changed = false;
  from_tier_number = none;
  to_tier_number = none;
  trigger = none;
}

-- A row of `keno_risk_tiers`.
pub record Tier : Type 0 where
  pub id : ℕ
  pub tier_number : ℕ
  pub min_reserve : ℤ
  pub effective_from : ℕ

-- The row of `keno_tier_state`.
pub record TierState : Type 0 where
  pub current_tier_id : ℕ
  pub candidate_tier_id : Option ℕ
  pub candidate_since : Option ℕ

-- A row of `keno_tier_changes`.
pub record TierChange : Type 0 where
  pub from_tier_id : ℕ
  pub to_tier_id : ℕ
  pub trigger : Trigger
  pub reserve_balance : ℤ

pub record Db : Type 0 where
  pub tiers : List Tier
  pub state : Option TierState
  pub changes : List TierChange

-- `_apply_tier_change`
unfoldable pub apply_tier_change : Db → ℕ → ℕ → Trigger → ℤ → Db
apply_tier_change db from_tier_id to_tier_id trigger reserve_balance = record db {
  state =
      some
        (record { current_tier_id = to_tier_id; candidate_tier_id = none; candidate_since = none });
  changes =
      db.changes
      ++ record {
        from_tier_id = from_tier_id;
        to_tier_id = to_tier_id;
        trigger = trigger;
        reserve_balance = reserve_balance;
      }
        ∷ [];
}

-- `SELECT * FROM keno_risk_tiers WHERE id = $1`
unfoldable pub find_tier : ℕ → List Tier → Option Tier
find_tier id [] = none
find_tier id (t ∷ ts) = if t.id == id then some t else find_tier id ts

-- One row more for DISTINCT ON (tier_number) ... ORDER BY tier_number, effective_from DESC.
unfoldable pub put_latest : Tier → List Tier → List Tier
put_latest t [] = t ∷ []
put_latest t (u ∷ us) =
    if t.tier_number == u.tier_number
    then (if ltb u.effective_from t.effective_from then t else u) ∷ us
    else u ∷ put_latest t us

unfoldable pub latest_tiers : ℕ → List Tier → List Tier
latest_tiers now [] = []
latest_tiers now (t ∷ ts) =
    let rest = latest_tiers now ts in if leb t.effective_from now then put_latest t rest else rest

-- `max` by tier number of the tiers whose reserve is met, the first of them on a tie.
unfoldable pub best_tier : ℤ → List Tier → Option Tier
best_tier reserve [] = none
best_tier reserve (t ∷ ts) =
    let best = best_tier reserve ts in
    if leb_ℤ t.min_reserve reserve then some (better t best) else best
  where
    better : Tier → Option Tier → Tier
    better t none = t
    better t (some u) = if ltb t.tier_number u.tier_number then u else t

abbrev pub or_default : Option Tier → Tier → Tier
or_default none t = t
or_default (some u) t = u

unfoldable pub eligible_tier : Db → ℤ → ℕ → Tier → Tier
eligible_tier db reserve now current =
    or_default (best_tier reserve (latest_tiers now db.tiers)) current

abbrev pub same_candidate : Option ℕ → ℕ → Bool
same_candidate none id = false
same_candidate (some c) id = c == id

abbrev pub changed_to : Tier → Tier → Trigger → TierChangeResult
changed_to current next trigger = record {
  changed = true;
  from_tier_number = some current.tier_number;
  to_tier_number = some next.tier_number;
  trigger = some trigger;
}

abbrev pub set_candidate : Db → TierState → Option ℕ → Option ℕ → Db
set_candidate db state candidate since = record db {
  state = some (record state { candidate_tier_id = candidate; candidate_since = since });
}

-- The branch of a higher eligible tier.
unfoldable pub promote : Db → TierState → Tier → Tier → ℤ → ℕ → TierChangeResult × Db
promote db state current eligible reserve now = elim state.candidate_since [
  | none ↦ (unchanged, set_candidate db state (some eligible.id) (some now))
  | some since ↦
      if same_candidate state.candidate_tier_id eligible.id
      then (if leb promotion_hold (now - since)
          then (
            changed_to current eligible automated_promotion,
            apply_tier_change db current.id eligible.id automated_promotion reserve,
          )
          else (unchanged, db))
      else (unchanged, set_candidate db state (some eligible.id) (some now))
]

-- The branch of the tier that is current.
unfoldable pub settle : Db → TierState → TierChangeResult × Db
settle db state = elim state.candidate_tier_id [
  | none ↦ (unchanged, db)
  | some c ↦ (unchanged, set_candidate db state none none)
]

unfoldable pub transition : Db → TierState → Tier → Tier → ℤ → ℕ → TierChangeResult × Db
transition db state current eligible reserve now =
    if ltb current.tier_number eligible.tier_number
    then promote db state current eligible reserve now
    else if ltb eligible.tier_number current.tier_number
    then (
      changed_to current eligible automated_demotion,
      apply_tier_change db current.id eligible.id automated_demotion reserve,
    )
    else settle db state

-- The call fails (`none`) when the current tier is missing, which the foreign key rules out.
unfoldable pub evaluate_tier_transition : Db → ℤ → ℕ → Option (TierChangeResult × Db)
evaluate_tier_transition db reserve now = elim db.state [
  | none ↦ some (unchanged, db)
  | some state ↦ elim (find_tier state.current_tier_id db.tiers) [
    | none ↦ none
    | some current ↦
        some (transition db state current (eligible_tier db reserve now current) reserve now)
  ]
]

-- What the query of the next lower tier answers.
unfoldable pub next_lower : ℕ → List Tier → Option Tier
next_lower number [] = none
next_lower number (t ∷ ts) =
    let lower = next_lower number ts in
    if ltb t.tier_number number then some (higher t lower) else lower
  where
    higher : Tier → Option Tier → Tier
    higher t none = t
    higher t (some u) = if ltb t.tier_number u.tier_number then u else t

abbrev pub break_circuit : Db → Tier → Option Tier → ℤ → TierChangeResult × Db
break_circuit db current none reserve = (unchanged, db)
break_circuit db current (some lower) reserve = (
  changed_to current lower circuit_breaker,
  apply_tier_change db current.id lower.id circuit_breaker reserve,
)

-- `multiple` is the one of the configuration in force, in ten-thousandths, and `none` without one;
-- `actual` and `expected` are the sums over the last 24 hours; `reserve` is the reserve's balance.
unfoldable pub check_circuit_breaker :
    Db → Option ℕ → ℤ → Option ℤ → ℤ → ℕ → Option (TierChangeResult × Db)
check_circuit_breaker db multiple actual expected reserve now = elim db.state [
  | none ↦ some (unchanged, db)
  | some state ↦ elim multiple [
    | none ↦ some (unchanged, db)
    | some m ↦ elim expected [
      | none ↦ some (unchanged, db)
      | some e ↦
          if leb_ℤ e (pos 0) || leb_ℤ (actual *ℤ pos 10000) (e *ℤ pos m)
          then some (unchanged, db)
          else elim (find_tier state.current_tier_id db.tiers) [
            | none ↦ none
            | some current ↦ some (
                break_circuit db current
                  (next_lower current.tier_number (latest_tiers now db.tiers)) reserve)
          ]
    ]
  ]
]
