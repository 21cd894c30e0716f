-- ===== src/Keno/Tier/Carried.antt =====
-- Which tier an evaluation of packages/core/keno_tier_automation.py finds that the reserve carries.
use mathlib.Core.Path.{subst}
use igame.Common.{
  ℕ, ◌<◌, ◌≡◌, refl, ap, sym, ◌∙◌, ◌⊎◌, inl, inr, none, some, List, [], ◌∷◌, arith, Option-cases,
  ◌≢◌,
}
use igame.Common.Int.{ℤ, ◌≤ℤ◌}
use igame.Keno.Tier.{
  TierChangeResult, unchanged, Tier, TierState, Db, find_tier, latest_tiers, best_tier,
  eligible_tier, transition, evaluate_tier_transition,
}
use igame.Keno.Tier.Transition.{Outcome, transition-Outcome}

pub some-injective {ℓ} : {A : Type ℓ} {a b : A} → some a ≡ some b → a ≡ b
some-injective h = cc

-- What an evaluation of a database with a state row went through.
pub record Evaluated (db : Db) (reserve : ℤ) (now : ℕ) (x : TierChangeResult × Db) : Type 0 where
  pub s : TierState
  pub has_state : db.state ≡ some s
  pub current : Tier
  pub has_current : find_tier s.current_tier_id db.tiers ≡ some current
  pub outcome : Outcome db s current (eligible_tier db reserve now current) reserve now x

pub evaluate-cases :
    (db : Db) (reserve : ℤ) (now : ℕ) (x : TierChangeResult × Db)
    → evaluate_tier_transition db reserve now ≡ some x
    → ((db.state ≡ none) × (x ≡ (unchanged, db))) ⊎ Evaluated db reserve now x
unfolding evaluate_tier_transition
evaluate-cases db reserve now x h = elim (Option-cases db.state) [
  | inl e ↦ inl (e, ground arith)
  | inr (s, e) ↦ elim (Option-cases (find_tier s.current_tier_id db.tiers)) [
    | inl n ↦ absurd (ground arith)
    | inr (current, c) ↦
        let same : transition db s current (eligible_tier db reserve now current) reserve now ≡ x =
          ground arith in
        inr (record {
          s = s;
          has_state = e;
          current = current;
          has_current = c;
          outcome =
              subst
                (λ (y : TierChangeResult × Db).
                  Outcome db s current (eligible_tier db reserve now current) reserve now y)
                same
                (transition-Outcome db s current (eligible_tier db reserve now current) reserve
                  now);
        })
  ]
]

pub best_tier-meets :
    (reserve : ℤ) (ts : List Tier) (t : Tier)
    → best_tier reserve ts ≡ some t
    → t.min_reserve ≤ℤ reserve
unfolding best_tier
best_tier-meets reserve [] t h = cc
best_tier-meets reserve (u ∷ us) t h = elim (Option-cases (best_tier reserve us)) [
  | inl e ↦ ground arith
  | inr (v, e) ↦ ground (arith, best_tier-meets reserve us v e)
]

-- The tier that the evaluation found to be carried by the reserve, when it is not the current one.
pub eligible-best :
    (db : Db) (reserve : ℤ) (now : ℕ) (current : Tier)
    → (best_tier reserve (latest_tiers now db.tiers) ≡ none
        × eligible_tier db reserve now current ≡ current)
      ⊎ (best_tier reserve (latest_tiers now db.tiers)
          ≡ some (eligible_tier db reserve now current))
unfolding eligible_tier
eligible-best db reserve now current =
    elim (Option-cases (best_tier reserve (latest_tiers now db.tiers))) [
      | inl e ↦ inl (e, ground arith)
      | inr (t, e) ↦ inr (ground arith)
    ]

-- The tier that the reserve carried at an evaluation has this id.
abbrev pub Carried : List Tier → ℤ → ℕ → ℕ → Type 0
Carried tiers reserve now id =
    (t : Tier) × (best_tier reserve (latest_tiers now tiers) ≡ some t) × (t.id ≡ id)

pub carried :
    (db : Db) (reserve : ℤ) (now : ℕ) (current : Tier)
    → current.tier_number ≢ (eligible_tier db reserve now current).tier_number
    → Carried db.tiers reserve now (eligible_tier db reserve now current).id
carried db reserve now current ne = elim (eligible-best db reserve now current) [
  | inl (n, same) ↦ absurd (ne (sym (ap (λ (t : Tier). t.tier_number) same)))
  | inr e ↦ (eligible_tier db reserve now current, e, refl)
]

pub Carried-as :
    (tiers : List Tier) (db : Db) (reserve : ℤ) (now id : ℕ) (current : Tier)
    → db.tiers ≡ tiers
    → current.tier_number < (eligible_tier db reserve now current).tier_number
    → (eligible_tier db reserve now current).id ≡ id
    → Carried tiers reserve now id
Carried-as tiers db reserve now id current t lt same =
    let (e, best, same') = carried db reserve now current (λ h. ground arith) in
    (
      e,
      ap (λ (ts : List Tier). best_tier reserve (latest_tiers now ts)) (sym t) ∙ best,
      same' ∙ same,
    )

pub none≢some {ℓ} : {A : Type ℓ} {a : A} → none ≢ some a
none≢some h = cc
