-- ===== src/Keno/Tier/Held.antt =====
-- A run of evaluations of packages/core/keno_tier_automation.py, and the wait before a promotion.
use mathlib.Core.Path.{subst}
use igame.Common.{
  ℕ, ◌-◌, ◌≤◌, ◌<◌, ◌≡◌, refl, ap, sym, ◌∙◌, inl, inr, Option, none, some, List, [], ◌∷◌, arith,
}
use igame.Common.Int.{ℤ}
use igame.Keno.Tier.{
  promotion_hold, automated_promotion, TierChangeResult, Tier, TierState, Db, apply_tier_change,
  eligible_tier, evaluate_tier_transition,
}
use igame.Keno.Tier.Transition.{Outcome, promoted, waiting, restarted, demoted, kept, cleared}
use igame.Keno.Tier.Carried.{some-injective, none≢some, evaluate-cases, Carried, Carried-as}

-- The evaluations so far, the last one first: each has the reserve and the time it read.
abbrev pub History : Type 0
History = List (ℤ × ℕ)

-- The databases that evaluations reach from one in which no tier is a candidate.
pub data Reached (tiers : List Tier) : Db → History → Type 0 where
  began :
      (db : Db) (s : TierState)
      → db.tiers ≡ tiers
      → db.state ≡ some s
      → s.candidate_tier_id ≡ none
      → Reached tiers db []
  evaluated :
      (db : Db) {history : History} (reserve : ℤ) (now : ℕ) {result : TierChangeResult} {db' : Db}
      → Reached tiers db history
      → evaluate_tier_transition db reserve now ≡ some (result, db')
      → Reached tiers db' ((reserve, now) ∷ history)

-- Tier `id` was the one carried at the last evaluations, back to one at time `since`.
pub data HeldSince (tiers : List Tier) (id since : ℕ) : History → Type 0 where
  first :
      (reserve : ℤ) (history : History)
      → Carried tiers reserve since id
      → HeldSince tiers id since ((reserve, since) ∷ history)
  again :
      (reserve : ℤ) (now : ℕ) {history : History}
      → Carried tiers reserve now id
      → HeldSince tiers id since history
      → HeldSince tiers id since ((reserve, now) ∷ history)

-- A candidate of the state was carried at every evaluation since it became one.
abbrev CandidateHeld : List Tier → Option TierState → History → Type 0
CandidateHeld tiers state history =
    (s : TierState) (id since : ℕ)
    → state ≡ some s
    → s.candidate_tier_id ≡ some id
    → s.candidate_since ≡ some since
    → HeldSince tiers id since history

CandidateHeld-none :
    (tiers : List Tier) (s : TierState) (history : History)
    → s.candidate_tier_id ≡ none
    → CandidateHeld tiers (some s) history
CandidateHeld-none tiers s history n s' id since e c d =
    absurd (none≢some (sym n ∙ ap (λ (x : TierState). x.candidate_tier_id) (some-injective e) ∙ c))

held-step :
    (tiers : List Tier) (db : Db) (history : History) (reserve : ℤ) (now : ℕ) (s : TierState)
    (current : Tier) (x : TierChangeResult × Db)
    → db.tiers ≡ tiers
    → db.state ≡ some s
    → Outcome db s current (eligible_tier db reserve now current) reserve now x
    → CandidateHeld tiers db.state history
    → CandidateHeld tiers x.1.state ((reserve, now) ∷ history)
unfolding apply_tier_change
held-step tiers db history reserve now s current _ t e (promoted since lt c d h) held =
    CandidateHeld-none tiers _ ((reserve, now) ∷ history) refl
held-step tiers db history reserve now s current _ t e (waiting since lt c d) held =
    λ s' id since' e' c' d'.
      let same : s ≡ s' = some-injective (sym e ∙ e') in
      let same_id : (eligible_tier db reserve now current).id ≡ id =
        some-injective (sym c ∙ ap (λ (x : TierState). x.candidate_tier_id) same ∙ c') in
      again reserve now (Carried-as tiers db reserve now id current t (omega arith) same_id)
        (held s' id since' e' c' d')
held-step tiers db history reserve now s current _ t e (restarted lt) held =
    λ s' id since' e' c' d'.
      let same = some-injective e' in
      let same_id : (eligible_tier db reserve now current).id ≡ id =
        some-injective (ap (λ (x : TierState). x.candidate_tier_id) same ∙ c') in
      let same_time : now ≡ since' =
        some-injective (ap (λ (x : TierState). x.candidate_since) same ∙ d') in
      subst (λ (x : ℕ). HeldSince tiers id x ((reserve, now) ∷ history)) same_time
        (first reserve history (Carried-as tiers db reserve now id current t (omega arith) same_id))
held-step tiers db history reserve now s current _ t e (demoted lt) held =
    CandidateHeld-none tiers _ ((reserve, now) ∷ history) refl
held-step tiers db history reserve now s current _ t e (kept le n) held =
    subst (λ (x : Option TierState). CandidateHeld tiers x ((reserve, now) ∷ history)) (sym e)
      (CandidateHeld-none tiers s ((reserve, now) ∷ history) n)
held-step tiers db history reserve now s current _ t e (cleared le) held =
    CandidateHeld-none tiers _ ((reserve, now) ∷ history) refl

tiers-step :
    (db : Db) (reserve : ℤ) (now : ℕ) (s : TierState) (current eligible : Tier)
    (x : TierChangeResult × Db)
    → Outcome db s current eligible reserve now x
    → x.1.tiers ≡ db.tiers
unfolding apply_tier_change
tiers-step db reserve now s current eligible _ (promoted since lt c d h) = refl
tiers-step db reserve now s current eligible _ (waiting since lt c d) = refl
tiers-step db reserve now s current eligible _ (restarted lt) = refl
tiers-step db reserve now s current eligible _ (demoted lt) = refl
tiers-step db reserve now s current eligible _ (kept le n) = refl
tiers-step db reserve now s current eligible _ (cleared le) = refl

held :
    (tiers : List Tier) (db : Db) (history : History)
    → Reached tiers db history
    → (db.tiers ≡ tiers) × CandidateHeld tiers db.state history
held tiers _ _ (began db s t e n) = (
  t,
  subst (λ (x : Option TierState). CandidateHeld tiers x []) (sym e)
      (CandidateHeld-none tiers s [] n),
)
held tiers _ _ (evaluated db {history} reserve now {result} {db'} r e) =
    let (t, h) = held tiers db history r in
    elim (evaluate-cases db reserve now (result, db') e) [
      | inl (n, same) ↦ (
        ap (λ (x : TierChangeResult × Db). x.1.tiers) same ∙ t,
        λ s id since e' c d.
            absurd
              (none≢some (sym n ∙ sym (ap (λ (x : TierChangeResult × Db). x.1.state) same) ∙ e')),
      )
      | inr v ↦ (
        tiers-step db reserve now v.s v.current (eligible_tier db reserve now v.current)
              (result, db') v.outcome
            ∙ t,
        held-step tiers db history reserve now v.s v.current (result, db') t v.has_state v.outcome
            h,
      )
    ]

promoted-state :
    (db : Db) (reserve : ℤ) (now : ℕ) (s : TierState) (current eligible : Tier)
    (x : TierChangeResult × Db)
    → Outcome db s current eligible reserve now x
    → x.0.trigger ≡ some automated_promotion
    → (since : ℕ) × (s.candidate_tier_id ≡ some eligible.id)
      × (s.candidate_since ≡ some since)
      × (promotion_hold ≤ now - since)
      × (current.tier_number < eligible.tier_number)
      × (x.1.state
          ≡ some (record {
            current_tier_id = eligible.id;
            candidate_tier_id = none;
            candidate_since = none;
          }))
unfolding apply_tier_change
promoted-state db reserve now s current eligible _ (promoted since lt c d h) p =
    (since, c, d, h, lt, refl)
promoted-state db reserve now s current eligible _ (waiting since lt c d) p = absurd (none≢some p)
promoted-state db reserve now s current eligible _ (restarted lt) p = absurd (none≢some p)
promoted-state db reserve now s current eligible _ (demoted lt) p = cc
promoted-state db reserve now s current eligible _ (kept le n) p = absurd (none≢some p)
promoted-state db reserve now s current eligible _ (cleared le) p = absurd (none≢some p)

-- A promotion to a tier comes only after seven days in which every evaluation found that the reserve
-- carries exactly that tier: from the evaluation at `since` to the one that promotes.
pub promotion-held :
    (tiers : List Tier) (db : Db) (history : History) (reserve : ℤ) (now : ℕ)
    (result : TierChangeResult) (db' : Db)
    → Reached tiers db history
    → evaluate_tier_transition db reserve now ≡ some (result, db')
    → result.trigger ≡ some automated_promotion
    → (id since : ℕ) × HeldSince tiers id since ((reserve, now) ∷ history)
      × (promotion_hold ≤ now - since)
      × (db'.state
          ≡ some
              (record { current_tier_id = id; candidate_tier_id = none; candidate_since = none }))
promotion-held tiers db history reserve now result db' r e p =
    let (t, h) = held tiers db history r in
    elim (evaluate-cases db reserve now (result, db') e) [
      | inl (n, same) ↦
          absurd (none≢some (sym (ap (λ (x : TierChangeResult × Db). x.0.trigger) same) ∙ p))
      | inr v ↦
          let eligible = eligible_tier db reserve now v.current in
          let (since, c, d, hold, lt, state) =
            promoted-state db reserve now v.s v.current eligible (result, db') v.outcome p in
          (
            eligible.id,
            since,
            again reserve now
                (Carried-as tiers db reserve now eligible.id v.current t (omega arith) refl)
                (h v.s eligible.id since v.has_state c d),
            hold,
            state,
          )
    ]
