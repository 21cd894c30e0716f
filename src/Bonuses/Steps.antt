-- ===== src/Bonuses/Steps.antt =====
-- Runs of grants and ends of bonuses, in any order (packages/core/bonuses.py).
use mathlib.Core.Path.{subst}
use text.Mathlib.Text.{◌==◌ as str_eq}
use igame.Common.{
  ℕ, ◌≡◌, refl, Bool, false, Option, none, some, String, arith, Bool-cases, inl, inr,
}
use igame.Common.Result.{Result, ok, err, >>=-eq-ok, ok-injective}
use igame.Ledger as L
use igame.Ledger.{LedgerTransaction}
use igame.Ledger.Post.{find_transaction}
use igame.Ledger.Wallets.{Side, side_of, same_side, wallet}
use igame.Ledger.Transfers.{move_money, move_back, Moved, move_money-Moved, move_back-Moved}
use igame.Bonuses.{
  Bonus, BonusesDb, BonusError, unique_violation, Grant, expired, revoked, find_bonus, find_granted,
  has_referral, bonus_side, promo, raise_post, asserted, grant_move, insert_bonus, grant_by,
  grant_bonus, set_converted, set_bonus_status, convert_move, take_back, convert_bonus_to_cash,
  expire_bonus, revoke_bonus,
}
use igame.Bonuses.Rows.{active_total}
use igame.Bonuses.Lifecycle.{
  End, converts, expires, revokes, end_key, BonusesAreWf, granted-BonusesAreWf,
}
use igame.Bonuses.Ends.{Ended, unchanged, ended, raise_post-eq-ok, if_active-Ended}

abbrev pub cash_of : Bonus → Side
cash_of b = side_of b.user_id "user_cash"

cash_apart : (b : Bonus) (u : ℕ) → same_side (cash_of b) (bonus_side u) ≡ false
cash_apart b u = ground arith

module _ (db : BonusesDb) (id : ℕ) {done : Bool} {db' : BonusesDb} (w : BonusesAreWf db) where
  pub convert_bonus_to_cash-Ended :
      convert_bonus_to_cash id db ≡ ok (done, db') → Ended db id cash_of done db'
  unfolding convert_bonus_to_cash
  convert_bonus_to_cash-Ended h =
      if_active-Ended db id converts "bonus_convert" cash_of set_converted w (λ txn q. (refl, refl))
        cash_apart (λ b. move_money db.ledger (convert_move id b))
        (λ b t ledger' fresh posted.
          move_money-Moved db.ledger (convert_move id b) w.wallets fresh posted)
        (find_bonus id db.bonuses) refl h

  pub expire_bonus-Ended : expire_bonus id db ≡ ok (done, db') → Ended db id (λ b. promo) done db'
  unfolding expire_bonus
  expire_bonus-Ended h =
      if_active-Ended db id expires "bonus_grant" (λ b. promo) (λ txn. set_bonus_status expired) w
        (λ txn q. (refl, refl)) (λ b u. refl)
        (λ b. move_back db.ledger (take_back "bonus-expire-" id b))
        (λ b t ledger' fresh posted.
          move_back-Moved db.ledger (take_back "bonus-expire-" id b) w.wallets fresh posted)
        (find_bonus id db.bonuses) refl h

  pub revoke_bonus-Ended : revoke_bonus id db ≡ ok (done, db') → Ended db id (λ b. promo) done db'
  unfolding revoke_bonus
  revoke_bonus-Ended h =
      if_active-Ended db id revokes "bonus_grant" (λ b. promo) (λ txn. set_bonus_status revoked) w
        (λ txn q. (refl, refl)) (λ b u. refl)
        (λ b. move_back db.ledger (take_back "bonus-revoke-" id b))
        (λ b t ledger' fresh posted.
          move_back-Moved db.ledger (take_back "bonus-revoke-" id b) w.wallets fresh posted)
        (find_bonus id db.bonuses) refl h

Ended-BonusesAreWf :
    {db : BonusesDb} {id : ℕ} {target : Bonus → Side} {done : Bool} {db' : BonusesDb}
    → BonusesAreWf db
    → Ended db id target done db'
    → BonusesAreWf db'
Ended-BonusesAreWf w unchanged = w
Ended-BonusesAreWf w (ended b f found running wf moved rows keeps) = wf

-- The key of a grant is no key under which a bonus ends.
abbrev pub IsGrantKey : String → Type 0
IsGrantKey key = (e : End) (id : ℕ) → str_eq key (end_key e id) ≡ false

asserted-BonusesAreWf :
    (db : BonusesDb) (o : Option Bonus) {b : Bonus} {db' : BonusesDb}
    → BonusesAreWf db
    → asserted db o ≡ ok (b, db')
    → BonusesAreWf db'
asserted-BonusesAreWf db none w h = cc h
asserted-BonusesAreWf db (some b) w h =
    subst (λ (r : Bonus × BonusesDb). BonusesAreWf r.1) (ok-injective {E = BonusError} h) w

insert_bonus-BonusesAreWf :
    (g : Grant) (db : BonusesDb) (t : LedgerTransaction) (ledger' : L.Db) {b : Bonus}
    {db' : BonusesDb}
    → BonusesAreWf db
    → IsGrantKey g.idempotency_key
    → Moved db.ledger (grant_move g) ledger'
    → insert_bonus g db (t, ledger') ≡ ok (b, db')
    → BonusesAreWf db'
insert_bonus-BonusesAreWf g db t ledger' w other moved h =
    elim (Bool-cases (has_referral g.referral_of_user_id db.bonuses)) [
      | inl taken ↦ absurd (refused (rw taken at h))
      | inr free ↦
          subst (λ (r : Bonus × BonusesDb). BonusesAreWf r.1)
            (ok-injective {E = BonusError} (rw free at h))
            (granted-BonusesAreWf db g t.id w other moved)
    ]
  where
    refused :
        {x : Bonus × BonusesDb}
        → ◌≡◌ {A = Result BonusError (Bonus × BonusesDb)} (err unique_violation) (ok x)
        → ⊥
    refused k = cc k

grant_by-BonusesAreWf :
    (g : Grant) (db : BonusesDb) (o : Option LedgerTransaction) {b : Bonus} {db' : BonusesDb}
    → BonusesAreWf db
    → IsGrantKey g.idempotency_key
    → find_transaction g.idempotency_key db.ledger.transactions ≡ o
    → grant_by g db o ≡ ok (b, db')
    → BonusesAreWf db'
grant_by-BonusesAreWf g db (some t) w other f h =
    asserted-BonusesAreWf db (find_granted t.id db.bonuses) w h
grant_by-BonusesAreWf g db none w other f h =
    let ((t, ledger'), posted, rest) =
      >>=-eq-ok (raise_post (move_money db.ledger (grant_move g))) (insert_bonus g db) h in
    insert_bonus-BonusesAreWf g db t ledger' w other
      (move_money-Moved db.ledger (grant_move g) w.wallets f
        (raise_post-eq-ok (move_money db.ledger (grant_move g)) posted))
      rest

pub grant_bonus-BonusesAreWf :
    (g : Grant) (db : BonusesDb) {b : Bonus} {db' : BonusesDb}
    → BonusesAreWf db
    → IsGrantKey g.idempotency_key
    → grant_bonus g db ≡ ok (b, db')
    → BonusesAreWf db'
unfolding grant_bonus
grant_bonus-BonusesAreWf g db w other h =
    grant_by-BonusesAreWf g db (find_transaction g.idempotency_key db.ledger.transactions) w other
      refl h

-- One call that does not raise.
pub data Step (db : BonusesDb) : BonusesDb → Type 0 where
  granted :
      {db' : BonusesDb} (g : Grant) (b : Bonus)
      → IsGrantKey g.idempotency_key
      → grant_bonus g db ≡ ok (b, db')
      → Step db db'
  converted_by :
      {db' : BonusesDb} (id : ℕ) (done : Bool)
      → convert_bonus_to_cash id db ≡ ok (done, db')
      → Step db db'
  expired_by :
      {db' : BonusesDb} (id : ℕ) (done : Bool) → expire_bonus id db ≡ ok (done, db') → Step db db'
  revoked_by :
      {db' : BonusesDb} (id : ℕ) (done : Bool) → revoke_bonus id db ≡ ok (done, db') → Step db db'

pub data Steps (db : BonusesDb) : BonusesDb → Type 0 where
  start : Steps db db
  then_step : {db' db'' : BonusesDb} → Steps db db' → Step db' db'' → Steps db db''

Step-BonusesAreWf : {db db' : BonusesDb} → BonusesAreWf db → Step db db' → BonusesAreWf db'
Step-BonusesAreWf {db} w (granted g b other h) = grant_bonus-BonusesAreWf g db w other h
Step-BonusesAreWf {db} w (converted_by id done h) =
    Ended-BonusesAreWf w (convert_bonus_to_cash-Ended db id w h)
Step-BonusesAreWf {db} w (expired_by id done h) =
    Ended-BonusesAreWf w (expire_bonus-Ended db id w h)
Step-BonusesAreWf {db} w (revoked_by id done h) =
    Ended-BonusesAreWf w (revoke_bonus-Ended db id w h)

Steps-BonusesAreWf : {db db' : BonusesDb} → BonusesAreWf db → Steps db db' → BonusesAreWf db'
Steps-BonusesAreWf w start = w
Steps-BonusesAreWf w (then_step before last) = Step-BonusesAreWf (Steps-BonusesAreWf w before) last

-- After any sequence of grants under keys that no end uses, conversions, expiries and revocations, from a
-- well-formed state, the bonus wallet of each player holds exactly what his active bonuses add up to.
pub Steps-bonus_side :
    {db db' : BonusesDb} (u : ℕ)
    → BonusesAreWf db
    → Steps db db'
    → wallet db'.ledger (bonus_side u) ≡ active_total u db'.bonuses
Steps-bonus_side u w run = (Steps-BonusesAreWf w run).backed u
