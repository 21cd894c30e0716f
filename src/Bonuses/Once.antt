-- ===== src/Bonuses/Once.antt =====
-- A bonus ends once, and a conversion moves its amount to cash (packages/core/bonuses.py).
use mathlib.Core.Path.{subst}
use igame.Common.{
  ℕ, ◌≡◌, refl, ap, ◌∙◌, Bool, true, false, Option, none, some, List, [], ◌∷◌, arith, ◌==◌,
  Bool-cases, inl, inr,
}
use igame.Common.Int.{neg, ◌+ℤ◌}
use igame.Common.Result.{Result, ok}
use igame.Ledger.Balances.{if_ℤ}
use igame.Ledger.Wallets.{Side, side_of, same_side, wallet}
use igame.Ledger.Transfers.{move_money, move_back}
use igame.Bonuses.{
  Bonus, BonusesDb, BonusError, expired, revoked, is_active, find_bonus, update_bonus, bonus_side,
  post_and_end, set_converted, set_bonus_status, convert_move, take_back, if_active,
  convert_bonus_to_cash, expire_bonus, revoke_bonus,
}
use igame.Bonuses.Lifecycle.{BonusesAreWf}
use igame.Bonuses.Ends.{Ended, ended}
use igame.Common.{◌⊎◌}
use igame.Bonuses.Steps.{convert_bonus_to_cash-Ended, expire_bonus-Ended, revoke_bonus-Ended}

find_bonus-updated :
    (f : Bonus → Bonus) (id : ℕ) (bs : List Bonus) (b : Bonus)
    → ((q : Bonus) → (f q).id ≡ q.id)
    → find_bonus id bs ≡ some b
    → find_bonus id (update_bonus f id bs) ≡ some (f b)
unfolding find_bonus update_bonus
find_bonus-updated f id [] b k e = cc
find_bonus-updated f id (x ∷ bs) b k e = elim (Bool-cases (x.id == id)) [
  | inl hit ↦
      let same : x ≡ b = ground (arith, hit, e) in
      rw (hit, ap (λ (n : ℕ). n == id) (k x) ∙ hit, same) refl
  | inr miss ↦ ground (arith, miss, find_bonus-updated f id bs b k (ground (arith, miss, e)))
]

-- Each call that ends a bonus finds nothing to do.
abbrev pub Over : BonusesDb → ℕ → Type 0
Over db id =
    (convert_bonus_to_cash id db ≡ ok (false, db))
    × (expire_bonus id db ≡ ok (false, db))
    × (revoke_bonus id db ≡ ok (false, db))

if_active-over :
    (db : BonusesDb) (o : Option Bonus) (b : Bonus)
    (next : Bonus → Result BonusError (Bool × BonusesDb))
    → o ≡ some b
    → is_active b.status ≡ false
    → if_active db o next ≡ ok (false, db)
if_active-over db none b next f h = cc f
if_active-over db (some q) b next f h =
    let same : q ≡ b = cc f in rw (ap (λ (r : Bonus). is_active r.status) same ∙ h) refl

over :
    (db : BonusesDb) (id : ℕ) (b : Bonus)
    → find_bonus id db.bonuses ≡ some b
    → is_active b.status ≡ false
    → Over db id
unfolding convert_bonus_to_cash expire_bonus revoke_bonus
over db id b f h =
    let row = find_bonus id db.bonuses in
    (
      if_active-over db row b
          (λ q. post_and_end db id set_converted (move_money db.ledger (convert_move id q))) f h,
      if_active-over db row b
          (λ q.
            post_and_end db id (λ txn. set_bonus_status expired)
              (move_back db.ledger (take_back "bonus-expire-" id q)))
          f h,
      if_active-over db row b
          (λ q.
            post_and_end db id (λ txn. set_bonus_status revoked)
              (move_back db.ledger (take_back "bonus-revoke-" id q)))
          f h,
    )

Ended-Over :
    {db : BonusesDb} {id : ℕ} {target : Bonus → Side} {db' : BonusesDb}
    → Ended db id target true db'
    → Over db' id
Ended-Over {id = id} {db' = db'} (ended b f found running wf moved rows keeps) =
    over db' id (f b)
      (ap (find_bonus id) rows ∙ find_bonus-updated f id _ b (λ q. (keeps q).0) found) (keeps b).1

-- In a well-formed state, once a bonus has been converted, has expired or was revoked, no call converts it,
-- lets it expire or revokes it.
pub bonus-Over :
    (id : ℕ) (db : BonusesDb) {db' : BonusesDb}
    → BonusesAreWf db
    → (convert_bonus_to_cash id db ≡ ok (true, db'))
      ⊎ (expire_bonus id db ≡ ok (true, db'))
      ⊎ (revoke_bonus id db ≡ ok (true, db'))
    → Over db' id
bonus-Over id db w (inl h) = Ended-Over (convert_bonus_to_cash-Ended db id w h)
bonus-Over id db w (inr (inl h)) = Ended-Over (expire_bonus-Ended db id w h)
bonus-Over id db w (inr (inr h)) = Ended-Over (revoke_bonus-Ended db id w h)

Ended-wallet :
    {db : BonusesDb} {id : ℕ} {target : Bonus → Side} {db' : BonusesDb} (b : Bonus) (s : Side)
    → find_bonus id db.bonuses ≡ some b
    → Ended db id target true db'
    → wallet db'.ledger s
      ≡ wallet db.ledger s
        +ℤ (if_ℤ (same_side (bonus_side b.user_id) s) (neg b.amount)
            +ℤ if_ℤ (same_side (target b) s) b.amount)
Ended-wallet {db} {id} {target} {db'} b s f (ended q g found running wf moved rows keeps) =
    let same : q ≡ b = cc (f, found) in
    subst
      (λ (r : Bonus).
        wallet db'.ledger s
        ≡ wallet db.ledger s
          +ℤ (if_ℤ (same_side (bonus_side r.user_id) s) (neg r.amount)
              +ℤ if_ℤ (same_side (target r) s) r.amount))
      same (moved s)

-- In a well-formed state, a conversion that answers true takes the whole amount of the bonus from the bonus
-- wallet of its player to his cash, and changes no other wallet.
pub convert_bonus_to_cash-wallet :
    (id : ℕ) (db : BonusesDb) (b : Bonus) (s : Side) {db' : BonusesDb}
    → BonusesAreWf db
    → find_bonus id db.bonuses ≡ some b
    → convert_bonus_to_cash id db ≡ ok (true, db')
    → wallet db'.ledger s
      ≡ wallet db.ledger s
        +ℤ (if_ℤ (same_side (bonus_side b.user_id) s) (neg b.amount)
            +ℤ if_ℤ (same_side (side_of b.user_id "user_cash") s) b.amount)
convert_bonus_to_cash-wallet id db b s w f h =
    Ended-wallet b s f (convert_bonus_to_cash-Ended db id w h)
