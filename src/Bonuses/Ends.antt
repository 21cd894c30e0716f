-- ===== src/Bonuses/Ends.antt =====
-- A bonus ends once, and each call moves what it says (packages/core/bonuses.py).
use mathlib.Core.Path.{subst}
use igame.Common.{
  ℕ, ◌≡◌, refl, ap, Bool, true, false, Option, none, some, String, Bool-cases, inl, inr,
}
use igame.Common.Int.{neg, ◌+ℤ◌}
use igame.Common.Result.{Result, ok, err, >>=-eq-ok, ok-injective}
use igame.Ledger as L
use igame.Ledger.{LedgerTransaction}
use igame.Ledger.Balances.{if_ℤ}
use igame.Ledger.Post.{PostError}
use igame.Ledger.Wallets.{Side, same_side, wallet}
use igame.Ledger.Transfers.{IsNew, Moved}
use igame.Bonuses.{
  Bonus, BonusesDb, BonusError, is_active, find_bonus, update_bonus, bonus_side, bonus_move,
  raise_post, post_and_end, if_active,
}
use igame.Bonuses.Rows.{active-not_ended}
use igame.Bonuses.Lifecycle.{End, end_key, BonusesAreWf, ended-BonusesAreWf}

-- What a call that ends a bonus leaves: nothing has changed, or the active bonus has ended and its amount has gone from the
-- bonus wallet to `target`.
pub data Ended (db : BonusesDb) (id : ℕ) (target : Bonus → Side) : Bool → BonusesDb → Type 0 where
  unchanged : Ended db id target false db
  ended :
      {db' : BonusesDb} (b : Bonus) (f : Bonus → Bonus)
      → find_bonus id db.bonuses ≡ some b
      → is_active b.status ≡ true
      → BonusesAreWf db'
      → ((s : Side)
          → wallet db'.ledger s
            ≡ wallet db.ledger s
              +ℤ (if_ℤ (same_side (bonus_side b.user_id) s) (neg b.amount)
                  +ℤ if_ℤ (same_side (target b) s) b.amount))
      → db'.bonuses ≡ update_bonus f id db.bonuses
      → ((q : Bonus) → ((f q).id ≡ q.id) × (is_active (f q).status ≡ false))
      → Ended db id target true db'

pub raise_post-eq-ok :
    {A : Type 0} (r : Result PostError A) {a : A} → raise_post r ≡ ok a → r ≡ ok a
raise_post-eq-ok (ok a) h = ap ok (ok-injective {E = BonusError} h)
raise_post-eq-ok (err e) h = cc h

module _ (db : BonusesDb) (id : ℕ) (e : End) (kind : String) (target : Bonus → Side)
    (f : ℕ → Bonus → Bonus) (w : BonusesAreWf db)
    (keeps : (txn : ℕ) (q : Bonus) → ((f txn q).id ≡ q.id) × (is_active (f txn q).status ≡ false))
    (elsewhere : (b : Bonus) (u : ℕ) → same_side (target b) (bonus_side u) ≡ false)
    (posts : Bonus → Result PostError (LedgerTransaction × L.Db))
    (moves : (b : Bonus) (t : LedgerTransaction) (ledger' : L.Db)
      → IsNew (end_key e id) db.ledger
      → posts b ≡ ok (t, ledger')
      → Moved db.ledger
          (bonus_move kind (end_key e id) (bonus_side b.user_id) (target b) b.amount none)
          ledger') where
  post_and_end-Ended :
      (b : Bonus) {done : Bool} {db' : BonusesDb}
      → find_bonus id db.bonuses ≡ some b
      → is_active b.status ≡ true
      → post_and_end db id f (posts b) ≡ ok (done, db')
      → Ended db id target done db'
  post_and_end-Ended b found running h =
      let ((t, ledger'), posted, same) = >>=-eq-ok (raise_post (posts b)) _ h in
      let fresh = w.keys_free e id (active-not_ended id 1 db.bonuses b w.in_order found running) in
      let moved = moves b t ledger' fresh (raise_post-eq-ok (posts b) posted) in
      subst (λ (r : Bool × BonusesDb). Ended db id target r.0 r.1)
        (ok-injective {E = BonusError} same)
        (ended b (f t.id) found running
          (ended-BonusesAreWf db id b e kind (target b) f t.id w found running
            (λ q. (keeps t.id q).0) (keeps t.id b).1 (elsewhere b) moved)
          moved.moved refl (keeps t.id))

  pub if_active-Ended :
      (o : Option Bonus) {done : Bool} {db' : BonusesDb}
      → find_bonus id db.bonuses ≡ o
      → if_active db o (λ b. post_and_end db id f (posts b)) ≡ ok (done, db')
      → Ended db id target done db'
  if_active-Ended none found h = cc h
  if_active-Ended (some b) found h = elim (Bool-cases (is_active b.status)) [
    | inl running ↦ post_and_end-Ended b found running (rw running at h)
    | inr over ↦
        subst (λ (r : Bool × BonusesDb). Ended db id target r.0 r.1)
          (ok-injective {E = BonusError} (rw over at h)) unchanged
  ]
