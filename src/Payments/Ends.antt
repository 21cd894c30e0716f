-- ===== src/Payments/Ends.antt =====
-- The decisions of an admin that end a withdrawal: each moves its amount out of the locked wallet, once
-- (services/admin/queries.py).
use mathlib.Core.Path.{subst}
use igame.Common.{ℕ, ◌≡◌, refl, ap, ◌∙◌, Bool, true, false, Option, none, some, String}
use igame.Common.Result.{Result, ok, err, ok-injective}
use igame.Ledger.Post.{PostError}
use igame.Payments.{Payment, PaymentsDb, PaymentStatus, failed, review, approved, rejected}
use igame.Payments.Keys.{reject, manual_settle, manual_fail}
use igame.Payments.Payouts.{to_provider, to_player, post_and_set, set_succeeded, set_closed}
use igame.Payments.Review.{
  is_manual, select_out, reject_row, settle_row, fail_row, reject_key, done, reject_withdrawal,
  manual_settle_key, manual_fail_key, settle_manual_withdrawal, fail_manual_withdrawal,
}
use igame.Payments.Lifecycle.{PaymentsAreWf}
use igame.Payments.Settled.{Closed, to_provider-Closed, to_player-Closed}
use igame.Payments.Decisions.{Selected, select_out-Selected, Selected-open}
use igame.Ledger.Transfers.{Move}

-- What a decision leaves: nothing has changed, or a withdrawal in the status has ended.
pub data Decided (status : PaymentStatus) (id : ℕ) (db : PaymentsDb) (m : Payment → Move)
    (f : ℕ → Payment → Payment) : Bool → PaymentsDb → Type 0 where
  unchanged : Decided status id db m f false db
  ended :
      {db' : PaymentsDb} (p : Payment)
      → Selected status id db p
      → Closed db p (m p) f db'
      → Decided status id db m f true db'

pub Decided-PaymentsAreWf :
    {status : PaymentStatus} {id : ℕ} {db : PaymentsDb} {m : Payment → Move}
    {f : ℕ → Payment → Payment} {b : Bool} {db' : PaymentsDb}
    → PaymentsAreWf db
    → Decided status id db m f b db'
    → PaymentsAreWf db'
Decided-PaymentsAreWf w unchanged = w
Decided-PaymentsAreWf w (ended p sel c) = c.wf

-- The result of a call that did something.
done-Decided :
    {status : PaymentStatus} {id : ℕ} {db : PaymentsDb} {m : Payment → Move}
    {f : ℕ → Payment → Payment} (p : Payment) (call : Result PostError PaymentsDb) {b : Bool}
    {db' : PaymentsDb}
    → Selected status id db p
    → ((db1 : PaymentsDb) → call ≡ ok db1 → Closed db p (m p) f db1)
    → done call ≡ ok (b, db')
    → Decided status id db m f b db'
done-Decided {status} {id} {db} {m} {f} p (ok db1) {b} {db'} sel closes h =
    let same = ok-injective {E = PostError} h in
    subst (λ (r : Bool × PaymentsDb). Decided status id db m f r.0 r.1) same
      (ended p sel (closes db1 refl))
done-Decided p (err e) sel closes h = cc h

abbrev none-Decided :
    {status : PaymentStatus} {id : ℕ} {db : PaymentsDb} {m : Payment → Move}
    {f : ℕ → Payment → Payment} {b : Bool} {db' : PaymentsDb}
    → ◌≡◌ {A = Result PostError (Bool × PaymentsDb)} (ok (false, db)) (ok (b, db'))
    → Decided status id db m f b db'
none-Decided {status} {id} {db} {m} {f} h =
    subst (λ (r : Bool × PaymentsDb). Decided status id db m f r.0 r.1)
      (ok-injective {E = PostError} h) unchanged

module _ (db : PaymentsDb) (id : ℕ) {b : Bool} {db' : PaymentsDb} (w : PaymentsAreWf db) where
  reject_row-Decided :
      (reason : String) (o : Option Payment)
      → ((p : Payment) → o ≡ some p → Selected review id db p)
      → reject_row db id reason o ≡ ok (b, db')
      → Decided review id db
          (λ p. to_player (reject_key p) p)
          (λ txn. set_closed rejected reason db.ledger.now)
          b
          db'
  reject_row-Decided reason none s h = none-Decided h
  reject_row-Decided reason (some p) s h =
      let sel = s p refl in
      done-Decided p _ sel
        (λ db1 e.
          to_player-Closed db p reject w sel.found (Selected-open review refl sel) refl rejected
            reason refl
            (ap
                (λ (n : ℕ).
                  post_and_set db n (to_player (reject_key p) p)
                    (λ txn. set_closed rejected reason db.ledger.now))
                sel.number
              ∙ e))
        h

  pub reject_withdrawal-Decided :
      (reason : String)
      → reject_withdrawal db id reason ≡ ok (b, db')
      → Decided review id db
          (λ p. to_player (reject_key p) p)
          (λ txn. set_closed rejected reason db.ledger.now)
          b
          db'
  unfolding reject_withdrawal
  reject_withdrawal-Decided reason h =
      reject_row-Decided reason (select_out (λ p. true) review id db)
        (select_out-Selected (λ p. true) review id db) h

  fail_row-Decided :
      (reason : String) (o : Option Payment)
      → ((p : Payment) → o ≡ some p → Selected approved id db p)
      → fail_row db id reason o ≡ ok (b, db')
      → Decided approved id db
          (λ p. to_player (manual_fail_key p) p)
          (λ txn. set_closed failed reason db.ledger.now)
          b
          db'
  fail_row-Decided reason none s h = none-Decided h
  fail_row-Decided reason (some p) s h =
      let sel = s p refl in
      done-Decided p _ sel
        (λ db1 e.
          to_player-Closed db p manual_fail w sel.found (Selected-open approved refl sel) refl
            failed reason refl
            (ap
                (λ (n : ℕ).
                  post_and_set db n (to_player (manual_fail_key p) p)
                    (λ txn. set_closed failed reason db.ledger.now))
                sel.number
              ∙ e))
        h

  pub fail_manual_withdrawal-Decided :
      (reason : String)
      → fail_manual_withdrawal db id reason ≡ ok (b, db')
      → Decided approved id db
          (λ p. to_player (manual_fail_key p) p)
          (λ txn. set_closed failed reason db.ledger.now)
          b
          db'
  unfolding fail_manual_withdrawal
  fail_manual_withdrawal-Decided reason h =
      fail_row-Decided reason (select_out is_manual approved id db)
        (select_out-Selected is_manual approved id db) h

  settle_row-Decided :
      (ref : String) (o : Option Payment)
      → ((p : Payment) → o ≡ some p → Selected approved id db p)
      → settle_row db id ref o ≡ ok (b, db')
      → Decided approved id db
          (λ p. to_provider (manual_settle_key p) p)
          (set_succeeded db.ledger.now (some ref))
          b
          db'
  settle_row-Decided ref none s h = none-Decided h
  settle_row-Decided ref (some p) s h =
      let sel = s p refl in
      done-Decided p _ sel
        (λ db1 e.
          to_provider-Closed db p manual_settle w sel.found (Selected-open approved refl sel) refl
            (some ref)
            (ap
                (λ (n : ℕ).
                  post_and_set db n (to_provider (manual_settle_key p) p)
                    (set_succeeded db.ledger.now (some ref)))
                sel.number
              ∙ e))
        h

  pub settle_manual_withdrawal-Decided :
      (ref : String)
      → settle_manual_withdrawal db id ref ≡ ok (b, db')
      → Decided approved id db
          (λ p. to_provider (manual_settle_key p) p)
          (set_succeeded db.ledger.now (some ref))
          b
          db'
  unfolding settle_manual_withdrawal
  settle_manual_withdrawal-Decided ref h =
      settle_row-Decided ref (select_out is_manual approved id db)
        (select_out-Selected is_manual approved id db) h
