-- ===== src/Payments/Settled.antt =====
-- What ends a withdrawal keeps the payments well-formed: the settlement and the reversal of a payout
-- (services/payments/payout_worker.py), and the decisions of an admin (services/admin/queries.py).
use igame.Common.{ℕ, ◌≡◌, refl, true, false, ◌||◌, Option, some, String, arith}
use igame.Common.Result.{ok}
use igame.Ledger.Wallets.{side_of, house_side, same_side}
use igame.Ledger.Transfers.{Move, Moved}
use igame.Payments.{
  Payment, PaymentsDb, PaymentStatus, status_eq, pending, processing, succeeded, failed, cancelled,
  review, approved, rejected, find_payment, update_payment,
}
use igame.Payments.Keys.{Tag, key_for}
use igame.Payments.Open.{is_open}
use igame.Payments.Taken.{body_of}
use igame.Payments.Free.{is_end}
use igame.Payments.Payouts.{to_provider, to_player, post_and_set, set_succeeded, set_closed}
use igame.Payments.Lifecycle.{PaymentsAreWf, KeepsRow, locked_side, ended, ended-PaymentsAreWf}

pub set_succeeded-KeepsRow :
    (now : ℕ) (ref : Option String) (txn : ℕ) → KeepsRow (set_succeeded now ref txn)
set_succeeded-KeepsRow now ref txn = record {
  id = λ q. refl;
  our_ref = λ q. refl;
  amount = λ q. refl;
}

pub set_closed-KeepsRow :
    (status : PaymentStatus) (reason : String) (now : ℕ) → KeepsRow (set_closed status reason now)
set_closed-KeepsRow status reason now = record {
  id = λ q. refl;
  our_ref = λ q. refl;
  amount = λ q. refl;
}

not_locked : (a u : ℕ) → same_side (side_of a "user_cash") (locked_side u) ≡ false
not_locked a u = ground arith

succeeded_is_closed :
    (now : ℕ) (ref : Option String) (txn : ℕ) (p : Payment)
    → is_open (set_succeeded now ref txn p) ≡ false
succeeded_is_closed now ref txn p = ground arith

closed_is_closed :
    (status : PaymentStatus) (reason : String) (now : ℕ) (p : Payment)
    → status_eq status failed || status_eq status rejected ≡ true
    → is_open (set_closed status reason now p) ≡ false
closed_is_closed failed reason now p h = ground arith
closed_is_closed rejected reason now p h = ground arith
closed_is_closed pending reason now p h = cc h
closed_is_closed processing reason now p h = cc h
closed_is_closed succeeded reason now p h = cc h
closed_is_closed cancelled reason now p h = cc h
closed_is_closed review reason now p h = cc h
closed_is_closed approved reason now p h = cc h

-- What the end of a withdrawal leaves: the amount has gone from the locked wallet to `target`, the row is
-- what `f` makes of it, and the payments are well-formed.
pub record Closed (db : PaymentsDb) (p : Payment) (m : Move) (f : ℕ → Payment → Payment)
    (db' : PaymentsDb) : Type 0 where
  pub txn : ℕ
  pub ledger : Moved db.ledger m db'.ledger
  pub payments : db'.payments ≡ update_payment (f txn) p.id db.payments
  pub wf : PaymentsAreWf db'

module _ (db : PaymentsDb) (p : Payment) (t : Tag) {db' : PaymentsDb} (w : PaymentsAreWf db)
    (found : find_payment p.id db.payments ≡ some p) (open_still : is_open p ≡ true)
    (is_last : is_end t ≡ true) where
  -- The money goes to the provider.
  pub to_provider-Closed :
      (ref : Option String)
      → post_and_set db p.id
          (to_provider (key_for t (body_of t p)) p)
          (set_succeeded db.ledger.now ref)
        ≡ ok db'
      → Closed db p (to_provider (key_for t (body_of t p)) p) (set_succeeded db.ledger.now ref) db'
  to_provider-Closed ref h =
      let f = set_succeeded db.ledger.now ref in
      let target = house_side "provider_settlement" in
      let keeps = λ (txn : ℕ). set_succeeded-KeepsRow db.ledger.now ref txn in
      let closes = λ (txn : ℕ). succeeded_is_closed db.ledger.now ref txn p in
      let e =
        ended db p t "payout" target f w found open_still is_last keeps closes (λ u. refl) h in
      record {
        txn = e.txn;
        ledger = e.ledger;
        payments = e.payments;
        wf =
            ended-PaymentsAreWf db p t "payout" target f w found open_still is_last keeps closes
              (λ u. refl) h;
      }

  -- The money goes back to the player.
  pub to_player-Closed :
      (status : PaymentStatus) (reason : String)
      → status_eq status failed || status_eq status rejected ≡ true
      → post_and_set db p.id
          (to_player (key_for t (body_of t p)) p)
          (λ txn. set_closed status reason db.ledger.now)
        ≡ ok db'
      → Closed db p
          (to_player (key_for t (body_of t p)) p)
          (λ txn. set_closed status reason db.ledger.now)
          db'
  to_player-Closed status reason final h =
      let f = λ (txn : ℕ). set_closed status reason db.ledger.now in
      let target = side_of p.user_id "user_cash" in
      let keeps = λ (txn : ℕ). set_closed-KeepsRow status reason db.ledger.now in
      let closes = λ (txn : ℕ). closed_is_closed status reason db.ledger.now p final in
      let elsewhere = λ (u : ℕ). not_locked p.user_id u in
      let e = ended db p t "refund" target f w found open_still is_last keeps closes elsewhere h in
      record {
        txn = e.txn;
        ledger = e.ledger;
        payments = e.payments;
        wf =
            ended-PaymentsAreWf db p t "refund" target f w found open_still is_last keeps closes
              elsewhere h;
      }
