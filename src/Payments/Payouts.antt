-- ===== src/Payments/Payouts.antt =====
-- process_one of services/payments/payout_worker.py, and the reviews of withdrawals in
-- services/admin/queries.py. What the provider answers is an argument.
use Prim.Native.String.{◌++◌ as append}
use text.Mathlib.Text.{◌==◌ as str_eq}
use igame.Common.{ℕ, suc, Bool, true, false, ◌||◌, not, Option, none, some, String, if◌then◌else◌}
use igame.Common.Result.{Result, ok, err, ◌>>=◌}
use igame.Ledger as L
use igame.Ledger.{LedgerTransaction}
use igame.Ledger.Post.{PostError}
use igame.Ledger.Wallets.{Side, side_of, house_side}
use igame.Ledger.Transfers.{Move, move_money}
use igame.Payments.{
  PaymentStatus, pending, processing, succeeded, failed, cancelled, review, approved, rejected,
  status_eq, Payment, PaymentsDb, find_ref, update_payment, find_method,
}
use igame.Payments.Reference.{digits_of, text_of}

-- The answer of `create_payout`: a status with the provider's reference, or an exception.
pub data Answer : Type 0 where
  answered : PaymentStatus → String → Answer
  raised : String → Answer

-- What `process_one` returns; `escaped` is an exception, after which the message is delivered again.
pub data Outcome : Type 0 where
  paid unpaid in_flight skipped escaped : Outcome

abbrev pub decimal : ℕ → String
decimal n = text_of (digits_of (suc n) n)

-- The end of a withdrawal: what was locked goes to `target`.
abbrev pub release : String → String → Payment → Side → Move
release kind key p target = record {
  kind = kind;
  idempotency_key = key;
  source = side_of p.user_id "user_locked";
  target = target;
  amount = p.amount;
  payment_id = some p.id;
  memo = none;
  created_by = "system";
}

abbrev pub to_provider : String → Payment → Move
to_provider key p = release "payout" key p (house_side "provider_settlement")

abbrev pub to_player : String → Payment → Move
to_player key p = release "refund" key p (side_of p.user_id "user_cash")

-- A transaction that posts a move and then writes the row of the payment.
unfoldable pub post_and_set :
    PaymentsDb → ℕ → Move → (ℕ → Payment → Payment) → Result PostError PaymentsDb
post_and_set db id m f = move_money db.ledger m >>= λ (r : LedgerTransaction × L.Db).
    ok (record db { ledger = r.1; payments = update_payment (f r.0.id) id db.payments })

abbrev pub set_succeeded : ℕ → Option String → ℕ → Payment → Payment
set_succeeded now provider_ref txn p = record p {
  status = succeeded;
  provider_ref = provider_ref;
  ledger_txn_id = some txn;
  updated_at = now;
}

abbrev pub set_closed : PaymentStatus → String → ℕ → Payment → Payment
set_closed status reason now p = record p {
  status = status;
  failure_reason = some reason;
  updated_at = now;
}

abbrev pub set_status : PaymentStatus → ℕ → Payment → Payment
set_status status now p = record p { status = status; updated_at = now }

abbrev pub settle_key : Payment → String
settle_key p = append "payout-settle-" p.our_ref

abbrev pub reverse_key : Payment → String
reverse_key p = append "payout-reverse-" p.our_ref

-- `_settle_success`
unfoldable pub settle_success : PaymentsDb → Payment → String → Result PostError PaymentsDb
settle_success db p provider_ref =
    post_and_set db p.id (to_provider (settle_key p) p)
      (set_succeeded db.ledger.now (some provider_ref))

-- `_reverse`
unfoldable pub reverse_payout : PaymentsDb → Payment → String → Result PostError PaymentsDb
reverse_payout db p reason =
    post_and_set db p.id (to_player (reverse_key p) p)
      (λ txn. set_closed failed reason db.ledger.now)

-- An exception of the last transaction leaves what was committed before it.
abbrev pub finish : Outcome → PaymentsDb → Result PostError PaymentsDb → Outcome × PaymentsDb
finish outcome db (ok db') = (outcome, db')
finish outcome db (err e) = (escaped, db)

abbrev pub has_method : Option ℕ → PaymentsDb → Bool
has_method none db = false
has_method (some id) db = elim (find_method id db.methods) [ none ↦ false | some m ↦ true ]

abbrev pub status_text : PaymentStatus → String
status_text pending = "pending"
status_text processing = "processing"
status_text succeeded = "succeeded"
status_text failed = "failed"
status_text cancelled = "cancelled"
status_text review = "review"
status_text approved = "approved"
status_text rejected = "rejected"

-- What follows the answer of the provider.
unfoldable pub finish_payout : PaymentsDb → Payment → Answer → Outcome × PaymentsDb
finish_payout db p (raised error) = finish unpaid db (reverse_payout db p error)
finish_payout db p (answered status provider_ref) =
    if status_eq status succeeded
    then finish paid db (settle_success db p provider_ref)
    else if status_eq status processing
    then (
      in_flight,
      record db {
        payments =
            update_payment
              (λ (q : Payment). record q {
                provider_ref = some provider_ref;
                updated_at = db.ledger.now;
              })
              p.id db.payments;
      },
    )
    else finish unpaid db
        (reverse_payout db p (append "provider reported status=" (status_text status)))

abbrev pub is_dispatched : Payment → Bool
is_dispatched p = status_eq p.status approved || status_eq p.status processing

-- The first transaction of `process_one`, for a payment that is to be paid out.
unfoldable pub begin_payout : PaymentsDb → Payment → PaymentsDb
begin_payout db p =
    if status_eq p.status approved
    then record db {
      payments = update_payment (set_status processing db.ledger.now) p.id db.payments;
    }
    else db

unfoldable pub dispatch : PaymentsDb → String → Payment → Answer → Outcome × PaymentsDb
dispatch db provider p answer =
    if not (is_dispatched p)
    then (skipped, db)
    else if not (str_eq p.provider provider)
    then (skipped, db)
    else if not (has_method p.method_id db)
    then (escaped, begin_payout db p)
    else finish_payout (begin_payout db p) p answer

abbrev pub dispatch_found : PaymentsDb → String → Option Payment → Answer → Outcome × PaymentsDb
dispatch_found db provider none answer = (skipped, db)
dispatch_found db provider (some p) answer = dispatch db provider p answer

unfoldable pub process_one : PaymentsDb → String → String → Answer → Outcome × PaymentsDb
process_one db provider our_ref answer =
    dispatch_found db provider (find_ref our_ref db.payments) answer
