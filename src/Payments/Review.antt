-- ===== src/Payments/Review.antt =====
-- The decisions of an admin on a withdrawal: approve_withdrawal_admin, reject_withdrawal_admin,
-- approve_manual_withdrawal_admin, settle_manual_withdrawal_admin and fail_manual_withdrawal_admin of
-- services/admin/queries.py, with the gate for two persons. The audit log is left aside.
use Prim.Native.String.{◌++◌ as append}
use text.Mathlib.Text.{◌==◌ as str_eq}
use igame.Common.{ℕ, Bool, true, false, ◌&&◌, not, Option, none, some, String, ◌==◌, if◌then◌else◌}
use igame.Common.Int.{ℤ, leb_ℤ}
use igame.Common.Result.{Result, ok, ◌>>=◌}
use igame.Ledger.Post.{PostError}
use igame.Payments.{
  is_out, PaymentStatus, failed, review, approved, rejected, status_eq, Payment, PaymentsDb,
  find_payment, update_payment,
}
use igame.Payments.Withdrawals.{enqueue_payout}
use igame.Payments.Payouts.{
  decimal, to_provider, to_player, post_and_set, set_succeeded, set_closed, set_status,
}

abbrev pub is_manual : Payment → Bool
is_manual p = str_eq p.provider "manual"

-- The row, if it is of a withdrawal that passes the tests.
abbrev pub guard_row : (Payment → Bool) → PaymentStatus → Option Payment → Option Payment
guard_row test status none = none
guard_row test status (some p) =
    if is_out p.direction && test p && status_eq p.status status then some p else none

-- `WHERE id = $1 AND direction = 'out' AND ... FOR UPDATE`, then the test of the status.
unfoldable pub select_out : (Payment → Bool) → PaymentStatus → ℕ → PaymentsDb → Option Payment
select_out test status id db = guard_row test status (find_payment id db.payments)

abbrev pub approve_row : PaymentsDb → ℕ → Option Payment → Bool × PaymentsDb
approve_row db id none = (false, db)
approve_row db id (some p) = (
  true,
  enqueue_payout p.our_ref id
      (record db { payments = update_payment (set_status approved db.ledger.now) id db.payments }),
)

unfoldable pub approve_withdrawal : PaymentsDb → ℕ → Bool × PaymentsDb
approve_withdrawal db id = approve_row db id (select_out (λ p. not (is_manual p)) review id db)

abbrev pub reject_key : Payment → String
reject_key p = append "payout-reject-" (decimal p.id)

-- The answer of a call that did something.
abbrev pub done : Result PostError PaymentsDb → Result PostError (Bool × PaymentsDb)
done r = r >>= λ db. ok (true, db)

abbrev pub reject_row :
    PaymentsDb → ℕ → String → Option Payment → Result PostError (Bool × PaymentsDb)
reject_row db id reason none = ok (false, db)
reject_row db id reason (some p) = done (
    post_and_set db id (to_player (reject_key p) p)
      (λ txn. set_closed rejected reason db.ledger.now))

unfoldable pub reject_withdrawal : PaymentsDb → ℕ → String → Result PostError (Bool × PaymentsDb)
reject_withdrawal db id reason = reject_row db id reason (select_out (λ p. true) review id db)

pub data Gate : Type 0 where
  no_op awaiting_second_approval proceed same_admin : Gate

-- An amount that wants two approvals.
abbrev pub second_approval : ℕ → Option ℕ → Gate
second_approval admin_id none = awaiting_second_approval
second_approval admin_id (some first) = if first == admin_id then same_admin else proceed

-- `_apply_two_person_gate`: what it returns or raises, for a payment under review.
unfoldable pub two_person_gate : ℤ → ℕ → Payment → Gate
two_person_gate threshold admin_id p =
    if not (leb_ℤ threshold p.amount)
    then proceed
    else second_approval admin_id p.first_approved_by_admin_id

abbrev pub set_first_approval : ℕ → Payment → Payment
set_first_approval admin_id p = record p { first_approved_by_admin_id = some admin_id }

-- What an approval of a manual withdrawal leaves.
abbrev pub after_gate : PaymentsDb → ℕ → ℕ → Gate → Gate × PaymentsDb
after_gate db admin_id id awaiting_second_approval = (
  awaiting_second_approval,
  record db { payments = update_payment (set_first_approval admin_id) id db.payments },
)
after_gate db admin_id id proceed = (
  proceed,
  record db { payments = update_payment (set_status approved db.ledger.now) id db.payments },
)
after_gate db admin_id id no_op = (no_op, db)
after_gate db admin_id id same_admin = (same_admin, db)

abbrev pub approve_manual_row : PaymentsDb → ℤ → ℕ → ℕ → Option Payment → Gate × PaymentsDb
approve_manual_row db threshold admin_id id none = (no_op, db)
approve_manual_row db threshold admin_id id (some p) =
    after_gate db admin_id id (two_person_gate threshold admin_id p)

unfoldable pub approve_manual_withdrawal : PaymentsDb → ℤ → ℕ → ℕ → Gate × PaymentsDb
approve_manual_withdrawal db threshold admin_id id =
    approve_manual_row db threshold admin_id id (select_out is_manual review id db)

abbrev pub manual_settle_key : Payment → String
manual_settle_key p = append "manual-payout-settle-" p.our_ref

abbrev pub manual_fail_key : Payment → String
manual_fail_key p = append "manual-payout-fail-" (decimal p.id)

abbrev pub settle_row :
    PaymentsDb → ℕ → String → Option Payment → Result PostError (Bool × PaymentsDb)
settle_row db id external_reference none = ok (false, db)
settle_row db id external_reference (some p) = done (
    post_and_set db id (to_provider (manual_settle_key p) p)
      (set_succeeded db.ledger.now (some external_reference)))

unfoldable pub settle_manual_withdrawal :
    PaymentsDb → ℕ → String → Result PostError (Bool × PaymentsDb)
settle_manual_withdrawal db id external_reference =
    settle_row db id external_reference (select_out is_manual approved id db)

abbrev pub fail_row :
    PaymentsDb → ℕ → String → Option Payment → Result PostError (Bool × PaymentsDb)
fail_row db id reason none = ok (false, db)
fail_row db id reason (some p) = done (
    post_and_set db id (to_player (manual_fail_key p) p)
      (λ txn. set_closed failed reason db.ledger.now))

unfoldable pub fail_manual_withdrawal :
    PaymentsDb → ℕ → String → Result PostError (Bool × PaymentsDb)
fail_manual_withdrawal db id reason = fail_row db id reason (select_out is_manual approved id db)
