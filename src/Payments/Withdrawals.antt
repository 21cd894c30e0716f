-- ===== src/Payments/Withdrawals.antt =====
-- request_withdrawal and sweep_stuck_approved_payouts of services/payments/withdrawals.py.
use text.Mathlib.Text.{◌==◌ as str_eq}
use igame.Common.{
  ℕ, ◌+◌, ◌*◌, Bool, true, false, ◌&&◌, ◌||◌, not, Option, none, some, String, List, [], ◌∷◌, ◌++◌,
  ◌==◌, ltb, leb, if◌then◌else◌, length,
}
use igame.Common.Int.{ℤ, pos, ◌+ℤ◌, ltb_ℤ}
use igame.Common.Result.{Result, ok, err, ◌>>=◌, ◌>>◌, raise_if}
use igame.Ledger as L
use igame.Ledger.{LedgerTransaction}
use igame.Ledger.Post.{PostError, insufficient_funds}
use igame.Ledger.Wallets.{side_of}
use igame.Ledger.Transfers.{Move, move_money}
use igame.Payments.{
  outgoing, is_out, succeeded, review, approved, status_eq, FailedCheck, exceeds_limit,
  young_account, more_out_than_in, too_many_recent, manual_rail, Payment, Method, UserRow,
  PaymentsDb, find_user, has_ref,
}
use igame.Payments.Reference.{reference}

pub data WithdrawalRejected : Type 0 where
  below_minimum_withdrawal unknown_withdrawer simulated_player_cannot_withdraw kyc_level_too_low
        recent_reversible_deposit insufficient_available_balance :
      WithdrawalRejected
  -- What the table of payments refuses.
  unique_violation check_violation : WithdrawalRejected
  -- Any other error of the post.
  post_error : PostError → WithdrawalRejected

-- The settings that the caller passes.
pub record Policy : Type 0 where
  pub min_withdraw : ℤ
  pub auto_approve_limit : ℤ
  pub kyc_threshold : ℤ
  pub chargeback_window_minutes : ℕ
  pub min_account_age_hours : ℕ
  pub max_withdrawals_per_day : ℕ
  pub force_review : Bool

pub record Ask : Type 0 where
  pub user_id : ℕ
  pub amount : ℤ
  pub provider : String
  pub method_kind : String
  pub account_ref : String
  pub holder_name : String

-- A deposit that went through less than the window ago.
unfoldable pub recent_deposit : ℕ → ℕ → ℕ → List Payment → Bool
recent_deposit user_id now minutes [] = false
recent_deposit user_id now minutes (p ∷ rest) =
    (p.user_id == user_id
      && not (is_out p.direction)
      && status_eq p.status succeeded
      && ltb now (p.created_at + minutes * 60))
    || recent_deposit user_id now minutes rest

-- `INSERT INTO payment_methods ... ON CONFLICT ... DO UPDATE SET holder_name`
unfoldable pub upsert_method : Ask → ℕ → List Method → ℕ × List Method
upsert_method ask id [] = (
  id,
  record {
    id = id;
    user_id = ask.user_id;
    kind = ask.method_kind;
    account_ref = ask.account_ref;
    holder_name = ask.holder_name;
  }
      ∷ [],
)
upsert_method ask id (m ∷ rest) =
    let (found, rest') = upsert_method ask id rest in
    if m.user_id == ask.user_id
      && str_eq m.kind ask.method_kind
      && str_eq m.account_ref ask.account_ref
    then (m.id, record m { holder_name = ask.holder_name } ∷ rest)
    else (found, m ∷ rest')

-- `COALESCE(SUM(amount) FILTER (WHERE direction = ... AND status = 'succeeded'), 0)`
unfoldable pub lifetime : Bool → ℕ → List Payment → ℤ
lifetime out user_id [] = pos 0
lifetime out user_id (p ∷ rest) =
    if p.user_id == user_id
      && (if out then is_out p.direction else not (is_out p.direction))
      && status_eq p.status succeeded
    then p.amount +ℤ lifetime out user_id rest
    else lifetime out user_id rest

unfoldable pub recent_withdrawals : ℕ → ℕ → List Payment → ℕ
recent_withdrawals user_id now [] = 0
recent_withdrawals user_id now (p ∷ rest) =
    if p.user_id == user_id && is_out p.direction && ltb now (p.created_at + 86400)
    then recent_withdrawals user_id now rest + 1
    else recent_withdrawals user_id now rest

abbrev pub check_if : Bool → FailedCheck → List FailedCheck → List FailedCheck
check_if failed check rest = if failed then check ∷ rest else rest

unfoldable pub failed_checks : Policy → PaymentsDb → UserRow → ℤ → List FailedCheck
failed_checks policy db user amount =
    let now = db.ledger.now in
    check_if (ltb_ℤ policy.auto_approve_limit amount) exceeds_limit (
      check_if (leb now (user.created_at + policy.min_account_age_hours * 3600)) young_account (
        check_if (ltb_ℤ (lifetime false user.id db.payments) (lifetime true user.id db.payments))
          more_out_than_in
          (check_if
            (leb policy.max_withdrawals_per_day (recent_withdrawals user.id now db.payments))
            too_many_recent [])))

abbrev pub no_checks : List FailedCheck → Bool
no_checks [] = true
no_checks (_ ∷ _) = false

-- What moves the money of a withdrawal out of the player's reach.
abbrev pub lock_move : Ask → String → Move
lock_move ask our_ref = record {
  kind = "withdrawal";
  idempotency_key = our_ref;
  source = side_of ask.user_id "user_cash";
  target = side_of ask.user_id "user_locked";
  amount = ask.amount;
  payment_id = none;
  memo = none;
  created_by = "system";
}

abbrev pub auto_ok : Policy → List FailedCheck → Bool
auto_ok policy checks = no_checks checks && not policy.force_review

abbrev pub new_payment : Policy → Ask → PaymentsDb → String → ℕ → List FailedCheck → ℕ → Payment
new_payment policy ask db our_ref method checks txn = record {
  id = length db.payments + 1;
  user_id = ask.user_id;
  direction = outgoing;
  provider = ask.provider;
  our_ref = our_ref;
  amount = ask.amount;
  status = if auto_ok policy checks then approved else review;
  method_id = some method;
  provider_ref = none;
  ledger_txn_id = some txn;
  failure_reason = none;
  review_reason = if policy.force_review then checks ++ manual_rail ∷ [] else checks;
  first_approved_by_admin_id = none;
  created_at = db.ledger.now;
  updated_at = db.ledger.now;
}

-- `enqueue_payout`
abbrev pub enqueue_payout : String → ℕ → PaymentsDb → PaymentsDb
enqueue_payout our_ref payment_id db = record db {
  payouts = db.payouts ++ (our_ref, payment_id) ∷ [];
}

-- Too little money is a rejection; any other error of the post goes through.
abbrev pub as_rejected : {A : Type 0} → Result PostError A → Result WithdrawalRejected A
as_rejected (ok a) = ok a
as_rejected (err (insufficient_funds _ _)) = err insufficient_available_balance
as_rejected (err e) = err (post_error e)

abbrev pub current_ref : PaymentsDb → String
current_ref db = reference "WD-" db.year db.next_ref

-- The insert of the payment, and the message to the worker after the commit.
abbrev pub insert_withdrawal :
    Policy → Ask → PaymentsDb → UserRow → LedgerTransaction × L.Db → Payment × PaymentsDb
insert_withdrawal policy ask db user (txn, ledger) =
    let our_ref = current_ref db in
    let (method, methods) = upsert_method ask (length db.methods + 1) db.methods in
    let p =
      new_payment policy ask db our_ref method (failed_checks policy db user ask.amount) txn.id in
    let db' : PaymentsDb = record db {
      payments = db.payments ++ p ∷ [];
      methods = methods;
      ledger = ledger;
      next_ref = db.next_ref + 1;
    } in
    (p, if status_eq p.status approved then enqueue_payout our_ref p.id db' else db')

-- The post, and what follows it.
abbrev pub post_and_insert :
    Policy → Ask → PaymentsDb → UserRow → Result WithdrawalRejected (Payment × PaymentsDb)
post_and_insert policy ask db user = do
  posted ← as_rejected (move_money db.ledger (lock_move ask (current_ref db)))
  raise_if (not (ltb_ℤ (pos 0) ask.amount)) check_violation
  raise_if (has_ref (current_ref db) db.payments) unique_violation
  ok (insert_withdrawal policy ask db user posted)

unfoldable pub withdraw :
    Policy → Ask → PaymentsDb → UserRow → Result WithdrawalRejected (Payment × PaymentsDb)
withdraw policy ask db user = do
  raise_if user.is_simulated simulated_player_cannot_withdraw
  raise_if (ltb_ℤ policy.kyc_threshold ask.amount && ltb user.kyc_level 2) kyc_level_too_low
  raise_if (recent_deposit ask.user_id db.ledger.now policy.chargeback_window_minutes db.payments)
      recent_reversible_deposit
  post_and_insert policy ask db user

abbrev pub withdraw_for :
    Policy → Ask → PaymentsDb → Option UserRow → Result WithdrawalRejected (Payment × PaymentsDb)
withdraw_for policy ask db none = err unknown_withdrawer
withdraw_for policy ask db (some user) = withdraw policy ask db user

-- The new payment, with the state that the commit leaves.
unfoldable pub request_withdrawal :
    Policy → Ask → PaymentsDb → Result WithdrawalRejected (Payment × PaymentsDb)
request_withdrawal policy ask db =
    raise_if (ltb_ℤ ask.amount policy.min_withdraw) below_minimum_withdrawal
    >> withdraw_for policy ask db (find_user ask.user_id db.users)

-- An automatic withdrawal that was approved a while ago.
abbrev pub is_stuck : ℕ → ℕ → Payment → Bool
is_stuck now older_than_seconds p =
    is_out p.direction
    && status_eq p.status approved
    && not (str_eq p.provider "manual")
    && ltb (p.updated_at + older_than_seconds) now

unfoldable pub stuck_payouts : ℕ → ℕ → List Payment → List (String × ℕ)
stuck_payouts now older_than_seconds [] = []
stuck_payouts now older_than_seconds (p ∷ rest) =
    let more = stuck_payouts now older_than_seconds rest in
    if is_stuck now older_than_seconds p then (p.our_ref, p.id) ∷ more else more

unfoldable pub sweep_stuck_approved_payouts : ℕ → PaymentsDb → PaymentsDb
unfolding stuck_payouts
sweep_stuck_approved_payouts older_than_seconds db = record db {
  payouts = db.payouts ++ stuck_payouts db.ledger.now older_than_seconds db.payments;
}
