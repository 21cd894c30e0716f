-- ===== src/Examples/Withdrawals.antt =====
-- Withdrawals of a player with 5 birr in cash (services/payments and services/admin/queries.py).
use text.Mathlib.Text.{◌==◌ as str_eq}
use text.Mathlib.TextEquality.{eq_iff}
use igame.Common.{
  ℕ, ◌<◌, ◌≡◌, refl, inl, inr, Bool, true, false, none, some, String, [], ◌∷◌, arith, ◌==◌,
  Bool-cases,
}
use igame.Common.Int.{pos, negsuc, neg, ◌+ℤ◌}
use igame.Common.Result.{Result, ok, err}
use igame.Ledger as L
use igame.Ledger.{Account, balance, find_balance}
use igame.Ledger.{find_account, get_or_create_account, is_user_kind}
use igame.Ledger.Deltas.{add_delta, add_entries, deltas_of, update_balance, apply_deltas}
use igame.Ledger.Post.{
  insert_id, sorted_ids, account_kind, lock_one, lock_balances, check_delta, check_deltas,
  entry_rows, post_new, post, transaction_total, check_totals, commit_post,
}
use igame.Ledger.Transfers.{move_money}
use igame.Payments.{has_ref, find_method, update_payment}
use igame.Payments.Reference.{reference-wraps, reference, text_of, digits_of, sequence_digits, lpad}
use igame.Payments.Withdrawals.{
  withdraw, recent_deposit, lifetime, recent_withdrawals, failed_checks, upsert_method,
}
use igame.Payments.Payouts.{
  dispatch, begin_payout, finish_payout, settle_success, reverse_payout, post_and_set,
}
use igame.Ledger.Balances.{if_ℤ}
use igame.Ledger.Post.{PostError, find_transaction}
use igame.Ledger.Wallets.{wallet, side_of, same_side}
use igame.Payments.{PaymentsDb, UserRow, Payment, find_payment, find_ref, approved}
use igame.Payments.Keys.{
  Tag, settle, reverse, reject, manual_settle, manual_fail, withdrawal, key_for, differ_at,
}
use igame.Payments.Open.{open_total}
use igame.Payments.Withdrawals.{Policy, Ask, request_withdrawal}
use igame.Payments.Lifecycle.{PaymentsAreWf, locked_side}
use igame.Payments.{outgoing, review, succeeded, manual_rail, find_user}
use igame.Payments.Requests.{request_withdrawal-Requested, request_withdrawal-wallet}
use igame.Payments.Vetting.Safe.{IsSafe, request_withdrawal-IsSafe}
use igame.Payments.Reference.Unique.{reference-injective}
use igame.Payments.Payouts.{answered, raised, skipped, process_one}
use igame.Payments.Dispatch.{outcome_change}
use igame.Payments.Dispatch.Once.{has_ended, process_one-wallet, process_one-process_one}
use igame.Payments.Steps.{start, then_step, requested, dispatched, steps-wallet}
use igame.Payments.Review.{
  reject_withdrawal, proceed, two_person_gate, select_out, approve_manual_withdrawal,
}
use igame.Payments.Twice.{Idle, decision-Idle, approve_manual_withdrawal_two_admins}
use igame.Payments.Payouts.{has_method}
use igame.Payments.Dispatch.Answers.{outcome_of, process_one-outcome_of}
use igame.Examples.Accounts.{deposited, deposited-IsSound}

abbrev player : UserRow
player = record { id = 7; kyc_level = 1; created_at = 0; is_simulated = false }

abbrev before : PaymentsDb
before = record {
  users = player ∷ [];
  payments = [];
  methods = [];
  ledger = deposited;
  year = 2026;
  next_ref = 45;
  payouts = [];
}

other_key : (t : Tag) (b : String) → str_eq "DP-1" (key_for t b) ≡ false
other_key t b = elim (Bool-cases (str_eq "DP-1" (key_for t b))) [
  | inr other ↦ other
  | inl same ↦ absurd (not_that t ((eq_iff "DP-1" (key_for t b)).0 same))
]
  where
    not_that : (u : Tag) → "DP-1" ≡ key_for u b → ⊥
    not_that settle e = differ_at "" "D" "p" "P-1" "ayout-settle-" "" b refl refl e
    not_that reverse e = differ_at "" "D" "p" "P-1" "ayout-reverse-" "" b refl refl e
    not_that reject e = differ_at "" "D" "p" "P-1" "ayout-reject-" "" b refl refl e
    not_that manual_settle e = differ_at "" "D" "m" "P-1" "anual-payout-settle-" "" b refl refl e
    not_that manual_fail e = differ_at "" "D" "m" "P-1" "anual-payout-fail-" "" b refl refl e
    not_that withdrawal e = differ_at "" "D" "W" "P-1" "D-" "" b refl refl e

past_accounts : (k : ℕ) → 2 < k → balance deposited k ≡ pos 0
unfolding balance find_balance
past_accounts k h = ground arith

no_wallet : (u : ℕ) → wallet deposited (locked_side u) ≡ open_total u before.payments
unfolding wallet open_total L.find_account
no_wallet u = elim (Bool-cases (7 == u)) [ inl hit ↦ rw hit refl | inr miss ↦ rw miss refl ]

before-PaymentsAreWf : PaymentsAreWf before
unfolding find_transaction
before-PaymentsAreWf = record {
  wallets = record {
    sound = deposited-IsSound;
    numbered = (refl, (refl, tt));
    unused = past_accounts;
  };
  in_order = tt;
  unique_refs = tt;
  positive = tt;
  backed = no_wallet;
  keys_free = λ t b n. rw (other_key t b) refl;
}

abbrev policy : Policy
policy = record {
  min_withdraw = pos 100;
  auto_approve_limit = pos 400;
  kyc_threshold = pos 1000;
  chargeback_window_minutes = 60;
  min_account_age_hours = 0;
  max_withdrawals_per_day = 3;
  force_review = false;
}

abbrev ask : Ask
ask = record {
  user_id = 7;
  amount = pos 300;
  provider = "chapa";
  method_kind = "telebirr";
  account_ref = "0911";
  holder_name = "Abebe";
}

abbrev row : Payment
row = record {
  id = 1;
  user_id = 7;
  direction = outgoing;
  provider = "chapa";
  our_ref = "WD-2026-000045";
  amount = pos 300;
  status = approved;
  method_id = some 1;
  provider_ref = none;
  ledger_txn_id = some 2;
  failure_reason = none;
  review_reason = [];
  first_approved_by_admin_id = none;
  created_at = 1000;
  updated_at = 1000;
}

abbrev locked_ledger : L.Db
locked_ledger = record {
  accounts =
      record { id = 1; user_id = some 7; kind = "user_cash"; currency = "ETB" }
      ∷ record { id = 2; user_id = none; kind = "house_float"; currency = "ETB" }
      ∷ record { id = 3; user_id = some 7; kind = "user_locked"; currency = "ETB" }
      ∷ [];
  transactions =
      record {
        id = 1;
        kind = "deposit";
        idempotency_key = "DP-1";
        round_id = none;
        payment_id = some 1;
        created_by = "system";
        memo = none;
      }
      ∷ record {
        id = 2;
        kind = "withdrawal";
        idempotency_key = "WD-2026-000045";
        round_id = none;
        payment_id = none;
        created_by = "system";
        memo = none;
      }
      ∷ [];
  entries =
      record { transaction_id = 1; account_id = 2; amount = negsuc 499; created_at = 1000 }
      ∷ record { transaction_id = 1; account_id = 1; amount = pos 500; created_at = 1000 }
      ∷ record { transaction_id = 2; account_id = 1; amount = negsuc 299; created_at = 1000 }
      ∷ record { transaction_id = 2; account_id = 3; amount = pos 300; created_at = 1000 }
      ∷ [];
  balances =
      (1, record { kind = "user_cash"; balance = pos 200; last_entry_id = some 4 })
      ∷ (2, record { kind = "house_float"; balance = negsuc 499; last_entry_id = some 2 })
      ∷ (3, record { kind = "user_locked"; balance = pos 300; last_entry_id = some 4 })
      ∷ [];
  now = 1000;
}

abbrev requested_db : PaymentsDb
requested_db = record {
  users = player ∷ [];
  payments = row ∷ [];
  methods =
      record { id = 1; user_id = 7; kind = "telebirr"; account_ref = "0911"; holder_name = "Abebe" }
      ∷ [];
  ledger = locked_ledger;
  year = 2026;
  next_ref = 46;
  payouts = ("WD-2026-000045", 1) ∷ [];
}

request_accepted : request_withdrawal policy ask before ≡ ok (row, requested_db)
unfolding request_withdrawal withdraw recent_deposit lifetime recent_withdrawals failed_checks
    upsert_method find_user has_ref reference text_of digits_of sequence_digits lpad move_money
    get_or_create_account find_account commit_post check_totals transaction_total post post_new
    find_transaction insert_id sorted_ids account_kind lock_one lock_balances check_delta
    check_deltas entry_rows add_delta add_entries deltas_of update_balance apply_deltas find_balance
    is_user_kind ◌+ℤ◌
request_accepted = refl

requested-PaymentsAreWf : PaymentsAreWf requested_db
requested-PaymentsAreWf =
    (request_withdrawal-Requested policy ask before before-PaymentsAreWf request_accepted).wf

row_there : find_ref "WD-2026-000045" requested_db.payments ≡ some row
unfolding find_ref
row_there = refl

steps-wallet_example :
    let db = (process_one requested_db "chapa" "WD-2026-000045" (answered succeeded "CH-1")).1 in
    wallet db.ledger (locked_side 7) ≡ open_total 7 db.payments
steps-wallet_example = steps-wallet 7 before-PaymentsAreWf (
    then_step (then_step start (requested policy ask row request_accepted))
      (dispatched "chapa" "WD-2026-000045" (answered succeeded "CH-1") row row_there refl))

request_withdrawal-wallet_example :
    wallet requested_db.ledger (locked_side 7)
    ≡ wallet before.ledger (locked_side 7)
      +ℤ (if_ℤ (same_side (side_of 7 "user_cash") (locked_side 7)) (neg (pos 300))
          +ℤ if_ℤ (same_side (side_of 7 "user_locked") (locked_side 7)) (pos 300))
request_withdrawal-wallet_example =
    request_withdrawal-wallet policy ask before (locked_side 7) before-PaymentsAreWf
      request_accepted

player_there : find_user 7 before.users ≡ some player
unfolding find_user
player_there = refl

request_withdrawal-IsSafe_example : IsSafe policy ask before player
request_withdrawal-IsSafe_example =
    request_withdrawal-IsSafe policy ask before player player_there request_accepted refl

process_one-wallet_example :
    let (outcome, db') = process_one requested_db "chapa" "WD-2026-000045" (raised "timeout") in
    wallet db'.ledger (side_of 7 "user_cash")
    ≡ wallet requested_db.ledger (side_of 7 "user_cash")
      +ℤ outcome_change outcome row (side_of 7 "user_cash")
process_one-wallet_example =
    process_one-wallet requested_db "chapa" "WD-2026-000045" (raised "timeout") row
      (side_of 7 "user_cash") requested-PaymentsAreWf row_there refl

known_method : has_method row.method_id requested_db ≡ true
unfolding find_method
known_method = refl

process_one-outcome_of_example :
    (process_one requested_db "chapa" "WD-2026-000045" (answered succeeded "CH-1")).0
    ≡ outcome_of (answered succeeded "CH-1")
process_one-outcome_of_example =
    process_one-outcome_of requested_db "chapa" "WD-2026-000045" (answered succeeded "CH-1") row
      requested-PaymentsAreWf row_there refl refl refl known_method

given_back :
    has_ended (process_one requested_db "chapa" "WD-2026-000045" (raised "timeout")).0 ≡ true
unfolding process_one dispatch begin_payout finish_payout settle_success reverse_payout post_and_set
    find_ref find_method update_payment move_money get_or_create_account find_account commit_post
    check_totals transaction_total post post_new find_transaction insert_id sorted_ids account_kind
    lock_one lock_balances check_delta check_deltas entry_rows add_delta add_entries deltas_of
    update_balance apply_deltas find_balance is_user_kind ◌+ℤ◌
given_back = refl

process_one-process_one_example :
    let db' = (process_one requested_db "chapa" "WD-2026-000045" (raised "timeout")).1 in
    process_one db' "chapa" "WD-2026-000045" (answered succeeded "CH-1") ≡ (skipped, db')
process_one-process_one_example =
    process_one-process_one requested_db "chapa" "WD-2026-000045" (raised "timeout")
      (answered succeeded "CH-1") row requested-PaymentsAreWf row_there refl given_back

-- The same request on the manual rail, under review.
abbrev manual_policy : Policy
manual_policy = record policy { force_review = true }

abbrev manual_ask : Ask
manual_ask = record ask { provider = "manual" }

abbrev manual_row : Payment
manual_row = record row { provider = "manual"; status = review; review_reason = manual_rail ∷ [] }

abbrev manual_db : PaymentsDb
manual_db = record requested_db { payments = manual_row ∷ []; payouts = [] }

manual_accepted : request_withdrawal manual_policy manual_ask before ≡ ok (manual_row, manual_db)
unfolding request_withdrawal withdraw recent_deposit lifetime recent_withdrawals failed_checks
    upsert_method find_user has_ref reference text_of digits_of sequence_digits lpad move_money
    get_or_create_account find_account commit_post check_totals transaction_total post post_new
    find_transaction insert_id sorted_ids account_kind lock_one lock_balances check_delta
    check_deltas entry_rows add_delta add_entries deltas_of update_balance apply_deltas find_balance
    is_user_kind ◌+ℤ◌
manual_accepted = refl

manual-PaymentsAreWf : PaymentsAreWf manual_db
manual-PaymentsAreWf =
    (request_withdrawal-Requested manual_policy manual_ask before before-PaymentsAreWf
      manual_accepted).wf

abbrev state_after : Result PostError (Bool × PaymentsDb) → PaymentsDb
state_after (ok (b, db)) = db
state_after (err e) = before

abbrev rejected_db : PaymentsDb
rejected_db = state_after (reject_withdrawal manual_db 1 "wrong name")

is_rejected : reject_withdrawal manual_db 1 "wrong name" ≡ ok (true, rejected_db)
unfolding reject_withdrawal text_of digits_of select_out find_payment post_and_set update_payment
    move_money get_or_create_account find_account commit_post check_totals transaction_total post
    post_new find_transaction insert_id sorted_ids account_kind lock_one lock_balances check_delta
    check_deltas entry_rows add_delta add_entries deltas_of update_balance apply_deltas find_balance
    is_user_kind ◌+ℤ◌
is_rejected = refl

decision-Idle_example : Idle rejected_db 1
decision-Idle_example =
    decision-Idle manual_db 1 "wrong name" manual-PaymentsAreWf (inl is_rejected)

abbrev approved_once : Payment
approved_once = record manual_row { first_approved_by_admin_id = some 3 }

abbrev approved_once_db : PaymentsDb
approved_once_db = record manual_db { payments = approved_once ∷ [] }

second_approves :
    approve_manual_withdrawal approved_once_db (pos 300) 4 1
    ≡ (proceed, (approve_manual_withdrawal approved_once_db (pos 300) 4 1).1)
unfolding approve_manual_withdrawal two_person_gate select_out find_payment
second_approves = refl

once_there : find_payment 1 approved_once_db.payments ≡ some approved_once
unfolding find_payment
once_there = refl

approve_manual_withdrawal_two_admins_example :
    (first : ℕ) × (approved_once.first_approved_by_admin_id ≡ some first) × ((first == 4) ≡ false)
approve_manual_withdrawal_two_admins_example =
    approve_manual_withdrawal_two_admins approved_once_db (pos 300) 4 1 approved_once
      second_approves once_there refl

reference-injective_example : ◌≡◌ {A = ℕ} 45 45
reference-injective_example = reference-injective "WD-" 2026 45 45 (omega arith) (omega arith) refl

reference-wraps_example : reference "WD-" 2026 1000000 ≡ reference "WD-" 2026 100000
reference-wraps_example = reference-wraps "WD-" 2026 1000000 (omega arith) (omega arith)
