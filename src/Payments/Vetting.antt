-- ===== src/Payments/Vetting.antt =====
-- What a withdrawal that is approved by itself has passed (services/payments/withdrawals.py).
pub mod Safe
use mathlib.Core.Path.{subst}
use igame.Common.{
  ltb, ◌+◌, ◌≡◌, refl, ap, ◌∙◌, Bool, true, false, ◌&&◌, Option, none, some, List, arith,
}
use igame.Common.Int.{pos, ltb_ℤ}
use igame.Common.Result.{ok, ◌>>◌, raise_if, >>=-eq-ok, >>-eq-ok, ok-injective}
use igame.Ledger.Transfers.{move_money}
use igame.Payments.{FailedCheck, Payment, PaymentsDb, UserRow, find_user, has_ref}
use igame.Payments.Withdrawals.{
  WithdrawalRejected, auto_ok, Policy, Ask, lock_move, as_rejected, current_ref, insert_withdrawal,
  post_and_insert, withdraw, withdraw_for, request_withdrawal, failed_checks,
  simulated_player_cannot_withdraw, kyc_level_too_low, recent_reversible_deposit, unique_violation,
  check_violation, below_minimum_withdrawal, recent_deposit,
}
use igame.Payments.Requests.{raise_if-ok}
use igame.Payments.Withdrawals.{lifetime, recent_withdrawals, no_checks, check_if}
use igame.Payments.{
  approved, review, exceeds_limit, young_account, more_out_than_in, too_many_recent,
}
use igame.Common.{leb, ◌*◌, not, if◌then◌else◌}

-- Every test of a request and of an approval by itself.
pub record Vetted (policy : Policy) (ask : Ask) (db : PaymentsDb) (user : UserRow) : Type 0 where
  pub enough : ltb_ℤ ask.amount policy.min_withdraw ≡ false
  pub real : user.is_simulated ≡ false
  pub known : (ltb_ℤ policy.kyc_threshold ask.amount && ltb user.kyc_level 2) ≡ false
  pub settled :
      recent_deposit ask.user_id db.ledger.now policy.chargeback_window_minutes db.payments ≡ false
  pub within_limit : ltb_ℤ policy.auto_approve_limit ask.amount ≡ false
  pub old_account :
      leb db.ledger.now (user.created_at + policy.min_account_age_hours * 3600) ≡ false
  pub paid_in :
      ltb_ℤ (lifetime false user.id db.payments) (lifetime true user.id db.payments) ≡ false
  pub rare :
      leb policy.max_withdrawals_per_day (recent_withdrawals user.id db.ledger.now db.payments)
      ≡ false
  pub automatic : policy.force_review ≡ false

check_if-none :
    (test : Bool) (c : FailedCheck) (rest : List FailedCheck)
    → no_checks (check_if test c rest) ≡ true
    → (test ≡ false) × (no_checks rest ≡ true)
check_if-none true c rest h = cc
check_if-none false c rest h = (refl, h)

approved_by_itself : (test : Bool) → (if test then approved else review) ≡ approved → test ≡ true
approved_by_itself true h = refl
approved_by_itself false h = cc

both : (a b : Bool) → (a && not b) ≡ true → (a ≡ true) × (b ≡ false)
both a b h = (ground (arith, h), ground (arith, h))

module _ (policy : Policy) (ask : Ask) (db : PaymentsDb) (user : UserRow) where
  auto-Vetted :
      ltb_ℤ ask.amount policy.min_withdraw ≡ false
      → user.is_simulated ≡ false
      → (ltb_ℤ policy.kyc_threshold ask.amount && ltb user.kyc_level 2) ≡ false
      → recent_deposit ask.user_id db.ledger.now policy.chargeback_window_minutes db.payments
        ≡ false
      → auto_ok policy (failed_checks policy db user ask.amount) ≡ true
      → Vetted policy ask db user
  unfolding failed_checks
  auto-Vetted enough real known settled auto =
      let (none_failed, automatic) = both _ policy.force_review auto in
      let (within_limit, rest) =
        check_if-none (ltb_ℤ policy.auto_approve_limit ask.amount) exceeds_limit _ none_failed in
      let (old_account, rest2) =
        check_if-none (leb db.ledger.now (user.created_at + policy.min_account_age_hours * 3600))
          young_account _ rest in
      let (paid_in, rest3) =
        check_if-none
          (ltb_ℤ (lifetime false user.id db.payments) (lifetime true user.id db.payments))
          more_out_than_in _ rest2 in
      let (rare, rest4) =
        check_if-none
          (leb policy.max_withdrawals_per_day
            (recent_withdrawals user.id db.ledger.now db.payments))
          too_many_recent _ rest3 in
      record {
        enough = enough;
        real = real;
        known = known;
        settled = settled;
        within_limit = within_limit;
        old_account = old_account;
        paid_in = paid_in;
        rare = rare;
        automatic = automatic;
      }

  inserted_auto :
      {p : Payment} {db' : PaymentsDb}
      → post_and_insert policy ask db user ≡ ok (p, db')
      → p.status ≡ approved
      → auto_ok policy (failed_checks policy db user ask.amount) ≡ true
  inserted_auto h e =
      let (posted, ran, rest) =
        >>=-eq-ok (as_rejected (move_money db.ledger (lock_move ask (current_ref db)))) _ h in
      let small = raise_if (not (ltb_ℤ (pos 0) ask.amount)) check_violation in
      let last =
        raise_if (has_ref (current_ref db) db.payments) unique_violation
        >> ok (insert_withdrawal policy ask db user posted) in
      let positive = >>-eq-ok small last rest in
      let (free, same) =
        >>-eq-ok (raise_if (has_ref (current_ref db) db.payments) unique_violation)
          (ok (insert_withdrawal policy ask db user posted)) positive.1 in
      let is_row =
        ap (λ (r : Payment × PaymentsDb). r.0.status)
          (ok-injective {E = WithdrawalRejected} same) in
      approved_by_itself (auto_ok policy (failed_checks policy db user ask.amount)) (is_row ∙ e)

  withdraw-Vetted :
      {p : Payment} {db' : PaymentsDb}
      → ltb_ℤ ask.amount policy.min_withdraw ≡ false
      → withdraw policy ask db user ≡ ok (p, db')
      → p.status ≡ approved
      → Vetted policy ask db user
  unfolding withdraw
  withdraw-Vetted enough h e =
      let recent =
        raise_if
          (recent_deposit ask.user_id db.ledger.now policy.chargeback_window_minutes db.payments)
          recent_reversible_deposit in
      let kyc =
        raise_if (ltb_ℤ policy.kyc_threshold ask.amount && ltb user.kyc_level 2)
          kyc_level_too_low in
      let after_simulated =
        >>-eq-ok (raise_if user.is_simulated simulated_player_cannot_withdraw)
          (kyc >> (recent >> post_and_insert policy ask db user)) h in
      let after_kyc =
        >>-eq-ok kyc (recent >> post_and_insert policy ask db user) after_simulated.1 in
      let after_recent = >>-eq-ok recent (post_and_insert policy ask db user) after_kyc.1 in
      auto-Vetted enough (raise_if-ok _ _ after_simulated.0) (raise_if-ok _ _ after_kyc.0)
        (raise_if-ok _ _ after_recent.0) (inserted_auto after_recent.1 e)

withdraw_for-Vetted :
    (policy : Policy) (ask : Ask) (db : PaymentsDb) (who : Option UserRow) (user : UserRow)
    {p : Payment} {db' : PaymentsDb}
    → who ≡ some user
    → ltb_ℤ ask.amount policy.min_withdraw ≡ false
    → withdraw_for policy ask db who ≡ ok (p, db')
    → p.status ≡ approved
    → Vetted policy ask db user
withdraw_for-Vetted policy ask db none user s enough h e = cc
withdraw_for-Vetted policy ask db (some found) user s enough h e =
    let same : found ≡ user = ground (arith, s) in
    subst (Vetted policy ask db) same (withdraw-Vetted policy ask db found enough h e)

-- A request whose payment is approved at once has passed every test: the amount is between the minimum and the
-- limit for automatic approval, the player is real, old enough, known where the amount asks for it, has no
-- deposit that can still be reversed, has not withdrawn more than he paid in, has asked less often than
-- the day allows, and no review is forced.
pub request_withdrawal-Vetted :
    (policy : Policy) (ask : Ask) (db : PaymentsDb) (user : UserRow) {p : Payment}
    {db' : PaymentsDb}
    → find_user ask.user_id db.users ≡ some user
    → request_withdrawal policy ask db ≡ ok (p, db')
    → p.status ≡ approved
    → Vetted policy ask db user
unfolding request_withdrawal
request_withdrawal-Vetted policy ask db user f h e =
    let who = find_user ask.user_id db.users in
    let after_minimum =
      >>-eq-ok (raise_if (ltb_ℤ ask.amount policy.min_withdraw) below_minimum_withdrawal)
        (withdraw_for policy ask db who) h in
    withdraw_for-Vetted policy ask db who user f (raise_if-ok _ _ after_minimum.0) after_minimum.1 e
