-- ===== src/Examples/Grants.antt =====
-- A bonus that is granted and converted (packages/core/bonuses.py).
use text.Mathlib.Text.{◌==◌ as str_eq}
use text.Mathlib.TextEquality.{eq_iff}
use igame.Common.{
  ℕ, ◌<◌, ◌≡◌, refl, inl, inr, Bool, true, false, none, some, [], ◌∷◌, arith, ◌==◌, Bool-cases,
}
use igame.Common.Int.{pos, negsuc, neg, ◌+ℤ◌}
use igame.Common.Result.{Result, ok, err}
use igame.Ledger.{balance, find_balance}
use igame.Ledger.{find_account, get_or_create_account, is_user_kind}
use igame.Ledger.Deltas.{add_delta, add_entries, deltas_of, update_balance, apply_deltas}
use igame.Ledger.Post.{
  find_transaction, insert_id, sorted_ids, account_kind, lock_one, lock_balances, check_delta,
  check_deltas, entry_rows, post_new, post, transaction_total, check_totals, commit_post,
}
use igame.Ledger.Balances.{if_ℤ}
use igame.Ledger.Wallets.{wallet, side_of, same_side}
use igame.Ledger.Transfers.{move_money}
use igame.Payments.Reference.{text_of, digits_of}
use igame.Payments.Payouts.{decimal}
use igame.Payments.Keys.{differ_at}
use igame.Bonuses.{
  Bonus, BonusesDb, BonusError, Grant, active, bonus_side, grant_bonus, convert_bonus_to_cash,
  find_bonus, has_referral, update_bonus,
}
use igame.Bonuses.Rows.{active_total}
use igame.Bonuses.Lifecycle.{End, converts, expires, revokes, end_key, BonusesAreWf}
use igame.Bonuses.Steps.{
  IsGrantKey, start, then_step, granted, converted_by, Steps-bonus_side, grant_bonus-BonusesAreWf,
}
use igame.Bonuses.Once.{Over, bonus-Over, convert_bonus_to_cash-wallet}
use igame.Examples.Accounts.{deposited, deposited-IsSound}

abbrev no_bonuses : BonusesDb
no_bonuses = record { bonuses = []; ledger = deposited }

not_deposit : (e : End) (id : ℕ) → "DP-1" ≡ end_key e id → ⊥
not_deposit converts id h = differ_at "" "D" "b" "P-1" "onus-convert-" "" (decimal id) refl refl h
not_deposit expires id h = differ_at "" "D" "b" "P-1" "onus-expire-" "" (decimal id) refl refl h
not_deposit revokes id h = differ_at "" "D" "b" "P-1" "onus-revoke-" "" (decimal id) refl refl h

not_welcome : (e : End) (id : ℕ) → "welcome-7" ≡ end_key e id → ⊥
not_welcome converts id h =
    differ_at "" "w" "b" "elcome-7" "onus-convert-" "" (decimal id) refl refl h
not_welcome expires id h =
    differ_at "" "w" "b" "elcome-7" "onus-expire-" "" (decimal id) refl refl h
not_welcome revokes id h =
    differ_at "" "w" "b" "elcome-7" "onus-revoke-" "" (decimal id) refl refl h

deposit_is_apart : (e : End) (id : ℕ) → str_eq "DP-1" (end_key e id) ≡ false
deposit_is_apart e id = elim (Bool-cases (str_eq "DP-1" (end_key e id))) [
  | inr other ↦ other
  | inl same ↦ absurd (not_deposit e id ((eq_iff "DP-1" (end_key e id)).0 same))
]

welcome_is_apart : IsGrantKey "welcome-7"
welcome_is_apart e id = elim (Bool-cases (str_eq "welcome-7" (end_key e id))) [
  | inr other ↦ other
  | inl same ↦ absurd (not_welcome e id ((eq_iff "welcome-7" (end_key e id)).0 same))
]

no_bonus_wallet : (u : ℕ) → wallet deposited (bonus_side u) ≡ active_total u no_bonuses.bonuses
unfolding wallet active_total find_account
no_bonus_wallet u = elim (Bool-cases (7 == u)) [ inl hit ↦ rw hit refl | inr miss ↦ rw miss refl ]

past_accounts : (k : ℕ) → 2 < k → balance deposited k ≡ pos 0
unfolding balance find_balance
past_accounts k h = ground arith

no_bonuses-BonusesAreWf : BonusesAreWf no_bonuses
unfolding find_transaction
no_bonuses-BonusesAreWf = record {
  wallets = record {
    sound = deposited-IsSound;
    numbered = (refl, (refl, tt));
    unused = past_accounts;
  };
  in_order = tt;
  backed = no_bonus_wallet;
  keys_free = λ e id n. rw (deposit_is_apart e id) refl;
}

abbrev welcome : Grant
welcome = record {
  user_id = 7;
  idempotency_key = "welcome-7";
  amount = pos 100;
  wagering_required = pos 300;
  rule_id = none;
  referral_of_user_id = none;
  expires_at = none;
  granted_by_admin_id = none;
  reason = none;
}

abbrev welcome_bonus : Bonus
welcome_bonus = record {
  id = 1;
  user_id = 7;
  rule_id = none;
  referral_of_user_id = none;
  amount = pos 100;
  wagering_required = pos 300;
  status = active;
  grant_txn_id = 2;
  convert_txn_id = none;
  expires_at = none;
  granted_by_admin_id = none;
  reason = none;
}

abbrev granted_db : BonusesDb
granted_db = record {
  bonuses = welcome_bonus ∷ [];
  ledger = record {
    accounts =
        record { id = 1; user_id = some 7; kind = "user_cash"; currency = "ETB" }
        ∷ record { id = 2; user_id = none; kind = "house_float"; currency = "ETB" }
        ∷ record { id = 3; user_id = none; kind = "promo_expense"; currency = "ETB" }
        ∷ record { id = 4; user_id = some 7; kind = "user_bonus"; currency = "ETB" }
        ∷ [];
    transactions =
        record {
          id = 1;
          kind = "deposit";
          idempotency_key = "DP-1";
          round_id = none;
          payment_id = some 1;
          created_by = "system";
          memo = none;
        }
        ∷ record {
          id = 2;
          kind = "bonus_grant";
          idempotency_key = "welcome-7";
          round_id = none;
          payment_id = none;
          created_by = "system";
          memo = none;
        }
        ∷ [];
    entries =
        record { transaction_id = 1; account_id = 2; amount = negsuc 499; created_at = 1000 }
        ∷ record { transaction_id = 1; account_id = 1; amount = pos 500; created_at = 1000 }
        ∷ record { transaction_id = 2; account_id = 3; amount = negsuc 99; created_at = 1000 }
        ∷ record { transaction_id = 2; account_id = 4; amount = pos 100; created_at = 1000 }
        ∷ [];
    balances =
        (1, record { kind = "user_cash"; balance = pos 500; last_entry_id = some 2 })
        ∷ (2, record { kind = "house_float"; balance = negsuc 499; last_entry_id = some 2 })
        ∷ (3, record { kind = "promo_expense"; balance = negsuc 99; last_entry_id = some 4 })
        ∷ (4, record { kind = "user_bonus"; balance = pos 100; last_entry_id = some 4 })
        ∷ [];
    now = 1000;
  };
}

is_granted : grant_bonus welcome no_bonuses ≡ ok (welcome_bonus, granted_db)
unfolding grant_bonus has_referral move_money get_or_create_account find_account commit_post
    check_totals transaction_total post post_new find_transaction insert_id sorted_ids account_kind
    lock_one lock_balances check_delta check_deltas entry_rows add_delta add_entries deltas_of
    update_balance apply_deltas find_balance is_user_kind ◌+ℤ◌
is_granted = refl

granted-BonusesAreWf : BonusesAreWf granted_db
granted-BonusesAreWf =
    grant_bonus-BonusesAreWf welcome no_bonuses no_bonuses-BonusesAreWf welcome_is_apart is_granted

abbrev state_after : Result BonusError (Bool × BonusesDb) → BonusesDb
state_after (ok (b, db)) = db
state_after (err e) = no_bonuses

abbrev converted_db : BonusesDb
converted_db = state_after (convert_bonus_to_cash 1 granted_db)

is_converted : convert_bonus_to_cash 1 granted_db ≡ ok (true, converted_db)
unfolding convert_bonus_to_cash text_of digits_of find_bonus update_bonus move_money
    get_or_create_account find_account commit_post check_totals transaction_total post post_new
    find_transaction insert_id sorted_ids account_kind lock_one lock_balances check_delta
    check_deltas entry_rows add_delta add_entries deltas_of update_balance apply_deltas find_balance
    is_user_kind ◌+ℤ◌
is_converted = refl

there : find_bonus 1 granted_db.bonuses ≡ some welcome_bonus
unfolding find_bonus
there = refl

Steps-bonus_side_example :
    wallet converted_db.ledger (bonus_side 7) ≡ active_total 7 converted_db.bonuses
Steps-bonus_side_example = Steps-bonus_side 7 no_bonuses-BonusesAreWf (
    then_step (then_step start (granted welcome welcome_bonus welcome_is_apart is_granted))
      (converted_by 1 true is_converted))

bonus-Over_example : Over converted_db 1
bonus-Over_example = bonus-Over 1 granted_db granted-BonusesAreWf (inl is_converted)

convert_bonus_to_cash-wallet_example :
    wallet converted_db.ledger (side_of 7 "user_cash")
    ≡ wallet granted_db.ledger (side_of 7 "user_cash")
      +ℤ (if_ℤ (same_side (bonus_side 7) (side_of 7 "user_cash")) (neg (pos 100))
          +ℤ if_ℤ (same_side (side_of 7 "user_cash") (side_of 7 "user_cash")) (pos 100))
convert_bonus_to_cash-wallet_example =
    convert_bonus_to_cash-wallet 1 granted_db welcome_bonus (side_of 7 "user_cash")
      granted-BonusesAreWf there is_converted
