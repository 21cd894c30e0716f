-- ===== src/Examples/Accounts.antt =====
-- A ledger of three accounts: a deposit, and the same deposit again (packages/core/ledger.py).
use igame.Common.{not, ◌≡◌, refl, none, some, [], ◌∷◌, if◌then◌else◌}
use igame.Common.Int.{pos, negsuc, ◌+ℤ◌}
use igame.Common.Result.{ok, err}
use igame.Ledger.{Account, Db, is_user_kind, find_balance, balance, entry_sum}
use igame.Ledger.Deltas.{add_delta, add_entries, deltas_of, update_balance, apply_deltas}
use igame.Ledger.Post.{
  is_transaction_kind, unknown_kind, idempotency_key_conflict, Request, find_transaction,
  is_conflict, insert_id, sorted_ids, account_kind, lock_one, lock_balances, check_delta,
  check_deltas, entry_rows, new_transaction, post_new, post, transaction_total, check_totals,
  commit_post,
}
use igame.Ledger.Post.Balanced.{total_amount}
use igame.Ledger.Post.Sound.{IsSound, commit_post-IsSound}
use igame.Ledger.Post.Replays.{post-replays}

abbrev cash : Account
cash = record { id = 1; user_id = some 7; kind = "user_cash"; currency = "ETB" }

abbrev house : Account
house = record { id = 2; user_id = none; kind = "house_float"; currency = "ETB" }

abbrev new_db : Db
new_db = record {
  accounts = cash ∷ house ∷ [];
  transactions = [];
  entries = [];
  balances = [];
  now = 1000;
}

abbrev deposit : Request
deposit = record {
  kind = "deposit";
  entries =
      record { account_id = 2; amount = negsuc 499 }
      ∷ record { account_id = 1; amount = pos 500 }
      ∷ [];
  idempotency_key = "DP-1";
  round_id = none;
  payment_id = some 1;
  memo = none;
  created_by = "system";
  created_at = none;
}

abbrev stake : Request
stake = record deposit { kind = "stake" }

abbrev pub deposited : Db
deposited = record new_db {
  transactions = new_transaction new_db deposit ∷ [];
  entries =
      record { transaction_id = 1; account_id = 2; amount = negsuc 499; created_at = 1000 }
      ∷ record { transaction_id = 1; account_id = 1; amount = pos 500; created_at = 1000 }
      ∷ [];
  balances =
      (1, record { kind = "user_cash"; balance = pos 500; last_entry_id = some 2 })
      ∷ (2, record { kind = "house_float"; balance = negsuc 499; last_entry_id = some 2 })
      ∷ [];
}

deposit_posts : post new_db deposit ≡ ok (new_transaction new_db deposit, deposited)
unfolding post post_new find_transaction insert_id sorted_ids account_kind lock_one lock_balances
    check_delta check_deltas entry_rows add_delta add_entries deltas_of update_balance apply_deltas
    find_balance is_user_kind ◌+ℤ◌
deposit_posts = refl

deposit_commits : commit_post new_db deposit ≡ ok (new_transaction new_db deposit, deposited)
unfolding commit_post check_totals transaction_total post post_new find_transaction insert_id
    sorted_ids account_kind lock_one lock_balances check_delta check_deltas entry_rows add_delta
    add_entries deltas_of update_balance apply_deltas find_balance is_user_kind ◌+ℤ◌
deposit_commits = refl

new_db-IsSound : IsSound new_db
unfolding balance entry_sum find_balance transaction_total total_amount
new_db-IsSound = record {
  keys = tt;
  reconciled = λ a. refl;
  solvent = λ a. tt;
  balanced = λ t. refl;
  total_zero = refl;
}

commit_post-IsSound_example : IsSound deposited
commit_post-IsSound_example = commit_post-IsSound new_db deposit new_db-IsSound deposit_commits

pub deposited-IsSound : IsSound deposited
deposited-IsSound = commit_post-IsSound new_db deposit new_db-IsSound deposit_commits

post-replays_example : post deposited stake ≡ (
    if not (is_transaction_kind "stake")
    then err (unknown_kind "stake")
    else if is_conflict (new_transaction new_db deposit) stake
    then err (idempotency_key_conflict "DP-1" "deposit" "stake")
    else ok (new_transaction new_db deposit, deposited))
post-replays_example = post-replays new_db deposit stake deposit_posts refl refl

deposit_is_new : find_transaction "DP-1" new_db.transactions ≡ none
unfolding find_transaction
deposit_is_new = refl
