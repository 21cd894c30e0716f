-- ===== src/Ledger/Base.antt =====
-- The tables of the ledger, and its reads: packages/core/ledger.py.
use text.Mathlib.Text.{◌==◌ as str_eq}
use igame.Common.{
  ℕ, ◌+◌, Bool, true, false, ◌&&◌, ◌||◌, Option, none, some, String, List, [], ◌∷◌, ◌++◌, ◌==◌,
  if◌then◌else◌, length,
}
use igame.Common.Int.{ℤ, pos, pos_part, neg_part, ◌+ℤ◌, ◌-ℤ◌}

pub record Account : Type 0 where
  pub id : ℕ
  pub user_id : Option ℕ
  pub kind : String
  pub currency : String

pub record Entry : Type 0 where
  pub account_id : ℕ
  pub amount : ℤ

pub record LedgerTransaction : Type 0 where
  pub id : ℕ
  pub kind : String
  pub idempotency_key : String
  pub round_id : Option ℕ
  pub payment_id : Option ℕ
  pub created_by : String
  pub memo : Option String

-- A row of `ledger_entries`.
pub record EntryRow : Type 0 where
  pub transaction_id : ℕ
  pub account_id : ℕ
  pub amount : ℤ
  pub created_at : ℕ

-- A row of `account_balances`, without its account.
pub record LockedBalance : Type 0 where
  pub kind : String
  pub balance : ℤ
  pub last_entry_id : Option ℕ

abbrev pub Balances : Type 0
Balances = List (ℕ × LockedBalance)

pub record Db : Type 0 where
  pub accounts : List Account
  pub transactions : List LedgerTransaction
  pub entries : List EntryRow
  pub balances : Balances
  pub now : ℕ

-- `kind in USER_BALANCE_KINDS`
unfoldable pub is_user_kind : String → Bool
is_user_kind kind = str_eq kind "user_cash" || str_eq kind "user_bonus" || str_eq kind "user_locked"

abbrev pub opt_eq : Option ℕ → Option ℕ → Bool
opt_eq none none = true
opt_eq (some a) (some b) = a == b
opt_eq _ _ = false

abbrev pub eq_ℤ : ℤ → ℤ → Bool
eq_ℤ a b = pos_part a + neg_part b == pos_part b + neg_part a

-- `SELECT ... FROM account_balances WHERE account_id = $1`
unfoldable pub find_balance : ℕ → Balances → Option LockedBalance
find_balance a [] = none
find_balance a ((k, row) ∷ rest) = if k == a then some row else find_balance a rest

abbrev pub balance_or_zero : Option LockedBalance → ℤ
balance_or_zero none = pos 0
balance_or_zero (some row) = row.balance

-- `balance`
unfoldable pub balance : Db → ℕ → ℤ
balance db a = balance_or_zero (find_balance a db.balances)

-- `SUM(e.amount)` over the entries of an account.
unfoldable pub entry_sum : ℕ → List EntryRow → ℤ
entry_sum a [] = pos 0
entry_sum a (e ∷ es) = if e.account_id == a then e.amount +ℤ entry_sum a es else entry_sum a es

unfoldable pub reconcile_rows : List EntryRow → Balances → List (ℕ × ℤ × ℤ)
reconcile_rows entries [] = []
reconcile_rows entries ((k, row) ∷ rest) =
    let more = reconcile_rows entries rest in
    if eq_ℤ row.balance (entry_sum k entries)
    then more
    else (k, row.balance, entry_sum k entries) ∷ more

-- The accounts whose cached balance is not the sum of their entries.
unfoldable pub reconcile : Db → List (ℕ × ℤ × ℤ)
unfolding reconcile_rows
reconcile db = reconcile_rows db.entries db.balances

unfoldable pub find_account : Option ℕ → String → String → List Account → Option Account
find_account user_id kind currency [] = none
find_account user_id kind currency (a ∷ rest) =
    if opt_eq a.user_id user_id && str_eq a.kind kind && str_eq a.currency currency
    then some a
    else find_account user_id kind currency rest

-- The insert that does nothing on a conflict, and the select that follows it. The two branches of
-- the source differ only in how SQL compares a missing user.
unfoldable pub get_or_create_account : Db → Option ℕ → String → String → Account × Db
get_or_create_account db user_id kind currency =
    elim (find_account user_id kind currency db.accounts) [
      | some a ↦ (a, db)
      | none ↦
          let a : Account = record {
            id = length db.accounts + 1;
            user_id = user_id;
            kind = kind;
            currency = currency;
          } in
          (a, record db { accounts = db.accounts ++ a ∷ [] })
    ]

sum_of_kind : String → Option ℕ → List Account → Balances → ℤ
sum_of_kind kind user_id [] balances = pos 0
sum_of_kind kind user_id (a ∷ rest) balances =
    let more = sum_of_kind kind user_id rest balances in
    if opt_eq a.user_id user_id && str_eq a.kind kind
    then balance_or_zero (find_balance a.id balances) +ℤ more
    else more

-- Cash and bonus less what is locked.
unfoldable pub available : Db → ℕ → ℤ
unfolding sum_of_kind
available db user_id =
    sum_of_kind "user_cash" (some user_id) db.accounts db.balances
    +ℤ sum_of_kind "user_bonus" (some user_id) db.accounts db.balances
    -ℤ sum_of_kind "user_locked" (some user_id) db.accounts db.balances
