-- ===== src/Ledger/Post.antt =====
-- `post` of packages/core/ledger.py, and the deferred check that the entries of a transaction add
-- up to zero (check_ledger_transaction_balance of migrations/versions/81d041ff4513_ledger_foundation.py).
pub mod State
pub mod Reconciles
pub mod Solvency
pub mod Balanced
pub mod Sound
pub mod Replays
pub mod Succeeds
pub mod Commits
pub mod Moves
use text.Mathlib.Text.{◌==◌ as str_eq}
use igame.Common.{
  ℕ, zero, suc, ◌+◌, Bool, true, false, ◌&&◌, ◌||◌, not, Option, none, some, String, List, [], ◌∷◌,
  ◌++◌, map, ◌==◌, ltb, if◌then◌else◌, length, drop,
}
use igame.Common.Int.{ℤ, pos, ◌+ℤ◌, ltb_ℤ}
use igame.Common.Result.{Result, ok, err, ◌>>=◌, ◌>>◌, raise_if}
use igame.Ledger.Base.{
  Account, Entry, LedgerTransaction, EntryRow, LockedBalance, Balances, Db, is_user_kind, opt_eq,
  eq_ℤ, find_balance,
}
use igame.Ledger.Deltas.{Deltas, deltas_of, apply_deltas}

pub data PostError : Type 0 where
  no_entries : PostError
  unknown_kind : String → PostError
  idempotency_key_conflict : String → String → String → PostError
  no_such_account : ℕ → PostError
  insufficient_funds : ℕ → ℤ → PostError
  unbalanced : ℤ → PostError

-- The arguments of a call of `post`.
pub record Request : Type 0 where
  pub kind : String
  pub entries : List Entry
  pub idempotency_key : String
  pub round_id : Option ℕ
  pub payment_id : Option ℕ
  pub memo : Option String
  pub created_by : String
  pub created_at : Option ℕ

unfoldable pub find_transaction : String → List LedgerTransaction → Option LedgerTransaction
find_transaction key [] = none
find_transaction key (t ∷ ts) =
    if str_eq t.idempotency_key key then some t else find_transaction key ts

-- `asked is not None and existing != asked`
abbrev pub differs : Option ℕ → Option ℕ → Bool
differs existing none = false
differs existing (some a) = not (opt_eq existing (some a))

-- The row of the key is the same operation, or the key belongs to another one.
unfoldable pub is_conflict : LedgerTransaction → Request → Bool
is_conflict existing q =
    not (str_eq existing.kind q.kind)
    || differs existing.round_id q.round_id
    || differs existing.payment_id q.payment_id

-- `sorted({e.account_id for e in entries})`
unfoldable pub insert_id : ℕ → List ℕ → List ℕ
insert_id a [] = a ∷ []
insert_id a (x ∷ xs) = if ltb a x then a ∷ x ∷ xs else if a == x then x ∷ xs else x ∷ insert_id a xs

unfoldable pub sorted_ids : List Entry → List ℕ
unfolding insert_id
sorted_ids [] = []
sorted_ids (e ∷ es) = insert_id e.account_id (sorted_ids es)

unfoldable pub account_kind : ℕ → List Account → Option String
account_kind id [] = none
account_kind id (a ∷ rest) = if a.id == id then some a.kind else account_kind id rest

abbrev pub fresh_row : String → LockedBalance
fresh_row kind = record { kind = kind; balance = pos 0; last_entry_id = none }

-- One round of the locking loop: a missing row is created at zero.
unfoldable pub lock_one : List Account → ℕ → Balances → Result PostError Balances
lock_one accounts id balances = elim (find_balance id balances) [
  | some row ↦ ok balances
  | none ↦ elim (account_kind id accounts) [
    | none ↦ err (no_such_account id)
    | some kind ↦ ok (balances ++ (id, fresh_row kind) ∷ [])
  ]
]

unfoldable pub lock_balances : List Account → List ℕ → Balances → Result PostError Balances
lock_balances accounts [] balances = ok balances
lock_balances accounts (id ∷ ids) balances =
    lock_one accounts id balances >>= λ b. lock_balances accounts ids b

-- The test of one delta against the locked row.
unfoldable pub check_delta : Balances → ℕ → ℤ → Result PostError (Unit {0})
check_delta locked id delta = elim (find_balance id locked) [
  | none ↦ err (no_such_account id)
  | some row ↦
      raise_if (is_user_kind row.kind && ltb_ℤ (row.balance +ℤ delta) (pos 0))
        (insufficient_funds id (row.balance +ℤ delta))
]

unfoldable pub check_deltas : Balances → Deltas → Result PostError (Unit {0})
check_deltas locked [] = ok tt
check_deltas locked ((id, delta) ∷ rest) = check_delta locked id delta >> check_deltas locked rest

abbrev pub stamp : Option ℕ → ℕ → ℕ
stamp none now = now
stamp (some t) now = t

-- `INSERT INTO ledger_entries`, for each entry.
unfoldable pub entry_rows : ℕ → ℕ → List Entry → List EntryRow
entry_rows txn at [] = []
entry_rows txn at (e ∷ es) =
    record { transaction_id = txn; account_id = e.account_id; amount = e.amount; created_at = at }
    ∷ entry_rows txn at es

abbrev pub new_transaction : Db → Request → LedgerTransaction
new_transaction db q = record {
  id = length db.transactions + 1;
  kind = q.kind;
  idempotency_key = q.idempotency_key;
  round_id = q.round_id;
  payment_id = q.payment_id;
  created_by = q.created_by;
  memo = q.memo;
}

-- What follows the insert of a new key.
unfoldable pub post_new : Db → Request → Result PostError (LedgerTransaction × Db)
post_new db q = do
  locked ← lock_balances db.accounts (sorted_ids q.entries) db.balances
  check_deltas locked (deltas_of q.entries)
  let txn = new_transaction db q
  let rows = db.entries ++ entry_rows txn.id (stamp q.created_at db.now) q.entries
  ok (
    txn,
    record db {
      transactions = db.transactions ++ txn ∷ [];
      entries = rows;
      balances = apply_deltas (length rows) (deltas_of q.entries) locked;
    },
  )

unfoldable pub post_existing :
    Db → Request → LedgerTransaction → Result PostError (LedgerTransaction × Db)
post_existing db q existing =
    if is_conflict existing q
    then err (idempotency_key_conflict q.idempotency_key existing.kind q.kind)
    else ok (existing, db)

abbrev pub has_none : List Entry → Bool
has_none [] = true
has_none (_ ∷ _) = false

-- TRANSACTION_KINDS, as migrations/versions/a3f7c2e91b04_keno_core_schema.py leaves it.
abbrev transaction_kinds : List String
transaction_kinds =
    "deposit" ∷ "withdrawal" ∷ "stake" ∷ "payout" ∷ "refund" ∷ "commission" ∷ "bonus_grant"
    ∷ "bonus_convert" ∷ "adjustment" ∷ "keno_stake" ∷ "keno_payout" ∷ "keno_refund"
    ∷ "keno_jackpot_contribution" ∷ "keno_jackpot_payout" ∷ "keno_reserve_deposit"
    ∷ "keno_reserve_withdrawal" ∷ []

abbrev kind_among : String → List String → Bool
kind_among kind [] = false
kind_among kind (k ∷ rest) = str_eq k kind || kind_among kind rest

-- The CHECK on `ledger_transactions.kind`.
abbrev pub is_transaction_kind : String → Bool
is_transaction_kind kind = kind_among kind transaction_kinds

-- The insert meets the CHECK on the kind before it meets the key. The foreign keys of the round and of the payment,
-- and the width of numeric(18,2), are not modelled.
unfoldable pub post : Db → Request → Result PostError (LedgerTransaction × Db)
post db q =
    raise_if (has_none q.entries) no_entries
    >> (raise_if (not (is_transaction_kind q.kind)) (unknown_kind q.kind)
        >> elim (find_transaction q.idempotency_key db.transactions) [
          | none ↦ post_new db q
          | some existing ↦ post_existing db q existing
        ])

-- The total that the trigger computes for a transaction.
unfoldable pub transaction_total : ℕ → List EntryRow → ℤ
transaction_total txn [] = pos 0
transaction_total txn (e ∷ es) =
    if e.transaction_id == txn
    then e.amount +ℤ transaction_total txn es
    else transaction_total txn es

-- The trigger, for each row that was inserted.
unfoldable pub check_totals : List EntryRow → List EntryRow → Result PostError (Unit {0})
check_totals all [] = ok tt
check_totals all (e ∷ es) =
    let total = transaction_total e.transaction_id all in
    raise_if (not (eq_ℤ total (pos 0))) (unbalanced total) >> check_totals all es

-- A transaction that makes one post and commits: the trigger runs for the rows that are new.
unfoldable pub commit_post : Db → Request → Result PostError (LedgerTransaction × Db)
commit_post db q =
    post db q >>= λ r. check_totals r.1.entries (drop (length db.entries) r.1.entries) >> ok r
