-- ===== src/Ledger/Post/Sound.antt =====
-- The invariant of the whole ledger: it holds of an empty one, a committed post keeps it, and in it
-- the nightly reconciliation finds nothing.
use mathlib.Core.Path.{subst}
use igame.Common.{
  not, ℕ, ◌≡◌, refl, ap, sym, ◌∙◌, false, Option, none, some, List, [], ◌∷◌, ◌++◌, arith, ◌==◌,
  Bool-cases, Option-cases, inl, inr, length, drop, ◌⊎◌,
}
use igame.Common.Int.{ℤ, pos}
use igame.Common.Result.{ok, raise_if, >>=-eq-ok, >>-eq-ok, ok-injective}
use igame.Ledger.Base.{
  Account, EntryRow, LedgerTransaction, LockedBalance, Balances, Db, find_balance, balance,
  balance_or_zero, entry_sum, reconcile, reconcile_rows,
}
use igame.Ledger.Deltas.{Deltas, deltas_of, update_balance, apply_deltas}
use igame.Ledger.Balances.{Moved, Moved-update, if_ℤ}
use igame.Ledger.Post.State.{post_state, Posted, post_new-Posted}
use igame.Ledger.Post.Reconciles.{IsReconciled, post_state-IsReconciled}
use igame.Ledger.Post.Solvency.{IsSolvent, post_state-IsSolvent}
use igame.Ledger.Post.Balanced.{IsBalanced, total_amount, post_state-IsBalanced}
use igame.Ledger.Post.{
  is_transaction_kind, unknown_kind, PostError, Request, sorted_ids, account_kind, fresh_row,
  lock_one, lock_balances, post_existing, post, has_none, find_transaction, check_totals,
  commit_post,
}

-- `account_id` is the primary key of `account_balances`.
abbrev HasKeys : Balances → Type 0
HasKeys [] = Unit
HasKeys ((k, row) ∷ rest) = (find_balance k rest ≡ none) × HasKeys rest

pub record IsSound (db : Db) : Type 0 where
  pub keys : HasKeys db.balances
  pub reconciled : IsReconciled db
  pub solvent : IsSolvent db
  pub balanced : IsBalanced db
  pub total_zero : total_amount db.entries ≡ pos 0

find-append_ne :
    (a id : ℕ) (row : LockedBalance) (bs : Balances)
    → (id == a) ≡ false
    → find_balance a bs ≡ none
    → find_balance a (bs ++ (id, row) ∷ []) ≡ none
unfolding find_balance
find-append_ne a id row [] h n = ground arith
find-append_ne a id row ((k, r) ∷ rest) h n = ground (arith, find-append_ne a id row rest h)

HasKeys-append :
    (id : ℕ) (row : LockedBalance) (bs : Balances)
    → find_balance id bs ≡ none
    → HasKeys bs
    → HasKeys (bs ++ (id, row) ∷ [])
unfolding find_balance
HasKeys-append id row [] n h = (refl, tt)
HasKeys-append id row ((k, r) ∷ rest) n h =
    ground (arith, HasKeys-append id row rest, find-append_ne k id row rest)

HasKeys-one :
    (accounts : List Account) (id : ℕ) (bs bs' : Balances)
    → lock_one accounts id bs ≡ ok bs'
    → HasKeys bs
    → HasKeys bs'
unfolding lock_one
HasKeys-one accounts id bs bs' e h = elim (Option-cases (find_balance id bs)) [
  | inr (r, f) ↦ let same : bs ≡ bs' = ground arith in subst HasKeys same h
  | inl f ↦ elim (Option-cases (account_kind id accounts)) [
    | inl n ↦ absurd (ground arith)
    | inr (kind, k) ↦
        let same : bs ++ (id, fresh_row kind) ∷ [] ≡ bs' = ground arith in
        subst HasKeys same (HasKeys-append id (fresh_row kind) bs f h)
  ]
]

HasKeys-lock :
    (accounts : List Account) (ids : List ℕ) (bs bs' : Balances)
    → lock_balances accounts ids bs ≡ ok bs'
    → HasKeys bs
    → HasKeys bs'
unfolding lock_balances
HasKeys-lock accounts [] bs bs' e h = subst HasKeys (cc) h
HasKeys-lock accounts (id ∷ ids) bs bs' e h =
    let (b, one, rest) = >>=-eq-ok (lock_one accounts id bs) (lock_balances accounts ids) e in
    HasKeys-lock accounts ids b bs' rest (HasKeys-one accounts id bs b one h)

Moved-none : (o p : Option LockedBalance) (d : ℤ) → Moved o p d → o ≡ none → p ≡ none
Moved-none none none d m e = refl
Moved-none none (some _) d m e = absurd m
Moved-none (some _) p d m e = cc

HasKeys-update :
    (last id : ℕ) (d : ℤ) (bs : Balances) → HasKeys bs → HasKeys (update_balance last id d bs)
unfolding update_balance
HasKeys-update last id d [] h = tt
HasKeys-update last id d ((k, row) ∷ rest) h = (
  Moved-none (find_balance k rest) (find_balance k (update_balance last id d rest))
      (if_ℤ (id == k) d) (Moved-update last id k d rest) h.0,
  HasKeys-update last id d rest h.1,
)

HasKeys-apply :
    (last : ℕ) (ds : Deltas) (bs : Balances) → HasKeys bs → HasKeys (apply_deltas last ds bs)
unfolding apply_deltas
HasKeys-apply last [] bs h = h
HasKeys-apply last ((id, d) ∷ rest) bs h =
    HasKeys-apply last rest (update_balance last id d bs) (HasKeys-update last id d bs h)

has_none-cases :
    (db : Db) (q : Request) (t : LedgerTransaction) (db' : Db)
    → post db q ≡ ok (t, db')
    → (has_none q.entries ≡ false) × ((db' ≡ db) ⊎ Posted db q db')
unfolding post post_existing
has_none-cases db q t db' h =
    let (some_entry, rest) = >>-eq-ok (raise_if (has_none q.entries) PostError.no_entries) _ h in
    let (known, rest) =
      >>-eq-ok (raise_if (not (is_transaction_kind q.kind)) (unknown_kind q.kind)) _ rest in
    (
      ground arith,
      elim (Option-cases (find_transaction q.idempotency_key db.transactions)) [
        | inl e ↦ inr (post_new-Posted db q t db' (rw e at rest))
        | inr (existing, e) ↦ inl (old existing (rw e at rest))
      ],
    )
  where
    old : (existing : LedgerTransaction) → post_existing db q existing ≡ ok (t, db') → db' ≡ db
    old existing r = ground arith

Posted-IsSound :
    (db : Db) (q : Request) (db' : Db)
    → IsSound db
    → has_none q.entries ≡ false
    → Posted db q db'
    → check_totals db'.entries (drop (length db.entries) db'.entries) ≡ ok tt
    → IsSound db'
Posted-IsSound db q db' h some_entry new checked =
    let checked' =
      subst (λ (d : Db). check_totals d.entries (drop (length db.entries) d.entries) ≡ ok tt)
        new.state checked in
    let (balanced, zero_total) =
      post_state-IsBalanced db q new.locked some_entry checked' h.balanced in
    subst IsSound (sym new.state) (record {
      keys =
          HasKeys-apply (length (post_state db q new.locked).entries) (deltas_of q.entries)
            new.locked
            (HasKeys-lock db.accounts (sorted_ids q.entries) db.balances new.locked new.was_locked
              h.keys);
      reconciled = post_state-IsReconciled db q new.locked new.was_locked h.reconciled;
      solvent = post_state-IsSolvent db q new.locked new.was_locked new.was_checked h.solvent;
      balanced = balanced;
      total_zero = zero_total ∙ h.total_zero;
    })

-- A committed post keeps the ledger sound: each cached balance is the sum of its account's
-- entries, no account of a player is below zero, the entries of each transaction and all entries
-- together add up to zero, and each account has one balance row.
pub commit_post-IsSound :
    (db : Db) (q : Request) {t : LedgerTransaction} {db' : Db}
    → IsSound db
    → commit_post db q ≡ ok (t, db')
    → IsSound db'
unfolding commit_post
commit_post-IsSound db q {t} {db'} h e =
    let ((u, db''), posted, rest) = >>=-eq-ok (post db q) _ e in
    let (checked, same) =
      >>-eq-ok (check_totals db''.entries (drop (length db.entries) db''.entries)) _ rest in
    let same_db : db'' ≡ db' = ap (λ r. r.1) (ok-injective same) in
    let (some_entry, how) = has_none-cases db q u db'' posted in
    subst IsSound same_db (elim how [
      | inl old ↦ subst IsSound (sym old) h
      | inr new ↦ Posted-IsSound db q db'' h some_entry new checked
    ])

reconcile_rows-nil :
    (entries : List EntryRow) (bs : Balances)
    → HasKeys bs
    → ((a : ℕ) (row : LockedBalance)
        → find_balance a bs ≡ some row
        → row.balance ≡ entry_sum a entries)
    → reconcile_rows entries bs ≡ []
unfolding reconcile_rows find_balance
reconcile_rows-nil entries [] h f = refl
reconcile_rows-nil entries ((k, row) ∷ rest) h f =
    let head : row.balance ≡ entry_sum k entries = f k row (ground arith) in
    let tail = reconcile_rows-nil entries rest h.1 (λ a r e. f a r (elim (Bool-cases (k == a)) [
      | inl same ↦ absurd (ground (arith, h.0, e))
      | inr other ↦ rw other e
    ])) in
    ground (arith, head, tail)

-- In a sound ledger the nightly reconciliation finds no account.
reconcile-nil : (db : Db) → IsSound db → reconcile db ≡ []
unfolding reconcile balance
reconcile-nil db h =
    reconcile_rows-nil db.entries db.balances h.keys
      (λ a row e. sym (ap balance_or_zero e) ∙ h.reconciled a)
