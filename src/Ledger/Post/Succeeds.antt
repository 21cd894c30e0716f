-- ===== src/Ledger/Post/Succeeds.antt =====
-- When `post` goes through: a new key, accounts that exist, and no player below zero afterwards.
use mathlib.Core.Path.{subst}
use mathlib.Core.Bool.{false≢true}
use igame.Common.{
  ℕ, ◌≡◌, refl, ap, sym, ◌∙◌, ◌≢◌, Bool, true, false, ◌||◌, Option, none, some, String, List, [],
  ◌∷◌, ◌++◌, arith, ◌==◌, ==_iff, Bool-cases, Option-cases, inl, inr,
}
use igame.Common.Int.{pos, ◌+ℤ◌, ◌≤ℤ◌, int_laws}
use igame.Common.Counts.{contains}
use igame.Common.Result.{ok}
use igame.Ledger.Base.{Account, Entry, LockedBalance, Balances, Db, is_user_kind, find_balance}
use igame.Ledger.Deltas.{Deltas, add_delta, add_entries, deltas_of}
use igame.Ledger.Balances.{
  delta_sum, delta_sum-deltas_of, amounts, if_ℤ, contains-insert_id, lock_balances-row,
}
use igame.Ledger.Post.{
  is_transaction_kind, Request, sorted_ids, account_kind, fresh_row, lock_one, lock_balances,
  check_delta, check_deltas, new_transaction, post_new, post, has_none, find_transaction,
}
use igame.Ledger.Post.State.{post_state}
use igame.Ledger.Post.Solvency.{has_key, has_key-add, OneEach, OneEach-deltas_of, delta_sum-none}

-- The row that a post locks for an account: the one there is, or a new one at zero.
unfoldable pub row_to_lock : List Account → Balances → ℕ → Option LockedBalance
row_to_lock accounts bs a = elim (find_balance a bs) [
  | some row ↦ some row
  | none ↦ elim (account_kind a accounts) [ none ↦ none | some kind ↦ some (fresh_row kind) ]
]

-- An account of some entry.
unfoldable pub has_account : ℕ → List Entry → Bool
has_account a [] = false
has_account a (e ∷ es) = e.account_id == a || has_account a es

contains-sorted_ids : (a : ℕ) (es : List Entry) → contains a (sorted_ids es) ≡ has_account a es
unfolding sorted_ids has_account
contains-sorted_ids a [] = refl
contains-sorted_ids a (e ∷ es) =
    rw (contains-insert_id a e.account_id (sorted_ids es), contains-sorted_ids a es) refl

has_key-entries :
    (a : ℕ) (ds : Deltas) (es : List Entry)
    → has_key a (add_entries ds es) ≡ (has_key a ds || has_account a es)
unfolding add_entries has_account
has_key-entries a ds [] = ground arith
has_key-entries a ds (e ∷ es) = ground (
  arith,
  has_key-entries a (add_delta e.account_id e.amount ds) es,
  has_key-add a e.account_id e.amount ds,
)

row_to_lock-append :
    (accounts : List Account) (a id : ℕ) (kind : String) (bs : Balances)
    → account_kind id accounts ≡ some kind
    → find_balance id bs ≡ none
    → row_to_lock accounts (bs ++ (id, fresh_row kind) ∷ []) a ≡ row_to_lock accounts bs a
unfolding row_to_lock find_balance
row_to_lock-append accounts a id kind [] k e = elim (Bool-cases (id == a)) [
  | inl same ↦
      let eq : id ≡ a = (==_iff id a).0 same in
      ground (arith, ap (λ (x : ℕ). account_kind x accounts) eq)
  | inr other ↦ ground arith
]
row_to_lock-append accounts a id kind ((i, r) ∷ bs) k e =
    ground (arith, row_to_lock-append accounts a id kind bs)

row_to_lock-here :
    (accounts : List Account) (bs : Balances) (a : ℕ) (row : LockedBalance)
    → find_balance a bs ≡ some row
    → row_to_lock accounts bs a ≡ some row
unfolding row_to_lock
row_to_lock-here accounts bs a row e = ground arith

lock_one-succeeds :
    (accounts : List Account) (id : ℕ) (bs : Balances)
    → account_kind id accounts ≢ none
    → (bs' : Balances) × (lock_one accounts id bs ≡ ok bs')
      × ((a : ℕ) → row_to_lock accounts bs' a ≡ row_to_lock accounts bs a)
unfolding lock_one
lock_one-succeeds accounts id bs h = elim (Option-cases (find_balance id bs)) [
  | inr (r, e) ↦ (bs, ground arith, λ a. refl)
  | inl e ↦ elim (Option-cases (account_kind id accounts)) [
    | inl n ↦ absurd (h n)
    | inr (kind, k) ↦ (
      bs ++ (id, fresh_row kind) ∷ [],
      ground arith,
      λ a. row_to_lock-append accounts a id kind bs k e,
    )
  ]
]

lock_balances-succeeds :
    (accounts : List Account) (ids : List ℕ) (bs : Balances)
    → ((a : ℕ) → contains a ids ≡ true → account_kind a accounts ≢ none)
    → (bs' : Balances) × (lock_balances accounts ids bs ≡ ok bs')
      × ((a : ℕ) → row_to_lock accounts bs' a ≡ row_to_lock accounts bs a)
unfolding lock_balances
lock_balances-succeeds accounts [] bs h = (bs, refl, λ a. refl)
lock_balances-succeeds accounts (id ∷ ids) bs h =
    let (b, one, rows) = lock_one-succeeds accounts id bs (h id (ground arith)) in
    let (bs', rest, rows') = lock_balances-succeeds accounts ids b (λ a m. h a (ground arith)) in
    (bs', ground (arith, one, rest), λ a. rows' a ∙ rows a)

check_deltas-succeeds :
    (locked : Balances) (ds : Deltas)
    → OneEach ds
    → ((a : ℕ) → has_key a ds ≡ true → find_balance a locked ≢ none)
    → ((a : ℕ) (row : LockedBalance)
        → has_key a ds ≡ true
        → find_balance a locked ≡ some row
        → is_user_kind row.kind ≡ true
        → pos 0 ≤ℤ row.balance +ℤ delta_sum a ds)
    → check_deltas locked ds ≡ ok tt
unfolding check_deltas check_delta delta_sum if_ℤ
check_deltas-succeeds locked [] one rows pays = refl
check_deltas-succeeds locked ((k, d) ∷ rest) one rows pays =
    let others =
      check_deltas-succeeds locked rest one.1 (λ a m. rows a (ground arith))
        (λ a row m f u. elim (Bool-cases (k == a)) [
          | inl same ↦
              let eq : k ≡ a = (==_iff k a).0 same in
              absurd (false≢true (sym one.0 ∙ ap (λ (x : ℕ). has_key x rest) eq ∙ m))
          | inr other ↦ grind (int_laws, other, pays a row (ground arith) f u)
        ]) in
    elim (Option-cases (find_balance k locked)) [
      | inl n ↦ absurd (rows k (ground arith) n)
      | inr (row, f) ↦ elim (Bool-cases (is_user_kind row.kind)) [
        | inl u ↦
            let after = pays k row (ground arith) f u in
            grind (int_laws, after, delta_sum-none k rest one.0, others, f, u)
        | inr h ↦ ground arith
      ]
    ]

-- A post of a known kind with a new key and at least one entry, whose accounts all exist and which leaves no
-- account of a player below zero, goes through, before its commit.
pub post-succeeds :
    (db : Db) (q : Request)
    → has_none q.entries ≡ false
    → is_transaction_kind q.kind ≡ true
    → find_transaction q.idempotency_key db.transactions ≡ none
    → ((a : ℕ) → has_account a q.entries ≡ true → account_kind a db.accounts ≢ none)
    → ((a : ℕ) (row : LockedBalance)
        → row_to_lock db.accounts db.balances a ≡ some row
        → is_user_kind row.kind ≡ true
        → pos 0 ≤ℤ row.balance +ℤ amounts a q.entries)
    → (db' : Db) × (post db q ≡ ok (new_transaction db q, db'))
unfolding post post_new deltas_of
post-succeeds db q some_entry known fresh exist pays =
    let (locked, was_locked, rows) =
      lock_balances-succeeds db.accounts (sorted_ids q.entries) db.balances
        (λ a m. exist a (sym (contains-sorted_ids a q.entries) ∙ m)) in
    let checked : check_deltas locked (deltas_of q.entries) ≡ ok tt =
      check_deltas-succeeds locked (deltas_of q.entries) (OneEach-deltas_of q.entries)
        (λ a m.
          lock_balances-row db.accounts a (sorted_ids q.entries) db.balances locked was_locked
            (contains-sorted_ids a q.entries ∙ sym (has_key-entries a [] q.entries) ∙ m))
        (λ a row m f u.
          subst (λ d. pos 0 ≤ℤ row.balance +ℤ d) (sym (delta_sum-deltas_of a q.entries))
            (pays a row (sym (rows a) ∙ row_to_lock-here db.accounts locked a row f) u)) in
    (post_state db q locked, rw (some_entry, known, fresh, was_locked, checked) refl)
