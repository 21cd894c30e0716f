-- ===== src/Ledger/Transfers/Succeeds.antt =====
-- When a transfer goes through: a new key, an amount that is not negative, and enough in the wallet of the
-- source (packages/core/ledger.py).
use mathlib.Core.Path.{subst}
use text.Mathlib.Text.{◌==◌ as str_eq}
use igame.Common.{
  ℕ, ◌≡◌, ◌≢◌, refl, ap, sym, ◌∙◌, true, false, ◌&&◌, none, some, String, List, [], ◌∷◌, arith,
  ◌==◌, Bool-cases, Option-cases, inl, inr,
}
use igame.Common.Int.{ℤ, pos, neg, ◌+ℤ◌, ◌≤ℤ◌, int_laws}
use igame.Common.Result.{ok}
use igame.Ledger.Base.{
  Account, LedgerTransaction, LockedBalance, Db, is_user_kind, find_balance, balance, opt_eq,
  find_account,
}
use igame.Ledger.Balances.{amounts, if_ℤ}
use igame.Ledger.Post.Commits.{commit_post-succeeds}
use igame.Ledger.Post.Balanced.{sum_amounts}
use igame.Ledger.Post.{
  is_transaction_kind, Request, new_transaction, find_transaction, account_kind, commit_post,
}
use igame.Ledger.Post.Solvency.{SolventRow}
use igame.Ledger.Post.Sound.{IsSound}
use igame.Ledger.Post.Succeeds.{row_to_lock, has_account}
use igame.Ledger.Wallets.{
  Side, same_side, find_side, wallet, WalletsAreWf, find_side-same, open_side, open_side-Opened,
}
use igame.Ledger.Transfers.{Move, move_request, move_money, IsNew}

-- An account that is found has a kind.
found-kind :
    (s : Side) (accounts : List Account) (a : Account)
    → find_side s accounts ≡ some a
    → account_kind a.id accounts ≢ none
unfolding find_account account_kind
found-kind s [] a f n = cc
found-kind s (x ∷ rest) a f n =
    elim (Bool-cases
      (opt_eq x.user_id s.user_id && str_eq x.kind s.kind && str_eq x.currency "ETB")) [
        | inl hit ↦
            let same : x ≡ a = ground (arith, hit, f) in
            let own : (x.id == a.id) ≡ true = ground (arith, ap (λ (y : Account). y.id) same) in
            absurd (kind_there (rw own at n))
        | inr miss ↦ elim (Bool-cases (x.id == a.id)) [
          | inl own ↦ absurd (kind_there (rw own at n))
          | inr other ↦ found-kind s rest a (rw miss at f) (rw other at n)
        ]
      ]
  where
    kind_there : {k : String} → some k ≡ none → ⊥
    kind_there h = cc h

same_row : {r row : LockedBalance} → some r ≡ some row → r ≡ row
same_row h = cc h

no_row : {row : LockedBalance} → none ≡ some row → ⊥
no_row h = cc h

-- The row that a post locks holds the balance, and that of a player is not below zero.
locked_balance :
    (db : Db) (a : ℕ) (row : LockedBalance)
    → row_to_lock db.accounts db.balances a ≡ some row
    → row.balance ≡ balance db a
unfolding row_to_lock balance
locked_balance db a row h = elim (Option-cases (find_balance a db.balances)) [
  | inr (r, f) ↦
      rw f (ap (λ (x : LockedBalance). x.balance) (sym (same_row (rw (row_to_lock, f) at h))))
  | inl n ↦
      let made = rw (row_to_lock, n) at h in
      elim (Option-cases (account_kind a db.accounts)) [
        | inl m ↦ absurd (no_row (rw m at made))
        | inr (k, m) ↦ rw n (ap (λ (x : LockedBalance). x.balance) (sym (same_row (rw m at made))))
      ]
]

locked_solvent :
    (db : Db) (a : ℕ) (row : LockedBalance)
    → IsSound db
    → row_to_lock db.accounts db.balances a ≡ some row
    → is_user_kind row.kind ≡ true
    → pos 0 ≤ℤ row.balance
unfolding row_to_lock
locked_solvent db a row sound h u = elim (Option-cases (find_balance a db.balances)) [
  | inr (r, f) ↦
      let same = same_row (rw (row_to_lock, f) at h) in
      subst SolventRow (f ∙ ap some same) (sound.solvent a) u
  | inl n ↦
      let made = rw (row_to_lock, n) at h in
      elim (Option-cases (account_kind a db.accounts)) [
        | inl m ↦ absurd (no_row (rw m at made))
        | inr (k, m) ↦
            let same = ap (λ (x : LockedBalance). x.balance) (same_row (rw m at made)) in
            subst (λ (x : ℤ). pos 0 ≤ℤ x) same (omega arith)
      ]
]

after_taking :
    (x amount : ℤ)
    → amount ≤ℤ x
    → pos 0 ≤ℤ x +ℤ (if_ℤ true (neg amount) +ℤ (if_ℤ false amount +ℤ pos 0))
unfolding if_ℤ
after_taking x amount h = grind (int_laws, h)

after_giving :
    (x amount : ℤ)
    → pos 0 ≤ℤ x
    → pos 0 ≤ℤ amount
    → pos 0 ≤ℤ x +ℤ (if_ℤ false (neg amount) +ℤ (if_ℤ true amount +ℤ pos 0))
unfolding if_ℤ
after_giving x amount h k = grind (int_laws, h, k)

after_nothing :
    (x amount : ℤ)
    → pos 0 ≤ℤ x
    → pos 0 ≤ℤ x +ℤ (if_ℤ false (neg amount) +ℤ (if_ℤ false amount +ℤ pos 0))
unfolding if_ℤ
after_nothing x amount h = grind (int_laws, h)

-- What a transfer needs: it does not take more than the source holds.
module _ (db : Db) (m : Move) (a b : Account) (w : WalletsAreWf db)
    (fresh : IsNew m.idempotency_key db) (from_a : find_side m.source db.accounts ≡ some a)
    (to_b : find_side m.target db.accounts ≡ some b) (not_less : pos 0 ≤ℤ m.amount)
    (enough : m.amount ≤ℤ wallet db m.source) (apart : same_side m.source m.target ≡ false) where
  abbrev q : Request
  q = move_request m a.id b.id

  sides_differ : (a.id == b.id) ≡ false
  sides_differ = find_side-same m.source m.target 1 db.accounts a b w.numbered from_a to_b ∙ apart

  source_holds : wallet db m.source ≡ balance db a.id
  unfolding wallet
  source_holds = rw from_a refl

  accounts_exist : (k : ℕ) → has_account k q.entries ≡ true → account_kind k db.accounts ≢ none
  unfolding has_account
  accounts_exist k h = elim (Bool-cases (a.id == k)) [
    | inl hit ↦
        subst (λ (n : ℕ). account_kind n db.accounts ≢ none) (ground (arith, hit))
          (found-kind m.source db.accounts a from_a)
    | inr miss ↦
        subst (λ (n : ℕ). account_kind n db.accounts ≢ none) (ground (arith, h, miss))
          (found-kind m.target db.accounts b to_b)
  ]

  stays_solvent :
      (k : ℕ) (row : LockedBalance)
      → row_to_lock db.accounts db.balances k ≡ some row
      → is_user_kind row.kind ≡ true
      → pos 0 ≤ℤ row.balance +ℤ amounts k q.entries
  unfolding amounts
  stays_solvent k row h u =
      let held = locked_balance db k row h in
      let solvent = locked_solvent db k row w.sound h u in
      elim (Bool-cases (a.id == k)) [
        | inl hit ↦
            let same : balance db a.id ≡ balance db k = ap (balance db) (ground (arith, hit)) in
            let other : (b.id == k) ≡ false = ground (arith, hit, sides_differ) in
            let has : m.amount ≤ℤ row.balance =
              subst (λ (x : ℤ). m.amount ≤ℤ x) (source_holds ∙ same ∙ sym held) enough in
            rw (hit, other) (after_taking row.balance m.amount has)
        | inr miss ↦ elim (Bool-cases (b.id == k)) [
          | inl hit ↦ rw (miss, hit) (after_giving row.balance m.amount solvent not_less)
          | inr other ↦ rw (miss, other) (after_nothing row.balance m.amount solvent)
        ]
      ]

  zero_sum : sum_amounts q.entries ≡ pos 0
  unfolding sum_amounts
  zero_sum = grind int_laws

  transfer-succeeds :
      is_transaction_kind m.kind ≡ true → (r : LedgerTransaction × Db) × (commit_post db q ≡ ok r)
  transfer-succeeds known =
      let (db', posted) =
        commit_post-succeeds db q w.sound refl known fresh zero_sum accounts_exist stays_solvent in
      ((new_transaction db q, db'), posted)

-- A transfer of a known kind under a new key, of an amount that is not negative and that the source holds, to another side,
-- goes through.
pub move_money-succeeds :
    (db : Db) (m : Move)
    → WalletsAreWf db
    → is_transaction_kind m.kind ≡ true
    → IsNew m.idempotency_key db
    → pos 0 ≤ℤ m.amount
    → m.amount ≤ℤ wallet db m.source
    → same_side m.source m.target ≡ false
    → (r : LedgerTransaction × Db) × (move_money db m ≡ ok r)
unfolding move_money
move_money-succeeds db m w known fresh not_less enough apart =
    let first = open_side-Opened db m.source w in
    let db1 = (open_side db m.source).1 in
    let second = open_side-Opened db1 m.target first.wf in
    let ts = second.transactions ∙ first.transactions in
    transfer-succeeds (open_side db1 m.target).1 m (open_side db m.source).0
      (open_side db1 m.target).0 second.wf (ap (find_transaction m.idempotency_key) ts ∙ fresh)
      (second.kept m.source _ first.found) second.found not_less
      (subst (λ (x : ℤ). m.amount ≤ℤ x) (sym (second.same m.source ∙ first.same m.source)) enough)
      apart known
