-- ===== src/Ledger/Transfers.antt =====
-- A transfer: one post that takes an amount from the wallet of one side to that of another, both made
-- when they are missing (packages/core/ledger.py).
pub mod Succeeds
use mathlib.Core.Path.{subst}
use text.Mathlib.Text.{◌==◌ as str_eq}
use igame.Common.{
  ℕ, ◌<◌, ◌≡◌, refl, ap, sym, ◌∙◌, false, Option, none, some, String, List, [], ◌∷◌, ◌++◌, arith,
  ◌==◌, Option-cases, inl, inr, length,
}
use igame.Common.Int.{ℤ, pos, neg, ◌+ℤ◌, int_laws}
use igame.Common.Result.{Result, ok}
use igame.Ledger.Base.{Account, LedgerTransaction, Db, balance}
use igame.Ledger.Balances.{amounts, if_ℤ}
use igame.Ledger.Post.{PostError, Request, new_transaction, find_transaction, commit_post}
use igame.Ledger.Post.State.{post_state}
use igame.Ledger.Post.Sound.{commit_post-IsSound}
use igame.Ledger.Post.Moves.{commit_post-balance, commit_post-Posted}
use igame.Ledger.Wallets.{
  Side, same_side, find_side, balance_at, wallet, Numbered, find_side-same, WalletsAreWf, open_side,
  other_side-none, find_side-range, open_side-Opened,
}

pub record Move : Type 0 where
  pub kind : String
  pub idempotency_key : String
  pub source : Side
  pub target : Side
  pub amount : ℤ
  pub payment_id : Option ℕ
  pub memo : Option String
  pub created_by : String

abbrev pub move_request : Move → ℕ → ℕ → Request
move_request m source target = record {
  kind = m.kind;
  entries =
      record { account_id = source; amount = neg m.amount }
      ∷ record { account_id = target; amount = m.amount }
      ∷ [];
  idempotency_key = m.idempotency_key;
  round_id = none;
  payment_id = m.payment_id;
  memo = m.memo;
  created_by = m.created_by;
  created_at = none;
}

-- The account of the source is made first.
unfoldable pub move_money : Db → Move → Result PostError (LedgerTransaction × Db)
move_money db m =
    let (source, db') = open_side db m.source in
    let (target, db'') = open_side db' m.target in
    commit_post db'' (move_request m source.id target.id)

-- The account of the target is made first.
unfoldable pub move_back : Db → Move → Result PostError (LedgerTransaction × Db)
move_back db m =
    let (target, db') = open_side db m.target in
    let (source, db'') = open_side db' m.source in
    commit_post db'' (move_request m source.id target.id)

-- What a move does to the wallet of a side.
abbrev pub change : Move → Side → ℤ
change m s = if_ℤ (same_side m.source s) (neg m.amount) +ℤ if_ℤ (same_side m.target s) m.amount

abbrev pub IsNew : String → Db → Type 0
IsNew key db = find_transaction key db.transactions ≡ none

-- What a move leaves: each wallet has changed by what the move says, and no other key is taken.
pub record Moved (db : Db) (m : Move) (db' : Db) : Type 0 where
  pub wf : WalletsAreWf db'
  pub moved : (s : Side) → wallet db' s ≡ wallet db s +ℤ change m s
  pub keys : (k : String) → str_eq m.idempotency_key k ≡ false → IsNew k db → IsNew k db'

find_transaction-append :
    (k : String) (x : LedgerTransaction) (ts : List LedgerTransaction)
    → str_eq x.idempotency_key k ≡ false
    → find_transaction k ts ≡ none
    → find_transaction k (ts ++ x ∷ []) ≡ none
unfolding find_transaction
find_transaction-append k x [] n h = ground arith
find_transaction-append k x (t ∷ ts) n h = ground (arith, find_transaction-append k x ts)

module _ (db : Db) (m : Move) (a b : Account) {t : LedgerTransaction} {db' : Db}
    (w : WalletsAreWf db) (from_a : find_side m.source db.accounts ≡ some a)
    (to_b : find_side m.target db.accounts ≡ some b) (fresh : IsNew m.idempotency_key db)
    (posted : commit_post db (move_request m a.id b.id) ≡ ok (t, db')) where
  state_of_post :
      db'
      ≡ post_state db
          (move_request m a.id b.id)
          (commit_post-Posted db (move_request m a.id b.id) fresh posted).locked
  state_of_post = (commit_post-Posted db (move_request m a.id b.id) fresh posted).state

  accounts-same : db'.accounts ≡ db.accounts
  accounts-same = ap (λ (d : Db). d.accounts) state_of_post

  balance-moved :
      (k : ℕ)
      → balance db' k
        ≡ balance db k +ℤ (if_ℤ (a.id == k) (neg m.amount) +ℤ if_ℤ (b.id == k) m.amount)
  unfolding amounts
  balance-moved k =
      let e = commit_post-balance db (move_request m a.id b.id) k w.sound fresh posted in
      grind (int_laws, e)

  wallet-kept : (s : Side) → wallet db' s ≡ balance_at db' (find_side s db.accounts)
  unfolding wallet
  wallet-kept s =
      ap (λ (accounts : List Account). balance_at db' (find_side s accounts)) accounts-same

  wallet-moved : (s : Side) → wallet db' s ≡ wallet db s +ℤ change m s
  unfolding wallet if_ℤ
  wallet-moved s = elim (Option-cases (find_side s db.accounts)) [
    | inl n ↦
        wallet-kept s
        ∙ (rw
            (
              n,
              other_side-none m.source s db.accounts a from_a n,
              other_side-none m.target s db.accounts b to_b n,
            )
            (omega int_laws))
    | inr (c, f) ↦
        wallet-kept s
        ∙ ap (balance_at db') f
        ∙ balance-moved c.id
        ∙ (rw
            (
              f,
              find_side-same m.source s 1 db.accounts a c w.numbered from_a f,
              find_side-same m.target s 1 db.accounts b c w.numbered to_b f,
            )
            refl)
  ]

  unused-kept : (k : ℕ) → length db'.accounts < k → balance db' k ≡ pos 0
  unfolding if_ℤ
  unused-kept k h =
      let past : length db.accounts < k =
        subst (λ (rows : List Account). length rows < k) accounts-same h in
      let low_a = find_side-range m.source 1 db.accounts a w.numbered from_a in
      let low_b = find_side-range m.target 1 db.accounts b w.numbered to_b in
      let not_a : (a.id == k) ≡ false = ground (arith, low_a, past) in
      let not_b : (b.id == k) ≡ false = ground (arith, low_b, past) in
      balance-moved k ∙ (rw (w.unused k past, not_a, not_b) (omega int_laws))

  pub posted-Moved : Moved db m db'
  posted-Moved = record {
    wf = record {
      sound = commit_post-IsSound db (move_request m a.id b.id) w.sound posted;
      numbered = subst (Numbered 1) (sym accounts-same) w.numbered;
      unused = unused-kept;
    };
    moved = wallet-moved;
    keys = λ k other h.
        subst (λ (ts : List LedgerTransaction). find_transaction k ts ≡ none)
          (sym (ap (λ (d : Db). d.transactions) state_of_post))
          (find_transaction-append k (new_transaction db (move_request m a.id b.id)) db.transactions
            other h);
  }

opened-Moved :
    (db db' db'' : Db) (m : Move)
    → ((s : Side) → wallet db' s ≡ wallet db s)
    → db'.transactions ≡ db.transactions
    → Moved db' m db''
    → Moved db m db''
opened-Moved db db' db'' m same ts h = record {
  wf = h.wf;
  moved = λ s. h.moved s ∙ ap (λ x. x +ℤ change m s) (same s);
  keys = λ k other n. h.keys k other (ap (find_transaction k) ts ∙ n);
}

-- A move with a new key changes the wallets of its two sides by the amount, and no other wallet.
pub move_money-Moved :
    (db : Db) (m : Move) {t : LedgerTransaction} {db' : Db}
    → WalletsAreWf db
    → IsNew m.idempotency_key db
    → move_money db m ≡ ok (t, db')
    → Moved db m db'
unfolding move_money
move_money-Moved db m {t} {db'} w fresh h =
    let first = open_side-Opened db m.source w in
    let db1 = (open_side db m.source).1 in
    let second = open_side-Opened db1 m.target first.wf in
    let ts = second.transactions ∙ first.transactions in
    opened-Moved db _ db' m (λ s. second.same s ∙ first.same s) ts
      (posted-Moved (open_side db1 m.target).1 m (open_side db m.source).0
        (open_side db1 m.target).0 second.wf (second.kept m.source _ first.found) second.found
        (ap (find_transaction m.idempotency_key) ts ∙ fresh) h)

pub move_back-Moved :
    (db : Db) (m : Move) {t : LedgerTransaction} {db' : Db}
    → WalletsAreWf db
    → IsNew m.idempotency_key db
    → move_back db m ≡ ok (t, db')
    → Moved db m db'
unfolding move_back
move_back-Moved db m {t} {db'} w fresh h =
    let first = open_side-Opened db m.target w in
    let db1 = (open_side db m.target).1 in
    let second = open_side-Opened db1 m.source first.wf in
    let ts = second.transactions ∙ first.transactions in
    opened-Moved db _ db' m (λ s. second.same s ∙ first.same s) ts
      (posted-Moved (open_side db1 m.source).1 m (open_side db1 m.source).0
        (open_side db m.target).0 second.wf second.found (second.kept m.target _ first.found)
        (ap (find_transaction m.idempotency_key) ts ∙ fresh) h)
