-- ===== src/Round/Stakes.antt =====
-- What the stake of a join does to the ledger (services/engine/round_engine.py).
use mathlib.Core.Bool.{false≢true}
use igame.Common.{
  ℕ, ◌≡◌, ap, sym, ◌∙◌, Bool, true, Option, none, some, String, List, arith, ◌==◌, Option-cases,
  inl, inr,
}
use igame.Common.Int.{pos, neg, ◌+ℤ◌}
use igame.Common.Result.{Result, ok, err, ok-injective}
use igame.Ledger.{Account, LedgerTransaction, balance, find_account, get_or_create_account}
use igame.Ledger as L
use igame.Ledger.Balances.{amounts, if_ℤ}
use igame.Ledger.Post.{
  PostError, no_entries, unknown_kind, idempotency_key_conflict, no_such_account,
  insufficient_funds, unbalanced, Request, find_transaction, commit_post,
}
use igame.Ledger.Post.Sound.{IsSound, commit_post-IsSound}
use igame.Ledger.Post.Moves.{commit_post-balance}
use igame.Round.{RoomConfig, Engine}
use igame.Round.Join.{Tables, JoinResult, key_of, transfer, finish_join, both_accounts, post_stake}

IsSound-accounts :
    (accounts : List Account) (db : L.Db) → IsSound db → IsSound (record db { accounts = accounts })
unfolding balance
IsSound-accounts accounts db s = record {
  keys = s.keys;
  reconciled = s.reconciled;
  solvent = s.solvent;
  balanced = s.balanced;
  total_zero = s.total_zero;
}

-- Making an account changes the table of accounts only.
created :
    (db : L.Db) (user : Option ℕ) (kind currency : String)
    → (accounts : List Account) × ((get_or_create_account db user kind currency).1
        ≡ record db { accounts = accounts })
unfolding get_or_create_account
created db user kind currency = elim (Option-cases (find_account user kind currency db.accounts)) [
  | inl e ↦ ((get_or_create_account db user kind currency).1.accounts, ground arith)
  | inr (a, e) ↦ (db.accounts, ground arith)
]

both_created :
    (db : L.Db) (u : ℕ)
    → (accounts : List Account) × ((both_accounts db u).2 ≡ record db { accounts = accounts })
unfolding both_accounts
both_created db u =
    let first = created db (some u) "user_cash" "ETB" in
    let second =
      created (get_or_create_account db (some u) "user_cash" "ETB").1 none "pot_escrow" "ETB" in
    (second.0, second.1 ∙ ap (λ (d : L.Db). record d { accounts = second.0 }) first.1)

accepted-committed :
    (room : RoomConfig) (engine : Engine) (t : Tables) (u c : ℕ) (auto : Bool)
    (r : Result PostError (LedgerTransaction × L.Db)) (result : JoinResult) (engine' : Engine)
    (t' : Tables)
    → finish_join room engine t u c auto r ≡ ok (result, engine', t')
    → result.accepted ≡ true
    → (txn : LedgerTransaction) × (r ≡ ok (txn, t'.ledger))
unfolding finish_join
accepted-committed room engine t u c auto (ok (txn, ledger)) result engine' t' e p = (
  txn,
  ap (λ (d : L.Db). ok (txn, d))
      (ap (λ (x : JoinResult × Engine × Tables). x.2.ledger) (ok-injective {E = PostError} e)),
)
accepted-committed room engine t u c auto (err no_entries) result engine' t' e p = cc
accepted-committed room engine t u c auto (err (unknown_kind _)) result engine' t' e p = cc
accepted-committed room engine t u c auto (err (idempotency_key_conflict _ _ _)) result engine' t' e
      p =
    cc
accepted-committed room engine t u c auto (err (no_such_account _)) result engine' t' e p = cc
accepted-committed room engine t u c auto (err (insufficient_funds _ _)) result engine' t' e p =
    absurd (
      false≢true (
        ap (λ (x : JoinResult × Engine × Tables). x.0.accepted) (ok-injective {E = PostError} e)
        ∙ p))
accepted-committed room engine t u c auto (err (unbalanced _)) result engine' t' e p = cc

-- An accepted stake with a key that is new keeps a sound ledger sound, and moves exactly the stake of
-- the room from the cash account of the player to the account of the pot.
post_stake-moves :
    (room : RoomConfig) (engine : Engine) (t : Tables) (u c : ℕ) (auto : Bool) {result : JoinResult}
    {engine' : Engine} {t' : Tables}
    → IsSound t.ledger
    → find_transaction (key_of "stake" engine.round_id u c) t.ledger.transactions ≡ none
    → post_stake room engine t u c auto ≡ ok (result, engine', t')
    → result.accepted ≡ true
    → IsSound t'.ledger
      × ((a : ℕ)
          → balance t'.ledger a
            ≡ balance t.ledger a
              +ℤ (if_ℤ ((both_accounts t.ledger u).0 == a) (neg room.stake)
                  +ℤ (if_ℤ ((both_accounts t.ledger u).1 == a) room.stake +ℤ pos 0)))
unfolding post_stake amounts balance
post_stake-moves room engine t u c auto {result} {engine'} {t'} sound fresh e p =
    let q : Request =
      transfer "stake" (key_of "stake" engine.round_id u c) (both_accounts t.ledger u).0 room.stake
        (both_accounts t.ledger u).1 engine.round_id in
    let (txn, committed) = accepted-committed room engine t u c auto _ result engine' t' e p in
    let (accounts, same) = both_created t.ledger u in
    let with : L.Db = record t.ledger { accounts = accounts } in
    let committed' : commit_post with q ≡ ok (txn, t'.ledger) =
      ap (λ (d : L.Db). commit_post d q) (sym same) ∙ committed in
    let sound' = IsSound-accounts accounts t.ledger sound in
    (
      commit_post-IsSound with q sound' committed',
      λ a. commit_post-balance with q a sound' fresh committed',
    )
