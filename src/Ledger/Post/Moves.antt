-- ===== src/Ledger/Post/Moves.antt =====
-- What a committed post does to every balance of the ledger.
use mathlib.Core.Path.{subst}
use igame.Common.{not, ℕ, ◌≡◌, ap, sym, ◌∙◌, none, length, drop}
use igame.Common.Int.{◌+ℤ◌}
use igame.Common.Result.{ok, raise_if, >>=-eq-ok, >>-eq-ok, ok-injective}
use igame.Ledger.Base.{LedgerTransaction, Db, balance, entry_sum}
use igame.Ledger.Balances.{amounts, entry_sum-rows}
use igame.Ledger.Post.{
  is_transaction_kind, unknown_kind, PostError, Request, post, has_none, find_transaction,
  check_totals, commit_post, new_transaction, stamp,
}
use igame.Ledger.Post.State.{Posted, post_new-Posted}
use igame.Ledger.Post.Sound.{IsSound, commit_post-IsSound}

post-fresh :
    (db : Db) (q : Request) (t : LedgerTransaction) (db' : Db)
    → find_transaction q.idempotency_key db.transactions ≡ none
    → post db q ≡ ok (t, db')
    → Posted db q db'
unfolding post
post-fresh db q t db' fresh h =
    let (some_entry, rest) = >>-eq-ok (raise_if (has_none q.entries) PostError.no_entries) _ h in
    let (known, rest) =
      >>-eq-ok (raise_if (not (is_transaction_kind q.kind)) (unknown_kind q.kind)) _ rest in
    post_new-Posted db q t db' (rw fresh at rest)

-- What a commit with a new key leaves.
pub commit_post-Posted :
    (db : Db) (q : Request) {t : LedgerTransaction} {db' : Db}
    → find_transaction q.idempotency_key db.transactions ≡ none
    → commit_post db q ≡ ok (t, db')
    → Posted db q db'
unfolding commit_post
commit_post-Posted db q {t} {db'} fresh h =
    let ((u, db''), posted, rest) = >>=-eq-ok (post db q) _ h in
    let (checked, same) =
      >>-eq-ok (check_totals db''.entries (drop (length db.entries) db''.entries)) _ rest in
    subst (Posted db q)
      (ap (λ (r : LedgerTransaction × Db). r.1) (ok-injective {E = PostError} same))
      (post-fresh db q u db'' fresh posted)

-- A committed post with a new key changes the balance of every account of a sound ledger by exactly
-- what its entries say for that account.
pub commit_post-balance :
    (db : Db) (q : Request) {t : LedgerTransaction} {db' : Db} (a : ℕ)
    → IsSound db
    → find_transaction q.idempotency_key db.transactions ≡ none
    → commit_post db q ≡ ok (t, db')
    → balance db' a ≡ balance db a +ℤ amounts a q.entries
commit_post-balance db q {t} {db'} a sound fresh h =
    let after = commit_post-IsSound db q sound h in
    let new = commit_post-Posted db q fresh h in
    after.reconciled a
    ∙ ap (λ (d : Db). entry_sum a d.entries) new.state
    ∙ entry_sum-rows a (new_transaction db q).id (stamp q.created_at db.now) db.entries q.entries
    ∙ ap (λ x. x +ℤ amounts a q.entries) (sym (sound.reconciled a))
