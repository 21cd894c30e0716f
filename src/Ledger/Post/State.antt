-- ===== src/Ledger/Post/State.antt =====
-- What a post of a new key leaves behind, and what it went through before.
use igame.Common.{◌≡◌, ap, sym, [], ◌∷◌, ◌++◌, length}
use igame.Common.Result.{ok, >>=-eq-ok, >>-eq-ok, ok-injective}
use igame.Ledger.Base.{LedgerTransaction, Balances, Db}
use igame.Ledger.Deltas.{deltas_of, apply_deltas}
use igame.Ledger.Post.{
  Request, sorted_ids, lock_balances, check_deltas, entry_rows, new_transaction, stamp, post_new,
}

abbrev pub post_state : Db → Request → Balances → Db
post_state db q locked =
    let txn = new_transaction db q in
    let rows = db.entries ++ entry_rows txn.id (stamp q.created_at db.now) q.entries in
    record db {
      transactions = db.transactions ++ txn ∷ [];
      entries = rows;
      balances = apply_deltas (length rows) (deltas_of q.entries) locked;
    }

-- What a post of a new key went through.
pub record Posted (db : Db) (q : Request) (db' : Db) : Type 0 where
  pub locked : Balances
  pub was_locked : lock_balances db.accounts (sorted_ids q.entries) db.balances ≡ ok locked
  pub was_checked : check_deltas locked (deltas_of q.entries) ≡ ok tt
  pub state : db' ≡ post_state db q locked

pub post_new-Posted :
    (db : Db) (q : Request) (t : LedgerTransaction) (db' : Db)
    → post_new db q ≡ ok (t, db')
    → Posted db q db'
unfolding post_new
post_new-Posted db q t db' h =
    let (locked, e, rest) =
      >>=-eq-ok (lock_balances db.accounts (sorted_ids q.entries) db.balances) _ h in
    let (c, same) = >>-eq-ok (check_deltas locked (deltas_of q.entries)) _ rest in
    record {
      locked = locked;
      was_locked = e;
      was_checked = c;
      state = sym (ap (λ r. r.1) (ok-injective same));
    }
