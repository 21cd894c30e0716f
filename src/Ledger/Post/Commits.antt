-- ===== src/Ledger/Post/Commits.antt =====
-- When a transaction that makes one post commits (packages/core/ledger.py, and the constraints of its tables).
use mathlib.Core.Path.{subst}
use igame.Common.{
  ℕ, ◌+◌, ◌≡◌, ◌≢◌, refl, ap, sym, ◌∙◌, true, false, none, some, List, [], ◌∷◌, ◌++◌, arith, ◌==◌,
  drop, length,
}
use igame.Common.Int.{pos, ◌+ℤ◌, ◌≤ℤ◌, int_laws}
use igame.Common.Result.{ok}
use igame.Ledger.Base.{Entry, EntryRow, LockedBalance, Db, is_user_kind}
use igame.Ledger.Balances.{amounts, if_ℤ}
use igame.Ledger.Post.{
  Request, entry_rows, new_transaction, find_transaction, account_kind, post, post_new, commit_post,
  has_none, is_transaction_kind, check_totals, transaction_total, stamp,
}
use igame.Ledger.Post.State.{post_new-Posted}
use igame.Ledger.Post.Balanced.{
  sum_amounts, transaction_total-append, transaction_total-rows, drop-append,
}
use igame.Ledger.Post.Sound.{IsSound}
use igame.Ledger.Post.Succeeds.{row_to_lock, has_account, post-succeeds}

checks_pass :
    (all : List EntryRow) (t at_ : ℕ) (es : List Entry)
    → transaction_total t all ≡ pos 0
    → check_totals all (entry_rows t at_ es) ≡ ok tt
unfolding check_totals entry_rows
checks_pass all t at_ [] h = refl
checks_pass all t at_ (e ∷ es) h = rw (h, checks_pass all t at_ es h) refl

module _ (db : Db) (q : Request) (sound : IsSound db) (zero : sum_amounts q.entries ≡ pos 0) where
  total_is_zero :
      let t = length db.transactions + 1 in
      transaction_total t (db.entries ++ entry_rows t (stamp q.created_at db.now) q.entries) ≡ pos 0
  unfolding if_ℤ
  total_is_zero =
      let t = length db.transactions + 1 in
      let at_ = stamp q.created_at db.now in
      let own : (t == t) ≡ true = ground arith in
      let added : transaction_total t (entry_rows t at_ q.entries) ≡ pos 0 =
        transaction_total-rows t t at_ q.entries ∙ (rw (own, zero) refl) in
      transaction_total-append t db.entries (entry_rows t at_ q.entries)
      ∙ (rw (sound.balanced t, added) (grind int_laws))

  state_checks :
      (rows : List EntryRow)
      → rows
        ≡ db.entries
          ++ entry_rows (length db.transactions + 1) (stamp q.created_at db.now) q.entries
      → check_totals rows (drop (length db.entries) rows) ≡ ok tt
  state_checks rows e =
      let t = length db.transactions + 1 in
      let at_ = stamp q.created_at db.now in
      let added = entry_rows t at_ q.entries in
      subst (λ (r : List EntryRow). check_totals r (drop (length db.entries) r) ≡ ok tt) (sym e)
        (ap (check_totals (db.entries ++ added)) (drop-append db.entries added)
          ∙ checks_pass (db.entries ++ added) t at_ q.entries total_is_zero)

post_is_new :
    (db : Db) (q : Request)
    → has_none q.entries ≡ false
    → is_transaction_kind q.kind ≡ true
    → find_transaction q.idempotency_key db.transactions ≡ none
    → post db q ≡ post_new db q
unfolding post
post_is_new db q some_entry known fresh = rw (some_entry, known, fresh) refl

pub commit_post-succeeds :
    (db : Db) (q : Request)
    → IsSound db
    → has_none q.entries ≡ false
    → is_transaction_kind q.kind ≡ true
    → find_transaction q.idempotency_key db.transactions ≡ none
    → sum_amounts q.entries ≡ pos 0
    → ((a : ℕ) → has_account a q.entries ≡ true → account_kind a db.accounts ≢ none)
    → ((a : ℕ) (row : LockedBalance)
        → row_to_lock db.accounts db.balances a ≡ some row
        → is_user_kind row.kind ≡ true
        → pos 0 ≤ℤ row.balance +ℤ amounts a q.entries)
    → (db' : Db) × (commit_post db q ≡ ok (new_transaction db q, db'))
unfolding commit_post
commit_post-succeeds db q sound some_entry known fresh zero exist pays =
    let (db', posted) = post-succeeds db q some_entry known fresh exist pays in
    let state =
      (post_new-Posted db q (new_transaction db q) db'
        (sym (post_is_new db q some_entry known fresh) ∙ posted)).state in
    let checked = state_checks db q sound zero db'.entries (ap (λ (d : Db). d.entries) state) in
    (db', rw (posted, checked) refl)
