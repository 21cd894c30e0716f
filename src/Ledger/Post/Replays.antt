-- ===== src/Ledger/Post/Replays.antt =====
-- A key that is posted again: `post` returns the first transaction, or refuses, and writes nothing.
use text.Mathlib.Text.{◌==◌ as str_eq}
use text.Mathlib.TextEquality.{eq_iff}
use igame.Common.{
  Bool, not, ℕ, ◌≡◌, refl, ap, sym, ◌∙◌, true, false, Option, none, some, String, List, [], ◌∷◌,
  ◌++◌, arith, if◌then◌else◌, Bool-cases, Option-cases, inl, inr,
}
use igame.Common.Result.{ok, err, raise_if, >>=-eq-ok, >>-eq-ok, ok-injective}
use igame.Ledger.Base.{LedgerTransaction, Db}
use igame.Ledger.Deltas.{deltas_of}
use igame.Ledger.Post.{
  is_transaction_kind, unknown_kind, PostError, idempotency_key_conflict, Request, sorted_ids,
  lock_balances, check_deltas, differs, new_transaction, post_new, post_existing, post, has_none,
  find_transaction, is_conflict,
}

str_eq_refl : (s : String) → str_eq s s ≡ true
str_eq_refl s = (eq_iff s s).1 refl

find-new :
    (key : String) (t : LedgerTransaction) (ts : List LedgerTransaction)
    → t.idempotency_key ≡ key
    → find_transaction key ts ≡ none
    → find_transaction key (ts ++ t ∷ []) ≡ some t
unfolding find_transaction
find-new key t [] h e = rw (h, str_eq_refl key) refl
find-new key t (u ∷ ts) h e = ground (arith, find-new key t ts h)

differs-same : (a : Option ℕ) → differs a a ≡ false
differs-same none = refl
differs-same (some a) = ground arith

is_conflict-same : (db : Db) (q : Request) → is_conflict (new_transaction db q) q ≡ false
unfolding is_conflict
is_conflict-same db q =
    rw (str_eq_refl q.kind, differs-same q.round_id, differs-same q.payment_id) refl

post_new-result :
    (db : Db) (q : Request) (t : LedgerTransaction) (db' : Db)
    → post_new db q ≡ ok (t, db')
    → (t ≡ new_transaction db q) × (db'.transactions ≡ db.transactions ++ new_transaction db q ∷ [])
unfolding post_new
post_new-result db q t db' h =
    let (locked, e, rest) =
      >>=-eq-ok (lock_balances db.accounts (sorted_ids q.entries) db.balances) _ h in
    let (c, same) = >>-eq-ok (check_deltas locked (deltas_of q.entries)) _ rest in
    let pair = ok-injective same in
    (sym (ap (λ r. r.0) pair), sym (ap (λ (r : LedgerTransaction × Db). r.1.transactions) pair))

post_existing-result :
    (db : Db) (q : Request) (existing t : LedgerTransaction) (db' : Db)
    → post_existing db q existing ≡ ok (t, db')
    → (t ≡ existing) × (db' ≡ db) × (is_conflict t q ≡ false)
unfolding post_existing
post_existing-result db q existing t db' h = elim (Bool-cases (is_conflict existing q)) [
  | inl e ↦ absurd (ground arith)
  | inr e ↦
      let pair : ◌≡◌ {A = LedgerTransaction × Db} (existing, db) (t, db') =
        ok-injective {E = PostError} (ground arith) in
      let same : existing ≡ t = ap (λ r. r.0) pair in
      (
        sym same,
        sym (ap (λ r. r.1) pair),
        ap (λ (u : LedgerTransaction). is_conflict u q) (sym same) ∙ e,
      )
]

not_raised : (e : PostError) (b : Bool) → raise_if b e ≡ ok tt → b ≡ false
not_raised e true h = cc h
not_raised e false h = refl

is_known : (e : PostError) (b : Bool) → raise_if (not b) e ≡ ok tt → b ≡ true
is_known e true h = refl
is_known e false h = cc h

-- After a successful post, its key is taken by what it returned, and the same call finds no conflict.
post-taken :
    (db : Db) (q : Request) (t : LedgerTransaction) (db' : Db)
    → post db q ≡ ok (t, db')
    → (has_none q.entries ≡ false)
      × (is_transaction_kind q.kind ≡ true)
      × (find_transaction q.idempotency_key db'.transactions ≡ some t)
      × (is_conflict t q ≡ false)
unfolding post post_existing
post-taken db q t db' h =
    let (some_entry, rest) = >>-eq-ok (raise_if (has_none q.entries) PostError.no_entries) _ h in
    let (known, rest) =
      >>-eq-ok (raise_if (not (is_transaction_kind q.kind)) (unknown_kind q.kind)) _ rest in
    elim (Option-cases (find_transaction q.idempotency_key db.transactions)) [
      | inl e ↦
          let (same_t, rows) = post_new-result db q t db' (rw e at rest) in
          (
            not_raised PostError.no_entries (has_none q.entries) some_entry,
            is_known (unknown_kind q.kind) (is_transaction_kind q.kind) known,
            ap (find_transaction q.idempotency_key) rows
                ∙ find-new q.idempotency_key (new_transaction db q) db.transactions refl e
                ∙ ap some (sym same_t),
            ap (λ (u : LedgerTransaction). is_conflict u q) same_t ∙ is_conflict-same db q,
          )
      | inr (existing, e) ↦
          let (same_t, same_db, agrees) = post_existing-result db q existing t db' (rw e at rest) in
          let found : find_transaction q.idempotency_key db'.transactions ≡ some t =
            ap (λ (d : Db). find_transaction q.idempotency_key d.transactions) same_db
            ∙ e
            ∙ ap some (sym same_t) in
          (
            not_raised PostError.no_entries (has_none q.entries) some_entry,
            is_known (unknown_kind q.kind) (is_transaction_kind q.kind) known,
            found,
            agrees,
          )
    ]

-- After a successful post, every call with its key changes nothing: it returns the first transaction when
-- kind, round and payment agree with it, and is refused otherwise, for its kind when there is no such kind and
-- with a conflict when there is.
pub post-replays :
    (db : Db) (q : Request) {t : LedgerTransaction} {db' : Db} (again : Request)
    → post db q ≡ ok (t, db')
    → again.idempotency_key ≡ q.idempotency_key
    → has_none again.entries ≡ false
    → post db' again ≡ (
        if not (is_transaction_kind again.kind)
        then err (unknown_kind again.kind)
        else if is_conflict t again
        then err (idempotency_key_conflict again.idempotency_key t.kind again.kind)
        else ok (t, db'))
unfolding post post_existing
post-replays db q {t} {db'} again h key some_entry =
    let (first, known, taken, agrees) = post-taken db q t db' h in
    let found = ap (λ k. find_transaction k db'.transactions) key ∙ taken in
    elim (Bool-cases (is_transaction_kind again.kind)) [
      | inl known ↦ rw (some_entry, known, found) refl
      | inr unknown ↦ rw (some_entry, unknown) refl
    ]

-- The same call made twice gives the same answer, and leaves the ledger as the first one left it.
post-twice :
    (db : Db) (q : Request) {t : LedgerTransaction} {db' : Db}
    → post db q ≡ ok (t, db')
    → post db' q ≡ ok (t, db')
post-twice db q {t} {db'} h =
    let (some_entry, known, taken, agrees) = post-taken db q t db' h in
    post-replays db q q h refl some_entry ∙ (rw (known, agrees) refl)
