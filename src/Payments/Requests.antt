-- ===== src/Payments/Requests.antt =====
-- A request of a withdrawal locks its amount in the wallet of the player (services/payments/withdrawals.py).
use Prim.Native.String.{◌++◌ as append}
use mathlib.Core.Path.{subst}
use text.Mathlib.Text.{◌==◌ as str_eq}
use igame.Common.{
  not, ltb, ℕ, suc, ◌+◌, ◌≡◌, refl, ap, sym, ◌∙◌, Bool, true, false, ◌&&◌, Option, none, some,
  String, List, [], ◌∷◌, ◌++◌, arith, ◌==◌, length, Bool-cases, inl, inr,
}
use igame.Common.Int.{ℤ, ◌≤ℤ◌, pos, ltb_ℤ, neg, ◌+ℤ◌, int_laws}
use igame.Common.Result.{Result, ok, err, ◌>>◌, raise_if, >>=-eq-ok, >>-eq-ok, ok-injective}
use igame.Ledger as L
use igame.Ledger.{LedgerTransaction}
use igame.Ledger.Balances.{if_ℤ}
use igame.Ledger.Post.{
  PostError, no_entries, unknown_kind, idempotency_key_conflict, no_such_account,
  insufficient_funds, unbalanced,
}
use igame.Ledger.Wallets.{Side, same_side, side_of, wallet}
use igame.Ledger.Transfers.{move_money, change, IsNew, Moved, move_money-Moved}
use igame.Payments.{FailedCheck, Payment, PaymentsDb, UserRow, find_user, has_ref}
use igame.Payments.Keys.{
  Tag, settle, reverse, reject, manual_settle, manual_fail, withdrawal, key_for, key_apart,
}
use igame.Payments.Open.{
  is_open, InOrder, UniqueRefs, open_total-append, InOrder-append, UniqueRefs-append,
}
use igame.Payments.Positive.{AllPositive, AllPositive-append}
use igame.Payments.Taken.{or-false, taken_by, taken, taken-append}
use igame.Payments.Lifecycle.{PaymentsAreWf, locked_side, share-open}
use igame.Payments.Reference.{reference, text_of, digits_of, sequence_digits}
use igame.Payments.Withdrawals.{
  WithdrawalRejected, auto_ok, Policy, Ask, lock_move, as_rejected, current_ref, insert_withdrawal,
  post_and_insert, withdraw, withdraw_for, request_withdrawal, new_payment, upsert_method,
  failed_checks, simulated_player_cannot_withdraw, kyc_level_too_low, recent_reversible_deposit,
  unique_violation, check_violation, below_minimum_withdrawal, recent_deposit,
}

taken-withdrawal :
    (b : String) (ps : List Payment) → taken withdrawal b ps ≡ has_ref (key_for withdrawal b) ps
unfolding taken has_ref
taken-withdrawal b [] = refl
taken-withdrawal b (p ∷ ps) = rw (taken-withdrawal b ps) refl

as_rejected-eq-ok : {A : Type 0} (r : Result PostError A) {a : A} → as_rejected r ≡ ok a → r ≡ ok a
as_rejected-eq-ok (ok a) h = ap ok (ok-injective {E = WithdrawalRejected} h)
as_rejected-eq-ok (err (insufficient_funds k x)) h = cc h
as_rejected-eq-ok (err no_entries) h = cc h
as_rejected-eq-ok (err (unknown_kind _)) h = cc h
as_rejected-eq-ok (err (idempotency_key_conflict x y z)) h = cc h
as_rejected-eq-ok (err (no_such_account k)) h = cc h
as_rejected-eq-ok (err (unbalanced x)) h = cc h

pub raise_if-ok : {E : Type 0} (test : Bool) (e : E) → raise_if test e ≡ ok tt → test ≡ false
raise_if-ok true e h = cc h
raise_if-ok false e h = refl

-- The text of the reference after its prefix.
abbrev current_body : PaymentsDb → String
current_body db =
    append (text_of (digits_of (suc db.year) db.year))
      (append "-" (text_of (sequence_digits db.next_ref)))

current_ref-key : (db : PaymentsDb) → current_ref db ≡ key_for withdrawal (current_body db)
unfolding reference
current_ref-key db = refl

new_is_open :
    (policy : Policy) (ask : Ask) (db : PaymentsDb) (ref : String) (method : ℕ)
    (checks : List FailedCheck) (txn : ℕ)
    → is_open (new_payment policy ask db ref method checks txn) ≡ true
new_is_open policy ask db ref method checks txn = elim (Bool-cases (auto_ok policy checks)) [
  | inl automatic ↦ rw automatic refl
  | inr reviewed ↦ rw reviewed refl
]

locked_change :
    (ask : Ask) (ref : String) (u : ℕ)
    → change (lock_move ask ref) (locked_side u) ≡ if_ℤ (ask.user_id == u) ask.amount
unfolding if_ℤ
locked_change ask ref u = elim (Bool-cases (ask.user_id == u)) [
  | inl hit ↦ rw hit (grind int_laws)
  | inr miss ↦ rw miss (grind int_laws)
]

new_key :
    (t : Tag) (b c : String) (p : Payment)
    → p.our_ref ≡ key_for withdrawal c
    → taken_by t b p ≡ false
    → str_eq (key_for withdrawal c) (key_for t b) ≡ false
new_key withdrawal b c p e n = rw e at n
new_key settle b c p e n = key_apart withdrawal settle c b refl
new_key reverse b c p e n = key_apart withdrawal reverse c b refl
new_key reject b c p e n = key_apart withdrawal reject c b refl
new_key manual_settle b c p e n = key_apart withdrawal manual_settle c b refl
new_key manual_fail b c p e n = key_apart withdrawal manual_fail c b refl

-- A new row for what has just been locked.
module _ (db db' : PaymentsDb) (ask : Ask) (p : Payment) (w : PaymentsAreWf db)
    (unused : has_ref (current_ref db) db.payments ≡ false)
    (ledger : Moved db.ledger (lock_move ask (current_ref db)) db'.ledger)
    (payments : db'.payments ≡ db.payments ++ p ∷ []) (id : p.id ≡ 1 + length db.payments)
    (our_ref : p.our_ref ≡ current_ref db) (user_id : p.user_id ≡ ask.user_id)
    (amount : p.amount ≡ ask.amount) (is_locked : is_open p ≡ true)
    (positive : pos 0 ≤ℤ p.amount) where
  appended_keys :
      (t : Tag) (b : String) → taken t b db'.payments ≡ false → IsNew (key_for t b) db'.ledger
  appended_keys t b n =
      let parts =
        or-false (taken t b db.payments) (taken_by t b p)
          (sym (taken-append t b db.payments p) ∙ ap (taken t b) (sym payments) ∙ n) in
      ledger.keys (key_for t b)
        (ap (λ (r : String). str_eq r (key_for t b)) (current_ref-key db)
          ∙ new_key t b (current_body db) p (our_ref ∙ current_ref-key db) parts.1)
        (w.keys_free t b parts.0)

  appended-PaymentsAreWf : PaymentsAreWf db'
  appended-PaymentsAreWf = record {
    wallets = ledger.wf;
    in_order = subst (InOrder 1) (sym payments) (InOrder-append 1 db.payments p w.in_order id);
    unique_refs = subst UniqueRefs (sym payments) (
        UniqueRefs-append db.payments p w.unique_refs
          (ap (λ (r : String). has_ref r db.payments) our_ref ∙ unused));
    positive =
        subst AllPositive (sym payments) (AllPositive-append db.payments p w.positive positive);
    backed = λ u.
        ledger.moved (locked_side u)
        ∙ (rw
            (
              w.backed u,
              locked_change ask (current_ref db) u,
              payments,
              open_total-append u db.payments p,
              share-open u p is_locked,
              user_id,
              amount,
            )
            refl);
    keys_free = appended_keys;
  }

-- What a request that goes through has found and leaves.
pub record Requested (policy : Policy) (ask : Ask) (db : PaymentsDb) (p : Payment)
    (db' : PaymentsDb) : Type 0 where
  pub user : UserRow
  pub found : find_user ask.user_id db.users ≡ some user
  pub ledger : Moved db.ledger (lock_move ask (current_ref db)) db'.ledger
  pub payments : db'.payments ≡ db.payments ++ p ∷ []
  pub wf : PaymentsAreWf db'

not_less_than_zero : (a : ℤ) → not (ltb_ℤ (pos 0) a) ≡ false → pos 0 ≤ℤ a
not_less_than_zero a h = ground (arith, h)

insert_withdrawal_lem :
    (policy : Policy) (ask : Ask) (db : PaymentsDb) (user : UserRow) (txn : LedgerTransaction)
    (ledger : L.Db)
    → let r = insert_withdrawal policy ask db user (txn, ledger) in
      (r.1.ledger ≡ ledger) × (r.1.payments ≡ db.payments ++ r.0 ∷ [])
insert_withdrawal_lem policy ask db user txn ledger =
    elim (Bool-cases (auto_ok policy (failed_checks policy db user ask.amount))) [
      | inl automatic ↦ rw automatic (refl, refl)
      | inr reviewed ↦ rw reviewed (refl, refl)
    ]

module _ (policy : Policy) (ask : Ask) (db : PaymentsDb) (user : UserRow) {p : Payment}
    {db' : PaymentsDb} (w : PaymentsAreWf db)
    (found : find_user ask.user_id db.users ≡ some user) where
  insert-Requested :
      (not_less : pos 0 ≤ℤ ask.amount) (ref_free : has_ref (current_ref db) db.payments ≡ false)
      (txn : LedgerTransaction) (ledger : L.Db)
      → Moved db.ledger (lock_move ask (current_ref db)) ledger
      → insert_withdrawal policy ask db user (txn, ledger) ≡ (p, db')
      → Requested policy ask db p db'
  insert-Requested not_less ref_free txn ledger moved same =
      let row : Payment = (insert_withdrawal policy ask db user (txn, ledger)).0 in
      let is_row : row ≡ p = ap (λ (r : Payment × PaymentsDb). r.0) same in
      let left = ap (λ (r : Payment × PaymentsDb). r.1) same in
      let (books, rows) = insert_withdrawal_lem policy ask db user txn ledger in
      let moved' : Moved db.ledger (lock_move ask (current_ref db)) db'.ledger =
        subst (Moved db.ledger (lock_move ask (current_ref db)))
          (sym books ∙ ap (λ (d : PaymentsDb). d.ledger) left) moved in
      let rows' : db'.payments ≡ db.payments ++ p ∷ [] =
        sym (ap (λ (d : PaymentsDb). d.payments) left)
        ∙ rows
        ∙ ap (λ (q : Payment). db.payments ++ q ∷ []) is_row in
      record {
        user = user;
        found = found;
        ledger = moved';
        payments = rows';
        wf =
            appended-PaymentsAreWf db db' ask p w ref_free moved' rows'
              (sym (ap (λ (q : Payment). q.id) is_row) ∙ omega arith)
              (sym (ap (λ (q : Payment). q.our_ref) is_row))
              (sym (ap (λ (q : Payment). q.user_id) is_row))
              (sym (ap (λ (q : Payment). q.amount) is_row))
              (ap is_open (sym is_row)
                ∙ new_is_open policy ask db (current_ref db)
                    (upsert_method ask (length db.methods + 1) db.methods).0
                    (failed_checks policy db user ask.amount) txn.id)
              (subst (λ (q : Payment). pos 0 ≤ℤ q.amount) is_row not_less);
      }

  post_and_insert-Requested :
      post_and_insert policy ask db user ≡ ok (p, db') → Requested policy ask db p db'
  post_and_insert-Requested h =
      let (posted, ran, rest) =
        >>=-eq-ok (as_rejected (move_money db.ledger (lock_move ask (current_ref db)))) _ h in
      let small = raise_if (not (ltb_ℤ (pos 0) ask.amount)) check_violation in
      let last =
        raise_if (has_ref (current_ref db) db.payments) unique_violation
        >> ok (insert_withdrawal policy ask db user posted) in
      let positive = >>-eq-ok small last rest in
      let (free, same) =
        >>-eq-ok (raise_if (has_ref (current_ref db) db.payments) unique_violation)
          (ok (insert_withdrawal policy ask db user posted)) positive.1 in
      let ref_free = raise_if-ok (has_ref (current_ref db) db.payments) unique_violation free in
      let fresh : IsNew (current_ref db) db.ledger =
        subst (λ (r : String). IsNew r db.ledger) (sym (current_ref-key db))
          (w.keys_free withdrawal (current_body db) (
            taken-withdrawal (current_body db) db.payments
            ∙ ap (λ (r : String). has_ref r db.payments) (sym (current_ref-key db))
            ∙ ref_free)) in
      insert-Requested (not_less_than_zero ask.amount (raise_if-ok _ check_violation positive.0))
        ref_free posted.0 posted.1
        (move_money-Moved db.ledger (lock_move ask (current_ref db)) w.wallets fresh
          (as_rejected-eq-ok _ ran))
        (ok-injective {E = WithdrawalRejected} same)

  withdraw-Requested : withdraw policy ask db user ≡ ok (p, db') → Requested policy ask db p db'
  unfolding withdraw
  withdraw-Requested h =
      let recent =
        raise_if
          (recent_deposit ask.user_id db.ledger.now policy.chargeback_window_minutes db.payments)
          recent_reversible_deposit in
      let kyc =
        raise_if (ltb_ℤ policy.kyc_threshold ask.amount && ltb user.kyc_level 2)
          kyc_level_too_low in
      let after_simulated =
        >>-eq-ok (raise_if user.is_simulated simulated_player_cannot_withdraw)
          (kyc >> (recent >> post_and_insert policy ask db user)) h in
      let after_kyc =
        >>-eq-ok kyc (recent >> post_and_insert policy ask db user) after_simulated.1 in
      let after_recent = >>-eq-ok recent (post_and_insert policy ask db user) after_kyc.1 in
      post_and_insert-Requested after_recent.1

withdraw_for-Requested :
    (policy : Policy) (ask : Ask) (db : PaymentsDb) (who : Option UserRow) {p : Payment}
    {db' : PaymentsDb}
    → PaymentsAreWf db
    → find_user ask.user_id db.users ≡ who
    → withdraw_for policy ask db who ≡ ok (p, db')
    → Requested policy ask db p db'
withdraw_for-Requested policy ask db none w f h = cc h
withdraw_for-Requested policy ask db (some user) w f h = withdraw-Requested policy ask db user w f h

pub request_withdrawal-Requested :
    (policy : Policy) (ask : Ask) (db : PaymentsDb) {p : Payment} {db' : PaymentsDb}
    → PaymentsAreWf db
    → request_withdrawal policy ask db ≡ ok (p, db')
    → Requested policy ask db p db'
unfolding request_withdrawal
request_withdrawal-Requested policy ask db w h =
    let who = find_user ask.user_id db.users in
    let after_minimum =
      >>-eq-ok (raise_if (ltb_ℤ ask.amount policy.min_withdraw) below_minimum_withdrawal)
        (withdraw_for policy ask db who) h in
    withdraw_for-Requested policy ask db who w refl after_minimum.1

-- A request that goes through takes its amount from the cash of the player to his locked wallet, and
-- changes no other wallet.
pub request_withdrawal-wallet :
    (policy : Policy) (ask : Ask) (db : PaymentsDb) (s : Side) {p : Payment} {db' : PaymentsDb}
    → PaymentsAreWf db
    → request_withdrawal policy ask db ≡ ok (p, db')
    → wallet db'.ledger s
      ≡ wallet db.ledger s
        +ℤ (if_ℤ (same_side (side_of ask.user_id "user_cash") s) (neg ask.amount)
            +ℤ if_ℤ (same_side (side_of ask.user_id "user_locked") s) ask.amount)
request_withdrawal-wallet policy ask db s w h =
    (request_withdrawal-Requested policy ask db w h).ledger.moved s
