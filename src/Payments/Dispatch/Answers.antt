-- ===== src/Payments/Dispatch/Answers.antt =====
-- A withdrawal that is to be paid out always comes to the outcome that the provider's answer calls for: its
-- money is there (services/payments/payout_worker.py).
use Prim.Native.String.{◌++◌ as append}
use mathlib.Core.Path.{subst}
use text.Mathlib.Text.{◌==◌ as str_eq}
use igame.Common.{
  ℕ, ◌≡◌, refl, ap, sym, ◌∙◌, true, false, some, String, arith, ◌==◌, if◌then◌else◌, Bool-cases,
  inl, inr,
}
use igame.Common.Int.{ℤ, ◌≤ℤ◌}
use igame.Common.Result.{Result, ok, err}
use igame.Ledger.Post.{is_transaction_kind}
use igame.Ledger.Balances.{if_ℤ}
use igame.Ledger.Post.{PostError}
use igame.Ledger.Wallets.{Side, same_side, side_of, house_side, wallet}
use igame.Ledger.Transfers.Succeeds.{move_money-succeeds}
use igame.Payments.{
  Payment, PaymentsDb, status_eq, is_out, processing, succeeded, failed, approved, find_payment,
  find_ref, update_payment,
}
use igame.Payments.Keys.{Tag, settle, reverse, key_for}
use igame.Payments.Open.{is_open, share, open_total}
use igame.Payments.Positive.{found-positive, share-le-total}
use igame.Payments.Taken.{body_of}
use igame.Payments.Free.{is_end, open-untaken}
use igame.Payments.Payouts.{
  Answer, answered, raised, Outcome, paid, unpaid, in_flight, release, set_status, set_succeeded,
  set_closed, post_and_set, settle_success, reverse_payout, finish, has_method, status_text,
  finish_payout, is_dispatched, begin_payout, dispatch, process_one,
}
use igame.Payments.Lifecycle.{PaymentsAreWf, locked_side, share-open}
use igame.Payments.Changes.{quiet-PaymentsAreWf}
use igame.Payments.Rows.{find_ref-found, find_payment-updated}
use igame.Payments.Statuses.{status_eq_sound}
use igame.Payments.Dispatch.Once.{finish_payout-set_status, process_one-dispatch}

-- The outcome that an answer calls for.
abbrev pub outcome_of : Answer → Outcome
outcome_of (raised error) = unpaid
outcome_of (answered status ref) =
    if status_eq status succeeded
    then paid
    else if status_eq status processing
    then in_flight
    else unpaid

finish-ok :
    (o : Outcome) (db db' : PaymentsDb) (r : Result PostError PaymentsDb)
    → r ≡ ok db'
    → (finish o db r).0 ≡ o
finish-ok o db db' (ok d) h = refl
finish-ok o db db' (err e) h = cc h

module _ (db : PaymentsDb) (p : Payment) (w : PaymentsAreWf db)
    (found : find_payment p.id db.payments ≡ some p) (open_still : is_open p ≡ true) where
  -- The locked wallet covers the withdrawal.
  covered : p.amount ≤ℤ wallet db.ledger (locked_side p.user_id)
  unfolding if_ℤ
  covered =
      let own : (p.user_id == p.user_id) ≡ true = ground arith in
      let mine : share p.user_id p ≡ p.amount = share-open p.user_id p open_still ∙ (rw own refl) in
      subst (λ (x : ℤ). p.amount ≤ℤ x) (sym (w.backed p.user_id))
        (subst (λ (x : ℤ). x ≤ℤ open_total p.user_id db.payments) mine
          (share-le-total p.user_id p.id db.payments p w.positive found))

  release_succeeds :
      (t : Tag) (kind : String) (target : Side) (f : ℕ → Payment → Payment)
      → is_end t ≡ true
      → is_transaction_kind kind ≡ true
      → same_side (locked_side p.user_id) target ≡ false
      → (db' : PaymentsDb) × (post_and_set db p.id
            (release kind (key_for t (body_of t p)) p target)
            f
          ≡ ok db')
  unfolding post_and_set
  release_succeeds t kind target f is_last known apart =
      let m = release kind (key_for t (body_of t p)) p target in
      let fresh =
        w.keys_free t (body_of t p)
          (open-untaken t p.id 1 db.payments p is_last w.in_order w.unique_refs found open_still) in
      let (r, went) =
        move_money-succeeds db.ledger m w.wallets known fresh
          (found-positive p.id db.payments p w.positive found) covered apart in
      (
        record db { ledger = r.1; payments = update_payment (f r.0.id) p.id db.payments },
        rw went refl,
      )

  settles : (ref : String) → (finish paid db (settle_success db p ref)).0 ≡ paid
  unfolding settle_success
  settles ref =
      let (db', went) =
        release_succeeds settle "payout" (house_side "provider_settlement")
          (set_succeeded db.ledger.now (some ref)) refl refl refl in
      finish-ok paid db db' (settle_success db p ref) went

  reverses : (reason : String) → (finish unpaid db (reverse_payout db p reason)).0 ≡ unpaid
  unfolding reverse_payout
  reverses reason =
      let (db', went) =
        release_succeeds reverse "refund" (side_of p.user_id "user_cash")
          (λ txn. set_closed failed reason db.ledger.now) refl refl (ground arith) in
      finish-ok unpaid db db' (reverse_payout db p reason) went

  finish_payout-outcome_of : (answer : Answer) → (finish_payout db p answer).0 ≡ outcome_of answer
  unfolding finish_payout
  finish_payout-outcome_of (raised error) = reverses error
  finish_payout-outcome_of (answered status ref) = elim (Bool-cases (status_eq status succeeded)) [
    | inl good ↦ rw good (settles ref)
    | inr bad ↦ elim (Bool-cases (status_eq status processing)) [
      | inl running ↦ rw (bad, running) refl
      | inr other ↦
          rw (bad, other) (reverses (append "provider reported status=" (status_text status)))
    ]
  ]

module _ (db : PaymentsDb) (our_ref : String) (p : Payment) (answer : Answer) (w : PaymentsAreWf db)
    (found : find_ref our_ref db.payments ≡ some p) (out : is_out p.direction ≡ true) where
  there : find_payment p.id db.payments ≡ some p
  there = find_ref-found our_ref db.payments p w.in_order found

  from_approved :
      p.status ≡ approved
      → (finish_payout
          (record db {
            payments = update_payment (set_status processing db.ledger.now) p.id db.payments;
          })
          p
          answer).0
        ≡ outcome_of answer
  from_approved e =
      let f = set_status processing db.ledger.now in
      let db1 : PaymentsDb = record db { payments = update_payment f p.id db.payments } in
      let w1 : PaymentsAreWf db1 =
        quiet-PaymentsAreWf db p f db.payouts w there
          (record { id = λ q. refl; our_ref = λ q. refl; amount = λ q. refl }) refl refl
          (rw (out, e) refl) in
      ap (λ (r : Outcome × PaymentsDb). r.0)
        (sym (finish_payout-set_status db1 p db.ledger.now answer))
      ∙ finish_payout-outcome_of db1 (f p) w1
          (find_payment-updated f p.id db.payments p (λ q. refl) there) (rw out refl) answer

  dispatch-outcome_of :
      (provider : String)
      → is_dispatched p ≡ true
      → str_eq p.provider provider ≡ true
      → has_method p.method_id db ≡ true
      → (dispatch db provider p answer).0 ≡ outcome_of answer
  unfolding dispatch begin_payout
  dispatch-outcome_of provider ready own known = elim (Bool-cases (status_eq p.status approved)) [
    | inl is_approved ↦
        rw (ready, own, known, is_approved)
          (from_approved (status_eq_sound p.status approved is_approved))
    | inr not_approved ↦
        let running : status_eq p.status processing ≡ true = ground (arith, ready, not_approved) in
        let e = status_eq_sound p.status processing running in
        rw (ready, own, known, not_approved)
          (finish_payout-outcome_of db p w there (rw (out, e) refl) answer)
  ]

-- In a well-formed state, a message that names an approved withdrawal, or one in process, of the worker's
-- provider and with a payment method, comes to the outcome that the provider's answer calls for: the post
-- that pays it out or gives it back never fails.
pub process_one-outcome_of :
    (db : PaymentsDb) (provider our_ref : String) (answer : Answer) (p : Payment)
    → PaymentsAreWf db
    → find_ref our_ref db.payments ≡ some p
    → is_out p.direction ≡ true
    → is_dispatched p ≡ true
    → str_eq p.provider provider ≡ true
    → has_method p.method_id db ≡ true
    → (process_one db provider our_ref answer).0 ≡ outcome_of answer
process_one-outcome_of db provider our_ref answer p w f out ready own known =
    ap (λ (r : Outcome × PaymentsDb). r.0) (process_one-dispatch db provider our_ref answer p f)
    ∙ dispatch-outcome_of db our_ref p answer w f out provider ready own known
