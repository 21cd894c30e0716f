-- ===== src/Payments/Dispatch/Once.antt =====
-- process_one from the message to its outcome, and what a second delivery of the message does
-- (services/payments/payout_worker.py).
use Prim.Native.String.{◌++◌ as append}
use mathlib.Core.Path.{subst}
use text.Mathlib.Text.{◌==◌ as str_eq}
use igame.Common.{
  ℕ, ◌≡◌, refl, ap, sym, ◌∙◌, Bool, true, false, not, Option, some, String, List, if◌then◌else◌,
  Bool-cases, inl, inr,
}
use igame.Common.Int.{◌+ℤ◌}
use igame.Common.Result.{Result, ok, err}
use igame.Ledger.Post.{PostError}
use igame.Ledger.Wallets.{Side, wallet}
use igame.Payments.{
  Payment, PaymentsDb, status_eq, is_out, processing, succeeded, approved, find_ref, update_payment,
}
use igame.Payments.Payouts.{
  Answer, answered, raised, Outcome, paid, unpaid, in_flight, skipped, escaped, set_status,
  settle_success, reverse_payout, finish, has_method, status_text, finish_payout, is_dispatched,
  begin_payout, dispatch, dispatch_found, process_one,
}
use igame.Payments.Lifecycle.{PaymentsAreWf}
use igame.Payments.Changes.{quiet-PaymentsAreWf}
use igame.Payments.Rows.{find_ref-found, find_ref-updated}
use igame.Payments.Statuses.{status_eq_sound}
use igame.Payments.Dispatch.{
  outcome_status, outcome_change, Dispatched, same_wallet, failed_call, finish_payout-Dispatched,
}

abbrev is_skipped : Outcome → Bool
is_skipped skipped = true
is_skipped _ = false

finish_not_skipped :
    (o : Outcome) (db : PaymentsDb) (r : Result PostError PaymentsDb)
    → is_skipped o ≡ false
    → is_skipped (finish o db r).0 ≡ false
finish_not_skipped o db (ok db') h = h
finish_not_skipped o db (err e) h = refl

finish_payout_not_skipped :
    (db : PaymentsDb) (p : Payment) (answer : Answer)
    → is_skipped (finish_payout db p answer).0 ≡ false
unfolding finish_payout
finish_payout_not_skipped db p (raised error) =
    finish_not_skipped unpaid db (reverse_payout db p error) refl
finish_payout_not_skipped db p (answered status ref) =
    elim (Bool-cases (status_eq status succeeded)) [
      | inl good ↦ rw good (finish_not_skipped paid db (settle_success db p ref) refl)
      | inr bad ↦ elim (Bool-cases (status_eq status processing)) [
        | inl running ↦ rw (bad, running) refl
        | inr other ↦
            rw (bad, other)
              (finish_not_skipped unpaid db
                (reverse_payout db p (append "provider reported status=" (status_text status)))
                refl)
      ]
    ]

-- Only what the call reads of the row counts, which its new status leaves.
pub finish_payout-set_status :
    (db : PaymentsDb) (p : Payment) (now : ℕ) (answer : Answer)
    → finish_payout db (set_status processing now p) answer ≡ finish_payout db p answer
unfolding finish_payout settle_success reverse_payout
finish_payout-set_status db p now (raised error) = refl
finish_payout-set_status db p now (answered status ref) = refl

module _ (db : PaymentsDb) (our_ref : String) (p : Payment) (w : PaymentsAreWf db)
    (found : find_ref our_ref db.payments ≡ some p) (out : is_out p.direction ≡ true) where
  now_processing :
      (ps : List Payment) (o : Outcome) (db' : PaymentsDb)
      → is_skipped o ≡ false
      → Dispatched
          (record db { payments = ps })
          our_ref
          (set_status processing db.ledger.now p)
          o
          db'
      → Dispatched db our_ref p o db'
  now_processing ps paid db' h d = record {
    wf = d.wf;
    moved = d.moved;
    row = d.row;
    found = d.found;
    status = d.status;
  }
  now_processing ps unpaid db' h d = record {
    wf = d.wf;
    moved = d.moved;
    row = d.row;
    found = d.found;
    status = d.status;
  }
  now_processing ps in_flight db' h d = record {
    wf = d.wf;
    moved = d.moved;
    row = d.row;
    found = d.found;
    status = d.status;
  }
  now_processing ps escaped db' h d = record {
    wf = d.wf;
    moved = d.moved;
    row = d.row;
    found = d.found;
    status = d.status;
  }
  now_processing ps skipped db' h d = cc h

  idle-Dispatched : Dispatched db our_ref p skipped db
  idle-Dispatched = record {
    wf = w;
    moved = λ s. same_wallet (wallet db.ledger s);
    row = p;
    found = found;
    status = refl;
  }

  -- What follows the first transaction, from the state that it leaves.
  abbrev after_begin : PaymentsDb → Answer → Bool → Outcome × PaymentsDb
  after_begin db1 answer known = if not known then (escaped, db1) else finish_payout db1 p answer

  from_approved :
      (answer : Answer) (known : Bool)
      → p.status ≡ approved
      → let db1 = record db {
        payments = update_payment (set_status processing db.ledger.now) p.id db.payments;
      } in
        Dispatched db our_ref p (after_begin db1 answer known).0 (after_begin db1 answer known).1
  from_approved answer known e =
      let f = set_status processing db.ledger.now in
      let db1 : PaymentsDb = record db { payments = update_payment f p.id db.payments } in
      let there = find_ref-found our_ref db.payments p w.in_order found in
      let w1 : PaymentsAreWf db1 =
        quiet-PaymentsAreWf db p f db.payouts w there
          (record { id = λ q. refl; our_ref = λ q. refl; amount = λ q. refl }) refl refl
          (rw (out, e) refl) in
      let found1 = find_ref-updated f our_ref db.payments p 1 (λ q. refl) w.in_order found in
      elim known
        as (λ b.
          Dispatched db our_ref p (after_begin db1 answer b).0 (after_begin db1 answer b).1) [
            | false ↦
                now_processing db1.payments escaped db1 refl
                  (failed_call db1 our_ref (f p) w1 found1 out refl)
            | true ↦
                now_processing db1.payments (finish_payout db1 p answer).0
                  (finish_payout db1 p answer).1 (finish_payout_not_skipped db1 p answer)
                  (subst (λ (r : Outcome × PaymentsDb). Dispatched db1 our_ref (f p) r.0 r.1)
                    (finish_payout-set_status db1 p db.ledger.now answer)
                    (finish_payout-Dispatched db1 our_ref (f p) w1 found1 out refl answer))
          ]

  from_processing :
      (answer : Answer) (known : Bool)
      → p.status ≡ processing
      → Dispatched db our_ref p (after_begin db answer known).0 (after_begin db answer known).1
  from_processing answer false e = failed_call db our_ref p w found out e
  from_processing answer true e = finish_payout-Dispatched db our_ref p w found out e answer

  dispatch-Dispatched :
      (provider : String) (answer : Answer)
      → Dispatched db our_ref p (dispatch db provider p answer).0 (dispatch db provider p answer).1
  unfolding dispatch begin_payout
  dispatch-Dispatched provider answer = elim (Bool-cases (str_eq p.provider provider)) [
    | inr other ↦ elim (Bool-cases (is_dispatched p)) [
      | inl ready ↦ rw (ready, other) idle-Dispatched
      | inr idle ↦ rw idle idle-Dispatched
    ]
    | inl own ↦ elim (Bool-cases (status_eq p.status approved)) [
      | inl is_approved ↦
          let e = status_eq_sound p.status approved is_approved in
          rw (is_approved, own) (from_approved answer (has_method p.method_id db) e)
      | inr not_approved ↦ elim (Bool-cases (status_eq p.status processing)) [
        | inl running ↦
            let e = status_eq_sound p.status processing running in
            rw (not_approved, running, own) (from_processing answer (has_method p.method_id db) e)
        | inr idle ↦ rw (not_approved, idle) idle-Dispatched
      ]
    ]
  ]

pub process_one-dispatch :
    (db : PaymentsDb) (provider our_ref : String) (answer : Answer) (p : Payment)
    → find_ref our_ref db.payments ≡ some p
    → process_one db provider our_ref answer ≡ dispatch db provider p answer
unfolding process_one
process_one-dispatch db provider our_ref answer p f =
    ap (λ (o : Option Payment). dispatch_found db provider o answer) f

-- A message that names a withdrawal.
pub process_one-Dispatched :
    (db : PaymentsDb) (provider our_ref : String) (answer : Answer) (p : Payment)
    → PaymentsAreWf db
    → find_ref our_ref db.payments ≡ some p
    → is_out p.direction ≡ true
    → let r = process_one db provider our_ref answer in Dispatched db our_ref p r.0 r.1
process_one-Dispatched db provider our_ref answer p w f out =
    subst (λ (r : Outcome × PaymentsDb). Dispatched db our_ref p r.0 r.1)
      (sym (process_one-dispatch db provider our_ref answer p f))
      (dispatch-Dispatched db our_ref p w f out provider answer)

-- In a well-formed state, each outcome of a message that names a withdrawal says what happened to every wallet:
-- paid, the amount went from the player's user_locked to the house's provider_settlement; unpaid, from his user_locked
-- to his user_cash; with any other outcome no wallet has changed.
pub process_one-wallet :
    (db : PaymentsDb) (provider our_ref : String) (answer : Answer) (p : Payment) (s : Side)
    → PaymentsAreWf db
    → find_ref our_ref db.payments ≡ some p
    → is_out p.direction ≡ true
    → let (outcome, db') = process_one db provider our_ref answer in
      wallet db'.ledger s ≡ wallet db.ledger s +ℤ outcome_change outcome p s
process_one-wallet db provider our_ref answer p s w f out =
    (process_one-Dispatched db provider our_ref answer p w f out).moved s

abbrev pub has_ended : Outcome → Bool
has_ended paid = true
has_ended unpaid = true
has_ended _ = false

ended_is_idle :
    (o : Outcome) (p q : Payment)
    → has_ended o ≡ true
    → q.status ≡ outcome_status o p
    → is_dispatched q ≡ false
ended_is_idle paid p q h e = rw e refl
ended_is_idle unpaid p q h e = rw e refl
ended_is_idle in_flight p q h e = cc h
ended_is_idle skipped p q h e = cc h
ended_is_idle escaped p q h e = cc h

dispatch-idle :
    (db : PaymentsDb) (provider : String) (p : Payment) (answer : Answer)
    → is_dispatched p ≡ false
    → dispatch db provider p answer ≡ (skipped, db)
unfolding dispatch
dispatch-idle db provider p answer h = rw h refl

-- A second delivery of a message does nothing once a first one has paid the withdrawal out or given it
-- back.
pub process_one-process_one :
    (db : PaymentsDb) (provider our_ref : String) (answer again : Answer) (p : Payment)
    → PaymentsAreWf db
    → find_ref our_ref db.payments ≡ some p
    → is_out p.direction ≡ true
    → has_ended (process_one db provider our_ref answer).0 ≡ true
    → let db' = (process_one db provider our_ref answer).1 in
      process_one db' provider our_ref again ≡ (skipped, db')
process_one-process_one db provider our_ref answer again p w f out h =
    let (outcome, db') = process_one db provider our_ref answer in
    let d = process_one-Dispatched db provider our_ref answer p w f out in
    process_one-dispatch db' provider our_ref again d.row d.found
    ∙ dispatch-idle db' provider d.row again (ended_is_idle outcome p d.row h d.status)
