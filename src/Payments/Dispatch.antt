-- ===== src/Payments/Dispatch.antt =====
-- What process_one does to the wallets and to the row, for each of its outcomes
-- (services/payments/payout_worker.py).
pub mod Once
pub mod Answers
use Prim.Native.String.{◌++◌ as append}
use mathlib.Core.Path.{subst}
use text.Mathlib.Text.{◌==◌ as str_eq}
use igame.Common.{
  ℕ, suc, ◌≡◌, refl, ap, sym, ◌∙◌, Bool, true, false, ◌&&◌, ◌||◌, not, Option, none, some, String,
  List, [], ◌∷◌, arith, ◌==◌, if◌then◌else◌, Bool-cases, Option-cases, inl, inr,
}
use igame.Common.Int.{ℤ, pos, neg, ◌+ℤ◌, int_laws}
use igame.Ledger.Balances.{if_ℤ}
use igame.Common.Result.{Result, ok, err}
use igame.Ledger.Post.{PostError}
use igame.Ledger.Wallets.{Side, wallet, same_side, side_of, house_side}
use igame.Ledger.Transfers.{Move, Moved, change}
use igame.Payments.{
  Payment, PaymentsDb, PaymentStatus, status_eq, is_out, pending, processing, succeeded, failed,
  cancelled, review, approved, rejected, find_payment, find_ref, update_payment,
}
use igame.Payments.Keys.{settle, reverse}
use igame.Payments.Open.{is_open}
use igame.Payments.Payouts.{
  Answer, answered, raised, Outcome, paid, unpaid, in_flight, skipped, escaped, to_provider,
  to_player, settle_key, reverse_key, set_status, set_succeeded, set_closed, settle_success,
  reverse_payout, finish, has_method, status_text, finish_payout, is_dispatched, begin_payout,
  dispatch, dispatch_found, process_one,
}
use igame.Payments.Lifecycle.{PaymentsAreWf, KeepsRow}
use igame.Payments.Changes.{quiet-PaymentsAreWf}
use igame.Payments.Rows.{find_ref-found, find_ref-updated, find_payment-updated}
use igame.Payments.Settled.{Closed, to_provider-Closed, to_player-Closed}
use igame.Payments.Statuses.{status_eq_sound}

-- What an outcome says of the wallets: the locked amount has gone to the provider, or back to the player.
abbrev pub outcome_change : Outcome → Payment → Side → ℤ
outcome_change paid p s =
    if_ℤ (same_side (side_of p.user_id "user_locked") s) (neg p.amount)
    +ℤ if_ℤ (same_side (house_side "provider_settlement") s) p.amount
outcome_change unpaid p s =
    if_ℤ (same_side (side_of p.user_id "user_locked") s) (neg p.amount)
    +ℤ if_ℤ (same_side (side_of p.user_id "user_cash") s) p.amount
outcome_change in_flight p s = pos 0
outcome_change skipped p s = pos 0
outcome_change escaped p s = pos 0

-- What an outcome says of the status of the row.
abbrev pub outcome_status : Outcome → Payment → PaymentStatus
outcome_status paid p = succeeded
outcome_status unpaid p = failed
outcome_status in_flight p = processing
outcome_status skipped p = p.status
outcome_status escaped p = processing

pub record Dispatched (db : PaymentsDb) (our_ref : String) (p : Payment) (outcome : Outcome)
    (db' : PaymentsDb) : Type 0 where
  pub wf : PaymentsAreWf db'
  pub moved : (s : Side) → wallet db'.ledger s ≡ wallet db.ledger s +ℤ outcome_change outcome p s
  pub row : Payment
  pub found : find_ref our_ref db'.payments ≡ some row
  pub status : row.status ≡ outcome_status outcome p

pub same_wallet : (x : ℤ) → x ≡ x +ℤ pos 0
same_wallet x = grind int_laws

-- The calls that end a payout, for a payment that is being processed.
module _ (db : PaymentsDb) (our_ref : String) (p : Payment) (w : PaymentsAreWf db)
    (found : find_ref our_ref db.payments ≡ some p) (out : is_out p.direction ≡ true)
    (in_process : p.status ≡ processing) where
  open_still : is_open p ≡ true
  open_still = rw (out, in_process) refl

  there : find_payment p.id db.payments ≡ some p
  there = find_ref-found our_ref db.payments p w.in_order found

  pub failed_call : Dispatched db our_ref p escaped db
  failed_call = record {
    wf = w;
    moved = λ s. same_wallet (wallet db.ledger s);
    row = p;
    found = found;
    status = in_process;
  }

  finish_paid :
      (ref : String) (r : Result PostError PaymentsDb)
      → settle_success db p ref ≡ r
      → Dispatched db our_ref p (finish paid db r).0 (finish paid db r).1
  unfolding settle_success
  finish_paid ref (err e) h = failed_call
  finish_paid ref (ok db') h =
      let c = to_provider-Closed db p settle w there open_still refl (some ref) h in
      record {
        wf = c.wf;
        moved = c.ledger.moved;
        row = set_succeeded db.ledger.now (some ref) c.txn p;
        found =
            ap (find_ref our_ref) c.payments
            ∙ find_ref-updated (set_succeeded db.ledger.now (some ref) c.txn) our_ref db.payments p
                1 (λ q. refl) w.in_order found;
        status = refl;
      }

  finish_unpaid :
      (reason : String) (r : Result PostError PaymentsDb)
      → reverse_payout db p reason ≡ r
      → Dispatched db our_ref p (finish unpaid db r).0 (finish unpaid db r).1
  unfolding reverse_payout
  finish_unpaid reason (err e) h = failed_call
  finish_unpaid reason (ok db') h =
      let c = to_player-Closed db p reverse w there open_still refl failed reason refl h in
      record {
        wf = c.wf;
        moved = c.ledger.moved;
        row = set_closed failed reason db.ledger.now p;
        found =
            ap (find_ref our_ref) c.payments
            ∙ find_ref-updated (set_closed failed reason db.ledger.now) our_ref db.payments p 1
                (λ q. refl) w.in_order found;
        status = refl;
      }

  still_in_flight :
      (ref : String)
      → let f = λ (q : Payment). record q { provider_ref = some ref; updated_at = db.ledger.now } in
        Dispatched db our_ref p in_flight
          (record db { payments = update_payment f p.id db.payments })
  still_in_flight ref =
      let f = λ (q : Payment). record q { provider_ref = some ref; updated_at = db.ledger.now } in
      record {
        wf =
            quiet-PaymentsAreWf db p f db.payouts w there
              (record { id = λ q. refl; our_ref = λ q. refl; amount = λ q. refl }) refl refl refl;
        moved = λ s. same_wallet (wallet db.ledger s);
        row = f p;
        found = find_ref-updated f our_ref db.payments p 1 (λ q. refl) w.in_order found;
        status = in_process;
      }

  pub finish_payout-Dispatched :
      (answer : Answer)
      → Dispatched db our_ref p (finish_payout db p answer).0 (finish_payout db p answer).1
  unfolding finish_payout
  finish_payout-Dispatched (raised error) = finish_unpaid error (reverse_payout db p error) refl
  finish_payout-Dispatched (answered status ref) = elim (Bool-cases (status_eq status succeeded)) [
    | inl good ↦ rw good (finish_paid ref (settle_success db p ref) refl)
    | inr bad ↦ elim (Bool-cases (status_eq status processing)) [
      | inl running ↦ rw (bad, running) (still_in_flight ref)
      | inr other ↦
          let reason = append "provider reported status=" (status_text status) in
          rw (bad, other) (finish_unpaid reason (reverse_payout db p reason) refl)
    ]
  ]
