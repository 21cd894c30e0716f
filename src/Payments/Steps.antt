-- ===== src/Payments/Steps.antt =====
-- A run of the withdrawals: requests of players, messages to the worker, decisions of admins and the sweep
-- of stuck payouts, in any order (services/payments and services/admin/queries.py).
use mathlib.Core.Path.{subst}
use igame.Common.{ℕ, ◌≤◌, ◌≡◌, sym, Bool, true, Option, none, some, String}
use igame.Ledger.{balance}
use igame.Common.Int.{ℤ}
use igame.Common.Result.{ok}
use igame.Ledger.Wallets.{wallet}
use igame.Payments.{Payment, PaymentsDb, is_out, find_ref}
use igame.Payments.Open.{open_total}
use igame.Payments.Withdrawals.{Policy, Ask, request_withdrawal, sweep_stuck_approved_payouts}
use igame.Payments.Payouts.{Answer, dispatch_found, process_one}
use igame.Payments.Review.{
  approve_withdrawal, reject_withdrawal, approve_manual_withdrawal, settle_manual_withdrawal,
  fail_manual_withdrawal,
}
use igame.Payments.Lifecycle.{PaymentsAreWf, locked_side}
use igame.Payments.Requests.{request_withdrawal-Requested}
use igame.Payments.Dispatch.Once.{process_one-Dispatched}
use igame.Payments.Decisions.{
  approve_withdrawal-PaymentsAreWf, approve_manual_withdrawal-PaymentsAreWf,
}
use igame.Payments.Ends.{
  Decided-PaymentsAreWf, reject_withdrawal-Decided, fail_manual_withdrawal-Decided,
  settle_manual_withdrawal-Decided,
}

-- One call that has come to its end. A call that raises leaves the state as it was.
pub data Step (db : PaymentsDb) : PaymentsDb → Type 0 where
  requested :
      {db' : PaymentsDb} (policy : Policy) (ask : Ask) (p : Payment)
      → request_withdrawal policy ask db ≡ ok (p, db')
      → Step db db'
  dispatched :
      (provider our_ref : String) (answer : Answer) (p : Payment)
      → find_ref our_ref db.payments ≡ some p
      → is_out p.direction ≡ true
      → Step db (process_one db provider our_ref answer).1
  approved_by_admin : (id : ℕ) → Step db (approve_withdrawal db id).1
  rejected_by_admin :
      {db' : PaymentsDb} (id : ℕ) (reason : String) (b : Bool)
      → reject_withdrawal db id reason ≡ ok (b, db')
      → Step db db'
  approved_manually :
      (threshold : ℤ) (admin_id id : ℕ)
      → Step db (approve_manual_withdrawal db threshold admin_id id).1
  settled_manually :
      {db' : PaymentsDb} (id : ℕ) (external_reference : String) (b : Bool)
      → settle_manual_withdrawal db id external_reference ≡ ok (b, db')
      → Step db db'
  failed_manually :
      {db' : PaymentsDb} (id : ℕ) (reason : String) (b : Bool)
      → fail_manual_withdrawal db id reason ≡ ok (b, db')
      → Step db db'
  -- A message that names no payment.
  dispatched_unknown :
      (provider our_ref : String) (answer : Answer)
      → find_ref our_ref db.payments ≡ none
      → Step db (process_one db provider our_ref answer).1
  -- Time passes between the calls.
  time_passed :
      (now year : ℕ)
      → db.ledger.now ≤ now
      → Step db (record db { ledger = record db.ledger { now = now }; year = year })
  swept : (older_than_seconds : ℕ) → Step db (sweep_stuck_approved_payouts older_than_seconds db)

-- Any number of calls, one after the other.
pub data Steps (db : PaymentsDb) : PaymentsDb → Type 0 where
  start : Steps db db
  then_step : {db' db'' : PaymentsDb} → Steps db db' → Step db' db'' → Steps db db''

later-PaymentsAreWf :
    {db : PaymentsDb} (now year : ℕ)
    → PaymentsAreWf db
    → PaymentsAreWf (record db { ledger = record db.ledger { now = now }; year = year })
unfolding balance wallet
later-PaymentsAreWf {db} now year w = record {
  wallets = record {
    sound = record {
      keys = w.wallets.sound.keys;
      reconciled = w.wallets.sound.reconciled;
      solvent = w.wallets.sound.solvent;
      balanced = w.wallets.sound.balanced;
      total_zero = w.wallets.sound.total_zero;
    };
    numbered = w.wallets.numbered;
    unused = w.wallets.unused;
  };
  in_order = w.in_order;
  unique_refs = w.unique_refs;
  positive = w.positive;
  backed = w.backed;
  keys_free = w.keys_free;
}

Step-PaymentsAreWf : {db db' : PaymentsDb} → PaymentsAreWf db → Step db db' → PaymentsAreWf db'
unfolding sweep_stuck_approved_payouts process_one
Step-PaymentsAreWf {db} w (requested policy ask p h) =
    (request_withdrawal-Requested policy ask db w h).wf
Step-PaymentsAreWf {db} w (dispatched provider our_ref answer p f out) =
    (process_one-Dispatched db provider our_ref answer p w f out).wf
Step-PaymentsAreWf {db} w (approved_by_admin id) = approve_withdrawal-PaymentsAreWf db id w
Step-PaymentsAreWf {db} w (rejected_by_admin id reason b h) =
    Decided-PaymentsAreWf w (reject_withdrawal-Decided db id w reason h)
Step-PaymentsAreWf {db} w (approved_manually threshold admin_id id) =
    approve_manual_withdrawal-PaymentsAreWf db threshold admin_id id w
Step-PaymentsAreWf {db} w (settled_manually id ref b h) =
    Decided-PaymentsAreWf w (settle_manual_withdrawal-Decided db id w ref h)
Step-PaymentsAreWf {db} w (failed_manually id reason b h) =
    Decided-PaymentsAreWf w (fail_manual_withdrawal-Decided db id w reason h)
Step-PaymentsAreWf {db} w (dispatched_unknown provider our_ref answer none_there) =
    subst (λ (r : Option Payment). PaymentsAreWf (dispatch_found db provider r answer).1)
      (sym none_there) w
Step-PaymentsAreWf {db} w (time_passed now year later) = later-PaymentsAreWf now year w
Step-PaymentsAreWf {db} w (swept older_than_seconds) = record {
  wallets = w.wallets;
  in_order = w.in_order;
  unique_refs = w.unique_refs;
  positive = w.positive;
  backed = w.backed;
  keys_free = w.keys_free;
}

steps-PaymentsAreWf : {db db' : PaymentsDb} → PaymentsAreWf db → Steps db db' → PaymentsAreWf db'
steps-PaymentsAreWf w start = w
steps-PaymentsAreWf w (then_step before last) =
    Step-PaymentsAreWf (steps-PaymentsAreWf w before) last

-- After any number of calls, with time passing between them, the locked wallet of each player holds what his open withdrawals add up to.
pub steps-wallet :
    {db db' : PaymentsDb} (u : ℕ)
    → PaymentsAreWf db
    → Steps db db'
    → wallet db'.ledger (locked_side u) ≡ open_total u db'.payments
steps-wallet u w run = (steps-PaymentsAreWf w run).backed u
