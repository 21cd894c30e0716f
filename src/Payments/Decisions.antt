-- ===== src/Payments/Decisions.antt =====
-- The decisions of an admin on a withdrawal keep the payments well-formed, and what moves money moves it
-- out of the locked wallet (services/admin/queries.py).
use mathlib.Core.Path.{subst}
use igame.Common.{
  ℕ, ◌≡◌, refl, ap, sym, ◌∙◌, Bool, true, false, ◌&&◌, ◌||◌, not, Option, none, some, arith,
  if◌then◌else◌,
}
use igame.Common.Int.{ℤ}
use igame.Payments.{
  Payment, PaymentsDb, PaymentStatus, status_eq, is_out, review, approved, find_payment,
  update_payment,
}
use igame.Payments.Open.{is_open}
use igame.Payments.Withdrawals.{enqueue_payout}
use igame.Payments.Payouts.{set_status}
use igame.Payments.Review.{
  is_manual, guard_row, select_out, approve_row, approve_withdrawal, approve_manual_row, Gate,
  no_op, awaiting_second_approval, proceed, same_admin, two_person_gate, set_first_approval,
  after_gate, approve_manual_withdrawal,
}
use igame.Payments.Lifecycle.{PaymentsAreWf}
use igame.Payments.Changes.{quiet-PaymentsAreWf}
use igame.Payments.Rows.{find_payment-id}
use igame.Payments.Statuses.{status_eq_sound}

-- What the guarded SELECT has found.
pub record Selected (status : PaymentStatus) (id : ℕ) (db : PaymentsDb) (p : Payment) : Type 0 where
  pub number : p.id ≡ id
  pub found : find_payment p.id db.payments ≡ some p
  pub out : is_out p.direction ≡ true
  pub status_is : p.status ≡ status

all_of : (a b c : Bool) → (a && b && c) ≡ true → (a ≡ true) × (c ≡ true)
all_of a b c h = (ground (arith, h), ground (arith, h))

take_if :
    (test : Bool) (q p : Payment)
    → (if test then some q else none) ≡ some p
    → (test ≡ true) × (q ≡ p)
take_if true q p h = (refl, cc h)
take_if false q p h = cc h

guard_row-Selected :
    (test : Payment → Bool) (status : PaymentStatus) (id : ℕ) (db : PaymentsDb) (o : Option Payment)
    (p : Payment)
    → find_payment id db.payments ≡ o
    → guard_row test status o ≡ some p
    → Selected status id db p
guard_row-Selected test status id db none p f h = cc h
guard_row-Selected test status id db (some q) p f h =
    let (passed, same) =
      take_if (is_out q.direction && test q && status_eq q.status status) q p h in
    let f' : find_payment id db.payments ≡ some p = f ∙ ap some same in
    let number = find_payment-id id db.payments p f' in
    let (out, status_is) =
      all_of (is_out q.direction) (test q) (status_eq q.status status) passed in
    record {
      number = number;
      found = ap (λ (n : ℕ). find_payment n db.payments) number ∙ f';
      out = ap (λ (r : Payment). is_out r.direction) (sym same) ∙ out;
      status_is =
          ap (λ (r : Payment). r.status) (sym same) ∙ status_eq_sound q.status status status_is;
    }

pub select_out-Selected :
    (test : Payment → Bool) (status : PaymentStatus) (id : ℕ) (db : PaymentsDb) (p : Payment)
    → select_out test status id db ≡ some p
    → Selected status id db p
unfolding select_out
select_out-Selected test status id db p h =
    guard_row-Selected test status id db (find_payment id db.payments) p refl h

pub Selected-open :
    {id : ℕ} {db : PaymentsDb} {p : Payment} (status : PaymentStatus)
    → status_eq status review || status_eq status approved ≡ true
    → Selected status id db p
    → is_open p ≡ true
Selected-open status h s = rw (s.out, s.status_is) (ground (arith, h))

approve_row-PaymentsAreWf :
    (db : PaymentsDb) (id : ℕ) (o : Option Payment)
    → PaymentsAreWf db
    → ((p : Payment) → o ≡ some p → Selected review id db p)
    → PaymentsAreWf (approve_row db id o).1
approve_row-PaymentsAreWf db id none w s = w
approve_row-PaymentsAreWf db id (some p) w s =
    let sel = s p refl in
    subst
      (λ (n : ℕ). PaymentsAreWf (
        enqueue_payout p.our_ref id (record db {
          payments = update_payment (set_status approved db.ledger.now) n db.payments;
        })))
      sel.number
      (quiet-PaymentsAreWf db p (set_status approved db.ledger.now) _ w sel.found
        (record { id = λ q. refl; our_ref = λ q. refl; amount = λ q. refl }) refl refl
        (rw (sel.out, sel.status_is) refl))

pub approve_withdrawal-PaymentsAreWf :
    (db : PaymentsDb) (id : ℕ) → PaymentsAreWf db → PaymentsAreWf (approve_withdrawal db id).1
unfolding approve_withdrawal
approve_withdrawal-PaymentsAreWf db id w =
    approve_row-PaymentsAreWf db id (select_out (λ p. not (is_manual p)) review id db) w
      (select_out-Selected (λ p. not (is_manual p)) review id db)

awaiting-PaymentsAreWf :
    (db : PaymentsDb) (admin_id id : ℕ) (p : Payment) (g : Gate)
    → PaymentsAreWf db
    → Selected review id db p
    → PaymentsAreWf (after_gate db admin_id id g).1
awaiting-PaymentsAreWf db admin_id id p awaiting_second_approval w sel =
    subst
      (λ (n : ℕ).
        PaymentsAreWf
          (record db { payments = update_payment (set_first_approval admin_id) n db.payments }))
      sel.number
      (quiet-PaymentsAreWf db p (set_first_approval admin_id) db.payouts w sel.found
        (record { id = λ q. refl; our_ref = λ q. refl; amount = λ q. refl }) refl refl refl)
awaiting-PaymentsAreWf db admin_id id p proceed w sel =
    subst
      (λ (n : ℕ).
        PaymentsAreWf (record db {
          payments = update_payment (set_status approved db.ledger.now) n db.payments;
        }))
      sel.number
      (quiet-PaymentsAreWf db p (set_status approved db.ledger.now) db.payouts w sel.found
        (record { id = λ q. refl; our_ref = λ q. refl; amount = λ q. refl }) refl refl
        (rw (sel.out, sel.status_is) refl))
awaiting-PaymentsAreWf db admin_id id p no_op w sel = w
awaiting-PaymentsAreWf db admin_id id p same_admin w sel = w

approve_manual_row-PaymentsAreWf :
    (db : PaymentsDb) (threshold : ℤ) (admin_id id : ℕ) (o : Option Payment)
    → PaymentsAreWf db
    → ((p : Payment) → o ≡ some p → Selected review id db p)
    → PaymentsAreWf (approve_manual_row db threshold admin_id id o).1
approve_manual_row-PaymentsAreWf db threshold admin_id id none w s = w
approve_manual_row-PaymentsAreWf db threshold admin_id id (some p) w s =
    awaiting-PaymentsAreWf db admin_id id p (two_person_gate threshold admin_id p) w (s p refl)

pub approve_manual_withdrawal-PaymentsAreWf :
    (db : PaymentsDb) (threshold : ℤ) (admin_id id : ℕ)
    → PaymentsAreWf db
    → PaymentsAreWf (approve_manual_withdrawal db threshold admin_id id).1
unfolding approve_manual_withdrawal
approve_manual_withdrawal-PaymentsAreWf db threshold admin_id id w =
    approve_manual_row-PaymentsAreWf db threshold admin_id id (select_out is_manual review id db) w
      (select_out-Selected is_manual review id db)
