-- ===== src/Payments/Twice.antt =====
-- A withdrawal ends once: after one decision the others find it in no status that they take
-- (services/admin/queries.py). A large manual withdrawal wants two admins.
use igame.Common.{
  ℕ, ◌≡◌, refl, ap, sym, ◌∙◌, Bool, true, false, ◌&&◌, not, Option, none, some, String, arith, ◌==◌,
  if◌then◌else◌, Bool-cases, inl, inr,
}
use igame.Common.Int.{ℤ, leb_ℤ}
use igame.Common.Result.{ok}
use igame.Payments.{
  Payment, PaymentsDb, PaymentStatus, status_eq, is_out, succeeded, failed, review, approved,
  rejected, find_payment,
}
use igame.Payments.Review.{
  is_manual, guard_row, select_out, approve_row, approve_withdrawal, reject_row, approve_manual_row,
  settle_row, fail_row, reject_withdrawal, Gate, no_op, awaiting_second_approval, proceed,
  same_admin, two_person_gate, after_gate, approve_manual_withdrawal, settle_manual_withdrawal,
  fail_manual_withdrawal, second_approval,
}
use igame.Payments.Lifecycle.{PaymentsAreWf}
use igame.Payments.Decisions.{select_out-Selected}
use igame.Ledger.Transfers.{Move}
use igame.Payments.Ends.{
  Decided, ended, settle_manual_withdrawal-Decided, reject_withdrawal-Decided,
  fail_manual_withdrawal-Decided,
}
use igame.Common.{◌⊎◌}
use igame.Ledger.Transfers.{Move}
use igame.Payments.Decisions.{select_out-Selected}
use igame.Payments.Rows.{find_payment-updated}

if_none : (a b c : Bool) (p : Payment) → c ≡ false → (if a && b && c then some p else none) ≡ none
if_none a b false p h = ground arith
if_none a b true p h = cc h

guard_row-other :
    (test : Payment → Bool) (status : PaymentStatus) (p : Payment)
    → status_eq p.status status ≡ false
    → guard_row test status (some p) ≡ none
guard_row-other test status p h =
    if_none (is_out p.direction) (test p) (status_eq p.status status) p h

select_out-other :
    (test : Payment → Bool) (status : PaymentStatus) (id : ℕ) (db : PaymentsDb) (p : Payment)
    → find_payment id db.payments ≡ some p
    → status_eq p.status status ≡ false
    → select_out test status id db ≡ none
unfolding select_out
select_out-other test status id db p f h =
    ap (guard_row test status) f ∙ guard_row-other test status p h

-- No decision on a payment does anything.
abbrev pub Idle : PaymentsDb → ℕ → Type 0
Idle db id =
    ((reason : String) → reject_withdrawal db id reason ≡ ok (false, db))
    × ((ref : String) → settle_manual_withdrawal db id ref ≡ ok (false, db))
    × ((reason : String) → fail_manual_withdrawal db id reason ≡ ok (false, db))
    × (approve_withdrawal db id ≡ (false, db))
    × ((threshold : ℤ) (admin_id : ℕ)
        → approve_manual_withdrawal db threshold admin_id id ≡ (no_op, db))

idle :
    (db : PaymentsDb) (id : ℕ) (p : Payment)
    → find_payment id db.payments ≡ some p
    → status_eq p.status review ≡ false
    → status_eq p.status approved ≡ false
    → Idle db id
unfolding reject_withdrawal settle_manual_withdrawal fail_manual_withdrawal approve_withdrawal
    approve_manual_withdrawal
idle db id p f not_review not_approved = (
  (λ reason.
      ap (reject_row db id reason) (select_out-other (λ q. true) review id db p f not_review)),
  (λ ref. ap (settle_row db id ref) (select_out-other is_manual approved id db p f not_approved)),
  (λ reason.
      ap (fail_row db id reason) (select_out-other is_manual approved id db p f not_approved)),
  ap (approve_row db id) (select_out-other (λ q. not (is_manual q)) review id db p f not_review),
  (λ threshold admin_id.
      ap (approve_manual_row db threshold admin_id id)
        (select_out-other is_manual review id db p f not_review)),
)

decided-Idle :
    {status : PaymentStatus} {id : ℕ} {db : PaymentsDb} {m : Payment → Move}
    {f : ℕ → Payment → Payment} {db' : PaymentsDb} (final : PaymentStatus)
    → status_eq final review ≡ false
    → status_eq final approved ≡ false
    → ((txn : ℕ) (q : Payment) → ((f txn q).id ≡ q.id) × ((f txn q).status ≡ final))
    → Decided status id db m f true db'
    → Idle db' id
decided-Idle {f = f} {db'} final r a k (ended p sel c) =
    let row = find_payment-updated (f c.txn) p.id _ p (λ q. (k c.txn q).0) sel.found in
    let found =
      ap (λ (n : ℕ). find_payment n db'.payments) (sym sel.number)
      ∙ ap (find_payment p.id) c.payments
      ∙ row in
    let is_final = (k c.txn p).1 in
    idle db' _ (f c.txn p) found (ap (λ (s : PaymentStatus). status_eq s review) is_final ∙ r)
      (ap (λ (s : PaymentStatus). status_eq s approved) is_final ∙ a)

-- Once a withdrawal has been rejected, or a manual one settled or failed, no decision on it does anything.
pub decision-Idle :
    (db : PaymentsDb) (id : ℕ) (text : String) {db' : PaymentsDb}
    → PaymentsAreWf db
    → (reject_withdrawal db id text ≡ ok (true, db'))
      ⊎ (settle_manual_withdrawal db id text ≡ ok (true, db'))
      ⊎ (fail_manual_withdrawal db id text ≡ ok (true, db'))
    → Idle db' id
decision-Idle db id text w (inl h) =
    decided-Idle rejected refl refl (λ txn q. (refl, refl))
      (reject_withdrawal-Decided db id w text h)
decision-Idle db id text w (inr (inl h)) =
    decided-Idle succeeded refl refl (λ txn q. (refl, refl))
      (settle_manual_withdrawal-Decided db id w text h)
decision-Idle db id text w (inr (inr h)) =
    decided-Idle failed refl refl (λ txn q. (refl, refl))
      (fail_manual_withdrawal-Decided db id w text h)

second_approval_two :
    (admin_id : ℕ) (o : Option ℕ)
    → second_approval admin_id o ≡ proceed
    → (first : ℕ) × (o ≡ some first) × ((first == admin_id) ≡ false)
second_approval_two admin_id none h = cc h
second_approval_two admin_id (some first) h = elim (Bool-cases (first == admin_id)) [
  | inl own ↦ absurd (ground (arith, h, own))
  | inr other ↦ (first, refl, other)
]

gate_two :
    (threshold : ℤ) (admin_id : ℕ) (p : Payment)
    → two_person_gate threshold admin_id p ≡ proceed
    → leb_ℤ threshold p.amount ≡ true
    → (first : ℕ) × (p.first_approved_by_admin_id ≡ some first) × ((first == admin_id) ≡ false)
unfolding two_person_gate
gate_two threshold admin_id p h large =
    second_approval_two admin_id p.first_approved_by_admin_id (ground (arith, h, large))

after_gate-proceed :
    (db : PaymentsDb) (admin_id id : ℕ) (g : Gate) {db' : PaymentsDb}
    → after_gate db admin_id id g ≡ (proceed, db')
    → g ≡ proceed
after_gate-proceed db admin_id id proceed h = refl
after_gate-proceed db admin_id id no_op h = cc h
after_gate-proceed db admin_id id awaiting_second_approval h = cc h
after_gate-proceed db admin_id id same_admin h = cc h

approve_manual_row-proceed :
    (db : PaymentsDb) (threshold : ℤ) (admin_id id : ℕ) (o : Option Payment) {db' : PaymentsDb}
    → approve_manual_row db threshold admin_id id o ≡ (proceed, db')
    → (p : Payment) × (o ≡ some p) × (two_person_gate threshold admin_id p ≡ proceed)
approve_manual_row-proceed db threshold admin_id id none h = cc h
approve_manual_row-proceed db threshold admin_id id (some p) h =
    (p, refl, after_gate-proceed db admin_id id (two_person_gate threshold admin_id p) h)

-- A manual withdrawal of at least the threshold is approved only when another admin has approved it first.
pub approve_manual_withdrawal_two_admins :
    (db : PaymentsDb) (threshold : ℤ) (admin_id id : ℕ) (p : Payment) {db' : PaymentsDb}
    → approve_manual_withdrawal db threshold admin_id id ≡ (proceed, db')
    → find_payment id db.payments ≡ some p
    → leb_ℤ threshold p.amount ≡ true
    → (first : ℕ) × (p.first_approved_by_admin_id ≡ some first) × ((first == admin_id) ≡ false)
unfolding approve_manual_withdrawal
approve_manual_withdrawal_two_admins db threshold admin_id id p h f large =
    let (q, selected, gate) =
      approve_manual_row-proceed db threshold admin_id id (select_out is_manual review id db) h in
    let sel = select_out-Selected is_manual review id db q selected in
    let same : q ≡ p = cc (f, ap (λ (n : ℕ). find_payment n db.payments) sel.number, sel.found) in
    gate_two threshold admin_id p (ap (two_person_gate threshold admin_id) (sym same) ∙ gate) large
