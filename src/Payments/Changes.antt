-- ===== src/Payments/Changes.antt =====
-- Changes of a row that move no money: the status of an open withdrawal, or who approved it first
-- (services/payments/payout_worker.py, services/admin/queries.py).
use igame.Common.{ℕ, ◌≡◌, refl, ap, sym, ◌∙◌, false, some, String, List}
use igame.Common.Int.{ℤ, ◌+ℤ◌, int_laws}
use igame.Payments.{Payment, PaymentsDb, find_payment, update_payment}
use igame.Payments.Keys.{Tag, settle, reverse, reject, manual_settle, manual_fail, withdrawal}
use igame.Payments.Open.{
  is_open, share, open_total, open_total-update, InOrder-update, UniqueRefs-update,
}
use igame.Payments.Positive.{AllPositive-update}
use igame.Payments.Taken.{taken_by, taken-update}
use igame.Payments.Lifecycle.{PaymentsAreWf, KeepsRow}

record Quiet (p q : Payment) : Type 0 where
  pub id : q.id ≡ p.id
  pub our_ref : q.our_ref ≡ p.our_ref
  pub user_id : q.user_id ≡ p.user_id
  pub amount : q.amount ≡ p.amount
  pub is_locked : is_open q ≡ is_open p

share-Quiet : (u : ℕ) (p q : Payment) → Quiet p q → share u q ≡ share u p
share-Quiet u p q h = rw (h.user_id, h.is_locked, h.amount) refl

taken_by-Quiet :
    (t : Tag) (b : String) (p q : Payment)
    → Quiet p q
    → taken_by t b q ≡ false
    → taken_by t b p ≡ false
taken_by-Quiet settle b p q h n = rw (h.is_locked, h.our_ref) at n
taken_by-Quiet reverse b p q h n = rw (h.is_locked, h.our_ref) at n
taken_by-Quiet reject b p q h n = rw (h.is_locked, h.id) at n
taken_by-Quiet manual_settle b p q h n = rw (h.is_locked, h.our_ref) at n
taken_by-Quiet manual_fail b p q h n = rw (h.is_locked, h.id) at n
taken_by-Quiet withdrawal b p q h n = rw h.our_ref at n

cancel_right : (x y s : ℤ) → x +ℤ s ≡ y +ℤ s → x ≡ y
cancel_right x y s h = grind (int_laws, h)

pub quiet-PaymentsAreWf :
    (db : PaymentsDb) (p : Payment) (f : Payment → Payment) (payouts : List (String × ℕ))
    → PaymentsAreWf db
    → find_payment p.id db.payments ≡ some p
    → KeepsRow f
    → (f p).user_id ≡ p.user_id
    → (f p).amount ≡ p.amount
    → is_open (f p) ≡ is_open p
    → PaymentsAreWf (record db { payments = update_payment f p.id db.payments; payouts = payouts })
quiet-PaymentsAreWf db p f payouts w found keeps user amount still =
    let q : Quiet p (f p) = record {
      id = keeps.id p;
      our_ref = keeps.our_ref p;
      user_id = user;
      amount = amount;
      is_locked = still;
    } in
    record {
      wallets = w.wallets;
      in_order = InOrder-update f p.id 1 db.payments keeps.id w.in_order;
      unique_refs = UniqueRefs-update f p.id db.payments keeps.our_ref w.unique_refs;
      positive = AllPositive-update f p.id db.payments keeps.amount w.positive;
      backed = λ u.
          w.backed u
          ∙ sym (
              cancel_right (open_total u (update_payment f p.id db.payments))
                (open_total u db.payments) (share u p)
                (open_total-update u f p.id 1 db.payments p w.in_order found
                  ∙ ap (λ (x : ℤ). open_total u db.payments +ℤ x) (share-Quiet u p (f p) q)));
      keys_free = λ t b n. w.keys_free t b (
          taken-update t b f p.id p 1 db.payments w.in_order found (taken_by-Quiet t b p (f p) q)
            n);
    }
