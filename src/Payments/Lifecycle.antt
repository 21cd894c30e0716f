-- ===== src/Payments/Lifecycle.antt =====
-- The locked wallet of a player holds what his open withdrawals add up to, through every call
-- (services/payments/withdrawals.py, services/payments/payout_worker.py, services/admin/queries.py).
use mathlib.Core.Path.{subst}
use text.Mathlib.Text.{◌==◌ as str_eq}
use text.Mathlib.TextEquality.{eq_iff}
use igame.Common.{
  ℕ, ◌≡◌, refl, ap, sym, ◌∙◌, Bool, true, false, some, String, List, arith, ◌==◌, if◌then◌else◌,
  Bool-cases, inl, inr,
}
use igame.Common.Int.{ℤ, pos, neg, ◌+ℤ◌, int_laws}
use igame.Common.Result.{ok, >>=-eq-ok, ok-injective}
use igame.Ledger.Balances.{if_ℤ}
use igame.Ledger.Post.{PostError}
use igame.Ledger.Wallets.{Side, side_of, same_side, wallet, WalletsAreWf}
use igame.Ledger.Transfers.{Move, move_money, IsNew, Moved, move_money-Moved}
use igame.Payments.{Payment, PaymentsDb, find_payment, update_payment}
use igame.Payments.Payouts.{decimal, post_and_set, release}
use igame.Payments.Keys.{
  Tag, settle, reverse, reject, manual_settle, manual_fail, withdrawal, tag_place, key_for,
  key_apart, body_apart,
}
use igame.Payments.Open.{
  is_open, share, open_total, InOrder, UniqueRefs, open_total-update, InOrder-update,
  UniqueRefs-update,
}
use igame.Payments.Positive.{AllPositive, AllPositive-update}
use igame.Payments.Taken.{body_of, taken_by, taken, taken-update, taken-own}
use igame.Payments.Free.{is_end, open-untaken}

abbrev pub locked_side : ℕ → Side
locked_side u = side_of u "user_locked"

pub record PaymentsAreWf (db : PaymentsDb) : Type 0 where
  pub wallets : WalletsAreWf db.ledger
  pub in_order : InOrder 1 db.payments
  pub unique_refs : UniqueRefs db.payments
  pub positive : AllPositive db.payments
  pub backed : (u : ℕ) → wallet db.ledger (locked_side u) ≡ open_total u db.payments
  pub keys_free :
      (t : Tag) (b : String) → taken t b db.payments ≡ false → IsNew (key_for t b) db.ledger

-- A change of a row that leaves its number, its reference and its player, and whether it is open.
pub record KeepsRow (f : Payment → Payment) : Type 0 where
  pub id : (q : Payment) → (f q).id ≡ q.id
  pub our_ref : (q : Payment) → (f q).our_ref ≡ q.our_ref
  pub amount : (q : Payment) → (f q).amount ≡ q.amount

pub share-open :
    (u : ℕ) (p : Payment) → is_open p ≡ true → share u p ≡ if_ℤ (p.user_id == u) p.amount
share-open u p h = elim (Bool-cases (p.user_id == u)) [
  | inl hit ↦ rw (hit, h) refl
  | inr miss ↦ rw miss refl
]

share-closed : (u : ℕ) (p : Payment) → is_open p ≡ false → share u p ≡ pos 0
unfolding if_ℤ
share-closed u p h = elim (Bool-cases (p.user_id == u)) [
  | inl hit ↦ rw (hit, h) refl
  | inr miss ↦ rw miss refl
]

pub same_locked : (a u : ℕ) → same_side (locked_side a) (locked_side u) ≡ (a == u)
same_locked a u = elim (Bool-cases (a == u)) [ inl hit ↦ rw hit refl | inr miss ↦ rw miss refl ]

moves_out :
    (mine : Bool) (a total after total' : ℤ)
    → after ≡ total +ℤ (if_ℤ mine (neg a) +ℤ if_ℤ false a)
    → total' +ℤ if_ℤ mine a ≡ total +ℤ pos 0
    → after ≡ total'
unfolding if_ℤ
moves_out true a total after total' h k = grind (int_laws, h, k)
moves_out false a total after total' h k = grind (int_laws, h, k)

tag_at : ℕ → Tag
tag_at n =
    if n == 0
    then settle
    else if n == 1
    then reverse
    else if n == 2
    then reject
    else if n == 3
    then manual_settle
    else if n == 4
    then manual_fail
    else withdrawal

tag_at_lem : (t : Tag) → tag_at (tag_place t) ≡ t
unfolding tag_at
tag_at_lem settle = refl
tag_at_lem reverse = refl
tag_at_lem reject = refl
tag_at_lem manual_settle = refl
tag_at_lem manual_fail = refl
tag_at_lem withdrawal = refl

-- A row that was open has used up none of the keys of an end.
open-kept :
    (t : Tag) (b : String) (p q : Payment)
    → is_open p ≡ true
    → q.our_ref ≡ p.our_ref
    → taken_by t b q ≡ false
    → taken_by t b p ≡ false
open-kept settle b p q o e h = rw o refl
open-kept reverse b p q o e h = rw o refl
open-kept reject b p q o e h = rw o refl
open-kept manual_settle b p q o e h = rw o refl
open-kept manual_fail b p q o e h = rw o refl
open-kept withdrawal b p q o e h = rw e at h

closed-taken :
    (t : Tag) (p q : Payment)
    → is_end t ≡ true
    → is_open q ≡ false
    → q.our_ref ≡ p.our_ref
    → q.id ≡ p.id
    → taken_by t (body_of t p) q ≡ true
closed-taken settle p q l c e d = rw (c, e, (eq_iff p.our_ref p.our_ref).1 refl) refl
closed-taken reverse p q l c e d = rw (c, e, (eq_iff p.our_ref p.our_ref).1 refl) refl
closed-taken reject p q l c e d = rw (c, d, (eq_iff (decimal p.id) (decimal p.id)).1 refl) refl
closed-taken manual_settle p q l c e d = rw (c, e, (eq_iff p.our_ref p.our_ref).1 refl) refl
closed-taken manual_fail p q l c e d = rw (c, d, (eq_iff (decimal p.id) (decimal p.id)).1 refl) refl
closed-taken withdrawal p q l c e d = cc l

-- What ends a withdrawal, under a key of its own: the money leaves the locked wallet, and the row closes.
module _ (db : PaymentsDb) (p : Payment) (t : Tag) (kind : String) (target : Side)
    (f : ℕ → Payment → Payment) {db' : PaymentsDb} (w : PaymentsAreWf db)
    (found : find_payment p.id db.payments ≡ some p) (open_still : is_open p ≡ true)
    (is_last : is_end t ≡ true) (keeps : (txn : ℕ) → KeepsRow (f txn))
    (closes : (txn : ℕ) → is_open (f txn p) ≡ false)
    (elsewhere : (u : ℕ) → same_side target (locked_side u) ≡ false)
    (done : post_and_set db p.id (release kind (key_for t (body_of t p)) p target) f ≡ ok db') where
  abbrev pub last_move : Move
  last_move = release kind (key_for t (body_of t p)) p target

  fresh : IsNew (key_for t (body_of t p)) db.ledger
  fresh =
      w.keys_free t (body_of t p)
        (open-untaken t p.id 1 db.payments p is_last w.in_order w.unique_refs found open_still)

  pub record Ended : Type 0 where
    pub txn : ℕ
    pub ledger : Moved db.ledger last_move db'.ledger
    pub payments : db'.payments ≡ update_payment (f txn) p.id db.payments

  pub ended : Ended
  unfolding post_and_set
  ended =
      let ((x, ledger'), posted, same) = >>=-eq-ok (move_money db.ledger last_move) _ done in
      let left = ok-injective {E = PostError} same in
      record {
        txn = x.id;
        ledger =
            subst (Moved db.ledger last_move) (ap (λ (d : PaymentsDb). d.ledger) left)
              (move_money-Moved db.ledger last_move w.wallets fresh posted);
        payments = sym (ap (λ (d : PaymentsDb). d.payments) left);
      }

  backed_after : (u : ℕ) → wallet db'.ledger (locked_side u) ≡ open_total u db'.payments
  backed_after u =
      let after = open_total-update u (f ended.txn) p.id 1 db.payments p w.in_order found in
      moves_out (p.user_id == u) p.amount (open_total u db.payments)
        (wallet db'.ledger (locked_side u)) (open_total u db'.payments)
        (ended.ledger.moved (locked_side u)
          ∙ (rw (same_locked p.user_id u, elsewhere u, w.backed u) refl))
        (ap (λ (ps : List Payment). open_total u ps +ℤ if_ℤ (p.user_id == u) p.amount)
            ended.payments
          ∙ ap (λ (x : ℤ). open_total u (update_payment (f ended.txn) p.id db.payments) +ℤ x)
              (sym (share-open u p open_still))
          ∙ after
          ∙ ap (λ (x : ℤ). open_total u db.payments +ℤ x)
              (share-closed u (f ended.txn p) (closes ended.txn)))

  other_key :
      (u : Tag) (b : String)
      → taken u b (update_payment (f ended.txn) p.id db.payments) ≡ false
      → str_eq (key_for t (body_of t p)) (key_for u b) ≡ false
  other_key u b n = elim (Bool-cases (tag_place t == tag_place u)) [
    | inr apart ↦ key_apart t u (body_of t p) b apart
    | inl same ↦ elim (Bool-cases (str_eq (body_of t p) b)) [
      | inr apart ↦
          let tags : t ≡ u = sym (tag_at_lem t) ∙ ap tag_at (ground (arith, same)) ∙ tag_at_lem u in
          subst (λ (v : Tag). str_eq (key_for t (body_of t p)) (key_for v b) ≡ false) tags
            (body_apart t (body_of t p) b apart)
      | inl equal ↦
          let tags : t ≡ u = sym (tag_at_lem t) ∙ ap tag_at (ground (arith, same)) ∙ tag_at_lem u in
          let own = taken-own t (body_of t p) (f ended.txn) p.id p 1 db.payments w.in_order found (
            closed-taken t p (f ended.txn p) is_last (closes ended.txn)
              ((keeps ended.txn).our_ref p) ((keeps ended.txn).id p)) in
          absurd (cc (n, own, tags, (eq_iff (body_of t p) b).0 equal))
    ]
  ]

  keys_after :
      (u : Tag) (b : String) → taken u b db'.payments ≡ false → IsNew (key_for u b) db'.ledger
  keys_after u b n =
      let still : taken u b (update_payment (f ended.txn) p.id db.payments) ≡ false =
        sym (ap (taken u b) ended.payments) ∙ n in
      let before =
        taken-update u b (f ended.txn) p.id p 1 db.payments w.in_order found
          (open-kept u b p (f ended.txn p) open_still ((keeps ended.txn).our_ref p)) still in
      ended.ledger.keys (key_for u b) (other_key u b still) (w.keys_free u b before)

  pub ended-PaymentsAreWf : PaymentsAreWf db'
  ended-PaymentsAreWf = record {
    wallets = ended.ledger.wf;
    in_order =
        subst (InOrder 1) (sym ended.payments)
          (InOrder-update (f ended.txn) p.id 1 db.payments (keeps ended.txn).id w.in_order);
    unique_refs =
        subst UniqueRefs (sym ended.payments) (
          UniqueRefs-update (f ended.txn) p.id db.payments (keeps ended.txn).our_ref w.unique_refs);
    positive =
        subst AllPositive (sym ended.payments)
          (AllPositive-update (f ended.txn) p.id db.payments (keeps ended.txn).amount w.positive);
    backed = backed_after;
    keys_free = keys_after;
  }
