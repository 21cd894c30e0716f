-- ===== src/Payments/Rows.antt =====
-- Which row of the payments is read, and which is written.
use text.Mathlib.Text.{◌==◌ as str_eq}
use igame.Common.{
  ℕ, ◌+◌, ◌≡◌, refl, ap, sym, ◌∙◌, true, false, some, String, List, [], ◌∷◌, arith, ◌==◌,
  Bool-cases, inl, inr,
}
use igame.Payments.{Payment, find_payment, find_ref, update_payment}
use igame.Payments.Open.{InOrder, find_payment-le}

pub find_payment-id :
    (id : ℕ) (ps : List Payment) (p : Payment) → find_payment id ps ≡ some p → p.id ≡ id
unfolding find_payment
find_payment-id id [] p f = cc
find_payment-id id (x ∷ ps) p f = elim (Bool-cases (x.id == id)) [
  | inl hit ↦
      let same : x ≡ p = ground (arith, hit, f) in
      sym (ap (λ (q : Payment). q.id) same) ∙ ground (arith, hit)
  | inr miss ↦ find_payment-id id ps p (ground (arith, miss, f))
]

find_ref-found_from :
    (ref : String) (n : ℕ) (ps : List Payment) (p : Payment)
    → InOrder n ps
    → find_ref ref ps ≡ some p
    → find_payment p.id ps ≡ some p
unfolding find_payment find_ref
find_ref-found_from ref n [] p o f = cc
find_ref-found_from ref n (x ∷ ps) p (h, more) f = elim (Bool-cases (str_eq x.our_ref ref)) [
  | inl hit ↦
      let same : x ≡ p = ground (arith, hit, f) in
      ground (arith, same, ap (λ (q : Payment). q.id) same)
  | inr miss ↦
      let there = find_ref-found_from ref (n + 1) ps p more (ground (arith, miss, f)) in
      let later = find_payment-le p.id (n + 1) ps p more there in ground (arith, there, later, h)
]

-- The row with a reference is also the row with its number.
pub find_ref-found :
    (ref : String) (ps : List Payment) (p : Payment)
    → InOrder 1 ps
    → find_ref ref ps ≡ some p
    → find_payment p.id ps ≡ some p
find_ref-found ref ps p o f = find_ref-found_from ref 1 ps p o f

pub find_payment-updated :
    (f : Payment → Payment) (id : ℕ) (ps : List Payment) (p : Payment)
    → ((q : Payment) → (f q).id ≡ q.id)
    → find_payment id ps ≡ some p
    → find_payment id (update_payment f id ps) ≡ some (f p)
unfolding find_payment update_payment
find_payment-updated f id [] p k e = cc
find_payment-updated f id (x ∷ ps) p k e = elim (Bool-cases (x.id == id)) [
  | inl hit ↦
      let same : x ≡ p = ground (arith, hit, e) in
      rw (hit, ap (λ (n : ℕ). n == id) (k x) ∙ hit, same) refl
  | inr miss ↦ ground (arith, miss, find_payment-updated f id ps p k (ground (arith, miss, e)))
]

pub find_ref-updated :
    (f : Payment → Payment) (ref : String) (ps : List Payment) (p : Payment) (n : ℕ)
    → ((q : Payment) → (f q).our_ref ≡ q.our_ref)
    → InOrder n ps
    → find_ref ref ps ≡ some p
    → find_ref ref (update_payment f p.id ps) ≡ some (f p)
unfolding find_ref update_payment
find_ref-updated f ref [] p n k o e = cc
find_ref-updated f ref (x ∷ ps) p n k (h, more) e = elim (Bool-cases (str_eq x.our_ref ref)) [
  | inl hit ↦
      let same : x ≡ p = ground (arith, hit, e) in
      let own : (x.id == p.id) ≡ true = ground (arith, ap (λ (q : Payment). q.id) same) in
      rw (own, ap (λ (r : String). str_eq r ref) (k x) ∙ hit, same) refl
  | inr miss ↦
      let there : find_ref ref ps ≡ some p = ground (arith, miss, e) in
      let later =
        find_payment-le p.id (n + 1) ps p more (find_ref-found_from ref (n + 1) ps p more there) in
      let other : (x.id == p.id) ≡ false = ground (arith, later, h) in
      rw (other, miss) (find_ref-updated f ref ps p (n + 1) k more there)
]
