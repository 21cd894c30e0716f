-- ===== src/Payments/Positive.antt =====
-- Amounts are not negative, so an open withdrawal is no more than all that are open.
use igame.Common.{ℕ, ◌≡◌, sym, ◌&&◌, some, List, [], ◌∷◌, ◌++◌, arith, ◌==◌, Bool-cases, inl, inr}
use igame.Common.Int.{ℤ, pos, ◌+ℤ◌, ◌≤ℤ◌, int_laws}
use mathlib.Core.Path.{subst}
use igame.Ledger.Balances.{if_ℤ}
use igame.Payments.{Payment, find_payment, update_payment}
use igame.Payments.Open.{is_open, share, open_total}

-- The check of the column: no amount is negative.
abbrev pub AllPositive : List Payment → Type 0
AllPositive [] = Unit
AllPositive (p ∷ ps) = (pos 0 ≤ℤ p.amount) × AllPositive ps

pub AllPositive-append :
    (ps : List Payment) (p : Payment)
    → AllPositive ps
    → pos 0 ≤ℤ p.amount
    → AllPositive (ps ++ p ∷ [])
AllPositive-append [] p h k = (k, tt)
AllPositive-append (x ∷ ps) p (h, more) k = (h, AllPositive-append ps p more k)

pub AllPositive-update :
    (f : Payment → Payment) (id : ℕ) (ps : List Payment)
    → ((q : Payment) → (f q).amount ≡ q.amount)
    → AllPositive ps
    → AllPositive (update_payment f id ps)
unfolding update_payment
AllPositive-update f id [] k h = tt
AllPositive-update f id (x ∷ ps) k (h, more) = elim (Bool-cases (x.id == id)) [
  | inl hit ↦
      rw hit (subst (λ (a : ℤ). pos 0 ≤ℤ a) (sym (k x)) h, AllPositive-update f id ps k more)
  | inr miss ↦ rw miss (h, AllPositive-update f id ps k more)
]

pub found-positive :
    (id : ℕ) (ps : List Payment) (p : Payment)
    → AllPositive ps
    → find_payment id ps ≡ some p
    → pos 0 ≤ℤ p.amount
unfolding find_payment
found-positive id [] p h f = cc
found-positive id (x ∷ ps) p (h, more) f = elim (Bool-cases (x.id == id)) [
  | inl hit ↦
      let same : x ≡ p = ground (arith, hit, f) in subst (λ (q : Payment). pos 0 ≤ℤ q.amount) same h
  | inr miss ↦ found-positive id ps p more (ground (arith, miss, f))
]

share-positive : (u : ℕ) (p : Payment) → pos 0 ≤ℤ p.amount → pos 0 ≤ℤ share u p
unfolding if_ℤ
share-positive u p h = elim (Bool-cases (p.user_id == u && is_open p)) [
  | inl mine ↦ rw mine h
  | inr other ↦ rw other (omega arith)
]

open_total-positive : (u : ℕ) (ps : List Payment) → AllPositive ps → pos 0 ≤ℤ open_total u ps
unfolding open_total
open_total-positive u [] h = omega arith
open_total-positive u (p ∷ ps) (h, more) =
    let one = share-positive u p h in
    let rest = open_total-positive u ps more in grind (int_laws, one, rest)

-- An open withdrawal is covered by the total.
pub share-le-total :
    (u id : ℕ) (ps : List Payment) (p : Payment)
    → AllPositive ps
    → find_payment id ps ≡ some p
    → share u p ≤ℤ open_total u ps
unfolding open_total find_payment
share-le-total u id [] p h f = cc
share-le-total u id (x ∷ ps) p (h, more) f = elim (Bool-cases (x.id == id)) [
  | inl hit ↦
      let same : x ≡ p = ground (arith, hit, f) in
      let rest = open_total-positive u ps more in
      subst (λ (q : Payment). share u q ≤ℤ share u x +ℤ open_total u ps) same
        (grind (int_laws, rest))
  | inr miss ↦
      let rest = share-le-total u id ps p more (ground (arith, miss, f)) in
      let one = share-positive u x h in grind (int_laws, rest, one)
]
