-- ===== src/Payments/Open.antt =====
-- What the open withdrawals of a player add up to, and what a change of one row does to it.
use text.Mathlib.Text.{◌==◌ as str_eq}
use text.Mathlib.TextEquality.{eq_iff}
use igame.Common.{
  ℕ, ◌+◌, ◌≤◌, ◌<◌, ◌≡◌, refl, ◌∙◌, Bool, false, ◌&&◌, ◌||◌, some, String, List, [], ◌∷◌, ◌++◌,
  arith, ◌==◌, length, Bool-cases, inl, inr,
}
use igame.Common.Int.{ℤ, pos, ◌+ℤ◌, int_laws}
use igame.Ledger.Balances.{if_ℤ}
use igame.Payments.{
  is_out, processing, review, approved, status_eq, Payment, find_payment, update_payment, has_ref,
}

-- A withdrawal whose money is locked.
abbrev pub is_open : Payment → Bool
is_open p =
    is_out p.direction
    && (status_eq p.status review || status_eq p.status approved || status_eq p.status processing)

abbrev pub share : ℕ → Payment → ℤ
share u p = if_ℤ (p.user_id == u && is_open p) p.amount

unfoldable pub open_total : ℕ → List Payment → ℤ
open_total u [] = pos 0
open_total u (p ∷ ps) = share u p +ℤ open_total u ps

-- Payments are numbered as they are inserted.
abbrev pub InOrder : ℕ → List Payment → Type 0
InOrder n [] = Unit
InOrder n (p ∷ ps) = (p.id ≡ n) × InOrder (n + 1) ps

-- `our_ref` is unique.
abbrev pub UniqueRefs : List Payment → Type 0
UniqueRefs [] = Unit
UniqueRefs (p ∷ ps) = (has_ref p.our_ref ps ≡ false) × UniqueRefs ps

pub InOrder-append :
    (n : ℕ) (ps : List Payment) (p : Payment)
    → InOrder n ps
    → p.id ≡ n + length ps
    → InOrder n (ps ++ p ∷ [])
InOrder-append n [] p h e = (omega (arith, e), tt)
InOrder-append n (x ∷ ps) p (h, more) e = (h, InOrder-append (n + 1) ps p more (omega (arith, e)))

pub str_eq_comm : (a b : String) → str_eq a b ≡ str_eq b a
str_eq_comm a b = ground (arith, eq_iff a b, eq_iff b a)

pub has_ref-append :
    (ref : String) (ps : List Payment) (p : Payment)
    → has_ref ref (ps ++ p ∷ []) ≡ (has_ref ref ps || str_eq p.our_ref ref)
unfolding has_ref
has_ref-append ref [] p = ground arith
has_ref-append ref (x ∷ ps) p = ground (arith, has_ref-append ref ps p)

pub UniqueRefs-append :
    (ps : List Payment) (p : Payment)
    → UniqueRefs ps
    → has_ref p.our_ref ps ≡ false
    → UniqueRefs (ps ++ p ∷ [])
unfolding has_ref
UniqueRefs-append [] p h n = (refl, tt)
UniqueRefs-append (x ∷ ps) p (h, more) n = (
  ground (arith, has_ref-append x.our_ref ps p, str_eq_comm x.our_ref p.our_ref, h, n),
  UniqueRefs-append ps p more (ground (arith, n)),
)

pub open_total-append :
    (u : ℕ) (ps : List Payment) (p : Payment)
    → open_total u (ps ++ p ∷ []) ≡ open_total u ps +ℤ share u p
unfolding open_total
open_total-append u [] p = grind int_laws
open_total-append u (x ∷ ps) p = grind (int_laws, open_total-append u ps p)

pub find_payment-le :
    (id n : ℕ) (ps : List Payment) (p : Payment)
    → InOrder n ps
    → find_payment id ps ≡ some p
    → n ≤ id
unfolding find_payment
find_payment-le id n [] p o f = cc
find_payment-le id n (x ∷ ps) p (h, more) f = elim (Bool-cases (x.id == id)) [
  | inl hit ↦ ground (arith, hit, h)
  | inr miss ↦ omega (arith, find_payment-le id (n + 1) ps p more (ground (arith, miss, f)))
]

pub update_none :
    (f : Payment → Payment) (id n : ℕ) (ps : List Payment)
    → InOrder n ps
    → id < n
    → update_payment f id ps ≡ ps
unfolding update_payment
update_none f id n [] o l = refl
update_none f id n (x ∷ ps) (h, more) l =
    ground (arith, h, l, update_none f id (n + 1) ps more (omega (arith, l)))

-- The row that is found is the one that is updated, and no other changes.
pub open_total-update :
    (u : ℕ) (f : Payment → Payment) (id n : ℕ) (ps : List Payment) (p : Payment)
    → InOrder n ps
    → find_payment id ps ≡ some p
    → open_total u (update_payment f id ps) +ℤ share u p ≡ open_total u ps +ℤ share u (f p)
unfolding open_total update_payment find_payment
open_total-update u f id n [] p o e = cc
open_total-update u f id n (x ∷ ps) p (h, more) e = elim (Bool-cases (x.id == id)) [
  | inl hit ↦
      let same : x ≡ p = ground (arith, hit, e) in
      let rest = update_none f id (n + 1) ps more (ground (arith, hit, h)) in
      rw (hit, rest, same) (omega int_laws)
  | inr miss ↦
      let later = open_total-update u f id (n + 1) ps p more (ground (arith, miss, e)) in
      rw miss (grind (int_laws, later))
]

pub InOrder-update :
    (f : Payment → Payment) (id n : ℕ) (ps : List Payment)
    → ((q : Payment) → (f q).id ≡ q.id)
    → InOrder n ps
    → InOrder n (update_payment f id ps)
unfolding update_payment
InOrder-update f id n [] k o = tt
InOrder-update f id n (x ∷ ps) k (h, more) = elim (Bool-cases (x.id == id)) [
  | inl hit ↦ rw hit (k x ∙ h, InOrder-update f id (n + 1) ps k more)
  | inr miss ↦ rw miss (h, InOrder-update f id (n + 1) ps k more)
]

pub has_ref-update :
    (ref : String) (f : Payment → Payment) (id : ℕ) (ps : List Payment)
    → ((q : Payment) → (f q).our_ref ≡ q.our_ref)
    → has_ref ref (update_payment f id ps) ≡ has_ref ref ps
unfolding update_payment has_ref
has_ref-update ref f id [] k = refl
has_ref-update ref f id (x ∷ ps) k = elim (Bool-cases (x.id == id)) [
  | inl hit ↦ rw (hit, k x, has_ref-update ref f id ps k) refl
  | inr miss ↦ rw (miss, has_ref-update ref f id ps k) refl
]

pub UniqueRefs-update :
    (f : Payment → Payment) (id : ℕ) (ps : List Payment)
    → ((q : Payment) → (f q).our_ref ≡ q.our_ref)
    → UniqueRefs ps
    → UniqueRefs (update_payment f id ps)
unfolding update_payment
UniqueRefs-update f id [] k o = tt
UniqueRefs-update f id (x ∷ ps) k (h, more) = elim (Bool-cases (x.id == id)) [
  | inl hit ↦
      rw hit (rw (k x, has_ref-update x.our_ref f id ps k) h, UniqueRefs-update f id ps k more)
  | inr miss ↦ rw miss (rw (has_ref-update x.our_ref f id ps k) h, UniqueRefs-update f id ps k more)
]
