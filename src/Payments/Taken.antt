-- ===== src/Payments/Taken.antt =====
-- Which keys of the ledger the payments have used up: that of its request, and those of its end once it
-- is closed.
use mathlib.Core.Path.{subst}
use text.Mathlib.Text.{◌==◌ as str_eq}
use text.Mathlib.TextEquality.{eq_iff}
use igame.Common.{
  ℕ, ◌+◌, ◌≡◌, refl, Bool, true, false, ◌&&◌, ◌||◌, not, some, String, List, [], ◌∷◌, ◌++◌, arith,
  ◌==◌, Bool-cases, inl, inr,
}
use igame.Payments.{Payment, find_payment, update_payment}
use igame.Payments.Payouts.{decimal}
use igame.Payments.Keys.{
  Tag, settle, reverse, reject, manual_settle, manual_fail, withdrawal, key_for,
}
use igame.Payments.Open.{is_open, InOrder, update_none}

abbrev pub body_of : Tag → Payment → String
body_of settle p = p.our_ref
body_of reverse p = p.our_ref
body_of reject p = decimal p.id
body_of manual_settle p = p.our_ref
body_of manual_fail p = decimal p.id
body_of withdrawal p = p.our_ref

abbrev pub taken_by : Tag → String → Payment → Bool
taken_by withdrawal b p = str_eq p.our_ref (key_for withdrawal b)
taken_by t b p = not (is_open p) && str_eq (body_of t p) b

unfoldable pub taken : Tag → String → List Payment → Bool
taken t b [] = false
taken t b (p ∷ ps) = taken_by t b p || taken t b ps

pub taken-append :
    (t : Tag) (b : String) (ps : List Payment) (p : Payment)
    → taken t b (ps ++ p ∷ []) ≡ (taken t b ps || taken_by t b p)
unfolding taken
taken-append t b [] p = ground arith
taken-append t b (x ∷ ps) p = ground (arith, taken-append t b ps p)

pub or-false : (a b : Bool) → (a || b) ≡ false → (a ≡ false) × (b ≡ false)
or-false a b h = ground arith

module _ (t : Tag) (b : String) (f : Payment → Payment) (id : ℕ) (p : Payment) where
  -- A change of a row gives no key back, if it gives none of that row back.
  pub taken-update :
      (n : ℕ) (ps : List Payment)
      → InOrder n ps
      → find_payment id ps ≡ some p
      → (taken_by t b (f p) ≡ false → taken_by t b p ≡ false)
      → taken t b (update_payment f id ps) ≡ false
      → taken t b ps ≡ false
  unfolding taken update_payment find_payment
  taken-update n [] o e k h = cc
  taken-update n (x ∷ ps) (h, more) e k z = elim (Bool-cases (x.id == id)) [
    | inl hit ↦
        let same : x ≡ p = ground (arith, hit, e) in
        let rest = update_none f id (n + 1) ps more (ground (arith, hit, h)) in
        let parts = or-false (taken_by t b (f p)) (taken t b ps) (rw (hit, rest, same) at z) in
        rw (same, k parts.0, parts.1) refl
    | inr miss ↦
        let parts = or-false (taken_by t b x) (taken t b (update_payment f id ps)) (rw miss at z) in
        rw (parts.0, taken-update (n + 1) ps more (ground (arith, miss, e)) k parts.1) refl
  ]

  pub taken-own :
      (n : ℕ) (ps : List Payment)
      → InOrder n ps
      → find_payment id ps ≡ some p
      → taken_by t b (f p) ≡ true
      → taken t b (update_payment f id ps) ≡ true
  unfolding taken update_payment find_payment
  taken-own n [] o e k = cc
  taken-own n (x ∷ ps) (h, more) e k = elim (Bool-cases (x.id == id)) [
    | inl hit ↦ let same : x ≡ p = ground (arith, hit, e) in rw (hit, same, k) refl
    | inr miss ↦ ground (arith, miss, taken-own (n + 1) ps more (ground (arith, miss, e)) k)
  ]

module _ (g : Payment → String) where
  unfoldable pub has_body : String → List Payment → Bool
  has_body b [] = false
  has_body b (p ∷ ps) = str_eq (g p) b || has_body b ps

  unfoldable pub closed_body : String → List Payment → Bool
  closed_body b [] = false
  closed_body b (p ∷ ps) = (not (is_open p) && str_eq (g p) b) || closed_body b ps

  abbrev pub Apart : List Payment → Type 0
  Apart [] = Unit
  Apart (p ∷ ps) = (has_body (g p) ps ≡ false) × Apart ps

  closed_body-has :
      (b : String) (ps : List Payment) → has_body b ps ≡ false → closed_body b ps ≡ false
  unfolding has_body closed_body
  closed_body-has b [] h = refl
  closed_body-has b (p ∷ ps) h = ground (arith, closed_body-has b ps, h)

  has_body-found :
      (id : ℕ) (ps : List Payment) (p : Payment)
      → find_payment id ps ≡ some p
      → has_body (g p) ps ≡ true
  unfolding has_body find_payment
  has_body-found id [] p f = cc
  has_body-found id (x ∷ ps) p f = elim (Bool-cases (x.id == id)) [
    | inl hit ↦
        let same : x ≡ p = ground (arith, hit, f) in rw (same, (eq_iff (g p) (g p)).1 refl) refl
    | inr miss ↦ rw (has_body-found id ps p (ground (arith, miss, f))) (ground arith)
  ]

  -- An open payment whose text no other payment has.
  pub open-unclosed :
      (id : ℕ) (ps : List Payment) (p : Payment)
      → Apart ps
      → find_payment id ps ≡ some p
      → is_open p ≡ true
      → closed_body (g p) ps ≡ false
  unfolding closed_body find_payment
  open-unclosed id [] p a f o = cc
  open-unclosed id (x ∷ ps) p (a, more) f o = elim (Bool-cases (x.id == id)) [
    | inl hit ↦
        let same : x ≡ p = ground (arith, hit, f) in
        let later : closed_body (g p) ps ≡ false =
          closed_body-has (g p) ps (subst (λ (q : Payment). has_body (g q) ps ≡ false) same a) in
        rw (same, later, o) refl
    | inr miss ↦
        let there = has_body-found id ps p (ground (arith, miss, f)) in
        let other : str_eq (g x) (g p) ≡ false = elim (Bool-cases (str_eq (g x) (g p))) [
          | inl equal ↦ absurd (cc (a, there, (eq_iff (g x) (g p)).0 equal))
          | inr differ ↦ differ
        ] in
        ground (arith, other, open-unclosed id ps p more (ground (arith, miss, f)) o)
  ]
