-- ===== src/Payments/Free.antt =====
-- The keys that an open withdrawal will end with are still free.
use text.Mathlib.Text.{◌==◌ as str_eq}
use text.Mathlib.TextEquality.{eq_iff}
use igame.Common.{
  ℕ, ◌+◌, ◌<◌, ◌≡◌, refl, sym, ◌∙◌, Bool, true, false, some, String, List, [], ◌∷◌, arith,
  Bool-cases, inl, inr,
}
use igame.Payments.{Payment, find_payment, has_ref}
use igame.Payments.Payouts.{decimal}
use igame.Payments.Reference.Unique.{decimal-injective}
use igame.Payments.Keys.{Tag, settle, reverse, reject, manual_settle, manual_fail, withdrawal}
use igame.Payments.Open.{is_open, InOrder, UniqueRefs}
use igame.Payments.Taken.{body_of, taken, has_body, closed_body, Apart, open-unclosed}

abbrev pub is_end : Tag → Bool
is_end withdrawal = false
is_end _ = true

taken-closed :
    (t : Tag) (b : String) (ps : List Payment)
    → is_end t ≡ true
    → taken t b ps ≡ closed_body (body_of t) b ps
unfolding taken closed_body
taken-closed settle b [] h = refl
taken-closed settle b (p ∷ ps) h = rw (taken-closed settle b ps h) refl
taken-closed reverse b [] h = refl
taken-closed reverse b (p ∷ ps) h = rw (taken-closed reverse b ps h) refl
taken-closed reject b [] h = refl
taken-closed reject b (p ∷ ps) h = rw (taken-closed reject b ps h) refl
taken-closed manual_settle b [] h = refl
taken-closed manual_settle b (p ∷ ps) h = rw (taken-closed manual_settle b ps h) refl
taken-closed manual_fail b [] h = refl
taken-closed manual_fail b (p ∷ ps) h = rw (taken-closed manual_fail b ps h) refl
taken-closed withdrawal b ps h = cc

has_ref-body :
    (ref : String) (ps : List Payment) → has_ref ref ps ≡ has_body (λ p. p.our_ref) ref ps
unfolding has_ref has_body
has_ref-body ref [] = refl
has_ref-body ref (p ∷ ps) = rw (has_ref-body ref ps) refl

UniqueRefs-Apart : (ps : List Payment) → UniqueRefs ps → Apart (λ p. p.our_ref) ps
UniqueRefs-Apart [] u = tt
UniqueRefs-Apart (p ∷ ps) (h, more) =
    (sym (has_ref-body p.our_ref ps) ∙ h, UniqueRefs-Apart ps more)

later_ids :
    (m n : ℕ) (ps : List Payment)
    → InOrder n ps
    → m < n
    → has_body (λ p. decimal p.id) (decimal m) ps ≡ false
unfolding has_body
later_ids m n [] o l = refl
later_ids m n (p ∷ ps) (h, more) l = elim (Bool-cases (str_eq (decimal p.id) (decimal m))) [
  | inl same ↦
      let equal = decimal-injective p.id m ((eq_iff (decimal p.id) (decimal m)).0 same) in
      absurd (omega (arith, equal, h, l))
  | inr other ↦ rw (other, later_ids m (n + 1) ps more (omega (arith, l))) refl
]

InOrder-Apart : (n : ℕ) (ps : List Payment) → InOrder n ps → Apart (λ p. decimal p.id) ps
InOrder-Apart n [] o = tt
InOrder-Apart n (p ∷ ps) (h, more) =
    (later_ids p.id (n + 1) ps more (omega (arith, h)), InOrder-Apart (n + 1) ps more)

body_of-Apart :
    (t : Tag) (n : ℕ) (ps : List Payment)
    → is_end t ≡ true
    → InOrder n ps
    → UniqueRefs ps
    → Apart (body_of t) ps
body_of-Apart settle n ps h o u = UniqueRefs-Apart ps u
body_of-Apart reverse n ps h o u = UniqueRefs-Apart ps u
body_of-Apart reject n ps h o u = InOrder-Apart n ps o
body_of-Apart manual_settle n ps h o u = UniqueRefs-Apart ps u
body_of-Apart manual_fail n ps h o u = InOrder-Apart n ps o
body_of-Apart withdrawal n ps h o u = cc

pub open-untaken :
    (t : Tag) (id n : ℕ) (ps : List Payment) (p : Payment)
    → is_end t ≡ true
    → InOrder n ps
    → UniqueRefs ps
    → find_payment id ps ≡ some p
    → is_open p ≡ true
    → taken t (body_of t p) ps ≡ false
open-untaken t id n ps p h o u f open_still =
    taken-closed t (body_of t p) ps h
    ∙ open-unclosed (body_of t) id ps p (body_of-Apart t n ps h o u) f open_still
