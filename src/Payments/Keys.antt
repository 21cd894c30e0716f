-- ===== src/Payments/Keys.antt =====
-- The keys under which withdrawals post to the ledger: a tag, and the reference or the number of the
-- payment. Keys with different tags differ (services/payments and services/admin/queries.py).
use Prim.Native.String.{◌++◌ as append, count}
use text.Mathlib.Text.{◌==◌ as str_eq}
use text.Mathlib.TextEquality.{eq_iff}
use text.Mathlib.TextLemmas.{append_assoc, append_cancel_left, append_inj}
use igame.Common.{ℕ, ◌≡◌, refl, sym, ◌∙◌, false, String, ◌==◌, Bool-cases, inl, inr}

pub data Tag : Type 0 where
  settle reverse reject manual_settle manual_fail withdrawal : Tag

abbrev pub tag_text : Tag → String
tag_text settle = "payout-settle-"
tag_text reverse = "payout-reverse-"
tag_text reject = "payout-reject-"
tag_text manual_settle = "manual-payout-settle-"
tag_text manual_fail = "manual-payout-fail-"
tag_text withdrawal = "WD-"

abbrev pub tag_place : Tag → ℕ
tag_place settle = 0
tag_place reverse = 1
tag_place reject = 2
tag_place manual_settle = 3
tag_place manual_fail = 4
tag_place withdrawal = 5

abbrev pub key_for : Tag → String → String
key_for t body = append (tag_text t) body

-- Texts that differ in one part differ, whatever follows.
pub differ_at :
    (common h h' rest rest' a b : String)
    → count h ≡ count h'
    → str_eq h h' ≡ false
    → append (append common (append h rest)) a ≡ append (append common (append h' rest')) b
    → ⊥
differ_at common h h' rest rest' a b same other e =
    let inner =
      append_cancel_left common _ _ (
        sym (append_assoc common (append h rest) a)
        ∙ e
        ∙ append_assoc common (append h' rest') b) in
    let parts = append_inj (sym (append_assoc h rest a) ∙ inner ∙ append_assoc h' rest' b) same in
    cc (other, (eq_iff h h').1 parts.0)

pub tags_apart :
    (t u : Tag) (a b : String)
    → (tag_place t == tag_place u) ≡ false
    → key_for t a ≡ key_for u b
    → ⊥
tags_apart settle settle a b h e = cc h
tags_apart settle reverse a b h e = differ_at "payout-" "s" "r" "ettle-" "everse-" a b refl refl e
tags_apart settle reject a b h e = differ_at "payout-" "s" "r" "ettle-" "eject-" a b refl refl e
tags_apart settle manual_settle a b h e =
    differ_at "" "p" "m" "ayout-settle-" "anual-payout-settle-" a b refl refl e
tags_apart settle manual_fail a b h e =
    differ_at "" "p" "m" "ayout-settle-" "anual-payout-fail-" a b refl refl e
tags_apart settle withdrawal a b h e = differ_at "" "p" "W" "ayout-settle-" "D-" a b refl refl e
tags_apart reverse settle a b h e = differ_at "payout-" "r" "s" "everse-" "ettle-" a b refl refl e
tags_apart reverse reverse a b h e = cc h
tags_apart reverse reject a b h e = differ_at "payout-re" "v" "j" "erse-" "ect-" a b refl refl e
tags_apart reverse manual_settle a b h e =
    differ_at "" "p" "m" "ayout-reverse-" "anual-payout-settle-" a b refl refl e
tags_apart reverse manual_fail a b h e =
    differ_at "" "p" "m" "ayout-reverse-" "anual-payout-fail-" a b refl refl e
tags_apart reverse withdrawal a b h e = differ_at "" "p" "W" "ayout-reverse-" "D-" a b refl refl e
tags_apart reject settle a b h e = differ_at "payout-" "r" "s" "eject-" "ettle-" a b refl refl e
tags_apart reject reverse a b h e = differ_at "payout-re" "j" "v" "ect-" "erse-" a b refl refl e
tags_apart reject reject a b h e = cc h
tags_apart reject manual_settle a b h e =
    differ_at "" "p" "m" "ayout-reject-" "anual-payout-settle-" a b refl refl e
tags_apart reject manual_fail a b h e =
    differ_at "" "p" "m" "ayout-reject-" "anual-payout-fail-" a b refl refl e
tags_apart reject withdrawal a b h e = differ_at "" "p" "W" "ayout-reject-" "D-" a b refl refl e
tags_apart manual_settle settle a b h e =
    differ_at "" "m" "p" "anual-payout-settle-" "ayout-settle-" a b refl refl e
tags_apart manual_settle reverse a b h e =
    differ_at "" "m" "p" "anual-payout-settle-" "ayout-reverse-" a b refl refl e
tags_apart manual_settle reject a b h e =
    differ_at "" "m" "p" "anual-payout-settle-" "ayout-reject-" a b refl refl e
tags_apart manual_settle manual_settle a b h e = cc h
tags_apart manual_settle manual_fail a b h e =
    differ_at "manual-payout-" "s" "f" "ettle-" "ail-" a b refl refl e
tags_apart manual_settle withdrawal a b h e =
    differ_at "" "m" "W" "anual-payout-settle-" "D-" a b refl refl e
tags_apart manual_fail settle a b h e =
    differ_at "" "m" "p" "anual-payout-fail-" "ayout-settle-" a b refl refl e
tags_apart manual_fail reverse a b h e =
    differ_at "" "m" "p" "anual-payout-fail-" "ayout-reverse-" a b refl refl e
tags_apart manual_fail reject a b h e =
    differ_at "" "m" "p" "anual-payout-fail-" "ayout-reject-" a b refl refl e
tags_apart manual_fail manual_settle a b h e =
    differ_at "manual-payout-" "f" "s" "ail-" "ettle-" a b refl refl e
tags_apart manual_fail manual_fail a b h e = cc h
tags_apart manual_fail withdrawal a b h e =
    differ_at "" "m" "W" "anual-payout-fail-" "D-" a b refl refl e
tags_apart withdrawal settle a b h e = differ_at "" "W" "p" "D-" "ayout-settle-" a b refl refl e
tags_apart withdrawal reverse a b h e = differ_at "" "W" "p" "D-" "ayout-reverse-" a b refl refl e
tags_apart withdrawal reject a b h e = differ_at "" "W" "p" "D-" "ayout-reject-" a b refl refl e
tags_apart withdrawal manual_settle a b h e =
    differ_at "" "W" "m" "D-" "anual-payout-settle-" a b refl refl e
tags_apart withdrawal manual_fail a b h e =
    differ_at "" "W" "m" "D-" "anual-payout-fail-" a b refl refl e
tags_apart withdrawal withdrawal a b h e = cc h

pub key_apart :
    (t u : Tag) (a b : String)
    → (tag_place t == tag_place u) ≡ false
    → str_eq (key_for t a) (key_for u b) ≡ false
key_apart t u a b h = elim (Bool-cases (str_eq (key_for t a) (key_for u b))) [
  | inl same ↦ absurd (tags_apart t u a b h ((eq_iff (key_for t a) (key_for u b)).0 same))
  | inr other ↦ other
]

pub body_apart :
    (t : Tag) (a b : String) → str_eq a b ≡ false → str_eq (key_for t a) (key_for t b) ≡ false
body_apart t a b h = elim (Bool-cases (str_eq (key_for t a) (key_for t b))) [
  | inl same ↦
      let equal =
        append_cancel_left (tag_text t) a b ((eq_iff (key_for t a) (key_for t b)).0 same) in
      absurd (cc (h, (eq_iff a b).1 equal))
  | inr other ↦ other
]
