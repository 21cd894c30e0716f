-- ===== src/Payments/Reference/Unique.antt =====
-- Two payments of a year have the same reference only if they have the same number, below a million.
use Prim.Native.String.{count}
use text.Mathlib.Text.{◌==◌ as str_eq}
use text.Mathlib.TextEquality.{eq_iff}
use text.Mathlib.TextLemmas.{append_cancel_left, append_inj, append-eq-nil_iff}
use igame.Common.{
  ℕ, zero, suc, ◌-◌, ◌/◌, ◌%◌, ◌<◌, ◌≡◌, refl, ap, sym, ◌∙◌, true, String, List, [], ◌∷◌, ◌++◌,
  arith, ltb, leb, length, take, get_or, replicate, Bool-cases, ==_iff, ◌==◌, not, ◌||◌, all_below,
  all_below_sound, inl, inr,
}
use igame.Payments.Reference.{
  digits_of, lpad, digit_texts, text_of, sequence_digits, reference, value, value-sequence,
  value-digits,
}

abbrev AllDigits : List ℕ → Type 0
AllDigits [] = Unit
AllDigits (d ∷ ds) = (d < 10) × AllDigits ds

AllDigits-append : (ds : List ℕ) (d : ℕ) → AllDigits ds → d < 10 → AllDigits (ds ++ d ∷ [])
AllDigits-append [] d h k = (k, tt)
AllDigits-append (e ∷ ds) d h k = (h.0, AllDigits-append ds d h.1 k)

AllDigits-take : (k : ℕ) (ds : List ℕ) → AllDigits ds → AllDigits (take k ds)
AllDigits-take zero ds h = tt
AllDigits-take (suc k) [] h = tt
AllDigits-take (suc k) (d ∷ ds) h = (h.0, AllDigits-take k ds h.1)

AllDigits-zeros : (k : ℕ) (ds : List ℕ) → AllDigits ds → AllDigits (replicate k 0 ++ ds)
AllDigits-zeros zero ds h = h
AllDigits-zeros (suc k) ds h = (omega arith, AllDigits-zeros k ds h)

digits_of-AllDigits : (fuel n : ℕ) → AllDigits (digits_of fuel n)
unfolding digits_of
digits_of-AllDigits zero n = tt
digits_of-AllDigits (suc fuel) n = elim (Bool-cases (ltb n 10)) [
  | inl small ↦ rw small (ground (arith, small), tt)
  | inr large ↦ rw large (
      AllDigits-append (digits_of fuel (n / 10)) (n % 10) (digits_of-AllDigits fuel (n / 10))
        (omega arith))
]

lpad-AllDigits : (k : ℕ) (ds : List ℕ) → AllDigits ds → AllDigits (lpad k ds)
unfolding lpad
lpad-AllDigits k ds h = elim (Bool-cases (leb k (length ds))) [
  | inl full ↦ rw full (AllDigits-take k ds h)
  | inr few ↦ rw few (AllDigits-zeros (k - length ds) ds h)
]

sequence_digits-AllDigits : (n : ℕ) → AllDigits (sequence_digits n)
unfolding sequence_digits
sequence_digits-AllDigits n = lpad-AllDigits 6 (digits_of (suc n) n) (digits_of-AllDigits (suc n) n)

-- Each digit is written by one character, and no two by the same.
one_character : all_below 10 (λ d. count (get_or digit_texts d "") == 1) ≡ true
unfolding all_below
one_character = refl

told_apart :
    all_below 10 (λ d.
      all_below 10
        (λ e. not (str_eq (get_or digit_texts d "") (get_or digit_texts e "")) || d == e))
    ≡ true
unfolding all_below
told_apart = refl

digit_count : (d : ℕ) → d < 10 → count (get_or digit_texts d "") ≡ 1
digit_count d h =
    (==_iff (count (get_or digit_texts d "")) 1).0
      (all_below_sound 10 (λ k. count (get_or digit_texts k "") == 1) d one_character h)

digit_injective :
    (d e : ℕ) → d < 10 → e < 10 → get_or digit_texts d "" ≡ get_or digit_texts e "" → d ≡ e
digit_injective d e hd he same =
    let row =
      all_below_sound 10
        (λ k.
          all_below 10
            (λ j. not (str_eq (get_or digit_texts k "") (get_or digit_texts j "")) || k == j))
        d told_apart hd in
    let cell =
      all_below_sound 10
        (λ j. not (str_eq (get_or digit_texts d "") (get_or digit_texts j "")) || d == j) e row
        he in
    let equal = (eq_iff (get_or digit_texts d "") (get_or digit_texts e "")).1 same in
    (==_iff d e).0 (ground (arith, cell, equal))

nonempty : (d : ℕ) (ds : List ℕ) → d < 10 → text_of (d ∷ ds) ≡ "" → ⊥
unfolding text_of
nonempty d ds h e =
    let parts = (append-eq-nil_iff {p = get_or digit_texts d ""} {q = text_of ds}).0 e in
    let zero_count : count (get_or digit_texts d "") ≡ 0 = ap count parts.0 in
    absurd (omega (arith, digit_count d h, zero_count))

text_of-injective :
    (ds es : List ℕ) → AllDigits ds → AllDigits es → text_of ds ≡ text_of es → ds ≡ es
unfolding text_of
text_of-injective [] [] hd he e = refl
text_of-injective [] (y ∷ es) hd he e = absurd (nonempty y es he.0 (sym e))
text_of-injective (x ∷ ds) [] hd he e = absurd (nonempty x ds hd.0 e)
text_of-injective (x ∷ ds) (y ∷ es) hd he e =
    let parts = append_inj e (digit_count x hd.0 ∙ sym (digit_count y he.0)) in
    let heads = digit_injective x y hd.0 he.0 parts.0 in
    let tails = text_of-injective ds es hd.1 he.1 parts.1 in cc

-- Below a million, payments with the same prefix and year have the same reference only if they have the
-- same number of the sequence.
pub reference-injective :
    (prefix : String) (year n m : ℕ)
    → n < 1000000
    → m < 1000000
    → reference prefix year n ≡ reference prefix year m
    → n ≡ m
unfolding reference
reference-injective prefix year n m hn hm e =
    let year_text = text_of (digits_of (suc year) year) in
    let tails =
      append_cancel_left "-" (text_of (sequence_digits n)) (text_of (sequence_digits m))
        (append_cancel_left year_text _ _ (append_cancel_left prefix _ _ e)) in
    let digits =
      text_of-injective (sequence_digits n) (sequence_digits m) (sequence_digits-AllDigits n)
        (sequence_digits-AllDigits m) tails in
    sym (value-sequence n hn) ∙ ap (value 0) digits ∙ value-sequence m hm

-- A number is known from its decimal text.
pub decimal-injective :
    (n m : ℕ) → text_of (digits_of (suc n) n) ≡ text_of (digits_of (suc m) m) → n ≡ m
decimal-injective n m e =
    let digits =
      text_of-injective (digits_of (suc n) n) (digits_of (suc m) m) (digits_of-AllDigits (suc n) n)
        (digits_of-AllDigits (suc m) m) e in
    sym (value-digits (suc n) n (omega arith))
    ∙ ap (value 0) digits
    ∙ value-digits (suc m) m (omega arith)
