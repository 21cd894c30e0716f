-- ===== src/Payments/Reference.antt =====
-- The reference of a payment, as the queries of services/payments/withdrawals.py and deposits.py build
-- it: a prefix, the year, and the next number of a sequence, padded by `lpad` to six digits.
use Prim.Native.String.{◌++◌ as append}
pub mod Unique
use mathlib.Core.Path.{subst}
use igame.Common.{
  true, ℕ, zero, suc, ◌+◌, ◌-◌, ◌*◌, ◌/◌, ◌%◌, ◌≤◌, ◌<◌, ◌≡◌, refl, false, ap, sym, ◌∙◌, String,
  List, [], ◌∷◌, ◌++◌, arith, ltb, leb, if◌then◌else◌, length, take, get_or, replicate,
  length-append, Bool-cases, inl, inr,
}

-- The digits of a number, the first one first; `fuel` is above their count.
unfoldable pub digits_of : ℕ → ℕ → List ℕ
digits_of zero n = []
digits_of (suc fuel) n =
    let more = digits_of fuel (n / 10) in if ltb n 10 then n ∷ [] else more ++ n % 10 ∷ []

-- `lpad(text, width, '0')` cuts a longer text after `width` characters.
unfoldable pub lpad : ℕ → List ℕ → List ℕ
lpad width ds =
    if leb width (length ds) then take width ds else replicate (width - length ds) 0 ++ ds

abbrev pub digit_texts : List String
digit_texts = "0" ∷ "1" ∷ "2" ∷ "3" ∷ "4" ∷ "5" ∷ "6" ∷ "7" ∷ "8" ∷ "9" ∷ []

unfoldable pub text_of : List ℕ → String
text_of [] = ""
text_of (d ∷ ds) = append (get_or digit_texts d "") (text_of ds)

-- The padded digits of a number of the sequence.
unfoldable pub sequence_digits : ℕ → List ℕ
unfolding digits_of lpad
sequence_digits n = lpad 6 (digits_of (suc n) n)

unfoldable pub reference : String → ℕ → ℕ → String
unfolding text_of sequence_digits
reference prefix year n =
    append prefix
      (append (text_of (digits_of (suc year) year)) (append "-" (text_of (sequence_digits n))))

-- The number that digits write.
unfoldable pub value : ℕ → List ℕ → ℕ
value acc [] = acc
value acc (d ∷ ds) = value (acc * 10 + d) ds

value-append : (acc : ℕ) (ds : List ℕ) (d : ℕ) → value acc (ds ++ d ∷ []) ≡ value acc ds * 10 + d
unfolding value
value-append acc [] d = refl
value-append acc (e ∷ ds) d = value-append (acc * 10 + e) ds d

pub value-digits : (fuel n : ℕ) → n < fuel → value 0 (digits_of fuel n) ≡ n
unfolding digits_of value
value-digits zero n h = absurd (omega arith)
value-digits (suc fuel) n h = elim (Bool-cases (ltb n 10)) [
  | inl small ↦ rw small (omega arith)
  | inr large ↦
      let shorter : n / 10 < fuel = ground (arith, h, large) in
      rw large (
        value-append 0 (digits_of fuel (n / 10)) (n % 10)
        ∙ (omega (arith, value-digits fuel (n / 10) shorter)))
]

value-zeros : (k : ℕ) (ds : List ℕ) → value 0 (replicate k 0 ++ ds) ≡ value 0 ds
unfolding value
value-zeros zero ds = refl
value-zeros (suc k) ds = value-zeros k ds

abbrev pub tens : ℕ → ℕ
tens zero = 1
tens (suc k) = tens k * 10

-- A number below `10 ^ k` has `k` digits at most, and has more from there on.
digits-short : (k fuel n : ℕ) → n < fuel → n < tens (suc k) → length (digits_of fuel n) ≤ suc k
unfolding digits_of
digits-short k zero n h b = absurd (omega arith)
digits-short zero (suc fuel) n h b = ground (arith, b)
digits-short (suc k) (suc fuel) n h b = elim (Bool-cases (ltb n 10)) [
  | inl small ↦ rw small (omega arith)
  | inr large ↦
      let shorter : n / 10 < fuel = ground (arith, h, large) in
      let below : n / 10 < tens (suc k) = omega (arith, b) in
      rw large (
        omega (
          arith,
          digits-short k fuel (n / 10) shorter below,
          length-append (digits_of fuel (n / 10)) (n % 10 ∷ []),
        ))
]

digits-long : (k fuel n : ℕ) → n < fuel → tens k ≤ n → k < length (digits_of fuel n)
unfolding digits_of
digits-long k zero n h b = absurd (omega arith)
digits-long zero (suc fuel) n h b = elim (Bool-cases (ltb n 10)) [
  | inl small ↦ rw small (omega arith)
  | inr large ↦ rw large (omega (arith, length-append (digits_of fuel (n / 10)) (n % 10 ∷ [])))
]
digits-long (suc k) (suc fuel) n h b =
    let positive = tens_pos k in
    let large : ltb n 10 ≡ false = ground (arith, b, positive) in
    let shorter : n / 10 < fuel = ground (arith, h, large) in
    rw large (
      omega (
        arith,
        digits-long k fuel (n / 10) shorter (omega (arith, b)),
        length-append (digits_of fuel (n / 10)) (n % 10 ∷ []),
      ))
  where
    tens_pos : (j : ℕ) → 1 ≤ tens j
    tens_pos zero = omega arith
    tens_pos (suc j) = omega (arith, tens_pos j)

digits-fuel : (f g n : ℕ) → n < f → n < g → digits_of f n ≡ digits_of g n
unfolding digits_of
digits-fuel zero g n hf hg = absurd (omega arith)
digits-fuel (suc f) zero n hf hg = absurd (omega arith)
digits-fuel (suc f) (suc g) n hf hg = elim (Bool-cases (ltb n 10)) [
  | inl small ↦ rw small refl
  | inr large ↦
      let low : n / 10 < f = ground (arith, hf, large) in
      let low' : n / 10 < g = ground (arith, hg, large) in
      rw large (ap (λ (ds : List ℕ). ds ++ n % 10 ∷ []) (digits-fuel f g (n / 10) low low'))
]

take_all : (k : ℕ) (ds : List ℕ) → length ds ≤ k → take k ds ≡ ds
take_all zero [] h = refl
take_all zero (d ∷ ds) h = absurd (omega arith)
take_all (suc k) [] h = refl
take_all (suc k) (d ∷ ds) h = ap (λ (es : List ℕ). d ∷ es) (take_all k ds (omega (arith, h)))

take-append : (ds es : List ℕ) → take (length ds) (ds ++ es) ≡ ds
take-append [] es = refl
take-append (d ∷ ds) es = ap (λ (xs : List ℕ). d ∷ xs) (take-append ds es)

-- Below a million, the six digits of a reference are those of its number.
pub value-sequence : (n : ℕ) → n < 1000000 → value 0 (sequence_digits n) ≡ n
unfolding sequence_digits lpad
value-sequence n h =
    let short = digits-short 5 (suc n) n (omega arith) h in
    elim (Bool-cases (leb 6 (length (digits_of (suc n) n)))) [
      | inl full ↦
          rw (full, take_all 6 (digits_of (suc n) n) short) (value-digits (suc n) n (omega arith))
      | inr few ↦
          rw (few, value-zeros (6 - length (digits_of (suc n) n)) (digits_of (suc n) n))
            (value-digits (suc n) n (omega arith))
    ]

sequence_digits_lem : (n : ℕ) → sequence_digits n ≡ lpad 6 (digits_of (suc n) n)
unfolding sequence_digits
sequence_digits_lem n = refl

digits-step :
    (fuel n : ℕ) → 10 ≤ n → digits_of (suc fuel) n ≡ digits_of fuel (n / 10) ++ n % 10 ∷ []
unfolding digits_of
digits-step fuel n h = let large : ltb n 10 ≡ false = ground arith in rw large refl

lpad-exact : (ds : List ℕ) → length ds ≡ 6 → lpad 6 ds ≡ ds
unfolding lpad
lpad-exact ds h =
    let full : leb 6 (length ds) ≡ true = ground (arith, h) in
    rw full (take_all 6 ds (omega (arith, h)))

lpad-cuts : (ds : List ℕ) (d : ℕ) → length ds ≡ 6 → lpad 6 (ds ++ d ∷ []) ≡ ds
unfolding lpad
lpad-cuts ds d h =
    let full : leb 6 (length (ds ++ d ∷ [])) ≡ true =
      ground (arith, h, length-append ds (d ∷ [])) in
    rw full (subst (λ (k : ℕ). take k (ds ++ d ∷ []) ≡ ds) h (take-append ds (d ∷ [])))

-- From a million on, `lpad` cuts the last digit off: the number has the digits of its tenth part.
pub sequence_digits-wraps :
    (n : ℕ) → 1000000 ≤ n → n < 10000000 → sequence_digits n ≡ sequence_digits (n / 10)
sequence_digits-wraps n lo hi =
    let tenth = digits_of (suc (n / 10)) (n / 10) in
    let six : length tenth ≡ 6 = omega (
      arith,
      digits-short 5 (suc (n / 10)) (n / 10) (omega arith) (omega arith),
      digits-long 5 (suc (n / 10)) (n / 10) (omega arith) (omega arith),
    ) in
    sequence_digits_lem n
    ∙ ap (lpad 6) (
        digits-step n n (omega arith)
        ∙ ap (λ (ds : List ℕ). ds ++ n % 10 ∷ [])
            (digits-fuel n (suc (n / 10)) (n / 10) (omega arith) (omega arith)))
    ∙ lpad-cuts tenth (n % 10) six
    ∙ sym (lpad-exact tenth six)
    ∙ sym (sequence_digits_lem (n / 10))

-- From a million on, a reference is also the reference of the tenth part of its number.
pub reference-wraps :
    (prefix : String) (year n : ℕ)
    → 1000000 ≤ n
    → n < 10000000
    → reference prefix year n ≡ reference prefix year (n / 10)
unfolding reference
reference-wraps prefix year n lo hi = rw (sequence_digits-wraps n lo hi) refl
