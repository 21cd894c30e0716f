-- ===== src/Common/Counts.antt =====
-- How often a number stands in a list, and what the updates of a list do to it: the facts behind
-- "a permutation".
use igame.Common.{
  ℕ, zero, suc, ◌+◌, ◌<◌, ◌≡◌, ◌↔◌, refl, Bool, true, false, ◌||◌, ◌&&◌, List, [], ◌∷◌, ◌++◌, arith,
  ltb, leb, ◌==◌, if◌then◌else◌, length, get_or, set, length-set, ap,
}

-- `range(lo, lo + n)`
abbrev pub range : ℕ → ℕ → List ℕ
range lo zero = []
range lo (suc n) = lo ∷ range (lo + 1) n

abbrev pub one_if : Bool → ℕ
one_if true = 1
one_if false = 0

abbrev pub count : ℕ → List ℕ → ℕ
count a [] = 0
count a (x ∷ xs) = one_if (x == a) + count a xs

-- `a in xs`
abbrev pub contains : ℕ → List ℕ → Bool
contains a [] = false
contains a (x ∷ xs) = x == a || contains a xs

-- `xs[i], xs[j] = xs[j], xs[i]`
unfoldable pub swap : List ℕ → ℕ → ℕ → List ℕ
swap xs i j = set (set xs i (get_or xs j 0)) j (get_or xs i 0)

pub length-range : (n lo : ℕ) → length (range lo n) ≡ n
length-range zero lo = refl
length-range (suc n) lo = ap suc (length-range n (lo + 1))

pub count-append :
    (n : ℕ) (left right : List ℕ) → count n (left ++ right) ≡ count n left + count n right
count-append n [] right = omega arith
count-append n (m ∷ left) right = omega (arith, count-append n left right)

pub count-range : (n a lo : ℕ) → count a (range lo n) ≡ one_if (leb lo a && ltb a (lo + n))
count-range zero a lo = ground arith
count-range (suc n) a lo = ground (arith, count-range n a (lo + 1))

pub count-set :
    (a : ℕ) (xs : List ℕ) (i v : ℕ)
    → i < length xs
    → count a (set xs i v) + one_if (get_or xs i 0 == a) ≡ count a xs + one_if (v == a)
count-set a [] i v h = elim h [ ]
count-set a (x ∷ xs) zero v h = omega arith
count-set a (x ∷ xs) (suc i) v h = omega (arith, count-set a xs i v (omega arith))

get_or-set :
    (xs : List ℕ) (i j v : ℕ)
    → i < length xs
    → get_or (set xs i v) j 0 ≡ (if i == j then v else get_or xs j 0)
get_or-set [] i j v h = elim h [ ]
get_or-set (x ∷ xs) zero zero v h = refl
get_or-set (x ∷ xs) zero (suc j) v h = ground arith
get_or-set (x ∷ xs) (suc i) zero v h = ground arith
get_or-set (x ∷ xs) (suc i) (suc j) v h = ground (arith, get_or-set xs i j v)

pub length-swap : (xs : List ℕ) (i j : ℕ) → length (swap xs i j) ≡ length xs
unfolding swap
length-swap xs i j = omega (
  arith,
  length-set (set xs i (get_or xs j 0)) j (get_or xs i 0),
  length-set xs i (get_or xs j 0),
)

-- A swap within bounds keeps every count.
pub count-swap :
    (a : ℕ) (xs : List ℕ) (i j : ℕ)
    → i < length xs
    → j < length xs
    → count a (swap xs i j) ≡ count a xs
unfolding swap
count-swap a xs i j hi hj = ground (
  arith,
  count-set a xs i (get_or xs j 0) hi,
  length-set xs i (get_or xs j 0),
  count-set a (set xs i (get_or xs j 0)) j (get_or xs i 0),
  get_or-set xs i j (get_or xs j 0) hi,
)

pub contains-iff-count : (a : ℕ) (xs : List ℕ) → contains a xs ≡ leb 1 (count a xs)
contains-iff-count a [] = refl
contains-iff-count a (x ∷ xs) = ground (arith, contains-iff-count a xs)

-- `xs == ys` on lists of numbers.
abbrev pub list_eq : List ℕ → List ℕ → Bool
list_eq [] [] = true
list_eq (x ∷ xs) (y ∷ ys) = x == y && list_eq xs ys
list_eq _ _ = false

pub list_eq_iff : (xs ys : List ℕ) → (list_eq xs ys ≡ true) ↔ (xs ≡ ys)
list_eq_iff [] [] = ground arith
list_eq_iff [] (y ∷ ys) = ground arith
list_eq_iff (x ∷ xs) [] = ground arith
list_eq_iff (x ∷ xs) (y ∷ ys) = ground (arith, list_eq_iff xs ys)

-- `xs` without what stands at `i`, as `xs.pop(i)` leaves it.
abbrev pub remove_at : ℕ → List ℕ → List ℕ
remove_at i [] = []
remove_at zero (x ∷ xs) = xs
remove_at (suc i) (x ∷ xs) = x ∷ remove_at i xs

pub length-remove_at :
    (i : ℕ) (xs : List ℕ) → i < length xs → length (remove_at i xs) + 1 ≡ length xs
length-remove_at i [] h = elim h [ ]
length-remove_at zero (x ∷ xs) h = omega arith
length-remove_at (suc i) (x ∷ xs) h = omega (arith, length-remove_at i xs (omega arith))

pub count-remove_at :
    (a i : ℕ) (xs : List ℕ)
    → i < length xs
    → count a (remove_at i xs) + one_if (get_or xs i 0 == a) ≡ count a xs
count-remove_at a i [] h = elim h [ ]
count-remove_at a zero (x ∷ xs) h = omega arith
count-remove_at a (suc i) (x ∷ xs) h = omega (arith, count-remove_at a i xs (omega arith))
