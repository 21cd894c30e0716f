-- ===== src/Keno/Tickets.antt =====
-- Which picks are a ticket, how many of them can match, and what a ticket can pay.
use igame.Common.{
  ℕ, ◌+◌, ◌*◌, ◌≤◌, ◌<◌, ◌≡◌, refl, inl, inr, true, false, ◌&&◌, ◌||◌, List, [], ◌∷◌, arith, leb,
  ◌==◌, if◌then◌else◌, length, Bool-cases,
}
use igame.Common.Counts.{contains}
use igame.Common.Result.{Result, ok, err}
use igame.Keno.{
  number_pool_size, KenoError, invalid_pick_count, duplicate_picks, pick_out_of_range, check_picks,
  validate_picks, count_matches, Multipliers, multiplier_of, compute_payout,
}

abbrev AllInPool : List ℕ → Type 0
AllInPool [] = Unit
AllInPool (x ∷ xs) = (1 ≤ x) × (x ≤ 80) × AllInPool xs

abbrev pub Distinct : List ℕ → Type 0
Distinct [] = Unit
Distinct (x ∷ xs) = (contains x xs ≡ false) × Distinct xs

-- None of `xs` has been seen.
abbrev Unseen : List ℕ → List ℕ → Type 0
Unseen seen [] = Unit
Unseen seen (x ∷ xs) = (contains x seen ≡ false) × Unseen seen xs

-- What the loop's answer says of the picks that were left.
abbrev Checks : List ℕ → List ℕ → Result KenoError (List ℕ) → Type 0
Checks seen rest (ok kept) =
    AllInPool rest
    × Distinct rest
    × Unseen seen rest
    × ((a : ℕ) → contains a kept ≡ (contains a seen || contains a rest))
    × (Distinct seen → Distinct kept)
    × (length kept ≡ length seen + length rest)
Checks seen rest (err (pick_out_of_range v)) = (contains v rest ≡ true) × ¬ ((1 ≤ v) × (v ≤ 80))
Checks seen rest (err (duplicate_picks _)) = ¬ (Distinct rest × Unseen seen rest)
Checks seen rest (err (invalid_pick_count _)) = ⊥

Unseen-cons :
    (x : ℕ) (seen xs : List ℕ) → Unseen (x ∷ seen) xs → (contains x xs ≡ false) × Unseen seen xs
Unseen-cons x seen [] h = (refl, tt)
Unseen-cons x seen (y ∷ ys) h = ground (arith, Unseen-cons x seen ys h.1)

cons-Unseen :
    (x : ℕ) (seen xs : List ℕ) → contains x xs ≡ false → Unseen seen xs → Unseen (x ∷ seen) xs
cons-Unseen x seen [] e h = tt
cons-Unseen x seen (y ∷ ys) e h = ground (arith, cons-Unseen x seen ys)

Checks-step :
    (x : ℕ) (seen xs : List ℕ) (r : Result KenoError (List ℕ))
    → (1 ≤ x) × (x ≤ 80)
    → contains x seen ≡ false
    → Checks (x ∷ seen) xs r
    → Checks seen (x ∷ xs) r
Checks-step x seen xs (ok kept) inside new h = (
  (inside.0, inside.1, h.0),
  ((Unseen-cons x seen xs h.2).0, h.1),
  (new, (Unseen-cons x seen xs h.2).1),
  λ a. ground (arith, h.3 a),
  λ d. h.4 (new, d),
  omega (arith, h.5),
)
Checks-step x seen xs (err (pick_out_of_range v)) inside new h = ground arith
Checks-step x seen xs (err (duplicate_picks _)) inside new h =
    λ all. h (all.0.1, cons-Unseen x seen xs all.0.0 all.1.1)
Checks-step x seen xs (err (invalid_pick_count _)) inside new h = h

check_picks-Checks : (picks seen xs : List ℕ) → Checks seen xs (check_picks picks seen xs)
unfolding check_picks
check_picks-Checks picks seen [] = (tt, tt, tt, λ a. ground arith, λ d. d, omega arith)
check_picks-Checks picks seen (x ∷ xs) = elim (Bool-cases (leb 1 x && leb x number_pool_size)) [
  | inr out ↦ rw out (ground arith)
  | inl inside ↦ elim (Bool-cases (contains x seen)) [
    | inl old ↦ rw (inside, old) (λ all. ground arith)
    | inr new ↦
        rw (inside, new)
          (Checks-step x seen xs (check_picks picks (x ∷ seen) xs) (ground arith) new
            (check_picks-Checks picks (x ∷ seen) xs))
  ]
]

AllInPool-mem : (v : ℕ) (xs : List ℕ) → AllInPool xs → contains v xs ≡ true → (1 ≤ v) × (v ≤ 80)
AllInPool-mem v [] h m = cc
AllInPool-mem v (x ∷ xs) h m = ground (arith, AllInPool-mem v xs h.2)

Unseen-by_none : (xs : List ℕ) → Unseen [] xs
Unseen-by_none [] = tt
Unseen-by_none (x ∷ xs) = (refl, Unseen-by_none xs)

-- Picks that make a ticket: between `low` and `high` of them, each from 1 to 80, none twice.
abbrev IsTicket : ℕ → ℕ → List ℕ → Type 0
IsTicket low high picks =
    (low ≤ length picks) × (length picks ≤ high) × AllInPool picks × Distinct picks

abbrev pub Validates : ℕ → ℕ → List ℕ → Result KenoError (List ℕ) → Type 0
Validates low high picks (ok kept) =
    IsTicket low high picks
    × ((a : ℕ) → contains a kept ≡ contains a picks)
    × Distinct kept
    × (length kept ≡ length picks)
Validates low high picks (err _) = ¬ IsTicket low high picks

checked-Validates :
    (low high : ℕ) (picks : List ℕ) (r : Result KenoError (List ℕ))
    → (low ≤ length picks) × (length picks ≤ high)
    → Checks [] picks r
    → Validates low high picks r
checked-Validates low high picks (ok kept) b h =
    ((b.0, b.1, h.0, h.1), h.3, h.4 tt, omega (arith, h.5))
checked-Validates low high picks (err (pick_out_of_range v)) b h =
    λ t. h.1 (AllInPool-mem v picks t.2 h.0)
checked-Validates low high picks (err (duplicate_picks _)) b h = λ t. h (t.3, Unseen-by_none picks)
checked-Validates low high picks (err (invalid_pick_count _)) b h = absurd h

-- `validate_picks` accepts exactly the tickets, and keeps the same numbers, none dropped and none
-- twice; it raises exactly for picks that are no ticket.
pub validate_picks-Validates :
    (picks : List ℕ) (low high : ℕ) → Validates low high picks (validate_picks picks low high)
unfolding validate_picks
validate_picks-Validates picks low high =
    elim (Bool-cases (leb low (length picks) && leb (length picks) high)) [
      | inr out ↦ rw out (ground arith)
      | inl fits ↦ rw fits (
          checked-Validates low high picks (check_picks picks [] picks) (ground arith)
            (check_picks-Checks picks [] picks))
    ]

remove_first : ℕ → List ℕ → List ℕ
remove_first a [] = []
remove_first a (x ∷ xs) = if x == a then xs else x ∷ remove_first a xs

length-remove :
    (a : ℕ) (xs : List ℕ) → contains a xs ≡ true → length (remove_first a xs) + 1 ≡ length xs
unfolding remove_first
length-remove a [] h = cc
length-remove a (x ∷ xs) h = ground (arith, length-remove a xs)

contains-remove :
    (a b : ℕ) (xs : List ℕ) → (a == b) ≡ false → contains b (remove_first a xs) ≡ contains b xs
unfolding remove_first
contains-remove a b [] h = refl
contains-remove a b (x ∷ xs) h = ground (arith, contains-remove a b xs h)

count_matches-remove :
    (a : ℕ) (ps drawn : List ℕ)
    → contains a ps ≡ false
    → count_matches ps (remove_first a drawn) ≡ count_matches ps drawn
unfolding count_matches
count_matches-remove a [] drawn h = refl
count_matches-remove a (p ∷ ps) drawn h =
    ground (arith, count_matches-remove a ps drawn, contains-remove a p drawn)

-- A ticket matches no more numbers than it has, and no more than were drawn.
count_matches-le :
    (picks drawn : List ℕ)
    → Distinct picks
    → (count_matches picks drawn ≤ length picks) × (count_matches picks drawn ≤ length drawn)
unfolding count_matches
count_matches-le [] drawn h = omega arith
count_matches-le (p ∷ ps) drawn h = ground (
  arith,
  count_matches-le ps drawn h.1,
  count_matches-le ps (remove_first p drawn) h.1,
  count_matches-remove p ps drawn h.0,
  length-remove p drawn,
)

-- A payout is never above the cap; below the cap it is the stake times the multiplier, less the
-- part of a cent that is cut off.
compute_payout_bounds :
    (stake matches : ℕ) (multipliers : Multipliers) (cap : ℕ)
    → let paid = compute_payout stake matches multipliers cap in
      (paid ≤ cap)
      × (paid * 10000 ≤ stake * multiplier_of matches multipliers)
      × (paid < cap → stake * multiplier_of matches multipliers < (paid + 1) * 10000)
unfolding compute_payout
compute_payout_bounds stake matches multipliers cap = (omega arith, omega arith, omega arith)
