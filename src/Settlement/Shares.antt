-- ===== src/Settlement/Shares.antt =====
-- Nothing is lost or made up between the pot, the shares and the house.
use native.Mathlib.Nat.{mul-le-mul_left, div-mul-le_self, lt-div-mul-add}
use igame.Common.{
  ℕ, zero, suc, ◌+◌, ◌-◌, ◌*◌, ◌/◌, ◌≤◌, ◌<◌, ◌≡◌, refl, ap, true, ◌⊎◌, ◌↔◌, List, [], ◌∷◌, arith,
  replicate,
}
use igame.Common.Int.{ℤ, pos, ◌+ℤ◌, ◌-ℤ◌, ◌*ℤ◌, ◌≤ℤ◌, ltb_ℤ}
use igame.Common.Result.{ok, err}
use igame.Settlement.{negative_pot, bad_house_cut, compute_derash, split_derash}

abbrev pub sum : List ℤ → ℤ
sum [] = pos 0
sum (x ∷ xs) = x +ℤ sum xs

-- The players' part of a pot, in whole cents.
abbrev pub part : ℕ → ℕ → ℕ
part pot bps = pot * (10000 - bps) / 10000

part-le : (pot bps : ℕ) → part pot bps ≤ pot
part-le pot bps = omega (arith, mul-le-mul_left {m = 10000 - bps} {n = 10000} pot (omega arith))

pos-ℤ : (a b : ℕ) → b ≤ a → pos a -ℤ pos b ≡ pos (a - b)
unfolding ◌-ℤ◌
pos-ℤ a b h = ground arith

pos*ℤ : (a b : ℕ) → pos a *ℤ pos b ≡ pos (a * b)
unfolding ◌*ℤ◌
pos*ℤ a b = ground arith

pub compute_derash_lem :
    (pot bps : ℕ)
    → bps ≤ 10000
    → compute_derash (pos pot) (pos bps) ≡ ok (pos (part pot bps), pos (pot - part pot bps))
unfolding compute_derash
compute_derash_lem pot bps h =
    rw (pos-ℤ 10000 bps h, pos*ℤ pot (10000 - bps), pos-ℤ pot (part pot bps) (part-le pot bps))
      (ground arith)

-- The derash is the largest whole number of cents within the players' part of the pot, and the
-- house has exactly the rest, for a pot that is not negative and a cut from 0 to 10000 bps.
pub compute_derash_exact :
    (pot bps : ℕ)
    → bps ≤ 10000
    → (d h : ℕ) × (compute_derash (pos pot) (pos bps) ≡ ok (pos d, pos h))
      × (d + h ≡ pot)
      × (d * 10000 ≤ pot * (10000 - bps))
      × (pot * (10000 - bps) < (d + 1) * 10000)
compute_derash_exact pot bps h = (
  part pot bps,
  pot - part pot bps,
  compute_derash_lem pot bps h,
  omega (arith, part-le pot bps),
  omega arith,
  omega arith,
)

-- `compute_derash` refuses exactly a negative pot, and for any other pot exactly a cut that is
-- not from 0 to 10000 bps.
pub compute_derash_raises :
    (pot bps : ℤ)
    → ((compute_derash pot bps ≡ err negative_pot) ↔ (ltb_ℤ pot (pos 0) ≡ true))
      × ((compute_derash pot bps ≡ err bad_house_cut)
          ↔ ((pos 0 ≤ℤ pot) × ((ltb_ℤ bps (pos 0) ≡ true) ⊎ (ltb_ℤ (pos 10000) bps ≡ true))))
unfolding compute_derash
compute_derash_raises pot bps = ground arith

pos+ℤ : (a b : ℕ) → pos a +ℤ pos b ≡ pos (a + b)
unfolding ◌+ℤ◌
pos+ℤ a b = ground arith

sum-replicate : (n x : ℕ) → sum (replicate n (pos x)) ≡ pos (n * x)
sum-replicate zero x = ground arith
sum-replicate (suc n) x = rw (sum-replicate n x, pos+ℤ x (n * x)) (ap pos (omega arith))

share-le : (derash k : ℕ) → derash / k * k ≤ derash
share-le derash k = div-mul-le_self derash k

pub split_derash_lem :
    (derash k : ℕ)
    → 0 < k
    → split_derash (pos derash) (pos k)
      ≡ ok (replicate k (pos (derash / k)), pos (derash - derash / k * k))
unfolding split_derash
split_derash_lem derash k h =
    rw (pos*ℤ (derash / k) k, pos-ℤ derash (derash / k * k) (share-le derash k)) (ground arith)

-- Between `k` winners, one at least, the shares are equal, add up with the leftover to the
-- derash, and the leftover is less than a cent for each winner.
pub split_derash_exact :
    (derash k : ℕ)
    → 0 < k
    → (shares : List ℤ) × (share left : ℕ) × (split_derash (pos derash) (pos k)
        ≡ ok (shares, pos left))
      × (shares ≡ replicate k (pos share))
      × (sum shares +ℤ pos left ≡ pos derash)
      × (left < k)
split_derash_exact derash k h = (
  replicate k (pos (derash / k)),
  derash / k,
  derash - derash / k * k,
  split_derash_lem derash k h,
  refl,
  rw (sum-replicate k (derash / k), pos+ℤ (k * (derash / k)) (derash - derash / k * k))
      (ap pos (omega (arith, share-le derash k))),
  grind (arith, lt-div-mul-add {a = derash} {b = k} h),
)

-- Settlement as a whole, for a pot that is not negative, a legal cut and one winner at least: the
-- shares of the winners, the leftover and the house cut add up to the pot.
pub settlement_conserves :
    (pot bps k : ℕ) {d h : ℤ} {shares : List ℤ} {left : ℤ}
    → bps ≤ 10000
    → 0 < k
    → compute_derash (pos pot) (pos bps) ≡ ok (d, h)
    → split_derash d (pos k) ≡ ok (shares, left)
    → sum shares +ℤ (left +ℤ h) ≡ pos pot
settlement_conserves pot bps k {d} {h} {shares} {left} legal some_winner e f =
    let p : ℕ = part pot bps in
    let ed : d ≡ pos p = cc (compute_derash_lem pot bps legal) in
    let eh : h ≡ pos (pot - p) = cc (compute_derash_lem pot bps legal) in
    let es : shares ≡ replicate k (pos (p / k)) = cc (ed, split_derash_lem p k some_winner) in
    let el : left ≡ pos (p - p / k * k) = cc (ed, split_derash_lem p k some_winner) in
    rw
      (
        es,
        el,
        eh,
        sum-replicate k (p / k),
        pos+ℤ (p - p / k * k) (pot - p),
        pos+ℤ (k * (p / k)) (p - p / k * k + (pot - p)),
      )
      (ap pos (omega (arith, share-le p k, part-le pot bps)))
