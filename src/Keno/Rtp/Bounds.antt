-- ===== src/Keno/Rtp/Bounds.antt =====
-- What a paytable returns on average never passes its highest multiplier, and the guard refuses a
-- paytable that pays too little whatever the picks.
use native.Mathlib.Nat.{le_of_mul-le-mul_left, mul-le-mul_left, mul-le-mul_right}
use mathlib.Core.Path.{fun_ext}
use igame.Common.{
  ℕ, zero, suc, ◌+◌, ◌*◌, ◌≤◌, ◌<◌, ◌≡◌, refl, ap, ◌∙◌, min, false, [], ◌∷◌, map, arith, leb,
}
use igame.Common.Counts.{range}
use igame.Common.Result.{err}
use igame.Keno.{Multipliers, multiplier_of}
use igame.Keno.Probability.{
  Fraction, fraction, add, mul, comb, probability_fraction, match_distribution,
}
use igame.Keno.Probability.Total.{
  IsOver, IsOver-add, tsum, ways, ways-total, probability-IsOver, comb-pos,
}
use igame.Keno.Rtp.{
  rtp_loop, compute_rtp, max_multiplier, multiplier_fraction, validate_paytable_rtp, out_of_range,
}

lt→leb_false : (a b : ℕ) → b < a → leb a b ≡ false
lt→leb_false a b h = ground arith

multiplier-le-max : (k : ℕ) (ms : Multipliers) → multiplier_of k ms ≤ max_multiplier ms
unfolding multiplier_of max_multiplier
multiplier-le-max k [] = omega arith
multiplier-le-max k ((j, m) ∷ ms) = ground (arith, multiplier-le-max k ms)

IsOver-mul :
    (f : Fraction) (a d m : ℕ)
    → IsOver f a d
    → IsOver (mul f (fraction m 10000)) (a * m) (d * 10000)
unfolding mul
IsOver-mul f a d m h = (omega (arith, ap (λ (x : ℕ). x * m) h.0), omega arith)

IsOver-scale : (f : Fraction) (a d : ℕ) → IsOver f a d → IsOver f (a * 10000) (d * 10000)
IsOver-scale f a d h = (omega (arith, h.0), h.1)

module _ (ms : Multipliers) (p : ℕ → Fraction) (t : ℕ → ℕ) (d : ℕ) where
  rtp_loop-IsOver :
      (m lo : ℕ) (total : Fraction) (a : ℕ)
      → ((k : ℕ) → k < lo + m → IsOver (p k) (t k) d)
      → IsOver total a (d * 10000)
      → IsOver
          (rtp_loop ms total (map (λ k. (k, p k)) (range lo m)))
          (a + tsum (λ k. t (lo + k) * multiplier_of (lo + k) ms) m)
          (d * 10000)
  unfolding rtp_loop tsum
  rtp_loop-IsOver zero lo total a each h = let e : a + 0 ≡ a = omega arith in rw e h
  rtp_loop-IsOver (suc m) lo total a each h =
      let w : ℕ → ℕ = λ k. t k * multiplier_of k ms in
      let rest : tsum (λ k. w (lo + suc k)) m ≡ tsum (λ k. w (lo + 1 + k)) m =
        ap (λ (u : ℕ → ℕ). tsum u m) (fun_ext (λ (k : ℕ). ap w (omega arith))) in
      let first : w (lo + 0) ≡ w lo = ap w (omega arith) in
      let e : a + (w (lo + 0) + tsum (λ k. w (lo + suc k)) m)
          ≡ a + w lo + tsum (λ k. w (lo + 1 + k)) m =
        omega (arith, rest, first) in
      rw e (
        rtp_loop-IsOver m (lo + 1) (add total (mul (p lo) (multiplier_fraction lo ms))) (a + w lo)
          (λ k b. each k (omega arith))
          (IsOver-add total (mul (p lo) (multiplier_fraction lo ms)) a (w lo) (d * 10000) h
            (IsOver-mul (p lo) (t lo) d (multiplier_of lo ms) (each lo (omega arith)))))

tsum-le-mul : (s t : ℕ → ℕ) (top m : ℕ) → ((k : ℕ) → s k ≤ t k * top) → tsum s m ≤ tsum t m * top
unfolding tsum
tsum-le-mul s t top zero h = omega arith
tsum-le-mul s t top (suc m) h =
    omega (arith, h 0, tsum-le-mul (λ k. s (suc k)) (λ k. t (suc k)) top m (λ k. h (suc k)))

cancel :
    (f : Fraction) (s d top : ℕ)
    → IsOver f s (d * 10000)
    → 0 < d
    → s ≤ d * top
    → f.num * 10000 ≤ top * f.den
cancel f s d top h pos le =
    le_of_mul-le-mul_left {m = f.num * 10000} {n = top * f.den} {k = d}
      (omega (arith, h.0, mul-le-mul_right f.den le)) pos

rtp_le_max :
    (picks pool draws : ℕ) (ms : Multipliers)
    → picks ≤ pool
    → draws ≤ pool
    → let rtp = rtp_loop ms (fraction 0 1) (match_distribution picks pool draws) in
      (0 < rtp.den) × (rtp.num * 10000 ≤ max_multiplier ms * rtp.den)
unfolding match_distribution
rtp_le_max picks pool draws ms in_pool drawn =
    let p : ℕ → Fraction = λ k. probability_fraction picks k pool draws in
    let t : ℕ → ℕ = ways picks pool draws in
    let n : ℕ = min picks draws + 1 in
    let s : ℕ = tsum (λ k. t (0 + k) * multiplier_of (0 + k) ms) n in
    let plain : tsum (λ k. t (0 + k)) n ≡ tsum t n =
      ap (λ (u : ℕ → ℕ). tsum u n) (fun_ext (λ (k : ℕ). ap t (omega arith))) in
    let over =
      rtp_loop-IsOver ms p t (comb pool picks) n 0 (fraction 0 1) 0
        (λ k b. probability-IsOver picks pool draws in_pool drawn k (omega arith)) (omega arith) in
    let bound : s ≤ tsum (λ k. t (0 + k)) n * max_multiplier ms =
      tsum-le-mul (λ k. t (0 + k) * multiplier_of (0 + k) ms) (λ k. t (0 + k)) (max_multiplier ms) n
        (λ k. mul-le-mul_left (t (0 + k)) (multiplier-le-max (0 + k) ms)) in
    (
      over.1,
      cancel (rtp_loop ms (fraction 0 1) (match_distribution picks pool draws)) (0 + s)
          (comb pool picks) (max_multiplier ms) over (comb-pos pool picks in_pool)
          (omega (
            arith,
            bound,
            ap (λ (x : ℕ). x * max_multiplier ms)
                (plain ∙ ways-total picks pool draws in_pool drawn),
          )),
    )

-- For at most 80 picks, the return to player is a fraction with a positive denominator that is no
-- more than the highest multiplier of the paytable.
pub compute_rtp-le-max :
    (picks : ℕ) (ms : Multipliers)
    → picks ≤ 80
    → let rtp = compute_rtp picks ms in
      (0 < rtp.den) × (rtp.num * 10000 ≤ max_multiplier ms * rtp.den)
unfolding compute_rtp
compute_rtp-le-max picks ms h = rtp_le_max picks 80 20 ms h (omega arith)

-- Whatever the ceiling, a paytable with no multiplier as high as the floor is refused, for any
-- number of picks up to 80.
pub validate_paytable_refuses :
    (picks : ℕ) (ms : Multipliers) (floor ceiling : Fraction)
    → picks ≤ 80
    → max_multiplier ms * floor.den < floor.num * 10000
    → validate_paytable_rtp picks ms floor ceiling ≡ err (out_of_range picks (compute_rtp picks ms))
unfolding validate_paytable_rtp
validate_paytable_refuses picks ms floor ceiling h low =
    let rtp : Fraction = compute_rtp picks ms in
    let bound = compute_rtp-le-max picks ms h in
    let short : rtp.num * floor.den < floor.num * rtp.den =
      omega (arith, bound.0, mul-le-mul_right floor.den bound.1, mul-le-mul_right rtp.den low) in
    rw (lt→leb_false (floor.num * rtp.den) (rtp.num * floor.den) short) refl
