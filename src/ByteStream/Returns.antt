-- ===== src/ByteStream/Returns.antt =====
-- How long `below` samples, for the bounds that both games use, and which blocks of the stream it depends on
-- (`_ByteStream` of packages/core/keno.py and bingo.py).
use mathlib.Core.Path.{subst}
use native.Mathlib.Nat.{mod-lt, zero-add}
use igame.Common.{
  ℕ, zero, suc, ◌+◌, ◌-◌, ◌/◌, ◌%◌, ◌^◌, ◌≤◌, ◌<◌, ◌≡◌, refl, sym, ◌⊎◌, inl, inr, true, false, List,
  [], ◌∷◌, ◌++◌, arith, ltb, leb, ◌==◌, if◌then◌else◌, length, Bool-cases, lt→ltb, ==_iff,
  all_below, all_below_sound,
}
use igame.Common.Result.{Result, ok, err}
use igame.ByteStream.{
  StreamError, ByteStream, to_bytes, from_bytes, next_block, fill, take_bytes, sample, below,
  bytes_for, bit_length,
}

-- A byte below 177 is accepted for every bound up to 80, since 256 % n < 80.
abbrev HasSmall : List ℕ → Type 0
HasSmall [] = ⊥
HasSmall (b ∷ bs) = (b < 177) ⊎ HasSmall bs

-- The block that a stream computes for a counter, if the counter fits in 4 bytes.
abbrev block_at : (List ℕ → List ℕ → List ℕ) → List ℕ → List ℕ → ℕ → List ℕ
block_at hmac ss cs c =
    hmac ss (cs ++ (c / 2 ^ 24) ∷ (c / 2 ^ 16 % 256) ∷ (c / 2 ^ 8 % 256) ∷ (c % 256) ∷ [])

-- What is documented of HMAC-SHA256: a digest has 32 bytes.
abbrev pub HasDigests : (List ℕ → List ℕ → List ℕ) → Type 0
HasDigests hmac = (key message : List ℕ) → length (hmac key message) ≡ 32

-- Of the `n` blocks from the counter `c` on, each has a byte below 177: a condition on these blocks alone, which
-- can be tested. A block of 32 random bytes fails it with a probability below 10 ^ -16.
abbrev pub FairBlocks : (List ℕ → List ℕ → List ℕ) → List ℕ → List ℕ → ℕ → ℕ → Type 0
FairBlocks hmac ss cs c zero = Unit
FairBlocks hmac ss cs c (suc n) = HasSmall (block_at hmac ss cs c) × FairBlocks hmac ss cs (c + 1) n

abbrev pub stream : List ℕ → List ℕ → ℕ → List ℕ → ByteStream
stream ss cs c bs = record { server_seed = ss; client_seed = cs; counter = c; buffer = bs }

-- A result below the bound, at the cost of one new block at most, from a stream of the same seeds.
abbrev pub Good : ℕ → ByteStream → Result StreamError (ℕ × ByteStream) → Type 0
Good upper s (ok (v, t)) =
    (v < upper)
    × (s.counter ≤ t.counter)
    × (t.counter ≤ s.counter + 1)
    × (length t.buffer ≤ 32)
    × (t.server_seed ≡ s.server_seed)
    × (t.client_seed ≡ s.client_seed)
Good upper s (err _) = ⊥

to_bytes-ok :
    (c : ℕ)
    → c < 2 ^ 32
    → to_bytes c ≡ ok ((c / 2 ^ 24) ∷ (c / 2 ^ 16 % 256) ∷ (c / 2 ^ 8 % 256) ∷ (c % 256) ∷ [])
unfolding to_bytes
to_bytes-ok c h = rw (lt→ltb c (2 ^ 32) h) refl

gt→leb : (a b : ℕ) → b < a → leb a b ≡ false
gt→leb a b h = ground arith

module _ (hmac : List ℕ → List ℕ → List ℕ) where
  take_one :
      (ss cs : List ℕ) (c b : ℕ) (bs : List ℕ)
      → take_bytes hmac 1 (stream ss cs c (b ∷ bs)) ≡ ok (b ∷ [], stream ss cs c bs)
  unfolding take_bytes fill
  take_one ss cs c b bs = ground arith

  take_refill :
      (ss cs : List ℕ) (c : ℕ)
      → c < 2 ^ 32
      → length (block_at hmac ss cs c) ≡ 32
      → take_bytes hmac 1 (stream ss cs c [])
        ≡ take_bytes hmac 1 (stream ss cs (c + 1) (block_at hmac ss cs c))
  unfolding take_bytes fill next_block
  take_refill ss cs c h e =
      let full : ltb (length (block_at hmac ss cs c)) 1 ≡ false = ground (arith, e) in
      rw (to_bytes-ok c h, full)

  module _ (th upper : ℕ) (wide : 177 ≤ th) (positive : 0 < upper) where
    -- One round of the sampling loop, on a buffer that is not empty.
    sample_step :
        (f : ℕ) (ss cs : List ℕ) (c b : ℕ) (bs : List ℕ)
        → sample hmac (suc f) 1 th upper (stream ss cs c (b ∷ bs)) ≡ (
            if ltb b th
            then ok (b % upper, stream ss cs c bs)
            else sample hmac f 1 th upper (stream ss cs c bs))
    unfolding sample from_bytes
    sample_step f ss cs c b bs = rw (take_one ss cs c b bs, zero-add b) refl

    -- A buffer with a small byte is enough.
    sample-Good_small :
        (f : ℕ) (ss cs : List ℕ) (c : ℕ) (bs : List ℕ)
        → HasSmall bs
        → length bs ≤ f
        → length bs ≤ 33
        → (d : ℕ) (old : List ℕ) → d ≤ c
        → c ≤ d + 1
        → Good upper (stream ss cs d old) (sample hmac f 1 th upper (stream ss cs c bs))
    sample-Good_small f ss cs c [] h fuel short d old dc cd = absurd h
    sample-Good_small zero ss cs c (b ∷ bs) h fuel short d old dc cd = absurd (omega arith)
    sample-Good_small (suc f) ss cs c (b ∷ bs) h fuel short d old dc cd =
        rw sample_step (elim (Bool-cases (ltb b th)) [
          | inl e ↦
              rw e
                (mod-lt b {m = upper} positive, omega arith, omega arith, omega arith, refl, refl)
          | inr e ↦ rw e (elim h [
            | inl small ↦ absurd (ground arith)
            | inr later ↦
                sample-Good_small f ss cs c bs later (omega arith) (omega arith) d old dc cd
          ])
        ])

    sample_refill :
        (f : ℕ) (ss cs : List ℕ) (c : ℕ)
        → c < 2 ^ 32
        → length (block_at hmac ss cs c) ≡ 32
        → sample hmac (suc f) 1 th upper (stream ss cs c [])
          ≡ sample hmac (suc f) 1 th upper (stream ss cs (c + 1) (block_at hmac ss cs c))
    unfolding sample
    sample_refill f ss cs c h e = rw (take_refill ss cs c h e) refl

    -- Any buffer is enough while there are counters left: at its end one block is added.
    sample-Good :
        HasDigests hmac
        → (f : ℕ) (ss cs : List ℕ) (c : ℕ) (bs old : List ℕ) → HasSmall (block_at hmac ss cs c)
        → length bs + 33 ≤ f
        → length bs ≤ 33
        → c < 2 ^ 32
        → Good upper (stream ss cs c old) (sample hmac f 1 th upper (stream ss cs c bs))
    sample-Good digests zero ss cs c bs old small fuel short left = absurd (omega arith)
    sample-Good digests (suc f) ss cs c [] old small fuel short left =
        let full : length (block_at hmac ss cs c) ≡ 32 =
          digests ss
            (cs ++ (c / 2 ^ 24) ∷ (c / 2 ^ 16 % 256) ∷ (c / 2 ^ 8 % 256) ∷ (c % 256) ∷ []) in
        rw (sample_refill f ss cs c left full) (
          sample-Good_small (suc f) ss cs (c + 1) (block_at hmac ss cs c) small (omega arith)
            (omega arith) c old (omega arith) (omega arith))
    sample-Good digests (suc f) ss cs c (b ∷ bs) old small fuel short left =
        rw sample_step (elim (Bool-cases (ltb b th)) [
          | inl e ↦
              rw e
                (mod-lt b {m = upper} positive, omega arith, omega arith, omega arith, refl, refl)
          | inr e ↦
              rw e (sample-Good digests f ss cs c bs old small (omega arith) (omega arith) left)
        ])

bit_length-table : all_below 80 (λ n. bit_length n / 8 == 0) ≡ true
unfolding all_below bit_length
bit_length-table = refl

bytes_for_small : (upper : ℕ) → upper ≤ 80 → bytes_for upper ≡ 1
bytes_for_small upper h =
    let e : bit_length (upper - 1) / 8 ≡ 0 = (==_iff _ 0).0 (
      all_below_sound 80 (λ n. bit_length n / 8 == 0) (upper - 1) bit_length-table (omega arith)) in
    rw e refl

threshold_wide : (upper : ℕ) → 0 < upper → upper ≤ 80 → 177 ≤ 256 - 256 % upper
threshold_wide upper h k = omega (arith, mod-lt 256 {m = upper} h)

-- For a digest function with 32 bytes, a bound from 1 to 80, a buffer of 32 bytes at most, a counter that fits
-- in 4 bytes, and a next block that has a byte below 177, `below` returns within 65 samples: a number below the
-- bound, and a stream of the same seeds that has used one new block at most and again keeps 32 bytes at most.
pub below-Good :
    (hmac : List ℕ → List ℕ → List ℕ) (upper : ℕ) (s : ByteStream)
    → HasDigests hmac
    → HasSmall (block_at hmac s.server_seed s.client_seed s.counter)
    → 0 < upper
    → upper ≤ 80
    → length s.buffer ≤ 32
    → s.counter < 2 ^ 32
    → Good upper s (below hmac 65 upper s)
unfolding below
below-Good hmac upper s digests small h k short left =
    rw (bytes_for_small upper k, gt→leb upper 0 h)
      (sample-Good hmac (256 - 256 % upper) upper (threshold_wide upper h k) h digests 65
        s.server_seed s.client_seed s.counter s.buffer s.buffer small (omega arith) (omega arith)
        left)

FairBlocks-fewer :
    (hmac : List ℕ → List ℕ → List ℕ) (ss cs : List ℕ) (n c : ℕ)
    → FairBlocks hmac ss cs c (suc n)
    → FairBlocks hmac ss cs c n
FairBlocks-fewer hmac ss cs zero c h = tt
FairBlocks-fewer hmac ss cs (suc n) c (small, more) =
    (small, FairBlocks-fewer hmac ss cs n (c + 1) more)

-- What is left for a stream that has come from another one by one result.
pub FairBlocks-next :
    (hmac : List ℕ → List ℕ → List ℕ) (n upper : ℕ) (s : ByteStream) (v : ℕ) (t : ByteStream)
    → Good upper s (ok (v, t))
    → FairBlocks hmac s.server_seed s.client_seed s.counter (suc n)
    → FairBlocks hmac t.server_seed t.client_seed t.counter n
FairBlocks-next hmac n upper s v t (below_upper, lo, hi, short, ss, cs) h =
    let here : FairBlocks hmac s.server_seed s.client_seed t.counter n =
      elim (Bool-cases (s.counter == t.counter)) [
        | inl same ↦
            subst (λ (c : ℕ). FairBlocks hmac s.server_seed s.client_seed c n)
              ((==_iff s.counter t.counter).0 same)
              (FairBlocks-fewer hmac s.server_seed s.client_seed n s.counter h)
        | inr other ↦
            let next : s.counter + 1 ≡ t.counter = ground (arith, other, lo, hi) in
            subst (λ (c : ℕ). FairBlocks hmac s.server_seed s.client_seed c n) next h.1
      ] in
    subst (λ (key : List ℕ). FairBlocks hmac key t.client_seed t.counter n) (sym ss)
      (subst (λ (seed : List ℕ). FairBlocks hmac s.server_seed seed t.counter n) (sym cs) here)
