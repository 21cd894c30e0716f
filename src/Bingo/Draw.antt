-- ===== src/Bingo/Draw.antt =====
-- `derive_draw` of packages/core/bingo.py: the Fisher-Yates shuffle of 1 to 75 by the byte stream.
use igame.Common.{
  ℕ, zero, suc, ◌+◌, ◌^◌, ◌≤◌, ◌<◌, ◌≡◌, refl, Bool, ◌&&◌, List, arith, ltb, leb, length, ◌∙◌,
}
use igame.Common.Counts.{range, list_eq, count, one_if, swap, length-swap, count-swap, count-range}
use igame.Common.Result.{Result, ok, err, ◌>>=◌}
use igame.ByteStream.{ByteStream, StreamError, init, below}
use igame.ByteStream.Returns.{HasDigests, FairBlocks, FairBlocks-next, Good, below-Good}

module _ (hmac : List ℕ → List ℕ → List ℕ) (fuel : ℕ) where
  -- `for i in range(len(numbers) - 1, 0, -1)`, from the highest index down.
  unfoldable pub shuffle : ℕ → List ℕ → ByteStream → Result StreamError (List ℕ)
  shuffle zero numbers stream = ok numbers
  shuffle (suc i) numbers stream =
      below hmac fuel (suc i + 1) stream >>= λ r. shuffle i (swap numbers (suc i) r.0) r.1

  -- The client seed is given as its bytes in UTF-8.
  unfoldable pub derive_draw : List ℕ → List ℕ → Result StreamError (List ℕ)
  unfolding init
  derive_draw server_seed client_seed = shuffle 74 (range 1 75) (init server_seed client_seed)

  unfoldable pub verify_draw : List ℕ → List ℕ → List ℕ → Result StreamError Bool
  verify_draw server_seed client_seed claimed_draw =
      derive_draw server_seed client_seed >>= λ draw. ok (list_eq draw claimed_draw)

-- The list has as many numbers as `xs`, each as often.
abbrev Rearranges : List ℕ → Result StreamError (List ℕ) → Type 0
Rearranges xs (ok ys) = (length ys ≡ length xs) × ((a : ℕ) → count a ys ≡ count a xs)
Rearranges xs (err _) = ⊥

Rearranges-trans :
    (xs ys : List ℕ) (r : Result StreamError (List ℕ))
    → length ys ≡ length xs
    → ((a : ℕ) → count a ys ≡ count a xs)
    → Rearranges ys r
    → Rearranges xs r
Rearranges-trans xs ys (ok zs) e c h = (h.0 ∙ e, λ a. h.1 a ∙ c a)
Rearranges-trans xs ys (err _) e c h = h

module _ (hmac : List ℕ → List ℕ → List ℕ) (digests : HasDigests hmac) where
  shuffle-Rearranges :
      (i : ℕ) (numbers : List ℕ) (s : ByteStream)
      → i < length numbers
      → i + 1 ≤ 80
      → length s.buffer ≤ 32
      → s.counter + i < 2 ^ 32
      → FairBlocks hmac s.server_seed s.client_seed s.counter i
      → Rearranges numbers (shuffle hmac 65 i numbers s)
  unfolding shuffle
  shuffle-Rearranges zero numbers s hi small short left fair = (refl, λ a. refl)
  shuffle-Rearranges (suc i) numbers s hi small short left (next, later) =
      step (below hmac 65 (suc i + 1) s)
        (below-Good hmac (suc i + 1) s digests next (omega arith) small short (omega arith))
        (shuffle-Rearranges i)
    where
      step :
          (r : Result StreamError (ℕ × ByteStream))
          → Good (suc i + 1) s r
          → ((xs : List ℕ) (t : ByteStream)
              → i < length xs
              → i + 1 ≤ 80
              → length t.buffer ≤ 32
              → t.counter + i < 2 ^ 32
              → FairBlocks hmac t.server_seed t.client_seed t.counter i
              → Rearranges xs (shuffle hmac 65 i xs t))
          → Rearranges numbers (r >>= λ q. shuffle hmac 65 i (swap numbers (suc i) q.0) q.1)
      step (ok (j, t)) g ih =
          Rearranges-trans numbers (swap numbers (suc i) j)
            (shuffle hmac 65 i (swap numbers (suc i) j) t) (length-swap numbers (suc i) j)
            (λ a. count-swap a numbers (suc i) j hi (omega (arith, g.0)))
            (ih (swap numbers (suc i) j) t (omega (arith, length-swap numbers (suc i) j))
              (omega arith) g.3 (omega (arith, left, g.2))
              (FairBlocks-next hmac i (suc i + 1) s j t g (next, later)))
      step (err e) g ih = absurd g

-- With digests of 32 bytes, when each of the first 74 blocks of the draw's stream has a byte below 177, the draw
-- returns within 65 samples for each of its 74 numbers, and what it returns is a permutation of 1 to 75: 75
-- numbers, each of 1 to 75 once and no other.
pub derive_draw_permutes :
    (hmac : List ℕ → List ℕ → List ℕ) (server_seed client_seed : List ℕ)
    → HasDigests hmac
    → FairBlocks hmac server_seed client_seed 0 74
    → (draw : List ℕ) × (derive_draw hmac 65 server_seed client_seed ≡ ok draw)
      × (length draw ≡ 75)
      × ((a : ℕ) → count a draw ≡ one_if (leb 1 a && ltb a 76))
unfolding derive_draw init
derive_draw_permutes hmac ss cs digests fair =
    found (shuffle hmac 65 74 (range 1 75) (init ss cs)) (
      shuffle-Rearranges hmac digests 74 (range 1 75) (init ss cs) (omega arith) (omega arith)
        (omega arith) (omega arith) fair)
  where
    found :
        (r : Result StreamError (List ℕ))
        → Rearranges (range 1 75) r
        → (draw : List ℕ) × (r ≡ ok draw)
          × (length draw ≡ 75)
          × ((a : ℕ) → count a draw ≡ one_if (leb 1 a && ltb a 76))
    found (ok draw) h = (draw, refl, h.0, λ a. h.1 a ∙ count-range 75 a 1)
    found (err e) h = absurd h
