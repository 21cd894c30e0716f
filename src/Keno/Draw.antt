-- ===== src/Keno/Draw.antt =====
-- `derive_keno_draw` and `verify_draw` of packages/core/keno.py: numbers popped from a shrinking
-- pool at places that the byte stream gives. The public seed is given as its bytes in UTF-8.
use igame.Common.{
  ℕ, zero, suc, ◌+◌, ◌^◌, ◌≤◌, ◌<◌, ◌≡◌, ◌↔◌, refl, Bool, true, ◌&&◌, List, [], ◌∷◌, ◌++◌, arith,
  ltb, leb, length, get_or, length-append,
}
use igame.Common.Counts.{
  range, count, one_if, list_eq, list_eq_iff, remove_at, length-range, count-append, count-range,
  length-remove_at, count-remove_at,
}
use igame.Common.Result.{Result, ok, err, ◌>>=◌}
use igame.ByteStream.{ByteStream, StreamError, init, below}
use igame.ByteStream.Returns.{HasDigests, FairBlocks, FairBlocks-next, Good, below-Good}
use igame.Keno.{number_pool_size}

module _ (hmac : List ℕ → List ℕ → List ℕ) (fuel : ℕ) where
  unfoldable pub draw_loop : ℕ → List ℕ → List ℕ → ByteStream → Result StreamError (List ℕ)
  draw_loop zero pool drawn stream = ok drawn
  draw_loop (suc n) pool drawn stream = below hmac fuel (length pool) stream >>= λ r.
      draw_loop n (remove_at r.0 pool) (drawn ++ get_or pool r.0 0 ∷ []) r.1

  unfoldable pub derive_keno_draw : List ℕ → List ℕ → ℕ → ℕ → Result StreamError (List ℕ)
  unfolding init
  derive_keno_draw server_seed public_seed pool_size draw_count =
      draw_loop draw_count (range 1 pool_size) [] (init server_seed public_seed)

  unfoldable pub verify_draw : List ℕ → List ℕ → List ℕ → Result StreamError Bool
  verify_draw server_seed public_seed claimed_draw =
      derive_keno_draw server_seed public_seed number_pool_size (length claimed_draw) >>= λ draw.
      ok (list_eq draw claimed_draw)

  accepts :
      (r : Result StreamError (List ℕ)) (claimed : List ℕ)
      → ((r >>= λ draw. ok (list_eq draw claimed)) ≡ ok true) ↔ (r ≡ ok claimed)
  accepts (ok draw) claimed = ground (arith, list_eq_iff draw claimed)
  accepts (err e) claimed = ground arith

  -- A claimed draw is verified exactly if deriving as many numbers as it has, from the same seeds,
  -- gives that very list.
  verify_draw_iff :
      (server_seed public_seed claimed : List ℕ)
      → (verify_draw server_seed public_seed claimed ≡ ok true)
        ↔ (derive_keno_draw server_seed public_seed 80 (length claimed) ≡ ok claimed)
  unfolding verify_draw
  verify_draw_iff ss ps claimed = accepts (derive_keno_draw ss ps 80 (length claimed)) claimed

-- `n` more numbers than before, taken from the pool and no more often than it holds them.
abbrev pub Draws : ℕ → List ℕ → List ℕ → Result StreamError (List ℕ) → Type 0
Draws n pool drawn (ok out) =
    (length out ≡ length drawn + n) × ((a : ℕ) → count a out ≤ count a drawn + count a pool)
Draws n pool drawn (err _) = ⊥

Draws-step :
    (n j : ℕ) (pool drawn : List ℕ) (r : Result StreamError (List ℕ))
    → j < length pool
    → Draws n (remove_at j pool) (drawn ++ get_or pool j 0 ∷ []) r
    → Draws (suc n) pool drawn r
Draws-step n j pool drawn (ok out) h d = (
  omega (arith, d.0, length-append drawn (get_or pool j 0 ∷ [])),
  λ a.
      omega (arith, d.1 a, count-append a drawn (get_or pool j 0 ∷ []), count-remove_at a j pool h),
)
Draws-step n j pool drawn (err e) h d = d

module _ (hmac : List ℕ → List ℕ → List ℕ) (digests : HasDigests hmac) where
  draw_loop-Draws :
      (n : ℕ) (pool drawn : List ℕ) (s : ByteStream)
      → n ≤ length pool
      → length pool ≤ 80
      → length s.buffer ≤ 32
      → s.counter + n < 2 ^ 32
      → FairBlocks hmac s.server_seed s.client_seed s.counter n
      → Draws n pool drawn (draw_loop hmac 65 n pool drawn s)
  unfolding draw_loop
  draw_loop-Draws zero pool drawn s enough small short left fair = (omega arith, λ a. omega arith)
  draw_loop-Draws (suc n) pool drawn s enough small short left (next, later) =
      step (below hmac 65 (length pool) s)
        (below-Good hmac (length pool) s digests next (omega arith) small short (omega arith))
        (draw_loop-Draws n)
    where
      step :
          (r : Result StreamError (ℕ × ByteStream))
          → Good (length pool) s r
          → ((xs ys : List ℕ) (t : ByteStream)
              → n ≤ length xs
              → length xs ≤ 80
              → length t.buffer ≤ 32
              → t.counter + n < 2 ^ 32
              → FairBlocks hmac t.server_seed t.client_seed t.counter n
              → Draws n xs ys (draw_loop hmac 65 n xs ys t))
          → Draws (suc n) pool drawn (
              r >>= λ q.
              draw_loop hmac 65 n (remove_at q.0 pool) (drawn ++ get_or pool q.0 0 ∷ []) q.1)
      step (ok (j, t)) g ih =
          let pool' = remove_at j pool in
          let drawn' = drawn ++ get_or pool j 0 ∷ [] in
          Draws-step n j pool drawn (draw_loop hmac 65 n pool' drawn' t) g.0 (
            ih pool' drawn' t (omega (arith, length-remove_at j pool g.0))
              (omega (arith, length-remove_at j pool g.0)) g.3 (omega (arith, left, g.2))
              (FairBlocks-next hmac n (length pool) s j t g (next, later)))
      step (err e) g ih = absurd g

  -- With digests of 32 bytes, a pool of 80 numbers at most, no more draws than numbers, and a byte below 177 in
  -- each of as many blocks of the draw's stream as there are draws, the draw returns within 65 samples for each
  -- number: as many numbers as were asked for, all from the pool, none twice.
  pub derive_keno_draw_distinct :
      (server_seed public_seed : List ℕ) (pool_size draw_count : ℕ)
      → pool_size ≤ 80
      → draw_count ≤ pool_size
      → FairBlocks hmac server_seed public_seed 0 draw_count
      → (draw : List ℕ) × (derive_keno_draw hmac 65 server_seed public_seed pool_size draw_count
          ≡ ok draw)
        × (length draw ≡ draw_count)
        × ((a : ℕ) → count a draw ≤ one_if (leb 1 a && ltb a (1 + pool_size)))
  unfolding derive_keno_draw init
  derive_keno_draw_distinct ss ps pool_size draws small fits fair =
      found (draw_loop hmac 65 draws (range 1 pool_size) [] (init ss ps)) (
        draw_loop-Draws draws (range 1 pool_size) [] (init ss ps)
          (omega (arith, length-range pool_size 1)) (omega (arith, length-range pool_size 1))
          (omega arith) (omega arith) fair)
    where
      found :
          (r : Result StreamError (List ℕ))
          → Draws draws (range 1 pool_size) [] r
          → (draw : List ℕ) × (r ≡ ok draw)
            × (length draw ≡ draws)
            × ((a : ℕ) → count a draw ≤ one_if (leb 1 a && ltb a (1 + pool_size)))
      found (ok draw) h =
          (draw, refl, omega (arith, h.0), λ a. omega (arith, h.1 a, count-range pool_size a 1))
      found (err e) h = absurd h
