-- ===== src/Examples/Draws.antt =====
-- Draws of Bingo (packages/core/bingo.py) and Keno (packages/core/keno.py) with a digest function of
-- 32 bytes in the place of HMAC-SHA256.
use igame.Common.{
  ℕ, zero, suc, ◌+◌, ◌*◌, ◌/◌, ◌%◌, ◌^◌, ◌≤◌, ◌<◌, ◌≡◌, refl, inl, inr, ◌&&◌, List, [], ◌∷◌, arith,
  replicate, leb, ltb, length,
}
use igame.Common.Counts.{count, one_if}
use igame.Common.Result.{ok}
use igame.ByteStream.{
  bytes_for, threshold_for, below, sample, take_bytes, fill, bit_length, next_block, to_bytes,
  from_bytes,
}
use igame.ByteStream.Unbiased.{hits, threshold_unbiased}
use igame.ByteStream.Returns.{HasDigests, FairBlocks, Good, below-Good, stream}
use igame.Bingo.Draw.{derive_draw, derive_draw_permutes}
use igame.Keno.Draw.{draw_loop, derive_keno_draw, derive_keno_draw_distinct}

abbrev digest : List ℕ → List ℕ → List ℕ
digest key message = length message % 256 ∷ replicate 31 7

digest-HasDigests : HasDigests digest
digest-HasDigests key message = refl

digest-FairBlocks : (ss cs : List ℕ) (n c : ℕ) → FairBlocks digest ss cs c n
digest-FairBlocks ss cs zero c = tt
digest-FairBlocks ss cs (suc n) c = (inr (inl (omega arith)), digest-FairBlocks ss cs n (c + 1))

three_drawn : derive_keno_draw digest 65 (1 ∷ []) (2 ∷ []) 80 3 ≡ ok (6 ∷ 9 ∷ 10 ∷ [])
unfolding derive_keno_draw draw_loop below sample take_bytes fill bit_length next_block to_bytes
    from_bytes
three_drawn = refl

threshold_unbiased_example :
    (threshold_for 75 ≤ 256 ^ bytes_for 75)
    × (256 ^ bytes_for 75 < 2 * threshold_for 75)
    × ((r : ℕ) → r < 75 → hits (threshold_for 75) 75 r ≡ threshold_for 75 / 75)
threshold_unbiased_example = threshold_unbiased 75 (omega arith)

below-Good_example :
    Good 75 (stream (1 ∷ []) (2 ∷ []) 0 []) (below digest 65 75 (stream (1 ∷ []) (2 ∷ []) 0 []))
below-Good_example =
    below-Good digest 75 (stream (1 ∷ []) (2 ∷ []) 0 []) digest-HasDigests
      (digest-FairBlocks (1 ∷ []) (2 ∷ []) 1 0).0 (omega arith) (omega arith) (omega arith)
      (omega arith)

derive_draw_permutes_example :
    (draw : List ℕ) × (derive_draw digest 65 (1 ∷ []) (2 ∷ []) ≡ ok draw)
    × (length draw ≡ 75)
    × ((a : ℕ) → count a draw ≡ one_if (leb 1 a && ltb a 76))
derive_draw_permutes_example =
    derive_draw_permutes digest (1 ∷ []) (2 ∷ []) digest-HasDigests
      (digest-FairBlocks (1 ∷ []) (2 ∷ []) 74 0)

derive_keno_draw_distinct_example :
    (draw : List ℕ) × (derive_keno_draw digest 65 (1 ∷ []) (2 ∷ []) 80 20 ≡ ok draw)
    × (length draw ≡ 20)
    × ((a : ℕ) → count a draw ≤ one_if (leb 1 a && ltb a (1 + 80)))
derive_keno_draw_distinct_example =
    derive_keno_draw_distinct digest digest-HasDigests (1 ∷ []) (2 ∷ []) 80 20 (omega arith)
      (omega arith) (digest-FairBlocks (1 ∷ []) (2 ∷ []) 20 0)
