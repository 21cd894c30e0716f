-- ===== src/ByteStream.antt =====
-- The deterministic byte stream of both games: `_ByteStream` of packages/core/keno.py, which the
-- class of the same name in packages/core/bingo.py repeats line for line. Bytes are numbers below
-- 256. HMAC-SHA256 is the parameter `hmac`, from a key and a message to a digest.
pub mod Unbiased
pub mod Returns
use igame.Common.{
  ℕ, zero, suc, ◌+◌, ◌-◌, ◌*◌, ◌/◌, ◌%◌, ◌^◌, max, List, [], ◌∷◌, ◌++◌, ltb, leb, ◌==◌,
  if◌then◌else◌, length, take, drop,
}
use igame.Common.Result.{Result, ok, err, ◌>>=◌}

-- `ValueError` of `below`, `OverflowError` of `to_bytes`, and the model's own end of fuel.
pub data StreamError : Type 0 where
  not_positive overflow out_of_fuel : StreamError

pub record ByteStream : Type 0 where
  pub server_seed : List ℕ
  pub client_seed : List ℕ
  pub counter : ℕ
  pub buffer : List ℕ

unfoldable pub init : List ℕ → List ℕ → ByteStream
init server_seed client_seed = record {
  server_seed = server_seed;
  client_seed = client_seed;
  counter = 0;
  buffer = [];
}

-- `counter.to_bytes(4, "big")`
unfoldable pub to_bytes : ℕ → Result StreamError (List ℕ)
to_bytes n =
    if ltb n (2 ^ 32)
    then ok ((n / 2 ^ 24) ∷ (n / 2 ^ 16 % 256) ∷ (n / 2 ^ 8 % 256) ∷ (n % 256) ∷ [])
    else err overflow

-- `int.from_bytes(_, "big")`
unfoldable pub from_bytes : ℕ → List ℕ → ℕ
from_bytes acc [] = acc
from_bytes acc (b ∷ bs) = from_bytes (acc * 256 + b) bs

bits : ℕ → ℕ → ℕ
bits zero n = 0
bits (suc f) n = if n == 0 then 0 else suc (bits f (n / 2))

-- `int.bit_length`; a number has no more binary digits than its value.
unfoldable pub bit_length : ℕ → ℕ
unfolding bits
bit_length n = bits n n

abbrev pub bytes_for : ℕ → ℕ
bytes_for upper = max 1 (bit_length (upper - 1) / 8 + 1)

abbrev pub threshold_for : ℕ → ℕ
threshold_for upper = 256 ^ bytes_for upper - 256 ^ bytes_for upper % upper

module _ (hmac : List ℕ → List ℕ → List ℕ) where
  -- One more block at the end of the buffer.
  unfoldable pub next_block : ByteStream → Result StreamError ByteStream
  next_block s = to_bytes s.counter >>= λ c. ok (record s {
    counter = s.counter + 1;
    buffer = s.buffer ++ hmac s.server_seed (s.client_seed ++ c);
  })

  -- The `while` of `take`; every round adds a block.
  unfoldable pub fill : ℕ → ℕ → ByteStream → Result StreamError ByteStream
  fill zero n s = err out_of_fuel
  fill (suc f) n s = if ltb (length s.buffer) n then next_block s >>= fill f n else ok s

  -- `_ByteStream.take`: `n + 1` rounds are enough for `n` bytes.
  unfoldable pub take_bytes : ℕ → ByteStream → Result StreamError (List ℕ × ByteStream)
  take_bytes n s =
      fill (n + 1) n s >>= λ t. ok (take n t.buffer, record t { buffer = drop n t.buffer })

  -- The `while True` of `below`, with fuel.
  unfoldable pub sample : ℕ → ℕ → ℕ → ℕ → ByteStream → Result StreamError (ℕ × ByteStream)
  sample zero num_bytes threshold upper s = err out_of_fuel
  sample (suc f) num_bytes threshold upper s = take_bytes num_bytes s >>= λ r.
      let value = from_bytes 0 r.0 in
      let again = sample f num_bytes threshold upper r.1 in
      if ltb value threshold then ok (value % upper, r.1) else again

  -- `_ByteStream.below`, with fuel for the rejected samples.
  unfoldable pub below : ℕ → ℕ → ByteStream → Result StreamError (ℕ × ByteStream)
  below fuel upper s =
      if leb upper 0
      then err not_positive
      else sample fuel (bytes_for upper) (threshold_for upper) upper s
