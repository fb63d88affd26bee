-- ===== src/Encoder/Timestamp.antt =====
-- The time of a frame in the stream, in nanoseconds.
use native.Mathlib.Nat.{add-mul-div_left, div-mul-le_self, lt-div-mul-add}
use http_audio_server.Common.{
  ℕ, ◌+◌, ◌*◌, ◌/◌, ◌%◌, ◌^◌, ◌≤◌, ◌<◌, ◌≡◌, ◌⊎◌, ap, sym, ◌∙◌, Bool-cases, inl, inr, ltb, arith,
}
use http_audio_server.Encoder.{timestamp}

timestamp_exact :
    (granule rate : ℕ)
    → granule * 1_000_000_000 < 2 ^ 64
    → timestamp granule rate ≡ granule * 1_000_000_000 / rate
unfolding timestamp
timestamp_exact granule rate h = ap (λ t. t / rate) (omega arith)

-- While the product fits 64 bits, the next frame of a stream whose rate is a multiple of 25 comes
-- exactly 40 ms later.
pub timestamp-next :
    (granule frame_size rate : ℕ)
    → 0 < rate
    → rate ≡ 25 * frame_size
    → (granule + frame_size) * 1_000_000_000 < 2 ^ 64
    → timestamp (granule + frame_size) rate ≡ timestamp granule rate + 40_000_000
timestamp-next granule frame_size rate pos whole fits =
    timestamp_exact (granule + frame_size) rate fits
    ∙ ap (λ t. t / rate) split
    ∙ add-mul-div_left (granule * 1_000_000_000) 40_000_000 pos
    ∙ ap (λ t. t + 40_000_000) (sym (timestamp_exact granule rate (omega arith)))
  where
    split : (granule + frame_size) * 1_000_000_000 ≡ granule * 1_000_000_000 + rate * 40_000_000
    split = omega arith

-- The quotient with its remainder.
between : (x rate : ℕ) → 0 < rate → (x / rate * rate ≤ x) × (x < (x / rate + 1) * rate)
between x rate pos = (div-mul-le_self x rate, omega (arith, lt-div-mul-add {a = x} pos))

-- A frame at `granule` samples of a stream, where granule * 10^9 is below 2^65: below 2^64 its time
-- is granule / rate seconds in nanoseconds, rounded down, and from there on it is the time of
-- granule * 10^9 - 2^64, so that the times start again from 0.
pub timestamp_exact_wrap :
    (granule rate : ℕ)
    → 0 < rate
    → granule * 1_000_000_000 < 2 ^ 65
    → let t = timestamp granule rate in
      ((granule * 1_000_000_000 < 2 ^ 64)
        × (t * rate ≤ granule * 1_000_000_000)
        × (granule * 1_000_000_000 < (t + 1) * rate))
      ⊎ ((2 ^ 64 ≤ granule * 1_000_000_000)
          × (t * rate + 2 ^ 64 ≤ granule * 1_000_000_000)
          × (granule * 1_000_000_000 < (t + 1) * rate + 2 ^ 64))
unfolding timestamp
timestamp_exact_wrap granule rate pos small =
    let x : ℕ = granule * 1000 * 1000 * 1000 % 2 ^ 64 in
    let (low, high) = between x rate pos in
    elim (Bool-cases (ltb (granule * 1_000_000_000) (2 ^ 64))) [
      | inl h ↦
          let fits : granule * 1_000_000_000 < 2 ^ 64 = ground (arith, h) in
          let same : x ≡ granule * 1_000_000_000 = omega (arith, fits) in
          inl (fits, omega (arith, low, same), omega (arith, high, same))
      | inr h ↦
          let over : 2 ^ 64 ≤ granule * 1_000_000_000 = ground (arith, h) in
          let same : x + 2 ^ 64 ≡ granule * 1_000_000_000 = omega (arith, over, small) in
          inr (over, omega (arith, low, same), omega (arith, high, same))
    ]
