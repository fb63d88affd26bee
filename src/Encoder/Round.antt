-- ===== src/Encoder/Round.antt =====
-- One round of the loop in `encode`, when the stream is not flushed.
use native.Mathlib.Nat.{div-add-mod, mul_comm, mul-mod_right, zero-mod}
use mathlib.Core.Path.{ap₂}
use native.Mathlib.Decide.{ℕ_discrete}
use http_audio_server.Common.{
  ℕ, ◌+◌, ◌-◌, ◌*◌, ◌/◌, ◌%◌, ◌^◌, ◌≤◌, ◌<◌, min, ◌≡◌, refl, sym, ◌∙◌, ap, false, List, [], ◌∷◌,
  ◌++◌, length, take, drop, arith, length-append, length-take, length-drop, take-append, take_all,
  ==_ne, ==_iff, ◌≡⟨◌⟩◌, ◌∎,
}
use http_audio_server.Encoder.{EncoderImpl, Loop, emit, copy_in, gather, encode_full, round}
use http_audio_server.Encoder.Libs.{Codec}
use http_audio_server.Encoder.Abstract.{
  View, view, frame_floats, push_all, push_all_short, push_all_full,
}

-- Between calls the buffer has room, and holds whole samples of every channel.
pub record IsValid {c : Codec} (e : EncoderImpl c) : Type 0 where
  pub channels : 0 < e.n_channels
  pub size : length e.buf ≡ frame_floats e.config
  pub room : e.buf_ptr < length e.buf
  pub aligned : e.buf_ptr % e.n_channels ≡ 0

-- The frames of the buffer that are filled, one sample for each channel.
abbrev pub filled : {c : Codec} → EncoderImpl c → ℕ
filled e = e.buf_ptr / e.n_channels

mul-div : (n k : ℕ) → 0 < k → (n * k) / k ≡ n
mul-div n k h = grind arith

mul_lt_cancel : (a b k : ℕ) → a * k < b * k → a < b
mul_lt_cancel a b k h = grind arith

min-mul : (a b k : ℕ) → min (a * k) (b * k) ≡ min a b * k
min-mul a b k = grind arith

mul_sub : (a b k : ℕ) → b ≤ a → a * k - b * k ≡ (a - b) * k
mul_sub a b k h = let e : a ≡ b + (a - b) = omega arith in omega (arith, ap (λ (t : ℕ). t * k) e)

filled_mul : {c : Codec} {e : EncoderImpl c} → IsValid e → e.buf_ptr ≡ filled e * e.n_channels
filled_mul {c} {e} v =
    omega (arith, div-add-mod e.buf_ptr e.n_channels, v.aligned, mul_comm e.n_channels (filled e))

pub filled-lt : {c : Codec} {e : EncoderImpl c} → IsValid e → filled e < e.frame_size
filled-lt {c} {e} v =
    mul_lt_cancel (filled e) e.frame_size e.n_channels (omega (arith, filled_mul v, v.size, v.room))

lt_le : {a b : ℕ} → a < b → a ≤ b
lt_le h = omega arith

-- The samples of each channel that a round takes.
abbrev pub taken : {c : Codec} → EncoderImpl c → ℕ → ℕ
taken e n = min (e.frame_size - filled e) n

floats_in :
    {c : Codec} {e : EncoderImpl c} (n : ℕ)
    → IsValid e
    → n * e.n_channels < 2 ^ 64
    → min (length e.buf - e.buf_ptr) (n * e.n_channels % 2 ^ 64) ≡ taken e n * e.n_channels
floats_in {c} {e} n v h =
    min (length e.buf - e.buf_ptr) (n * e.n_channels % 2 ^ 64)
    ≡⟨ ap (min (length e.buf - e.buf_ptr)) (omega arith) ⟩
      min (length e.buf - e.buf_ptr) (n * e.n_channels)
    ≡⟨ ap (λ t. min t (n * e.n_channels))
        (ap₂ ◌-◌ v.size (filled_mul v)
          ∙ mul_sub e.frame_size (filled e) e.n_channels (lt_le (filled-lt v))) ⟩
      min ((e.frame_size - filled e) * e.n_channels) (n * e.n_channels)
    ≡⟨ min-mul (e.frame_size - filled e) n e.n_channels ⟩ taken e n * e.n_channels ∎

-- The rest of the round, at the number of samples that `gather` takes.
module _ (c : Codec) (e : EncoderImpl c) (v : IsValid e) (pcm : List (Codec.Sample c)) (k : ℕ) where
  length-filled : k ≤ length pcm → length (take e.buf_ptr e.buf ++ take k pcm) ≡ e.buf_ptr + k
  length-filled h = omega (
    arith,
    length-append (take e.buf_ptr e.buf) (take k pcm),
    length-take e.buf_ptr e.buf,
    length-take k pcm,
    v.room,
  )

  take-copy_in :
      k ≤ length pcm
      → take (e.buf_ptr + k) (copy_in c e.buf e.buf_ptr pcm k) ≡ take e.buf_ptr e.buf ++ take k pcm
  unfolding copy_in
  take-copy_in h =
      take-append (take e.buf_ptr e.buf ++ take k pcm) (drop (e.buf_ptr + k) e.buf) (e.buf_ptr + k)
        (sym (length-filled h))

  pub length-copy_in :
      k ≤ length pcm
      → e.buf_ptr + k ≤ length e.buf
      → length (copy_in c e.buf e.buf_ptr pcm k) ≡ length e.buf
  unfolding copy_in
  length-copy_in h r =
      length-append (take e.buf_ptr e.buf ++ take k pcm) (drop (e.buf_ptr + k) e.buf)
      ∙ omega (arith, length-filled h, length-drop (e.buf_ptr + k) e.buf)

-- The frame is encoded exactly when the samples complete it.
module _ (c : Codec) (bitrate : ℕ) (w : View c) (m : EncoderImpl c) where
  full_view :
      (xs : List (Codec.Sample c))
      → m.core ≡ w.core
      → m.buf ≡ w.pending ++ xs
      → length m.buf ≡ frame_floats m.config
      → length w.pending < frame_floats m.config
      → record { pending = []; core = emit c m.config bitrate m.buf m.core }
        ≡ push_all c m.config bitrate w xs
  full_view [] e p s r = absurd (omega (arith, ap length p, length-append w.pending []))
  full_view (x ∷ xs) e p s r =
      rw (e, p)
        (sym (
          push_all_full c m.config bitrate w x xs
            (omega (arith, ap length p, length-append w.pending (x ∷ xs)))))

  pub view-encode_full :
      (xs : List (Codec.Sample c))
      → m.core ≡ w.core
      → take m.buf_ptr m.buf ≡ w.pending ++ xs
      → length m.buf ≡ frame_floats m.config
      → m.buf_ptr ≤ length m.buf
      → length w.pending < frame_floats m.config
      → view (encode_full c bitrate m) ≡ push_all c m.config bitrate w xs
  unfolding encode_full
  view-encode_full xs e p s r h = elim (ℕ_discrete m.buf_ptr (length m.buf)) [
    | yes full ↦
        rw ((==_iff m.buf_ptr (length m.buf)).1 full)
          (full_view xs e (sym (take_all m.buf_ptr m.buf (omega arith)) ∙ p) s h)
    | no part ↦
        rw (==_ne m.buf_ptr (length m.buf) part, e, p)
          (sym (
            push_all_short c m.config bitrate w xs (
              omega (arith, ap length p, length-take m.buf_ptr m.buf, length-append w.pending xs))))
  ]

aligned_add : (q t p k : ℕ) → p ≡ q * k → (p + t * k) % k ≡ 0
aligned_add q t p k h =
    let e : p + t * k ≡ k * (q + t) = omega arith in rw e (mul-mod_right k (q + t))

-- What `gather` leaves, in samples per channel.
module _ (c : Codec) (bitrate : ℕ) (e : EncoderImpl c) (v : IsValid e) (pcm : List (Codec.Sample c))
    (n : ℕ) (fits : n * e.n_channels < 2 ^ 64) (given : n * e.n_channels ≤ length pcm) where
  unfoldable pub floats : ℕ
  floats = taken e n * e.n_channels

  gathered : EncoderImpl c
  unfolding floats
  gathered = record e { buf = copy_in c e.buf e.buf_ptr pcm floats; buf_ptr = e.buf_ptr + floats }

  gather_lem :
      gather c false (record { state = e; pcm = pcm; n_samples = n })
      ≡ record { state = gathered; pcm = drop floats pcm; n_samples = n - taken e n }
  unfolding gather gathered floats
  gather_lem = rw (floats_in n v fits, mul-div (taken e n) e.n_channels v.channels)

  -- The copy stays within the buffer, and within the samples given.
  pub floats_bounds :
      (e.buf_ptr + floats ≤ length e.buf) × (floats ≤ length pcm) × (floats ≤ n * e.n_channels)
  unfolding floats
  floats_bounds = (
    omega (arith, floats_in n v fits, v.room),
    omega (arith, floats_in n v fits),
    omega (arith, floats_in n v fits),
  )

  length-gathered : length gathered.buf ≡ frame_floats e.config
  unfolding gathered
  length-gathered = length-copy_in c e v pcm floats floats_bounds.1 floats_bounds.0 ∙ v.size

  aligned : (e.buf_ptr + floats) % e.n_channels ≡ 0
  unfolding floats
  aligned = aligned_add (filled e) (taken e n) e.buf_ptr e.n_channels (filled_mul v)

  pub next : EncoderImpl c
  unfolding gathered
  next = encode_full c bitrate gathered

  pub next_view : view next ≡ push_all c e.config bitrate (view e) (take floats pcm)
  unfolding next
  next_view =
      view-encode_full c bitrate (view e) gathered (take floats pcm) refl
        (take-copy_in c e v pcm floats floats_bounds.1) length-gathered
        (omega (arith, length-gathered, floats_bounds, v.size))
        (omega (arith, length-take e.buf_ptr e.buf, v.room, v.size))

  pub next-IsValid : IsValid next
  unfolding next encode_full
  next-IsValid = elim (ℕ_discrete (e.buf_ptr + floats) (length gathered.buf)) [
    | yes full ↦ rw ((==_iff (e.buf_ptr + floats) (length gathered.buf)).1 full) (record {
      channels = v.channels;
      size = length-gathered;
      room = omega (arith, length-gathered, v.size, v.room);
      aligned = zero-mod e.n_channels;
    })
    | no part ↦ rw (==_ne (e.buf_ptr + floats) (length gathered.buf) part) (record {
      channels = v.channels;
      size = length-gathered;
      room = omega (arith, length-gathered, floats_bounds, v.size);
      aligned = aligned;
    })
  ]

  pub next_config : (next.config ≡ e.config) × (next.done ≡ e.done)
  unfolding next encode_full
  next_config = ground arith

  pub round_lem :
      round c bitrate false (record { state = e; pcm = pcm; n_samples = n })
      ≡ record { state = next; pcm = drop floats pcm; n_samples = n - taken e n }
  unfolding round next
  round_lem = ap (λ (g : Loop c). record g { state = encode_full c bitrate g.state }) gather_lem
