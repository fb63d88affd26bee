-- ===== src/Encoder/Abstract.antt =====
-- What the encoder promises: it takes samples one at a time, and encodes a frame whenever one is
-- complete. The buffer, its index and the rounds of `encode` do not show.
use http_audio_server.Common.{
  ℕ, ◌+◌, ◌*◌, ◌<◌, ◌≡◌, refl, ◌∙◌, List, [], ◌∷◌, ◌++◌, length, take, ◌==◌, if◌then◌else◌, arith,
  ==_ne, ==_iff, ap, length-append, append-nil, append_assoc,
}
use http_audio_server.Encoder.{Config, Core, EncoderImpl, emit}
use http_audio_server.Encoder.Libs.{Codec}

pub record View (c : Codec) : Type 0 where
  pub pending : List (Codec.Sample c)
  pub core : Core c

abbrev pub view : {c : Codec} → EncoderImpl c → View c
view e = record { pending = take e.buf_ptr e.buf; core = e.core }

-- The number of samples of a frame, over all channels.
abbrev pub frame_floats : Config → ℕ
frame_floats g = g.frame_size * g.n_channels

module _ (c : Codec) (g : Config) (bitrate : ℕ) where
  unfoldable pub push : View c → Codec.Sample c → View c
  push v x =
      let frame = v.pending ++ x ∷ [] in
      if length frame == frame_floats g
      then record { pending = []; core = emit c g bitrate frame v.core }
      else record v { pending = frame }

  unfoldable pub push_all : View c → List (Codec.Sample c) → View c
  push_all v [] = v
  push_all v (x ∷ xs) = push_all (push v x) xs

  pub push_all-append :
      (v : View c) (xs ys : List (Codec.Sample c))
      → push_all v (xs ++ ys) ≡ push_all (push_all v xs) ys
  unfolding push_all
  push_all-append v [] ys = refl
  push_all-append v (x ∷ xs) ys = push_all-append (push v x) xs ys

  length-snoc :
      (v : View c) (x : Codec.Sample c) → length (v.pending ++ x ∷ []) ≡ length v.pending + 1
  length-snoc v x = omega (arith, length-append v.pending (x ∷ []))

  push_short :
      (v : View c) (x : Codec.Sample c)
      → length v.pending + 1 < frame_floats g
      → push v x ≡ record v { pending = v.pending ++ x ∷ [] }
  unfolding push
  push_short v x h =
      rw (==_ne (length (v.pending ++ x ∷ [])) (frame_floats g) (omega (arith, length-snoc v x)))

  push_full :
      (v : View c) (x : Codec.Sample c)
      → length v.pending + 1 ≡ frame_floats g
      → push v x ≡ record { pending = []; core = emit c g bitrate (v.pending ++ x ∷ []) v.core }
  unfolding push
  push_full v x h = rw ((==_iff _ (frame_floats g)).1 (length-snoc v x ∙ h))

  -- Samples that do not complete a frame wait.
  pub push_all_short :
      (v : View c) (xs : List (Codec.Sample c))
      → length v.pending + length xs < frame_floats g
      → push_all v xs ≡ record v { pending = v.pending ++ xs }
  unfolding push_all
  push_all_short v [] h = rw append-nil
  push_all_short v (x ∷ xs) h = rw (push_short v x (omega arith)) (
      push_all_short (record v { pending = v.pending ++ x ∷ [] }) xs
        (omega (arith, length-snoc v x))
      ∙ ap (λ p. record { pending = p; core = v.core }) (append_assoc v.pending (x ∷ []) xs))

  -- Samples that complete a frame are encoded with those that waited.
  pub push_all_full :
      (v : View c) (x : Codec.Sample c) (xs : List (Codec.Sample c))
      → length v.pending + length (x ∷ xs) ≡ frame_floats g
      → push_all v (x ∷ xs)
        ≡ record { pending = []; core = emit c g bitrate (v.pending ++ x ∷ xs) v.core }
  unfolding push_all
  push_all_full v x [] h = push_full v x h
  push_all_full v x (y ∷ ys) h = rw (push_short v x (omega arith)) (
      push_all_full (record v { pending = v.pending ++ x ∷ [] }) y ys
        (omega (arith, length-snoc v x))
      ∙ ap (λ p. record { pending = []; core = emit c g bitrate p v.core })
          (append_assoc v.pending (x ∷ []) (y ∷ ys)))
