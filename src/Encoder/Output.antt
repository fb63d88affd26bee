-- ===== src/Encoder/Output.antt =====
-- The bytes that wait in the `BufferMkvWriter` do not influence the encoder.
use http_audio_server.Common.{
  ℕ, ◌≡◌, refl, ap, List, [], ◌∷◌, ◌++◌, append_assoc, length, Option, none, some, Bool-cases, inl,
  inr, ◌==◌, ◌+◌, ◌%◌, ◌^◌,
}
use http_audio_server.Encoder.{Config, Core, Writer, write, write_all, mux, emit, buf_size}
use http_audio_server.Encoder.Libs.{Codec}
use http_audio_server.Encoder.Abstract.{View, push, push_all, frame_floats}

-- The same writer, with `o` written before all that waits.
abbrev pub behind : List ℕ → Writer → Writer
behind o w = record w { buf = o ++ w.buf }

abbrev core_behind : {c : Codec} → List ℕ → Core c → Core c
core_behind o k = record k { writer = behind o k.writer }

abbrev pub view_behind : {c : Codec} → List ℕ → View c → View c
view_behind o v = record v { core = core_behind o v.core }

-- The view behind `dump`.
abbrev pub drained : {c : Codec} → View c → View c
drained v = record v { core = record v.core { writer = record v.core.writer { buf = [] } } }

write_all-behind :
    (o : List ℕ) (w : Writer) (bs : List (List ℕ))
    → write_all (behind o w) bs ≡ behind o (write_all w bs)
unfolding write_all
write_all-behind o w [] = refl
write_all-behind o w (b ∷ bs) = rw (append_assoc o w.buf b) (write_all-behind o (write w b) bs)

module _ (c : Codec) where
  mux-behind :
      (rate track_id : ℕ) (o : List ℕ) (k : Core c) (enc : Codec.Opus c) (packet : Option (List ℕ))
      → mux c rate track_id (core_behind o k) enc packet
        ≡ core_behind o (mux c rate track_id k enc packet)
  unfolding mux
  mux-behind rate track_id o k enc none = refl
  mux-behind rate track_id o k enc (some p) = rw write_all-behind

  emit-behind :
      (g : Config) (bitrate : ℕ) (frame : List (Codec.Sample c)) (o : List ℕ) (k : Core c)
      → emit c g bitrate frame (core_behind o k) ≡ core_behind o (emit c g bitrate frame k)
  unfolding emit
  emit-behind g bitrate frame o k =
      let r =
        Codec.opus_encode_float c (Codec.set_bitrate c k.enc bitrate) frame g.frame_size buf_size in
      ap (λ (k' : Core c). record k' { granule = (k.granule + g.frame_size) % 2 ^ 64 })
        (mux-behind g.rate g.track_id o k r.0 r.1)

  module _ (g : Config) (bitrate : ℕ) (o : List ℕ) where
    push-behind :
        (v : View c) (x : Codec.Sample c)
        → push c g bitrate (view_behind o v) x ≡ view_behind o (push c g bitrate v x)
    unfolding push
    push-behind v x = elim (Bool-cases (length (v.pending ++ x ∷ []) == frame_floats g)) [
      | inl e ↦ rw (e, emit-behind)
      | inr e ↦ rw e
    ]

    pub push_all-behind :
        (v : View c) (xs : List (Codec.Sample c))
        → push_all c g bitrate (view_behind o v) xs ≡ view_behind o (push_all c g bitrate v xs)
    unfolding push_all
    push_all-behind v [] = refl
    push_all-behind v (x ∷ xs) = rw (push-behind v x) (push_all-behind (push c g bitrate v x) xs)
