-- ===== src/Encoder/Flush.antt =====
-- The end of a stream: `Encoder::finalize`, and calls of `encode` that flush.
use mathlib.Core.Path.{ap₂}
use http_audio_server.Common.{
  ℕ, suc, ◌+◌, ◌-◌, ◌*◌, ◌%◌, ◌^◌, ◌≤◌, ◌<◌, min, ◌≡◌, refl, sym, ◌∙◌, ap, true, false, List, [],
  ◌++◌, length, take, drop, replicate, Option, some, le→leb, append_assoc, arith, ==_self,
  if◌then◌else◌, take-append, length-append, length-take, length-replicate, Bool,
}
use http_audio_server.Encoder.{
  Core, EncoderImpl, Loop, emit, copy_in, zero_from, write_all, gather, encode_full, round,
  encode_loop, encode, finalize, finish, dump, then_finish,
}
use http_audio_server.Encoder.Libs.{Codec}
use http_audio_server.Encoder.Refines.{loop_last}
use http_audio_server.Encoder.Round.{IsValid, length-copy_in}

module _ (c : Codec) (bitrate : ℕ) where
  -- The last frame: what waits, then silence.
  abbrev pub last_frame : EncoderImpl c → List (Codec.Sample c)
  last_frame e = take e.buf_ptr e.buf ++ replicate (length e.buf - e.buf_ptr) (Codec.silence c)

  -- The encoder when it has encoded the last frame.
  abbrev last_state : EncoderImpl c → EncoderImpl c
  last_state e = record e {
    core = emit c e.config bitrate (last_frame e) e.core;
    buf = last_frame e;
    buf_ptr = 0;
  }

  -- What the libraries wrote for a frame and for the end of the segment.
  abbrev pub closed : Core c → Core c
  closed k =
      let (segment, writes) = Codec.finalize c k.segment in
      record k { granule = 0; segment = segment; writer = write_all k.writer writes }

  length-last_frame :
      (e : EncoderImpl c) → e.buf_ptr ≤ length e.buf → length (last_frame e) ≡ length e.buf
  length-last_frame e h =
      length-append (take e.buf_ptr e.buf) (replicate (length e.buf - e.buf_ptr) (Codec.silence c))
      ∙ omega (
        arith,
        length-take e.buf_ptr e.buf,
        length-replicate (length e.buf - e.buf_ptr) (Codec.silence c),
      )

  kept :
      (e : EncoderImpl c) (v : IsValid e) (pcm : List (Codec.Sample c)) (k : ℕ)
      → take e.buf_ptr (copy_in c e.buf e.buf_ptr pcm k) ≡ take e.buf_ptr e.buf
  unfolding copy_in
  kept e v pcm k =
      ap (take e.buf_ptr)
        (append_assoc (take e.buf_ptr e.buf) (take k pcm) (drop (e.buf_ptr + k) e.buf))
      ∙ take-append (take e.buf_ptr e.buf) (take k pcm ++ drop (e.buf_ptr + k) e.buf) e.buf_ptr
          (omega (arith, length-take e.buf_ptr e.buf, v.room))

  -- The samples given are copied, and then overwritten by zeros.
  zero_from-copy_in :
      (e : EncoderImpl c) (v : IsValid e) (pcm : List (Codec.Sample c)) (k : ℕ)
      → k ≤ length pcm
      → e.buf_ptr + k ≤ length e.buf
      → zero_from c (copy_in c e.buf e.buf_ptr pcm k) e.buf_ptr ≡ last_frame e
  unfolding zero_from
  zero_from-copy_in e v pcm k h r =
      ap₂
        (λ (buf : List (Codec.Sample c)) (n : ℕ).
          buf ++ replicate (n - e.buf_ptr) (Codec.silence c))
        (kept e v pcm k) (length-copy_in c e v pcm k h r)

  gather_flush :
      (e : EncoderImpl c) (v : IsValid e) (pcm : List (Codec.Sample c)) (n : ℕ)
      → n ≤ e.frame_size
      → n * e.n_channels < 2 ^ 64
      → n * e.n_channels ≤ length pcm
      → gather c true (record { state = e; pcm = pcm; n_samples = n }) ≡ record {
        state = record e { buf = last_frame e; buf_ptr = length (last_frame e) };
        pcm = pcm;
        n_samples = 0;
      }
  unfolding gather
  gather_flush e v pcm n small fits given = rw (le→leb n e.frame_size small) (
      ap₂
        (λ (buf : List (Codec.Sample c)) (ptr : ℕ). record {
          state = record e { buf = buf; buf_ptr = ptr };
          pcm = pcm;
          n_samples = 0;
        })
        (zero_from-copy_in e v pcm k h r)
        (length-copy_in c e v pcm k h r ∙ sym (length-last_frame e (omega (arith, v.room)))))
    where
      k : ℕ
      k = min (length e.buf - e.buf_ptr) (n * e.n_channels % 2 ^ 64)

      h : k ≤ length pcm
      h = omega arith

      r : e.buf_ptr + k ≤ length e.buf
      r = omega (arith, v.room)

  encode_full_at_end :
      (e : EncoderImpl c)
      → encode_full c bitrate (record e { buf = last_frame e; buf_ptr = length (last_frame e) })
        ≡ last_state e
  unfolding encode_full
  encode_full_at_end e = rw (==_self (length (last_frame e)))

  round_flush :
      (e : EncoderImpl c) (v : IsValid e) (pcm : List (Codec.Sample c)) (n : ℕ)
      → n ≤ e.frame_size
      → n * e.n_channels < 2 ^ 64
      → n * e.n_channels ≤ length pcm
      → round c bitrate true (record { state = e; pcm = pcm; n_samples = n })
        ≡ record { state = last_state e; pcm = pcm; n_samples = 0 }
  unfolding round
  round_flush e v pcm n small fits given =
      ap (λ (g : Loop c). record g { state = encode_full c bitrate g.state })
        (gather_flush e v pcm n small fits given)
      ∙ ap (λ (f : EncoderImpl c). record { state = f; pcm = pcm; n_samples = 0 })
          (encode_full_at_end e)

  -- The encoder behind `finalize`, and the output of that call.
  abbrev pub closed_core : EncoderImpl c → Core c
  closed_core e = closed (emit c e.config bitrate (last_frame e) e.core)

  abbrev pub finalized : EncoderImpl c → EncoderImpl c
  finalized e = record (last_state e) {
    core = record (closed_core e) { writer = record (closed_core e).writer { buf = [] } };
    done = true;
  }

  flush_lem :
      (e : EncoderImpl c) (v : IsValid e) (pcm : List (Codec.Sample c)) (n : ℕ)
      → e.done ≡ false
      → n ≤ e.frame_size
      → n * e.n_channels < 2 ^ 64
      → n * e.n_channels ≤ length pcm
      → encode c e pcm n bitrate true ≡ some (finalized e, (closed_core e).writer.buf)
  unfolding encode finish dump
  flush_lem e v pcm n open_ small fits given =
      let same : n + 1 ≡ suc n = omega arith in
      let loop : ℕ → Option (EncoderImpl c) =
        λ fuel. encode_loop c fuel bitrate true (record { state = e; pcm = pcm; n_samples = n }) in
      ap (λ b. if b then some (e, []) else then_finish c true (loop (n + 1))) open_
      ∙ ap (then_finish c true) (
          ap loop same
          ∙ loop_last c bitrate true n _ _ (round_flush e v pcm n small fits given) refl)

  -- `finalize` encodes what waits, filled up with silence, as one last frame, closes the segment,
  -- and returns all that is written by then.
  pub finalize_lem :
      (e : EncoderImpl c)
      → IsValid e
      → e.done ≡ false
      → finalize c e bitrate ≡ some (finalized e, (closed_core e).writer.buf)
  unfolding finalize
  finalize_lem e v open_ = flush_lem e v [] 0 open_ (omega arith) (omega arith) (omega arith)

  -- A call of `encode` that flushes drops the samples that it is given, if they are a frame at
  -- most: it does what `finalize` does, whatever they are.
  pub encode-eq-finalize :
      (e : EncoderImpl c) (pcm : List (Codec.Sample c)) (n : ℕ)
      → IsValid e
      → e.done ≡ false
      → n ≤ e.frame_size
      → n * e.n_channels < 2 ^ 64
      → n * e.n_channels ≤ length pcm
      → encode c e pcm n bitrate true ≡ finalize c e bitrate
  encode-eq-finalize e pcm n v open_ small fits given =
      flush_lem e v pcm n open_ small fits given ∙ sym (finalize_lem e v open_)

  -- Behind `finalize` every call leaves the encoder as it is, and writes nothing.
  pub finalize-encode :
      (e : EncoderImpl c)
      → IsValid e
      → e.done ≡ false
      → (r : EncoderImpl c × List ℕ) × (finalize c e bitrate ≡ some r)
        × ((pcm : List (Codec.Sample c)) (n later : ℕ) (flush : Bool)
            → encode c r.0 pcm n later flush ≡ some (r.0, []))
  unfolding encode
  finalize-encode e v open_ =
      ((finalized e, (closed_core e).writer.buf), finalize_lem e v open_, λ pcm n later flush. refl)

  -- `finalize` on an encoder that is done.
  pub finalize_done : (e : EncoderImpl c) → e.done ≡ true → finalize c e bitrate ≡ some (e, [])
  unfolding finalize encode
  finalize_done e h = rw h
