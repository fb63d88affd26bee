-- ===== src/Stream/Consume.antt =====
-- A round of `advance`: read, feed, and drop a decoder at its end.
use http_audio_server.Common.{
  ℕ, ◌+◌, ◌-◌, ◌*◌, ◌/◌, ◌%◌, ◌^◌, ◌≤◌, ◌<◌, ◌≡◌, ◌≢◌, refl, sym, ap, ◌∙◌, false, some, List, [],
  ◌∷◌, ◌++◌, length, take_all, ltb, arith, if◌then◌else◌, ==_ne, ==_iff, subst, append-nil,
}
use native.Mathlib.Decide.{ℕ_discrete}
use http_audio_server.Encoder.{EncoderImpl, feed}
use http_audio_server.Encoder.Round.{IsValid}
use http_audio_server.Encoder.Feed.{Runs, feed-Runs, Runs-refl}
use http_audio_server.Stream.{Entry, Stream, Round, to_floats, close_round, consume}
use http_audio_server.Stream.Env.{World}
use http_audio_server.Stream.Loop.{length-to_floats}

module _ (w : World) where
  -- From `r` to `r'` the buffer was encoded, and is empty.
  pub record Consumed (r r' : Round w) (rest : List (Entry w)) : Type 0 where
    pub n_eq : r.n_bytes ≡ length r.stream.buf + r'.n_bytes
    pub out : List ℕ
    pub out_eq : r'.out ≡ r.out ++ out
    pub encoded :
        Runs r.stream.bitrate r.stream.encoder r'.stream.encoder (to_floats w r.stream.buf) out
    pub count_eq : r'.stream.n_samples ≡ (r.stream.n_samples + length r.stream.buf / 8) % 2 ^ 64
    pub bitrate_eq : r'.stream.bitrate ≡ r.stream.bitrate
    pub decoders_eq :
        r'.stream.decoders
        ≡ (if ltb (length r.stream.buf) r'.n_bytes then rest else r.stream.decoders)
    pub buf_eq : r'.stream.buf ≡ []
    pub metadata_eq : r'.metadata ≡ r.metadata

  consume_empty :
      (r : Round w) (rest : List (Entry w)) (buf : List ℕ)
      → r.stream.buf ≡ buf
      → buf ≡ []
      → IsValid r.stream.encoder
      → r.stream.encoder.done ≡ false
      → r.stream.n_samples < 2 ^ 64
      → Consumed r (close_round w r rest r.n_bytes r.stream r.out) rest
  unfolding close_round to_floats
  consume_empty r rest buf e z v open_ counted = record {
    n_eq = omega (arith, ap length (e ∙ z));
    out = [];
    out_eq = sym (append-nil r.out);
    encoded = rw (e ∙ z) (Runs-refl (World.codec w) r.stream.bitrate r.stream.encoder v open_);
    count_eq = omega (arith, ap length (e ∙ z));
    bitrate_eq = refl;
    decoders_eq = refl;
    buf_eq = refl;
    metadata_eq = refl;
  }

  consume_zero :
      (r : Round w) (rest : List (Entry w)) (k : ℕ)
      → k ≡ 0
      → consume w r rest k ≡ some (close_round w r rest r.n_bytes r.stream r.out)
  unfolding consume
  consume_zero r rest k z = rw ((==_iff k 0).1 z)

  -- The stream when the encoder has taken the buffer.
  abbrev fed_stream : Stream w → EncoderImpl (World.codec w) → Stream w
  fed_stream st f = record st {
    encoder = f;
    n_samples = (st.n_samples + length st.buf / 4 / 2) % 2 ^ 64;
  }

  consume_fed :
      (r : Round w) (rest : List (Entry w)) (k : ℕ) (f : EncoderImpl (World.codec w)) (out : List ℕ)
      → k ≢ 0
      → feed
          (World.codec w)
          r.stream.encoder
          (to_floats w r.stream.buf)
          (length r.stream.buf / 4 / 2)
          r.stream.bitrate
        ≡ some (f, out)
      → consume w r rest k
        ≡ some (
            close_round w r rest
              (r.n_bytes - length r.stream.buf)
              (fed_stream r.stream f)
              (r.out ++ out))
  unfolding consume
  consume_fed r rest k f out nz run = rw (==_ne k 0 nz, run)

  fed-Consumed :
      (r : Round w) (rest : List (Entry w)) (f : EncoderImpl (World.codec w)) (out : List ℕ)
      → length r.stream.buf ≤ r.n_bytes
      → Runs r.stream.bitrate r.stream.encoder f (to_floats w r.stream.buf) out
      → Consumed r
          (close_round w r rest
            (r.n_bytes - length r.stream.buf)
            (fed_stream r.stream f)
            (r.out ++ out))
          rest
  unfolding close_round
  fed-Consumed r rest f out most p = record {
    n_eq = omega arith;
    out = out;
    out_eq = refl;
    encoded = p;
    count_eq = omega arith;
    bitrate_eq = refl;
    decoders_eq = refl;
    buf_eq = refl;
    metadata_eq = refl;
  }

  -- The samples of a buffer of whole pairs.
  fed_samples :
      (e : EncoderImpl (World.codec w)) (buf : List ℕ)
      → e.n_channels ≡ 2
      → length buf % 8 ≡ 0
      → length buf / 4 / 2 * e.n_channels ≡ length (to_floats w buf)
  fed_samples e buf stereo aligned = rw stereo (omega (arith, length-to_floats w buf))

  length_zero {ℓ} : {A : Type ℓ} (xs : List A) → length xs ≡ 0 → xs ≡ []
  length_zero [] h = refl
  length_zero (x ∷ xs) h = absurd (omega arith)

  pub consume-Consumed :
      (r : Round w) (rest : List (Entry w))
      → IsValid r.stream.encoder
      → r.stream.encoder.done ≡ false
      → r.stream.encoder.n_channels ≡ 2
      → length r.stream.buf % 8 ≡ 0
      → length r.stream.buf ≤ r.n_bytes
      → r.n_bytes < 2 ^ 64
      → r.stream.n_samples < 2 ^ 64
      → (r' : Round w) × (consume w r rest (length r.stream.buf) ≡ some r') × Consumed r r' rest
  consume-Consumed r rest v open_ stereo aligned most fits counted =
      elim (ℕ_discrete (length r.stream.buf) 0) [
        | yes z ↦ (
          close_round w r rest r.n_bytes r.stream r.out,
          consume_zero r rest (length r.stream.buf) z,
          consume_empty r rest r.stream.buf refl (length_zero r.stream.buf z) v open_ counted,
        )
        | no nz ↦
            let floats = to_floats w r.stream.buf in
            let size = fed_samples r.stream.encoder r.stream.buf stereo aligned in
            let (t, run, p) =
              feed-Runs (World.codec w) r.stream.bitrate r.stream.encoder floats
                (length r.stream.buf / 4 / 2) v open_
                (omega (arith, size, length-to_floats w r.stream.buf)) (omega (arith, size)) in
            let p' =
              subst (λ xs. Runs r.stream.bitrate r.stream.encoder t.0 xs t.1)
                (take_all (length r.stream.buf / 4 / 2 * r.stream.encoder.n_channels) floats
                  (omega (arith, size)))
                p in
            (
              close_round w r rest (r.n_bytes - length r.stream.buf) (fed_stream r.stream t.0)
                  (r.out ++ t.1),
              consume_fed r rest (length r.stream.buf) t.0 t.1 nz run,
              fed-Consumed r rest t.0 t.1 most p',
            )
      ]
