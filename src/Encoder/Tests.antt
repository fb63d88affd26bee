-- ===== src/Encoder/Tests.antt =====
-- A small codec, runs of the encoder on it, and the theorems at concrete inputs.
use http_audio_server.Common.{
  ℕ, ◌+◌, ◌≤◌, ◌^◌, ◌≡◌, refl, true, List, [], ◌∷◌, ◌++◌, Option, some, arith, ◌<◌, ◌⊎◌, ◌*◌,
}
use http_audio_server.Encoder.{
  EncoderImpl, encode, feed, finalize, timestamp, round, dump, write_all,
}
use http_audio_server.Encoder.Libs.{Codec}
use http_audio_server.Encoder.Create.{create, create-IsValid}
use http_audio_server.Encoder.Abstract.{view}
use http_audio_server.Encoder.Round.{IsValid}
use http_audio_server.Encoder.Feed.{Feeds, feed-Feeds, feed-append}
use http_audio_server.Encoder.Flush.{encode-eq-finalize}
use http_audio_server.Encoder.Timestamp.{timestamp_exact_wrap}

-- A packet is its frame, and the muxer writes the time and the packet.
abbrev demo : Codec
demo = record {
  Sample = ℕ;
  silence = 0;
  Opus = ℕ;
  opus_encoder_create = λ rate n. 0;
  set_bitrate = λ enc bitrate. enc;
  opus_encode_float = λ enc frame size cap. (enc, some frame);
  Segment = ℕ;
  segment_init = 0;
  add_audio_track = λ s rate n. (s, 1);
  set_codec_private = λ s track header. s;
  add_frame = λ s packet track ts. (s, (ts ∷ []) ∷ packet ∷ []);
  finalize = λ s. (s, (99 ∷ []) ∷ []);
}

-- 25 Hz mono has frames of one sample, 50 Hz stereo of four.
abbrev start : EncoderImpl demo
start = create demo 50 2

start-IsValid : IsValid start
start-IsValid = create-IsValid demo 50 2 (omega arith) (omega arith)

abbrev six : List ℕ
six = 1 ∷ 2 ∷ 3 ∷ 4 ∷ 5 ∷ 6 ∷ []

abbrev two : List ℕ
two = 7 ∷ 8 ∷ []

abbrev bytes_of : Option (EncoderImpl demo × List ℕ) → List ℕ
bytes_of (some r) = r.1
bytes_of _ = []

feed_runs : bytes_of (feed demo start six 3 9) ≡ 0 ∷ 1 ∷ 2 ∷ 3 ∷ 4 ∷ []
unfolding create feed timestamp encode round dump write_all
feed_runs = refl

finalize_runs : bytes_of (finalize demo start 9) ≡ 0 ∷ 0 ∷ 0 ∷ 0 ∷ 0 ∷ 99 ∷ []
unfolding create finalize encode timestamp round dump write_all
finalize_runs = refl

feed-Feeds_example :
    (r : EncoderImpl demo × List ℕ) × (feed demo start six 3 9 ≡ some r) × Feeds 9 start six r
unfolding create
feed-Feeds_example = feed-Feeds demo 9 start six 3 start-IsValid refl (omega arith) (omega arith)

feed-append_example :
    (r s t : EncoderImpl demo × List ℕ) × (feed demo start six 3 9 ≡ some r)
    × (feed demo r.0 two 1 9 ≡ some s)
    × (feed demo start (six ++ two) (3 + 1) 9 ≡ some t)
    × (view s.0 ≡ view t.0)
    × (r.1 ++ s.1 ≡ t.1)
unfolding create
feed-append_example =
    feed-append demo 9 start six two 3 1 start-IsValid refl (omega arith) refl refl

encode-eq-finalize_example : encode demo start two 1 9 true ≡ finalize demo start 9
unfolding create
encode-eq-finalize_example =
    encode-eq-finalize demo 9 start two 1 start-IsValid refl (omega arith) (omega arith)
      (omega arith)

timestamp_exact_wrap_example :
    ((18446744074 * 1_000_000_000 < 2 ^ 64)
      × (timestamp 18446744074 48000 * 48000 ≤ 18446744074 * 1_000_000_000)
      × (18446744074 * 1_000_000_000 < (timestamp 18446744074 48000 + 1) * 48000))
    ⊎ ((2 ^ 64 ≤ 18446744074 * 1_000_000_000)
        × (timestamp 18446744074 48000 * 48000 + 2 ^ 64 ≤ 18446744074 * 1_000_000_000)
        × (18446744074 * 1_000_000_000 < (timestamp 18446744074 48000 + 1) * 48000 + 2 ^ 64))
timestamp_exact_wrap_example = timestamp_exact_wrap 18446744074 48000 (omega arith) (omega arith)
