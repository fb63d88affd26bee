-- ===== src/Encoder/Class.antt =====
-- http_audio_server/encoder.hpp, the class `Encoder` as its clients see it, and the implementation
-- over `EncoderImpl`.
use http_audio_server.Common.{
  ℕ, ◌+◌, ◌*◌, ◌^◌, ◌≡◌, ◌≤◌, ◌<◌, refl, ap, Bool, true, false, Option, some, List, [], length,
  if◌then◌else◌,
}
use http_audio_server.Encoder.Libs.{Codec}
use http_audio_server.Encoder.{
  Config, EncoderImpl, encode_loop, then_finish, feed, finalize, encode,
}
use http_audio_server.Encoder.Round.{IsValid}
use http_audio_server.Encoder.Create.{create, create-IsValid}
use http_audio_server.Encoder.Feed.{feed-Feeds}
use http_audio_server.Encoder.Flush.{finalize_lem}

-- `none` is out of fuel. An encoder is open from its creation to `finalize`.
pub record EncoderClass (c : Codec) : Type 1 where
  pub T : Type 0
  pub n_channels : T → ℕ
  pub create : ℕ → ℕ → T
  pub feed : T → List (Codec.Sample c) → ℕ → ℕ → Option (T × List ℕ)
  pub finalize : T → ℕ → Option (T × List ℕ)
  pub IsOpen : T → Type 0
  pub IsDone : T → Type 0
  pub create-IsOpen : (rate n : ℕ) → 25 ≤ rate → 0 < n → IsOpen (create rate n)
  -- `feed` returns, and leaves the encoder open.
  pub feeds :
      (e : T) (pcm : List (Codec.Sample c)) (n bitrate : ℕ)
      → IsOpen e
      → n * n_channels e < 2 ^ 64
      → n * n_channels e ≤ length pcm
      → (r : T × List ℕ) × (feed e pcm n bitrate ≡ some r)
        × IsOpen (r.0)
        × (n_channels (r.0) ≡ n_channels e)
  -- `finalize` returns, and the encoder is done.
  pub finalizes :
      (e : T) (bitrate : ℕ)
      → IsOpen e
      → (r : T × List ℕ) × (finalize e bitrate ≡ some r) × IsDone (r.0)
  -- An encoder that is done writes nothing more.
  pub ignores :
      (e : T) (pcm : List (Codec.Sample c)) (n bitrate : ℕ)
      → IsDone e
      → (feed e pcm n bitrate ≡ some (e, [])) × (finalize e bitrate ≡ some (e, []))

module _ (c : Codec) where
  abbrev IsOpenImpl : EncoderImpl c → Type 0
  IsOpenImpl e = IsValid e × (e.done ≡ false)

  feeds_lem :
      (e : EncoderImpl c) (pcm : List (Codec.Sample c)) (n bitrate : ℕ)
      → IsOpenImpl e
      → n * e.n_channels < 2 ^ 64
      → n * e.n_channels ≤ length pcm
      → (r : EncoderImpl c × List ℕ) × (feed c e pcm n bitrate ≡ some r)
        × IsOpenImpl (r.0)
        × (r.0.n_channels ≡ e.n_channels)
  feeds_lem e pcm n bitrate (v, open_) fits given =
      let (r, run, fed) = feed-Feeds c bitrate e pcm n v open_ fits given in
      (r, run, (fed.valid, fed.done_eq), ap (λ (k : Config). k.n_channels) fed.config_eq)

  done_encode :
      (e : EncoderImpl c) (pcm : List (Codec.Sample c)) (n bitrate : ℕ) (flush : Bool)
      → e.done ≡ true
      → encode c e pcm n bitrate flush ≡ some (e, [])
  unfolding encode
  done_encode e pcm n bitrate flush h =
      let run =
        then_finish c flush
          (encode_loop c (n + 1) bitrate flush (record { state = e; pcm = pcm; n_samples = n })) in
      ap (λ b. if b then some (e, []) else run) h

  finalizes_lem :
      (e : EncoderImpl c) (bitrate : ℕ)
      → IsOpenImpl e
      → (r : EncoderImpl c × List ℕ) × (finalize c e bitrate ≡ some r) × (r.0.done ≡ true)
  finalizes_lem e bitrate (v, open_) = (_, finalize_lem c bitrate e v open_, refl)

  ignores_lem :
      (e : EncoderImpl c) (pcm : List (Codec.Sample c)) (n bitrate : ℕ)
      → e.done ≡ true
      → (feed c e pcm n bitrate ≡ some (e, [])) × (finalize c e bitrate ≡ some (e, []))
  unfolding feed finalize
  ignores_lem e pcm n bitrate h =
      (done_encode e pcm n bitrate false h, done_encode e [] 0 bitrate true h)

  create-IsOpenImpl : (rate n : ℕ) → 25 ≤ rate → 0 < n → IsOpenImpl (create c rate n)
  unfolding create
  create-IsOpenImpl rate n h k = (create-IsValid c rate n h k, refl)

  abbrev encoder_class : EncoderClass c
  encoder_class = record {
    T = EncoderImpl c;
    n_channels = λ e. e.n_channels;
    create = create c;
    feed = feed c;
    finalize = finalize c;
    IsOpen = IsOpenImpl;
    IsDone = λ e. e.done ≡ true;
    create-IsOpen = create-IsOpenImpl;
    feeds = feeds_lem;
    finalizes = finalizes_lem;
    ignores = ignores_lem;
  }

-- A client of the class.
module _ (c : Codec) (k : EncoderClass c) where
  -- By the laws of the class alone: an encoder that is fed and then finalised returns from both, and
  -- what it is fed from then on adds nothing.
  pub feed-finalize :
      (e : EncoderClass.T k) (pcm late : List (Codec.Sample c)) (n m bitrate : ℕ)
      → EncoderClass.IsOpen k e
      → n * EncoderClass.n_channels k e < 2 ^ 64
      → n * EncoderClass.n_channels k e ≤ length pcm
      → (fed ended : EncoderClass.T k × List ℕ) × (EncoderClass.feed k e pcm n bitrate ≡ some fed)
        × (EncoderClass.finalize k fed.0 bitrate ≡ some ended)
        × (EncoderClass.feed k ended.0 late m bitrate ≡ some (ended.0, []))
  feed-finalize e pcm late n m bitrate open_ fits given =
      let (fed, run, still, same) = EncoderClass.feeds k e pcm n bitrate open_ fits given in
      let (ended, run', done) = EncoderClass.finalizes k fed.0 bitrate still in
      (fed, ended, run, run', (EncoderClass.ignores k ended.0 late m bitrate done).0)
