-- ===== src/Encoder/Create.antt =====
-- The constructor of `EncoderImpl`, and the codec header that it hands to the muxer.
use native.Mathlib.Nat.{zero-mod}
use http_audio_server.Common.{
  ℕ, ◌*◌, ◌/◌, ◌%◌, ◌^◌, ◌≤◌, ◌<◌, ◌≡◌, refl, ap, ◌∙◌, false, List, [], ◌∷◌, ◌++◌, length, take,
  drop, replicate, length-replicate, arith,
}
use http_audio_server.Common.Bytes.{to_bytes, of_bytes, of_bytes-to_bytes}
use http_audio_server.Encoder.{EncoderImpl}
use http_audio_server.Encoder.Libs.{Codec}
use http_audio_server.Encoder.Round.{IsValid}

-- `OpusMkvCodecPrivate`, as its bytes lie in memory under `#pragma pack(1)`.
unfoldable pub opus_mkv_codec_private : ℕ → ℕ → List ℕ
unfolding to_bytes
opus_mkv_codec_private channel_count sample_rate =
    (0x4f ∷ 0x70 ∷ 0x75 ∷ 0x73 ∷ 0x48 ∷ 0x65 ∷ 0x61 ∷ 0x64 ∷ [])
    ++ (1 ∷ channel_count % 2 ^ 8 ∷ [])
    ++ to_bytes 2 0
    ++ to_bytes 4 (sample_rate % 2 ^ 32)
    ++ to_bytes 2 0
    ++ 0 ∷ []

-- What a reader of the header finds: the magic text, the channels and the rate.
abbrev pub channels_of : List ℕ → List ℕ
channels_of header = take 1 (drop 9 header)

abbrev pub rate_of : List ℕ → ℕ
rate_of header = of_bytes (take 4 (drop 12 header))

product_pos : (a b : ℕ) → 0 < a → 0 < b → 0 < a * b
product_pos a b h k = grind arith

module _ (c : Codec) where
  open c use {silence, opus_encoder_create, segment_init, add_audio_track, set_codec_private}

  unfoldable pub create : ℕ → ℕ → EncoderImpl c
  create rate n_channels =
      let (segment, track_id) = add_audio_track segment_init rate n_channels in
      record {
        config = record {
          rate = rate;
          n_channels = n_channels;
          frame_size = rate / 25;
          track_id = track_id;
        };
        core = record {
          granule = 0;
          enc = opus_encoder_create rate n_channels;
          segment = set_codec_private segment track_id (opus_mkv_codec_private n_channels rate);
          writer = record { buf = []; bytes_written = 0 };
        };
        buf = replicate (rate / 25 * n_channels) silence;
        buf_ptr = 0;
        done = false;
      }

  -- A new encoder is ready for use, for a rate of 25 Hz or more and at least one channel.
  pub create-IsValid :
      (rate n_channels : ℕ) → 25 ≤ rate → 0 < n_channels → IsValid (create rate n_channels)
  unfolding create
  create-IsValid rate n_channels h k = record {
    channels = k;
    size = length-replicate (rate / 25 * n_channels) silence;
    room = omega (
      arith,
      length-replicate (rate / 25 * n_channels) silence,
      product_pos (rate / 25) n_channels (omega arith) k,
    );
    aligned = zero-mod n_channels;
  }

-- The header is 19 bytes; a channel count below 256 and a rate below 2^32 can be read back.
pub codec_private_fields :
    (channel_count sample_rate : ℕ)
    → channel_count < 256
    → sample_rate < 2 ^ 32
    → let header = opus_mkv_codec_private channel_count sample_rate in
      (length header ≡ 19)
      × (channels_of header ≡ channel_count ∷ [])
      × (rate_of header ≡ sample_rate)
unfolding opus_mkv_codec_private
codec_private_fields channel_count sample_rate h k = (
  refl,
  ap (λ (b : ℕ). b ∷ []) (omega arith),
  of_bytes-to_bytes 4 (sample_rate % 2 ^ 32) (omega arith) ∙ omega arith,
)
