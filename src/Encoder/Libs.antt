-- ===== src/Encoder/Libs.antt =====
-- The libraries that encoder.cpp calls: `libopus` and `mkvmuxer` (libwebm), which are not part of
-- the repository. Only the calls are named; nothing is assumed of what they compute.
use http_audio_server.Common.{ℕ, List, Option}

pub record Codec : Type 1 where
  -- `float`, and 0.0.
  pub Sample : Type 0
  pub silence : Sample
  -- An `OpusEncoder`. `set_bitrate` is `opus_encoder_ctl(enc, OPUS_SET_BITRATE(bitrate))`.
  -- `opus_encode_float` takes the frame, the frame size and the capacity of the packet; `none` is
  -- a size that is not positive.
  pub Opus : Type 0
  pub opus_encoder_create : ℕ → ℕ → Opus
  pub set_bitrate : Opus → ℕ → Opus
  pub opus_encode_float : Opus → List Sample → ℕ → ℕ → Opus × Option (List ℕ)
  -- An `mkvmuxer::Segment`, behind `Init` and `set_mode(kLive)`; `add_audio_track` gives the track
  -- with its codec id and bit depth set. The last two give the calls of `Write` that they make.
  pub Segment : Type 0
  pub segment_init : Segment
  pub add_audio_track : Segment → ℕ → ℕ → Segment × ℕ
  pub set_codec_private : Segment → ℕ → List ℕ → Segment
  pub add_frame : Segment → List ℕ → ℕ → ℕ → Segment × List (List ℕ)
  pub finalize : Segment → Segment × List (List ℕ)
