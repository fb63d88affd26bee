-- ===== src/Stream/Env.antt =====
-- What `Stream` uses of its surroundings.
use http_audio_server.Common.{ℕ, List, Option}
use http_audio_server.Json.{Json, JsonLib}
use http_audio_server.Encoder.Libs.{Codec}
use http_audio_server.Pipe.{Source}

pub record World : Type 1 where
  pub lib : JsonLib
  pub open lib use {Double}
  pub codec : Codec
  -- A float from its four bytes in memory.
  pub to_float : ℕ → ℕ → ℕ → ℕ → Codec.Sample codec
  -- The output of the `ffmpeg` process that a `Decoder` starts on a file at an offset; `none` is an
  -- exception.
  pub start_decoder : List ℕ → Double → Option Source
  -- `metadata_from_file(fn).to_json()`; `none` is an exception.
  pub metadata_of : List ℕ → Option (Json Double)
  -- `double(n) / 48000.0`, and 0.0.
  pub seconds_of : ℕ → Double
  pub zero_seconds : Double

abbrev pub Double : World → Type 0
Double w = JsonLib.Double (World.lib w)
