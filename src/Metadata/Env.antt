-- ===== src/Metadata/Env.antt =====
-- What the metadata reader uses of its surroundings.
use http_audio_server.Common.{ℕ, List, Option}
use http_audio_server.Common.Int.{ℤ}
use http_audio_server.Json.{JsonLib}

pub record Tools : Type 1 where
  pub json : JsonLib
  -- `long double`, `std::stold` (`none` is an exception), and the conversions that C++ makes.
  pub LongDouble : Type 0
  pub stold : List ℕ → Option LongDouble
  pub long_to_int : LongDouble → ℤ
  pub long_to_double : LongDouble → JsonLib.Double json
  pub truncate : JsonLib.Double json → ℤ
  pub int_to_double : ℤ → JsonLib.Double json
  -- -1.0
  pub minus_one : JsonLib.Double json
  -- `Process::exec(cmd, args)`: the exit code and the output of both streams, or an exception.
  pub exec : List ℕ → List (List ℕ) → Option (ℤ × List ℕ × List ℕ)

abbrev pub Double : Tools → Type 0
Double t = JsonLib.Double (Tools.json t)

abbrev pub Long : Tools → Type 0
Long t = Tools.LongDouble t
