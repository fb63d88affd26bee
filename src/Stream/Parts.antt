-- ===== src/Stream/Parts.antt =====
-- `Stream` on the program's own parts: the decoder is a process with `ffmpeg`, and the metadata is
-- what `metadata_from_file` reads.
use http_audio_server.Common.{ℕ, ◌≡◌, refl, ap, ◌∙◌, true, Option, none, some, List, []}
use http_audio_server.Common.Text.{codes}
use http_audio_server.Json.{Json, JsonLib}
use http_audio_server.Pipe.{Source}
use http_audio_server.Process.Launch.{SysCall, in_parent, Sys, Pipes, Launched, new_process}
use http_audio_server.Process.Launch.Wiring.{new_process_run}
use http_audio_server.Decoder.Got.{IsWhole}
use http_audio_server.Decoder.Format.{default_format, ffmpeg_fmt, ffmpeg_args}
use http_audio_server.Decoder.Child.{Made, made, refused, forked, with_process, new_decoder}
use http_audio_server.Encoder.Libs.{Codec}
use http_audio_server.Metadata.{Metadata, to_json}
use http_audio_server.Metadata.Env.{Tools, Double}
use http_audio_server.Metadata.File.{metadata_from_file}
use http_audio_server.Stream.Env.{World}
use http_audio_server.Stream.Loop.{IsPlayable}

-- What the program's parts use of their surroundings. `sys` answers the calls for the process of a
-- file at an offset, and `reads` is what its descriptors give; `offs_text` is the text of an offset
-- that is positive.
pub record Machine : Type 1 where
  pub tools : Tools
  pub codec : Codec
  pub to_float : ℕ → ℕ → ℕ → ℕ → Codec.Sample codec
  pub sys : List ℕ → Double tools → Sys
  pub reads : List ℕ → Double tools → Option ℕ → Source
  pub offs_text : Double tools → Option (List ℕ)
  pub seconds_of : ℕ → Double tools
  pub zero_seconds : Double tools

-- The output of a decoder that is there; the child does not come here.
abbrev pub output_of : Made → Option Source
output_of (made d) = some d.output
output_of refused = none
output_of forked = none

abbrev pub json_of :
    (t : Tools) → Option (Metadata t) → Option (Json (JsonLib.Double (Tools.json t)))
json_of t none = none
json_of t (some m) = some (to_json t m)

-- `std::make_shared<Decoder>(fn, offs)`
unfoldable pub start_ffmpeg : (m : Machine) → List ℕ → Double (Machine.tools m) → Option Source
unfolding new_decoder
start_ffmpeg m name offs =
    output_of
      (new_decoder (m.sys name offs) (m.reads name offs) name (m.offs_text offs) default_format).0

-- `metadata_from_file(fn).to_json()`
unfoldable pub describe : (m : Machine) → List ℕ → Option (Json (Double (Machine.tools m)))
unfolding metadata_from_file to_json
describe m name = json_of m.tools (metadata_from_file m.tools name)

abbrev pub world_of : Machine → World
world_of m = record {
  lib = Tools.json m.tools;
  codec = m.codec;
  to_float = m.to_float;
  start_decoder = start_ffmpeg m;
  metadata_of = describe m;
  seconds_of = m.seconds_of;
  zero_seconds = m.zero_seconds;
}

-- The process for a file at an offset: the system gives three pipes and a child.
pub record Forks (m : Machine) (name : List ℕ) (offs : Double (Machine.tools m)) : Type 0 where
  pub answers : Sys
  pub pid : ℕ
  pub pipes : Pipes
  pub parent : Machine.sys m name offs ≡ record answers { fork = in_parent pid }
  pub first : answers.pipe2 0 ≡ some pipes.out
  pub second : answers.pipe2 1 ≡ some pipes.err
  pub third : answers.pipe2 2 ≡ some pipes.inp

-- The command line for the format of `Stream`.
abbrev pub Command : List ℕ → Option (List ℕ) → Type 0
Command name start = (args : List (List ℕ)) × (ffmpeg_args name start default_format ≡ some args)

command : (name : List ℕ) (start : Option (List ℕ)) → Command name start
unfolding ffmpeg_args ffmpeg_fmt
command name start = (_, refl)

decoder_run :
    (sys : Sys) (reads : Option ℕ → Source) (name : List ℕ) (start : Option (List ℕ))
    (args : List (List ℕ))
    → ffmpeg_args name start default_format ≡ some args
    → new_decoder sys reads name start default_format
      ≡ with_process reads (new_process sys (codes "ffmpeg") args true)
unfolding new_decoder
decoder_run sys reads name start args e =
    ap
      (λ o. elim o [
        | none ↦ (refused, [])
        | some args ↦ with_process reads (new_process sys (codes "ffmpeg") args true)
      ])
      e

module _ (m : Machine) (name : List ℕ) where
  -- The output of the decoder is the near end of the first pipe.
  pub start_ffmpeg_run :
      (offs : Double m.tools) (f : Forks m name offs)
      → start_ffmpeg m name offs ≡ some (m.reads name offs (some f.pipes.out.0))
  unfolding start_ffmpeg
  start_ffmpeg_run offs f =
      let reads : Option ℕ → Source = m.reads name offs in
      let start : Option (List ℕ) = m.offs_text offs in
      let (args, e) = command name start in
      let sys : Sys = record f.answers { fork = in_parent f.pid } in
      let (calls, run) =
        new_process_run f.answers (codes "ffmpeg") args f.pipes f.pid f.first f.second f.third in
      ap (λ s. output_of (new_decoder s reads name start default_format).0) f.parent
      ∙ ap (λ (r : Made × List SysCall). output_of r.0) (decoder_run sys reads name start args e)
      ∙ ap (λ (l : Launched × List SysCall). output_of (with_process reads l).0) run

  pub describe_run :
      (meta : Metadata m.tools)
      → metadata_from_file m.tools name ≡ some meta
      → describe m name ≡ some (to_json m.tools meta)
  unfolding describe
  describe_run meta read = ap (json_of m.tools) read

  -- A file that `ffmpeg` decodes to whole sample pairs, and whose metadata can be read.
  pub parts-IsPlayable :
      (f : Forks m name m.zero_seconds) (meta : Metadata m.tools)
      → IsWhole (m.reads name m.zero_seconds (some f.pipes.out.0))
      → metadata_from_file m.tools name ≡ some meta
      → IsPlayable (world_of m) (record { filename = name; offs = m.zero_seconds; decoder = none })
  parts-IsPlayable f meta whole read = record {
    dec = m.reads name m.zero_seconds (some f.pipes.out.0);
    opens = start_ffmpeg_run m.zero_seconds f;
    is_whole = whole;
    is_known = (to_json m.tools meta, describe_run meta read);
  }
