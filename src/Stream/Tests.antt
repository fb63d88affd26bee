-- ===== src/Stream/Tests.antt =====
-- A small world, a stream in it, and the theorems about `advance` at concrete inputs.
use http_audio_server.Common.{
  min, ℕ, ◌≡◌, refl, true, List, [], ◌∷◌, ◌++◌, some, none, arith, length, ◌+◌, ◌-◌, ◌*◌, ◌/◌, ◌%◌,
  ◌^◌,
}
use http_audio_server.Encoder.Libs.{Codec}
use http_audio_server.Encoder.Create.{create, create-IsValid}
use http_audio_server.Json.{null, array, JsonLib}
use http_audio_server.Common.Text.{codes}
use http_audio_server.Stream.Listen.{Listens}
use http_audio_server.Stream.Listen.Whole.{advance-Listens}
use http_audio_server.Pipe.{Source}
use http_audio_server.Stream.Finished.{advance_closed}
use http_audio_server.Stream.Failure.{opened, advance_untold}
use http_audio_server.Stream.{Entry, advance, Stream, Round, new_stream, append, items, output}
use http_audio_server.Stream.Env.{World}
use http_audio_server.Stream.Loop.{IsReady, IsPlayable, contents, announced}
use http_audio_server.Stream.Advance.{Advances, advance_lem}
use http_audio_server.Stream.Wire.{output_parts, name_of, data_of, rest_of}

-- A packet is its frame, and the muxer writes the time and the packet.
abbrev pub demo_codec : Codec
demo_codec = record {
  Sample = ℕ;
  silence = 0;
  Opus = ℕ;
  opus_encoder_create = λ rate n. 0;
  set_bitrate = λ enc bitrate. enc;
  opus_encode_float = λ enc frame size cap. (enc, some frame);
  Segment = ℕ;
  segment_init = 0;
  add_audio_track = λ s rate n. (s, 1);
  set_codec_private = λ s track header. s;
  add_frame = λ s packet track ts. (s, (ts ∷ []) ∷ packet ∷ []);
  finalize = λ s. (s, (99 ∷ []) ∷ []);
}

-- A file that decodes to two stereo samples.
abbrev pub pcm : List ℕ
pcm = 1 ∷ 2 ∷ 3 ∷ 4 ∷ 5 ∷ 6 ∷ 7 ∷ 8 ∷ 9 ∷ 10 ∷ 11 ∷ 12 ∷ 13 ∷ 14 ∷ 15 ∷ 16 ∷ []

abbrev pub source : Source
source = record { rest = pcm; good = true }

abbrev pub demo : World
demo = record {
  lib = record { Double = ℕ; parse = λ text. none; dump = λ j. []; dump_setw = λ n j. [] };
  codec = demo_codec;
  to_float = λ a b c d. a;
  start_decoder = λ name offs. some source;
  metadata_of = λ name. some null;
  seconds_of = λ n. n;
  zero_seconds = 0;
}

abbrev pub one_file : Stream demo
one_file = append demo (new_stream demo 64000) (b'a' ∷ []) 0

playable : IsPlayable demo (record { filename = b'a' ∷ []; offs = 0; decoder = none })
playable = record {
  dec = source;
  opens = refl;
  is_whole = record { whole = refl; ended = λ h. ground arith };
  is_known = (null, refl);
}

pub one_file-IsReady : IsReady demo one_file
unfolding append new_stream create
one_file-IsReady = record {
  playable = (playable, tt);
  valid = create-IsValid demo_codec 48000 2 (omega arith) (omega arith);
  not_done = refl;
  stereo = refl;
  empty = refl;
  counted = omega arith;
}

advance_lem_example : Advances demo one_file 1
advance_lem_example = advance_lem demo one_file 1 one_file-IsReady (omega arith)

abbrev first_round : Round demo
first_round = record { stream = one_file; n_bytes = 8; metadata = []; out = pcm }

advance-Listens_example : Listens demo one_file (1 ∷ 0 ∷ 4 ∷ [])
advance-Listens_example =
    advance-Listens demo one_file 1 (0 ∷ 4 ∷ []) one_file-IsReady
      (omega arith, (omega arith, (omega arith, tt)))

output_parts_example :
    let text = JsonLib.dump demo.lib (array (items demo first_round.metadata)) in
    let buf = output demo first_round in
    (name_of buf ≡ codes "meta")
    × (data_of buf ≡ text)
    × (name_of (rest_of buf) ≡ codes "data")
    × (data_of (rest_of buf) ≡ first_round.out)
    × (rest_of (rest_of buf) ≡ [])
output_parts_example = output_parts demo first_round (omega arith) (omega arith)

-- No file has metadata.
abbrev silent : World
silent = record demo { metadata_of = λ name. none }

abbrev one_entry : Entry silent
one_entry = record { filename = b'a' ∷ []; offs = 0; decoder = none }

abbrev silent_stream : Stream silent
silent_stream = append silent (new_stream silent 64000) (b'a' ∷ []) 0

advance_untold_example :
    let st' = opened silent silent_stream one_entry [] source in
    (advance silent silent_stream 1 ≡ some (st', none))
    × (adv : Advances silent st' 2) × (source.rest ++ contents silent []
        ≡ adv.taken ++ contents silent adv.last.stream.decoders)
    × (adv.last.metadata
        ≡ announced silent
            ((silent_stream.n_samples + length source.rest / 8) % 2 ^ 64)
            (2 * 8 - length source.rest)
            [])
unfolding append new_stream create
advance_untold_example =
    advance_untold silent silent_stream one_entry [] source refl refl refl 1 2 refl (omega arith)
      (omega arith) (omega arith) (omega arith) (record { whole = refl; ended = λ h. ground arith })
      tt (create-IsValid demo_codec 48000 2 (omega arith) (omega arith)) refl refl refl
      (omega arith)

-- The encoder was closed, and a file was appended behind that.
abbrev late_file : Stream demo
late_file = record one_file { encoder = record one_file.encoder { done = true } }

advance_closed_example :
    (last : Round demo) × (taken : List ℕ) × (advance demo late_file 1
      ≡ some (last.stream, some (output demo last)))
    × (contents demo late_file.decoders ≡ taken ++ contents demo last.stream.decoders)
    × (length taken ≡ min (1 * 8) (length (contents demo late_file.decoders)))
    × (last.out ≡ [])
    × (last.stream.encoder ≡ late_file.encoder)
unfolding append new_stream
advance_closed_example =
    advance_closed demo late_file 1 refl (playable, tt) refl (omega arith) (omega arith)
