-- ===== src/App/Tests/Programs.antt =====
-- A session on a machine that knows one file.
use http_audio_server.Common.{
  ℕ, ◌+◌, ◌≡◌, min, refl, none, some, Option, List, [], ◌∷◌, ◌++◌, length, arith,
}
use http_audio_server.Common.Int.{ℤ, pos, negsuc, to_int}
use http_audio_server.Common.Text.{codes}
use http_audio_server.Common.Words.{same_text, same_icase, lower, text_lt}
use http_audio_server.Json.{Json, array, object, field, end, string}
use http_audio_server.Response.{Call}
use http_audio_server.Response.Wire.{received}
use http_audio_server.Process.Launch.{Sys, in_parent}
use http_audio_server.Decoder.Got.{IsWhole}
use http_audio_server.Metadata.{
  Metadata, cast_int, to_json, flaten, get_string, number_of, get_number, flaten_fields,
}
use http_audio_server.Metadata.Env.{Tools}
use http_audio_server.Metadata.File.{metadata_from_file}
use http_audio_server.Metadata.Tests.{tags_text}
use http_audio_server.Stream.{metadata_entry, output, items}
use http_audio_server.Stream.Loop.{IsReady}
use http_audio_server.Stream.Shape.{Fits, list_of, file_shape, advance-Fits}
use http_audio_server.App.Session.{one_file-IsReady}
use http_audio_server.Stream.Advance.{Advances}
use http_audio_server.Stream.Parts.{Machine, world_of, Forks, parts-IsPlayable}
use http_audio_server.Stream.Tests.{source, demo_codec}
use http_audio_server.StringUtils.{random_alphanum_string}
use http_audio_server.Handlers.{find_member}
use http_audio_server.App.{Main, exits}
use http_audio_server.App.Program.{playlist, decoded}
use http_audio_server.App.Run.{IsHome, three_requests, main_session}
use http_audio_server.App.Start.{main}
use http_audio_server.App.Tests.{draws, page, drawn_id, home}
use http_audio_server.Metadata.Tests

-- `ffprobe` prints nothing, which is read as the tags; another text names a file.
abbrev read_text : List ℕ → Option (Json ℤ)
read_text [] = some (object tags_text)
read_text (c ∷ cs) = some (object (field (codes "filename") (string (c ∷ cs)) end))

abbrev tools : Tools
tools = record Tests.demo {
  json = record { Double = ℤ; parse = read_text; dump = λ j. []; dump_setw = λ n j. [] };
}

abbrev answers : Sys
answers = record { pipe2 = λ n. some (10 + n, 20 + n); fork = in_parent 7; dup = λ fd. none }

abbrev machine : Machine
machine = record {
  tools = tools;
  codec = demo_codec;
  to_float = λ a b c d. a;
  sys = λ name offs. answers;
  reads = λ name offs fd. source;
  offs_text = λ offs. none;
  seconds_of = λ n. pos n;
  zero_seconds = pos 0;
}

abbrev song : List ℕ
song = codes "a.ogg"

forks : Forks machine song (pos 0)
forks = record {
  answers = answers;
  pid = 7;
  pipes = record { out = (10, 20); err = (11, 21); inp = (12, 22) };
  parent = refl;
  first = refl;
  second = refl;
  third = refl;
}

abbrev song_tags : Metadata tools
song_tags = record {
  title = codes "a song";
  album = [];
  artist = [];
  date = [];
  format = [];
  track_number = pos 3;
  track_total = negsuc 0;
  disc_number = negsuc 0;
  disc_total = negsuc 0;
  duration = pos 7;
}

song_read : metadata_from_file tools song ≡ some song_tags
unfolding metadata_from_file flaten get_string same_icase lower same_text number_of get_number
    flaten_fields text_lt cast_int to_int
song_read = refl

song-IsWhole : IsWhole (decoded machine song forks song_tags)
song-IsWhole = record { whole = refl; ended = λ h. ground arith }

home-IsHome : IsHome home
home-IsHome = record {
  ffmpeg_out = ([], []);
  ffmpeg = refl;
  ffprobe_out = ([], []);
  ffprobe = refl;
  binds = refl;
}

main_session_example :
    (last : Main (world_of machine)) × (out1 out2 out3 : List Call) × (adv : Advances
      (world_of machine)
      (playlist machine song forks song_tags)
      240000)
    × (rest : List ℕ) × (main
          (world_of machine)
          draws
          page
          home
          (three_requests machine song forks song_tags draws page drawn_id song ∷ [] ∷ [])
        ≡ exits 0 last)
    × (last.replies ≡ out1 ∷ out2 ∷ out3 ∷ [])
    × (received out1 ≡ drawn_id ++ b'\n' ∷ [])
    × (received out3 ≡ output (world_of machine) adv.last)
    × (adv.last.metadata ≡ metadata_entry (world_of machine) 0 song (to_json tools song_tags) ∷ [])
    × ((decoded machine song forks song_tags).rest ≡ adv.taken ++ rest)
    × (length adv.taken ≡ min 1920000 (length (decoded machine song forks song_tags).rest))
unfolding find_member random_alphanum_string same_text
main_session_example =
    main_session machine song forks song_tags draws page home drawn_id song
      (object (field (codes "filename") (string song) end)) ([] ∷ []) home-IsHome (λ k. omega arith)
      refl refl refl song-IsWhole song_read

song-IsReady : IsReady (world_of machine) (playlist machine song forks song_tags)
song-IsReady =
    one_file-IsReady (world_of machine) 196000 song
      (parts-IsPlayable machine song forks song_tags song-IsWhole song_read)

advance-Fits_example :
    (adv : Advances (world_of machine) (playlist machine song forks song_tags) 4) × Fits
      (array (items (world_of machine) adv.last.metadata))
      (list_of file_shape)
advance-Fits_example =
    advance-Fits machine (playlist machine song forks song_tags) 4 song-IsReady (omega arith)
