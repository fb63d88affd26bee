-- ===== src/Metadata/Tests.antt =====
-- The metadata of a file with two tags.
use http_audio_server.Common.{ℕ, ◌≡◌, refl, Option, none, some, List, []}
use http_audio_server.Common.Int.{ℤ, pos, negsuc}
use http_audio_server.Common.Text.{codes}
use http_audio_server.Common.Words.{same_text, same_icase, lower, text_lt}
use http_audio_server.Json.{Fields, field, end, string, integer, object}
use http_audio_server.Metadata.{
  Metadata, Data, find_key, flaten, get_string, number_of, get_number, flaten_fields,
}
use http_audio_server.Metadata.Env.{Tools}
use http_audio_server.Metadata.File.{metadata_from_file}
use http_audio_server.Metadata.Flat.{leaves}
use http_audio_server.Metadata.Tags.{tags_of}
use http_audio_server.Metadata.Result.{metadata_from_file_lem}

abbrev pub tags_text : Fields ℤ
tags_text =
    field (codes "format")
      (object (
        field (codes "duration") (string (codes "7")) (
          field (codes "tags")
            (object (
              field (codes "TITLE") (string (codes "a song"))
                (field (codes "track") (integer (pos 3)) end)))
            end)))
      end

-- `ffprobe` knows the file "a"; whole numbers stand for all others.
abbrev pub demo : Tools
demo = record {
  json = record {
    Double = ℤ;
    parse = λ text. some (object tags_text);
    dump = λ j. [];
    dump_setw = λ n j. [];
  };
  LongDouble = ℤ;
  stold = λ text. some (pos 7);
  long_to_int = λ n. n;
  long_to_double = λ n. n;
  truncate = λ n. n;
  int_to_double = λ n. n;
  minus_one = negsuc 0;
  exec = λ cmd args. some (pos 0, [], []);
}

abbrev title_of : Option (Metadata demo) → List ℕ
title_of (some m) = m.title
title_of none = []

title_runs : title_of (metadata_from_file demo (codes "a")) ≡ codes "a song"
unfolding metadata_from_file flaten get_string same_icase lower same_text number_of get_number
    flaten_fields text_lt
title_runs = refl

metadata_from_file_lem_example :
    (tags : Data demo) × (metadata_from_file demo (codes "a") ≡ tags_of demo tags)
    × ((key : List ℕ) → find_key demo key tags ≡ find_key demo key (leaves demo [] tags_text))
metadata_from_file_lem_example = metadata_from_file_lem demo (codes "a") [] [] tags_text refl refl
