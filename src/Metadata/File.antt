-- ===== src/Metadata/File.antt =====
-- http_audio_server/metadata.cpp, `metadata_from_file`: one tag after the other is taken out of the
-- map of tags.
use http_audio_server.Common.{ℕ, zero, Bool, true, false, Option, none, some, List, [], ◌∷◌}
use http_audio_server.Common.Int.{ℤ, pos, negsuc}
use http_audio_server.Common.Text.{codes}
use http_audio_server.Json.{JsonLib}
use http_audio_server.Metadata.{Metadata, Data, default_metadata, flaten, get_string, get_number}
use http_audio_server.Metadata.Env.{Tools, Double}

abbrev pub is_success : ℤ → Bool
is_success (pos zero) = true
is_success _ = false

infixl 5 ◌>>=◌
abbrev pub ◌>>=◌ :
    {D A B : Type 0} → (D → Option (A × D)) → (A → D → Option (B × D)) → D → Option (B × D)
◌>>=◌ m f tags = elim (m tags) [ none ↦ none | some (a, rest) ↦ f a rest ]

module _ (t : Tools) where
  -- A reader of tags: it takes some, and may throw.
  abbrev pub Reader : Type 0 → Type 0
  Reader A = Data t → Option (A × Data t)

  abbrev pub int_tag : List ℕ → Reader ℤ
  int_tag = get_number t (λ n. n) (Tools.long_to_int t) (negsuc 0)

  abbrev pub double_tag : List ℕ → Reader (Double t)
  double_tag = get_number t (Tools.int_to_double t) (Tools.long_to_double t) (Tools.minus_one t)

  unfoldable pub read_tags : Reader (Metadata t)
  read_tags = do
    title ← get_string t (codes "format::tags::title")
    album ← get_string t (codes "format::tags::album")
    artist ← get_string t (codes "format::tags::artist")
    date ← get_string t (codes "format::tags::date")
    format ← get_string t (codes "format::format_name")
    track_number ← int_tag (codes "format::tags::track")
    track_total ← int_tag (codes "format::tags::track_total")
    disc_number ← int_tag (codes "format::tags::disc")
    disc_total ← int_tag (codes "format::tags::disc_total")
    duration ← double_tag (codes "format::duration")
    λ rest. some (
      record {
        title = title;
        album = album;
        artist = artist;
        date = date;
        format = format;
        track_number = track_number;
        track_total = track_total;
        disc_number = disc_number;
        disc_total = disc_total;
        duration = duration;
      },
      rest,
    )

  abbrev pub only : Option (Metadata t × Data t) → Option (Metadata t)
  only none = none
  only (some (m, rest)) = some m

  unfoldable pub ffprobe_args : List ℕ → List (List ℕ)
  ffprobe_args filename =
      codes "-show_format" ∷ codes "-print_format" ∷ codes "json" ∷ filename ∷ []

  -- What is done with the output of `ffprobe`.
  unfoldable pub from_output : List ℕ → Option (Metadata t)
  unfolding read_tags
  from_output out = elim (JsonLib.parse (Tools.json t) out) [
    | none ↦ none
    | some j ↦ elim (flaten t j []) [ none ↦ none | some tags ↦ only (read_tags tags) ]
  ]

  unfoldable pub metadata_from_file : List ℕ → Option (Metadata t)
  unfolding ffprobe_args from_output default_metadata
  metadata_from_file filename = elim (Tools.exec t (codes "ffprobe") (ffprobe_args filename)) [
    | none ↦ none
    | some (status, out, err) ↦ elim (is_success status) [
      | true ↦ from_output out
      | false ↦ some (default_metadata t)
    ]
  ]
