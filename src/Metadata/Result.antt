-- ===== src/Metadata/Result.antt =====
-- What `metadata_from_file` returns.
use http_audio_server.Common.{
  ℕ, ◌≡◌, refl, ap, ◌∙◌, Bool, true, false, Option, none, some, List, [],
}
use http_audio_server.Common.Int.{ℤ, pos}
use http_audio_server.Common.Text.{codes}
use http_audio_server.Json.{Json, Fields, object, JsonLib}
use http_audio_server.Metadata.{Metadata, Data, default_metadata, find_key, flaten}
use http_audio_server.Metadata.Env.{Tools, Double}
use http_audio_server.Metadata.File.{
  is_success, only, read_tags, ffprobe_args, from_output, metadata_from_file,
}
use http_audio_server.Metadata.Tags.{tags_of, end_with, read_tags-tags_of}
use http_audio_server.Metadata.Flat.{leaves, find_key-flaten}

module _ (t : Tools) where
  abbrev finish : List ℕ → Bool → Option (Metadata t)
  finish out b = elim b [ true ↦ from_output t out | false ↦ some (default_metadata t) ]

  abbrev on_exec : Option (ℤ × List ℕ × List ℕ) → Option (Metadata t)
  on_exec none = none
  on_exec (some (status, out, err)) = finish out (is_success status)

  abbrev on_flat : Option (Data t) → Option (Metadata t)
  on_flat none = none
  on_flat (some tags) = only t (read_tags t tags)

  abbrev on_json : Option (Json (Double t)) → Option (Metadata t)
  on_json none = none
  on_json (some j) = on_flat (flaten t j [])

  file_run :
      (filename : List ℕ)
      → metadata_from_file t filename
        ≡ on_exec (Tools.exec t (codes "ffprobe") (ffprobe_args t filename))
  unfolding metadata_from_file
  file_run filename = same (Tools.exec t (codes "ffprobe") (ffprobe_args t filename))
    where
      same :
          (o : Option (ℤ × List ℕ × List ℕ))
          → elim o [ none ↦ none | some (status, out, err) ↦ finish out (is_success status) ]
            ≡ on_exec o
      same none = refl
      same (some r) = refl

  output_run : (out : List ℕ) → from_output t out ≡ on_json (JsonLib.parse (Tools.json t) out)
  unfolding from_output
  output_run out = same (JsonLib.parse (Tools.json t) out)
    where
      inner :
          (o : Option (Data t))
          → elim o [ none ↦ none | some tags ↦ only t (read_tags t tags) ] ≡ on_flat o
      inner none = refl
      inner (some tags) = refl

      same :
          (o : Option (Json (Double t)))
          → elim o [
            | none ↦ none
            | some j ↦ elim (flaten t j []) [ none ↦ none | some tags ↦ only t (read_tags t tags) ]
          ]
            ≡ on_json o
      same none = refl
      same (some j) = inner (flaten t j [])

  only_end : (tags : Data t) (o : Option (Metadata t)) → only t (end_with t tags o) ≡ o
  only_end tags none = refl
  only_end tags (some m) = refl

  -- If `ffprobe` succeeds and prints an object, the metadata is read tag by tag from the map of its
  -- leaves, where the first leaf of a name counts.
  pub metadata_from_file_lem :
      (filename out err : List ℕ) (fields : Fields (Double t))
      → Tools.exec t (codes "ffprobe") (ffprobe_args t filename) ≡ some (pos 0, out, err)
      → JsonLib.parse (Tools.json t) out ≡ some (object fields)
      → (tags : Data t) × (metadata_from_file t filename ≡ tags_of t tags)
        × ((key : List ℕ) → find_key t key tags ≡ find_key t key (leaves t [] fields))
  metadata_from_file_lem filename out err fields e f =
      let (tags, run, same) = find_key-flaten t fields in
      (
        tags,
        file_run filename
            ∙ ap on_exec e
            ∙ output_run out
            ∙ ap on_json f
            ∙ ap on_flat run
            ∙ ap (only t) (read_tags-tags_of t tags)
            ∙ only_end _ (tags_of t tags),
        same,
      )

  -- If `ffprobe` fails, the metadata has its defaults: empty texts, and -1 for the numbers.
  pub metadata_from_file_failed :
      (filename out err : List ℕ) (status : ℤ)
      → Tools.exec t (codes "ffprobe") (ffprobe_args t filename) ≡ some (status, out, err)
      → is_success status ≡ false
      → metadata_from_file t filename ≡ some (default_metadata t)
  metadata_from_file_failed filename out err status e f =
      file_run filename ∙ ap on_exec e ∙ ap (finish out) f
