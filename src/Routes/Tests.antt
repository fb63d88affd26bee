-- ===== src/Routes/Tests.antt =====
-- Addresses.
use http_audio_server.Common.{ℕ, ◌≡◌, ◌<◌, refl, some, List, [], ◌∷◌, length}
use http_audio_server.Common.Text.{codes}
use http_audio_server.Common.Words.{same_text}
use http_audio_server.Routes.{is_alnum, take_id, drop_prefix, matches_stream, matches_index}
use http_audio_server.Routes.Paths.{IsAlnum, path, matches_stream→path}

abbrev id : List ℕ
id = codes "a1"

abbrev uri : List ℕ
uri = path id (codes "/append")

uri_matches : matches_stream (codes "/append") uri ≡ some (uri ∷ id ∷ [])
unfolding matches_stream take_id drop_prefix is_alnum same_text
uri_matches = refl

matches_stream→path_example :
    (id' : List ℕ) × ((uri ∷ id ∷ []) ≡ uri ∷ id' ∷ [])
    × (uri ≡ path id' (codes "/append"))
    × IsAlnum id'
    × (0 < length id')
matches_stream→path_example = matches_stream→path (codes "/append") uri (uri ∷ id ∷ []) uri_matches

-- The dot of the address of the page stands for any character.
index_runs :
    matches_index (codes "/indexXhtml") ≡ some (codes "/indexXhtml" ∷ codes "indexXhtml" ∷ [])
unfolding matches_index drop_prefix same_text
index_runs = refl
