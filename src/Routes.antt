-- ===== src/Routes.antt =====
-- http_audio_server/main.cpp, the regular expressions of the request map, as functions from an
-- address to its groups.
pub mod Paths
mod Tests
use http_audio_server.Common.{
  ℕ, ◌+◌, Bool, true, false, not, ◌&&◌, ◌||◌, Option, none, some, List, [], ◌∷◌, ◌++◌, length, drop,
  ltb, leb, ◌==◌, if◌then◌else◌,
}
use http_audio_server.Common.Text.{codes}
use http_audio_server.Common.Words.{same_text}

-- `[A-Za-z0-9]`
unfoldable pub is_alnum : ℕ → Bool
is_alnum c =
    (leb b'A' c && leb c b'Z') || ((leb b'a' c && leb c b'z') || (leb b'0' c && leb c b'9'))

-- What follows a prefix.
unfoldable pub drop_prefix : List ℕ → List ℕ → Option (List ℕ)
drop_prefix [] uri = some uri
drop_prefix (c ∷ prefix) [] = none
drop_prefix (c ∷ prefix) (d ∷ uri) =
    let rest = drop_prefix prefix uri in if c == d then rest else none

-- The longest run of such characters, and the rest.
unfoldable pub take_id : List ℕ → List ℕ × List ℕ
unfolding is_alnum
take_id [] = ([], [])
take_id (c ∷ text) =
    let (id, rest) = take_id text in if is_alnum c then (c ∷ id, rest) else ([], c ∷ text)

abbrev pub id_then : List ℕ → List ℕ → Option (List ℕ) → Option (List (List ℕ))
id_then suffix uri none = none
id_then suffix uri (some rest) =
    let (id, tail) = take_id rest in
    if ltb 0 (length id) && same_text tail suffix then some (uri ∷ id ∷ []) else none

-- `^/stream/([A-Za-z0-9]+)<suffix>$`
unfoldable pub matches_stream : List ℕ → List ℕ → Option (List (List ℕ))
unfolding drop_prefix take_id
matches_stream suffix uri = id_then suffix uri (drop_prefix (codes "/stream/") uri)

-- `^/stream/create$`
unfoldable pub matches_create : List ℕ → Option (List (List ℕ))
matches_create uri = if same_text (codes "/stream/create") uri then some (uri ∷ []) else none

abbrev pub dot_html : List ℕ → Option (List ℕ) → Option (List (List ℕ))
dot_html uri none = none
dot_html uri (some []) = none
dot_html uri (some (c ∷ rest)) =
    if not (c == b'\n' || c == b'\r') && same_text rest (codes "html")
    then some (uri ∷ drop 1 uri ∷ [])
    else none

-- `^/(index.html)?$`, where the dot stands for any character but a line break.
unfoldable pub matches_index : List ℕ → Option (List (List ℕ))
unfolding drop_prefix
matches_index uri =
    if same_text uri (codes "/")
    then some (uri ∷ [] ∷ [])
    else dot_html uri (drop_prefix (codes "/index") uri)
