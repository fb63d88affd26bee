-- ===== src/Metadata.antt =====
-- http_audio_server/metadata.hpp and metadata.cpp: the tags of a file, as `ffprobe` prints them.
pub mod Env
pub mod File
pub mod Tags
pub mod Flat
pub mod Result
pub mod Tests
use http_audio_server.Common.{
  ℕ, ◌+◌, ◌-◌, ◌%◌, ◌^◌, Bool, true, false, Option, none, some, List, [], ◌∷◌, ◌++◌, if◌then◌else◌,
}
use http_audio_server.Common.Int.{ℤ, pos, negsuc, to_int}
use http_audio_server.Common.Text.{codes}
use http_audio_server.Common.Words.{same_text, text_lt, same_icase}
use http_audio_server.Json.{
  Json, Items, nil, item, Fields, end, field, null, boolean, integer, real, string, array, object,
  JsonLib,
}
use Env.{Tools, Double, Long}

pub record Metadata (t : Tools) : Type 0 where
  pub title : List ℕ
  pub album : List ℕ
  pub artist : List ℕ
  pub date : List ℕ
  pub format : List ℕ
  pub track_number : ℤ
  pub track_total : ℤ
  pub disc_number : ℤ
  pub disc_total : ℤ
  pub duration : Double t

-- `static_cast<int>` of a JSON integer.
unfoldable pub cast_int : ℤ → ℤ
cast_int (pos n) = to_int n
cast_int (negsuc n) = to_int (2 ^ 32 - 1 - n % 2 ^ 32)

-- A key of the target, below a prefix.
unfoldable pub tar_key : List ℕ → List ℕ → List ℕ
tar_key [] key = key
tar_key (c ∷ prefix) key = (c ∷ prefix) ++ (codes "::" ++ key)

module _ (t : Tools) where
  -- `std::map<std::string, json>`, in the order of its keys.
  abbrev pub Data : Type 0
  Data = List (List ℕ × Json (Double t))

  abbrev pub Value : Type 0
  Value = Json (Double t)

  unfoldable pub default_metadata : Metadata t
  default_metadata = record {
    title = [];
    album = [];
    artist = [];
    date = [];
    format = [];
    track_number = negsuc 0;
    track_total = negsuc 0;
    disc_number = negsuc 0;
    disc_total = negsuc 0;
    duration = Tools.minus_one t;
  }

  -- Keys of an object of the JSON library are sorted.
  unfoldable pub to_json : Metadata t → Value
  to_json m = object (
      field (codes "album") (string m.album) (
        field (codes "artist") (string m.artist) (
          field (codes "date") (string m.date) (
            field (codes "disc_number") (integer m.disc_number) (
              field (codes "disc_total") (integer m.disc_total) (
                field (codes "duration") (real m.duration) (
                  field (codes "format") (string m.format) (
                    field (codes "title") (string m.title) (
                      field (codes "track_number") (integer m.track_number)
                        (field (codes "track_total") (integer m.track_total) end))))))))))

  unfoldable pub find_key : List ℕ → Data → Option Value
  find_key key [] = none
  find_key key ((k, v) ∷ tags) =
      let later = find_key key tags in if same_text k key then some v else later

  -- A new entry goes in front of the first key that is greater.
  unfoldable pub insert : List ℕ → Value → Data → Data
  insert key v [] = (key, v) ∷ []
  insert key v ((k, w) ∷ tags) =
      let later = insert key v tags in
      if text_lt key k then (key, v) ∷ (k, w) ∷ tags else (k, w) ∷ later

  -- `emplace` leaves an entry that is there.
  unfoldable pub emplace_key : List ℕ → Value → Data → Data
  unfolding find_key insert
  emplace_key key v tags = elim (find_key key tags) [ some w ↦ tags | none ↦ insert key v tags ]

  unfoldable mutual
    unfolding emplace_key tar_key

    -- A member of an object, under its key in the target.
    pub flaten_value : List ℕ → Value → Data → Data
    flaten_value key (object fields) tags = flaten_fields key fields tags
    flaten_value key (array items) tags = emplace_key key (array items) tags
    flaten_value key (string text) tags = emplace_key key (string text) tags
    flaten_value key (real d) tags = emplace_key key (real d) tags
    flaten_value key (integer n) tags = emplace_key key (integer n) tags
    flaten_value key (boolean b) tags = emplace_key key (boolean b) tags
    flaten_value key null tags = emplace_key key null tags

    -- The loop.
    pub flaten_fields : List ℕ → Fields (Double t) → Data → Data
    flaten_fields prefix end tags = tags
    flaten_fields prefix (field key v fields) tags =
        flaten_fields prefix fields (flaten_value (tar_key prefix key) v tags)

  -- On a value without members, `null` and an empty array have nothing to iterate over; the keys of
  -- other values cannot be asked for, which is an exception (`none`).
  unfoldable pub flaten : Value → Data → Option Data
  flaten (object fields) tags = some (flaten_fields [] fields tags)
  flaten null tags = some tags
  flaten (array nil) tags = some tags
  flaten _ tags = none

  -- The value of the first key that matches, and the map without it; or `nullptr`.
  unfoldable pub get_json : List ℕ → Data → Value × Data
  get_json pattern [] = (null, [])
  get_json pattern ((k, v) ∷ tags) =
      let (found, rest) = get_json pattern tags in
      if same_icase pattern k then (v, tags) else (found, (k, v) ∷ rest)

  -- A number for a JSON value: by `get<int>`, by `std::stold` (`none` is its exception), or the
  -- default.
  unfoldable pub number_of : {T : Type 0} → (ℤ → T) → (Long t → T) → T → Value → Option T
  number_of from_int from_long default (integer n) = some (from_int (cast_int n))
  number_of from_int from_long default (real d) = some (from_int (Tools.truncate t d))
  number_of from_int from_long default (string text) = elim (Tools.stold t text) [
    | none ↦ none
    | some x ↦ some (from_long x)
  ]
  number_of from_int from_long default _ = some default

  abbrev pub with_rest : {T : Type 0} → Data → Option T → Option (T × Data)
  with_rest tags none = none
  with_rest tags (some x) = some (x, tags)

  unfoldable pub get_number :
      {T : Type 0} → (ℤ → T) → (Long t → T) → T → List ℕ → Data → Option (T × Data)
  unfolding get_json number_of
  get_number from_int from_long default pattern tags =
      let (j, rest) = get_json pattern tags in
      with_rest rest (number_of from_int from_long default j)

  unfoldable pub text_of : Value → List ℕ
  text_of null = []
  text_of (string text) = text
  text_of j = JsonLib.dump (Tools.json t) j

  unfoldable pub get_string : List ℕ → Data → Option (List ℕ × Data)
  unfolding get_json text_of
  get_string pattern tags = let (j, rest) = get_json pattern tags in some (text_of j, rest)
