-- ===== src/Handlers.antt =====
-- http_audio_server/main.cpp, the handlers of `main` and the map of streams that they share.
pub mod Index
pub mod Streams
pub mod Map
pub mod Kept
mod Tests
use http_audio_server.Common.{
  ℕ, Bool, true, false, Option, none, some, List, [], ◌∷◌, ◌++◌, if◌then◌else◌,
}
use http_audio_server.Common.Text.{codes}
use http_audio_server.Json.{Json, Fields, end, field, object, string, JsonLib}
use http_audio_server.Response.{
  Response, Result, ok, thrown, Action, ◌>>=◌, ◌>>◌, header, stream, put, write, flush, endl,
  ok_response, error_response,
}
use http_audio_server.Pipe.{Source, Ostream, generic_pipe}
use http_audio_server.Stream.{Stream, new_stream, append, advance}
use http_audio_server.Stream.Env.{World, Double}
use http_audio_server.Server.{Request}
use http_audio_server.Common.Words.{same_text}
use http_audio_server.StringUtils.{random_alphanum_string}

-- `res.stream()` as an output. The connection takes all that is sent.
abbrev pub response_stream : Ostream Response
response_stream = record { good = λ r. true; write = write; flush = flush }

-- `handle_index`, where `is` is the stream of the file ../static/index.html.
unfoldable pub handle_index : Source → Action (Unit {0})
unfolding header stream
handle_index is = do
  header 200 ((codes "Content-Type", codes "text/html; charset=utf-8") ∷ [])
  stream
  put (generic_pipe response_stream is)

module _ (w : World) where
  open w use {lib, zero_seconds}

  abbrev pub Streams : Type 0
  Streams = List (List ℕ × Stream w)

  unfoldable pub find : Streams → List ℕ → Option (Stream w)
  find [] id = none
  find ((key, st) ∷ streams) id =
      let later = find streams id in if same_text key id then some st else later

  -- `emplace` keeps an entry that is there.
  unfoldable pub emplace : Streams → List ℕ → Stream w → Streams
  unfolding find
  emplace streams id st = elim (find streams id) [ some old ↦ streams | none ↦ (id, st) ∷ streams ]

  -- A change of the stream that an entry points at.
  unfoldable pub store : Streams → List ℕ → Stream w → Streams
  store [] id st = []
  store ((key, old) ∷ streams) id st =
      let later = store streams id st in
      if same_text key id then (key, st) ∷ streams else (key, old) ∷ later

  unfoldable pub erase : Streams → List ℕ → Streams
  erase [] id = []
  erase ((key, st) ∷ streams) id =
      let later = erase streams id in if same_text key id then streams else (key, st) ∷ later

  -- A handler's end: the streams, the response, and `none` where an exception was thrown.
  abbrev pub Handled : Type 0
  Handled = Streams × Response × Option (Unit {0})

  -- The streams `after` the call if it returns, and those `before` it if it throws.
  abbrev pub ends : Streams → Streams → Result (Unit {0}) × Response → Handled
  ends before after (ok _, r) = (after, r, some tt)
  ends before after (thrown e, r) = (before, r, none)

  unfoldable pub not_found_text : List ℕ → List ℕ
  not_found_text id = codes "Stream id \"" ++ (id ++ codes "\" not found")

  unfoldable pub no_stream : Streams → List ℕ → Response → Handled
  unfolding not_found_text
  no_stream streams id res = ends streams streams (error_response lib 404 (not_found_text id) res)

  -- `none` is an access out of bounds.
  unfoldable pub handle_stream_create : (ℕ → ℕ) → Streams → Response → Option Handled
  unfolding emplace
  handle_stream_create draw streams res = elim (random_alphanum_string draw 16) [
    | none ↦ none
    | some id ↦
        let streams' = emplace streams id (new_stream w 196000) in
        some (
          ends streams' streams' (
            (header 200 ((codes "Content-Type", codes "text/plain") ∷ [])
                >> stream
                >> put (λ r. endl (write r id)))
              res))
  ]

  -- `find` on a JSON value that is no object gives its end.
  unfoldable pub member : List ℕ → Fields (Double w) → Option (Json (Double w))
  member name end = none
  member name (field key j fields) =
      let later = member name fields in if same_text key name then some j else later

  unfoldable pub find_member : List ℕ → Json (Double w) → Option (Json (Double w))
  unfolding member
  find_member name (object fields) = member name fields
  find_member name _ = none

  abbrev pub string_of : Json (Double w) → Option (List ℕ)
  string_of (string text) = some text
  string_of _ = none

  -- What is done with the member "filename"; a value that is no string leads to an exception.
  unfoldable pub append_file :
      Streams → List ℕ → Stream w → Response → Option (Json (Double w)) → Handled
  append_file streams id st res none =
      ends streams streams (error_response lib 400 (codes "Invalid query") res)
  append_file streams id st res (some fn) = elim (string_of fn) [
    | none ↦ (streams, res, none)
    | some name ↦
        ends streams (store streams id (append w st name zero_seconds))
          (ok_response lib 200 (codes "Appended file " ++ name) res)
  ]

  unfoldable pub handle_stream_append : List ℕ → List ℕ → Streams → Response → Handled
  unfolding no_stream append_file find_member store
  handle_stream_append id body streams res = elim (find streams id) [
    | none ↦ no_stream streams id res
    | some st ↦ elim (JsonLib.parse lib body) [
      | none ↦ (streams, res, none)
      | some resource ↦ append_file streams id st res (find_member (codes "filename") resource)
    ]
  ]

  -- What `advance` leaves and writes; `none` is the fuel of `advance`.
  unfoldable pub play :
      Streams → List ℕ → Response → Option (Stream w × Option (List ℕ)) → Option Handled
  play streams id res none = none
  play streams id res (some (st, none)) = some (store streams id st, res, none)
  play streams id res (some (st, some bytes)) = some (store streams id st, write res bytes, some tt)

  -- The head, and then five seconds.
  unfoldable pub handle_stream_advance : List ℕ → Streams → Response → Option Handled
  unfolding no_stream play store
  handle_stream_advance id streams res = elim (find streams id) [
    | none ↦ some (no_stream streams id res)
    | some st ↦
        elim ((header 200 ((codes "Content-Type", codes "audio/webm") ∷ []) >> stream) res).0 [
          | thrown e ↦ some (streams, res, none)
          | ok _ ↦
              play streams id
                ((header 200 ((codes "Content-Type", codes "audio/webm") ∷ []) >> stream) res).1
                (advance w st 240000)
        ]
  ]

  unfoldable pub handle_stream_destroy : List ℕ → Streams → Response → Handled
  unfolding no_stream erase
  handle_stream_destroy id streams res = elim (find streams id) [
    | none ↦ no_stream streams id res
    | some st ↦
        ends streams (erase streams id)
          (ok_response lib 200 (codes "Stream successfully erased") res)
  ]
