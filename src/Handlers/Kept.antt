-- ===== src/Handlers/Kept.antt =====
-- The handlers keep what each change of the map of streams keeps.
use http_audio_server.Common.{ℕ, Option, none, some, List, [], ◌∷◌, ◌++◌}
use http_audio_server.Common.Text.{codes}
use http_audio_server.Json.{Json, JsonLib}
use http_audio_server.Response.{
  Response, Result, ok, thrown, ◌>>◌, header, stream, put, write, endl, ok_response,
}
use http_audio_server.Stream.{Stream, new_stream, append, advance}
use http_audio_server.Stream.Env.{World, Double}
use http_audio_server.StringUtils.{random_alphanum_string}
use http_audio_server.Server.Keeps.{Holds}
use http_audio_server.Handlers.{
  Streams, Handled, ends, find, emplace, store, erase, string_of, find_member, no_stream,
  append_file, play, handle_stream_create, handle_stream_append, handle_stream_advance,
  handle_stream_destroy,
}

module _ (w : World) (P : Streams w → Type 0) where
  -- The streams of a handler's end.
  abbrev pub Left : Handled w → Type 0
  Left (streams, res, r) = P streams

  -- What the changes of the map that a handler makes keep.
  abbrev pub Adds : Type 0
  Adds =
      (streams : Streams w) (id : List ℕ) (st : Stream w) → P streams → P (emplace w streams id st)

  abbrev pub Stores : List ℕ → Type 0
  Stores id = (streams : Streams w) (st : Stream w) → P streams → P (store w streams id st)

  abbrev pub Erases : List ℕ → Type 0
  Erases id = (streams : Streams w) → P streams → P (erase w streams id)

  ends-Left :
      (before after : Streams w) (r : Result (Unit {0}) × Response)
      → P before
      → P after
      → Left (ends w before after r)
  ends-Left before after (ok _, r) b a = a
  ends-Left before after (thrown e, r) b a = b

  pub create-Left :
      (draw : ℕ → ℕ) (streams : Streams w) (res : Response)
      → Adds
      → P streams
      → Holds (Left) (handle_stream_create w draw streams res)
  unfolding handle_stream_create
  create-Left draw streams res law u = by_name (random_alphanum_string draw 16)
    where
      made : List ℕ → Handled w
      made id =
          let streams' = emplace w streams id (new_stream w 196000) in
          ends w streams' streams' (
            (header 200 ((codes "Content-Type", codes "text/plain") ∷ [])
                >> stream
                >> put (λ r. endl (write r id)))
              res)

      by_name :
          (o : Option (List ℕ)) → Holds (Left) (elim o [ none ↦ none | some id ↦ some (made id) ])
      by_name none = tt
      by_name (some id) =
          ends-Left (emplace w streams id (new_stream w 196000))
            (emplace w streams id (new_stream w 196000)) _ (law streams id (new_stream w 196000) u)
            (law streams id (new_stream w 196000) u)

  file-Left :
      (streams : Streams w) (id : List ℕ) (st : Stream w) (res : Response)
      (o : Option (Json (Double w)))
      → Stores id
      → P streams
      → Left (append_file w streams id st res o)
  unfolding append_file
  file-Left streams id st res none law u = ends-Left streams streams _ u u
  file-Left streams id st res (some fn) law u = by_text (string_of w fn)
    where
      by_text :
          (o : Option (List ℕ))
          → Left (elim o [
            | none ↦ (streams, res, none)
            | some name ↦
                ends w streams
                  (store w streams id (append w st name (World.zero_seconds w)))
                  (ok_response (World.lib w) 200 (codes "Appended file " ++ name) res)
          ])
      by_text none = u
      by_text (some name) =
          ends-Left streams (store w streams id (append w st name (World.zero_seconds w))) _ u
            (law streams (append w st name (World.zero_seconds w)) u)

  no_stream-Left :
      (streams : Streams w) (id : List ℕ) (res : Response)
      → P streams
      → Left (no_stream w streams id res)
  unfolding no_stream
  no_stream-Left streams id res u = ends-Left streams streams _ u u

  pub append-Left :
      (streams : Streams w) (id body : List ℕ) (res : Response)
      → Stores id
      → P streams
      → Left (handle_stream_append w id body streams res)
  unfolding handle_stream_append
  append-Left streams id body res law u = by_stream (find w streams id)
    where
      by_json :
          (st : Stream w) (o : Option (Json (Double w)))
          → Left (elim o [
            | none ↦ (streams, res, none)
            | some resource ↦
                append_file w streams id st res (find_member w (codes "filename") resource)
          ])
      by_json st none = u
      by_json st (some resource) =
          file-Left streams id st res (find_member w (codes "filename") resource) law u

      by_stream :
          (o : Option (Stream w))
          → Left (elim o [
            | none ↦ no_stream w streams id res
            | some st ↦ elim (JsonLib.parse (World.lib w) body) [
              | none ↦ (streams, res, none)
              | some resource ↦
                  append_file w streams id st res (find_member w (codes "filename") resource)
            ]
          ])
      by_stream none = no_stream-Left streams id res u
      by_stream (some st) = by_json st (JsonLib.parse (World.lib w) body)

  play-Left :
      (streams : Streams w) (id : List ℕ) (res : Response) (o : Option (Stream w × Option (List ℕ)))
      → Stores id
      → P streams
      → Holds (Left) (play w streams id res o)
  unfolding play
  play-Left streams id res none law u = tt
  play-Left streams id res (some (st, none)) law u = law streams st u
  play-Left streams id res (some (st, some bytes)) law u = law streams st u

  pub advance-Left :
      (streams : Streams w) (id : List ℕ) (res : Response)
      → Stores id
      → P streams
      → Holds (Left) (handle_stream_advance w id streams res)
  unfolding handle_stream_advance
  advance-Left streams id res law u = by_stream (find w streams id)
    where
      headed : Result (Unit {0}) × Response
      headed = (header 200 ((codes "Content-Type", codes "audio/webm") ∷ []) >> stream) res

      by_head :
          (st : Stream w) (r : Result (Unit {0}))
          → Holds (Left) (elim r [
            | thrown e ↦ some (streams, res, none)
            | ok _ ↦ play w streams id headed.1 (advance w st 240000)
          ])
      by_head st (thrown e) = u
      by_head st (ok _) = play-Left streams id headed.1 (advance w st 240000) law u

      by_stream :
          (o : Option (Stream w))
          → Holds (Left) (elim o [
            | none ↦ some (no_stream w streams id res)
            | some st ↦ elim headed.0 [
              | thrown e ↦ some (streams, res, none)
              | ok _ ↦ play w streams id headed.1 (advance w st 240000)
            ]
          ])
      by_stream none = no_stream-Left streams id res u
      by_stream (some st) = by_head st headed.0

  pub destroy-Left :
      (streams : Streams w) (id : List ℕ) (res : Response)
      → Erases id
      → P streams
      → Left (handle_stream_destroy w id streams res)
  unfolding handle_stream_destroy
  destroy-Left streams id res law u = by_stream (find w streams id)
    where
      by_stream :
          (o : Option (Stream w))
          → Left (elim o [
            | none ↦ no_stream w streams id res
            | some st ↦
                ends w streams
                  (erase w streams id)
                  (ok_response (World.lib w) 200 (codes "Stream successfully erased") res)
          ])
      by_stream none = no_stream-Left streams id res u
      by_stream (some st) = ends-Left streams (erase w streams id) _ u (law streams u)
