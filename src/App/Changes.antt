-- ===== src/App/Changes.antt =====
-- The requests that change the playlist of a stream, or take a stream away.
use http_audio_server.Common.{ℕ, ◌≡◌, refl, ap, inr, none, some, List, [], ◌∷◌, ◌++◌}
use http_audio_server.Common.Text.{codes}
use http_audio_server.Common.Words.{same_text}
use http_audio_server.Json.{Json, string, JsonLib}
use http_audio_server.Response.{Call, Response, ok, new_response, ok_response, status_text, destroy}
use http_audio_server.Response.Wire.{Ends, respond-Ends}
use http_audio_server.Pipe.{Source}
use http_audio_server.Stream.{Stream, append}
use http_audio_server.Stream.Env.{World, Double}
use http_audio_server.Server.Dispatch.{json_head}
use http_audio_server.Handlers.{
  Streams, ends, find, store, erase, find_member, append_file, handle_stream_append,
  handle_stream_destroy,
}
use http_audio_server.Handlers.Map.{Unique, find-store, find-erase}
use http_audio_server.Routes.{is_alnum}
use http_audio_server.Routes.Paths.{path, matches_stream-path, matches_stream-other}
use http_audio_server.App.{
  App, with_streams, index_entry, create_entry, append_entry, advance_entry, destroy_entry,
  request_map, serve,
}
use http_audio_server.App.Requests.{IsId, post, served, index-Misses, create-Misses}

module _ (w : World) (draws : ℕ → ℕ → ℕ) (page : Source) where
  handle_append_run :
      (streams : Streams w) (id body name : List ℕ) (st : Stream w) (resource : Json (Double w))
      (res : Response)
      → find w streams id ≡ some st
      → JsonLib.parse (World.lib w) body ≡ some resource
      → find_member w (codes "filename") resource ≡ some (string name)
      → ok_response (World.lib w) 200 (codes "Appended file " ++ name) (new_response [])
        ≡ (ok tt, res)
      → handle_stream_append w id body streams (new_response [])
        ≡ (store w streams id (append w st name (World.zero_seconds w)), res, some tt)
  unfolding handle_stream_append append_file
  handle_append_run streams id body name st resource res h parsed member run =
      rw (h, parsed, member, handle_stream_append)
        (ap (ends w streams (store w streams id (append w st name (World.zero_seconds w)))) run)

  handle_destroy_run :
      (streams : Streams w) (id : List ℕ) (st : Stream w) (res : Response)
      → find w streams id ≡ some st
      → ok_response (World.lib w) 200 (codes "Stream successfully erased") (new_response [])
        ≡ (ok tt, res)
      → handle_stream_destroy w id streams (new_response []) ≡ (erase w streams id, res, some tt)
  unfolding handle_stream_destroy
  handle_destroy_run streams id st res h run =
      rw (h, handle_stream_destroy) (ap (ends w streams (erase w streams id)) run)

  -- A request to append a file to a stream that is there, with an id of letters and digits, whose
  -- body is an object with a text for "filename": the stream that is stored has the same playlist
  -- with one more entry behind it, for this file from its begin on and not yet opened; all else of
  -- the stream is as before, and the reply says so with the code 200.
  pub serve-append :
      (a : App w) (id body name : List ℕ) (st : Stream w) (resource : Json (Double w))
      → IsId id
      → find w a.streams id ≡ some st
      → JsonLib.parse (World.lib w) body ≡ some resource
      → find_member w (codes "filename") resource ≡ some (string name)
      → (streams' : Streams w) × (out : List Call) × (serve w draws page
            (post (path id (codes "/append")) body)
            a
          ≡ some (record a { streams = streams' }, out))
        × (find w streams' id
            ≡ some (record st {
              decoders =
                  st.decoders
                  ++ record { filename = name; offs = World.zero_seconds w; decoder = none } ∷ [];
            }))
        × Ends
            (json_head 200 ∷ [])
            (status_text (World.lib w) (codes "ok") (codes "Appended file " ++ name) ++ b'\n' ∷ [])
            2
            out
  unfolding append_entry request_map is_alnum same_text handle_stream_append append_file ok_response
      append
  serve-append a id body name st resource v h parsed member =
      let uri : List ℕ = path id (codes "/append") in
      let streams' : Streams w = store w a.streams id (append w st name (World.zero_seconds w)) in
      let (res, run, e) =
        respond-Ends (World.lib w) [] (codes "ok") (codes "Appended file " ++ name) 200 in
      (
        streams',
        destroy res,
        served w draws page (index_entry w draws page ∷ create_entry w draws page ∷ [])
            (advance_entry w draws page ∷ destroy_entry w draws page ∷ [])
            (append_entry w draws page) uri body (uri ∷ id ∷ []) a (record a { streams = streams' })
            res refl
            (
              index-Misses w draws page uri body,
              (create-Misses w draws page id (codes "append") body b'/' v refl, tt),
            )
            refl (matches_stream-path id (codes "append") b'/' v.0 v.1 refl)
            (ap (λ o. with_streams w draws page a (some o))
              (handle_append_run a.streams id body name st resource res h parsed member run)),
        find-store w a.streams id (append w st name (World.zero_seconds w)) st h,
        e,
      )

  -- A request to destroy a stream: the stream is gone, and the reply says so with the code 200.
  pub serve-destroy :
      (a : App w) (id body : List ℕ) (st : Stream w)
      → IsId id
      → find w a.streams id ≡ some st
      → Unique w a.streams
      → (streams' : Streams w) × (out : List Call) × (serve w draws page
            (post (path id (codes "/destroy")) body)
            a
          ≡ some (record a { streams = streams' }, out))
        × (find w streams' id ≡ none)
        × Ends
            (json_head 200 ∷ [])
            (status_text (World.lib w) (codes "ok") (codes "Stream successfully erased")
              ++ b'\n' ∷ [])
            2
            out
  unfolding append_entry advance_entry destroy_entry request_map is_alnum same_text ok_response
  serve-destroy a id body st v h u =
      let uri : List ℕ = path id (codes "/destroy") in
      let streams' : Streams w = erase w a.streams id in
      let (res, run, e) =
        respond-Ends (World.lib w) [] (codes "ok") (codes "Stream successfully erased") 200 in
      (
        streams',
        destroy res,
        served w draws page
            (index_entry w draws page
              ∷ create_entry w draws page
              ∷ append_entry w draws page
              ∷ advance_entry w draws page
              ∷ [])
            [] (destroy_entry w draws page) uri body (uri ∷ id ∷ []) a
            (record a { streams = streams' }) res refl
            (
              index-Misses w draws page uri body,
              (
                create-Misses w draws page id (codes "destroy") body b'/' v refl,
                (
                  inr (
                      matches_stream-other id (codes "destroy") (codes "/append") b'/' v.0 refl
                        refl),
                  (
                    inr (
                        matches_stream-other id (codes "destroy") (codes "/advance") b'/' v.0 refl
                          refl),
                    tt,
                  ),
                ),
              ),
            )
            refl (matches_stream-path id (codes "destroy") b'/' v.0 v.1 refl)
            (ap (λ o. with_streams w draws page a (some o))
              (handle_destroy_run a.streams id st res h run)),
        find-erase w a.streams id u,
        e,
      )
