-- ===== src/App/Requests.antt =====
-- From a request on a connection to the reply, and the streams that it leaves.
use http_audio_server.Common.{
  ℕ, ◌≡◌, ◌<◌, refl, ap, ◌∙◌, arith, inl, inr, true, false, some, List, [], ◌∷◌, ◌++◌, length, All,
}
use http_audio_server.Common.Text.{codes}
use http_audio_server.Common.Words.{same_text}
use http_audio_server.Response.{Call, send_head, Response, new_response, destroy}
use http_audio_server.Response.Wire.{Ends}
use http_audio_server.Pipe.{Source}
use http_audio_server.Stream.{Stream, advance, output}
use http_audio_server.Stream.Env.{World}
use http_audio_server.Stream.Loop.{IsReady}
use http_audio_server.Stream.Advance.{Advances, advance_lem}
use http_audio_server.Server.{HttpMessage, RequestMapEntry, end_handler, end_handled, event_handler}
use http_audio_server.Server.Dispatch.{Misses, event_handler-first}
use http_audio_server.Handlers.{find, store}
use http_audio_server.Handlers.Streams.{advanced-Ends}
use http_audio_server.Routes.{is_alnum}
use http_audio_server.Routes.Paths.{
  IsAlnum, path, matches_stream-path, matches_create-path, matches_stream-other,
}
use http_audio_server.App.{
  App, with_streams, index_entry, create_entry, append_entry, advance_entry, destroy_entry,
  request_map, serve,
}

-- A request with the method POST.
abbrev pub post : List ℕ → List ℕ → HttpMessage
post uri body = record { is_request = true; method = codes "POST"; uri = uri; body = body }

-- An id that a stream can have in an address.
abbrev pub IsId : List ℕ → Type 0
IsId id = IsAlnum id × (0 < length id)

module _ (w : World) (draws : ℕ → ℕ → ℕ) (page : Source) where
  abbrev State : Type 0
  State = App w

  -- The answer of a handler, as `serve` gives it.
  pub served :
      (before after : List (RequestMapEntry State)) (descr : RequestMapEntry State)
      (uri body : List ℕ) (sm : List (List ℕ)) (a a' : State) (res : Response)
      → request_map w draws page ≡ before ++ descr ∷ after
      → All (Misses (post uri body)) before
      → same_text descr.method (codes "POST") ≡ true
      → descr.matches uri ≡ some sm
      → descr.handler
          (record { method = codes "POST"; uri = uri; body = body; matcher = sm })
          a
          (new_response [])
        ≡ some (a', res, some tt)
      → serve w draws page (post uri body) a ≡ some (a', destroy res)
  unfolding serve end_handler
  served before after descr uri body sm a a' res all misses e f run =
      ap (λ es. event_handler (World.lib w) es (post uri body) a []) all
      ∙ event_handler-first (World.lib w) before after descr (post uri body) a [] sm refl misses e f
      ∙ ap (end_handled (World.lib w)) run

  pub index-Misses : (uri body : List ℕ) → Misses (post uri body) (index_entry w draws page)
  unfolding index_entry same_text
  index-Misses uri body = inl refl

  pub create-Misses :
      (id suffix body : List ℕ) (c : ℕ)
      → IsId id
      → is_alnum c ≡ false
      → Misses (post (path id (c ∷ suffix)) body) (create_entry w draws page)
  unfolding create_entry
  create-Misses id suffix body c v k = inr (matches_create-path id suffix c v.0 k)

  -- A request to advance a stream, if `advance` returns.
  pub serve_advanced :
      (a : App w) (id body : List ℕ) (st st' : Stream w) (bytes : List ℕ)
      → IsId id
      → find w a.streams id ≡ some st
      → advance w st 240000 ≡ some (st', some bytes)
      → (out : List Call) × (serve w draws page (post (path id (codes "/advance")) body) a
          ≡ some (record a { streams = store w a.streams id st' }, out))
        × Ends (send_head 200 (codes "Content-Type: audio/webm") ∷ []) bytes 1 out
  unfolding append_entry advance_entry request_map is_alnum same_text
  serve_advanced a id body st st' bytes v h run_advance =
      let uri : List ℕ = path id (codes "/advance") in
      let (res, run, e) = advanced-Ends w a.streams id st st' bytes [] h run_advance in
      (
        destroy res,
        served
            (index_entry w draws page ∷ create_entry w draws page ∷ append_entry w draws page ∷ [])
            (destroy_entry w draws page ∷ []) (advance_entry w draws page) uri body (uri ∷ id ∷ [])
            a (record a { streams = store w a.streams id st' }) res refl
            (
              index-Misses uri body,
              (
                create-Misses id (codes "advance") body b'/' v refl,
                (
                  inr (
                      matches_stream-other id (codes "advance") (codes "/append") b'/' v.0 refl
                        refl),
                  tt,
                ),
              ),
            )
            refl (matches_stream-path id (codes "advance") b'/' v.0 v.1 refl)
            (ap (with_streams w draws page a) run),
        e,
      )

  -- A request to advance a stream that is ready, from the address to the bytes on the connection:
  -- the reply is a head of its own, then the two segments for the next five seconds, in chunks that
  -- carry data, and the end of the body; the stream is stored as this leaves it.
  pub serve-advance :
      (a : App w) (id body : List ℕ) (st : Stream w)
      → IsId id
      → find w a.streams id ≡ some st
      → IsReady w st
      → (adv : Advances w st 240000) × (out : List Call) × (serve w draws page
            (post (path id (codes "/advance")) body)
            a
          ≡ some (record a { streams = store w a.streams id adv.last.stream }, out))
        × Ends (send_head 200 (codes "Content-Type: audio/webm") ∷ []) (output w adv.last) 1 out
  serve-advance a id body st v h ready =
      let adv = advance_lem w st 240000 ready (omega arith) in
      let (out, run, e) =
        serve_advanced a id body st adv.last.stream (output w adv.last) v h adv.run in
      (adv, out, run, e)
