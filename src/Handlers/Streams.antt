-- ===== src/Handlers/Streams.antt =====
-- The handlers that work on a stream: for an id that is not known, and `advance` from the request
-- to the bytes of the response.
use http_audio_server.Common.{ℕ, ◌≡◌, refl, ap, ◌∙◌, true, none, some, List, [], ◌∷◌, ◌++◌, arith}
use http_audio_server.Common.Text.{codes}
use http_audio_server.Response.{
  Call, send_head, Response, new_response, header, stream, extra_headers, write, destroy,
  error_response,
}
use http_audio_server.Response.Chunks.{write-Sends}
use http_audio_server.Response.Wire.{Ends, destroy-Ends, respond-Ends}
use http_audio_server.Stream.{Stream, advance}
use http_audio_server.Stream.Env.{World}
use http_audio_server.Server.Dispatch.{error_body, json_head}
use http_audio_server.Handlers.{
  Streams, ends, find, store, play, no_stream, not_found_text, handle_stream_append,
  handle_stream_advance, handle_stream_destroy,
}

module _ (w : World) where
  -- The answer for an id that is not known: the streams are left alone.
  no_stream-Ends :
      (streams : Streams w) (id : List ℕ) (calls : List Call)
      → (res : Response) × (no_stream w streams id (new_response calls) ≡ (streams, res, some tt))
        × Ends
            (calls ++ json_head 404 ∷ [])
            (error_body (World.lib w) (codes "Stream id \"" ++ (id ++ codes "\" not found")))
            2
            (destroy res)
  unfolding no_stream not_found_text error_response
  no_stream-Ends streams id calls =
      let (r, run, e) =
        respond-Ends (World.lib w) calls (codes "error")
          (codes "Stream id \"" ++ (id ++ codes "\" not found")) 404 in
      (r, ap (ends w streams streams) run, e)

  -- If there is no stream of this id, the requests to append, advance and destroy all change no
  -- stream, and are answered with the code 404 and a message that names the id.
  pub handlers-none :
      (streams : Streams w) (id body : List ℕ) (calls : List Call)
      → find w streams id ≡ none
      → (res : Response) × (handle_stream_append w id body streams (new_response calls)
          ≡ (streams, res, some tt))
        × (handle_stream_advance w id streams (new_response calls) ≡ some (streams, res, some tt))
        × (handle_stream_destroy w id streams (new_response calls) ≡ (streams, res, some tt))
        × Ends
            (calls ++ json_head 404 ∷ [])
            (error_body (World.lib w) (codes "Stream id \"" ++ (id ++ codes "\" not found")))
            2
            (destroy res)
  unfolding handle_stream_append handle_stream_advance handle_stream_destroy
  handlers-none streams id body calls h =
      let (res, run, e) = no_stream-Ends streams id calls in
      (
        res,
        rw (h, handle_stream_append) run,
        rw (h, handle_stream_advance) (ap some run),
        rw (h, handle_stream_destroy) run,
        e,
      )

  abbrev headed : List Call → Response
  headed calls = record {
    calls = calls ++ send_head 200 (codes "Content-Type: audio/webm") ∷ [];
    pending = [];
    header_sent = true;
  }

  advance_run :
      (streams : Streams w) (id : List ℕ) (st : Stream w) (calls : List Call)
      → find w streams id ≡ some st
      → handle_stream_advance w id streams (new_response calls)
        ≡ play w streams id (headed calls) (advance w st 240000)
  unfolding handle_stream_advance header stream new_response extra_headers
  advance_run streams id st calls h = rw (h, handle_stream_advance) refl

  -- The reply for a call of `advance` that returns.
  pub advanced-Ends :
      (streams : Streams w) (id : List ℕ) (st st' : Stream w) (bytes : List ℕ) (calls : List Call)
      → find w streams id ≡ some st
      → advance w st 240000 ≡ some (st', some bytes)
      → (res : Response) × (handle_stream_advance w id streams (new_response calls)
          ≡ some (store w streams id st', res, some tt))
        × Ends
            (calls ++ send_head 200 (codes "Content-Type: audio/webm") ∷ [])
            bytes
            1
            (destroy res)
  unfolding play
  advanced-Ends streams id st st' bytes calls h run =
      let r : Response = headed calls in
      let s = write-Sends r bytes (omega arith) in
      (
        write r bytes,
        advance_run streams id st calls h ∙ ap (play w streams id r) run,
        destroy-Ends r (write r bytes) bytes s refl s.header_eq,
      )
