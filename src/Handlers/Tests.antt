-- ===== src/Handlers/Tests.antt =====
-- The handlers at concrete requests.
use http_audio_server.Common.{◌≡◌, refl, true, some, [], ◌∷◌, ◌++◌}
use http_audio_server.Common.Text.{codes}
use http_audio_server.Response.{send_head, Response, ok, new_response, destroy}
use http_audio_server.Response.Wire.{Ends}
use http_audio_server.Pipe.{Source}
use http_audio_server.Stream.Tests.{demo, one_file}
use http_audio_server.Server.Dispatch.{error_body, json_head}
use http_audio_server.Handlers.{
  Streams, find, handle_index, handle_stream_append, handle_stream_advance, handle_stream_destroy,
}
use http_audio_server.Handlers.Index.{handle_index-Ends}
use http_audio_server.Handlers.Streams.{handlers-none}

abbrev page : Source
page = record { rest = codes "<html>\n</html>"; good = true }

handle_index-Ends_example :
    (r : Response) × (handle_index page (new_response []) ≡ (ok tt, r))
    × Ends
        ([] ++ send_head 200 (codes "Content-Type: text/html; charset=utf-8") ∷ [])
        page.rest
        2
        (destroy r)
handle_index-Ends_example = handle_index-Ends page [] refl

handlers-none_example :
    (res : Response) × (handle_stream_append demo (codes "x") [] [] (new_response [])
      ≡ ([], res, some tt))
    × (handle_stream_advance demo (codes "x") [] (new_response []) ≡ some ([], res, some tt))
    × (handle_stream_destroy demo (codes "x") [] (new_response []) ≡ ([], res, some tt))
    × Ends
        ([] ++ json_head 404 ∷ [])
        (error_body demo.lib (codes "Stream id \"" ++ (codes "x" ++ codes "\" not found")))
        2
        (destroy res)
unfolding find
handlers-none_example = handlers-none demo [] (codes "x") [] [] refl

abbrev streams : Streams demo
streams = (codes "x", one_file) ∷ []
