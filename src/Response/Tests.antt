-- ===== src/Response/Tests.antt =====
-- Responses at concrete inputs.
use http_audio_server.Common.{ℕ, ◌≡◌, refl, true, [], ◌∷◌, ◌++◌, none, arith}
use http_audio_server.Common.Text.{codes}
use http_audio_server.Json.{JsonLib}
use http_audio_server.Response.{
  send_head, send_chunk, Response, ok, write, sputc, flush, header, destroy, new_response,
  status_text, respond, extra_headers, endl, stream,
}
use http_audio_server.Response.Chunks.{Sends, write-Sends}
use http_audio_server.Response.Wire.{Ends, respond-Ends}

abbrev demo : JsonLib
demo = record {
  Double = ℕ;
  parse = λ text. none;
  dump = λ j. [];
  dump_setw = λ n j. b'{' ∷ b'}' ∷ [];
}

-- A response behind its head.
abbrev headed : Response
headed = record { calls = send_head 200 [] ∷ []; pending = []; header_sent = true }

respond_runs :
    destroy (respond demo (codes "ok") 200 (codes "x") (new_response [])).1
    ≡ send_head 200 (codes "Content-type: application/json")
      ∷ send_chunk (b'{' ∷ b'}' ∷ b'\n' ∷ [])
      ∷ send_chunk []
      ∷ send_chunk []
      ∷ []
unfolding destroy respond header stream extra_headers new_response endl write sputc flush
    status_text
respond_runs = refl

hello_Sends : Sends headed (write headed (codes "hello")) (codes "hello")
hello_Sends = write-Sends headed (codes "hello") (omega arith)

respond-Ends_example :
    (r : Response) × (respond demo (codes "ok") 200 (codes "x") (new_response []) ≡ (ok tt, r))
    × Ends
        ([] ++ send_head 200 (codes "Content-type: application/json") ∷ [])
        (status_text demo (codes "ok") (codes "x") ++ b'\n' ∷ [])
        2
        (destroy r)
respond-Ends_example = respond-Ends demo [] (codes "ok") (codes "x") 200
