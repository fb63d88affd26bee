-- ===== src/Server/Tests.antt =====
-- A request map with two entries, at concrete requests.
use http_audio_server.Common.{
  Bool, ℕ, ◌+◌, ◌≡◌, inr, refl, true, false, none, some, List, [], ◌∷◌, ◌++◌, if◌then◌else◌,
}
use http_audio_server.Common.Text.{codes}
use http_audio_server.Json.{JsonLib}
use http_audio_server.Response.{Call, send_head, send_chunk, Response, new_response}
use http_audio_server.Response.Wire.{Ends}
use http_audio_server.Common.Words.{same_text}
use http_audio_server.Server.{RequestMapEntry, HttpMessage, end_handler, event_handler}
use http_audio_server.Server.Dispatch.{
  error_body, json_head, event_handler-first, end_handler-early, end_handler-late,
}
use http_audio_server.Logger.{debug, fatal_error, Logger}

abbrev demo : JsonLib
demo = record {
  Double = ℕ;
  parse = λ text. none;
  dump = λ j. [];
  dump_setw = λ n j. b'{' ∷ b'}' ∷ [];
}

-- An entry for one address, whose handler counts its calls and throws.
abbrev at : List ℕ → RequestMapEntry ℕ
at uri = record {
  method = codes "GET";
  matches = λ text. if same_text uri text then some (text ∷ []) else none;
  handler = λ req s res. some (s + 1, res, none);
}

abbrev hm : HttpMessage
hm = record { is_request = true; method = codes "GET"; uri = codes "/b"; body = [] }

event_handler-first_example :
    event_handler demo ((at (codes "/a") ∷ []) ++ at (codes "/b") ∷ []) hm 0 []
    ≡ some (end_handler demo (1, new_response [], none))
unfolding same_text
event_handler-first_example =
    event_handler-first demo (at (codes "/a") ∷ []) [] (at (codes "/b")) hm 0 [] (codes "/b" ∷ [])
      refl (inr refl, tt) refl refl

abbrev no_calls : ℕ
no_calls = 0

abbrev fresh : Response
fresh = record { calls = []; pending = []; header_sent = false }

abbrev headed : Response
headed = record { calls = send_head 200 [] ∷ []; pending = codes "a"; header_sent = true }

end_handler-early_example :
    (out : List Call) × (end_handler demo (no_calls, fresh, none) ≡ (no_calls, out))
    × Ends
        (fresh.calls ++ json_head 500 ∷ [])
        (error_body demo (codes "Internal server error"))
        2
        out
end_handler-early_example = end_handler-early demo no_calls fresh refl

end_handler-late_example :
    (inner : List Call) × (end_handler demo (no_calls, headed, none)
      ≡ (no_calls, inner ++ send_chunk headed.pending ∷ send_chunk [] ∷ []))
    × Ends
        (headed.calls ++ json_head 500 ∷ [])
        (error_body demo (codes "Internal server error"))
        2
        inner
end_handler-late_example = end_handler-late demo no_calls headed refl

abbrev no_port : List ℕ → Bool
no_port addr = false

abbrev two_backends : Logger
two_backends = record { backends = (7, debug) ∷ (8, fatal_error) ∷ []; counts = [] }
