-- ===== src/App/Tests.antt =====
-- The program at concrete requests.
mod Clients
mod Programs
use http_audio_server.Common.{
  ℕ, suc, ◌≡◌, refl, true, false, Option, none, some, List, [], ◌∷◌, ◌++◌, map, length, arith,
}
use http_audio_server.Common.Int.{ℤ, pos}
use http_audio_server.Common.Text.{codes}
use http_audio_server.Common.Words.{same_text}
use http_audio_server.Json.{object, field, end, string}
use http_audio_server.Response.{Call, send_head, status_text}
use http_audio_server.Response.Wire.{Ends}
use http_audio_server.Pipe.{Source}
use http_audio_server.Stream.{Stream, new_stream, append, output}
use http_audio_server.Stream.Env.{World}
use http_audio_server.Stream.Advance.{Advances}
use http_audio_server.Stream.Tests.{source, demo, one_file, one_file-IsReady}
use http_audio_server.Server.Dispatch.{json_head}
use http_audio_server.StringUtils.{random_alphanum_string}
use http_audio_server.Handlers.{Streams, find, store, find_member}
use http_audio_server.Handlers.Map.{Unique}
use http_audio_server.Routes.{is_alnum}
use http_audio_server.Routes.Paths.{path}
use http_audio_server.Metadata.File.{is_success}
use http_audio_server.Common.{if◌then◌else◌}
use http_audio_server.App.Start.{Surroundings, not_found_message, main}
use http_audio_server.App.Refusals.{fatal, main_unfound}
use http_audio_server.Stream.Loop.{IsPlayable}
use http_audio_server.Json.{null}
use http_audio_server.App.Session.{serve_session}
use http_audio_server.App.{
  App, goes_on, exits, interrupt, message, serve, poll, handle_event, signal_handler, main_loop,
  start, Main,
}
use http_audio_server.App.Requests.{IsId, post, serve-advance}
use http_audio_server.App.Changes.{serve-append, serve-destroy}
use http_audio_server.App.Creation.{serve-create}
use http_audio_server.Server.{HttpMessage, event_handler}
use http_audio_server.Server.Poll.{poll_server}
use http_audio_server.App.Cancel.{main_loop-interrupt}

abbrev pub draws : ℕ → ℕ → ℕ
draws n k = 10

abbrev pub page : Source
page = record { rest = codes "<html>"; good = true }

abbrev pub x_app : App demo
x_app = record { streams = (codes "x", one_file) ∷ []; drawn = 0 }

pub x-IsId : IsId (codes "x")
unfolding is_alnum
x-IsId = ((refl, tt), omega arith)

-- A parser that takes every text for an object that names this text.
abbrev pub naming : World
naming = record demo {
  lib = record {
    Double = ℕ;
    parse = λ text. some (object (field (codes "filename") (string text) end));
    dump = λ j. [];
    dump_setw = λ n j. [];
  };
}

abbrev empty_stream : Stream naming
empty_stream = new_stream naming 64000

abbrev y_app : App naming
y_app = record { streams = (codes "x", empty_stream) ∷ []; drawn = 0 }

serve-append_example :
    (streams' : Streams naming) × (out : List Call) × (serve naming draws page
        (post (path (codes "x") (codes "/append")) (codes "a.ogg"))
        y_app
      ≡ some (record y_app { streams = streams' }, out))
    × (find naming streams' (codes "x")
        ≡ some (record empty_stream {
          decoders =
              empty_stream.decoders
              ++ record {
                filename = codes "a.ogg";
                offs = World.zero_seconds naming;
                decoder = none;
              }
                ∷ [];
        }))
    × Ends
        (json_head 200 ∷ [])
        (status_text naming.lib (codes "ok") (codes "Appended file " ++ codes "a.ogg")
          ++ b'\n' ∷ [])
        2
        out
unfolding find same_text find_member
serve-append_example =
    serve-append naming draws page y_app (codes "x") (codes "a.ogg") (codes "a.ogg") empty_stream
      (object (field (codes "filename") (string (codes "a.ogg")) end)) x-IsId refl refl refl

serve-destroy_example :
    (streams' : Streams demo) × (out : List Call) × (serve demo draws page
        (post (path (codes "x") (codes "/destroy")) [])
        x_app
      ≡ some (record x_app { streams = streams' }, out))
    × (find demo streams' (codes "x") ≡ none)
    × Ends
        (json_head 200 ∷ [])
        (status_text demo.lib (codes "ok") (codes "Stream successfully erased") ++ b'\n' ∷ [])
        2
        out
unfolding find same_text Unique
serve-destroy_example =
    serve-destroy demo draws page x_app (codes "x") [] one_file x-IsId refl (refl, tt)

abbrev pub drawn_id : List ℕ
drawn_id = codes "AAAAAAAAAAAAAAAA"

serve-create_example :
    (streams' : Streams demo) × (out : List Call) × (serve demo draws page
        (post (codes "/stream/create") [])
        x_app
      ≡ some (record { streams = streams'; drawn = suc x_app.drawn }, out))
    × (find demo streams' drawn_id ≡ some (new_stream demo 196000))
    × (IsId drawn_id × (length drawn_id ≡ 16))
    × Ends (send_head 200 (codes "Content-Type: text/plain") ∷ []) (drawn_id ++ b'\n' ∷ []) 2 out
unfolding find same_text random_alphanum_string
serve-create_example = serve-create demo draws page x_app [] drawn_id (λ k. omega arith) refl refl

playable : IsPlayable naming (record { filename = codes "a.ogg"; offs = 0; decoder = none })
playable = record {
  dec = source;
  opens = refl;
  is_whole = record { whole = refl; ended = λ h. ground arith };
  is_known = (null, refl);
}

abbrev session_body : List ℕ
session_body = codes "a.ogg"

abbrev no_streams : App naming
no_streams = record { streams = []; drawn = 0 }

-- Both binaries are there, and the address can be bound.
abbrev pub home : Surroundings
home = record {
  exec = λ cmd args. some (pos 0, [], []);
  mg_bind = λ addr. true;
  console = 7;
  now = 0;
}

main_loop-interrupt_example :
    main_loop demo draws page (start demo draws page) (([] ++ interrupt ∷ []) ∷ [] ∷ [])
    ≡ exits 0 (record (start demo draws page) { cancel = true })
unfolding poll handle_event signal_handler start
main_loop-interrupt_example =
    main_loop-interrupt demo draws page (start demo draws page)
      (record (start demo draws page) { cancel = true }) [] [] ([] ∷ []) refl refl

abbrev only_ffmpeg : List ℕ → List (List ℕ) → Option (ℤ × List ℕ × List ℕ)
only_ffmpeg cmd args =
    some (pos (elim (same_text cmd (codes "ffmpeg")) [ true ↦ 0 | false ↦ 1 ]), [], [])

abbrev bare : Surroundings
bare = record home { exec = only_ffmpeg }

main_unfound_example :
    (m : Main demo) × (main demo draws page bare ([] ∷ []) ≡ exits 1 m)
    × (m.app ≡ (start demo draws page).app)
    × (m.replies ≡ [])
    × (m.logged
        ≡ fatal demo draws page bare (codes "main") (
            (if is_success (pos 0) then codes "ffprobe" else codes "ffmpeg")
            ++ codes
                " binary not found. Please make sure a reasonably recent version of ffmpeg is installed.")
          ∷ [])
unfolding same_text
main_unfound_example =
    main_unfound demo draws page bare ([] ∷ []) (pos 0) (pos 1) [] [] [] [] refl refl refl
