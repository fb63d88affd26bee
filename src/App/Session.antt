-- ===== src/App/Session.antt =====
-- A client that creates a stream, appends a file to it, and asks for its first five seconds.
use http_audio_server.Common.{ℕ, suc, ◌≡◌, ◌<◌, refl, none, some, List, [], ◌∷◌, ◌++◌, arith}
use http_audio_server.Common.Text.{codes}
use http_audio_server.Json.{Json, string, JsonLib}
use http_audio_server.Response.{Call, send_head, status_text}
use http_audio_server.Response.Wire.{Ends}
use http_audio_server.Pipe.{Source}
use http_audio_server.Encoder.Create.{create, create-IsValid}
use http_audio_server.Stream.{new_stream, append, output}
use http_audio_server.Stream.Env.{World, Double}
use http_audio_server.Stream.Loop.{IsReady, IsPlayable}
use http_audio_server.Stream.Advance.{Advances}
use http_audio_server.Server.Dispatch.{json_head}
use http_audio_server.StringUtils.{random_alphanum_string}
use http_audio_server.Handlers.{find, find_member}
use http_audio_server.Routes.Paths.{path}
use http_audio_server.App.{App, serve}
use http_audio_server.App.Requests.{post, serve-advance}
use http_audio_server.App.Changes.{serve-append}
use http_audio_server.App.Creation.{serve-create}

module _ (w : World) where
  -- A new stream with one file that can be played is ready.
  pub one_file-IsReady :
      (bitrate : ℕ) (name : List ℕ)
      → IsPlayable w (record { filename = name; offs = World.zero_seconds w; decoder = none })
      → IsReady w (append w (new_stream w bitrate) name (World.zero_seconds w))
  unfolding append new_stream create
  one_file-IsReady bitrate name playable = record {
    playable = (playable, tt);
    valid = create-IsValid (World.codec w) 48000 2 (omega arith) (omega arith);
    not_done = refl;
    stereo = refl;
    empty = refl;
    counted = omega arith;
  }

  -- Three requests, one after the other, where the drawn name is not in use and the file can be
  -- played: the first reply is the name of the stream, and with this name in the addresses the second
  -- one confirms the file, and the third one carries what `advance` makes of the file for five
  -- seconds, or all of it, behind a head of its own.
  pub serve_session :
      (draws : ℕ → ℕ → ℕ) (page : Source) (a : App w) (id body name : List ℕ)
      (resource : Json (Double w))
      → ((k : ℕ) → draws a.drawn k < 62)
      → random_alphanum_string (draws a.drawn) 16 ≡ some id
      → find w a.streams id ≡ none
      → JsonLib.parse (World.lib w) body ≡ some resource
      → find_member w (codes "filename") resource ≡ some (string name)
      → IsPlayable w (record { filename = name; offs = World.zero_seconds w; decoder = none })
      → let st = append w (new_stream w 196000) name (World.zero_seconds w) in
        (a1 a2 a3 : App w) × (out1 out2 out3 : List Call) × (adv : Advances w st 240000) × (serve w
            draws page
            (post (codes "/stream/create") [])
            a
          ≡ some (a1, out1))
        × (serve w draws page (post (path id (codes "/append")) body) a1 ≡ some (a2, out2))
        × (serve w draws page (post (path id (codes "/advance")) []) a2 ≡ some (a3, out3))
        × Ends (send_head 200 (codes "Content-Type: text/plain") ∷ []) (id ++ b'\n' ∷ []) 2 out1
        × Ends
            (json_head 200 ∷ [])
            (status_text (World.lib w) (codes "ok") (codes "Appended file " ++ name) ++ b'\n' ∷ [])
            2
            out2
        × Ends (send_head 200 (codes "Content-Type: audio/webm") ∷ []) (output w adv.last) 1 out3
  unfolding append
  serve_session draws page a id body name resource inside drawn fresh parsed member playable =
      let (streams1, out1, run1, found1, is_id, ends1) =
        serve-create w draws page a [] id inside drawn fresh in
      let a1 : App w = record { streams = streams1; drawn = suc a.drawn } in
      let (streams2, out2, run2, found2, ends2) =
        serve-append w draws page a1 id body name (new_stream w 196000) resource is_id.0 found1
          parsed member in
      let a2 : App w = record a1 { streams = streams2 } in
      let (adv, out3, run3, ends3) =
        serve-advance w draws page a2 id []
          (append w (new_stream w 196000) name (World.zero_seconds w)) is_id.0 found2
          (one_file-IsReady 196000 name playable) in
      (a1, a2, _, out1, out2, out3, adv, run1, run2, run3, ends1, ends2, ends3)
