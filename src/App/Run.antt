-- ===== src/App/Run.antt =====
-- A run of the program: from the start of `main` through requests to the signal that ends it.
use http_audio_server.Common.{
  ℕ, ◌≡◌, ◌<◌, refl, ap, ◌∙◌, true, false, some, List, [], ◌∷◌, ◌++◌, min, length,
}
use http_audio_server.Common.Int.{pos}
use http_audio_server.Common.Text.{codes}
use http_audio_server.Json.{Json, string, JsonLib}
use http_audio_server.Response.{Call}
use http_audio_server.Response.Wire.{received}
use http_audio_server.Pipe.{Source}
use http_audio_server.Decoder.Got.{IsWhole}
use http_audio_server.Logger.{Logger, Delivery, global_logger}
use http_audio_server.Logger.Front.{log_info}
use http_audio_server.Metadata.{Metadata, to_json}
use http_audio_server.Metadata.File.{metadata_from_file}
use http_audio_server.Stream.{metadata_entry, output}
use http_audio_server.Stream.Env.{World, Double}
use http_audio_server.Stream.Advance.{Advances}
use http_audio_server.Stream.Parts.{Machine, world_of, Forks}
use http_audio_server.StringUtils.{random_alphanum_string}
use http_audio_server.Handlers.{find, find_member}
use http_audio_server.Routes.Paths.{path}
use http_audio_server.Server.{HttpMessage}
use http_audio_server.Server.Poll.{address, new_server, serving}
use http_audio_server.App.{
  App, Event, interrupt, message, Main, Turn, goes_on, exits, serve, signal_handler, replied,
  interrupted, request_map, handle_event, poll, main_loop, start,
}
use http_audio_server.App.Start.{Surroundings, with_log, then_if_found, serve_from, main}
use http_audio_server.App.Cancel.{then_poll, poll-cons, main_loop-interrupt}
use http_audio_server.App.Requests.{post}
use http_audio_server.App.Program.{decoded, playlist, serve_program}

-- Both binaries are there, and the address can be bound.
pub record IsHome (env : Surroundings) : Type 0 where
  pub ffmpeg_out : List ℕ × List ℕ
  pub ffmpeg :
      env.exec (codes "ffmpeg") (codes "-version" ∷ []) ≡ some (pos 0, ffmpeg_out.0, ffmpeg_out.1)
  pub ffprobe_out : List ℕ × List ℕ
  pub ffprobe :
      env.exec (codes "ffprobe") (codes "-version" ∷ [])
      ≡ some (pos 0, ffprobe_out.0, ffprobe_out.1)
  pub binds : env.mg_bind (address (codes "0.0.0.0") 4851) ≡ true

module _ (w : World) (draws : ℕ → ℕ → ℕ) (page : Source) where
  -- What the server logs when it starts.
  abbrev greeting : Surroundings → Logger → Logger × List Delivery
  greeting env l = log_info l env.now (codes "server") (
      codes "Serving HTTP at "
      ++ (address (codes "0.0.0.0") 4851 ++ codes ", press CTRL+C to exit"))

  server_bound :
      (env : Surroundings) (l : Logger)
      → env.mg_bind (address (codes "0.0.0.0") 4851) ≡ true
      → new_server env.mg_bind (request_map w draws page) (codes "0.0.0.0") 4851 l env.now ≡ (
        serving (record {
          request_map = request_map w draws page;
          addr = address (codes "0.0.0.0") 4851;
        }),
        greeting env l,
      )
  unfolding new_server
  server_bound env l h = rw (h, new_server)

  -- The loop starts without streams and replies.
  main_serves :
      (env : Surroundings) (polls : List (List Event))
      → IsHome env
      → (m : Main w) × (main w draws page env polls ≡ main_loop w draws page m polls)
        × (m.app ≡ (start w draws page).app)
        × (m.replies ≡ [])
        × (m.cancel ≡ false)
  unfolding main new_server start
  main_serves env polls h =
      let l : Logger = global_logger env.console (Main.logger (start w draws page)) in
      let loop : Turn w =
        serve_from w draws page
          (new_server env.mg_bind (request_map w draws page) (codes "0.0.0.0") 4851 l env.now)
          polls in
      (
        with_log w draws page (greeting env l),
        ap
              (λ o. then_if_found w draws page env (codes "ffmpeg") o (
                then_if_found w draws page env (codes "ffprobe")
                  (env.exec (codes "ffprobe") (codes "-version" ∷ [])) loop))
              h.ffmpeg
            ∙ ap (λ o. then_if_found w draws page env (codes "ffprobe") o loop) h.ffprobe
            ∙ ap (λ o. serve_from w draws page o polls) (server_bound env l h.binds),
        refl,
        refl,
        refl,
      )

  -- A request that is answered, in a poll.
  poll_message :
      (m : Main w) (hm : HttpMessage) (a : App w) (calls : List Call) (events : List Event)
      → serve w draws page hm m.app ≡ some (a, calls)
      → poll w draws page m (message hm ∷ events)
        ≡ poll w draws page (record m { app = a; replies = m.replies ++ calls ∷ [] }) events
  unfolding handle_event
  poll_message m hm a calls events e =
      poll-cons w draws page m (message hm) events
      ∙ ap (λ o. then_poll w draws page events (replied w draws page m o)) e

  poll_interrupt :
      (m : Main w)
      → m.cancel ≡ false
      → poll w draws page m (interrupt ∷ []) ≡ goes_on (record m { cancel = true })
  unfolding handle_event signal_handler poll
  poll_interrupt m h =
      poll-cons w draws page m interrupt []
      ∙ ap (λ c. then_poll w draws page [] (interrupted w draws page m (signal_handler c))) h

module _ (m : Machine) (name : List ℕ) (f : Forks m name m.zero_seconds) (meta : Metadata m.tools)
    (draws : ℕ → ℕ → ℕ) (page : Source) where
  abbrev w : World
  w = world_of m

  -- The requests of a client that creates a stream, appends a file, and asks for audio, and then the
  -- signal.
  abbrev pub three_requests : List ℕ → List ℕ → List Event
  three_requests id body =
      message (post (codes "/stream/create") [])
      ∷ message (post (path id (codes "/append")) body)
      ∷ message (post (path id (codes "/advance")) [])
      ∷ interrupt
      ∷ []

  -- The whole run of `main`, where both binaries are there, the address can be bound, and the file
  -- is one that `ffmpeg` decodes to whole sample pairs and that has metadata: the three requests of
  -- a session and an interrupt come in the first poll. `main` returns 0, and there are three
  -- replies. From the first one the client reads the name of the stream and a line break, and from
  -- the third one the output of a call of `advance` that encodes the first five seconds that
  -- `ffmpeg` writes, or all, with the metadata of the file.
  pub main_session :
      (env : Surroundings) (id body : List ℕ) (resource : Json (Double w))
      (polls : List (List Event))
      → IsHome env
      → ((k : ℕ) → draws 0 k < 62)
      → random_alphanum_string (draws 0) 16 ≡ some id
      → JsonLib.parse (World.lib w) body ≡ some resource
      → find_member w (codes "filename") resource ≡ some (string name)
      → IsWhole (decoded m name f meta)
      → metadata_from_file m.tools name ≡ some meta
      → (last : Main w) × (out1 out2 out3 : List Call) × (adv : Advances w
          (playlist m name f meta)
          240000)
        × (rest : List ℕ) × (main w draws page env (three_requests id body ∷ polls) ≡ exits 0 last)
        × (last.replies ≡ out1 ∷ out2 ∷ out3 ∷ [])
        × (received out1 ≡ id ++ b'\n' ∷ [])
        × (received out3 ≡ output w adv.last)
        × (adv.last.metadata ≡ metadata_entry w 0 name (to_json m.tools meta) ∷ [])
        × ((decoded m name f meta).rest ≡ adv.taken ++ rest)
        × (length adv.taken ≡ min 1920000 (length (decoded m name f meta).rest))
  unfolding start find
  main_session env id body resource polls home inside drawn parsed member whole read =
      let (
        a1, a2, a3, out1, out2, out3, adv, rest, run1, run2, run3, first, third, told, split,
        amount,
      ) =
        serve_program m name f meta draws page (start w draws page).app id body resource inside
          drawn refl parsed member whole read in
      let (m0, begins, app_eq, replies_eq, open_) =
        main_serves w draws page env (three_requests id body ∷ polls) home in
      let m1 : Main w = record m0 { app = a1; replies = m0.replies ++ out1 ∷ [] } in
      let m2 : Main w = record m1 { app = a2; replies = m1.replies ++ out2 ∷ [] } in
      let m3 : Main w = record m2 { app = a3; replies = m2.replies ++ out3 ∷ [] } in
      (
        record m3 { cancel = true },
        out1,
        out2,
        out3,
        adv,
        rest,
        begins
            ∙ main_loop-interrupt w draws page m0 (record m3 { cancel = true })
                (message (post (codes "/stream/create") [])
                  ∷ message (post (path id (codes "/append")) body)
                  ∷ message (post (path id (codes "/advance")) [])
                  ∷ [])
                [] polls open_
                (poll_message w draws page m0 (post (codes "/stream/create") []) a1 out1 _
                    (ap (serve w draws page (post (codes "/stream/create") [])) app_eq ∙ run1)
                  ∙ poll_message w draws page m1 (post (path id (codes "/append")) body) a2 out2 _
                      run2
                  ∙ poll_message w draws page m2 (post (path id (codes "/advance")) []) a3 out3 _
                      run3
                  ∙ poll_interrupt w draws page m3 open_),
        ap (λ r. ((r ++ out1 ∷ []) ++ out2 ∷ []) ++ out3 ∷ []) replies_eq,
        first,
        third,
        told,
        split,
        amount,
      )
