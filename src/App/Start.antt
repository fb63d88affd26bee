-- ===== src/App/Start.antt =====
-- http_audio_server/main.cpp, `main` from its start to its return: the checks for the two binaries,
-- the server, and the loop.
use http_audio_server.Common.{ℕ, Bool, true, false, Option, none, some, List, [], ◌∷◌, ◌++◌}
use http_audio_server.Common.Int.{ℤ}
use http_audio_server.Common.Text.{codes}
use http_audio_server.Logger.{Logger, Delivery, global_logger}
use http_audio_server.Logger.Front.{log_fatal_error}
use http_audio_server.Pipe.{Source}
use http_audio_server.Stream.Env.{World}
use http_audio_server.Server.Poll.{Opened, serving, exits_1, new_server}
use http_audio_server.Metadata.File.{is_success}
use http_audio_server.App.{App, Event, Main, Turn, exits, aborts, request_map, main_loop, start}

-- What the program meets: the runs of `Process::exec`, whether an address can be bound, the number
-- of the backend for `std::cout`, and the time.
pub record Surroundings : Type 0 where
  pub exec : List ℕ → List (List ℕ) → Option (ℤ × List ℕ × List ℕ)
  pub mg_bind : List ℕ → Bool
  pub console : ℕ
  pub now : ℕ

unfoldable pub not_found_message : List ℕ → List ℕ
not_found_message binary =
    binary
    ++ codes
        " binary not found. Please make sure a reasonably recent version of ffmpeg is installed."

module _ (w : World) (draws : ℕ → ℕ → ℕ) (page : Source) where
  abbrev pub with_log : Logger × List Delivery → Main w
  with_log (l, calls) = record (start w draws page) { logger = l; logged = calls }

  -- A fatal error, and `return 1`.
  unfoldable pub give_up : Surroundings → List ℕ → Turn w
  unfolding not_found_message start
  give_up env binary = exits 1 (
      with_log (
        log_fatal_error (global_logger env.console (Main.logger (start w draws page))) env.now
          (codes "main") (not_found_message binary)))

  -- A binary is found if it exits with 0 for `-version`.
  abbrev pub then_if_found : Surroundings → List ℕ → Option (ℤ × List ℕ × List ℕ) → Turn w → Turn w
  then_if_found env binary none next = aborts
  then_if_found env binary (some (status, out, err)) next = elim (is_success status) [
    | true ↦ next
    | false ↦ give_up env binary
  ]

  -- The loop, if the server could be made. Its request map is the one that `poll` uses.
  abbrev pub serve_from : Opened (App w) × (Logger × List Delivery) → List (List Event) → Turn w
  serve_from (serving server, log) polls = main_loop w draws page (with_log log) polls
  serve_from (exits_1, log) polls = exits 1 (with_log log)

  unfoldable pub main : Surroundings → List (List Event) → Turn w
  unfolding main_loop start give_up new_server
  main env polls =
      then_if_found env (codes "ffmpeg") (env.exec (codes "ffmpeg") (codes "-version" ∷ [])) (
        then_if_found env (codes "ffprobe") (env.exec (codes "ffprobe") (codes "-version" ∷ [])) (
          serve_from
            (new_server env.mg_bind (request_map w draws page) (codes "0.0.0.0") 4851
              (global_logger env.console (Main.logger (start w draws page))) env.now)
            polls))
