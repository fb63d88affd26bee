-- ===== src/App/Refusals.antt =====
-- A program that does not come to serve.
use http_audio_server.Common.{
  ℕ, ◌≡◌, refl, sym, ap, ◌∙◌, ◌&&◌, Bool-cases, inl, inr, Bool, true, false, some, List, [], ◌∷◌,
  if◌then◌else◌, ◌++◌,
}
use http_audio_server.Common.Int.{ℤ}
use http_audio_server.Common.Text.{codes}
use http_audio_server.Logger.{
  fatal_error, Delivery, global_logger, add_backend, new_logger, deliver, log,
}
use http_audio_server.Logger.Front.{log_now, log_fatal_error}
use http_audio_server.Pipe.{Source}
use http_audio_server.Stream.Env.{World}
use http_audio_server.Server.Poll.{new_server}
use http_audio_server.Metadata.File.{is_success}
use http_audio_server.App.{Event, Main, Turn, exits, request_map, start}
use http_audio_server.App.Start.{
  Surroundings, not_found_message, give_up, then_if_found, serve_from, main,
}

module _ (w : World) (draws : ℕ → ℕ → ℕ) (page : Source) where
  -- A fatal error that the console shows.
  abbrev pub fatal : Surroundings → List ℕ → List ℕ → Delivery
  fatal env name text = record {
    target = env.console;
    content = record { lvl = fatal_error; time = env.now; module_name = name; message = text };
  }

  give_up_lem :
      (env : Surroundings) (binary : List ℕ)
      → (m : Main w) × (give_up w draws page env binary ≡ exits 1 m)
        × (m.app ≡ (start w draws page).app)
        × (m.replies ≡ [])
        × (m.logged
            ≡ fatal env (codes "main") (
                binary
                ++ codes
                    " binary not found. Please make sure a reasonably recent version of ffmpeg is installed.")
              ∷ [])
  unfolding give_up not_found_message start global_logger add_backend new_logger log_fatal_error
      log_now log deliver
  give_up_lem env binary = (_, refl, refl, refl, refl)

  -- Without `ffmpeg`, or with it and without `ffprobe`, `main` serves nothing and returns 1, and the
  -- console gets one fatal error, which names the first binary that is missing.
  pub main_unfound :
      (env : Surroundings) (polls : List (List Event)) (status status' : ℤ)
      (out err out' err' : List ℕ)
      → env.exec (codes "ffmpeg") (codes "-version" ∷ []) ≡ some (status, out, err)
      → env.exec (codes "ffprobe") (codes "-version" ∷ []) ≡ some (status', out', err')
      → (is_success status && is_success status') ≡ false
      → (m : Main w) × (main w draws page env polls ≡ exits 1 m)
        × (m.app ≡ (start w draws page).app)
        × (m.replies ≡ [])
        × (m.logged
            ≡ fatal env (codes "main") (
                (if is_success status then codes "ffprobe" else codes "ffmpeg")
                ++ codes
                    " binary not found. Please make sure a reasonably recent version of ffmpeg is installed.")
              ∷ [])
  unfolding main
  main_unfound env polls status status' out err out' err' e f h =
      let loop : Turn w =
        serve_from w draws page
          (new_server env.mg_bind (request_map w draws page) (codes "0.0.0.0") 4851
            (global_logger env.console (Main.logger (start w draws page))) env.now)
          polls in
      let probe : Turn w =
        then_if_found w draws page env (codes "ffprobe")
          (env.exec (codes "ffprobe") (codes "-version" ∷ [])) loop in
      let binary : List ℕ = if is_success status then codes "ffprobe" else codes "ffmpeg" in
      let (m, run, same, replies, logged) = give_up_lem env binary in
      (
        m,
        ap (λ o. then_if_found w draws page env (codes "ffmpeg") o probe) e
            ∙ elim (Bool-cases (is_success status)) [
              | inl y ↦
                  ap (check probe (codes "ffmpeg")) y
                  ∙ ap (λ o. then_if_found w draws page env (codes "ffprobe") o loop) f
                  ∙ ap (check loop (codes "ffprobe"))
                      (sym (ap (λ b. b && is_success status') y) ∙ h)
                  ∙ ap
                      (λ b.
                        give_up w draws page env (if b then codes "ffprobe" else codes "ffmpeg"))
                      (sym y)
              | inr n ↦
                  ap (check probe (codes "ffmpeg")) n
                  ∙ ap
                      (λ b.
                        give_up w draws page env (if b then codes "ffprobe" else codes "ffmpeg"))
                      (sym n)
            ]
            ∙ run,
        same,
        replies,
        logged,
      )
    where
      check : Turn w → List ℕ → Bool → Turn w
      check next binary b = elim b [ true ↦ next | false ↦ give_up w draws page env binary ]
