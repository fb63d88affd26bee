-- ===== src/App/Client.antt =====
-- A client that listens to a stream.
use mathlib.Core.Option.{some-injective}
use http_audio_server.Common.{
  ℕ, zero, suc, ◌*◌, ◌^◌, ◌<◌, min, ◌≡◌, refl, sym, ap, ◌∙◌, Option, some, none, List, [], ◌∷◌,
  length, All, arith, replicate,
}
use http_audio_server.Common.Text.{codes}
use http_audio_server.Response.{Call}
use http_audio_server.Response.Wire.{received, received-Ends}
use http_audio_server.Pipe.{Source}
use http_audio_server.Stream.{Stream}
use http_audio_server.Stream.Env.{World}
use http_audio_server.Stream.Loop.{contents, IsReady}
use http_audio_server.Stream.Listen.{total, calls, calls-cons→, outputs, Listens}
use http_audio_server.Stream.Listen.Whole.{advance-Listens}
use http_audio_server.Handlers.{find, store}
use http_audio_server.Handlers.Map.{find-store}
use http_audio_server.Routes.Paths.{path}
use http_audio_server.App.{App, serve}
use http_audio_server.App.Requests.{IsId, post, serve_advanced}

-- So many calls of `advance` as the handler makes.
abbrev pub five_seconds : ℕ → List ℕ
five_seconds n = replicate n 240000

total-five_seconds : (n : ℕ) → total (five_seconds n) ≡ n * 240000
unfolding total
total-five_seconds zero = refl
total-five_seconds (suc n) = omega (arith, total-five_seconds n)

fits : (n : ℕ) → All (λ k. k * 8 < 2 ^ 64) (five_seconds n)
fits zero = tt
fits (suc n) = (omega arith, fits n)

module _ (w : World) (draws : ℕ → ℕ → ℕ) (page : Source) (id : List ℕ) where
  abbrev Heard : Type 0
  Heard = Option (App w × List (List ℕ))

  abbrev and_reply : List Call → Heard → Heard
  and_reply reply none = none
  and_reply reply (some (a, bodies)) = some (a, received reply ∷ bodies)

  -- The client asks so often for the next five seconds, and reads the bodies of the replies.
  unfoldable pub listen : ℕ → App w → Heard
  unfolding serve received
  listen zero a = some (a, [])
  listen (suc n) a = elim (serve w draws page (post (path id (codes "/advance")) []) a) [
    | none ↦ none
    | some (a', reply) ↦ and_reply reply (listen n a')
  ]

  listen_next :
      (n : ℕ) (a a' a'' : App w) (reply : List Call) (bodies : List (List ℕ))
      → serve w draws page (post (path id (codes "/advance")) []) a ≡ some (a', reply)
      → listen n a' ≡ some (a'', bodies)
      → listen (suc n) a ≡ some (a'', received reply ∷ bodies)
  unfolding listen
  listen_next n a a' a'' reply bodies e f = rw (e, f, listen)

  -- The client reads what the calls of `advance` write.
  listen-calls :
      (n : ℕ) (a : App w) (st last : Stream w) (outs : List (List ℕ))
      → IsId id
      → find w a.streams id ≡ some st
      → calls w st (five_seconds n) ≡ some (last, outs)
      → (a' : App w) × (listen n a ≡ some (a', outs)) × (find w a'.streams id ≡ some last)
  unfolding listen calls
  listen-calls zero a st last outs v h run =
      let e = some-injective _ _ run in
      (
        a,
        ap (λ (p : Stream w × List (List ℕ)). some (a, p.1)) e,
        h ∙ ap (λ (p : Stream w × List (List ℕ)). some p.0) e,
      )
  listen-calls (suc n) a st last outs v h run =
      let (st', bytes, outs', first, later, e) =
        calls-cons→ w st last 240000 (five_seconds n) outs run in
      let (reply, served, ends) = serve_advanced w draws page a id [] st st' bytes v h first in
      let (a', rest, found) =
        listen-calls n (record a { streams = store w a.streams id st' }) st' last outs' v
          (find-store w a.streams id st' st h) later in
      (
        a',
        listen_next n a (record a { streams = store w a.streams id st' }) a' reply outs' served rest
            ∙ ap (λ bodies. some (a', bodies))
                (ap (λ b. b ∷ outs')
                    (received-Ends 200 (codes "Content-Type: audio/webm") bytes 0 reply ends)
                  ∙ sym e),
        found,
      )

  -- A client asks once or more for five seconds of a stream that is ready: every request is
  -- answered, and the bodies that the client reads are the outputs of calls of `advance` that play
  -- the playlist as one, five seconds for each request, or all that is left of it.
  pub listen-Listens :
      (n : ℕ) (a : App w) (st : Stream w)
      → IsId id
      → find w a.streams id ≡ some st
      → IsReady w st
      → (l : Listens w st (five_seconds (suc n))) × (a' : App w) × (listen (suc n) a
          ≡ some (a', outputs w l.rounds))
        × (find w a'.streams id ≡ some l.last)
        × (length l.taken ≡ min (suc n * 1920000) (length (contents w st.decoders)))
  listen-Listens n a st v h ready =
      let l = advance-Listens w st 240000 (five_seconds n) ready (omega arith, fits n) in
      let (a', heard, found) = listen-calls (suc n) a st l.last (outputs w l.rounds) v h l.run in
      (l, a', heard, found, omega (arith, l.amount, total-five_seconds (suc n)))
