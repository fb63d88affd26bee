-- ===== src/App/Tests/Clients.antt =====
-- The clients of the program at concrete requests.
use http_audio_server.Common.{ℕ, ◌≡◌, ◌*◌, min, refl, ap, drop, some, List, [], ◌∷◌, length, arith}
use http_audio_server.Common.Text.{codes}
use http_audio_server.Common.Words.{same_text}
use http_audio_server.Stream.Loop.{contents}
use http_audio_server.Stream.Listen.{Listens, outputs}
use http_audio_server.Stream.Tests.{demo, one_file, one_file-IsReady}
use http_audio_server.Server.{HttpMessage}
use http_audio_server.Server.Poll.{poll_server}
use http_audio_server.Server.Keeps.{Holds}
use http_audio_server.Handlers.{find}
use http_audio_server.App.{App}
use http_audio_server.App.Requests.{post}
use http_audio_server.App.Client.{five_seconds, listen, listen-Listens}
use http_audio_server.App.Isolation.{Spares, main_server, poll_spared}
use http_audio_server.App.Tests.{draws, page, x_app, x-IsId}

listen-Listens_example :
    (l : Listens demo one_file (five_seconds 3)) × (a' : App demo) × (listen demo draws page
        (codes "x")
        3
        x_app
      ≡ some (a', outputs demo l.rounds))
    × (find demo a'.streams (codes "x") ≡ some l.last)
    × (length l.taken ≡ min (3 * 1920000) (length (contents demo one_file.decoders)))
unfolding find same_text
listen-Listens_example =
    listen-Listens demo draws page (codes "x") 2 x_app one_file x-IsId refl one_file-IsReady

abbrev first : List ℕ → ℕ
first [] = 0
first (c ∷ cs) = c

-- An action on a stream whose id begins in the same way.
xy-Spares : Spares demo draws page (post (codes "/stream/xy/destroy") []) (codes "x")
xy-Spares = (
  λ e. absurd (omega (arith, ap (λ t. first (drop 9 t)) e)),
  λ e. absurd (omega (arith, ap (λ t. first (drop 9 t)) e)),
  λ e. absurd (omega (arith, ap (λ t. first (drop 9 t)) e)),
)

-- A new stream, and the end of another one.
abbrev others : List HttpMessage
others = post (codes "/stream/create") [] ∷ post (codes "/stream/xy/destroy") [] ∷ []

create-Spares : Spares demo draws page (post (codes "/stream/create") []) (codes "x")
create-Spares = (
  λ e. absurd (omega (arith, ap (λ t. first (drop 8 t)) e)),
  λ e. absurd (omega (arith, ap (λ t. first (drop 8 t)) e)),
  λ e. absurd (omega (arith, ap (λ t. first (drop 8 t)) e)),
)

poll_spared_example :
    Holds
      (λ r. find demo r.0.streams (codes "x") ≡ some one_file)
      (poll_server demo.lib (main_server demo draws page []) x_app others)
unfolding find same_text
poll_spared_example =
    poll_spared demo draws page [] (codes "x") one_file others x_app
      (create-Spares, (xy-Spares, tt)) refl
