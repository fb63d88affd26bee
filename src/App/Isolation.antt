-- ===== src/App/Isolation.antt =====
-- A request on one stream does not reach another.
use http_audio_server.Common.{
  ℕ, ◌≡◌, ◌≢◌, sym, ap, ◌∙◌, false, Option, none, some, List, All, [], ◌∷◌,
}
use http_audio_server.Response.{Call}
use http_audio_server.Common.Text.{codes}
use http_audio_server.Common.Words.{same_text, same_text-ne}
use http_audio_server.Pipe.{Source}
use http_audio_server.Stream.{Stream}
use http_audio_server.Stream.Env.{World}
use http_audio_server.Server.{HttpMessage}
use http_audio_server.Server.Poll.{HttpServer, with_later, poll_server}
use http_audio_server.Server.Keeps.{Holds}
use http_audio_server.Handlers.{find}
use http_audio_server.Handlers.Map.{find-store_other, find-erase_other, find-emplace_kept}
use http_audio_server.Routes.{matches_stream}
use http_audio_server.Routes.Paths.{path, matches_stream→path}
use http_audio_server.App.{App, group, request_map, serve}
use http_audio_server.App.Kept.{serve-Holds}

module _ (w : World) (draws : ℕ → ℕ → ℕ) (page : Source) where
  -- The address of the request is not that of an action on this stream.
  abbrev pub Spares : HttpMessage → List ℕ → Type 0
  Spares hm id =
      (hm.uri ≢ path id (codes "/append"))
      × (hm.uri ≢ path id (codes "/advance"))
      × (hm.uri ≢ path id (codes "/destroy"))

  -- The server that `main` makes for an address.
  abbrev pub main_server : List ℕ → HttpServer (App w)
  main_server addr = record { request_map = request_map w draws page; addr = addr }

  module _ (hm : HttpMessage) (id : List ℕ) (st : Stream w) (spared : Spares hm id) where
    apart :
        (suffix : List ℕ)
        → hm.uri ≢ path id suffix
        → (sm : List (List ℕ)) → matches_stream suffix hm.uri ≡ some sm
        → same_text (group w draws page sm) id ≡ false
    apart suffix differs sm e =
        let (named, groups, uri, _, _) = matches_stream→path suffix hm.uri sm e in
        same_text-ne (group w draws page sm) id (λ same.
          differs (uri ∙ ap (λ i. path i suffix) (sym (ap (group w draws page) groups) ∙ same)))

    -- A request that comes to an end.
    pub serve_spared :
        (a : App w)
        → find w a.streams id ≡ some st
        → Holds (λ r. find w r.0.streams id ≡ some st) (serve w draws page hm a)
    serve_spared =
        serve-Holds w draws page (λ streams. find w streams id ≡ some st) hm
          (λ streams other st' h. find-emplace_kept w streams other id st' st h)
          (λ sm e streams st' h.
            find-store_other w streams (group w draws page sm) id st'
              (apart (codes "/append") spared.0 sm e)
            ∙ h)
          (λ sm e streams st' h.
            find-store_other w streams (group w draws page sm) id st'
              (apart (codes "/advance") spared.1 sm e)
            ∙ h)
          (λ sm e streams h.
            find-erase_other w streams (group w draws page sm) id
              (apart (codes "/destroy") spared.2 sm e)
            ∙ h)

  abbrev Found : List ℕ → Stream w → App w → Type 0
  Found id st a = find w a.streams id ≡ some st

  abbrev FoundAfter : List ℕ → Stream w → App w × List (List Call) → Type 0
  FoundAfter id st r = Found id st r.0

  abbrev FoundThen : List ℕ → Stream w → App w × List Call → Type 0
  FoundThen id st r = Found id st r.0

  later_spared :
      (id : List ℕ) (st : Stream w) (calls : List Call) (o : Option (App w × List (List Call)))
      → Holds (FoundAfter id st) o
      → Holds
          (FoundAfter id st)
          (elim o [ none ↦ none | some (a, later) ↦ some (a, calls ∷ later) ])
  later_spared id st calls none h = tt
  later_spared id st calls (some r) h = h

  with_later_spared :
      (id : List ℕ) (st : Stream w) (o : Option (App w × List Call))
      (next : App w → Option (App w × List (List Call)))
      → Holds (FoundThen id st) o
      → ((a : App w) → Found id st a → Holds (FoundAfter id st) (next a))
      → Holds (FoundAfter id st) (with_later o next)
  with_later_spared id st none next h k = tt
  with_later_spared id st (some (a, calls)) next h k = later_spared id st calls (next a) (k a h)

  -- A stream is as it was behind any sequence of requests that comes to an end, if no request has
  -- one of the three addresses of an action on this stream: whatever they do to other streams, whether they are
  -- answered or refused, and whether or not a handler throws.
  pub poll_spared :
      (addr id : List ℕ) (st : Stream w) (messages : List HttpMessage) (a : App w)
      → All (λ hm. Spares hm id) messages
      → find w a.streams id ≡ some st
      → Holds
          (λ r. find w r.0.streams id ≡ some st)
          (poll_server (World.lib w) (main_server addr) a messages)
  unfolding poll_server serve
  poll_spared addr id st [] a spared h = h
  poll_spared addr id st (hm ∷ messages) a (s, spared) h =
      with_later_spared id st (serve w draws page hm a)
        (λ a'. poll_server (World.lib w) (main_server addr) a' messages)
        (serve_spared hm id st s a h) (λ a' h'. poll_spared addr id st messages a' spared h')
