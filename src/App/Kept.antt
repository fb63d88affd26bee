-- ===== src/App/Kept.antt =====
-- What the handlers keep of the streams, a whole request keeps.
use http_audio_server.Common.{ℕ, suc, ◌≡◌, Option, none, some, List, []}
use http_audio_server.Common.Text.{codes}
use http_audio_server.Response.{Response, Result, ok, thrown}
use http_audio_server.Pipe.{Source}
use http_audio_server.Stream.Env.{World}
use http_audio_server.Server.{HttpMessage}
use http_audio_server.Server.Keeps.{Holds, Keeps, event_handler-Good}
use http_audio_server.Handlers.{Streams, Handled, handle_index, handle_stream_create}
use http_audio_server.Handlers.Kept.{
  Left, Adds, Stores, Erases, create-Left, append-Left, advance-Left, destroy-Left,
}
use http_audio_server.Routes.{matches_stream}
use http_audio_server.App.{
  App, of_result, with_streams, group, index_entry, create_entry, append_entry, advance_entry,
  destroy_entry, request_map, serve,
}

module _ (w : World) (draws : ℕ → ℕ → ℕ) (page : Source) (Q : Streams w → Type 0)
    (hm : HttpMessage) where
  abbrev P : App w → Type 0
  P a = Q a.streams

  -- A change of the entry that the address of an action names.
  abbrev pub Named : List ℕ → (List ℕ → Type 0) → Type 0
  Named suffix Law =
      (sm : List (List ℕ)) → matches_stream suffix hm.uri ≡ some sm → Law (group w draws page sm)

  with_streams-Holds :
      (a : App w) (o : Option (Handled w))
      → Holds (Left w Q) o
      → Holds (λ h. P h.0) (with_streams w draws page a o)
  with_streams-Holds a none h = tt
  with_streams-Holds a (some (streams, res, r)) h = h

  of_result-Holds :
      (a : App w) (r : Result (Unit {0}) × Response)
      → P a
      → Holds (λ h. P h.0) (of_result w draws page a r)
  of_result-Holds a (ok _, res) h = h
  of_result-Holds a (thrown e, res) h = h

  index-Keeps : Keeps (World.lib w) P hm (index_entry w draws page)
  unfolding index_entry
  index-Keeps sm a res e h = of_result-Holds a (handle_index page res) h

  create-Keeps : Adds w Q → Keeps (World.lib w) P hm (create_entry w draws page)
  unfolding create_entry
  create-Keeps law sm a res e h =
      with_streams-Holds (record a { drawn = suc a.drawn })
        (handle_stream_create w (draws a.drawn) a.streams res)
        (create-Left w Q (draws a.drawn) a.streams res law h)

  append-Keeps :
      Named (codes "/append") (Stores w Q) → Keeps (World.lib w) P hm (append_entry w draws page)
  unfolding append_entry
  append-Keeps law sm a res e h =
      append-Left w Q a.streams (group w draws page sm) hm.body res (law sm e) h

  advance-Keeps :
      Named (codes "/advance") (Stores w Q) → Keeps (World.lib w) P hm (advance_entry w draws page)
  unfolding advance_entry
  advance-Keeps law sm a res e h =
      with_streams-Holds a _ (advance-Left w Q a.streams (group w draws page sm) res (law sm e) h)

  destroy-Keeps :
      Named (codes "/destroy") (Erases w Q) → Keeps (World.lib w) P hm (destroy_entry w draws page)
  unfolding destroy_entry
  destroy-Keeps law sm a res e h =
      destroy-Left w Q a.streams (group w draws page sm) res (law sm e) h

  pub serve-Holds :
      Adds w Q
      → Named (codes "/append") (Stores w Q)
      → Named (codes "/advance") (Stores w Q)
      → Named (codes "/destroy") (Erases w Q)
      → (a : App w) → Q a.streams
      → Holds (λ r. Q r.0.streams) (serve w draws page hm a)
  unfolding serve request_map
  serve-Holds adds stores played erases a h =
      event_handler-Good (World.lib w) P hm (request_map w draws page) a []
        (
          index-Keeps,
          (
            create-Keeps adds,
            (append-Keeps stores, (advance-Keeps played, (destroy-Keeps erases, tt))),
          ),
        )
        h
