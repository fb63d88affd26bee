-- ===== src/App.antt =====
-- http_audio_server/main.cpp, `main`: the request map over the handlers, the loop of polls, and the
-- signal that ends it. The checks at the start are in App/Start.
pub mod Cancel
pub mod Start
pub mod Refusals
pub mod Requests
pub mod Changes
pub mod Creation
pub mod Session
pub mod Client
pub mod Program
pub mod Run
pub mod Kept
pub mod Isolation
mod Tests
use http_audio_server.Common.{
  ℕ, suc, ◌+◌, Bool, true, false, Option, none, some, List, [], ◌∷◌, ◌++◌,
}
use http_audio_server.Common.Int.{ℤ}
use http_audio_server.Common.Text.{codes}
use http_audio_server.Response.{Call, Response, Result, ok, thrown}
use http_audio_server.Logger.{Logger, Delivery, new_logger}
use http_audio_server.Pipe.{Source}
use http_audio_server.Stream.Env.{World}
use http_audio_server.Server.{Request, RequestMapEntry, HttpMessage, event_handler}
use http_audio_server.Handlers.{
  Streams, Handled, handle_index, handle_stream_create, handle_stream_append, handle_stream_advance,
  handle_stream_destroy,
}
use http_audio_server.Metadata.File.{is_success}
use http_audio_server.Routes.{matches_index, matches_create, matches_stream}

-- What `main` shares with its handlers: the streams, and how many names were drawn.
pub record App (w : World) : Type 0 where
  pub streams : Streams w
  pub drawn : ℕ

-- What a poll meets: SIGINT, or a request on a connection of its own.
pub data Event : Type 0 where
  interrupt : Event
  message : HttpMessage → Event

-- `replies` are the calls on the connections, `logger` is the global logger, and `logged` the calls
-- on its backends.
pub record Main (w : World) : Type 0 where
  pub cancel : Bool
  pub app : App w
  pub replies : List (List Call)
  pub logger : Logger
  pub logged : List Delivery

-- The program goes on, ends with an exit code, ends with an uncaught exception, or the model has no
-- result.
pub data Turn (w : World) : Type 0 where
  goes_on : Main w → Turn w
  exits : ℕ → Main w → Turn w
  aborts stuck : Turn w

-- `signal_handler`, where `none` is `exit(1)`.
unfoldable pub signal_handler : Bool → Option Bool
signal_handler true = none
signal_handler false = some true

-- `draws n` is the n-th random engine, and `page` the file ../static/index.html.
module _ (w : World) (draws : ℕ → ℕ → ℕ) (page : Source) where
  abbrev pub Answer : Type 0
  Answer = Option (App w × Response × Option (Unit {0}))

  abbrev pub with_streams : App w → Option (Handled w) → Answer
  with_streams a none = none
  with_streams a (some (streams, res, r)) = some (record a { streams = streams }, res, r)

  abbrev pub of_result : App w → Result (Unit {0}) × Response → Answer
  of_result a (ok _, res) = some (a, res, some tt)
  of_result a (thrown e, res) = some (a, res, none)

  -- `req.matcher[1]`; a group that is not there is empty.
  abbrev pub group : List (List ℕ) → List ℕ
  group (_ ∷ id ∷ _) = id
  group _ = []

  unfoldable pub index_entry : RequestMapEntry (App w)
  index_entry = record {
    method = codes "GET";
    matches = matches_index;
    handler = λ req a res. of_result a (handle_index page res);
  }

  unfoldable pub create_entry : RequestMapEntry (App w)
  create_entry = record {
    method = codes "POST";
    matches = matches_create;
    handler = λ req a res.
        with_streams (record a { drawn = suc a.drawn })
          (handle_stream_create w (draws a.drawn) a.streams res);
  }

  unfoldable pub append_entry : RequestMapEntry (App w)
  append_entry = record {
    method = codes "POST";
    matches = matches_stream (codes "/append");
    handler = λ req a res.
        with_streams a (some (handle_stream_append w (group req.matcher) req.body a.streams res));
  }

  unfoldable pub advance_entry : RequestMapEntry (App w)
  advance_entry = record {
    method = codes "POST";
    matches = matches_stream (codes "/advance");
    handler =
        λ req a res. with_streams a (handle_stream_advance w (group req.matcher) a.streams res);
  }

  unfoldable pub destroy_entry : RequestMapEntry (App w)
  destroy_entry = record {
    method = codes "POST";
    matches = matches_stream (codes "/destroy");
    handler = λ req a res.
        with_streams a (some (handle_stream_destroy w (group req.matcher) a.streams res));
  }

  unfoldable pub request_map : List (RequestMapEntry (App w))
  request_map = index_entry ∷ create_entry ∷ append_entry ∷ advance_entry ∷ destroy_entry ∷ []

  unfoldable pub serve : HttpMessage → App w → Option (App w × List Call)
  serve hm a = event_handler (World.lib w) request_map hm a []

  abbrev pub interrupted : Main w → Option Bool → Turn w
  interrupted m none = exits 1 m
  interrupted m (some cancel) = goes_on (record m { cancel = cancel })

  abbrev pub replied : Main w → Option (App w × List Call) → Turn w
  replied m none = stuck
  replied m (some (a, calls)) = goes_on (record m { app = a; replies = m.replies ++ calls ∷ [] })

  unfoldable pub handle_event : Main w → Event → Turn w
  unfolding signal_handler serve
  handle_event m interrupt = interrupted m (signal_handler m.cancel)
  handle_event m (message hm) = replied m (serve hm m.app)

  -- `server.poll(1000)`, with all that happens before it returns.
  unfoldable pub poll : Main w → List Event → Turn w
  unfolding handle_event
  poll m [] = goes_on m
  poll m (e ∷ events) = elim (handle_event m e) [
    | goes_on m' ↦ poll m' events
    | exits code m' ↦ exits code m'
    | aborts ↦ aborts
    | stuck ↦ stuck
  ]

  -- `while (!cancel)`, for the polls that are still to come.
  unfoldable pub main_loop : Main w → List (List Event) → Turn w
  main_loop m [] = elim m.cancel [ true ↦ exits 0 m | false ↦ goes_on m ]
  main_loop m (events ∷ polls) = elim m.cancel [
    | true ↦ exits 0 m
    | false ↦ elim (poll m events) [
      | goes_on m' ↦ main_loop m' polls
      | exits code m' ↦ exits code m'
      | aborts ↦ aborts
      | stuck ↦ stuck
    ]
  ]

  unfoldable pub start : Main w
  start = record {
    cancel = false;
    app = record { streams = []; drawn = 0 };
    replies = [];
    logger = new_logger;
    logged = [];
  }
