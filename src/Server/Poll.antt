-- ===== src/Server/Poll.antt =====
-- http_audio_server/server.cpp, the classes `HTTPServerImpl` and `HTTPServer` around
-- `event_handler`: the address that is bound, and the requests of a poll.
pub mod Bound
use http_audio_server.Common.{
  ℕ, Bool, true, false, Option, none, some, List, [], ◌∷◌, ◌++◌, if◌then◌else◌,
}
use http_audio_server.Common.Text.{codes}
use http_audio_server.Common.Decimal.{show_nat}
use http_audio_server.Json.{JsonLib}
use http_audio_server.Response.{Call}
use http_audio_server.Logger.{Logger, Delivery}
use http_audio_server.Logger.Front.{log_info, log_fatal_error}
use http_audio_server.Server.{RequestMapEntry, HttpMessage, event_handler}

-- `parse_query`: its result is always empty.
unfoldable pub parse_query : List ℕ → List (List ℕ × List ℕ)
parse_query query = []

pub record HttpServer (S : Type 0) : Type 0 where
  pub request_map : List (RequestMapEntry S)
  pub addr : List ℕ

-- The object, or `exit(1)`.
pub data Opened (S : Type 0) : Type 0 where
  serving : HttpServer S → Opened S
  exits_1 : Opened S

abbrev pub address : List ℕ → ℕ → List ℕ
address host port = host ++ (codes ":" ++ show_nat port)

-- `HTTPServerImpl(request_map, host, port)`, where `mg_bind` tells whether `mg_bind` gives a
-- connection; `l` is the global logger, and the calls are those on its backends.
unfoldable pub new_server :
    {S : Type 0}
    → (List ℕ → Bool)
    → List (RequestMapEntry S)
    → List ℕ
    → ℕ
    → Logger
    → ℕ
    → Opened S × (Logger × List Delivery)
unfolding log_info log_fatal_error
new_server mg_bind request_map host port l now =
    if mg_bind (address host port)
    then (
      serving (record { request_map = request_map; addr = address host port }),
      log_info l now (codes "server")
          (codes "Serving HTTP at " ++ (address host port ++ codes ", press CTRL+C to exit")),
    )
    else (
      exits_1,
      log_fatal_error l now (codes "server") (codes "Error, cannot bind to " ++ address host port),
    )

abbrev pub with_later :
    {S : Type 0}
    → Option (S × List Call)
    → (S → Option (S × List (List Call)))
    → Option (S × List (List Call))
with_later none next = none
with_later (some (s, calls)) next = elim (next s) [
  | none ↦ none
  | some (s', later) ↦ some (s', calls ∷ later)
]

-- `poll`: `mg_mgr_poll` calls `event_handler` for each message, on a connection of its own.
unfoldable pub poll_server :
    {S : Type 0} → JsonLib → HttpServer S → S → List HttpMessage → Option (S × List (List Call))
unfolding event_handler
poll_server lib server s [] = some (s, [])
poll_server lib server s (hm ∷ messages) =
    with_later (event_handler lib server.request_map hm s [])
      (λ s'. poll_server lib server s' messages)
