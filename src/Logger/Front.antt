-- ===== src/Logger/Front.antt =====
-- http_audio_server/logger.cpp, the classes `Logger`, `LogStreamBackend` and `LogFileBackend`
-- around their implementations. A message has the time at which it is logged.
pub mod Text
use http_audio_server.Common.{
  ℕ, Bool, true, false, Option, none, some, List, [], ◌∷◌, ◌++◌, ◌==◌, if◌then◌else◌,
}
use http_audio_server.Common.Text.{codes}
use http_audio_server.Terminal.{Terminal}
use http_audio_server.StringUtils.{random_alphanum_string}
use http_audio_server.Logger.{
  LogSeverity, debug, info, warning, error, fatal_error, Message, Delivery, Logger, new_logger,
  add_backend, log,
}
use http_audio_server.Logger.Line.{stream_log}

-- `Logger(backend, lvl)`
unfoldable pub logger_with : ℕ → LogSeverity → Logger
unfolding new_logger add_backend
logger_with backend lvl = (add_backend new_logger backend lvl).0

-- `LoggerImpl::log(lvl, module, message)`, at the time `now`.
unfoldable pub log_now : LogSeverity → Logger → ℕ → List ℕ → List ℕ → Logger × List Delivery
unfolding log
log_now lvl l now module_name message =
    log l (record { lvl = lvl; time = now; module_name = module_name; message = message })

unfoldable pub log_debug : Logger → ℕ → List ℕ → List ℕ → Logger × List Delivery
unfolding log_now
log_debug = log_now debug

unfoldable pub log_info : Logger → ℕ → List ℕ → List ℕ → Logger × List Delivery
unfolding log_now
log_info = log_now info

unfoldable pub log_warn : Logger → ℕ → List ℕ → List ℕ → Logger × List Delivery
unfolding log_now
log_warn = log_now warning

unfoldable pub log_error : Logger → ℕ → List ℕ → List ℕ → Logger × List Delivery
unfolding log_now
log_error = log_now error

unfoldable pub log_fatal_error : Logger → ℕ → List ℕ → List ℕ → Logger × List Delivery
unfolding log_now
log_fatal_error = log_now fatal_error

-- A backend on an output stream, which holds this text.
pub record LogStreamBackend : Type 0 where
  pub terminal : Terminal
  pub text : List ℕ

-- `LogStreamBackend(os, use_color)`
unfoldable pub new_stream_backend : List ℕ → Bool → LogStreamBackend
new_stream_backend os use_color = record { terminal = record { use_color = use_color }; text = os }

unfoldable pub backend_log : (ℕ → List ℕ) → LogStreamBackend → Message → LogStreamBackend
unfolding stream_log
backend_log time_str b m = record b { text = b.text ++ stream_log time_str b.terminal m }

-- The calls on the backend of this number.
unfoldable pub receive : (ℕ → List ℕ) → ℕ → LogStreamBackend → List Delivery → LogStreamBackend
receive time_str r b [] = b
receive time_str r b (d ∷ ds) =
    let called = receive time_str r (backend_log time_str b d.content) ds in
    let passed = receive time_str r b ds in if d.target == r then called else passed

-- What `mkdir` gives: 0, -1 with `EEXIST`, or -1 with another error.
pub data Mkdir : Type 0 where
  created existed failed : Mkdir

abbrev pub file_name : List ℕ → List ℕ → Option (List ℕ) → Option (List ℕ)
file_name prefix time_str none = none
file_name prefix time_str (some random) = some (
    codes "logs"
    ++ (codes "/"
        ++ (prefix ++ (codes "_" ++ (time_str ++ (codes "_" ++ (random ++ codes ".log")))))))

-- `make_log_filename`, at a time with the text `time_str`; `none` is an exception, or an access out
-- of bounds.
unfoldable pub make_log_filename : Mkdir → (ℕ → ℕ) → List ℕ → List ℕ → Option (List ℕ)
make_log_filename failed draw prefix time_str = none
make_log_filename created draw prefix time_str =
    file_name prefix time_str (random_alphanum_string draw 4)
make_log_filename existed draw prefix time_str =
    file_name prefix time_str (random_alphanum_string draw 4)

-- A backend without colours on a file of its own.
pub record LogFileBackend : Type 0 where
  pub filename : List ℕ
  pub backend : LogStreamBackend

unfoldable pub new_file_backend : Mkdir → (ℕ → ℕ) → List ℕ → List ℕ → Option LogFileBackend
unfolding make_log_filename new_stream_backend
new_file_backend made draw prefix time_str = elim (make_log_filename made draw prefix time_str) [
  | none ↦ none
  | some name ↦ some (record { filename = name; backend = new_stream_backend [] false })
]
