-- ===== src/Logger/Class.antt =====
-- http_audio_server/logger.hpp, the classes `LogBackend` and `Logger` as their clients see them: the
-- methods, with what the comments say of them, and the implementation.
use http_audio_server.Common.{arith, ℕ, ◌+◌, ◌^◌, ◌%◌, ◌<◌, ◌≡◌, refl, Option, some, List, [], ◌∷◌}
use http_audio_server.Common.Int.{ℤ, negsuc}
use http_audio_server.Logger.{
  LogSeverity, Message, Delivery, Logger, new_logger, backend_count, add_backend, set_min_level,
  min_level, count, log, log_all,
}
use http_audio_server.Logger.Counts.{Sorted, at_least, bump-Sorted, count-total, count-log_all}
use http_audio_server.Logger.Backends.{min_level-add_backend}
use http_audio_server.Logger.Front.{
  LogStreamBackend, backend_log, logger_with, log_debug, log_info, log_warn, log_error,
  log_fatal_error,
}

-- A backend of a logger is an object of this class.
pub record LogBackend : Type 1 where
  pub T : Type 0
  pub log : T → Message → T

-- `LogStreamBackend` overrides `log`; `time_str` is what `strftime` makes of a time.
abbrev pub stream_backend : (ℕ → List ℕ) → LogBackend
stream_backend time_str = record { T = LogStreamBackend; log = backend_log time_str }

-- A logger calls the backends that a result lists. An exception is `none`. `IsValid` holds of
-- every logger that the methods can make.
pub record LoggerClass : Type 1 where
  pub T : Type 0
  pub create : T
  pub create_with : ℕ → LogSeverity → T
  pub backend_count : T → ℕ
  pub add_backend : T → ℕ → LogSeverity → T × ℤ
  pub set_min_level : T → LogSeverity → ℤ → Option T
  pub min_level : T → ℤ → Option LogSeverity
  pub count : T → LogSeverity → ℕ
  pub log : T → Message → T × List Delivery
  pub debug : T → ℕ → List ℕ → List ℕ → T × List Delivery
  pub info : T → ℕ → List ℕ → List ℕ → T × List Delivery
  pub warn : T → ℕ → List ℕ → List ℕ → T × List Delivery
  pub error : T → ℕ → List ℕ → List ℕ → T × List Delivery
  pub fatal_error : T → ℕ → List ℕ → List ℕ → T × List Delivery
  pub IsValid : T → Type 0
  pub create-IsValid : IsValid create
  pub log-IsValid : (l : T) (m : Message) → IsValid l → IsValid ((log l m).0)
  -- The default constructor adds no backend, the other one adds the given one.
  pub create_empty : backend_count create ≡ 0
  pub create_with_one :
      (backend : ℕ) (lvl : LogSeverity) → backend_count (create_with backend lvl) ≡ 1
  -- `add_backend` returns the index of the new backend, and -1 is the last one.
  pub added :
      (l : T) (backend : ℕ) (lvl : LogSeverity)
      → backend_count l + 1 < 2 ^ 31
      → let (l', i) = add_backend l backend lvl in
        (min_level l' i ≡ some lvl) × (min_level l' (negsuc 0) ≡ some lvl)
  -- `count` gives the number of messages with at least the level, below 2 ^ 64.
  pub counted :
      (l : T) (m : Message) (lvl : LogSeverity)
      → IsValid l
      → count ((log l m).0) lvl ≡ (count l lvl + at_least lvl (m ∷ [])) % 2 ^ 64
  pub count_fits : (l : T) (lvl : LogSeverity) → IsValid l → count l lvl < 2 ^ 64

log_counts :
    (l : Logger) (m : Message) (lvl : LogSeverity)
    → Sorted l.counts
    → count (log l m).0 lvl ≡ (count l lvl + at_least lvl (m ∷ [])) % 2 ^ 64
unfolding log_all
log_counts l m lvl h = count-log_all l (m ∷ []) lvl h

log-Sorted : (l : Logger) (m : Message) → Sorted l.counts → Sorted (log l m).0.counts
unfolding log
log-Sorted l m h = bump-Sorted l.counts m.lvl h

count_small : (l : Logger) (lvl : LogSeverity) → Sorted l.counts → count l lvl < 2 ^ 64
count_small l lvl h = omega (arith, count-total l lvl h)

new_logger-Sorted : Sorted new_logger.counts
unfolding Sorted new_logger
new_logger-Sorted = tt

none_yet : backend_count new_logger ≡ 0
unfolding new_logger
none_yet = refl

one_backend : (backend : ℕ) (lvl : LogSeverity) → backend_count (logger_with backend lvl) ≡ 1
unfolding logger_with new_logger add_backend
one_backend backend lvl = refl

abbrev logger_class : LoggerClass
logger_class = record {
  T = Logger;
  create = new_logger;
  create_with = logger_with;
  backend_count = backend_count;
  add_backend = add_backend;
  set_min_level = set_min_level;
  min_level = min_level;
  count = count;
  log = log;
  debug = log_debug;
  info = log_info;
  warn = log_warn;
  error = log_error;
  fatal_error = log_fatal_error;
  IsValid = λ l. Sorted l.counts;
  create-IsValid = new_logger-Sorted;
  log-IsValid = log-Sorted;
  create_empty = none_yet;
  create_with_one = one_backend;
  added = min_level-add_backend;
  counted = log_counts;
  count_fits = count_small;
}

-- A client of the class.
module _ (c : LoggerClass) where
  abbrev pub log_run : LoggerClass.T c → List Message → LoggerClass.T c
  log_run l [] = l
  log_run l (m ∷ ms) = log_run ((LoggerClass.log c l m).0) ms

  log_run-IsValid :
      (l : LoggerClass.T c) (ms : List Message)
      → LoggerClass.IsValid c l
      → LoggerClass.IsValid c (log_run l ms)
  log_run-IsValid l [] v = v
  log_run-IsValid l (m ∷ ms) v =
      log_run-IsValid ((LoggerClass.log c l m).0) ms (LoggerClass.log-IsValid c l m v)

  -- By the laws of the class alone: behind any run of messages the number of those with at least a
  -- level has grown by theirs, below 2 ^ 64.
  pub count-log_run :
      (l : LoggerClass.T c) (ms : List Message) (lvl : LogSeverity)
      → LoggerClass.IsValid c l
      → LoggerClass.count c (log_run l ms) lvl
        ≡ (LoggerClass.count c l lvl + at_least lvl ms) % 2 ^ 64
  unfolding at_least
  count-log_run l [] lvl v = omega (arith, LoggerClass.count_fits c l lvl v)
  count-log_run l (m ∷ ms) lvl v = omega (
    arith,
    count-log_run ((LoggerClass.log c l m).0) ms lvl (LoggerClass.log-IsValid c l m v),
    LoggerClass.counted c l m lvl v,
  )
