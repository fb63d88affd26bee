-- ===== src/Logger/Tests.antt =====
-- Loggers at concrete inputs.
use http_audio_server.Common.{
  ℕ, ◌++◌, ◌+◌, ◌%◌, ◌^◌, ◌≡◌, refl, true, List, [], ◌∷◌, arith, zero, suc, some, none, ap, length,
}
use http_audio_server.Common.Text.{codes}
use http_audio_server.Terminal.{Terminal}
use http_audio_server.Terminal.Visible.{visible}
use http_audio_server.Logger.{
  LogSeverity, debug, info, error, Message, Logger, log_all, count, bump,
}
use http_audio_server.Logger.Counts.{Sorted, at_least}
use http_audio_server.Logger.Backends.{wanted}
use http_audio_server.Logger.Front.{LogStreamBackend, receive}
use http_audio_server.Logger.Front.Text.{lines}
use http_audio_server.Logger.Threads.{
  outside, counting, issuing, issue, counts, issues, unlocks, State, Step, locks, Steps, stays,
  one_more, replace, started,
}
use http_audio_server.Logger.Threads.Schedules.{threads_go_on, threads_log}
use http_audio_server.Logger.Threads.Order.{by, pending, logged}
use http_audio_server.Logger.Line.{stream_log, plain_line, visible-stream_log}

abbrev note : LogSeverity → Message
note lvl = record { lvl = lvl; time = 0; module_name = codes "m"; message = codes "hi" }

abbrev notes : List Message
notes = note debug ∷ note error ∷ note debug ∷ note info ∷ []

abbrev two : Logger
two = record { backends = (7, info) ∷ (8, error) ∷ []; counts = [] }

count_runs : count (log_all two notes).0 info ≡ 2
unfolding count log_all
count_runs = refl

abbrev tty : Terminal
tty = record { use_color = true }

visible-stream_log_example :
    visible (stream_log (λ n. b'0' ∷ []) tty (note error))
    ≡ plain_line (λ n. b'0' ∷ []) (note error)
visible-stream_log_example =
    visible-stream_log (λ n. b'0' ∷ []) tty (note error) (λ e. omega arith, tt)
      (λ e. omega arith, tt) (λ e. omega arith, (λ e. omega arith, tt))

abbrev console : LogStreamBackend
console = record { terminal = tty; text = codes "\n" }

abbrev clock : ℕ → List ℕ
clock n = b'0' ∷ []

-- The thread 0 logs an error, and the thread 1 a note.
abbrev two_queues : ℕ → List Message
two_queues zero = note error ∷ []
two_queues (suc k) = note info ∷ []

abbrev threaded : State
threaded = record { mutex = none; logger = two; calls = []; threads = λ j. outside (two_queues j) }

abbrev locked : State
locked = record threaded {
  mutex = some 1;
  threads = replace threaded.threads 1 (counting (note info) []);
}

to_locked : Steps (started two two_queues) locked
unfolding started
to_locked = one_more _ threaded _ (stays _) (locks threaded 1 (note info) [] refl refl)

threads_go_on_example : (y : State) × Step locked y
unfolding replace
threads_go_on_example =
    threads_go_on two two_queues locked to_locked 0 (λ e. omega (arith, ap length e))

abbrev counted : State
counted = record locked {
  logger = record two { counts = bump two.counts info };
  threads = replace locked.threads 1 (issuing two.backends (note info) []);
}

abbrev first_issued : State
first_issued = record counted {
  calls = [] ++ issue (7, info) (note info);
  threads = replace counted.threads 1 (issuing ((8, error) ∷ []) (note info) []);
}

abbrev all_issued : State
all_issued = record first_issued {
  calls = first_issued.calls ++ issue (8, error) (note info);
  threads = replace first_issued.threads 1 (issuing [] (note info) []);
}

-- The note is logged, and the error is not.
abbrev unlocked : State
unlocked = record all_issued { mutex = none; threads = replace all_issued.threads 1 (outside []) }

to_unlocked : Steps (started two two_queues) unlocked
unfolding replace
to_unlocked =
    one_more _ all_issued _
      (one_more _ first_issued _
        (one_more _ counted _ (one_more _ locked _ to_locked (counts locked 1 (note info) [] refl))
          (issues counted 1 (7, info) ((8, error) ∷ []) (note info) [] refl))
        (issues first_issued 1 (8, error) [] (note info) [] refl))
      (unlocks all_issued 1 (note info) [] refl)

threads_log_example :
    (order : List (ℕ × Message)) × ((j : ℕ)
      → two_queues j ≡ by j order ++ pending (unlocked.threads j))
    × ((receive clock 7 console unlocked.calls).text
        ≡ codes "\n" ++ lines clock tty (wanted info (logged order)))
    × (count unlocked.logger info ≡ (count two info + at_least info (logged order)) % 2 ^ 64)
unfolding Sorted
threads_log_example =
    threads_log two two_queues unlocked to_unlocked clock 7 info console [] ((8, error) ∷ []) refl
      refl tt (λ e. omega arith, tt) tt
