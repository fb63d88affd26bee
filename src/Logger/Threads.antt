-- ===== src/Logger/Threads.antt =====
-- http_audio_server/logger.cpp, `LoggerImpl::log` called from several threads: a step is a lock or
-- an unlock of `m_logger_mtx`, the update of the statistics, or a round of the loop over the
-- backends.
pub mod Order
pub mod Serial
pub mod Schedules
use http_audio_server.Common.{
  ℕ, zero, suc, ◌+◌, ◌≡◌, ◌≢◌, ap, Option, none, some, List, [], ◌∷◌, ◌++◌, leb, ◌==◌, ==_self,
  ==_ne, if◌then◌else◌,
}
use http_audio_server.Logger.{LogSeverity, value, Message, Delivery, Logger, bump}

-- A thread is outside `log`, with the messages that it has yet to log; or holds the mutex, and has
-- yet to update the statistics; or is in the loop, with the backends that are left.
pub data Thread : Type 0 where
  outside : List Message → Thread
  counting : Message → List Message → Thread
  issuing : List (ℕ × LogSeverity) → Message → List Message → Thread

-- `mutex` is the thread that holds it; `calls` are the calls on the backends so far.
pub record State : Type 0 where
  pub mutex : Option ℕ
  pub logger : Logger
  pub calls : List Delivery
  pub threads : ℕ → Thread

unfoldable pub replace : (ℕ → Thread) → ℕ → Thread → ℕ → Thread
replace threads i t j = if i == j then t else threads j

pub replace_same : (threads : ℕ → Thread) (i : ℕ) (t : Thread) → replace threads i t i ≡ t
unfolding replace
replace_same threads i t = ap (λ b. if b then t else threads i) (==_self i)

pub replace_other :
    (threads : ℕ → Thread) (i j : ℕ) (t : Thread) → i ≢ j → replace threads i t j ≡ threads j
unfolding replace
replace_other threads i j t h = ap (λ b. if b then t else threads j) (==_ne i j h)

-- The body of the loop.
unfoldable pub issue : ℕ × LogSeverity → Message → List Delivery
issue (backend, lvl) m =
    if leb (value lvl) (value m.lvl) then record { target = backend; content = m } ∷ [] else []

-- A step of the thread `i`.
pub data Step : State → State → Type 0 where
  locks :
      (x : State) (i : ℕ) (m : Message) (ms : List Message)
      → x.threads i ≡ outside (m ∷ ms)
      → x.mutex ≡ none
      → Step x (record x { mutex = some i; threads = replace x.threads i (counting m ms) })
  counts :
      (x : State) (i : ℕ) (m : Message) (ms : List Message)
      → x.threads i ≡ counting m ms
      → Step x (record x {
        logger = record x.logger { counts = bump x.logger.counts m.lvl };
        threads = replace x.threads i (issuing x.logger.backends m ms);
      })
  issues :
      (x : State) (i : ℕ) (backend : ℕ × LogSeverity) (backends : List (ℕ × LogSeverity))
      (m : Message) (ms : List Message)
      → x.threads i ≡ issuing (backend ∷ backends) m ms
      → Step x (record x {
        calls = x.calls ++ issue backend m;
        threads = replace x.threads i (issuing backends m ms);
      })
  unlocks :
      (x : State) (i : ℕ) (m : Message) (ms : List Message)
      → x.threads i ≡ issuing [] m ms
      → Step x (record x { mutex = none; threads = replace x.threads i (outside ms) })

-- Any number of steps.
pub data Steps : State → State → Type 0 where
  stays : (x : State) → Steps x x
  one_more : (x y z : State) → Steps x y → Step y z → Steps x z

-- The threads are about to log these messages.
unfoldable pub started : Logger → (ℕ → List Message) → State
started l queues = record {
  mutex = none;
  logger = l;
  calls = [];
  threads = λ j. outside (queues j);
}
