-- ===== src/Logger/Threads/Schedules.antt =====
-- What any schedule of the threads comes to.
use http_audio_server.Common.{
  ℕ, ◌+◌, ◌%◌, ◌^◌, ◌≡◌, ◌≢◌, refl, ap, ◌∙◌, subst, none, List, [], ◌∷◌, ◌++◌, All, Option-cases,
  inl, inr,
}
use http_audio_server.Logger.{LogSeverity, Message, Logger, log_all, count}
use http_audio_server.Logger.Counts.{Sorted, at_least, count-log_all}
use http_audio_server.Logger.Backends.{wanted, IsNot}
use http_audio_server.Logger.Front.{LogStreamBackend, receive}
use http_audio_server.Logger.Front.Text.{lines, receive-log_all}
use http_audio_server.Logger.Threads.{
  Thread, outside, counting, issuing, State, Step, locks, counts, issues, unlocks, Steps, started,
}
use http_audio_server.Logger.Threads.Order.{
  by, logged, pending, IsOutside, Effect, Midway, effect, Guarded, Ordered,
}
use http_audio_server.Logger.Threads.Serial.{unlocked, from_start, start-Ordered}

module _ (l : Logger) (queues : ℕ → List Message) (x : State)
    (run : Steps (started l queues) x) where
  reached : Ordered l queues x
  reached = from_start l queues (started l queues) x run (start-Ordered l queues)

  -- Threads log their messages, and no call of `log` is under way: there is an order of the messages
  -- logged so far, in which those of each thread are its first ones in its own order, such that the
  -- stream of a backend that is listed once got a whole line for each message of its level or a
  -- higher one, in this order, and that the count for the level grew by their number, in 64 bits.
  pub threads_log :
      (time_str : ℕ → List ℕ) (r : ℕ) (lvl : LogSeverity) (b : LogStreamBackend)
      (before after : List (ℕ × LogSeverity))
      → x.mutex ≡ none
      → l.backends ≡ before ++ (r, lvl) ∷ after
      → All (IsNot r) before
      → All (IsNot r) after
      → Sorted l.counts
      → (order : List (ℕ × Message)) × ((j : ℕ) → queues j ≡ by j order ++ pending (x.threads j))
        × ((receive time_str r b x.calls).text
            ≡ b.text ++ lines time_str b.terminal (wanted lvl (logged order)))
        × (count x.logger lvl ≡ (count l lvl + at_least lvl (logged order)) % 2 ^ 64)
  threads_log time_str r lvl b before after free e h hs sorted =
      let v = reached in
      let (_, same) =
        unlocked x.mutex (log_all l (logged v.order)) (effect x) x.threads free v.guarded in
      (
        v.order,
        v.queue_eq,
        ap (λ (f : Effect). (receive time_str r b f.1).text) same
            ∙ receive-log_all time_str l (logged v.order) r lvl b before after e h hs,
        ap (λ (f : Effect). count f.0 lvl) same ∙ count-log_all l (logged v.order) lvl sorted,
      )

  -- A thread that holds the mutex can go on.
  holder_goes_on :
      (i : ℕ) (now before : Effect) (t : Thread)
      → x.threads i ≡ t
      → Midway before now t
      → (y : State) × Step x y
  holder_goes_on i now before (outside ms) e h = absurd h
  holder_goes_on i now before (counting m ms) e h = (_, counts x i m ms e)
  holder_goes_on i now before (issuing [] m ms) e h = (_, unlocks x i m ms e)
  holder_goes_on i now before (issuing (b ∷ bs) m ms) e h = (_, issues x i b bs m ms e)

  -- A thread that is outside can take the mutex.
  waiting_goes_on :
      (i : ℕ) (t : Thread)
      → x.threads i ≡ t
      → IsOutside t
      → pending t ≢ []
      → x.mutex ≡ none
      → (y : State) × Step x y
  waiting_goes_on i (outside []) e h some_left free = absurd (some_left refl)
  waiting_goes_on i (outside (m ∷ ms)) e h some_left free = (_, locks x i m ms e free)
  waiting_goes_on i (counting m ms) e h some_left free = absurd h
  waiting_goes_on i (issuing bs m ms) e h some_left free = absurd h

  -- While a thread has something to log, or is in a call of `log`, some thread can go on.
  pub threads_go_on : (i : ℕ) → pending (x.threads i) ≢ [] → (y : State) × Step x y
  threads_go_on i some_left =
      let v = reached in
      let before : Effect = log_all l (logged v.order) in
      elim (Option-cases x.mutex) [
        | inl free ↦
            let (out, _) = unlocked x.mutex before (effect x) x.threads free v.guarded in
            waiting_goes_on i (x.threads i) refl (out i) some_left free
        | inr (k, held) ↦
            let (_, mid) = subst (λ o. Guarded o before (effect x) x.threads) held v.guarded in
            holder_goes_on k (effect x) before (x.threads k) refl mid
      ]
