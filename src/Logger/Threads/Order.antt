-- ===== src/Logger/Threads/Order.antt =====
-- Whatever the schedule, the calls of `log` take effect one after the other.
use native.Mathlib.Decide.{ℕ_discrete}
use http_audio_server.Common.{
  ℕ, ◌≡◌, ◌≢◌, refl, sym, ap, ◌∙◌, subst, Option, none, some, List, [], ◌∷◌, ◌++◌, map,
  append_assoc, append-nil, leb, ◌==◌, if◌then◌else◌, Bool-cases, inl, inr,
}
use http_audio_server.Logger.{LogSeverity, value, Message, Delivery, Logger, deliver, log, log_all}
use http_audio_server.Logger.Threads.{
  Thread, outside, counting, issuing, State, replace, replace_same, replace_other, issue,
}

-- The messages of a thread, in their order.
unfoldable pub by : ℕ → List (ℕ × Message) → List Message
by j [] = []
by j ((i, m) ∷ order) = let later = by j order in if i == j then m ∷ later else later

pub by-append : (j : ℕ) (xs ys : List (ℕ × Message)) → by j (xs ++ ys) ≡ by j xs ++ by j ys
unfolding by
by-append j [] ys = refl
by-append j ((i, m) ∷ xs) ys = elim (Bool-cases (i == j)) [
  | inl e ↦ rw e (ap (◌∷◌ m) (by-append j xs ys))
  | inr e ↦ rw e (by-append j xs ys)
]

abbrev pub content : ℕ × Message → Message
content e = e.1

abbrev pub logged : List (ℕ × Message) → List Message
logged = map content

-- What a thread has yet to log, with the message that it is at.
abbrev pub pending : Thread → List Message
pending (outside ms) = ms
pending (counting m ms) = m ∷ ms
pending (issuing backends m ms) = m ∷ ms

abbrev pub IsOutside : Thread → Type 0
IsOutside (outside ms) = Unit
IsOutside (counting m ms) = ⊥
IsOutside (issuing backends m ms) = ⊥

-- A logger, and the calls on its backends.
abbrev pub Effect : Type 0
Effect = Logger × List Delivery

-- One more call of `log`.
abbrev pub and_log : Effect → Message → Effect
and_log e m = ((log e.0 m).0, e.1 ++ (log e.0 m).1)

-- The rest of the loop.
abbrev pub and_issue : Effect → List (ℕ × LogSeverity) → Message → Effect
and_issue e backends m = (e.0, e.1 ++ deliver backends m)

-- The thread that holds the mutex stands between the effect of the calls before and that of its own.
abbrev pub Midway : Effect → Effect → Thread → Type 0
Midway before now (outside ms) = ⊥
Midway before now (counting m ms) = now ≡ before
Midway before now (issuing backends m ms) = and_issue now backends m ≡ and_log before m

abbrev pub effect : State → Effect
effect x = (x.logger, x.calls)

-- All other threads are outside.
abbrev pub Alone : ℕ → (ℕ → Thread) → Type 0
Alone i threads = (j : ℕ) → i ≢ j → IsOutside (threads j)

-- Where the threads are, by the mutex.
abbrev pub Guarded : Option ℕ → Effect → Effect → (ℕ → Thread) → Type 0
Guarded none before now threads = ((j : ℕ) → IsOutside (threads j)) × (now ≡ before)
Guarded (some i) before now threads = Alone i threads × Midway before now (threads i)

pub log_all-snoc :
    (l : Logger) (ms : List Message) (m : Message)
    → log_all l (ms ++ m ∷ []) ≡ and_log (log_all l ms) m
unfolding log_all
log_all-snoc l [] m = ap (λ c. ((log l m).0, c)) (append-nil (log l m).1)
log_all-snoc l (n ∷ ms) m =
    let here : Effect = log l n in
    let later : Effect = log_all here.0 ms in
    ap (λ (e : Effect). (e.0, here.1 ++ e.1)) (log_all-snoc here.0 ms m)
    ∙ ap (λ c. ((log later.0 m).0, c)) (sym (append_assoc here.1 later.1 (log later.0 m).1))

pub deliver-cons :
    (backend : ℕ × LogSeverity) (backends : List (ℕ × LogSeverity)) (m : Message)
    → deliver (backend ∷ backends) m ≡ issue backend m ++ deliver backends m
unfolding deliver issue
deliver-cons (backend, lvl) backends m = elim (Bool-cases (leb (value lvl) (value m.lvl))) [
  | inl e ↦ rw e refl
  | inr e ↦ rw e refl
]

-- The order in which the calls of `log` took effect so far: each thread's messages are those of its
-- finished calls, in this order, and then those that it has yet to log.
pub record Ordered (l : Logger) (queues : ℕ → List Message) (x : State) : Type 0 where
  pub order : List (ℕ × Message)
  pub queue_eq : (j : ℕ) → queues j ≡ by j order ++ pending (x.threads j)
  pub guarded : Guarded x.mutex (log_all l (logged order)) (effect x) x.threads

-- A thread that is not outside holds the mutex.
pub holder :
    (o : Option ℕ) (before now : Effect) (threads : ℕ → Thread) (i : ℕ) (t : Thread)
    → threads i ≡ t
    → (IsOutside t → ⊥)
    → Guarded o before now threads
    → (o ≡ some i) × Alone i threads × Midway before now t
holder none before now threads i t e inside (out, _) = absurd (inside (subst IsOutside e (out i)))
holder (some k) before now threads i t e inside (alone, mid) = elim (ℕ_discrete k i) [
  | no other ↦ absurd (inside (subst IsOutside e (alone i other)))
  | yes same ↦ (
    ap some same,
    subst (λ n. Alone n threads) same alone,
    subst (Midway before now) (ap threads same ∙ e) mid,
  )
]

-- The thread `i` goes on, and keeps the mutex.
pub on_hold :
    (before now : Effect) (threads : ℕ → Thread) (i : ℕ) (t : Thread) (o : Option ℕ)
    → o ≡ some i
    → Alone i threads
    → Midway before now t
    → Guarded o before now (replace threads i t)
on_hold before now threads i t o e alone mid =
    subst (λ o. Guarded o before now (replace threads i t)) (sym e)
      (
        λ j h. subst IsOutside (sym (replace_other threads i j t h)) (alone j h),
        subst (Midway before now) (sym (replace_same threads i t)) mid,
      )

-- A step of the thread `i` that keeps what it has yet to log.
pub pending-replace :
    (threads : ℕ → Thread) (i j : ℕ) (t : Thread)
    → pending (threads i) ≡ pending t
    → pending (threads j) ≡ pending (replace threads i t j)
pending-replace threads i j t e = elim (ℕ_discrete i j) [
  | yes same ↦
      ap (λ k. pending (threads k)) (sym same)
      ∙ e
      ∙ ap pending (sym (replace_same threads i t))
      ∙ ap (λ k. pending (replace threads i t k)) same
  | no other ↦ ap pending (sym (replace_other threads i j t other))
]
