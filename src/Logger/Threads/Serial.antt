-- ===== src/Logger/Threads/Serial.antt =====
-- Whatever the schedule, the calls of `log` take effect one after the other, and some thread can
-- always go on.
use native.Mathlib.Decide.{ℕ_discrete}
use mathlib.Core.List.{map-append}
use http_audio_server.Common.{
  ℕ, ◌≡◌, ◌≢◌, refl, sym, ap, ◌∙◌, subst, Option, none, some, List, [], ◌∷◌, ◌++◌, append_assoc,
  append-nil, ==_self, ==_ne, if◌then◌else◌,
}
use http_audio_server.Logger.{LogSeverity, Message, Logger, deliver, bump, log, log_all}
use http_audio_server.Logger.Threads.{
  Thread, outside, counting, issuing, State, replace, replace_same, replace_other, issue, Step,
  locks, counts, issues, unlocks, Steps, stays, one_more, started,
}
use http_audio_server.Logger.Threads.Order.{
  by, by-append, content, logged, pending, IsOutside, Effect, and_log, effect, Guarded,
  log_all-snoc, deliver-cons, Ordered, holder, on_hold, pending-replace,
}

-- The mutex is free.
pub unlocked :
    (o : Option ℕ) (before now : Effect) (threads : ℕ → Thread)
    → o ≡ none
    → Guarded o before now threads
    → ((j : ℕ) → IsOutside (threads j)) × (now ≡ before)
unlocked o before now threads e g = subst (λ o. Guarded o before now threads) e g

by_one : (i : ℕ) (m : Message) → by i ((i, m) ∷ []) ≡ m ∷ []
unfolding by
by_one i m = ap (λ b. if b then m ∷ [] else []) (==_self i)

by_other : (i j : ℕ) (m : Message) → i ≢ j → by j ((i, m) ∷ []) ≡ []
unfolding by
by_other i j m h = ap (λ b. if b then m ∷ [] else []) (==_ne i j h)

-- What a thread that ends a call has yet to log, behind the message of this call.
pending_ended :
    (threads : ℕ → Thread) (i j : ℕ) (m : Message) (ms : List Message)
    → pending (threads i) ≡ m ∷ ms
    → pending (threads j) ≡ by j ((i, m) ∷ []) ++ pending (replace threads i (outside ms) j)
pending_ended threads i j m ms e = elim (ℕ_discrete i j) [
  | yes same ↦
      ap (λ k. pending (threads k)) (sym same)
      ∙ e
      ∙ sym (
          ap (λ k. by k ((i, m) ∷ []) ++ pending (replace threads i (outside ms) k)) (sym same)
          ∙ ap (λ b. b ++ pending (replace threads i (outside ms) i)) (by_one i m)
          ∙ ap (λ t. m ∷ pending t) (replace_same threads i (outside ms)))
  | no other ↦ sym (
      ap (λ b. b ++ pending (replace threads i (outside ms) j)) (by_other i j m other)
      ∙ ap pending (replace_other threads i j (outside ms) other))
]

module _ (l : Logger) (queues : ℕ → List Message) where
  locks-Ordered :
      (x : State) (i : ℕ) (m : Message) (ms : List Message)
      → x.threads i ≡ outside (m ∷ ms)
      → x.mutex ≡ none
      → Ordered l queues x
      → Ordered l queues
          (record x { mutex = some i; threads = replace x.threads i (counting m ms) })
  locks-Ordered x i m ms e free v =
      let (out, same) = unlocked x.mutex _ (effect x) x.threads free v.guarded in
      record {
        order = v.order;
        queue_eq = λ j.
            v.queue_eq j
            ∙ ap (◌++◌ (by j v.order))
                (pending-replace x.threads i j (counting m ms) (ap pending e));
        guarded =
            on_hold (log_all l (logged v.order)) (effect x) x.threads i (counting m ms) (some i)
              refl (λ j h. out j) same;
      }

  counts-Ordered :
      (x : State) (i : ℕ) (m : Message) (ms : List Message)
      → x.threads i ≡ counting m ms
      → Ordered l queues x
      → Ordered l queues (record x {
        logger = record x.logger { counts = bump x.logger.counts m.lvl };
        threads = replace x.threads i (issuing x.logger.backends m ms);
      })
  unfolding log
  counts-Ordered x i m ms e v =
      let before : Effect = log_all l (logged v.order) in
      let (mine, alone, same) =
        holder x.mutex before (effect x) x.threads i (counting m ms) e (λ h. h) v.guarded in
      record {
        order = v.order;
        queue_eq = λ j.
            v.queue_eq j
            ∙ ap (◌++◌ (by j v.order))
                (pending-replace x.threads i j (issuing x.logger.backends m ms) (ap pending e));
        guarded =
            on_hold before (record x.logger { counts = bump x.logger.counts m.lvl }, x.calls)
              x.threads i (issuing x.logger.backends m ms) x.mutex mine alone
              (ap (λ f. and_log f m) same);
      }

  issues-Ordered :
      (x : State) (i : ℕ) (backend : ℕ × LogSeverity) (backends : List (ℕ × LogSeverity))
      (m : Message) (ms : List Message)
      → x.threads i ≡ issuing (backend ∷ backends) m ms
      → Ordered l queues x
      → Ordered l queues (record x {
        calls = x.calls ++ issue backend m;
        threads = replace x.threads i (issuing backends m ms);
      })
  issues-Ordered x i backend backends m ms e v =
      let before : Effect = log_all l (logged v.order) in
      let (mine, alone, same) =
        holder x.mutex before (effect x) x.threads i (issuing (backend ∷ backends) m ms) e (λ h. h)
          v.guarded in
      record {
        order = v.order;
        queue_eq = λ j.
            v.queue_eq j
            ∙ ap (◌++◌ (by j v.order))
                (pending-replace x.threads i j (issuing backends m ms) (ap pending e));
        guarded =
            on_hold before (x.logger, x.calls ++ issue backend m) x.threads i
              (issuing backends m ms) x.mutex mine alone
              (ap (λ c. (x.logger, c))
                  (append_assoc x.calls (issue backend m) (deliver backends m)
                    ∙ ap (◌++◌ x.calls) (sym (deliver-cons backend backends m)))
                ∙ same);
      }

  unlocks-Ordered :
      (x : State) (i : ℕ) (m : Message) (ms : List Message)
      → x.threads i ≡ issuing [] m ms
      → Ordered l queues x
      → Ordered l queues (record x { mutex = none; threads = replace x.threads i (outside ms) })
  unfolding deliver
  unlocks-Ordered x i m ms e v =
      let before : Effect = log_all l (logged v.order) in
      let (mine, alone, same) =
        holder x.mutex before (effect x) x.threads i (issuing [] m ms) e (λ h. h) v.guarded in
      record {
        order = v.order ++ (i, m) ∷ [];
        queue_eq = λ j.
            v.queue_eq j
            ∙ ap (◌++◌ (by j v.order)) (pending_ended x.threads i j m ms (ap pending e))
            ∙ sym (append_assoc (by j v.order) (by j ((i, m) ∷ [])) _)
            ∙ ap (λ b. b ++ pending (replace x.threads i (outside ms) j))
                (sym (by-append j v.order ((i, m) ∷ [])));
        guarded = (
          λ j. elim (ℕ_discrete i j) [
            | yes here ↦
                subst (λ k. IsOutside (replace x.threads i (outside ms) k)) here
                  (subst IsOutside (sym (replace_same x.threads i (outside ms))) tt)
            | no other ↦
                subst IsOutside (sym (replace_other x.threads i j (outside ms) other))
                  (alone j other)
          ],
          ap (λ c. (x.logger, c)) (sym (append-nil x.calls))
              ∙ same
              ∙ sym (log_all-snoc l (logged v.order) m)
              ∙ ap (log_all l) (sym (map-append content v.order ((i, m) ∷ []))),
        );
      }

  next-Ordered : (x y : State) → Step x y → Ordered l queues x → Ordered l queues y
  next-Ordered x _ (locks _ i m ms e free) v = locks-Ordered x i m ms e free v
  next-Ordered x _ (counts _ i m ms e) v = counts-Ordered x i m ms e v
  next-Ordered x _ (issues _ i b bs m ms e) v = issues-Ordered x i b bs m ms e v
  next-Ordered x _ (unlocks _ i m ms e) v = unlocks-Ordered x i m ms e v

  pub from_start : (x y : State) → Steps x y → Ordered l queues x → Ordered l queues y
  from_start x _ (stays _) v = v
  from_start x z (one_more _ y _ s t) v = next-Ordered y z t (from_start x y s v)

  pub start-Ordered : Ordered l queues (started l queues)
  unfolding started by log_all
  start-Ordered = record { order = []; queue_eq = λ j. refl; guarded = (λ j. tt, refl) }
