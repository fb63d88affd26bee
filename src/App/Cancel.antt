-- ===== src/App/Cancel.antt =====
-- How a signal ends the program.
use http_audio_server.Common.{
  ℕ, ◌≡◌, refl, sym, ap, ◌∙◌, subst, Bool, true, false, Option, none, some, List, [], ◌∷◌, ◌++◌,
}
use http_audio_server.Response.{Call}
use http_audio_server.Pipe.{Source}
use http_audio_server.Stream.Env.{World}
use http_audio_server.App.{
  App, Event, interrupt, message, Main, Turn, goes_on, exits, aborts, stuck, serve, signal_handler,
  interrupted, replied, handle_event, poll, main_loop,
}

module _ (w : World) (draws : ℕ → ℕ → ℕ) (page : Source) where
  -- The state of a turn that goes on.
  abbrev state_of : Turn w → Option (Main w)
  state_of (goes_on m) = some m
  state_of _ = none

  abbrev pub then_poll : List Event → Turn w → Turn w
  then_poll events (goes_on m) = poll w draws page m events
  then_poll events (exits code m) = exits code m
  then_poll events aborts = aborts
  then_poll events stuck = stuck

  pub poll-cons :
      (m : Main w) (e : Event) (events : List Event)
      → poll w draws page m (e ∷ events) ≡ then_poll events (handle_event w draws page m e)
  unfolding poll
  poll-cons m e events = same (handle_event w draws page m e)
    where
      same :
          (t : Turn w)
          → elim t [
            | goes_on m' ↦ poll w draws page m' events
            | exits code m' ↦ exits code m'
            | aborts ↦ aborts
            | stuck ↦ stuck
          ]
            ≡ then_poll events t
      same (goes_on m') = refl
      same (exits code m') = refl
      same aborts = refl
      same stuck = refl

  -- If the turn goes on, `cancel` is set.
  abbrev Cancelled : Turn w → Type 0
  Cancelled (goes_on m) = m.cancel ≡ true
  Cancelled _ = Unit

  interrupt-Cancelled : (m : Main w) → Cancelled (handle_event w draws page m interrupt)
  unfolding handle_event signal_handler
  interrupt-Cancelled m = by_flag m m.cancel
    where
      by_flag : (m : Main w) (c : Bool) → Cancelled (interrupted w draws page m (signal_handler c))
      by_flag m true = tt
      by_flag m false = refl

  handle_event-Cancelled :
      (m : Main w) (e : Event) → m.cancel ≡ true → Cancelled (handle_event w draws page m e)
  unfolding handle_event
  handle_event-Cancelled m interrupt h = interrupt-Cancelled m
  handle_event-Cancelled m (message hm) h = by_reply (serve w draws page hm m.app)
    where
      by_reply : (o : Option (App w × List Call)) → Cancelled (replied w draws page m o)
      by_reply none = tt
      by_reply (some r) = h

  then_poll-Cancelled :
      (events : List Event) (t : Turn w)
      → Cancelled t
      → ((m : Main w) → m.cancel ≡ true → Cancelled (poll w draws page m events))
      → Cancelled (then_poll events t)
  then_poll-Cancelled events (goes_on m) h k = k m h
  then_poll-Cancelled events (exits code m) h k = tt
  then_poll-Cancelled events aborts h k = tt
  then_poll-Cancelled events stuck h k = tt

  poll-Cancelled :
      (m : Main w) (events : List Event) → m.cancel ≡ true → Cancelled (poll w draws page m events)
  unfolding poll
  poll-Cancelled m [] h = h
  poll-Cancelled m (e ∷ events) h = subst Cancelled (sym (poll-cons m e events)) (
      then_poll-Cancelled events (handle_event w draws page m e) (handle_event-Cancelled m e h)
        (λ m'. poll-Cancelled m' events))

  then_poll_any :
      (events : List Event) (t : Turn w)
      → ((m : Main w) → Cancelled (poll w draws page m events))
      → Cancelled (then_poll events t)
  then_poll_any events (goes_on m) k = k m
  then_poll_any events (exits code m) k = tt
  then_poll_any events aborts k = tt
  then_poll_any events stuck k = tt

  -- A poll that meets an interrupt sets `cancel`, if it returns.
  poll-interrupt :
      (m : Main w) (before after : List Event)
      → Cancelled (poll w draws page m (before ++ interrupt ∷ after))
  poll-interrupt m [] after = subst Cancelled (sym (poll-cons m interrupt after)) (
      then_poll-Cancelled after (handle_event w draws page m interrupt) (interrupt-Cancelled m)
        (λ m'. poll-Cancelled m' after))
  poll-interrupt m (e ∷ before) after =
      subst Cancelled (sym (poll-cons m e (before ++ interrupt ∷ after))) (
        then_poll_any (before ++ interrupt ∷ after) (handle_event w draws page m e)
          (λ m'. poll-interrupt m' before after))

  pub main_loop_done :
      (m : Main w) (polls : List (List Event))
      → m.cancel ≡ true
      → main_loop w draws page m polls ≡ exits 0 m
  unfolding main_loop
  main_loop_done m [] h = ap (λ c. elim c [ true ↦ exits 0 m | false ↦ goes_on m ]) h
  main_loop_done m (events ∷ polls) h =
      ap (λ c. elim c [ true ↦ exits 0 m | false ↦ then_loop polls (poll w draws page m events) ]) h
    where
      then_loop : List (List Event) → Turn w → Turn w
      then_loop polls t = elim t [
        | goes_on m' ↦ main_loop w draws page m' polls
        | exits code m' ↦ exits code m'
        | aborts ↦ aborts
        | stuck ↦ stuck
      ]

  -- A poll that meets a signal is the last one: if it returns, `main` returns 0 with the state that
  -- the poll leaves, and no later poll takes place.
  pub main_loop-interrupt :
      (m m' : Main w) (before after : List Event) (polls : List (List Event))
      → m.cancel ≡ false
      → poll w draws page m (before ++ interrupt ∷ after) ≡ goes_on m'
      → main_loop w draws page m ((before ++ interrupt ∷ after) ∷ polls) ≡ exits 0 m'
  unfolding main_loop
  main_loop-interrupt m m' before after polls h e =
      let events : List Event = before ++ interrupt ∷ after in
      let loop : Turn w → Turn w = λ t. elim t [
        | goes_on m' ↦ main_loop w draws page m' polls
        | exits code m' ↦ exits code m'
        | aborts ↦ aborts
        | stuck ↦ stuck
      ] in
      ap (λ c. elim c [ true ↦ exits 0 m | false ↦ loop (poll w draws page m events) ]) h
      ∙ ap loop e
      ∙ main_loop_done m' polls (subst Cancelled e (poll-interrupt m before after))

  -- A second signal before the loop tests `cancel` ends the program with the code 1.
  pub poll-interrupt_twice :
      (m : Main w) (events : List Event)
      → m.cancel ≡ false
      → poll w draws page m (interrupt ∷ interrupt ∷ events) ≡ exits 1 (record m { cancel = true })
  unfolding handle_event signal_handler
  poll-interrupt_twice m events h =
      poll-cons m interrupt (interrupt ∷ events)
      ∙ ap (λ c. then_poll (interrupt ∷ events) (interrupted w draws page m (signal_handler c))) h
      ∙ poll-cons (record m { cancel = true }) interrupt events
