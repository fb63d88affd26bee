-- ===== src/Process/Class.antt =====
-- http_audio_server/process.hpp, the class `Process` as its clients see it: its methods, with what
-- the comments say of them, and the implementation. `fd_input_pipe` is declared and nowhere defined.
pub mod Calls
use http_audio_server.Common.{
  ℕ, ◌≡◌, ◌≢◌, refl, sym, ap, ◌∙◌, subst, Bool, true, false, Option, none, some, List, [], ◌∷◌,
  ◌++◌,
}
use mathlib.Core.Option.{some-injective, none-ne-some}
use http_audio_server.Common.Int.{ℤ}
use http_audio_server.Common.Words.{true≢false}
use http_audio_server.Pipe.{Source, Ostream, generic_pipe}
use http_audio_server.Process.{
  Os, ProcessImpl, Answer, update_status, running, with_exitcode, wait, signal,
}
use http_audio_server.Process.Status.{
  Known, alive, ended, error, update_status-Known, update_status_ended,
}
use http_audio_server.Process.Launch.{
  SysCall, Sys, Launched, started, no_pipes, no_fork, child, ChildStreams, new_process,
  close_child_stdin, drop_streams,
}
use http_audio_server.Process.Exec.{stringstream}
use http_audio_server.Process.Exec.Result.{generic_pipe-text}

-- An object; in the results `none` is an exception. `wait` and `running` ask the system.
pub record ProcessClass (os : Os) : Type 1 where
  pub T : Type 0
  pub generic_writer : {I : Type 0} → Ostream I → (I → I) → Source → I → I
  pub generic_pipe : {S : Type 0} → Ostream S → Source → S → S
  pub create : Sys → List ℕ → List (List ℕ) → Bool → Option T × List SysCall
  pub destroy : Os.State os → T → (Os.State os × T × Option ℤ) × List SysCall
  pub child_stdout : T → Option ℕ
  pub child_stderr : T → Option ℕ
  pub child_stdin : T → Option ℕ
  pub close_child_stdin : T → T × List SysCall
  pub running : Os.State os → T → Os.State os × T × Option Bool
  pub exitcode : T → ℤ
  pub wait : Os.State os → T → Os.State os × T × Option ℤ
  pub signal : Os.State os → T → ℕ → Os.State os × Bool
  -- Data is piped from the source to the target.
  pub pipes :
      (source : Source) (o : List ℕ)
      → source.good ≡ true
      → generic_pipe stringstream source o ≡ o ++ source.rest
  -- The standard input is closed behind this method, and the other streams are left alone.
  pub closes :
      (p : T)
      → (child_stdin ((close_child_stdin p).0) ≡ none)
        × (child_stdout ((close_child_stdin p).0) ≡ child_stdout p)
        × (child_stderr ((close_child_stdin p).0) ≡ child_stderr p)
  -- `wait` returns the exit code, and `exitcode` is valid once it has returned.
  pub waited :
      (s s' : Os.State os) (p p' : T) (code : ℤ)
      → wait s p ≡ (s', p', some code)
      → exitcode p' ≡ code
  -- A child that is no longer running stays so, and its exit code is the same from then on.
  pub ended_for_good :
      (s s' t : Os.State os) (p p' : T)
      → running s p ≡ (s', p', some false)
      → (running t p' ≡ (t, p', some false)) × (wait t p' ≡ (t, p', some (exitcode p')))

-- The object behind the pointer.
pub record Process : Type 0 where
  pub impl : ProcessImpl
  pub streams : ChildStreams

abbrev created : Launched × List SysCall → Option Process × List SysCall
created (started p s, calls) = (some (record { impl = p; streams = s }), calls)
created (no_pipes, calls) = (none, calls)
created (no_fork, calls) = (none, calls)
created (child, calls) = (none, calls)

module _ (os : Os) where
  abbrev of_impl : {A : Type 0} → ChildStreams → Answer os A → Os.State os × Process × Option A
  of_impl streams (s, p, r) = (s, record { impl = p; streams = streams }, r)

  with_exitcode-exitcode :
      (a : Answer os Bool) (s' : Os.State os) (p' : ProcessImpl) (code : ℤ)
      → with_exitcode os a ≡ (s', p', some code)
      → p'.exitcode ≡ code
  with_exitcode-exitcode (s, p, none) s' p' code h =
      absurd (none-ne-some code (ap (λ (r : Answer os ℤ). r.2) h))
  with_exitcode-exitcode (s, p, some _) s' p' code h =
      ap (λ (r : Answer os ℤ). r.1.exitcode) (sym h)
      ∙ some-injective p.exitcode code (ap (λ (r : Answer os ℤ). r.2) h)

  waited_lem :
      (s s' : Os.State os) (p p' : Process) (code : ℤ)
      → of_impl p.streams (wait os s p.impl) ≡ (s', p', some code)
      → p'.impl.exitcode ≡ code
  unfolding wait
  waited_lem s s' p p' code h =
      with_exitcode-exitcode (update_status os s p.impl true) s' p'.impl code
        (ap (λ (r : Os.State os × Process × Option ℤ). (r.0, r.1.impl, r.2)) h)

  Known-ended :
      (p p' : ProcessImpl) (o : Option Bool) → Known os p p' o → o ≡ some false → p'.pid ≡ 0
  Known-ended p p' _ (alive e n) h = absurd (true≢false (some-injective true false h))
  Known-ended p p' _ (ended z) h = z
  Known-ended p p' _ (error e) h = absurd (none-ne-some false h)

  ended_lem :
      (s s' t : Os.State os) (p p' : Process)
      → of_impl p.streams (running os s p.impl) ≡ (s', p', some false)
      → (of_impl p'.streams (running os t p'.impl) ≡ (t, p', some false))
        × (of_impl p'.streams (wait os t p'.impl) ≡ (t, p', some p'.impl.exitcode))
  unfolding running wait
  ended_lem s s' t p p' h =
      let r = update_status os s p.impl false in
      let same : r.1 ≡ p'.impl = ap (λ (x : Os.State os × Process × Option Bool). x.1.impl) h in
      let gone : p'.impl.pid ≡ 0 =
        ap (λ (q : ProcessImpl). q.pid) (sym same)
        ∙ Known-ended p.impl r.1 r.2 (update_status-Known os s p.impl false)
            (ap (λ (x : Os.State os × Process × Option Bool). x.2) h) in
      (
        ap (of_impl p'.streams) (update_status_ended os t p'.impl false gone),
        ap (λ a. of_impl p'.streams (with_exitcode os a))
            (update_status_ended os t p'.impl true gone),
      )

  abbrev close_stdin : Process → Process × List SysCall
  close_stdin p =
      (record p { streams = (close_child_stdin p.streams).0 }, (close_child_stdin p.streams).1)

  close_stdin_lem :
      (p : Process)
      → ((close_stdin p).0.streams.child_stdin ≡ none)
        × ((close_stdin p).0.streams.child_stdout ≡ p.streams.child_stdout)
        × ((close_stdin p).0.streams.child_stderr ≡ p.streams.child_stderr)
  unfolding close_child_stdin
  close_stdin_lem p = (refl, refl, refl)

  abbrev process_class : ProcessClass os
  process_class = record {
    T = Process;
    generic_writer = λ ostream close input i. close (generic_pipe ostream input i);
    generic_pipe = λ ostream source o. generic_pipe ostream source o;
    create = λ sys cmd args do_redirect. created (new_process sys cmd args do_redirect);
    destroy = λ s p. (of_impl p.streams (wait os s p.impl), drop_streams p.streams);
    child_stdout = λ p. p.streams.child_stdout;
    child_stderr = λ p. p.streams.child_stderr;
    child_stdin = λ p. p.streams.child_stdin;
    close_child_stdin = close_stdin;
    running = λ s p. of_impl p.streams (running os s p.impl);
    exitcode = λ p. p.impl.exitcode;
    wait = λ s p. of_impl p.streams (wait os s p.impl);
    signal = λ s p number. signal os s p.impl number;
    pipes = generic_pipe-text;
    closes = close_stdin_lem;
    waited = waited_lem;
    ended_for_good = ended_lem;
  }

  -- Through the class alone: what `wait` returns is what `exitcode` says from then on, and a later
  -- `wait` returns the same if `running` has given false in between.
  pub process_class_waits :
      (c : ProcessClass os) (s s' t t' u : Os.State os) (p p' p'' : ProcessClass.T c) (code : ℤ)
      → ProcessClass.wait c s p ≡ (s', p', some code)
      → ProcessClass.running c t p' ≡ (t', p'', some false)
      → (ProcessClass.exitcode c p' ≡ code)
        × (ProcessClass.wait c u p'' ≡ (u, p'', some (ProcessClass.exitcode c p'')))
  process_class_waits c s s' t t' u p p' p'' code h k =
      (ProcessClass.waited c s s' p p' code h, (ProcessClass.ended_for_good c t t' u p' p'' k).1)
