-- ===== src/Process/Class/Calls.antt =====
-- http_audio_server/process.hpp, the convenience methods of `Process` as their clients see them,
-- with what the comments say of them, and the implementation.
use http_audio_server.Common.{ℕ, ◌≡◌, refl, true, Option, some, List}
use http_audio_server.Common.Int.{ℤ}
use http_audio_server.Pipe.{Source, Ostream}
use http_audio_server.Process.{Os, ProcessImpl, Answer, wait}
use http_audio_server.Process.Launch.{Launched, started, ChildStreams}
use http_audio_server.Process.Exec.{
  Ends, Exec, Steps, exec, exec_input, exec_strings, exec_no_redirect, string_ends, tuple_of,
}
use http_audio_server.Process.Exec.Result.{exec_strings_lem}

-- A call gives its first state, from which the steps of its threads lead to its result. `I`, `O`
-- and `E` are the states of the child's input and of the two targets.
pub record ExecClass (os : Os) : Type 1 where
  -- For a text as the input.
  pub exec_input :
      {I O E : Type 0}
      → Ends I O E
      → (Option ℕ → I)
      → (Option ℕ → Source)
      → Os.State os
      → Launched
      → O
      → E
      → List ℕ
      → Option (Exec os I O E)
  -- For a stream as the input.
  pub exec :
      {I O E : Type 0}
      → Ends I O E
      → (Option ℕ → I)
      → (Option ℕ → Source)
      → Os.State os
      → Launched
      → Source
      → O
      → E
      → Option (Exec os I O E)
  pub exec_no_redirect : Os.State os → Launched → Option (Answer os ℤ)
  -- For texts only.
  pub exec_strings :
      {I : Type 0}
      → Ostream I
      → (I → I)
      → (Option ℕ → I)
      → (Option ℕ → Source)
      → Os.State os
      → Launched
      → List ℕ
      → Option (Exec os I (List ℕ) (List ℕ))
  -- The process return code is returned.
  pub returns_code :
      (s : Os.State os) (p : ProcessImpl) (fds : ChildStreams)
      → exec_no_redirect s (started p fds) ≡ some (wait os s p)
  -- The tuple has the exit code and the output from stdout and stderr, in this order.
  pub returns_tuple :
      (I : Type 0) (child_stdin : Ostream I) (close : I → I) (stdin_of : Option ℕ → I)
      (source_of : Option ℕ → Source) (s : Os.State os) (p : ProcessImpl) (fds : ChildStreams)
      (input : List ℕ) (x y : Exec os I (List ℕ) (List ℕ)) (n : ℕ) (code : ℤ) (out err : List ℕ)
      → (source_of fds.child_stdout).good ≡ true
      → (source_of fds.child_stderr).good ≡ true
      → exec_strings child_stdin close stdin_of source_of s (started p fds) input ≡ some x
      → Steps os (string_ends os child_stdin close) n x y
      → tuple_of y ≡ some (code, out, err)
      → ((wait os s p).2 ≡ some code)
        × (out ≡ (source_of fds.child_stdout).rest)
        × (err ≡ (source_of fds.child_stderr).rest)

module _ (os : Os) where
  no_redirect_code :
      (s : Os.State os) (p : ProcessImpl) (fds : ChildStreams)
      → exec_no_redirect os s (started p fds) ≡ some (wait os s p)
  unfolding exec_no_redirect
  no_redirect_code s p fds = refl

  abbrev exec_class : ExecClass os
  exec_class = record {
    exec_input = λ ends. exec_input os ends;
    exec = λ ends. exec os ends;
    exec_no_redirect = exec_no_redirect os;
    exec_strings = λ child_stdin close. exec_strings os child_stdin close;
    returns_code = no_redirect_code;
    returns_tuple = exec_strings_lem os;
  }
