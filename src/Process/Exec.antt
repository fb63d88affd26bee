-- ===== src/Process/Exec.antt =====
-- http_audio_server/process.cpp, `generic_writer` and the variants of `exec`: three threads copy
-- the streams of a child while the caller waits for it. A step of a thread is one round of the loop
-- of `generic_pipe`, or what comes behind the loop. A read, a write or a wait that blocks is one that
-- comes later in the order of the steps: any order is a schedule, also those that full or empty
-- pipes rule out.
pub mod Outcome
pub mod Result
pub mod Blocking
pub mod Unblocked
pub mod Returns
use http_audio_server.Common.{
  ℕ, suc, ◌+◌, ◌≡◌, Bool, true, false, ◌&&◌, Option, none, some, List, [], ◌∷◌, ◌++◌, length,
  if◌then◌else◌,
}
use http_audio_server.Common.Int.{ℤ}
use http_audio_server.Pipe.{Source, Ostream, take_byte, put_rest}
use http_audio_server.Process.{Os, ProcessImpl, wait, Answer}
use http_audio_server.Process.Launch.{ChildStreams, Launched, started, no_pipes, no_fork, child}

-- A thread is in the loop, with the used part of its buffer, or has ended.
pub data Worker (S : Type 0) : Type 0 where
  copying : Source → S → List ℕ → Worker S
  copied : S → Worker S

module _ {S : Type 0} (os : Ostream S) (finish : S → S) where
  abbrev pub next_byte : List ℕ → Bool → S → List ℕ → Worker S
  next_byte [] good o buf = copying (record { rest = []; good = false }) o buf
  next_byte (c ∷ rest) good o buf =
      copying (record { rest = rest; good = good }) (take_byte os o buf c).0
        (take_byte os o buf c).1

  -- `finish` is what follows the call of `generic_pipe` in the thread.
  unfoldable pub copy_round : Source → S → List ℕ → Worker S
  copy_round source o buf =
      if source.good && Ostream.good os o
      then next_byte source.rest source.good o buf
      else copied (finish (put_rest os (o, buf)))

-- The calling thread: in `proc.wait()`, or joining with its result, or the program is terminated,
-- since an exception meets threads that are not joined.
pub data Caller (os : Os) : Type 0 where
  waiting : Os.State os → ProcessImpl → Caller os
  joining : Os.State os → ProcessImpl → ℤ → Caller os
  terminated : Caller os

-- What a call of `exec` works on: the streams of the child and of the caller, and `close_child_stdin`.
pub record Ends (I O E : Type 0) : Type 0 where
  pub child_stdin : Ostream I
  pub close_child_stdin : I → I
  pub cout : Ostream O
  pub cerr : Ostream E

-- The threads `t1`, `t2` and `t3`, and the caller.
pub data Exec (os : Os) (I O E : Type 0) : Type 0 where
  threads : Worker I → Worker O → Worker E → Caller os → Exec os I O E

abbrev same : {S : Type 0} → S → S
same o = o

-- The program is not terminated.
abbrev pub IsAlive : {os : Os} → Caller os → Type 0
IsAlive (waiting s p) = Unit
IsAlive (joining s p code) = Unit
IsAlive terminated = ⊥

module _ (os : Os) {I O E : Type 0} (ends : Ends I O E) where
  -- A step of one thread.
  pub data Step : Exec os I O E → Exec os I O E → Type 0 where
    writes :
        (source : Source) (i : I) (buf : List ℕ) (t2 : Worker O) (t3 : Worker E) (c : Caller os)
        → IsAlive c
        → Step (threads (copying source i buf) t2 t3 c) (
            threads
              (copy_round (Ends.child_stdin ends) (Ends.close_child_stdin ends) source i buf)
              t2
              t3
              c)
    reads_out :
        (source : Source) (o : O) (buf : List ℕ) (t1 : Worker I) (t3 : Worker E) (c : Caller os)
        → IsAlive c
        → Step
            (threads t1 (copying source o buf) t3 c)
            (threads t1 (copy_round (Ends.cout ends) same source o buf) t3 c)
    reads_err :
        (source : Source) (e : E) (buf : List ℕ) (t1 : Worker I) (t2 : Worker O) (c : Caller os)
        → IsAlive c
        → Step
            (threads t1 t2 (copying source e buf) c)
            (threads t1 t2 (copy_round (Ends.cerr ends) same source e buf) c)
    waits :
        (t1 : Worker I) (t2 : Worker O) (t3 : Worker E) (s s' : Os.State os) (p p' : ProcessImpl)
        (code : ℤ)
        → wait os s p ≡ (s', p', some code)
        → Step (threads t1 t2 t3 (waiting s p)) (threads t1 t2 t3 (joining s' p' code))
    fails :
        (t1 : Worker I) (t2 : Worker O) (t3 : Worker E) (s s' : Os.State os) (p p' : ProcessImpl)
        → wait os s p ≡ (s', p', none)
        → Step (threads t1 t2 t3 (waiting s p)) (threads t1 t2 t3 terminated)

  -- Any number of steps, with their count.
  pub data Steps : ℕ → Exec os I O E → Exec os I O E → Type 0 where
    done : (x : Exec os I O E) → Steps 0 x x
    go_on : (n : ℕ) (x y z : Exec os I O E) → Step x y → Steps n y z → Steps (suc n) x z

  -- `exec` behind the constructor of the process.
  unfoldable pub exec_start :
      Os.State os → ProcessImpl → I → Source → Source → Source → O → E → Exec os I O E
  exec_start s p child_stdin cin child_stdout child_stderr cout cerr =
      threads (copying cin child_stdin []) (copying child_stdout cout [])
        (copying child_stderr cerr []) (waiting s p)

  -- `exec` for streams, where `stdin_of` and `source_of` are what a descriptor gives access to.
  -- There is no call where the constructor throws, and in the child.
  unfoldable pub exec :
      (Option ℕ → I)
      → (Option ℕ → Source)
      → Os.State os
      → Launched
      → Source
      → O
      → E
      → Option (Exec os I O E)
  unfolding exec_start
  exec stdin_of source_of s (started p fds) cin cout cerr = some (
      exec_start s p (stdin_of fds.child_stdin) cin (source_of fds.child_stdout)
        (source_of fds.child_stderr) cout cerr)
  exec stdin_of source_of s no_pipes cin cout cerr = none
  exec stdin_of source_of s no_fork cin cout cerr = none
  exec stdin_of source_of s child cin cout cerr = none

  -- `ss_in << input`
  unfoldable pub exec_input :
      (Option ℕ → I)
      → (Option ℕ → Source)
      → Os.State os
      → Launched
      → O
      → E
      → List ℕ
      → Option (Exec os I O E)
  unfolding exec
  exec_input stdin_of source_of s launched cout cerr input =
      exec stdin_of source_of s launched (record { rest = input; good = true }) cout cerr

-- `std::stringstream`
abbrev pub stringstream : Ostream (List ℕ)
stringstream = record { good = λ o. true; write = λ o text. o ++ text; flush = λ o. o }

module _ (os : Os) {I : Type 0} (child_stdin : Ostream I) (close_child_stdin : I → I) where
  abbrev pub string_ends : Ends I (List ℕ) (List ℕ)
  string_ends = record {
    child_stdin = child_stdin;
    close_child_stdin = close_child_stdin;
    cout = stringstream;
    cerr = stringstream;
  }

  -- `ss_out` and `ss_err`
  unfoldable pub exec_strings :
      (Option ℕ → I)
      → (Option ℕ → Source)
      → Os.State os
      → Launched
      → List ℕ
      → Option (Exec os I (List ℕ) (List ℕ))
  unfolding exec_input
  exec_strings stdin_of source_of s launched input =
      exec_input os string_ends stdin_of source_of s launched [] [] input

-- `std::make_tuple(res, ss_out.str(), ss_err.str())`, once the threads are joined.
unfoldable pub tuple_of :
    {os : Os} {I : Type 0} → Exec os I (List ℕ) (List ℕ) → Option (ℤ × List ℕ × List ℕ)
tuple_of (threads (copied i) (copied o) (copied e) (joining s p code)) = some (code, o, e)
tuple_of _ = none

-- `exec_no_redirect`; `none` is an exception, and there is no call in the child.
unfoldable pub exec_no_redirect : (os : Os) → Os.State os → Launched → Option (Answer os ℤ)
exec_no_redirect os s (started p fds) = some (wait os s p)
exec_no_redirect os s no_pipes = none
exec_no_redirect os s no_fork = none
exec_no_redirect os s child = none
