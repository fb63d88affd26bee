-- ===== src/Process/Exec/Blocking.antt =====
-- http_audio_server/process.cpp, `Process::exec` on strings, for pipes that hold a limited number of
-- bytes: a read from an empty pipe, a write to a full one, and the wait for the child block. In
-- contrast to `Step` of Process/Exec, where any order of the rounds is a schedule, a step is here
-- only what the pipes let through, and the child is a part of the state.
use http_audio_server.Common.{ℕ, ◌<◌, Option, none, some, List, [], ◌∷◌, ◌++◌, length}
use http_audio_server.Common.Int.{ℤ}
use http_audio_server.Pipe.{take_byte, put_rest}
use http_audio_server.Process.Exec.{stringstream}

-- Any child: it ends with an exit code, writes a byte to its output or to its errors, or reads a
-- byte of its input, where `none` is the end of the input.
pub data Script : Type 0 where
  ends_with : ℤ → Script
  to_out to_err : ℕ → Script → Script
  from_in : (Option ℕ → Script) → Script

abbrev pub HasEnded : Script → Type 0
HasEnded (ends_with code) = Unit
HasEnded (to_out c k) = ⊥
HasEnded (to_err c k) = ⊥
HasEnded (from_in f) = ⊥

-- The thread `t1`: the bytes of a `write` that is under way, and what the loop of `generic_pipe` has
-- yet to read with its buffer, or `none` behind the loop; or the child's input is closed.
pub data Feeder : Type 0 where
  feeding : List ℕ → Option (List ℕ × List ℕ) → Feeder
  closed_stdin : Feeder

-- A thread `t2` or `t3`: what it has written, with its buffer, or what it has written at its end.
pub data Collector : Type 0 where
  collecting : List ℕ → List ℕ → Collector
  collected : List ℕ → Collector

-- A thread with the bytes in its pipe, and all that the child has written to the pipe.
pub data Channel : Type 0 where
  channel : Collector → List ℕ → List ℕ → Channel

-- The child, `t1`, the bytes in the pipe to the child, `t2`, `t3`, and the result of `proc.wait()`.
pub data Run : Type 0 where
  run : Script → Feeder → List ℕ → Channel → Channel → Option ℤ → Run

-- A step of `generic_pipe` from a pipe: a byte, or the end, which is there when the child has ended.
pub data ChannelStep (p : Script) : Channel → Channel → Type 0 where
  takes :
      (o buf : List ℕ) (c : ℕ) (pipe said : List ℕ)
      → ChannelStep p (channel (collecting o buf) (c ∷ pipe) said) (
          channel
            (collecting (take_byte stringstream o buf c).0 (take_byte stringstream o buf c).1)
            pipe
            said)
  stops :
      (o buf said : List ℕ)
      → HasEnded p
      → ChannelStep p
          (channel (collecting o buf) [] said)
          (channel (collected (put_rest stringstream (o, buf))) [] said)

-- A step of `generic_writer`, on the pipe to the child. A write to a child that has ended fails, since
-- mongoose has the server ignore SIGPIPE, and ends the loop.
pub data FeederStep (cap : ℕ) (p : Script) : Feeder → List ℕ → Feeder → List ℕ → Type 0 where
  reads_input :
      (c : ℕ) (rest buf pipe : List ℕ)
      → FeederStep cap p
          (feeding [] (some (c ∷ rest, buf)))
          pipe
          (feeding
            (take_byte stringstream [] buf c).0
            (some (rest, (take_byte stringstream [] buf c).1)))
          pipe
  reads_end :
      (buf pipe : List ℕ)
      → FeederStep cap p
          (feeding [] (some ([], buf)))
          pipe
          (feeding (put_rest stringstream ([], buf)) none)
          pipe
  puts :
      (c : ℕ) (left : List ℕ) (more : Option (List ℕ × List ℕ)) (pipe : List ℕ)
      → length pipe < cap
      → FeederStep cap p (feeding (c ∷ left) more) pipe (feeding left more) (pipe ++ c ∷ [])
  breaks :
      (c : ℕ) (left : List ℕ) (more : Option (List ℕ × List ℕ)) (pipe : List ℕ)
      → HasEnded p
      → FeederStep cap p (feeding (c ∷ left) more) pipe closed_stdin pipe
  closes : (pipe : List ℕ) → FeederStep cap p (feeding [] none) pipe closed_stdin pipe

-- A step of a thread, of the caller, or of the child, for pipes of `cap` bytes.
pub data BlockingStep (cap : ℕ) : Run → Run → Type 0 where
  t1_goes_on :
      (p : Script) (t t' : Feeder) (pipe pipe' : List ℕ) (out err : Channel) (res : Option ℤ)
      → FeederStep cap p t pipe t' pipe'
      → BlockingStep cap (run p t pipe out err res) (run p t' pipe' out err res)
  t2_goes_on :
      (p : Script) (t : Feeder) (pipe : List ℕ) (out out' err : Channel) (res : Option ℤ)
      → ChannelStep p out out'
      → BlockingStep cap (run p t pipe out err res) (run p t pipe out' err res)
  t3_goes_on :
      (p : Script) (t : Feeder) (pipe : List ℕ) (out err err' : Channel) (res : Option ℤ)
      → ChannelStep p err err'
      → BlockingStep cap (run p t pipe out err res) (run p t pipe out err' res)
  waits_for :
      (code : ℤ) (t : Feeder) (pipe : List ℕ) (out err : Channel)
      → BlockingStep cap
          (run (ends_with code) t pipe out err none)
          (run (ends_with code) t pipe out err (some code))
  says :
      (c : ℕ) (k : Script) (t : Feeder) (pipe : List ℕ) (t2 : Collector) (held said : List ℕ)
      (err : Channel) (res : Option ℤ)
      → length held < cap
      → BlockingStep cap
          (run (to_out c k) t pipe (channel t2 held said) err res)
          (run k t pipe (channel t2 (held ++ c ∷ []) (said ++ c ∷ [])) err res)
  says_err :
      (c : ℕ) (k : Script) (t : Feeder) (pipe : List ℕ) (out : Channel) (t3 : Collector)
      (held said : List ℕ) (res : Option ℤ)
      → length held < cap
      → BlockingStep cap
          (run (to_err c k) t pipe out (channel t3 held said) res)
          (run k t pipe out (channel t3 (held ++ c ∷ []) (said ++ c ∷ [])) res)
  hears :
      (f : Option ℕ → Script) (t : Feeder) (c : ℕ) (pipe : List ℕ) (out err : Channel)
      (res : Option ℤ)
      → BlockingStep cap
          (run (from_in f) t (c ∷ pipe) out err res)
          (run (f (some c)) t pipe out err res)
  hears_end :
      (f : Option ℕ → Script) (out err : Channel) (res : Option ℤ)
      → BlockingStep cap
          (run (from_in f) closed_stdin [] out err res)
          (run (f none) closed_stdin [] out err res)

-- `exec` behind the constructor of the process, for `ss_in` with this text.
unfoldable pub blocking_start : Script → List ℕ → Run
blocking_start p input =
    run p (feeding [] (some (input, []))) [] (channel (collecting [] []) [] [])
      (channel (collecting [] []) [] []) none
