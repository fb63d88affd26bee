-- ===== src/Process/Tests.antt =====
-- A child process that ends with the exit code 3.
use http_audio_server.Common.{
  ℕ, zero, suc, ◌==◌, ◌≡◌, refl, true, false, Option, none, some, List, [], ◌∷◌, ◌++◌,
  if◌then◌else◌, arith, All, ltb,
}
use http_audio_server.Common.Int.{pos}
use http_audio_server.Common.Text.{codes}
use http_audio_server.Pipe.{Source, take_byte, put_out, put_rest, ends_line}
use http_audio_server.Process.{Os, exited, ProcessImpl, wait, running, update_status, note_status}
use http_audio_server.Process.Status.{by_exit, wait_ends}
use http_audio_server.Process.Launch.{
  SysCall, in_child, in_parent, Sys, ChildStreams, Pipes, started, child, argv, new_process,
  close_child_stdin, drop_streams,
}
use http_audio_server.Process.Launch.Descriptors.{
  Distinct, six, open_after, new_process-drop_streams,
}
use http_audio_server.Process.Launch.Wiring.{
  Slot, other, reads_from, writes_to, refers, program, new_process_wiring,
}
use http_audio_server.Process.Exec.{
  copied, copy_round, Caller, joining, Ends, Exec, threads, writes, reads_out, reads_err, waits,
  Steps, done, go_on, exec_start, exec, exec_input, exec_strings, stringstream, string_ends,
  tuple_of,
}
use http_audio_server.Process.Exec.Result.{exec_strings_lem}
use http_audio_server.Process.Exec.Blocking.{
  Script, ends_with, to_out, to_err, from_in, blocking_start,
}
use http_audio_server.Process.Exec.Returns.{Reaches, exec_returns}

-- The state of the system counts the calls.
abbrev demo : Os
demo = record {
  State = ℕ;
  waitpid = λ s pid block. (5, exited 3);
  kill = λ s pid number. (s, true);
  read_out = λ s fd. s;
}

abbrev process : ProcessImpl
process = record { pid = 42; exitcode = pos 0 }

wait_ends_example :
    (p' : ProcessImpl) × (wait demo 0 process ≡ (5, p', some (pos 3)))
    × (p'.exitcode ≡ pos 3)
    × (wait demo 9 p' ≡ (9, p', some (pos 3)))
    × (running demo 9 p' ≡ (9, p', some false))
wait_ends_example =
    wait_ends demo 0 5 9 process (exited 3) (pos 3) (λ e. omega arith) refl (by_exit 3)

-- Pipes of the descriptors from 3 to 8.
abbrev pipes : Pipes
pipes = record { out = (3, 4); err = (5, 6); inp = (7, 8) }

abbrev pipe_number : ℕ → Option (ℕ × ℕ)
pipe_number zero = some (3, 4)
pipe_number (suc zero) = some (5, 6)
pipe_number (suc (suc n)) = some (7, 8)

abbrev sys : Sys
sys = record { pipe2 = pipe_number; fork = in_parent 42; dup = λ fd. none }

pipes-Distinct : Distinct (six pipes)
pipes-Distinct = (
  (
    (λ e. omega arith),
    ((λ e. omega arith), ((λ e. omega arith), ((λ e. omega arith), ((λ e. omega arith), tt)))),
  ),
  (
    ((λ e. omega arith), ((λ e. omega arith), ((λ e. omega arith), ((λ e. omega arith), tt)))),
    (
      ((λ e. omega arith), ((λ e. omega arith), ((λ e. omega arith), tt))),
      (((λ e. omega arith), ((λ e. omega arith), tt)), (((λ e. omega arith), tt), (tt, tt))),
    ),
  ),
)

new_process-drop_streams_example :
    (s : ChildStreams) × (calls : List SysCall) × (new_process sys (codes "ls") [] true
      ≡ (started (record { pid = 42; exitcode = pos 0 }) s, calls))
    × (s ≡ record { child_stdout = some 3; child_stderr = some 5; child_stdin = some 8 })
    × (open_after [] calls ≡ 3 ∷ 5 ∷ 8 ∷ [])
    × (open_after [] (calls ++ drop_streams s) ≡ [])
    × (let (s', more) = close_child_stdin s in
        open_after [] (calls ++ (more ++ drop_streams s')) ≡ [])
new_process-drop_streams_example =
    new_process-drop_streams sys (codes "ls") [] pipes 42 refl refl refl refl pipes-Distinct

-- The server has its three standard descriptors.
abbrev standard_slots : ℕ → Option Slot
standard_slots fd = if ltb fd 3 then some (record { target = other fd; cloexec = false }) else none

new_process_wiring_example :
    (out err inp : ℕ) × (calls calls' : List SysCall) × (new_process
        (record sys { fork = in_parent 42 })
        (codes "ls")
        []
        true
      ≡ (
        started
            (record { pid = 42; exitcode = pos 0 })
            (record { child_stdout = some out; child_stderr = some err; child_stdin = some inp }),
        calls,
      ))
    × (new_process (record sys { fork = in_child }) (codes "ls") [] true ≡ (child, calls'))
    × ((refers standard_slots calls out ≡ some (reads_from 0))
        × (refers standard_slots calls' 1 ≡ some (writes_to 0)))
    × ((refers standard_slots calls err ≡ some (reads_from 1))
        × (refers standard_slots calls' 2 ≡ some (writes_to 1)))
    × ((refers standard_slots calls inp ≡ some (writes_to 2))
        × (refers standard_slots calls' 0 ≡ some (reads_from 2)))
    × All (λ fd. refers standard_slots calls' fd ≡ none) (six pipes)
    × (program calls' ≡ some (codes "ls", argv (codes "ls") []))
new_process_wiring_example =
    new_process_wiring sys (codes "ls") [] pipes 42 standard_slots refl refl refl pipes-Distinct
      (omega arith, (omega arith, (omega arith, (omega arith, (omega arith, (omega arith, tt))))))

abbrev streams : ChildStreams
streams = record { child_stdout = some 3; child_stderr = some 5; child_stdin = some 8 }

-- A child that writes "a" to its output, and nothing to its errors.
abbrev source_of : Option ℕ → Source
source_of none = record { rest = []; good = true }
source_of (some fd) = record { rest = (if fd == 3 then b'a' ∷ [] else []); good = true }

abbrev no_input : Option ℕ → List ℕ
no_input fd = []

abbrev closed_input : List ℕ → List ℕ
closed_input i = i

abbrev text_ends : Ends (List ℕ) (List ℕ) (List ℕ)
text_ends = string_ends demo stringstream closed_input

abbrev from_a : Source
from_a = record { rest = b'a' ∷ []; good = true }

abbrev empty : Source
empty = record { rest = []; good = true }

abbrev ended : Source
ended = record { rest = []; good = false }

abbrev first_state : Exec demo (List ℕ) (List ℕ) (List ℕ)
first_state = exec_start demo text_ends 0 process [] empty from_a empty [] []

abbrev last_state : Exec demo (List ℕ) (List ℕ) (List ℕ)
last_state =
    threads (copied []) (copied (b'a' ∷ [])) (copied [])
      (joining 5 (record { pid = 0; exitcode = pos 3 }) (pos 3))

abbrev waited : Caller demo
waited = joining 5 (record { pid = 0; exitcode = pos 3 }) (pos 3)

-- A schedule of the three threads and the caller.
whole_run : Steps demo text_ends 8 first_state last_state
unfolding exec_start copy_round take_byte put_out put_rest ends_line wait update_status note_status
whole_run = go_on _ _ _ _ (reads_out from_a [] [] _ _ _ tt) (
    go_on _ _ _ _ (writes empty [] [] _ _ _ tt) (
      go_on _ _ _ _ (waits _ _ _ 0 5 process (record { pid = 0; exitcode = pos 3 }) (pos 3) refl) (
        go_on _ _ _ _ (reads_out empty [] (b'a' ∷ []) _ _ waited tt) (
          go_on _ _ _ _ (reads_err empty [] [] _ _ waited tt) (
            go_on _ _ _ _ (writes ended [] [] _ _ waited tt) (
              go_on _ _ _ _ (reads_err ended [] [] _ _ waited tt)
                (go_on _ _ _ _ (reads_out ended [] (b'a' ∷ []) _ _ waited tt) (done _))))))))

abbrev a_text : List ℕ
a_text = b'a' ∷ []

abbrev no_text : List ℕ
no_text = []

exec_strings_lem_example :
    ((wait demo 0 process).2 ≡ some (pos 3))
    × (a_text ≡ (source_of (some 3)).rest)
    × (no_text ≡ (source_of (some 5)).rest)
unfolding exec_strings exec_input exec tuple_of exec_start
exec_strings_lem_example =
    exec_strings_lem demo (List ℕ) stringstream closed_input no_input source_of 0 process streams []
      first_state last_state 8 (pos 3) a_text no_text refl refl refl whole_run refl

-- A child that writes back the first byte of its input, twice to its output and once to its errors.
abbrev echo_byte : Option ℕ → Script
echo_byte none = ends_with (pos 1)
echo_byte (some c) = to_out c (to_err c (to_out c (ends_with (pos 0))))

exec_returns_example : Reaches 1 (blocking_start (from_in echo_byte) (b'a' ∷ b'b' ∷ []))
exec_returns_example = exec_returns 1 (omega arith) (from_in echo_byte) (b'a' ∷ b'b' ∷ [])
