-- ===== src/Decoder/Child.antt =====
-- http_audio_server/decoder.cpp, the class `DecoderImpl` around its `read`: the child process, the
-- thread that collects its messages, and the end of both.
pub mod Drain
use http_audio_server.Common.{
  ℕ, zero, suc, Bool, true, false, Option, none, some, List, [], ◌∷◌, ◌++◌, ◌==◌,
}
use http_audio_server.Common.Int.{ℤ}
use http_audio_server.Common.Text.{codes}
use http_audio_server.Pipe.{Source, generic_pipe}
use http_audio_server.Process.{Os, ProcessImpl, wait, signal}
use http_audio_server.Process.Launch.{
  SysCall, ChildStreams, Launched, started, no_pipes, no_fork, child, Sys, new_process,
  close_child_stdin,
}
use http_audio_server.Process.Exec.{stringstream}
use http_audio_server.Decoder.{read}
use http_audio_server.Decoder.Format.{AudioFormat, ffmpeg_args}

-- `output` and `errors` are what the descriptors of the child give access to; `msgs` is the text
-- that the thread of the messages has collected.
pub record DecoderImpl : Type 0 where
  pub process : ProcessImpl
  pub streams : ChildStreams
  pub output : Source
  pub errors : Source
  pub msgs : List ℕ

-- The object, an exception, or the child.
pub data Made : Type 0 where
  made : DecoderImpl → Made
  refused forked : Made

-- The thread is started, and `close_child_stdin` follows.
abbrev pub with_process : (Option ℕ → Source) → Launched × List SysCall → Made × List SysCall
with_process source_of (started p fds, calls) = (
  made (record {
    process = p;
    streams = (close_child_stdin fds).0;
    output = source_of fds.child_stdout;
    errors = source_of fds.child_stderr;
    msgs = [];
  }),
  calls ++ (close_child_stdin fds).1,
)
with_process source_of (no_pipes, calls) = (refused, calls)
with_process source_of (no_fork, calls) = (refused, calls)
with_process source_of (child, calls) = (forked, calls)

-- `DecoderImpl(filename, offs, output_fmt)`, where `start` is the text of `offs`, if it is positive.
unfoldable pub new_decoder :
    Sys → (Option ℕ → Source) → List ℕ → Option (List ℕ) → AudioFormat → Made × List SysCall
unfolding new_process close_child_stdin ffmpeg_args
new_decoder sys source_of filename start fmt = elim (ffmpeg_args filename start fmt) [
  | none ↦ (refused, [])
  | some args ↦ with_process source_of (new_process sys (codes "ffmpeg") args true)
]

-- `while (read(4096, null)) null.clear();`, with the stream that is left; `none` is out of fuel.
unfoldable pub drain : ℕ → Source → Option Source
unfolding read
drain zero is = none
drain (suc fuel) is =
    let (is', null, n) = read is 4096 [] in
    let more = drain fuel is' in elim (n == 0) [ true ↦ some is' | false ↦ more ]

-- `m_process.wait()`, when the output was read to its end.
abbrev pub after_drain :
    (os : Os)
    → Os.State os
    → DecoderImpl
    → Option Source
    → Option (Os.State os × DecoderImpl × Option ℤ)
after_drain os s d none = none
after_drain os s d (some is) =
    let (s', p, code) = wait os (Os.read_out os s d.streams.child_stdout) d.process in
    some (s', record d { process = p; output = is }, code)

module _ (os : Os) where
  -- `wait()`: the signal 2, the rest of the output, and the end of the process.
  unfoldable pub wait_decoder :
      ℕ → Os.State os → DecoderImpl → Option (Os.State os × DecoderImpl × Option ℤ)
  unfolding drain signal
  wait_decoder fuel s d = after_drain os (signal os s d.process 2).0 d (drain fuel d.output)

  -- The thread of the messages runs to its end.
  unfoldable pub join_messages : DecoderImpl → DecoderImpl
  join_messages d = record d { msgs = generic_pipe stringstream d.errors d.msgs }

  abbrev pub joined :
      Option (Os.State os × DecoderImpl × Option ℤ) → Option (Os.State os × DecoderImpl × Option ℤ)
  joined none = none
  joined (some (s, d, none)) = some (s, d, none)
  joined (some (s, d, some code)) = some (s, join_messages d, some code)

  -- `~DecoderImpl()`; an exception of `wait` ends the program.
  unfoldable pub destroy_decoder :
      ℕ → Os.State os → DecoderImpl → Option (Os.State os × DecoderImpl × Option ℤ)
  unfolding wait_decoder join_messages
  destroy_decoder fuel s d = joined (wait_decoder fuel s d)

unfoldable pub messages : DecoderImpl → List ℕ
messages d = d.msgs
