-- ===== src/Process/Launch.antt =====
-- http_audio_server/process.cpp, the constructor and the destructor of `ProcessImpl`, and
-- `close_child_stdin`: the calls to the system, and the descriptors that the streams own.
pub mod Descriptors
pub mod Wiring
use http_audio_server.Common.{
  ℕ, Bool, true, false, Option, none, some, List, [], ◌∷◌, ◌++◌, if◌then◌else◌,
}
use http_audio_server.Common.Int.{ℤ, pos}
use http_audio_server.Process.{ProcessImpl}

-- A call to the system, with what it gave: the two ends of a pipe, with the flag O_CLOEXEC, or a
-- new descriptor.
pub data SysCall : Type 0 where
  piped : Bool → ℕ → ℕ → SysCall
  closed : ℕ → SysCall
  duped : ℕ → ℕ → SysCall
  dup2ed : ℕ → ℕ → SysCall
  execed : List ℕ → List (Option (List ℕ)) → SysCall

-- `fork()` gives 0, a number above 0, or -1.
pub data Forked : Type 0 where
  in_child fork_failed : Forked
  in_parent : ℕ → Forked

-- What the system answers: the n-th `pipe2`, with `none` for an error, `fork`, and `dup`, with
-- `none` for -1.
pub record Sys : Type 0 where
  pub pipe2 : ℕ → Option (ℕ × ℕ)
  pub fork : Forked
  pub dup : ℕ → Option ℕ

-- The descriptors of the three file buffers; `none` is -1, or for `child_stdin` a buffer that is
-- gone.
pub record ChildStreams : Type 0 where
  pub child_stdout : Option ℕ
  pub child_stderr : Option ℕ
  pub child_stdin : Option ℕ

-- The ends of the three pipes, reading end first.
pub record Pipes : Type 0 where
  pub out : ℕ × ℕ
  pub err : ℕ × ℕ
  pub inp : ℕ × ℕ

-- The object; an exception about pipes or about the fork; or the child, whose `execvp` does not
-- return, or else `exit(1)`.
pub data Launched : Type 0 where
  started : ProcessImpl → ChildStreams → Launched
  no_pipes no_fork child : Launched

-- The conditions of the first `if`, of which a later one is not tried behind an error.
unfoldable pub make_pipes : Sys → Option Pipes × List SysCall
make_pipes sys = elim (sys.pipe2 0) [
  | none ↦ (none, [])
  | some (r, w) ↦ elim (sys.pipe2 1) [
    | none ↦ (none, piped true r w ∷ [])
    | some (r', w') ↦ elim (sys.pipe2 2) [
      | none ↦ (none, piped true r w ∷ piped true r' w' ∷ [])
      | some (r'', w'') ↦ (
        some (record { out = (r, w); err = (r', w'); inp = (r'', w'') }),
        piped true r w ∷ piped true r' w' ∷ piped true r'' w'' ∷ [],
      )
    ]
  ]
]

-- The vector for `execvp`, where `none` is the null pointer.
abbrev pub arguments : List (List ℕ) → List (Option (List ℕ))
arguments [] = none ∷ []
arguments (arg ∷ args) = some arg ∷ arguments args

abbrev pub argv : List ℕ → List (List ℕ) → List (Option (List ℕ))
argv cmd args = some cmd ∷ arguments args

-- The child's part.
unfoldable pub child_part : List ℕ → List (List ℕ) → Option Pipes → List SysCall
child_part cmd args none = execed cmd (argv cmd args) ∷ []
child_part cmd args (some p) =
    dup2ed p.out.1 1 ∷ dup2ed p.err.1 2 ∷ dup2ed p.inp.0 0 ∷ execed cmd (argv cmd args) ∷ []

abbrev dup_call : Sys → ℕ → List SysCall
dup_call sys fd = elim (sys.dup fd) [ none ↦ [] | some fd' ↦ duped fd fd' ∷ [] ]

-- The parent's part; without pipes the streams are copies of its own.
unfoldable pub parent_part : Sys → Option Pipes → ChildStreams × List SysCall
parent_part sys none = (
  record { child_stdout = sys.dup 1; child_stderr = sys.dup 2; child_stdin = sys.dup 0 },
  dup_call sys 1 ++ (dup_call sys 2 ++ dup_call sys 0),
)
parent_part sys (some p) = (
  record { child_stdout = some p.out.0; child_stderr = some p.err.0; child_stdin = some p.inp.1 },
  closed p.out.1 ∷ closed p.err.1 ∷ closed p.inp.0 ∷ [],
)

-- Behind the pipes.
unfoldable pub fork_part : Sys → List ℕ → List (List ℕ) → Option Pipes → Launched × List SysCall
unfolding child_part parent_part
fork_part sys cmd args pipes = elim sys.fork [
  | in_child ↦ (child, child_part cmd args pipes)
  | fork_failed ↦ (no_fork, [])
  | in_parent pid ↦ (
    started (record { pid = pid; exitcode = pos 0 }) (parent_part sys pipes).0,
    (parent_part sys pipes).1,
  )
]

abbrev pub behind : List SysCall → Launched × List SysCall → Launched × List SysCall
behind calls (result, more) = (result, calls ++ more)

abbrev pub with_pipes :
    Sys → List ℕ → List (List ℕ) → Option Pipes × List SysCall → Launched × List SysCall
with_pipes sys cmd args (none, calls) = (no_pipes, calls)
with_pipes sys cmd args (some p, calls) = behind calls (fork_part sys cmd args (some p))

-- `ProcessImpl(cmd, args, do_redirect)`
unfoldable pub new_process : Sys → List ℕ → List (List ℕ) → Bool → Launched × List SysCall
unfolding make_pipes fork_part
new_process sys cmd args do_redirect =
    if do_redirect then with_pipes sys cmd args (make_pipes sys) else fork_part sys cmd args none

-- A file buffer that goes away closes its descriptor.
abbrev pub drop_buffer : Option ℕ → List SysCall
drop_buffer none = []
drop_buffer (some fd) = closed fd ∷ []

unfoldable pub close_child_stdin : ChildStreams → ChildStreams × List SysCall
close_child_stdin s = (record s { child_stdin = none }, drop_buffer s.child_stdin)

-- The members that the destructor destroys behind its `wait`, the last one first.
unfoldable pub drop_streams : ChildStreams → List SysCall
drop_streams s =
    drop_buffer s.child_stdin ++ (drop_buffer s.child_stderr ++ drop_buffer s.child_stdout)
