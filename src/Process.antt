-- ===== src/Process.antt =====
-- http_audio_server/process.cpp, the class `ProcessImpl` behind its constructor: the state of a
-- child process. The operating system is a record of its calls.
pub mod Status
pub mod Launch
pub mod Exec
pub mod Class
mod Tests
use http_audio_server.Common.{ℕ, Bool, true, false, Option, none, some, ◌==◌}
use http_audio_server.Common.Int.{ℤ, pos, sub_ℕ}

-- What `waitpid` reports: -1, 0, or a change of state as `WIFEXITED` and `WIFSIGNALED` read it.
pub data Waited : Type 0 where
  failed unchanged stopped : Waited
  exited : ℕ → Waited
  signaled : ℕ → Waited

-- `waitpid(pid, &status, block ? 0 : WNOHANG)`, and whether `kill(pid, signal)` gives 0; `read_out`
-- is the state when a descriptor was read to its end, since a child that waits for a reader does
-- not end before that.
pub record Os : Type 1 where
  pub State : Type 0
  pub waitpid : State → ℕ → Bool → State × Waited
  pub kill : State → ℕ → ℕ → State × Bool
  pub read_out : State → Option ℕ → State

pub record ProcessImpl : Type 0 where
  pub pid : ℕ
  pub exitcode : ℤ

module _ (os : Os) where
  -- The state of the system, that of the object, and the result; `none` is an exception.
  abbrev pub Answer : Type 0 → Type 0
  Answer A = Os.State os × ProcessImpl × Option A

  -- The branches for the result of `waitpid`.
  unfoldable pub note_status : ProcessImpl → Os.State os × Waited → Answer Bool
  note_status p (s, failed) = (s, p, none)
  note_status p (s, unchanged) = (s, p, some true)
  note_status p (s, stopped) = (s, p, some true)
  note_status p (s, exited n) = (s, record { pid = 0; exitcode = pos n }, some false)
  note_status p (s, signaled n) = (s, record { pid = 0; exitcode = sub_ℕ 0 n }, some false)

  unfoldable pub update_status : Os.State os → ProcessImpl → Bool → Answer Bool
  unfolding note_status
  update_status s p block = elim (p.pid == 0) [
    | true ↦ (s, p, some false)
    | false ↦ note_status p (Os.waitpid os s p.pid block)
  ]

  unfoldable pub running : Os.State os → ProcessImpl → Answer Bool
  running s p = update_status s p false

  abbrev pub with_exitcode : Answer Bool → Answer ℤ
  with_exitcode (s, p, none) = (s, p, none)
  with_exitcode (s, p, some alive) = (s, p, some p.exitcode)

  unfoldable pub wait : Os.State os → ProcessImpl → Answer ℤ
  unfolding update_status
  wait s p = with_exitcode (update_status s p true)

  unfoldable pub signal : Os.State os → ProcessImpl → ℕ → Os.State os × Bool
  signal s p number = Os.kill os s p.pid number
