-- ===== src/Process/Status.antt =====
-- What is known of a child process behind a call of `running` or `wait`.
use http_audio_server.Common.{
  ℕ, ◌≡◌, ◌≢◌, refl, ap, ◌∙◌, sym, subst, Bool, true, false, Option, none, some, ==_ne, arith,
}
use native.Mathlib.Decide.{ℕ_discrete}
use http_audio_server.Common.Int.{ℤ, pos, sub_ℕ}
use http_audio_server.Process.{
  Waited, exited, signaled, failed, unchanged, stopped, Os, ProcessImpl, note_status, update_status,
  running, with_exitcode, wait, signal,
}

-- How a process ends, and the exit code for it.
pub data Ending : Waited → ℤ → Type 0 where
  by_exit : (n : ℕ) → Ending (exited n) (pos n)
  by_signal : (n : ℕ) → Ending (signaled n) (sub_ℕ 0 n)

module _ (os : Os) where
  -- What an answer says of the process `p`.
  pub data Known (p p' : ProcessImpl) : Option Bool → Type 0 where
    alive : p' ≡ p → p.pid ≢ 0 → Known p p' (some true)
    ended : p'.pid ≡ 0 → Known p p' (some false)
    error : p' ≡ p → Known p p' none

  note_status-Known :
      (p : ProcessImpl) (r : Os.State os × Waited)
      → p.pid ≢ 0
      → let (s, p', a) = note_status os p r in Known p p' a
  unfolding note_status
  note_status-Known p (s, failed) h = error refl
  note_status-Known p (s, unchanged) h = alive refl h
  note_status-Known p (s, stopped) h = alive refl h
  note_status-Known p (s, exited n) h = ended refl
  note_status-Known p (s, signaled n) h = ended refl

  pub update_status_ended :
      (s : Os.State os) (p : ProcessImpl) (block : Bool)
      → p.pid ≡ 0
      → update_status os s p block ≡ (s, p, some false)
  unfolding update_status
  update_status_ended s p block h = ground arith

  update_status_waits :
      (s : Os.State os) (p : ProcessImpl) (block : Bool)
      → p.pid ≢ 0
      → update_status os s p block ≡ note_status os p (Os.waitpid os s p.pid block)
  unfolding update_status
  update_status_waits s p block h =
      ap
        (λ b. elim b [
          | true ↦ (s, p, some false)
          | false ↦ note_status os p (Os.waitpid os s p.pid block)
        ])
        (==_ne p.pid 0 h)

  -- The answer of `update_status` is true only for a child that was not seen to end, and then
  -- nothing changes; behind the answer false the child is known to have ended; an error of the
  -- system changes nothing.
  pub update_status-Known :
      (s : Os.State os) (p : ProcessImpl) (block : Bool)
      → let (s', p', a) = update_status os s p block in Known p p' a
  update_status-Known s p block = elim (ℕ_discrete p.pid 0) [
    | yes z ↦
        subst (λ (r : Os.State os × ProcessImpl × Option Bool). Known p (r.1) (r.2))
          (sym (update_status_ended s p block z)) (ended z)
    | no nz ↦
        subst (λ (r : Os.State os × ProcessImpl × Option Bool). Known p (r.1) (r.2))
          (sym (update_status_waits s p block nz)) (note_status-Known p _ nz)
  ]

  -- If the system reports how the child ends, `wait` returns the exit code, or the signal as a
  -- negative number; from then on `wait` gives the same, and `running` gives false, without asking
  -- the system.
  pub wait_ends :
      (s s' t : Os.State os) (p : ProcessImpl) (w : Waited) (code : ℤ)
      → p.pid ≢ 0
      → Os.waitpid os s p.pid true ≡ (s', w)
      → Ending w code
      → (p' : ProcessImpl) × (wait os s p ≡ (s', p', some code))
        × (p'.exitcode ≡ code)
        × (wait os t p' ≡ (t, p', some code))
        × (running os t p' ≡ (t, p', some false))
  unfolding wait running note_status
  wait_ends s s' t p w code h e (by_exit n) =
      let p' : ProcessImpl = record { pid = 0; exitcode = pos n } in
      (
        p',
        ap (with_exitcode os) (update_status_waits s p true h ∙ ap (note_status os p) e),
        refl,
        ap (with_exitcode os) (update_status_ended t p' true refl),
        update_status_ended t p' false refl,
      )
  wait_ends s s' t p w code h e (by_signal n) =
      let p' : ProcessImpl = record { pid = 0; exitcode = sub_ℕ 0 n } in
      (
        p',
        ap (with_exitcode os) (update_status_waits s p true h ∙ ap (note_status os p) e),
        refl,
        ap (with_exitcode os) (update_status_ended t p' true refl),
        update_status_ended t p' false refl,
      )

  -- A signal that is sent behind such a `wait` goes to the process 0: the system takes this as the
  -- process group of the caller.
  pub signal-wait :
      (s s' t : Os.State os) (p : ProcessImpl) (w : Waited) (code : ℤ) (number : ℕ)
      → p.pid ≢ 0
      → Os.waitpid os s p.pid true ≡ (s', w)
      → Ending w code
      → (p' : ProcessImpl) × (wait os s p ≡ (s', p', some code))
        × (signal os t p' number ≡ Os.kill os t 0 number)
  unfolding wait signal note_status
  signal-wait s s' t p w code number h e (by_exit n) =
      (_, ap (with_exitcode os) (update_status_waits s p true h ∙ ap (note_status os p) e), refl)
  signal-wait s s' t p w code number h e (by_signal n) =
      (_, ap (with_exitcode os) (update_status_waits s p true h ∙ ap (note_status os p) e), refl)
