-- ===== src/Process/Launch/Wiring.antt =====
-- Which pipe each stream of the parent and of the child stands for.
use http_audio_server.Common.{
  ℕ, suc, ◌<◌, ◌≡◌, ◌≢◌, refl, sym, ap, ◌∙◌, Bool, true, false, Option, none, some, List, [], ◌∷◌,
  ◌==◌, ==_ne, ==_self, All, if◌then◌else◌, arith,
}
use http_audio_server.Common.Int.{pos}
use http_audio_server.Process.Launch.{
  SysCall, piped, closed, duped, dup2ed, execed, argv, in_child, in_parent, Sys, Pipes, started,
  child, with_pipes, fork_part, child_part, parent_part, new_process,
}
use http_audio_server.Process.Launch.Descriptors.{Distinct, six, make_pipes_run}

-- What a descriptor refers to: an end of the n-th pipe that is made, or something else.
pub data Target : Type 0 where
  reads_from writes_to other : ℕ → Target

-- An open descriptor, and whether a call of `execvp` closes it.
pub record Slot : Type 0 where
  pub target : Target
  pub cloexec : Bool

-- The descriptors of a process, and the number of the pipes that were made.
pub record Table : Type 0 where
  pub made : ℕ
  pub slots : ℕ → Option Slot

unfoldable pub put : ℕ → Option Slot → (ℕ → Option Slot) → ℕ → Option Slot
put fd slot slots x = if x == fd then slot else slots x

-- A copy stays open at `execvp`.
abbrev pub copy_slot : Option Slot → Option Slot → Option Slot
copy_slot none old = old
copy_slot (some slot) old = some (record { target = slot.target; cloexec = false })

-- `dup2`, which does nothing to a descriptor itself.
unfoldable pub dup2 : (ℕ → Option Slot) → ℕ → ℕ → ℕ → Option Slot
unfolding put
dup2 slots from to = if from == to then slots else put to (copy_slot (slots from) (slots to)) slots

abbrev pub kept : Option Slot → Option Slot
kept none = none
kept (some slot) = if slot.cloexec then none else some slot

-- A call, by what the system documents of it.
unfoldable pub call_table : Table → SysCall → Table
unfolding put dup2
call_table t (piped cloexec r w) = record {
  made = suc t.made;
  slots =
      put w (some (record { target = writes_to t.made; cloexec = cloexec }))
        (put r (some (record { target = reads_from t.made; cloexec = cloexec })) t.slots);
}
call_table t (closed fd) = record t { slots = put fd none t.slots }
call_table t (duped from to) = record t {
  slots = put to (copy_slot (t.slots from) (t.slots to)) t.slots;
}
call_table t (dup2ed from to) = record t { slots = dup2 t.slots from to }
call_table t (execed cmd args) = record t { slots = λ fd. kept (t.slots fd) }

unfoldable pub table_after : Table → List SysCall → Table
unfolding call_table
table_after t [] = t
table_after t (call ∷ calls) = table_after (call_table t call) calls

-- The table at first, when no pipe was made.
abbrev pub before_pipes : (ℕ → Option Slot) → Table
before_pipes slots = record { made = 0; slots = slots }

abbrev target_of : Option Slot → Option Target
target_of none = none
target_of (some slot) = some slot.target

-- What a descriptor refers to behind the calls.
abbrev pub refers : (ℕ → Option Slot) → List SysCall → ℕ → Option Target
refers slots calls fd = target_of ((table_after (before_pipes slots) calls).slots fd)

put_same : (fd : ℕ) (slot : Option Slot) (slots : ℕ → Option Slot) → put fd slot slots fd ≡ slot
unfolding put
put_same fd slot slots = ap (λ b. if b then slot else slots fd) (==_self fd)

put_other :
    (fd x : ℕ) (slot : Option Slot) (slots : ℕ → Option Slot)
    → x ≢ fd
    → put fd slot slots x ≡ slots x
unfolding put
put_other fd x slot slots h = ap (λ b. if b then slot else slots x) (==_ne x fd h)

module _ (slots : ℕ → Option Slot) (from to : ℕ) (differs : from ≢ to) where
  dup2-put : dup2 slots from to ≡ put to (copy_slot (slots from) (slots to)) slots
  unfolding dup2
  dup2-put =
      ap (λ b. if b then slots else put to (copy_slot (slots from) (slots to)) slots)
        (==_ne from to differs)

  dup2_other : (x : ℕ) → x ≢ to → dup2 slots from to x ≡ slots x
  dup2_other x h =
      ap (λ (t : ℕ → Option Slot). t x) dup2-put
      ∙ put_other to x (copy_slot (slots from) (slots to)) slots h

  dup2_same :
      (slot : Slot)
      → slots from ≡ some slot
      → dup2 slots from to to ≡ some (record { target = slot.target; cloexec = false })
  dup2_same slot e =
      ap (λ (t : ℕ → Option Slot). t to) dup2-put
      ∙ put_same to (copy_slot (slots from) (slots to)) slots
      ∙ ap (λ o. copy_slot o (slots to)) e

-- Three pipes, whose six ends are descriptors above 2.
module _ (slots : ℕ → Option Slot) (p : Pipes) (distinct : Distinct (six p))
    (above : All (λ fd. 2 < fd) (six p)) where
  abbrev pipe_calls : List SysCall
  pipe_calls =
      piped true p.out.0 p.out.1 ∷ piped true p.err.0 p.err.1 ∷ piped true p.inp.0 p.inp.1 ∷ []

  abbrev ends : ℕ → Option Slot
  ends = (table_after (before_pipes slots) pipe_calls).slots

  abbrev Holding : Target → ℕ → Type 0
  Holding target fd = ends fd ≡ some (record { target = target; cloexec = true })

  ends_lem :
      Holding (reads_from 0) p.out.0
      × Holding (writes_to 0) p.out.1
      × Holding (reads_from 1) p.err.0
      × Holding (writes_to 1) p.err.1
      × Holding (reads_from 2) p.inp.0
      × Holding (writes_to 2) p.inp.1
  unfolding table_after call_table put
  ends_lem =
      let (
        (wr, (r'r, (w'r, (r''r, (w''r, _))))),
        (
          (r'w, (w'w, (r''w, (w''w, _)))),
          ((w'r', (r''r', (w''r', _))), ((r''w', (w''w', _)), ((w''r'', _), _))),
        ),
      ) =
        distinct in
      let (r, w) = p.out in
      let (r', w') = p.err in
      let (r'', w'') = p.inp in
      (
        rw
            (
              ==_ne r w'' (λ e. w''r (sym e)),
              ==_ne r r'' (λ e. r''r (sym e)),
              ==_ne r w' (λ e. w'r (sym e)),
              ==_ne r r' (λ e. r'r (sym e)),
              ==_ne r w (λ e. wr (sym e)),
              ==_self r,
            )
            refl,
        rw
            (
              ==_ne w w'' (λ e. w''w (sym e)),
              ==_ne w r'' (λ e. r''w (sym e)),
              ==_ne w w' (λ e. w'w (sym e)),
              ==_ne w r' (λ e. r'w (sym e)),
              ==_self w,
            )
            refl,
        rw
            (
              ==_ne r' w'' (λ e. w''r' (sym e)),
              ==_ne r' r'' (λ e. r''r' (sym e)),
              ==_ne r' w' (λ e. w'r' (sym e)),
              ==_self r',
            )
            refl,
        rw (==_ne w' w'' (λ e. w''w' (sym e)), ==_ne w' r'' (λ e. r''w' (sym e)), ==_self w') refl,
        rw (==_ne r'' w'' (λ e. w''r'' (sym e)), ==_self r'') refl,
        rw (==_self w'') refl,
      )

  -- The child's copies, one after the other.
  abbrev slots1 : ℕ → Option Slot
  slots1 = dup2 ends p.out.1 1

  abbrev slots2 : ℕ → Option Slot
  slots2 = dup2 slots1 p.err.1 2

  abbrev slots3 : ℕ → Option Slot
  slots3 = dup2 slots2 p.inp.0 0

  above_ne : (fd n : ℕ) → 2 < fd → n < 3 → fd ≢ n
  above_ne fd n h k e = absurd (omega (arith, h, k, e))

  -- A descriptor above 2 is not changed.
  high : (fd : ℕ) → 2 < fd → slots3 fd ≡ ends fd
  high fd h =
      let (_, (w_high, (_, (w'_high, (r''_high, _))))) = above in
      dup2_other slots2 p.inp.0 0 (above_ne p.inp.0 0 r''_high (omega arith)) fd
        (above_ne fd 0 h (omega arith))
      ∙ dup2_other slots1 p.err.1 2 (above_ne p.err.1 2 w'_high (omega arith)) fd
          (above_ne fd 2 h (omega arith))
      ∙ dup2_other ends p.out.1 1 (above_ne p.out.1 1 w_high (omega arith)) fd
          (above_ne fd 1 h (omega arith))

  abbrev Open : Target → Option Slot → Type 0
  Open target slot = slot ≡ some (record { target = target; cloexec = false })

  standard :
      Open (writes_to 0) (slots3 1) × Open (writes_to 1) (slots3 2) × Open (reads_from 2) (slots3 0)
  standard =
      let (_, (w_high, (_, (w'_high, (r''_high, _))))) = above in
      let w_ne = above_ne p.out.1 1 w_high (omega arith) in
      let w'_ne = above_ne p.err.1 2 w'_high (omega arith) in
      let r''_ne = above_ne p.inp.0 0 r''_high (omega arith) in
      let (_, w_end, _, w'_end, r''_end, _) = ends_lem in
      (
        dup2_other slots2 p.inp.0 0 r''_ne 1 (λ e. omega (arith, e))
            ∙ dup2_other slots1 p.err.1 2 w'_ne 1 (λ e. omega (arith, e))
            ∙ dup2_same ends p.out.1 1 w_ne _ w_end,
        dup2_other slots2 p.inp.0 0 r''_ne 2 (λ e. omega (arith, e))
            ∙ dup2_same slots1 p.err.1 2 w'_ne _ (
                dup2_other ends p.out.1 1 w_ne p.err.1 (above_ne p.err.1 1 w'_high (omega arith))
                ∙ w'_end),
        dup2_same slots2 p.inp.0 0 r''_ne _ (
            dup2_other slots1 p.err.1 2 w'_ne p.inp.0 (above_ne p.inp.0 2 r''_high (omega arith))
            ∙ dup2_other ends p.out.1 1 w_ne p.inp.0 (above_ne p.inp.0 1 r''_high (omega arith))
            ∙ r''_end),
      )

  abbrev Shut : ℕ → Type 0
  Shut fd = kept (slots3 fd) ≡ none

  end-Shut : (fd : ℕ) (target : Target) → 2 < fd → Holding target fd → Shut fd
  end-Shut fd target h e = ap kept (high fd h ∙ e)

  six-Shut : All Shut (six p)
  six-Shut =
      let (a, (b, (c, (d, (e, (f, _)))))) = above in
      let (ra, wb, rc, wd, re, wf) = ends_lem in
      (
        end-Shut p.out.0 (reads_from 0) a ra,
        (
          end-Shut p.out.1 (writes_to 0) b wb,
          (
            end-Shut p.err.0 (reads_from 1) c rc,
            (
              end-Shut p.err.1 (writes_to 1) d wd,
              (end-Shut p.inp.0 (reads_from 2) e re, (end-Shut p.inp.1 (writes_to 2) f wf, tt)),
            ),
          ),
        ),
      )

  -- The parent closes the far ends.
  abbrev near : ℕ → Option Slot
  near = put p.inp.0 none (put p.err.1 none (put p.out.1 none ends))

  near_other : (fd : ℕ) → fd ≢ p.out.1 → fd ≢ p.err.1 → fd ≢ p.inp.0 → near fd ≡ ends fd
  near_other fd a b c =
      put_other p.inp.0 fd none (put p.err.1 none (put p.out.1 none ends)) c
      ∙ put_other p.err.1 fd none (put p.out.1 none ends) b
      ∙ put_other p.out.1 fd none ends a

  abbrev HeldAt : Target → Option Slot → Type 0
  HeldAt target slot = slot ≡ some (record { target = target; cloexec = true })

  near_ends :
      HeldAt (reads_from 0) (near p.out.0)
      × HeldAt (reads_from 1) (near p.err.0)
      × HeldAt (writes_to 2) (near p.inp.1)
  near_ends =
      let (
        (wr, (r'r, (w'r, (r''r, (w''r, _))))),
        (
          (r'w, (w'w, (r''w, (w''w, _)))),
          ((w'r', (r''r', (w''r', _))), ((r''w', (w''w', _)), ((w''r'', _), _))),
        ),
      ) =
        distinct in
      let (ra, _, rc, _, _, wf) = ends_lem in
      (
        near_other p.out.0 (λ e. wr (sym e)) (λ e. w'r (sym e)) (λ e. r''r (sym e)) ∙ ra,
        near_other p.err.0 r'w (λ e. w'r' (sym e)) (λ e. r''r' (sym e)) ∙ rc,
        near_other p.inp.1 w''w w''w' w''r'' ∙ wf,
      )

-- The program that a process becomes, with its arguments.
unfoldable pub program : List SysCall → Option (List ℕ × List (Option (List ℕ)))
program [] = none
program (execed cmd args ∷ calls) = some (cmd, args)
program (call ∷ calls) = program calls

-- The parent's side of the constructor.
pub new_process_run :
    (sys : Sys) (cmd : List ℕ) (args : List (List ℕ)) (p : Pipes) (pid : ℕ)
    → sys.pipe2 0 ≡ some p.out
    → sys.pipe2 1 ≡ some p.err
    → sys.pipe2 2 ≡ some p.inp
    → (calls : List SysCall) × (new_process (record sys { fork = in_parent pid }) cmd args true ≡ (
      started
          (record { pid = pid; exitcode = pos 0 })
          (record {
            child_stdout = some p.out.0;
            child_stderr = some p.err.0;
            child_stdin = some p.inp.1;
          }),
      calls,
    ))
unfolding new_process fork_part parent_part
new_process_run sys cmd args p pid e0 e1 e2 =
    let parent : Sys = record sys { fork = in_parent pid } in
    (_, ap (with_pipes parent cmd args) (make_pipes_run parent p e0 e1 e2))

-- Three pipes, whose six ends are different descriptors above 2, as they are if 0, 1 and 2 are in
-- use, in a process with any other descriptors. Behind the calls of the parent and of the child, the
-- parent's streams read from the pipe that the child writes to by its descriptor 1, read from the
-- one that it writes to by its descriptor 2, and write to the one that it reads from by its
-- descriptor 0; none of the six ends is open in the child any more, when it has become the command,
-- which gets the command as the first argument, and the arguments in their order behind it.
pub new_process_wiring :
    (sys : Sys) (cmd : List ℕ) (args : List (List ℕ)) (p : Pipes) (pid : ℕ)
    (slots : ℕ → Option Slot)
    → sys.pipe2 0 ≡ some p.out
    → sys.pipe2 1 ≡ some p.err
    → sys.pipe2 2 ≡ some p.inp
    → Distinct (six p)
    → All (λ fd. 2 < fd) (six p)
    → (out err inp : ℕ) × (calls calls' : List SysCall) × (new_process
          (record sys { fork = in_parent pid })
          cmd
          args
          true
        ≡ (
          started
              (record { pid = pid; exitcode = pos 0 })
              (record { child_stdout = some out; child_stderr = some err; child_stdin = some inp }),
          calls,
        ))
      × (new_process (record sys { fork = in_child }) cmd args true ≡ (child, calls'))
      × ((refers slots calls out ≡ some (reads_from 0))
          × (refers slots calls' 1 ≡ some (writes_to 0)))
      × ((refers slots calls err ≡ some (reads_from 1))
          × (refers slots calls' 2 ≡ some (writes_to 1)))
      × ((refers slots calls inp ≡ some (writes_to 2))
          × (refers slots calls' 0 ≡ some (reads_from 2)))
      × All (λ fd. refers slots calls' fd ≡ none) (six p)
      × (program calls' ≡ some (cmd, argv cmd args))
unfolding new_process fork_part parent_part child_part program table_after call_table
new_process_wiring sys cmd args p pid slots e0 e1 e2 distinct above =
    let parent : Sys = record sys { fork = in_parent pid } in
    let forked : Sys = record sys { fork = in_child } in
    let (one, two, zero) = standard slots p distinct above in
    let (near_out, near_err, near_inp) = near_ends slots p distinct above in
    let (a, (b, (c, (d, (e, (f, _)))))) = six-Shut slots p distinct above in
    (
      p.out.0,
      p.err.0,
      p.inp.1,
      _,
      _,
      ap (with_pipes parent cmd args) (make_pipes_run parent p e0 e1 e2),
      ap (with_pipes forked cmd args) (make_pipes_run forked p e0 e1 e2),
      (ap target_of near_out, ap (λ o. target_of (kept o)) one),
      (ap target_of near_err, ap (λ o. target_of (kept o)) two),
      (ap target_of near_inp, ap (λ o. target_of (kept o)) zero),
      (
        ap target_of a,
        (
          ap target_of b,
          (ap target_of c, (ap target_of d, (ap target_of e, (ap target_of f, tt)))),
        ),
      ),
      refl,
    )
