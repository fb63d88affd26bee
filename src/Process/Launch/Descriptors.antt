-- ===== src/Process/Launch/Descriptors.antt =====
-- Which descriptors are open behind the calls of a process object.
use http_audio_server.Common.{
  ℕ, ◌≡◌, ◌≢◌, refl, sym, ap, ◌∙◌, true, some, List, [], ◌∷◌, ◌++◌, ◌==◌, ==_ne, ==_self, All,
  if◌then◌else◌,
}
use http_audio_server.Common.Int.{pos}
use http_audio_server.Process.Launch.{
  SysCall, piped, closed, duped, dup2ed, execed, in_parent, fork_failed, Sys, ChildStreams, Pipes,
  started, no_fork, make_pipes, with_pipes, fork_part, parent_part, new_process, close_child_stdin,
  drop_streams,
}

unfoldable pub remove : ℕ → List ℕ → List ℕ
remove fd [] = []
remove fd (x ∷ fds) = let rest = remove fd fds in if x == fd then rest else x ∷ rest

unfoldable pub after_call : List ℕ → SysCall → List ℕ
unfolding remove
after_call fds (piped cloexec r w) = fds ++ r ∷ w ∷ []
after_call fds (closed fd) = remove fd fds
after_call fds (duped fd fd') = fds ++ fd' ∷ []
after_call fds (dup2ed fd fd') = fds
after_call fds (execed cmd args) = fds

-- The descriptors that calls open and do not close, by what the system documents of them.
unfoldable pub open_after : List ℕ → List SysCall → List ℕ
unfolding after_call
open_after fds [] = fds
open_after fds (call ∷ calls) = open_after (after_call fds call) calls

abbrev pub NotIn : ℕ → List ℕ → Type 0
NotIn fd = All (λ other. other ≢ fd)

-- No descriptor stands twice.
abbrev pub Distinct : List ℕ → Type 0
Distinct [] = Unit
Distinct (fd ∷ fds) = NotIn fd fds × Distinct fds

-- The ends of three pipes, in the order of their opening.
abbrev pub six : Pipes → List ℕ
six p = p.out.0 ∷ p.out.1 ∷ p.err.0 ∷ p.err.1 ∷ p.inp.0 ∷ p.inp.1 ∷ []

open_after-append :
    (fds : List ℕ) (xs ys : List SysCall)
    → open_after fds (xs ++ ys) ≡ open_after (open_after fds xs) ys
unfolding open_after
open_after-append fds [] ys = refl
open_after-append fds (x ∷ xs) ys = open_after-append (after_call fds x) xs ys

remove_none : (fd : ℕ) (fds : List ℕ) → NotIn fd fds → remove fd fds ≡ fds
unfolding remove
remove_none fd [] h = refl
remove_none fd (x ∷ fds) (h, hs) =
    ap (λ b. if b then remove fd fds else x ∷ remove fd fds) (==_ne x fd h)
    ∙ ap (◌∷◌ x) (remove_none fd fds hs)

remove_middle :
    (fd : ℕ) (xs ys : List ℕ) → NotIn fd xs → NotIn fd ys → remove fd (xs ++ fd ∷ ys) ≡ xs ++ ys
unfolding remove
remove_middle fd [] ys h k =
    ap (λ b. if b then remove fd ys else fd ∷ remove fd ys) (==_self fd) ∙ remove_none fd ys k
remove_middle fd (x ∷ xs) ys (h, hs) k =
    ap (λ b. if b then remove fd (xs ++ fd ∷ ys) else x ∷ remove fd (xs ++ fd ∷ ys)) (==_ne x fd h)
    ∙ ap (◌∷◌ x) (remove_middle fd xs ys hs k)

-- The calls of `pipe2` all succeed.
pub make_pipes_run :
    (sys : Sys) (p : Pipes)
    → sys.pipe2 0 ≡ some p.out
    → sys.pipe2 1 ≡ some p.err
    → sys.pipe2 2 ≡ some p.inp
    → make_pipes sys ≡ (
      some p,
      piped true p.out.0 p.out.1 ∷ piped true p.err.0 p.err.1 ∷ piped true p.inp.0 p.inp.1 ∷ [],
    )
unfolding make_pipes
make_pipes_run sys p e0 e1 e2 = rw (e0, e1, e2, make_pipes) refl

-- The parent's descriptors behind the constructor, and behind the calls that close them.
parent_closes :
    (p : Pipes)
    → Distinct (six p)
    → open_after (six p) (closed p.out.1 ∷ closed p.err.1 ∷ closed p.inp.0 ∷ [])
      ≡ p.out.0 ∷ p.err.0 ∷ p.inp.1 ∷ []
unfolding open_after after_call
parent_closes p
      (
        (wr, (r'r, (w'r, (r''r, (w''r, _))))),
        (
          (r'w, (w'w, (r''w, (w''w, _)))),
          ((w'r', (r''r', (w''r', _))), ((r''w', (w''w', _)), ((w''r'', _), _))),
        ),
      ) =
    let (r, w) = p.out in
    let (r', w') = p.err in
    let (r'', w'') = p.inp in
    ap (λ fds. remove r'' (remove w' fds))
      (remove_middle w (r ∷ []) (r' ∷ w' ∷ r'' ∷ w'' ∷ []) ((λ e. wr (sym e)), tt)
        (r'w, (w'w, (r''w, (w''w, tt)))))
    ∙ ap (remove r'') (
        remove_middle w' (r ∷ r' ∷ []) (r'' ∷ w'' ∷ [])
          ((λ e. w'r (sym e)), ((λ e. w'r' (sym e)), tt)) (r''w', (w''w', tt)))
    ∙ remove_middle r'' (r ∷ r' ∷ []) (w'' ∷ []) ((λ e. r''r (sym e)), ((λ e. r''r' (sym e)), tt))
        (w''r'', tt)

all_closed :
    (p : Pipes)
    → Distinct (six p)
    → open_after
        (p.out.0 ∷ p.err.0 ∷ p.inp.1 ∷ [])
        (closed p.inp.1 ∷ closed p.err.0 ∷ closed p.out.0 ∷ [])
      ≡ []
unfolding open_after after_call
all_closed p
      (
        (wr, (r'r, (w'r, (r''r, (w''r, _))))),
        ((r'w, (w'w, (r''w, (w''w, _)))), ((w'r', (r''r', (w''r', _))), _)),
      ) =
    let (r, w) = p.out in
    let (r', w') = p.err in
    let (r'', w'') = p.inp in
    ap (λ fds. remove r (remove r' fds))
      (remove_middle w'' (r ∷ r' ∷ []) [] ((λ e. w''r (sym e)), ((λ e. w''r' (sym e)), tt)) tt)
    ∙ ap (remove r) (remove_middle r' (r ∷ []) [] ((λ e. r'r (sym e)), tt) tt)
    ∙ remove_middle r [] [] tt tt

-- Three pipes of six descriptors and a fork: the object owns three descriptors, the reading ends for
-- the child's output and errors and the writing end for its input, and no other is open. When it is
-- destroyed none is open, whether or not `close_child_stdin` was called before.
pub new_process-drop_streams :
    (sys : Sys) (cmd : List ℕ) (args : List (List ℕ)) (p : Pipes) (pid : ℕ)
    → sys.pipe2 0 ≡ some p.out
    → sys.pipe2 1 ≡ some p.err
    → sys.pipe2 2 ≡ some p.inp
    → sys.fork ≡ in_parent pid
    → Distinct (six p)
    → (s : ChildStreams) × (calls : List SysCall) × (new_process sys cmd args true
        ≡ (started (record { pid = pid; exitcode = pos 0 }) s, calls))
      × (s ≡ record {
        child_stdout = some p.out.0;
        child_stderr = some p.err.0;
        child_stdin = some p.inp.1;
      })
      × (open_after [] calls ≡ p.out.0 ∷ p.err.0 ∷ p.inp.1 ∷ [])
      × (open_after [] (calls ++ drop_streams s) ≡ [])
      × (let (s', more) = close_child_stdin s in
          open_after [] (calls ++ (more ++ drop_streams s')) ≡ [])
unfolding new_process fork_part parent_part close_child_stdin drop_streams open_after after_call
new_process-drop_streams sys cmd args p pid e0 e1 e2 forked h =
    let s : ChildStreams = record {
      child_stdout = some p.out.0;
      child_stderr = some p.err.0;
      child_stdin = some p.inp.1;
    } in
    let pipes : List SysCall =
      piped true p.out.0 p.out.1 ∷ piped true p.err.0 p.err.1 ∷ piped true p.inp.0 p.inp.1 ∷ [] in
    let calls : List SysCall = pipes ++ closed p.out.1 ∷ closed p.err.1 ∷ closed p.inp.0 ∷ [] in
    let closing : List SysCall = closed p.inp.1 ∷ closed p.err.0 ∷ closed p.out.0 ∷ [] in
    let ends : open_after [] (calls ++ closing) ≡ [] =
      open_after-append [] calls closing
      ∙ ap (λ fds. open_after fds closing) (parent_closes p h)
      ∙ all_closed p h in
    (
      s,
      calls,
      ap (with_pipes sys cmd args) (make_pipes_run sys p e0 e1 e2) ∙ rw (forked, fork_part) refl,
      refl,
      parent_closes p h,
      ends,
      ends,
    )

-- If the fork fails, an exception leaves the constructor with all six descriptors open and no object
-- that would close them.
pub new_process_unforked :
    (sys : Sys) (cmd : List ℕ) (args : List (List ℕ)) (p : Pipes)
    → sys.pipe2 0 ≡ some p.out
    → sys.pipe2 1 ≡ some p.err
    → sys.pipe2 2 ≡ some p.inp
    → sys.fork ≡ fork_failed
    → (calls : List SysCall) × (new_process sys cmd args true ≡ (no_fork, calls))
      × (open_after [] calls ≡ six p)
unfolding new_process fork_part open_after after_call
new_process_unforked sys cmd args p e0 e1 e2 forked =
    let pipes : List SysCall =
      piped true p.out.0 p.out.1 ∷ piped true p.err.0 p.err.1 ∷ piped true p.inp.0 p.inp.1 ∷ [] in
    (
      pipes,
      ap (with_pipes sys cmd args) (make_pipes_run sys p e0 e1 e2) ∙ rw (forked, fork_part) refl,
      refl,
    )
