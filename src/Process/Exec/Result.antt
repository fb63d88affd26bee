-- ===== src/Process/Exec/Result.antt =====
-- What `exec` returns.
use mathlib.Core.Option.{some-injective, none-ne-some}
use http_audio_server.Common.{
  ℕ, ◌≡◌, refl, sym, ap, ◌∙◌, subst, Bool, true, false, ◌&&◌, Option, none, some, List, [], ◌∷◌,
  ◌++◌, append-nil, append_assoc, length, lt→ltb, if◌then◌else◌, arith,
}
use http_audio_server.Common.Int.{ℤ}
use http_audio_server.Pipe.{Source, Ostream, put_out, take_byte, pipe_loop, put_rest, generic_pipe}
use http_audio_server.Process.{Os, ProcessImpl, wait}
use http_audio_server.Process.Exec.{
  copying, copied, Caller, waiting, joining, terminated, Ends, Exec, threads, same, Step, writes,
  reads_out, reads_err, waits, fails, Steps, done, go_on, exec_start, stringstream, string_ends,
  exec, exec_input, exec_strings, tuple_of,
}
use http_audio_server.Process.Launch.{ChildStreams, started}
use http_audio_server.Process.Exec.Outcome.{outcome, copy_round-outcome}

module _ (os : Os) {I O E : Type 0} (ends : Ends I O E) where
  open ends use {child_stdin, close_child_stdin, cout, cerr}

  -- What the caller will have, if it gets a result at all.
  abbrev Returns : Caller os → Os.State os × ProcessImpl × Option ℤ → Type 0
  Returns (waiting s p) r = wait os s p ≡ r
  Returns (joining s p code) r = (s, p, some code) ≡ r
  Returns terminated r = r.2 ≡ none

  -- The threads will leave these outputs, and the caller this result.
  abbrev Leads : Exec os I O E → I → O → E → Os.State os × ProcessImpl × Option ℤ → Type 0
  Leads (threads t1 t2 t3 c) i o e r =
      (outcome child_stdin close_child_stdin t1 ≡ i)
      × (outcome cout same t2 ≡ o)
      × (outcome cerr same t3 ≡ e)
      × Returns c r

  follows_one :
      (x y : Exec os I O E) (i : I) (o : O) (e : E) (r : Os.State os × ProcessImpl × Option ℤ)
      → Step os ends x y
      → Leads x i o e r
      → Leads y i o e r
  follows_one _ _ i o e r (writes source i' buf t2 t3 c a) (h1, h2, h3, h) =
      (copy_round-outcome child_stdin close_child_stdin source i' buf ∙ h1, h2, h3, h)
  follows_one _ _ i o e r (reads_out source o' buf t1 t3 c a) (h1, h2, h3, h) =
      (h1, copy_round-outcome cout same source o' buf ∙ h2, h3, h)
  follows_one _ _ i o e r (reads_err source e' buf t1 t2 c a) (h1, h2, h3, h) =
      (h1, h2, copy_round-outcome cerr same source e' buf ∙ h3, h)
  follows_one _ _ i o e r (waits t1 t2 t3 s s' p p' code w) (h1, h2, h3, h) =
      (h1, h2, h3, sym w ∙ h)
  follows_one _ _ i o e r (fails t1 t2 t3 s s' p p' w) (h1, h2, h3, h) =
      (h1, h2, h3, ap (λ (x : Os.State os × ProcessImpl × Option ℤ). x.2) (sym h ∙ w))

  follows_all :
      (n : ℕ) (x y : Exec os I O E) (i : I) (o : O) (e : E)
      (r : Os.State os × ProcessImpl × Option ℤ)
      → Steps os ends n x y
      → Leads x i o e r
      → Leads y i o e r
  follows_all _ _ _ i o e r (done x) h = h
  follows_all _ _ _ i o e r (go_on n x y z s ss) h =
      follows_all n y z i o e r ss (follows_one x y i o e r s h)

  -- Whatever the order of the steps, when all threads have ended and the caller has a result, each
  -- output is what `generic_pipe` alone makes of it, the child's input was closed behind its copy,
  -- and the result is that of `wait`.
  pub exec_result :
      (s s' : Os.State os) (p p' : ProcessImpl) (i i' : I) (cin out err : Source) (o o' : O)
      (e e' : E) (n : ℕ) (code : ℤ)
      → Steps os ends n
          (exec_start os ends s p i cin out err o e)
          (threads (copied i') (copied o') (copied e') (joining s' p' code))
      → (i' ≡ close_child_stdin (generic_pipe child_stdin cin i))
        × (o' ≡ generic_pipe cout out o)
        × (e' ≡ generic_pipe cerr err e)
        × (wait os s p ≡ (s', p', some code))
  unfolding exec_start generic_pipe
  exec_result s s' p p' i i' cin out err o o' e e' n code steps =
      let (h1, h2, h3, h) =
        follows_all n _ _ (close_child_stdin (generic_pipe child_stdin cin i))
          (generic_pipe cout out o) (generic_pipe cerr err e) (wait os s p) steps
          (refl, refl, refl, refl) in
      (h1, h2, h3, sym h)

pub take_byte-text :
    (o buf : List ℕ) (c : ℕ)
    → let (o', buf') = take_byte stringstream o buf c in o' ++ buf' ≡ (o ++ buf) ++ c ∷ []
unfolding take_byte put_out
take_byte-text o buf c = by_test _
  where
    by_test :
        (b : Bool)
        → let r : List ℕ × List ℕ = if b then (o ++ (buf ++ c ∷ []), []) else (o, buf ++ c ∷ []) in
          r.0 ++ r.1 ≡ (o ++ buf) ++ c ∷ []
    by_test true = append-nil (o ++ (buf ++ c ∷ [])) ∙ sym (append_assoc o buf (c ∷ []))
    by_test false = sym (append_assoc o buf (c ∷ []))

loop-text :
    (rest o buf : List ℕ)
    → let (o', buf') = pipe_loop stringstream true rest o buf in o' ++ buf' ≡ (o ++ buf) ++ rest
unfolding pipe_loop
loop-text [] o buf = sym (append-nil (o ++ buf))
loop-text (c ∷ rest) o buf =
    let (o', buf') = take_byte stringstream o buf c in
    loop-text rest o' buf'
    ∙ ap (λ t. t ++ rest) (take_byte-text o buf c)
    ∙ append_assoc (o ++ buf) (c ∷ []) rest

pub put_rest-text : (o buf : List ℕ) → put_rest stringstream (o, buf) ≡ o ++ buf
unfolding put_rest put_out
put_rest-text o [] = sym (append-nil o)
put_rest-text o (c ∷ buf) =
    ap (λ b. if b && true then o ++ c ∷ buf else o) (lt→ltb 0 (length (c ∷ buf)) (omega arith))

-- A string stream gets all that a source gives.
pub generic_pipe-text :
    (source : Source) (o : List ℕ)
    → source.good ≡ true
    → generic_pipe stringstream source o ≡ o ++ source.rest
unfolding generic_pipe
generic_pipe-text source o h =
    ap (λ b. put_rest stringstream (pipe_loop stringstream b source.rest o [])) h
    ∙ put_rest-text (pipe_loop stringstream true source.rest o []).0
        (pipe_loop stringstream true source.rest o []).1
    ∙ loop-text source.rest o []
    ∙ ap (λ t. t ++ source.rest) (append-nil o)

-- The call on strings, for a process that was started: in whatever order the threads run, if the
-- call returns, it returns the exit code that `wait` gives, with all that the child wrote to its
-- output, and all that it wrote to its errors.
pub exec_strings_lem :
    (os : Os) (I : Type 0) (child_stdin : Ostream I) (close : I → I) (stdin_of : Option ℕ → I)
    (source_of : Option ℕ → Source) (s : Os.State os) (p : ProcessImpl) (fds : ChildStreams)
    (input : List ℕ) (x y : Exec os I (List ℕ) (List ℕ)) (n : ℕ) (code : ℤ) (out err : List ℕ)
    → (source_of fds.child_stdout).good ≡ true
    → (source_of fds.child_stderr).good ≡ true
    → exec_strings os child_stdin close stdin_of source_of s (started p fds) input ≡ some x
    → Steps os (string_ends os child_stdin close) n x y
    → tuple_of y ≡ some (code, out, err)
    → ((wait os s p).2 ≡ some code)
      × (out ≡ (source_of fds.child_stdout).rest)
      × (err ≡ (source_of fds.child_stderr).rest)
unfolding exec_strings exec_input exec tuple_of
exec_strings_lem os I child_stdin close stdin_of source_of s p fds input x y n code out err g g' e
      steps t =
    let x' : Exec os I (List ℕ) (List ℕ) =
      exec_start os (string_ends os child_stdin close) s p (stdin_of fds.child_stdin)
        (record { rest = input; good = true }) (source_of fds.child_stdout)
        (source_of fds.child_stderr) [] [] in
    by_end y
      (subst (λ z. Steps os (string_ends os child_stdin close) n z y) (sym (some-injective x' x e))
        steps)
      t
  where
    by_end :
        (y : Exec os I (List ℕ) (List ℕ))
        → Steps os
            (string_ends os child_stdin close)
            n
            (exec_start os
              (string_ends os child_stdin close)
              s
              p
              (stdin_of fds.child_stdin)
              (record { rest = input; good = true })
              (source_of fds.child_stdout)
              (source_of fds.child_stderr)
              []
              [])
            y
        → tuple_of y ≡ some (code, out, err)
        → ((wait os s p).2 ≡ some code)
          × (out ≡ (source_of fds.child_stdout).rest)
          × (err ≡ (source_of fds.child_stderr).rest)
    by_end (threads (copied i) (copied o) (copied e') (joining s' p' c)) run h =
        let same_tuple = some-injective (c, o, e') (code, out, err) h in
        let (h1, h2, h3, h4) =
          exec_result os (string_ends os child_stdin close) s s' p p' (stdin_of fds.child_stdin) i
            (record { rest = input; good = true }) (source_of fds.child_stdout)
            (source_of fds.child_stderr) [] o [] e' n c run in
        (
          ap (λ (r : Os.State os × ProcessImpl × Option ℤ). r.2) h4
              ∙ ap (λ (r : ℤ × List ℕ × List ℕ). some r.0) same_tuple,
          sym (ap (λ (r : ℤ × List ℕ × List ℕ). r.1) same_tuple)
              ∙ h2
              ∙ generic_pipe-text (source_of fds.child_stdout) [] g,
          sym (ap (λ (r : ℤ × List ℕ × List ℕ). r.2) same_tuple)
              ∙ h3
              ∙ generic_pipe-text (source_of fds.child_stderr) [] g',
        )
    by_end (threads (copying a b c) t2 t3 d) run h = absurd (none-ne-some _ h)
    by_end (threads (copied i) (copying a b c) t3 d) run h = absurd (none-ne-some _ h)
    by_end (threads (copied i) (copied o) (copying a b c) d) run h = absurd (none-ne-some _ h)
    by_end (threads (copied i) (copied o) (copied e') (waiting a b)) run h =
        absurd (none-ne-some _ h)
    by_end (threads (copied i) (copied o) (copied e') terminated) run h = absurd (none-ne-some _ h)
