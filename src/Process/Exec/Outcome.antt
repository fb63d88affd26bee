-- ===== src/Process/Exec/Outcome.antt =====
-- What a thread leaves, in whatever order its rounds come.
use http_audio_server.Common.{
  ℕ, ◌≡◌, inl, inr, refl, sym, ap, ◌∙◌, Bool, true, false, ◌&&◌, List, [], ◌∷◌, if◌then◌else◌,
  Bool-cases,
}
use http_audio_server.Pipe.{Source, Ostream, take_byte, pipe_loop, put_rest}
use http_audio_server.Process.Exec.{Worker, copying, copied, next_byte, copy_round}

module _ {S : Type 0} (os : Ostream S) (finish : S → S) where
  -- What a thread leaves if it runs alone to its end.
  abbrev pub outcome : Worker S → S
  outcome (copying source o buf) = finish (put_rest os (pipe_loop os source.good source.rest o buf))
  outcome (copied o) = o

  next_byte-outcome :
      (rest : List ℕ) (good : Bool) (o : S) (buf : List ℕ)
      → (good && Ostream.good os o) ≡ true
      → outcome (next_byte os finish rest good o buf)
        ≡ finish (put_rest os (pipe_loop os good rest o buf))
  unfolding pipe_loop
  next_byte-outcome [] good o buf h = refl
  next_byte-outcome (c ∷ rest) good o buf h =
      let more = pipe_loop os good rest (take_byte os o buf c).0 (take_byte os o buf c).1 in
      ap (λ b. finish (put_rest os (if b then more else (o, buf)))) (sym h)

  loop_ends :
      (rest : List ℕ) (good : Bool) (o : S) (buf : List ℕ)
      → (good && Ostream.good os o) ≡ false
      → pipe_loop os good rest o buf ≡ (o, buf)
  unfolding pipe_loop
  loop_ends [] good o buf h = refl
  loop_ends (c ∷ rest) good o buf h =
      let more = pipe_loop os good rest (take_byte os o buf c).0 (take_byte os o buf c).1 in
      ap (λ b. if b then more else (o, buf)) h

  -- A round does not change what the thread will leave.
  pub copy_round-outcome :
      (source : Source) (o : S) (buf : List ℕ)
      → outcome (copy_round os finish source o buf) ≡ outcome (copying source o buf)
  unfolding copy_round
  copy_round-outcome source o buf = elim (Bool-cases (source.good && Ostream.good os o)) [
    | inl e ↦
        ap
          (λ b. outcome (
            if b
            then next_byte os finish source.rest source.good o buf
            else copied (finish (put_rest os (o, buf)))))
          e
        ∙ next_byte-outcome source.rest source.good o buf e
    | inr e ↦
        ap
          (λ b. outcome (
            if b
            then next_byte os finish source.rest source.good o buf
            else copied (finish (put_rest os (o, buf)))))
          e
        ∙ ap (λ r. finish (put_rest os r)) (sym (loop_ends source.rest source.good o buf e))
  ]
