-- ===== src/Decoder/Child/Drain.antt =====
-- The end of a decoder.
use http_audio_server.Common.{
  ℕ, zero, suc, ◌≡◌, ◌≢◌, ◌<◌, refl, ap, ◌∙◌, Bool, true, false, Bool-cases, inl, inr, Option, some,
  List, [], ◌∷◌, ◌++◌, length, take, drop, leb, ◌==◌, ==_iff, ==_ne, length-take, length-drop,
  drop_all, arith,
}
use http_audio_server.Common.Int.{ℤ}
use http_audio_server.Pipe.{Source}
use http_audio_server.Process.{Os, Waited, ProcessImpl, signal}
use http_audio_server.Process.Status.{Ending, wait_ends, signal-wait}
use http_audio_server.Process.Exec.Result.{generic_pipe-text}
use http_audio_server.Decoder.{read}
use http_audio_server.Decoder.Reads.{read_good, read_bad}
use http_audio_server.Decoder.Child.{
  DecoderImpl, drain, after_drain, wait_decoder, join_messages, joined, destroy_decoder, messages,
}

-- The loop on a read that is known.
drain_step :
    (fuel : ℕ) (is is' : Source) (null : List ℕ) (n : ℕ)
    → read is 4096 [] ≡ (is', null, n)
    → drain (suc fuel) is ≡ elim (n == 0) [ true ↦ some is' | false ↦ drain fuel is' ]
unfolding drain
drain_step fuel is is' null n e =
    ap
      (λ (r : Source × List ℕ × ℕ). elim (r.2 == 0) [
        | true ↦ some (r.0)
        | false ↦ drain fuel (r.0)
      ])
      e

pick_stop : (n : ℕ) (x y : Option Source) → n ≡ 0 → elim (n == 0) [ true ↦ x | false ↦ y ] ≡ x
pick_stop n x y h = ap (λ b. elim b [ true ↦ x | false ↦ y ]) ((==_iff n 0).1 h)

pick_next : (n : ℕ) (x y : Option Source) → n ≢ 0 → elim (n == 0) [ true ↦ x | false ↦ y ] ≡ y
pick_next n x y h = ap (λ b. elim b [ true ↦ x | false ↦ y ]) (==_ne n 0 h)

-- A source that is no longer good gives nothing more.
abbrev pub Ends : Source → Type 0
Ends is = is.good ≡ false → is.rest ≡ []

-- The loop returns, and nothing is left to read.
abbrev Drained : ℕ → Source → Type 0
Drained fuel is = (is' : Source) × (drain fuel is ≡ some is') × (is'.rest ≡ [])

drain_bad : (fuel : ℕ) (is : Source) → Ends is → is.good ≡ false → Drained (suc fuel) is
drain_bad fuel is v bad = (is, drain_step fuel is is [] 0 (read_bad is 4096 [] bad), v bad)

zero_rest : (n : ℕ) (rest : List ℕ) → length (take (suc n) rest) ≡ 0 → rest ≡ []
zero_rest n [] h = refl
zero_rest n (c ∷ rest) h = absurd (omega (arith, h))

not_leb : (a b : ℕ) → leb a b ≡ false → b < a
not_leb a b h = ground arith

-- More rounds than there are bytes are enough.
drain_ends : (fuel : ℕ) (is : Source) → length is.rest < fuel → Ends is → Drained fuel is
drain_ends zero is h v = absurd (omega arith)
drain_ends (suc fuel) is h v = elim (Bool-cases is.good) [
  | inr bad ↦ drain_bad fuel is v bad
  | inl good ↦
      let next : Source = record { rest = drop 4096 is.rest; good = leb 4096 (length is.rest) } in
      let run = read_good is 4096 [] good in
      let count : ℕ = length (take 4096 is.rest) in
      elim (Bool-cases (count == 0)) [
        | inl z ↦ (
          next,
          drain_step fuel is next (take 4096 is.rest) count run
              ∙ pick_stop count (some next) (drain fuel next) ((==_iff count 0).0 z),
          ap (drop 4096) (zero_rest 4095 is.rest ((==_iff count 0).0 z)),
        )
        | inr nz ↦
            let ne : count ≢ 0 = λ e. ground (arith, e, nz) in
            let (is', e, empty) =
              drain_ends fuel next
                (omega (arith, h, ne, length-take 4096 is.rest, length-drop 4096 is.rest))
                (λ b. drop_all 4096 is.rest (omega (arith, not_leb 4096 (length is.rest) b))) in
            (
              is',
              drain_step fuel is next (take 4096 is.rest) count run
                  ∙ pick_next count (some next) (drain fuel next) ne
                  ∙ e,
              empty,
            )
      ]
]

module _ (os : Os) where
  -- A child that was not waited for, whose output has nothing left if it is no longer good, and of
  -- which the system reports how it ends once the signal 2 was sent to it and, behind that, its
  -- output was read to its end; before that the system may answer in any way. Then `wait` returns with as many rounds as there are bytes left, and one more: it
  -- gives this exit code, and nothing of the output is left.
  pub wait_decoder_lem :
      (s s' : Os.State os) (d : DecoderImpl) (w : Waited) (code : ℤ)
      → Ends d.output
      → d.process.pid ≢ 0
      → Os.waitpid os
          (Os.read_out os (signal os s d.process 2).0 d.streams.child_stdout)
          d.process.pid
          true
        ≡ (s', w)
      → Ending w code
      → (d' : DecoderImpl) × (wait_decoder os (suc (length d.output.rest)) s d
          ≡ some (s', d', some code))
        × (d'.output.rest ≡ [])
        × (d'.process.exitcode ≡ code)
  unfolding wait_decoder
  wait_decoder_lem s s' d w code v h e ending =
      let (is', run, empty) = drain_ends (suc (length d.output.rest)) d.output (omega arith) v in
      let (p', waited, c, again, idle) =
        wait_ends os (Os.read_out os (signal os s d.process 2).0 d.streams.child_stdout) s' s'
          d.process w code h e ending in
      (
        record d { process = p'; output = is' },
        ap (after_drain os (signal os s d.process 2).0 d) run
            ∙ ap
                (λ (r : Os.State os × ProcessImpl × Option ℤ).
                  some (r.0, record d { process = r.1; output = is' }, r.2))
                waited,
        empty,
        c,
      )

  -- The destructor of a decoder on which `wait` was called sends the signal 2 a second time, to the
  -- process 0: the system takes this as the process group of the caller.
  pub destroy_decoder-wait_decoder :
      (s s' t : Os.State os) (d : DecoderImpl) (w : Waited) (code : ℤ) (fuel : ℕ)
      → Ends d.output
      → d.process.pid ≢ 0
      → Os.waitpid os
          (Os.read_out os (signal os s d.process 2).0 d.streams.child_stdout)
          d.process.pid
          true
        ≡ (s', w)
      → Ending w code
      → (d' : DecoderImpl) × (wait_decoder os (suc (length d.output.rest)) s d
          ≡ some (s', d', some code))
        × (destroy_decoder os fuel t d'
            ≡ joined os (after_drain os (Os.kill os t 0 2).0 d' (drain fuel d'.output)))
  unfolding wait_decoder destroy_decoder
  destroy_decoder-wait_decoder s s' t d w code fuel v h e ending =
      let (is', run, empty) = drain_ends (suc (length d.output.rest)) d.output (omega arith) v in
      let (p', waited, killed) =
        signal-wait os (Os.read_out os (signal os s d.process 2).0 d.streams.child_stdout) s' t
          d.process w code 2 h e ending in
      let d' : DecoderImpl = record d { process = p'; output = is' } in
      (
        d',
        ap (after_drain os (signal os s d.process 2).0 d) run
            ∙ ap
                (λ (r : Os.State os × ProcessImpl × Option ℤ).
                  some (r.0, record d { process = r.1; output = is' }, r.2))
                waited,
        ap (λ (k : Os.State os × Bool). joined os (after_drain os k.0 d' (drain fuel is'))) killed,
      )

  -- Once the thread of the messages is joined, `messages` gives all that the child wrote to its
  -- errors.
  pub messages-join_messages :
      (d : DecoderImpl)
      → d.errors.good ≡ true
      → messages (join_messages os d) ≡ d.msgs ++ d.errors.rest
  unfolding join_messages messages
  messages-join_messages d h = generic_pipe-text d.errors d.msgs h
