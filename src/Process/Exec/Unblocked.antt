-- ===== src/Process/Exec/Unblocked.antt =====
-- A call of `exec` does not get stuck on pipes that are full or empty.
use mathlib.Core.Path.{ap₂}
use http_audio_server.Common.{
  ℕ, ◌<◌, ◌≡◌, ◌⊎◌, inl, inr, refl, sym, ap, ◌∙◌, subst, Option, none, some, List, [], ◌∷◌, ◌++◌,
  length, append-nil, append_assoc, arith,
}
use http_audio_server.Common.Int.{ℤ}
use http_audio_server.Process.Exec.Result.{take_byte-text, put_rest-text}
use http_audio_server.Process.Exec.Blocking.{
  Script, ends_with, to_out, to_err, from_in, HasEnded, Feeder, feeding, closed_stdin, Collector,
  collecting, collected, Channel, channel, Run, run, ChannelStep, takes, stops, FeederStep,
  reads_input, reads_end, puts, breaks, closes, BlockingStep, t1_goes_on, t2_goes_on, t3_goes_on,
  waits_for, says, says_err, hears, hears_end,
}

-- What a thread has read and what is in its pipe is all that the child has written; a thread that
-- has ended has met the end of the child.
abbrev pub Sound : Script → Channel → Type 0
Sound p (channel (collecting o buf) pipe said) = o ++ buf ++ pipe ≡ said
Sound p (channel (collected o) pipe said) = (o ≡ said) × (pipe ≡ []) × HasEnded p

-- The result is that of the child.
abbrev pub Right : Script → Option ℤ → Type 0
Right p none = Unit
Right p (some code) = p ≡ ends_with code

abbrev pub Sane : Run → Type 0
Sane (run p t pipe out err res) = Sound p out × Sound p err × Right p res

ChannelStep-Sound : (p : Script) (x y : Channel) → ChannelStep p x y → Sound p x → Sound p y
ChannelStep-Sound p _ _ (takes o buf c pipe said) h =
    ap (λ t. t ++ pipe) (take_byte-text o buf c) ∙ append_assoc (o ++ buf) (c ∷ []) pipe ∙ h
ChannelStep-Sound p _ _ (stops o buf said e) h =
    (put_rest-text o buf ∙ sym (append-nil (o ++ buf)) ∙ h, refl, e)

-- A child that has not ended goes on.
module _ (p p' : Script) (goes : HasEnded p → ⊥) where
  other-Sound : (x : Channel) → Sound p x → Sound p' x
  other-Sound (channel (collecting o buf) pipe said) h = h
  other-Sound (channel (collected o) pipe said) (_, _, e) = absurd (goes e)

  said-Sound :
      (t : Collector) (pipe said : List ℕ) (c : ℕ)
      → Sound p (channel t pipe said)
      → Sound p' (channel t (pipe ++ c ∷ []) (said ++ c ∷ []))
  said-Sound (collecting o buf) pipe said c h =
      sym (append_assoc (o ++ buf) pipe (c ∷ [])) ∙ ap (λ t. t ++ c ∷ []) h
  said-Sound (collected o) pipe said c (_, _, e) = absurd (goes e)

  other-Right : (res : Option ℤ) → Right p res → Right p' res
  other-Right none h = tt
  other-Right (some code) h = absurd (goes (subst HasEnded (sym h) tt))

pub step-Sane : (cap : ℕ) (x y : Run) → BlockingStep cap x y → Sane x → Sane y
step-Sane cap _ _ (t1_goes_on p t t' pipe pipe' out err res s) h = h
step-Sane cap _ _ (t2_goes_on p t pipe out out' err res s) (h, k, r) =
    (ChannelStep-Sound p out out' s h, k, r)
step-Sane cap _ _ (t3_goes_on p t pipe out err err' res s) (h, k, r) =
    (h, ChannelStep-Sound p err err' s k, r)
step-Sane cap _ _ (waits_for code t pipe out err) (h, k, r) = (h, k, refl)
step-Sane cap _ _ (says c p t pipe t2 held said err res room) (h, k, r) = (
  said-Sound (to_out c p) p (λ e. e) t2 held said c h,
  other-Sound (to_out c p) p (λ e. e) err k,
  other-Right (to_out c p) p (λ e. e) res r,
)
step-Sane cap _ _ (says_err c p t pipe out t3 held said res room) (h, k, r) = (
  other-Sound (to_err c p) p (λ e. e) out h,
  said-Sound (to_err c p) p (λ e. e) t3 held said c k,
  other-Right (to_err c p) p (λ e. e) res r,
)
step-Sane cap _ _ (hears f t c pipe out err res) (h, k, r) = (
  other-Sound (from_in f) (f (some c)) (λ e. e) out h,
  other-Sound (from_in f) (f (some c)) (λ e. e) err k,
  other-Right (from_in f) (f (some c)) (λ e. e) res r,
)
step-Sane cap _ _ (hears_end f out err res) (h, k, r) = (
  other-Sound (from_in f) (f none) (λ e. e) out h,
  other-Sound (from_in f) (f none) (λ e. e) err k,
  other-Right (from_in f) (f none) (λ e. e) res r,
)

-- The threads have ended, with all that the child has written to its output and to its errors, and
-- the caller has the exit code of the child.
pub data IsOver : Run → Type 0 where
  over :
      (code : ℤ) (pipe out err : List ℕ)
      → IsOver (
          run
            (ends_with code)
            closed_stdin
            pipe
            (channel (collected out) [] out)
            (channel (collected err) [] err)
            (some code))

abbrev pub GoesOn : ℕ → Run → Type 0
GoesOn cap x = (y : Run) × BlockingStep cap x y

module _ (cap : ℕ) (some_room : 0 < cap) where
  -- A write of the child: there is room, or the thread takes a byte.
  room_or_step :
      (p : Script) (t : Collector) (held said : List ℕ)
      → (HasEnded p → ⊥)
      → Sound p (channel t held said)
      → (length held < cap) ⊎ ((y : Channel) × ChannelStep p (channel t held said) y)
  room_or_step p t [] said goes h = inl some_room
  room_or_step p (collecting o buf) (c ∷ held) said goes h = inr (_, takes o buf c held said)
  room_or_step p (collected o) (c ∷ held) said goes (_, _, over_) = absurd (goes over_)

  feeder_goes_on :
      (p : Script) (left : List ℕ) (more : Option (List ℕ × List ℕ)) (pipe : List ℕ)
      → HasEnded p ⊎ (pipe ≡ [])
      → (t' : Feeder) × (pipe' : List ℕ) × FeederStep cap p (feeding left more) pipe t' pipe'
  feeder_goes_on p [] none pipe h = (_, _, closes pipe)
  feeder_goes_on p [] (some ([], buf)) pipe h = (_, _, reads_end buf pipe)
  feeder_goes_on p [] (some (c ∷ rest, buf)) pipe h = (_, _, reads_input c rest buf pipe)
  feeder_goes_on p (c ∷ left) more pipe (inl e) = (_, _, breaks c left more pipe e)
  feeder_goes_on p (c ∷ left) more pipe (inr e) =
      (_, _, puts c left more pipe (omega (arith, some_room, ap length e)))

  -- What is read when the child has ended.
  abbrev Rest : Script → Channel → Type 0
  Rest p x =
      ((y : Channel) × ChannelStep p x y)
      ⊎ ((said : List ℕ) × (x ≡ channel (collected said) [] said))

  rest_of : (p : Script) (x : Channel) → HasEnded p → Sound p x → Rest p x
  rest_of p (channel (collecting o buf) [] said) e h = inl (_, stops o buf said e)
  rest_of p (channel (collecting o buf) (c ∷ pipe) said) e h = inl (_, takes o buf c pipe said)
  rest_of p (channel (collected o) pipe said) e (same, empty, _) =
      inr (o, ap₂ (λ pipe said. channel (collected o) pipe said) empty (sym same))

  over_or_on :
      (code : ℤ) (pipe : List ℕ) (out err : Channel) (res : Option ℤ)
      → Rest (ends_with code) out
      → Rest (ends_with code) err
      → Right (ends_with code) res
      → let x = run (ends_with code) closed_stdin pipe out err res in IsOver x ⊎ GoesOn cap x
  over_or_on code pipe out err res (inl (y, s)) k r = inr (_, t2_goes_on _ _ pipe out y err res s)
  over_or_on code pipe out err res (inr h) (inl (y, s)) r =
      inr (_, t3_goes_on _ _ pipe out err y res s)
  over_or_on code pipe out err none (inr h) (inr k) r = inr (_, waits_for code _ pipe out err)
  over_or_on code pipe out err (some code') (inr (said, e)) (inr (said', e')) r = inl (
      subst (λ x. IsOver (run (ends_with code) closed_stdin pipe x err (some code'))) (sym e)
        (subst
          (λ x. IsOver (
            run (ends_with code) closed_stdin pipe (channel (collected said) [] said) x
              (some code')))
          (sym e')
          (subst
            (λ p. IsOver (
              run p closed_stdin pipe (channel (collected said) [] said)
                (channel (collected said') [] said') (some code')))
            (sym r) (over code' pipe said said'))))

  -- The call is over, or one of the threads, the caller and the child can go on.
  pub next_step : (x : Run) → Sane x → IsOver x ⊎ GoesOn cap x
  next_step (run (ends_with code) (feeding left more) pipe out err res) h =
      let (t', pipe', s) = feeder_goes_on (ends_with code) left more pipe (inl tt) in
      inr (_, t1_goes_on _ _ t' pipe pipe' out err res s)
  next_step (run (ends_with code) closed_stdin pipe out err res) (h, k, r) =
      over_or_on code pipe out err res (rest_of (ends_with code) out tt h)
        (rest_of (ends_with code) err tt k) r
  next_step (run (to_out c p) t pipe (channel t2 held said) err res) (h, k, r) =
      elim (room_or_step (to_out c p) t2 held said (λ e. e) h) [
        | inl room ↦ inr (_, says c p t pipe t2 held said err res room)
        | inr (y, s) ↦ inr (_, t2_goes_on _ t pipe _ y err res s)
      ]
  next_step (run (to_err c p) t pipe out (channel t3 held said) res) (h, k, r) =
      elim (room_or_step (to_err c p) t3 held said (λ e. e) k) [
        | inl room ↦ inr (_, says_err c p t pipe out t3 held said res room)
        | inr (y, s) ↦ inr (_, t3_goes_on _ t pipe out _ y res s)
      ]
  next_step (run (from_in f) t (c ∷ pipe) out err res) h = inr (_, hears f t c pipe out err res)
  next_step (run (from_in f) closed_stdin [] out err res) h = inr (_, hears_end f out err res)
  next_step (run (from_in f) (feeding left more) [] out err res) h =
      let (t', pipe', s) = feeder_goes_on (from_in f) left more [] (inr refl) in
      inr (_, t1_goes_on _ _ t' [] pipe' out err res s)
