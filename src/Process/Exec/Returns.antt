-- ===== src/Process/Exec/Returns.antt =====
-- A call of `exec` comes to its end, whatever the order of the turns.
use http_audio_server.Common.{
  ℕ, zero, suc, ◌+◌, ◌*◌, ◌<◌, inl, inr, refl, ap, Option, none, some, List, [], ◌∷◌, length,
  length-append, arith,
}
use http_audio_server.Common.Int.{ℤ}
use http_audio_server.Pipe.{take_byte}
use http_audio_server.Process.Exec.{stringstream}
use http_audio_server.Process.Exec.Result.{take_byte-text, put_rest-text}
use http_audio_server.Process.Exec.Blocking.{
  Script, ends_with, to_out, to_err, from_in, Feeder, feeding, closed_stdin, collecting, collected,
  Channel, channel, Run, run, ChannelStep, takes, stops, FeederStep, reads_input, reads_end, puts,
  breaks, closes, BlockingStep, t1_goes_on, t2_goes_on, t3_goes_on, waits_for, says, says_err,
  hears, hears_end, blocking_start,
}
use http_audio_server.Process.Exec.Unblocked.{Sane, step-Sane, IsOver, GoesOn, next_step}

-- However the turns are taken from here on, the call is over behind a finite number of steps.
pub data Reaches (cap : ℕ) : Run → Type 0 where
  arrives : (x : Run) → IsOver x → Reaches cap x
  moves :
      (x : Run) → GoesOn cap x → ((y : Run) → BlockingStep cap x y → Reaches cap y) → Reaches cap x

-- A bound of the steps that are left to the threads and the caller.
abbrev feeder_weight : Feeder → ℕ
feeder_weight closed_stdin = 0
feeder_weight (feeding left none) = length left + 1
feeder_weight (feeding left (some (rest, buf))) = length left + (2 * length rest + (length buf + 2))

abbrev channel_weight : Channel → ℕ
channel_weight (channel (collecting o buf) pipe said) = length pipe + 1
channel_weight (channel (collected o) pipe said) = 0

abbrev turns : Option ℤ → ℕ
turns none = 1
turns (some code) = 0

abbrev weight : Feeder → Channel → Channel → Option ℤ → ℕ
weight t out err res = feeder_weight t + (channel_weight out + (channel_weight err + turns res))

puts_falls :
    (c : ℕ) (left : List ℕ) (more : Option (List ℕ × List ℕ))
    → feeder_weight (feeding left more) < feeder_weight (feeding (c ∷ left) more)
puts_falls c left none = omega arith
puts_falls c left (some (rest, buf)) = omega arith

breaks_falls :
    (c : ℕ) (left : List ℕ) (more : Option (List ℕ × List ℕ))
    → 0 < feeder_weight (feeding (c ∷ left) more)
breaks_falls c left none = omega arith
breaks_falls c left (some (rest, buf)) = omega arith

feeder_falls :
    (cap : ℕ) (p : Script) (t t' : Feeder) (pipe pipe' : List ℕ)
    → FeederStep cap p t pipe t' pipe'
    → feeder_weight t' < feeder_weight t
feeder_falls cap p _ _ _ _ (reads_input c rest buf pipe) =
    let (o', buf') = take_byte stringstream [] buf c in
    omega (
      arith,
      ap length (take_byte-text [] buf c),
      length-append o' buf',
      length-append buf (c ∷ []),
    )
feeder_falls cap p _ _ _ _ (reads_end buf pipe) = omega (arith, ap length (put_rest-text [] buf))
feeder_falls cap p _ _ _ _ (puts c left more pipe room) = puts_falls c left more
feeder_falls cap p _ _ _ _ (breaks c left more pipe e) = breaks_falls c left more
feeder_falls cap p _ _ _ _ (closes pipe) = omega arith

channel_falls :
    (p : Script) (x y : Channel) → ChannelStep p x y → channel_weight y < channel_weight x
channel_falls p _ _ (takes o buf c pipe said) = omega arith
channel_falls p _ _ (stops o buf said e) = omega arith

module _ (cap : ℕ) (some_room : 0 < cap) where
  abbrev AllReach : Script → Type 0
  AllReach p =
      (t : Feeder) (pipe : List ℕ) (out err : Channel) (res : Option ℤ)
      → Sane (run p t pipe out err res)
      → Reaches cap (run p t pipe out err res)

  -- What the child does next comes to its end.
  abbrev Later : Script → Type 0
  Later (ends_with code) = Unit
  Later (to_out c k) = AllReach k
  Later (to_err c k) = AllReach k
  Later (from_in f) = (o : Option ℕ) → AllReach (f o)

  abbrev Below : ℕ → Script → Type 0
  Below n p =
      (t : Feeder) (pipe : List ℕ) (out err : Channel) (res : Option ℤ)
      → weight t out err res < n
      → Sane (run p t pipe out err res)
      → Reaches cap (run p t pipe out err res)

  abbrev script_of : Run → Script
  script_of (run p t pipe out err res) = p

  abbrev weight_of : Run → ℕ
  weight_of (run p t pipe out err res) = weight t out err res

  behind_step :
      (n : ℕ) (x y : Run)
      → BlockingStep cap x y
      → Sane y
      → Later (script_of x)
      → Below n (script_of x)
      → weight_of x < suc n
      → Reaches cap y
  behind_step n _ _ (t1_goes_on p t t' pipe pipe' out err res s) h later below w =
      below t' pipe' out err res (omega (arith, w, feeder_falls cap p t t' pipe pipe' s)) h
  behind_step n _ _ (t2_goes_on p t pipe out out' err res s) h later below w =
      below t pipe out' err res (omega (arith, w, channel_falls p out out' s)) h
  behind_step n _ _ (t3_goes_on p t pipe out err err' res s) h later below w =
      below t pipe out err' res (omega (arith, w, channel_falls p err err' s)) h
  behind_step n _ _ (waits_for code t pipe out err) h later below w =
      below t pipe out err (some code) (omega (arith, w)) h
  behind_step n _ _ (says c p t pipe t2 held said err res room) h later below w =
      later t pipe _ err res h
  behind_step n _ _ (says_err c p t pipe out t3 held said res room) h later below w =
      later t pipe out _ res h
  behind_step n _ _ (hears f t c pipe out err res) h later below w =
      later (some c) t pipe out err res h
  behind_step n _ _ (hears_end f out err res) h later below w =
      later none closed_stdin [] out err res h

  settle : (n : ℕ) (p : Script) → Later p → Below n p
  settle zero p later t pipe out err res w h = absurd (omega arith)
  settle (suc n) p later t pipe out err res w h =
      let x = run p t pipe out err res in
      elim (next_step cap some_room x h) [
        | inl o ↦ arrives x o
        | inr g ↦
            moves x g
              (λ y s. behind_step n x y s (step-Sane cap x y s h) later (settle n p later) w)
      ]

  all_reach : (p : Script) → AllReach p
  all_reach (ends_with code) t pipe out err res h =
      settle (suc (weight t out err res)) (ends_with code) tt t pipe out err res (omega arith) h
  all_reach (to_out c k) t pipe out err res h =
      settle (suc (weight t out err res)) (to_out c k) (all_reach k) t pipe out err res
        (omega arith) h
  all_reach (to_err c k) t pipe out err res h =
      settle (suc (weight t out err res)) (to_err c k) (all_reach k) t pipe out err res
        (omega arith) h
  all_reach (from_in f) t pipe out err res h =
      settle (suc (weight t out err res)) (from_in f) (λ o. all_reach (f o)) t pipe out err res
        (omega arith) h

  -- Pipes that hold at least one byte, any child that ends when its reads and writes do, and any
  -- input. However the three threads, the caller and the child take their turns, each of them when
  -- the pipes let it: behind a finite number of steps the child has ended, the threads have ended
  -- with all that the child has written to its output and to its errors, and the caller has its exit
  -- code; and before that one of them can always go on.
  pub exec_returns : (p : Script) (input : List ℕ) → Reaches cap (blocking_start p input)
  unfolding blocking_start
  exec_returns p input = all_reach p _ _ _ _ _ (refl, refl, tt)
