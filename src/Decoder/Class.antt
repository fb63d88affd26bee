-- ===== src/Decoder/Class.antt =====
-- http_audio_server/decoder.hpp, the class `Decoder` as its clients see it, and the implementation
-- over `DecoderImpl`.
use mathlib.Core.Path.{ap₂}
use http_audio_server.Common.{
  ◌∙◌, ℕ, suc, ◌≡◌, ◌≢◌, ap, true, Option, some, List, [], ◌++◌, length, take, drop,
}
use http_audio_server.Common.Int.{ℤ}
use http_audio_server.Pipe.{Source}
use http_audio_server.Process.{Os, Waited, signal}
use http_audio_server.Process.Status.{Ending}
use http_audio_server.Process.Launch.{Sys, SysCall}
use http_audio_server.Decoder.{read}
use http_audio_server.Decoder.Reads.{read_good}
use http_audio_server.Decoder.Format.{AudioFormat}
use http_audio_server.Decoder.Child.{
  DecoderImpl, Made, new_decoder, wait_decoder, destroy_decoder, messages,
}
use http_audio_server.Decoder.Child.Drain.{Ends, wait_decoder_lem}

-- `output`, `pid`, `stdout` and `exitcode` show the object: what is still to be read, and the child
-- with the descriptor of its output.
pub record DecoderClass (os : Os) : Type 1 where
  pub T : Type 0
  pub output : T → Source
  pub pid : T → ℕ
  pub stdout : T → Option ℕ
  pub exitcode : T → ℤ
  pub create :
      Sys → (Option ℕ → Source) → List ℕ → Option (List ℕ) → AudioFormat → Made × List SysCall
  pub destroy : ℕ → Os.State os → T → Option (Os.State os × T × Option ℤ)
  pub messages : T → List ℕ
  pub wait : ℕ → Os.State os → T → Option (Os.State os × T × Option ℤ)
  pub read : T → ℕ → List ℕ → T × List ℕ × ℕ
  -- A read appends the next bytes, at most as many as are asked for, and gives their number.
  pub reads :
      (d : T) (n_bytes : ℕ) (tar : List ℕ)
      → (output d).good ≡ true
      → let (d', tar', n) = read d n_bytes tar in
        (tar' ≡ tar ++ take n_bytes (output d).rest)
        × (n ≡ length (take n_bytes (output d).rest))
        × ((output d').rest ≡ drop n_bytes (output d).rest)
  -- `wait` returns the exit code, if the child ends, and nothing is left to read.
  pub waits :
      (s s' : Os.State os) (d : T) (w : Waited) (code : ℤ)
      → Ends (output d)
      → pid d ≢ 0
      → Os.waitpid os (Os.read_out os (Os.kill os s (pid d) 2).0 (stdout d)) (pid d) true ≡ (s', w)
      → Ending w code
      → (d' : T) × (wait (suc (length (output d).rest)) s d ≡ some (s', d', some code))
        × ((output d').rest ≡ [])
        × (exitcode d' ≡ code)

abbrev read_decoder : DecoderImpl → ℕ → List ℕ → DecoderImpl × List ℕ × ℕ
read_decoder d n_bytes tar = (
  record d { output = (read d.output n_bytes tar).0 },
  (read d.output n_bytes tar).1,
  (read d.output n_bytes tar).2,
)

reads_lem :
    (d : DecoderImpl) (n_bytes : ℕ) (tar : List ℕ)
    → d.output.good ≡ true
    → let r = read_decoder d n_bytes tar in
      (r.1 ≡ tar ++ take n_bytes d.output.rest)
      × (r.2 ≡ length (take n_bytes d.output.rest))
      × (r.0.output.rest ≡ drop n_bytes d.output.rest)
reads_lem d n_bytes tar h =
    let e = read_good d.output n_bytes tar h in
    (
      ap (λ (r : Source × List ℕ × ℕ). r.1) e,
      ap (λ (r : Source × List ℕ × ℕ). r.2) e,
      ap (λ (r : Source × List ℕ × ℕ). r.0.rest) e,
    )

module _ (os : Os) where
  waits_lem :
      (s s' : Os.State os) (d : DecoderImpl) (w : Waited) (code : ℤ)
      → Ends d.output
      → d.process.pid ≢ 0
      → Os.waitpid os
          (Os.read_out os (Os.kill os s d.process.pid 2).0 d.streams.child_stdout)
          d.process.pid
          true
        ≡ (s', w)
      → Ending w code
      → (d' : DecoderImpl) × (wait_decoder os (suc (length d.output.rest)) s d
          ≡ some (s', d', some code))
        × (d'.output.rest ≡ [])
        × (d'.process.exitcode ≡ code)
  unfolding signal
  waits_lem s s' d w code v h e ending = wait_decoder_lem os s s' d w code v h e ending

  abbrev decoder_class : DecoderClass os
  decoder_class = record {
    T = DecoderImpl;
    output = λ d. d.output;
    pid = λ d. d.process.pid;
    stdout = λ d. d.streams.child_stdout;
    exitcode = λ d. d.process.exitcode;
    create = new_decoder;
    destroy = destroy_decoder os;
    messages = messages;
    wait = wait_decoder os;
    read = read_decoder;
    reads = reads_lem;
    waits = waits_lem;
  }

-- A client of the class.
module _ (os : Os) (c : DecoderClass os) where
  -- By the laws of the class alone: two reads in a row append the next bytes of both, in their order.
  pub read_again :
      (d : DecoderClass.T c) (m n : ℕ) (tar : List ℕ)
      → (DecoderClass.output c d).good ≡ true
      → (DecoderClass.output c ((DecoderClass.read c d m tar).0)).good ≡ true
      → (DecoderClass.read c
          ((DecoderClass.read c d m tar).0)
          n
          ((DecoderClass.read c d m tar).1)).1
        ≡ tar
          ++ take m (DecoderClass.output c d).rest
          ++ take n (drop m (DecoderClass.output c d).rest)
  read_again d m n tar h k =
      let (text, count, left) = DecoderClass.reads c d m tar h in
      let (text', count', left') =
        DecoderClass.reads c ((DecoderClass.read c d m tar).0) n ((DecoderClass.read c d m tar).1)
          k in
      text' ∙ ap₂ (λ (x y : List ℕ). x ++ take n y) text left
