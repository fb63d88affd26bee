-- ===== src/Decoder/Tests.antt =====
-- A decoder whose child ends with the exit code 255.
use http_audio_server.Common.{
  ◌≡◌, refl, Bool, true, false, ◌&&◌, if◌then◌else◌, some, none, [], ◌∷◌, arith,
}
use http_audio_server.Common.Int.{pos}
use http_audio_server.Process.{Os, exited, failed, signal}
use http_audio_server.Process.Status.{by_exit}
use http_audio_server.Decoder.Child.{
  DecoderImpl, drain, after_drain, wait_decoder, joined, destroy_decoder,
}
use http_audio_server.Decoder.Child.Drain.{wait_decoder_lem, destroy_decoder-wait_decoder}

-- A child that ends only when it was told to and its output was read: the state of the system says
-- whether either was done.
abbrev demo : Os
demo = record {
  State = Bool × Bool;
  waitpid = λ s pid block. (s, if s.0 && s.1 then exited 255 else failed);
  kill = λ s pid number. ((true, s.1), true);
  read_out = λ s fd. (s.0, true);
}

abbrev fresh : Bool × Bool
fresh = (false, false)

abbrev over : Bool × Bool
over = (true, true)

abbrev decoder : DecoderImpl
decoder = record {
  process = record { pid = 42; exitcode = pos 0 };
  streams = record { child_stdout = some 3; child_stderr = some 5; child_stdin = none };
  output = record { rest = 1 ∷ 2 ∷ 3 ∷ []; good = true };
  errors = record { rest = []; good = true };
  msgs = [];
}

wait_decoder_lem_example :
    (d' : DecoderImpl) × (wait_decoder demo 4 fresh decoder ≡ some (over, d', some (pos 255)))
    × (d'.output.rest ≡ [])
    × (d'.process.exitcode ≡ pos 255)
unfolding signal
wait_decoder_lem_example =
    wait_decoder_lem demo fresh over decoder (exited 255) (pos 255) (λ e. ground arith)
      (λ e. omega arith) refl (by_exit 255)

destroy_decoder-wait_decoder_example :
    (d' : DecoderImpl) × (wait_decoder demo 4 fresh decoder ≡ some (over, d', some (pos 255)))
    × (destroy_decoder demo 1 over d'
        ≡ joined demo (after_drain demo (Os.kill demo over 0 2).0 d' (drain 1 d'.output)))
unfolding signal
destroy_decoder-wait_decoder_example =
    destroy_decoder-wait_decoder demo fresh over over decoder (exited 255) (pos 255) 1
      (λ e. ground arith) (λ e. omega arith) refl (by_exit 255)
