-- ===== src/Pipe/Tests.antt =====
-- `generic_pipe` at concrete inputs.
use http_audio_server.Common.{ℕ, ◌≡◌, refl, true, List, [], ◌∷◌, ◌++◌, length, ltb}
use http_audio_server.Common.Text.{codes}
use http_audio_server.Pipe.{Source, Ostream, generic_pipe, take_byte, ends_line}

-- An output that keeps all writes, and breaks down at the second one.
abbrev demo : Ostream (List (List ℕ))
demo = record { good = λ o. ltb (length o) 2; write = λ o buf. o ++ buf ∷ []; flush = λ o. o }

abbrev source : Source
source = record { rest = codes "a\nbc\nd"; good = true }

generic_pipe_runs : generic_pipe demo source [] ≡ codes "a\n" ∷ codes "bc\n" ∷ []
unfolding generic_pipe take_byte ends_line
generic_pipe_runs = refl
