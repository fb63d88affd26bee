-- ===== src/Pipe.antt =====
-- http_audio_server/process.cpp, `Process::generic_pipe`: copy a stream, line by line.
pub mod Pieces
pub mod Copies
mod Tests
use http_audio_server.Common.{
  ℕ, Bool, true, false, ◌&&◌, ◌||◌, Option, some, none, List, [], ◌∷◌, ◌++◌, length, ltb, ◌==◌,
  if◌then◌else◌,
}

-- A `std::istream`: the bytes that it still gives, in the order and up to the end that the other
-- side makes of them, and `good()`.
pub record Source : Type 0 where
  pub rest : List ℕ
  pub good : Bool

-- A `std::ostream`, with states `S`.
pub record Ostream (S : Type 0) : Type 0 where
  pub good : S → Bool
  pub write : S → List ℕ → S
  pub flush : S → S

abbrev pub buf_size : ℕ
buf_size = 4096

unfoldable pub ends_line : ℕ → Bool
ends_line c = c == b'\n' || c == b'\r'

module _ {S : Type 0} (os : Ostream S) where
  -- `output.write(buf, buf_ptr); output.flush();`
  unfoldable pub put_out : S → List ℕ → S
  put_out o buf = Ostream.flush os (Ostream.write os o buf)

  -- What is done with a byte that was read; `buf` is the used part of the buffer.
  unfoldable pub take_byte : S → List ℕ → ℕ → S × List ℕ
  unfolding put_out ends_line
  take_byte o buf c =
      let buf' = buf ++ c ∷ [] in
      if length buf' == buf_size || ends_line c then (put_out o buf', []) else (o, buf')

  -- The `while` loop. At the end of the bytes a read fails, which ends the loop.
  unfoldable pub pipe_loop : Bool → List ℕ → S → List ℕ → S × List ℕ
  pipe_loop good [] o buf = (o, buf)
  pipe_loop good (c ∷ rest) o buf =
      let more = pipe_loop good rest (take_byte o buf c).0 (take_byte o buf c).1 in
      if good && Ostream.good os o then more else (o, buf)

  -- The remainder behind the loop.
  unfoldable pub put_rest : S × List ℕ → S
  unfolding put_out
  put_rest (o, buf) = if ltb 0 (length buf) && Ostream.good os o then put_out o buf else o

  unfoldable pub generic_pipe : Source → S → S
  unfolding pipe_loop put_rest
  generic_pipe source o = put_rest (pipe_loop source.good source.rest o [])
