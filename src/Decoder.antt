-- ===== src/Decoder.antt =====
-- http_audio_server/decoder.cpp: the output of the `ffmpeg` child process.
pub mod Reads
pub mod Child
pub mod Class
pub mod Got
pub mod Format
mod Tests
use http_audio_server.Common.{
  ℕ, ◌+◌, ◌-◌, Bool, false, List, [], ◌++◌, length, take, drop, replicate, leb, if◌then◌else◌,
}
use http_audio_server.Pipe.{Source}

-- `std::vector::resize`: new bytes are 0.
unfoldable pub resize : List ℕ → ℕ → List ℕ
resize tar n = take n tar ++ replicate (n - length tar) 0

-- `is.read(&tar[at], n)`: the vector, the source and `gcount()`. A read that meets the end of the
-- source leaves it no longer good.
unfoldable pub read_into : List ℕ → ℕ → ℕ → Source → List ℕ × Source × ℕ
read_into tar at n is =
    let got = take n is.rest in
    (
      take at tar ++ (got ++ drop (at + length got) tar),
      record { rest = drop n is.rest; good = leb n (length is.rest) },
      length got,
    )

-- `DecoderImpl::read`; the state is the stream of the child's output.
unfoldable pub read : Source → ℕ → List ℕ → Source × List ℕ × ℕ
unfolding resize read_into
read is n_bytes tar =
    let old_size = length tar in
    let (filled, is', n_bytes_read) =
      read_into (resize tar (old_size + n_bytes)) old_size n_bytes is in
    if is.good
    then (is', resize filled (old_size + n_bytes_read), n_bytes_read)
    else (is, resize tar (old_size + 0), 0)
