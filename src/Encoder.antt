-- ===== src/Encoder.antt =====
-- http_audio_server/encoder.cpp: PCM samples in, Opus frames in a WebM stream out.
-- The state is that of `EncoderImpl`; `libopus` and `mkvmuxer` are the interface `Codec`.
pub mod Libs
pub mod Create
pub mod Class
pub mod Abstract
pub mod Round
pub mod Refines
pub mod Output
pub mod Feed
pub mod Timestamp
pub mod Flush
mod Tests
use http_audio_server.Common.{
  ℕ, zero, suc, ◌+◌, ◌-◌, ◌*◌, ◌/◌, ◌%◌, ◌^◌, min, Bool, true, false, ◌&&◌, Option, none, some,
  List, [], ◌∷◌, ◌++◌, length, take, drop, replicate, leb, ◌==◌, if◌then◌else◌,
}
use Libs.{Codec}

-- `BufferMkvWriter`: the bytes that wait for `dump`, and the position reported to the muxer.
pub record Writer : Type 0 where
  pub buf : List ℕ
  pub bytes_written : ℕ

unfoldable pub write : Writer → List ℕ → Writer
write w bytes = record {
  buf = w.buf ++ bytes;
  bytes_written = (w.bytes_written + length bytes) % 2 ^ 64;
}

-- The calls of `Write` that the muxer makes, in order.
unfoldable pub write_all : Writer → List (List ℕ) → Writer
unfolding write
write_all w [] = w
write_all w (b ∷ bs) = write_all (write w b) bs

unfoldable pub dump : Writer → Writer × List ℕ
dump w = (record w { buf = [] }, w.buf)

abbrev pub buf_size : ℕ
buf_size = 2 ^ 16

-- `Core` is what encoding a frame changes: the granule, the codec, the muxer and its output.
pub record Core (c : Codec) : Type 0 where
  pub granule : ℕ
  pub enc : Codec.Opus c
  pub segment : Codec.Segment c
  pub writer : Writer

-- The fields that no method changes.
pub record Config : Type 0 where
  pub rate : ℕ
  pub n_channels : ℕ
  pub frame_size : ℕ
  pub track_id : ℕ

pub record EncoderImpl (c : Codec) : Type 0 where
  pub config : Config
  pub open config use *
  pub core : Core c
  pub open core use *
  pub buf : List (Codec.Sample c)
  pub buf_ptr : ℕ
  pub done : Bool

-- The variables of the loop in `encode`: the encoder, and the samples that are left.
pub record Loop (c : Codec) : Type 0 where
  pub state : EncoderImpl c
  pub pcm : List (Codec.Sample c)
  pub n_samples : ℕ

-- `(granule * 1000ULL * 1000ULL * 1000ULL) / rate`, in uint64_t.
unfoldable pub timestamp : ℕ → ℕ → ℕ
timestamp granule rate = (granule * 1000 * 1000 * 1000) % 2 ^ 64 / rate

module _ (c : Codec) where
  open c use {
    Sample, silence, Opus, set_bitrate, opus_encode_float, Segment, add_frame,
    finalize as finalize_segment,
  }

  -- The packet goes to the muxer if its size is positive.
  unfoldable pub mux : ℕ → ℕ → Core c → Opus → Option (List ℕ) → Core c
  mux rate track_id k enc none = record k { enc = enc }
  mux rate track_id k enc (some packet) =
      let (segment, writes) = add_frame k.segment packet track_id (timestamp k.granule rate) in
      record k { enc = enc; segment = segment; writer = write_all k.writer writes }

  -- The body of `if (m_buf_ptr == m_buf.size())`, but for the reset of `m_buf_ptr`.
  unfoldable pub emit : Config → ℕ → List Sample → Core c → Core c
  unfolding mux
  emit g bitrate frame k =
      let (enc, packet) =
        opus_encode_float (set_bitrate k.enc bitrate) frame g.frame_size buf_size in
      let k' = mux g.rate g.track_id k enc packet in
      record k' { granule = (k.granule + g.frame_size) % 2 ^ 64 }

  -- `std::copy(pcm, pcm + n, buf.begin() + ptr)`
  unfoldable pub copy_in : List Sample → ℕ → List Sample → ℕ → List Sample
  copy_in buf ptr pcm n = take ptr buf ++ take n pcm ++ drop (ptr + n) buf

  -- `std::fill(buf.begin() + ptr, buf.end(), 0.0)`
  unfoldable pub zero_from : List Sample → ℕ → List Sample
  zero_from buf ptr = take ptr buf ++ replicate (length buf - ptr) silence

  -- The first half of a round: gather samples in the buffer.
  unfoldable pub gather : Bool → Loop c → Loop c
  unfolding copy_in zero_from
  gather flush l =
      let e = l.state in
      let n_floats_in = min (length e.buf - e.buf_ptr) (l.n_samples * e.n_channels % 2 ^ 64) in
      let buf = copy_in e.buf e.buf_ptr l.pcm n_floats_in in
      if flush && leb l.n_samples e.frame_size
      then record {
        state = record e { buf = zero_from buf e.buf_ptr; buf_ptr = length buf };
        pcm = l.pcm;
        n_samples = 0;
      }
      else record {
        state = record e { buf = buf; buf_ptr = e.buf_ptr + n_floats_in };
        pcm = drop n_floats_in l.pcm;
        n_samples = l.n_samples - n_floats_in / e.n_channels;
      }

  -- The second half: encode the frame if it is complete.
  unfoldable pub encode_full : ℕ → EncoderImpl c → EncoderImpl c
  unfolding emit
  encode_full bitrate e =
      if e.buf_ptr == length e.buf
      then record e { core = emit e.config bitrate e.buf e.core; buf_ptr = 0 }
      else e

  unfoldable pub round : ℕ → Bool → Loop c → Loop c
  unfolding gather encode_full
  round bitrate flush l = let g = gather flush l in record g { state = encode_full bitrate g.state }

  -- The `do … while (n_samples > 0)`, on fuel; `none` means that the fuel ran out.
  unfoldable pub encode_loop : ℕ → ℕ → Bool → Loop c → Option (EncoderImpl c)
  encode_loop zero bitrate flush l = none
  encode_loop (suc fuel) bitrate flush l =
      let l' = round bitrate flush l in
      elim (l'.n_samples == 0) [ true ↦ some l'.state | false ↦ encode_loop fuel bitrate flush l' ]

  -- `m_mkv_segment.Finalize()` and the reset, where the stream was flushed.
  unfoldable pub finish : Bool → EncoderImpl c → EncoderImpl c
  finish flush e =
      let (segment, writes) = finalize_segment e.segment in
      let closed = record e.core {
        granule = 0;
        segment = segment;
        writer = write_all e.writer writes;
      } in
      if flush then record e { core = closed; done = true } else e

  -- Dump all buffered data into the output stream.
  unfoldable pub dump_out : EncoderImpl c → EncoderImpl c × List ℕ
  dump_out e =
      let (w, out) = dump e.writer in (record e { core = record e.core { writer = w } }, out)

  abbrev pub then_finish : Bool → Option (EncoderImpl c) → Option (EncoderImpl c × List ℕ)
  then_finish flush none = none
  then_finish flush (some e) = some (dump_out (finish flush e))

  -- `encode`: the new state, and what is written to `os`. A call makes at most one round for
  -- each sample and one more.
  unfoldable pub encode :
      EncoderImpl c → List Sample → ℕ → ℕ → Bool → Option (EncoderImpl c × List ℕ)
  unfolding encode_loop finish dump_out
  encode e pcm n_samples bitrate flush =
      if e.done
      then some (e, [])
      else then_finish flush (
          encode_loop (n_samples + 1) bitrate flush
            (record { state = e; pcm = pcm; n_samples = n_samples }))

  -- `Encoder::feed` and `Encoder::finalize`.
  unfoldable pub feed : EncoderImpl c → List Sample → ℕ → ℕ → Option (EncoderImpl c × List ℕ)
  feed e pcm n_samples bitrate = encode e pcm n_samples bitrate false

  unfoldable pub finalize : EncoderImpl c → ℕ → Option (EncoderImpl c × List ℕ)
  finalize e bitrate = encode e [] 0 bitrate true
