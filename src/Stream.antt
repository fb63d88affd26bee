-- ===== src/Stream.antt =====
-- http_audio_server/main.cpp, the class `Stream`: a playlist of files, decoded one after the other
-- and fed to one encoder.
pub mod Env
pub mod Loop
pub mod Consume
pub mod Announce
pub mod Step
pub mod Plays
pub mod Advance
pub mod Wire
pub mod Parts
pub mod Shape
pub mod Failure
pub mod Twin
pub mod Finished
pub mod Listen
pub mod Tests
use http_audio_server.Common.{
  ℕ, zero, suc, ◌+◌, ◌-◌, ◌*◌, ◌/◌, ◌%◌, ◌^◌, Bool, true, false, Option, none, some, List, [], ◌∷◌,
  ◌++◌, length, ltb, ◌==◌, if◌then◌else◌,
}
use http_audio_server.Common.Bytes.{to_bytes}
use http_audio_server.Common.Text.{codes}
use http_audio_server.Json.{
  Json, Items, nil, item, JsonLib, object, field, end, string, array, real,
}
use http_audio_server.Pipe.{Source}
use http_audio_server.Decoder.{read}
use http_audio_server.Encoder.{EncoderImpl, feed, finalize}
use http_audio_server.Encoder.Create.{create}
use http_audio_server.Encoder.Libs.{Codec}
use Env.{World, Double}

-- The playlist entry: file name, offset in seconds, and the decoder once it was created.
pub record Entry (w : World) : Type 0 where
  pub filename : List ℕ
  pub offs : Double w
  pub decoder : Option Source

pub record Stream (w : World) : Type 0 where
  pub decoders : List (Entry w)
  pub encoder : EncoderImpl (World.codec w)
  pub bytes_transferred : ℕ
  pub n_samples : ℕ
  pub buf : List ℕ
  pub bitrate : ℕ

-- The variables of the loop in `advance`: the stream, what is left to read, the metadata and
-- `os_buf_data`.
pub record Round (w : World) : Type 0 where
  pub stream : Stream w
  pub n_bytes : ℕ
  pub metadata : List (Json (Double w))
  pub out : List ℕ

-- The decoder is there, with what was done to get it; or an exception leaves the stream as it is.
pub data Opening (w : World) : Type 0 where
  ready : Round w → Source → Opening w
  failed : Stream w → Opening w

-- How a round or the loop ends: it returns, an exception leaves it (what was done to the stream
-- remains), or the fuel of the model runs out.
pub data Outcome (w : World) : Type 0 where
  done : Round w → Outcome w
  thrown : Stream w → Outcome w
  no_fuel : Outcome w

-- The bytes of `m_buf` read as floats, four bytes each.
unfoldable pub to_floats : (w : World) → List ℕ → List (Codec.Sample (World.codec w))
to_floats w [] = []
to_floats w (a ∷ []) = []
to_floats w (a ∷ b ∷ []) = []
to_floats w (a ∷ b ∷ d ∷ []) = []
to_floats w (a ∷ b ∷ d ∷ e ∷ bytes) = World.to_float w a b d e ∷ to_floats w bytes

-- A segment: its name, its size in four bytes, and its bytes.
unfoldable pub segment : List ℕ → List ℕ → List ℕ
segment name bytes = name ++ (to_bytes 4 (length bytes % 2 ^ 32) ++ bytes)

module _ (w : World) where
  open w use {codec, lib, start_decoder, metadata_of, seconds_of}

  unfoldable pub new_stream : ℕ → Stream w
  unfolding create
  new_stream bitrate = record {
    decoders = [];
    encoder = create codec 48000 2;
    bytes_transferred = 0;
    n_samples = 0;
    buf = [];
    bitrate = bitrate;
  }

  unfoldable pub append : Stream w → List ℕ → Double w → Stream w
  append st filename offs = record st {
    decoders = st.decoders ++ record { filename = filename; offs = offs; decoder = none } ∷ [];
  }

  -- `json{{"start", …}, {"filename", …}, {"meta", …}}`, with its keys sorted.
  unfoldable pub metadata_entry : ℕ → List ℕ → Json (Double w) → Json (Double w)
  metadata_entry n_samples filename meta = object (
      field (codes "filename") (string filename)
        (field (codes "meta") meta (field (codes "start") (real (seconds_of n_samples)) end)))

  -- The end of a round: drop the first decoder at its end, and clear the buffer. The destructor of
  -- the decoder (Decoder/Child) changes nothing of the stream.
  unfoldable pub close_round : Round w → List (Entry w) → ℕ → Stream w → List ℕ → Round w
  close_round r rest n_bytes st out = record r {
    stream = record st {
      decoders = if ltb (length st.buf) n_bytes then rest else st.decoders;
      buf = [];
    };
    n_bytes = n_bytes;
    out = out;
  }

  -- What is done with the bytes of a read: they are fed to the encoder. The test for the end of
  -- the decoder is made with `n_bytes` after the subtraction.
  unfoldable pub consume : Round w → List (Entry w) → ℕ → Option (Round w)
  unfolding close_round
  consume r rest n_read =
      let st = r.stream in
      let n_samples_read = length st.buf / 4 / 2 in
      if n_read == 0
      then some (close_round r rest r.n_bytes st r.out)
      else elim (feed codec st.encoder (to_floats w st.buf) n_samples_read st.bitrate) [
        | none ↦ none
        | some (encoder, out) ↦ some (
            close_round r rest (r.n_bytes - length st.buf)
              (record st {
                encoder = encoder;
                n_samples = (st.n_samples + n_samples_read) % 2 ^ 64;
              })
              (r.out ++ out))
      ]

  -- Read from the decoder `dec` of the first entry.
  unfoldable pub step : Entry w → List (Entry w) → Round w → Source → Option (Round w)
  unfolding consume
  step entry rest r dec =
      let (dec', buf, n_read) = read dec r.n_bytes r.stream.buf in
      let decoders = record entry { decoder = some dec' } ∷ rest in
      consume (record r { stream = record r.stream { decoders = decoders; buf = buf } }) rest n_read

  -- The decoder is created when it is first needed, and then the metadata is read.
  unfoldable pub open_decoder : Round w → Entry w → List (Entry w) → Option Source → Opening w
  open_decoder r entry rest (some dec) = ready r dec
  open_decoder r entry rest none = elim (start_decoder entry.filename entry.offs) [
    | none ↦ failed r.stream
    | some dec ↦
        let st = record r.stream { decoders = record entry { decoder = some dec } ∷ rest } in
        elim (metadata_of entry.filename) [
          | none ↦ failed st
          | some meta ↦
              ready
                (record r {
                  stream = st;
                  metadata = r.metadata ++ metadata_entry st.n_samples entry.filename meta ∷ [];
                })
                dec
        ]
  ]

  abbrev pub or_no_fuel : Option (Round w) → Outcome w
  or_no_fuel none = no_fuel
  or_no_fuel (some r) = done r

  -- A round of the loop, for a stream whose first entry is `entry`.
  unfoldable pub round : Round w → Entry w → List (Entry w) → Outcome w
  round r entry rest = elim (open_decoder r entry rest entry.decoder) [
    | failed st ↦ thrown st
    | ready r' dec ↦ or_no_fuel (step entry rest r' dec)
  ]

  -- `while (n_bytes > 0 && !m_decoders.empty())`
  unfoldable pub advance_loop : ℕ → Round w → Outcome w
  advance_loop zero r = no_fuel
  advance_loop (suc fuel) r = elim (r.n_bytes == 0) [
    | true ↦ done r
    | false ↦ elim r.stream.decoders [
      | [] ↦ done r
      | entry ∷ rest ↦ elim (round r entry rest) [
        | done r' ↦ advance_loop fuel r'
        | thrown st ↦ thrown st
        | no_fuel ↦ no_fuel
      ]
    ]
  ]

  -- Finalise the encoder if the playlist is done.
  unfoldable pub close_stream : Round w → Option (Round w)
  close_stream r = elim r.stream.decoders [
    | entry ∷ rest ↦ some r
    | [] ↦ elim (finalize codec r.stream.encoder r.stream.bitrate) [
      | none ↦ none
      | some (encoder, out) ↦
          some (record r { stream = record r.stream { encoder = encoder }; out = r.out ++ out })
    ]
  ]

  unfoldable pub items : List (Json (Double w)) → Items (Double w)
  items [] = nil
  items (j ∷ js) = item j (items js)

  -- What is written to `os`.
  unfoldable pub output : Round w → List ℕ
  unfolding items segment
  output r =
      segment (codes "meta") (JsonLib.dump lib (array (items r.metadata)))
      ++ segment (codes "data") r.out

  -- `none` as a result is the model's fuel; the output is `none` where an exception was thrown.
  abbrev pub Advanced : Type 0
  Advanced = Option (Stream w × Option (List ℕ))

  abbrev pub written : Option (Round w) → Advanced
  written none = none
  written (some r) = some (r.stream, some (output r))

  abbrev pub then_close : Outcome w → Advanced
  then_close no_fuel = none
  then_close (thrown st) = some (st, none)
  then_close (done r) = written (close_stream r)

  -- `advance`, for `samples` the value of `seconds * 48000` as a `size_t`.
  unfoldable pub advance : Stream w → ℕ → Advanced
  unfolding advance_loop close_stream output
  advance st samples =
      let n_bytes = samples * 2 * 4 % 2 ^ 64 in
      then_close (
        advance_loop (n_bytes + length st.decoders + 1)
          (record { stream = st; n_bytes = n_bytes; metadata = []; out = [] }))
