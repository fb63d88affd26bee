-- ===== src/Stream/Loop.antt =====
-- What is still to be played, and what a round of `advance` does to it.
use http_audio_server.Common.{
  ℕ, ◌+◌, ◌-◌, ◌==◌, if◌then◌else◌, ◌/◌, ◌%◌, ◌≡◌, refl, ap, false, Option, some, none, List, [],
  ◌∷◌, ◌++◌, length, All, arith, ◌^◌, ◌<◌,
}
use http_audio_server.Json.{Json}
use http_audio_server.Pipe.{Source}
use http_audio_server.Decoder.Got.{IsWhole}
use http_audio_server.Encoder.Round.{IsValid}
use http_audio_server.Encoder.Feed.{Runs}
use http_audio_server.Stream.{Entry, Stream, Round, to_floats, metadata_entry}
use http_audio_server.Stream.Env.{World, Double}

module _ (w : World) where
  -- The decoder of an entry, created now if there is none yet.
  abbrev pub decoder_of : Option Source → Entry w → Option Source
  decoder_of (some dec) entry = some dec
  decoder_of none entry = World.start_decoder w entry.filename entry.offs

  abbrev pub rest_of : Option Source → List ℕ
  rest_of none = []
  rest_of (some dec) = dec.rest

  -- The bytes that the entries still give, in the order of the playlist.
  unfoldable pub contents : List (Entry w) → List ℕ
  contents [] = []
  contents (entry ∷ entries) = rest_of (decoder_of entry.decoder entry) ++ contents entries

  abbrev pub told : ℕ → Entry w → Option (Json (Double w)) → List (Json (Double w))
  told n entry none = []
  told n entry (some meta) = metadata_entry w n entry.filename meta ∷ []

  -- What is told of an entry when it is reached at sample `n`: its metadata, if it has no decoder
  -- yet.
  abbrev pub described : ℕ → Entry w → Option Source → List (Json (Double w))
  described n entry (some dec) = []
  described n entry none = told n entry (World.metadata_of w entry.filename)

  -- The metadata of all files that the next `k` bytes of the playlist reach, from sample `n` on.
  unfoldable pub announced : ℕ → ℕ → List (Entry w) → List (Json (Double w))
  unfolding metadata_entry
  announced n k [] = []
  announced n k (entry ∷ entries) =
      let size = length (rest_of (decoder_of entry.decoder entry)) in
      let later = announced ((n + size / 8) % 2 ^ 64) (k - size) entries in
      if k == 0 then [] else described n entry entry.decoder ++ later

  -- The metadata of a file can be read, if its decoder is still to be created.
  abbrev pub IsKnown : Option Source → Entry w → Type 0
  IsKnown (some dec) entry = Unit
  IsKnown none entry = (meta : Json (Double w)) × (World.metadata_of w entry.filename ≡ some meta)

  -- The file of an entry can be decoded to whole sample pairs, and its metadata can be read where
  -- it is needed.
  pub record IsPlayable (entry : Entry w) : Type 0 where
    pub dec : Source
    pub opens : decoder_of entry.decoder entry ≡ some dec
    pub is_whole : IsWhole dec
    pub is_known : IsKnown entry.decoder entry

  -- A stream between two rounds.
  pub record IsReady (st : Stream w) : Type 0 where
    pub playable : All IsPlayable st.decoders
    pub valid : IsValid st.encoder
    pub not_done : st.encoder.done ≡ false
    pub stereo : st.encoder.n_channels ≡ 2
    pub empty : st.buf ≡ []
    pub counted : st.n_samples < 2 ^ 64

  -- From `r` to `r'` the bytes `taken` were played: they come first in the playlist, the encoder
  -- took their samples, and what it wrote is added to the output.
  pub record Plays (r r' : Round w) (taken : List ℕ) : Type 0 where
    pub content_eq : contents r.stream.decoders ≡ taken ++ contents r'.stream.decoders
    pub n_eq : r.n_bytes ≡ length taken + r'.n_bytes
    pub aligned : length taken % 8 ≡ 0
    pub out : List ℕ
    pub out_eq : r'.out ≡ r.out ++ out
    pub encoded : Runs r.stream.bitrate r.stream.encoder r'.stream.encoder (to_floats w taken) out
    pub count_eq : r'.stream.n_samples ≡ (r.stream.n_samples + length taken / 8) % 2 ^ 64
    pub bitrate_eq : r'.stream.bitrate ≡ r.stream.bitrate
    pub is_ready : IsReady r'.stream
    -- However much is wanted later.
    pub metadata_eq :
        (later : ℕ)
        → r.metadata ++ announced r.stream.n_samples (r.n_bytes + later) r.stream.decoders
          ≡ r'.metadata ++ announced r'.stream.n_samples (r'.n_bytes + later) r'.stream.decoders

  pub length-to_floats : (bytes : List ℕ) → length (to_floats w bytes) ≡ length bytes / 4
  unfolding to_floats
  length-to_floats [] = refl
  length-to_floats (a ∷ []) = refl
  length-to_floats (a ∷ b ∷ []) = refl
  length-to_floats (a ∷ b ∷ d ∷ []) = refl
  length-to_floats (a ∷ b ∷ d ∷ e ∷ bytes) = omega (arith, length-to_floats bytes)

  pub to_floats-append :
      (xs ys : List ℕ)
      → length xs % 4 ≡ 0
      → to_floats w (xs ++ ys) ≡ to_floats w xs ++ to_floats w ys
  unfolding to_floats
  to_floats-append [] ys h = refl
  to_floats-append (a ∷ []) ys h = absurd (omega arith)
  to_floats-append (a ∷ b ∷ []) ys h = absurd (omega arith)
  to_floats-append (a ∷ b ∷ d ∷ []) ys h = absurd (omega arith)
  to_floats-append (a ∷ b ∷ d ∷ e ∷ xs) ys h =
      ap (◌∷◌ (World.to_float w a b d e)) (to_floats-append xs ys (omega arith))
