-- ===== src/Stream/Step.antt =====
-- A round of `advance` plays the next bytes of the playlist, or drops a file that has ended.
use mathlib.Core.Option.{some-injective}
use http_audio_server.Common.{
  ℕ, suc, ◌+◌, ◌/◌, ◌%◌, ◌^◌, ◌<◌, ◌≡◌, refl, sym, ap, ◌∙◌, true, false, Bool, Option, some, none,
  append-nil, List, [], ◌∷◌, ◌++◌, length, length-append, ◌-◌, ltb, All, arith, if◌then◌else◌,
  ltb→lt, subst, append_assoc,
}
use http_audio_server.Json.{Json}
use http_audio_server.Pipe.{Source}
use http_audio_server.Decoder.{read}
use http_audio_server.Decoder.Got.{IsWhole, Got, read-Got}
use http_audio_server.Encoder.{Config}
use http_audio_server.Encoder.Round.{IsValid}
use http_audio_server.Encoder.Feed.{Runs}
use http_audio_server.Stream.{
  Entry, Round, ready, to_floats, consume, step, open_decoder, metadata_entry,
}
use http_audio_server.Stream.Env.{World, Double}
use http_audio_server.Stream.Loop.{
  contents, decoder_of, IsKnown, IsPlayable, IsReady, told, described, announced,
}
use http_audio_server.Stream.Announce.{announced_after}
use http_audio_server.Stream.Consume.{Consumed, consume-Consumed}

module _ (w : World) where
  -- The playlist when a round ends, by the test for the end of the first decoder.
  abbrev after : Bool → Entry w → List (Entry w) → List (Entry w)
  after b entry rest = if b then rest else entry ∷ rest

  module _ (entry : Entry w) (rest : List (Entry w)) (dec' : Source) where
    abbrev playing : Entry w
    playing = record entry { decoder = some dec' }

    contents-after :
        (b : Bool)
        → (b ≡ true → dec'.rest ≡ [])
        → dec'.rest ++ contents w rest ≡ contents w (after b playing rest)
    unfolding contents
    contents-after true h = ap (λ t. t ++ contents w rest) (h refl)
    contents-after false h = refl

    after-IsPlayable :
        (b : Bool)
        → IsPlayable w playing
        → All (IsPlayable w) rest
        → All (IsPlayable w) (after b playing rest)
    after-IsPlayable true p ps = ps
    after-IsPlayable false p ps = (p, ps)

    after-shorter :
        (b : Bool) (k n n' : ℕ)
        → ltb k n' ≡ b
        → n ≡ k + n'
        → 0 < n
        → n' + length (after b playing rest) < n + suc (length rest)
    after-shorter true k n n' e h pos = omega arith
    after-shorter false k n n' e h pos = ground arith

  -- `r` when the decoder of its first entry has given `buf`.
  abbrev got : Round w → Entry w → List (Entry w) → Source → List ℕ → Round w
  got r entry rest dec' buf = record r {
    stream = record r.stream { decoders = record entry { decoder = some dec' } ∷ rest; buf = buf };
  }

  step-read :
      (r : Round w) (entry : Entry w) (rest : List (Entry w)) (dec dec' : Source) (buf : List ℕ)
      (k : ℕ)
      → read dec r.n_bytes r.stream.buf ≡ (dec', buf, k)
      → step w entry rest r dec ≡ consume w (got r entry rest dec' buf) rest k
  unfolding step
  step-read r entry rest dec dec' buf k e =
      ap (λ (t : Source × List ℕ × ℕ). consume w (got r entry rest t.0 t.1) rest t.2) e

  -- What a round does, for a stream whose first entry has the decoder `dec`.
  pub record Stepped (r r' : Round w) (dec : Source) (rest : List (Entry w)) : Type 0 where
    pub taken : List ℕ
    pub content_eq : dec.rest ++ contents w rest ≡ taken ++ contents w r'.stream.decoders
    pub n_eq : r.n_bytes ≡ length taken + r'.n_bytes
    pub aligned : length taken % 8 ≡ 0
    pub out : List ℕ
    pub out_eq : r'.out ≡ r.out ++ out
    pub encoded : Runs r.stream.bitrate r.stream.encoder r'.stream.encoder (to_floats w taken) out
    pub count_eq : r'.stream.n_samples ≡ (r.stream.n_samples + length taken / 8) % 2 ^ 64
    pub bitrate_eq : r'.stream.bitrate ≡ r.stream.bitrate
    pub is_ready : IsReady w r'.stream
    pub shorter : r'.n_bytes + length r'.stream.decoders < r.n_bytes + suc (length rest)
    pub metadata_eq : r'.metadata ≡ r.metadata
    pub later_eq :
        (later : ℕ)
        → announced w
            ((r.stream.n_samples + length dec.rest / 8) % 2 ^ 64)
            (r.n_bytes + later - length dec.rest)
            rest
          ≡ announced w r'.stream.n_samples (r'.n_bytes + later) r'.stream.decoders

  module _ (r : Round w) (entry : Entry w) (rest : List (Entry w)) (dec dec' : Source)
      (buf : List ℕ) (g : Got dec r.n_bytes dec' buf) (others : All (IsPlayable w) rest)
      (stereo : r.stream.encoder.n_channels ≡ 2) (pos : 0 < r.n_bytes) where
    playing-IsPlayable : IsPlayable w (playing entry rest dec')
    playing-IsPlayable = record { dec = dec'; opens = refl; is_whole = g.is_whole; is_known = tt }

    Consumed-Stepped :
        (r' : Round w) → Consumed w (got r entry rest dec' buf) r' rest → Stepped r r' dec rest
    Consumed-Stepped r' c = record {
      taken = buf;
      content_eq =
          ap (λ t. t ++ contents w rest) g.split
          ∙ append_assoc buf dec'.rest (contents w rest)
          ∙ ap (◌++◌ buf) (
              contents-after entry rest dec' popped end_of_decoder
              ∙ ap (contents w) (sym c.decoders_eq));
      n_eq = c.n_eq;
      aligned = g.aligned;
      out = c.out;
      out_eq = c.out_eq;
      encoded = c.encoded;
      count_eq = c.count_eq;
      bitrate_eq = c.bitrate_eq;
      is_ready = record {
        playable =
            subst (All (IsPlayable w)) (sym c.decoders_eq)
              (after-IsPlayable entry rest dec' popped playing-IsPlayable others);
        valid = c.encoded.valid;
        not_done = c.encoded.done_eq;
        stereo = ap Config.n_channels c.encoded.config_eq ∙ stereo;
        empty = c.buf_eq;
        counted = omega (arith, c.count_eq);
      };
      shorter = omega (
        arith,
        after-shorter entry rest dec' popped (length buf) r.n_bytes r'.n_bytes refl c.n_eq pos,
        ap length c.decoders_eq,
      );
      metadata_eq = c.metadata_eq;
      later_eq = λ later.
          announced_after w popped r.stream.n_samples r'.stream.n_samples (r.n_bytes + later)
            (r'.n_bytes + later) (length buf) entry rest dec dec'
            (omega (arith, ap length g.split, length-append buf dec'.rest)) (omega (arith, c.n_eq))
            g.aligned c.count_eq end_of_decoder
          ∙ ap (announced w r'.stream.n_samples (r'.n_bytes + later)) (sym c.decoders_eq);
    }
      where
        popped : Bool
        popped = ltb (length buf) r'.n_bytes

        end_of_decoder : popped ≡ true → dec'.rest ≡ []
        end_of_decoder h = g.short (omega (arith, ltb→lt (length buf) r'.n_bytes h, c.n_eq))

  -- A round whose decoder is there.
  pub step-Stepped :
      (r : Round w) (entry : Entry w) (rest : List (Entry w)) (dec : Source)
      → IsWhole dec
      → All (IsPlayable w) rest
      → IsValid r.stream.encoder
      → r.stream.encoder.done ≡ false
      → r.stream.encoder.n_channels ≡ 2
      → r.stream.buf ≡ []
      → r.n_bytes % 8 ≡ 0
      → r.n_bytes < 2 ^ 64
      → 0 < r.n_bytes
      → r.stream.n_samples < 2 ^ 64
      → (r' : Round w) × (step w entry rest r dec ≡ some r') × Stepped r r' dec rest
  step-Stepped r entry rest dec v others valid open_ stereo empty aligned fits pos counted =
      let (dec', buf, e, g) = read-Got dec r.n_bytes v aligned in
      let (r', run, c) =
        consume-Consumed w (got r entry rest dec' buf) rest valid open_ stereo g.aligned g.most fits
          counted in
      (
        r',
        step-read r entry rest dec dec' buf (length buf) (ap (read dec r.n_bytes) empty ∙ e) ∙ run,
        Consumed-Stepped r entry rest dec dec' buf g others stereo pos r' c,
      )

  -- `r` when its first entry was opened.
  abbrev pub with_opened : Round w → List (Entry w) → List (Json (Double w)) → Round w
  with_opened r ds ms = record r { stream = record r.stream { decoders = ds }; metadata = ms }

  pub open_ready :
      (r : Round w) (entry : Entry w) (rest : List (Entry w)) (o : Option Source) (dec : Source)
      → decoder_of w o entry ≡ some dec
      → IsKnown w o entry
      → (ds : List (Entry w)) × (ms : List (Json (Double w))) × (open_decoder w r entry rest o
          ≡ ready (with_opened r ds ms) dec)
        × (ms ≡ r.metadata ++ described w r.stream.n_samples entry o)
  unfolding open_decoder
  open_ready r entry rest (some d) dec e m = (
    r.stream.decoders,
    r.metadata,
    ap (ready r) (some-injective d dec e),
    sym (append-nil r.metadata),
  )
  open_ready r entry rest none dec e (meta, m) =
      let started : World.start_decoder w entry.filename entry.offs ≡ some dec = e in
      (
        record entry { decoder = some dec } ∷ rest,
        r.metadata ++ metadata_entry w r.stream.n_samples entry.filename meta ∷ [],
        rw (started, m, open_decoder),
        ap (λ o. r.metadata ++ told w r.stream.n_samples entry o) (sym m),
      )
