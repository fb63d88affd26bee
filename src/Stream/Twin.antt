-- ===== src/Stream/Twin.antt =====
-- The loop of `advance` does the same to the playlist, whether the encoder is open or closed.
use http_audio_server.Common.{
  ℕ, zero, suc, ◌+◌, ◌-◌, ◌/◌, ◌≡◌, refl, sym, ap, ◌∙◌, subst, true, false, Bool, Option, some,
  none, List, [], ◌∷◌, ◌++◌, length, ◌==◌, if◌then◌else◌, ◌%◌, ◌^◌,
}
use mathlib.Core.Option.{some-injective, none-ne-some}
use http_audio_server.Json.{Json}
use http_audio_server.Pipe.{Source}
use http_audio_server.Decoder.{read}
use http_audio_server.Encoder.{EncoderImpl, feed, encode}
use http_audio_server.Encoder.Libs.{Codec}
use http_audio_server.Encoder.Flush.{finalize_done}
use http_audio_server.Stream.{
  Entry, Stream, Round, Opening, Outcome, ready, failed, done, thrown, no_fuel, to_floats,
  close_round, consume, step, open_decoder, metadata_entry, or_no_fuel, round, advance_loop,
  close_stream,
}
use http_audio_server.Stream.Env.{World, Double}
use http_audio_server.Stream.Advance.{close_going, close_end}

module _ (w : World) (f : EncoderImpl (World.codec w)) (closed : f.done ≡ true) where
  -- The same round with the closed encoder, and without output.
  abbrev twin_stream : Stream w → Stream w
  twin_stream st = record st { encoder = f }

  abbrev twin : Round w → Round w
  twin r = record r { stream = twin_stream r.stream; out = [] }

  feed_closed :
      (pcm : List (Codec.Sample (World.codec w))) (n bitrate : ℕ)
      → feed (World.codec w) f pcm n bitrate ≡ some (f, [])
  unfolding feed encode
  feed_closed pcm n bitrate = rw closed

  abbrev on_feed :
      Round w → List (Entry w) → Option (EncoderImpl (World.codec w) × List ℕ) → Option (Round w)
  on_feed r rest o = elim o [
    | none ↦ none
    | some (encoder, out) ↦ some (
        close_round w r rest (r.n_bytes - length r.stream.buf)
          (record r.stream {
            encoder = encoder;
            n_samples = (r.stream.n_samples + length r.stream.buf / 4 / 2) % 2 ^ 64;
          })
          (r.out ++ out))
  ]

  on_feed-twin :
      (r r' : Round w) (rest : List (Entry w)) (o : Option (EncoderImpl (World.codec w) × List ℕ))
      → on_feed r rest o ≡ some r'
      → on_feed (twin r) rest (some (f, [])) ≡ some (twin r')
  unfolding close_round
  on_feed-twin r r' rest none h = absurd (none-ne-some r' h)
  on_feed-twin r r' rest (some (encoder, out)) h = ap (λ s. some (twin s)) (some-injective _ _ h)

  consume-twin :
      (r r' : Round w) (rest : List (Entry w)) (k : ℕ)
      → consume w r rest k ≡ some r'
      → consume w (twin r) rest k ≡ some (twin r')
  unfolding consume close_round
  consume-twin r r' rest k = by_zero (k == 0)
    where
      floats : List (Codec.Sample (World.codec w))
      floats = to_floats w r.stream.buf

      fed : Option (EncoderImpl (World.codec w) × List ℕ)
      fed =
          feed (World.codec w) r.stream.encoder floats (length r.stream.buf / 4 / 2)
            r.stream.bitrate

      by_zero :
          (b : Bool)
          → (if b then some (close_round w r rest r.n_bytes r.stream r.out) else on_feed r rest fed)
            ≡ some r'
          → (if b
              then some (close_round w (twin r) rest r.n_bytes (twin_stream r.stream) [])
              else on_feed
                  (twin r)
                  rest
                  (feed (World.codec w) f floats (length r.stream.buf / 4 / 2) r.stream.bitrate))
            ≡ some (twin r')
      by_zero true h = ap (λ s. some (twin s)) (some-injective _ _ h)
      by_zero false h =
          ap (on_feed (twin r) rest)
            (feed_closed floats (length r.stream.buf / 4 / 2) r.stream.bitrate)
          ∙ on_feed-twin r r' rest fed h

  step-twin :
      (entry : Entry w) (rest : List (Entry w)) (r r' : Round w) (dec : Source)
      → step w entry rest r dec ≡ some r'
      → step w entry rest (twin r) dec ≡ some (twin r')
  unfolding step
  step-twin entry rest r r' dec h =
      let (dec', buf, n_read) = read dec r.n_bytes r.stream.buf in
      let entry' : Entry w = record entry { decoder = some dec' } in
      consume-twin (record r { stream = record r.stream { decoders = entry' ∷ rest; buf = buf } })
        r' rest n_read h

  abbrev twin_opening : Opening w → Opening w
  twin_opening (ready r dec) = ready (twin r) dec
  twin_opening (failed st) = failed (twin_stream st)

  open_decoder-twin :
      (r : Round w) (entry : Entry w) (rest : List (Entry w)) (o : Option Source)
      → open_decoder w (twin r) entry rest o ≡ twin_opening (open_decoder w r entry rest o)
  unfolding open_decoder
  open_decoder-twin r entry rest (some dec) = refl
  open_decoder-twin r entry rest none = by_start (World.start_decoder w entry.filename entry.offs)
    where
      opened : Stream w → Source → Stream w
      opened st dec = record st { decoders = record entry { decoder = some dec } ∷ rest }

      on_meta : Round w → Source → Option (Json (Double w)) → Opening w
      on_meta r dec o = elim o [
        | none ↦ failed (opened r.stream dec)
        | some meta ↦
            ready
              (record r {
                stream = opened r.stream dec;
                metadata =
                    r.metadata ++ metadata_entry w r.stream.n_samples entry.filename meta ∷ [];
              })
              dec
      ]

      on_start : Round w → Option Source → Opening w
      on_start r o = elim o [
        | none ↦ failed r.stream
        | some dec ↦ on_meta r dec (World.metadata_of w entry.filename)
      ]

      by_meta :
          (dec : Source) (o : Option (Json (Double w)))
          → on_meta (twin r) dec o ≡ twin_opening (on_meta r dec o)
      by_meta dec none = refl
      by_meta dec (some meta) = refl

      by_start : (o : Option Source) → on_start (twin r) o ≡ twin_opening (on_start r o)
      by_start none = refl
      by_start (some dec) = by_meta dec (World.metadata_of w entry.filename)

  abbrev on_opening : Entry w → List (Entry w) → Opening w → Outcome w
  on_opening entry rest o = elim o [
    | failed st ↦ thrown st
    | ready r' dec ↦ or_no_fuel w (step w entry rest r' dec)
  ]

  -- A round that is done.
  abbrev pub Done : Outcome w → Outcome w → Type 0
  Done (done r) o = o ≡ done (twin r)
  Done _ o = Unit

  on_opening-Done :
      (entry : Entry w) (rest : List (Entry w)) (o : Opening w)
      → Done (on_opening entry rest o) (on_opening entry rest (twin_opening o))
  on_opening-Done entry rest (failed st) = tt
  on_opening-Done entry rest (ready r dec) = by_step (step w entry rest r dec) refl
    where
      by_step :
          (o : Option (Round w))
          → step w entry rest r dec ≡ o
          → Done (or_no_fuel w o) (or_no_fuel w (step w entry rest (twin r) dec))
      by_step none e = tt
      by_step (some r') e = ap (or_no_fuel w) (step-twin entry rest r r' dec e)

  round-Done :
      (r : Round w) (entry : Entry w) (rest : List (Entry w))
      → Done (round w r entry rest) (round w (twin r) entry rest)
  unfolding round
  round-Done r entry rest =
      subst
        (λ o.
          Done (on_opening entry rest (open_decoder w r entry rest entry.decoder))
            (on_opening entry rest o))
        (sym (open_decoder-twin r entry rest entry.decoder))
        (on_opening-Done entry rest (open_decoder w r entry rest entry.decoder))

  abbrev on_round : ℕ → Outcome w → Outcome w
  on_round fuel o = elim o [
    | done r' ↦ advance_loop w fuel r'
    | thrown st ↦ thrown st
    | no_fuel ↦ no_fuel
  ]

  abbrev AllDone : ℕ → Type 0
  AllDone fuel = (r : Round w) → Done (advance_loop w fuel r) (advance_loop w fuel (twin r))

  on_round-Done :
      (fuel : ℕ) (o o' : Outcome w)
      → AllDone fuel
      → Done o o'
      → Done (on_round fuel o) (on_round fuel o')
  on_round-Done fuel (done r) o' ih h =
      subst (λ o. Done (advance_loop w fuel r) (on_round fuel o)) (sym h) (ih r)
  on_round-Done fuel (thrown st) o' ih h = tt
  on_round-Done fuel no_fuel o' ih h = tt

  abbrev on_list : ℕ → Round w → List (Entry w) → Outcome w
  on_list fuel r ds = elim ds [ [] ↦ done r | entry ∷ rest ↦ on_round fuel (round w r entry rest) ]

  on_list-Done :
      (fuel : ℕ) (r : Round w) (ds : List (Entry w))
      → AllDone fuel
      → Done (on_list fuel r ds) (on_list fuel (twin r) ds)
  on_list-Done fuel r [] ih = refl
  on_list-Done fuel r (entry ∷ rest) ih =
      on_round-Done fuel (round w r entry rest) (round w (twin r) entry rest) ih
        (round-Done r entry rest)

  if-Done :
      (b : Bool) (r : Round w) (o o' : Outcome w)
      → Done o o'
      → Done (elim b [ true ↦ done r | false ↦ o ]) (elim b [ true ↦ done (twin r) | false ↦ o' ])
  if-Done true r o o' h = refl
  if-Done false r o o' h = h

  pub advance_loop-Done : (fuel : ℕ) → AllDone fuel
  unfolding advance_loop
  advance_loop-Done zero r = tt
  advance_loop-Done (suc fuel) r =
      if-Done (r.n_bytes == 0) r (on_list fuel r r.stream.decoders)
        (on_list fuel (twin r) r.stream.decoders)
        (on_list-Done fuel r r.stream.decoders (advance_loop-Done fuel))

  -- The closed encoder gives nothing more.
  pub close_twin :
      (r : Round w) (ds : List (Entry w))
      → r.stream.decoders ≡ ds
      → close_stream w (twin r) ≡ some (twin r)
  close_twin r [] e =
      close_end w (twin r) f [] e (finalize_done (World.codec w) r.stream.bitrate f closed)
  close_twin r (entry ∷ rest) e = close_going w (twin r) entry rest e
