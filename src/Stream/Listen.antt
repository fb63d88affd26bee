-- ===== src/Stream/Listen.antt =====
-- Calls of `advance`, one after the other, as a listener makes them.
pub mod Whole
use mathlib.Core.List.{map}
use mathlib.Core.Option.{some-injective, none-ne-some}
use http_audio_server.Common.{
  ℕ, ◌+◌, ◌*◌, ◌/◌, ◌%◌, ◌^◌, ◌<◌, min, ◌≡◌, ◌≢◌, refl, sym, ap, ◌∙◌, true, Option, some, none,
  List, [], ◌∷◌, ◌++◌, length, suc, inr, length-append, All, arith, subst, append_assoc, append-nil,
  if◌then◌else◌,
}
use http_audio_server.Encoder.{EncoderImpl}
use http_audio_server.Encoder.Feed.{Runs, Runs-trans}
use http_audio_server.Stream.{
  Entry, Stream, Round, to_floats, advance, advance_loop, close_stream, output, written, then_close,
}
use http_audio_server.Stream.Env.{World, Double}
use http_audio_server.Json.{Json}
use http_audio_server.Stream.Loop.{announced, contents, IsReady, to_floats-append}
use http_audio_server.Stream.Plays.{loop_stop}
use http_audio_server.Encoder.Flush.{finalize_done}
use http_audio_server.Stream.Advance.{
  Advances, Closed, going, closing, closed_round, close_end, advance_run, advance_lem,
}

-- All that is asked for.
unfoldable pub total : List ℕ → ℕ
total [] = 0
total (k ∷ ks) = k + total ks

module _ (w : World) where
  abbrev Calls : Type 0
  Calls = Option (Stream w × List (List ℕ))

  abbrev and_output : List ℕ → Calls → Calls
  and_output bytes none = none
  and_output bytes (some (st, outs)) = some (st, bytes ∷ outs)

  -- The outputs of calls for these numbers of samples; `none` is an exception or the fuel of the
  -- model.
  unfoldable pub calls : Stream w → List ℕ → Calls
  unfolding advance
  calls st [] = some (st, [])
  calls st (k ∷ ks) = elim (advance w st k) [
    | none ↦ none
    | some (st', none) ↦ none
    | some (st', some bytes) ↦ and_output bytes (calls st' ks)
  ]

  -- The data of the calls, put together.
  unfoldable pub sound : List (Round w) → List ℕ
  sound [] = []
  sound (r ∷ rs) = r.out ++ sound rs

  -- The metadata of the calls, put together.
  unfoldable pub notices : List (Round w) → List (Json (Double w))
  notices [] = []
  notices (r ∷ rs) = r.metadata ++ notices rs

  abbrev pub outputs : List (Round w) → List (List ℕ)
  outputs = map (output w)

  pub calls-cons :
      (st st' st'' : Stream w) (k : ℕ) (ks bytes : List ℕ) (outs : List (List ℕ))
      → advance w st k ≡ some (st', some bytes)
      → calls st' ks ≡ some (st'', outs)
      → calls st (k ∷ ks) ≡ some (st'', bytes ∷ outs)
  unfolding calls
  calls-cons st st' st'' k ks bytes outs e f = rw (e, f, calls)

  -- What calls of `advance` do together: `rounds` are the rounds that they end with.
  pub record Listens (st : Stream w) (ks : List ℕ) : Type 0 where
    pub last : Stream w
    pub rounds : List (Round w)
    pub run : calls st ks ≡ some (last, outputs rounds)
    pub taken : List ℕ
    pub content_eq : contents w st.decoders ≡ taken ++ contents w last.decoders
    pub amount : length taken ≡ min (total ks * 8) (length (contents w st.decoders))
    pub told : notices rounds ≡ announced w st.n_samples (total ks * 8) st.decoders
    pub encoder : EncoderImpl (World.codec w)
    pub out : List ℕ
    pub encoded : Runs st.bitrate st.encoder encoder (to_floats w taken) out
    pub end_eq : Closed w st.bitrate encoder out last.decoders last.encoder (sound rounds)

  abbrev start : Stream w → ℕ → Round w
  start st k = record { stream = st; n_bytes = k * 2 * 4 % 2 ^ 64; metadata = []; out = [] }

  -- On a stream that was played to its end, a call changes nothing, and gives no data.
  pub advance_ended :
      (st : Stream w) (k : ℕ)
      → st.decoders ≡ []
      → st.encoder.done ≡ true
      → advance w st k ≡ some (st, some (output w (start st k)))
  advance_ended st k e h =
      let n : ℕ = k * 2 * 4 % 2 ^ 64 in
      let fuel : n + length st.decoders + 1 ≡ suc (n + length st.decoders) = omega arith in
      advance_run w st k n (start st k) (start st k) refl
        (ap (λ m. advance_loop w m (start st k)) fuel
          ∙ loop_stop w (n + length st.decoders) (start st k) (inr e))
        (close_end w (start st k) st.encoder [] e
          (finalize_done (World.codec w) st.bitrate st.encoder h))

  -- Calls behind the end.
  pub calls_ended :
      (st : Stream w) (ks : List ℕ)
      → st.decoders ≡ []
      → st.encoder.done ≡ true
      → (rounds : List (Round w)) × (calls st ks ≡ some (st, outputs rounds))
        × (sound rounds ≡ [])
        × (notices rounds ≡ [])
  unfolding calls sound notices
  calls_ended st [] e h = ([], refl, refl, refl)
  calls_ended st (k ∷ ks) e h =
      let (rounds, run, silent, quiet) = calls_ended st ks e h in
      (
        start st k ∷ rounds,
        calls-cons st st st k ks (output w (start st k)) (outputs rounds) (advance_ended st k e h)
            run,
        silent,
        quiet,
      )

  and_output→ :
      (bytes : List ℕ) (o : Calls) (last : Stream w) (outs : List (List ℕ))
      → and_output bytes o ≡ some (last, outs)
      → (outs' : List (List ℕ)) × (o ≡ some (last, outs')) × (outs ≡ bytes ∷ outs')
  and_output→ bytes none last outs h = absurd (none-ne-some _ h)
  and_output→ bytes (some (s, os)) last outs h =
      let e = some-injective _ _ h in
      (
        os,
        ap (λ (p : Stream w × List (List ℕ)). some (p.0, os)) e,
        sym (ap (λ (p : Stream w × List (List ℕ)). p.1) e),
      )

  -- What calls do, the first one does with the rest.
  pub calls-cons→ :
      (st last : Stream w) (k : ℕ) (ks : List ℕ) (outs : List (List ℕ))
      → calls st (k ∷ ks) ≡ some (last, outs)
      → (st' : Stream w) × (bytes : List ℕ) × (outs' : List (List ℕ)) × (advance w st k
          ≡ some (st', some bytes))
        × (calls st' ks ≡ some (last, outs'))
        × (outs ≡ bytes ∷ outs')
  unfolding calls
  calls-cons→ st last k ks outs = by_advance (advance w st k)
    where
      by_advance :
          (o : Option (Stream w × Option (List ℕ)))
          → elim o [
            | none ↦ none
            | some (st', none) ↦ none
            | some (st', some bytes) ↦ and_output bytes (calls st' ks)
          ]
            ≡ some (last, outs)
          → (st' : Stream w) × (bytes : List ℕ) × (outs' : List (List ℕ)) × (o
              ≡ some (st', some bytes))
            × (calls st' ks ≡ some (last, outs'))
            × (outs ≡ bytes ∷ outs')
      by_advance none h = absurd (none-ne-some _ h)
      by_advance (some (st', none)) h = absurd (none-ne-some _ h)
      by_advance (some (st', some bytes)) h =
          let (outs', e, f) = and_output→ bytes (calls st' ks) last outs h in
          (st', bytes, outs', refl, e, f)
