-- ===== src/Stream/Failure.antt =====
-- A file whose metadata cannot be read, as with a track that is no number.
use http_audio_server.Common.{
  ℕ, suc, ◌+◌, ◌-◌, ◌*◌, ◌/◌, ◌%◌, ◌^◌, ◌<◌, ◌≡◌, refl, ap, ◌∙◌, false, Option, some, none, List,
  [], ◌∷◌, ◌++◌, length, All, arith,
}
use http_audio_server.Pipe.{Source}
use http_audio_server.Decoder.Got.{IsWhole}
use http_audio_server.Encoder.Round.{IsValid}
use http_audio_server.Stream.{
  Entry, Stream, Round, thrown, failed, open_decoder, round, advance_loop, advance, then_close,
}
use http_audio_server.Stream.Env.{World}
use http_audio_server.Stream.Loop.{contents, announced, IsPlayable, IsReady}
use http_audio_server.Stream.Announce.{announced_reached}
use http_audio_server.Stream.Advance.{Advances, advance_lem, told_all}

module _ (w : World) where
  -- The stream when the decoder of its first file was created.
  abbrev pub opened : Stream w → Entry w → List (Entry w) → Source → Stream w
  opened st entry rest dec = record st { decoders = record entry { decoder = some dec } ∷ rest }

  open_failed :
      (r : Round w) (entry : Entry w) (rest : List (Entry w)) (o : Option Source) (dec : Source)
      → o ≡ none
      → World.start_decoder w entry.filename entry.offs ≡ some dec
      → World.metadata_of w entry.filename ≡ none
      → open_decoder w r entry rest o ≡ failed (opened r.stream entry rest dec)
  unfolding open_decoder
  open_failed r entry rest o dec e started unknown =
      ap (open_decoder w r entry rest) e ∙ rw (started, unknown, open_decoder)

  round_thrown :
      (r : Round w) (entry : Entry w) (rest : List (Entry w)) (st : Stream w)
      → open_decoder w r entry rest entry.decoder ≡ failed st
      → round w r entry rest ≡ thrown st
  unfolding round
  round_thrown r entry rest st e = rw (e, round)

  loop_thrown :
      (fuel : ℕ) (r : Round w) (entry : Entry w) (rest : List (Entry w)) (st : Stream w)
      → 0 < r.n_bytes
      → r.stream.decoders ≡ entry ∷ rest
      → round w r entry rest ≡ thrown st
      → advance_loop w (suc fuel) r ≡ thrown st
  unfolding advance_loop
  loop_thrown fuel r entry rest st pos de run = ground arith

  advance_thrown :
      (st st' : Stream w) (samples n : ℕ)
      → samples * 2 * 4 % 2 ^ 64 ≡ n
      → advance_loop w
          (suc (n + length st.decoders))
          (record { stream = st; n_bytes = n; metadata = []; out = [] })
        ≡ thrown st'
      → advance w st samples ≡ some (st', none)
  unfolding advance
  advance_thrown st st' samples n e run =
      let start : ℕ → Round w = λ k. record { stream = st; n_bytes = k; metadata = []; out = [] } in
      let fuel : n + length st.decoders + 1 ≡ suc (n + length st.decoders) = omega arith in
      ap (λ k. then_close w (advance_loop w (k + length st.decoders + 1) (start k))) e
      ∙ ap (λ m. then_close w (advance_loop w m (start n))) fuel
      ∙ ap (then_close w) run

  module _ (st : Stream w) (entry : Entry w) (rest : List (Entry w)) (dec : Source)
      (fresh : entry.decoder ≡ none)
      (started : World.start_decoder w entry.filename entry.offs ≡ some dec)
      (unknown : World.metadata_of w entry.filename ≡ none) where
    advance_fails :
        (samples : ℕ)
        → st.decoders ≡ entry ∷ rest
        → 0 < samples
        → samples * 8 < 2 ^ 64
        → advance w st samples ≡ some (opened st entry rest dec, none)
    advance_fails samples de pos fits =
        let n : ℕ = samples * 8 in
        let r : Round w = record { stream = st; n_bytes = n; metadata = []; out = [] } in
        advance_thrown st (opened st entry rest dec) samples n (omega arith) (
          loop_thrown (n + length st.decoders) r entry rest (opened st entry rest dec) (omega arith)
            de
            (round_thrown r entry rest (opened st entry rest dec)
              (open_failed r entry rest entry.decoder dec fresh started unknown)))

    opened-IsReady :
        IsWhole dec
        → All (IsPlayable w) rest
        → IsValid st.encoder
        → st.encoder.done ≡ false
        → st.encoder.n_channels ≡ 2
        → st.buf ≡ []
        → st.n_samples < 2 ^ 64
        → IsReady w (opened st entry rest dec)
    opened-IsReady whole playable valid open_ stereo empty counted = record {
      playable = (record { dec = dec; opens = refl; is_whole = whole; is_known = tt }, playable);
      valid = valid;
      not_done = open_;
      stereo = stereo;
      empty = empty;
      counted = counted;
    }

    -- On a stream whose encoder is open and whose buffer is empty, with a first file that is decoded
    -- to whole sample pairs, but whose metadata cannot be read, and files behind it that can all be
    -- played: the first call of `advance` throws, and leaves the decoder of the file in the playlist;
    -- the next call plays the file and those behind it, and tells of those behind it only. Both ask
    -- for some samples, whose bytes are counted in 64 bits.
    pub advance_untold :
        (first next : ℕ)
        → st.decoders ≡ entry ∷ rest
        → 0 < first
        → first * 8 < 2 ^ 64
        → 0 < next
        → next * 8 < 2 ^ 64
        → IsWhole dec
        → All (IsPlayable w) rest
        → IsValid st.encoder
        → st.encoder.done ≡ false
        → st.encoder.n_channels ≡ 2
        → st.buf ≡ []
        → st.n_samples < 2 ^ 64
        → let st' = opened st entry rest dec in
          (advance w st first ≡ some (st', none))
          × (adv : Advances w st' next) × (dec.rest ++ contents w rest
              ≡ adv.taken ++ contents w adv.last.stream.decoders)
          × (adv.last.metadata
              ≡ announced w
                  ((st.n_samples + length dec.rest / 8) % 2 ^ 64)
                  (next * 8 - length dec.rest)
                  rest)
    unfolding contents
    advance_untold first next de pos fits pos' fits' whole playable valid open_ stereo empty
          counted =
        let st' : Stream w = opened st entry rest dec in
        let adv =
          advance_lem w st' next (opened-IsReady whole playable valid open_ stereo empty counted)
            fits' in
        (
          advance_fails first de pos fits,
          adv,
          adv.content_eq,
          told_all w st' next adv
              ∙ announced_reached w st.n_samples (next * 8) (record entry { decoder = some dec })
                  rest dec (omega arith) refl,
        )
