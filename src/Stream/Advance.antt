-- ===== src/Stream/Advance.antt =====
-- `Stream::advance` as a whole.
use mathlib.Core.Path.{ap₂}
use http_audio_server.Common.{
  ℕ, ◌+◌, ◌*◌, ◌/◌, ◌%◌, ◌^◌, ◌<◌, min, ◌≡◌, ◌≢◌, ◌⊎◌, refl, sym, ap, ◌∙◌, some, List, [], ◌∷◌,
  ◌++◌, append-nil, length, length-append, arith, inl, inr, subst,
}
use http_audio_server.Encoder.{EncoderImpl, finalize}
use http_audio_server.Encoder.Feed.{Runs}
use http_audio_server.Encoder.Flush.{finalized, closed_core, finalize_lem}
use http_audio_server.Stream.{
  Entry, Stream, Round, to_floats, done, advance, advance_loop, close_stream, output, written,
  then_close,
}
use http_audio_server.Stream.Env.{World}
use http_audio_server.Stream.Loop.{announced, contents, IsReady}
use http_audio_server.Stream.Announce.{announced_zero}
use http_audio_server.Stream.Plays.{advance_loop-Ended}

module _ (w : World) where
  abbrev Enc : Type 0
  Enc = EncoderImpl (World.codec w)

  -- The encoder `f` and its output `o`, when the loop has left the playlist `ds`: an empty playlist
  -- closes the stream.
  pub data Closed (bitrate : ℕ) (f : Enc) (o : List ℕ) (ds : List (Entry w)) (f' : Enc)
      (o' : List ℕ) : Type 0 where
    going : ds ≢ [] → f' ≡ f → o' ≡ o → Closed bitrate f o ds f' o'
    closing :
        ds ≡ []
        → f' ≡ finalized (World.codec w) bitrate f
        → o' ≡ o ++ (closed_core (World.codec w) bitrate f).writer.buf
        → Closed bitrate f o ds f' o'

  -- What a call of `advance` for `samples` does.
  pub record Advances (st : Stream w) (samples : ℕ) : Type 0 where
    pub last : Round w
    pub run : advance w st samples ≡ some (last.stream, some (output w last))
    pub taken : List ℕ
    pub content_eq : contents w st.decoders ≡ taken ++ contents w last.stream.decoders
    pub amount : length taken ≡ min (samples * 8) (length (contents w st.decoders))
    pub encoder : Enc
    pub out : List ℕ
    pub encoded : Runs st.bitrate st.encoder encoder (to_floats w taken) out
    pub count_eq : last.stream.n_samples ≡ (st.n_samples + length taken / 8) % 2 ^ 64
    pub end_eq : Closed st.bitrate encoder out last.stream.decoders last.stream.encoder last.out
    pub aligned : length taken % 8 ≡ 0
    pub bitrate_eq : last.stream.bitrate ≡ st.bitrate
    pub metadata_eq :
        (later : ℕ)
        → announced w st.n_samples (samples * 8 + later) st.decoders
          ≡ last.metadata ++ announced w last.stream.n_samples later last.stream.decoders
    pub going_on : last.stream.decoders ≢ [] → IsReady w last.stream

  abbrev pub closed_round : Round w → Enc → List ℕ → Round w
  closed_round r f o = record r { stream = record r.stream { encoder = f }; out = r.out ++ o }

  pub close_going :
      (r : Round w) (entry : Entry w) (rest : List (Entry w))
      → r.stream.decoders ≡ entry ∷ rest
      → close_stream w r ≡ some r
  unfolding close_stream
  close_going r entry rest e = ground arith

  pub close_end :
      (r : Round w) (f : Enc) (o : List ℕ)
      → r.stream.decoders ≡ []
      → finalize (World.codec w) r.stream.encoder r.stream.bitrate ≡ some (f, o)
      → close_stream w r ≡ some (closed_round r f o)
  unfolding close_stream
  close_end r f o e run = ground arith

  record Closes (r : Round w) : Type 0 where
    final : Round w
    run : close_stream w r ≡ some final
    decoders_eq : final.stream.decoders ≡ r.stream.decoders
    count_eq : final.stream.n_samples ≡ r.stream.n_samples
    bitrate_eq : final.stream.bitrate ≡ r.stream.bitrate
    metadata_eq : final.metadata ≡ r.metadata
    going_on : final.stream.decoders ≢ [] → IsReady w final.stream
    end_eq :
        Closed r.stream.bitrate r.stream.encoder r.out final.stream.decoders final.stream.encoder
          final.out

  close_lem :
      (r : Round w) (ds : List (Entry w)) → r.stream.decoders ≡ ds → IsReady w r.stream → Closes r
  close_lem r [] e v =
      let f = finalized (World.codec w) r.stream.bitrate r.stream.encoder in
      let o = (closed_core (World.codec w) r.stream.bitrate r.stream.encoder).writer.buf in
      record {
        final = closed_round r f o;
        run =
            close_end r f o e
              (finalize_lem (World.codec w) r.stream.bitrate r.stream.encoder v.valid v.not_done);
        decoders_eq = refl;
        count_eq = refl;
        bitrate_eq = refl;
        metadata_eq = refl;
        going_on = λ some_left. absurd (some_left e);
        end_eq = closing e refl refl;
      }
  close_lem r (entry ∷ rest) e v = record {
    final = r;
    run = close_going r entry rest e;
    decoders_eq = refl;
    count_eq = refl;
    bitrate_eq = refl;
    metadata_eq = refl;
    going_on = λ some_left. v;
    end_eq = going (λ z. absurd (omega (arith, ap length (sym z ∙ e)))) refl refl;
  }

  pub advance_run :
      (st : Stream w) (samples n : ℕ) (last final : Round w)
      → samples * 2 * 4 % 2 ^ 64 ≡ n
      → advance_loop w
          (n + length st.decoders + 1)
          (record { stream = st; n_bytes = n; metadata = []; out = [] })
        ≡ done last
      → close_stream w last ≡ some final
      → advance w st samples ≡ some (final.stream, some (output w final))
  unfolding advance
  advance_run st samples n last final e run close =
      ap
        (λ k. then_close w (
          advance_loop w (k + length st.decoders + 1)
            (record { stream = st; n_bytes = k; metadata = []; out = [] })))
        e
      ∙ ap (then_close w) run
      ∙ ap (written w) close

  pub exhausted :
      (r : Round w)
      → (r.n_bytes ≡ 0) ⊎ (r.stream.decoders ≡ [])
      → (r.n_bytes ≡ 0) ⊎ (contents w r.stream.decoders ≡ [])
  unfolding contents
  exhausted r (inl z) = inl z
  exhausted r (inr e) = inr (ap (contents w) e)

  all_told :
      (r : Round w) (later : ℕ)
      → (r.n_bytes ≡ 0) ⊎ (r.stream.decoders ≡ [])
      → announced w r.stream.n_samples (r.n_bytes + later) r.stream.decoders
        ≡ announced w r.stream.n_samples later r.stream.decoders
  unfolding announced
  all_told r later (inl z) =
      ap (λ k. announced w r.stream.n_samples k r.stream.decoders) (omega (arith, z))
  all_told r later (inr e) =
      ap (announced w r.stream.n_samples (r.n_bytes + later)) e
      ∙ ap (announced w r.stream.n_samples later) (sym e)

  pub amount_lem :
      (n m : ℕ) (xs ys all : List ℕ)
      → n ≡ length xs + m
      → all ≡ xs ++ ys
      → (m ≡ 0) ⊎ (ys ≡ [])
      → length xs ≡ min n (length all)
  amount_lem n m xs ys all e f (inl z) = omega (arith, ap length f, length-append xs ys)
  amount_lem n m xs ys all e f (inr z) =
      omega (arith, ap length f, length-append xs ys, ap length z)

  -- On a stream that is ready, that is, whose files all decode to whole sample pairs and have
  -- metadata that can be read where it is still to be told, whose encoder is well-formed, stereo and
  -- open, whose buffer is empty and whose count of samples fits 64 bits, and for a number of samples
  -- whose bytes are counted in 64 bits, `advance` returns: it plays the next `samples` stereo samples of the playlist in its order, across the borders of
  -- files, or all that is left of it; the samples go to the encoder as one run. It closes the encoder exactly if it leaves the playlist empty. Each file that it reaches and
  -- that has no decoder yet has its metadata in the output, once and in the order of the playlist,
  -- with the sample where the file starts.
  pub advance_lem :
      (st : Stream w) (samples : ℕ) → IsReady w st → samples * 8 < 2 ^ 64 → Advances st samples
  advance_lem st samples v fits =
      let n : ℕ = samples * 8 in
      let start : Round w = record { stream = st; n_bytes = n; metadata = []; out = [] } in
      let a =
        advance_loop-Ended w (n + length st.decoders + 1) start st.decoders refl v (omega arith)
          fits (omega arith) in
      let b = close_lem a.last a.last.stream.decoders refl a.plays.is_ready in
      record {
        last = b.final;
        run = advance_run st samples n a.last b.final (omega arith) a.run b.run;
        taken = a.taken;
        content_eq = a.plays.content_eq ∙ ap (λ ds. a.taken ++ contents w ds) (sym b.decoders_eq);
        amount =
            amount_lem n a.last.n_bytes a.taken (contents w a.last.stream.decoders)
              (contents w st.decoders) a.plays.n_eq a.plays.content_eq (exhausted a.last a.stop);
        encoder = a.last.stream.encoder;
        out = a.plays.out;
        encoded = a.plays.encoded;
        count_eq = b.count_eq ∙ a.plays.count_eq;
        end_eq =
            subst
              (λ o.
                Closed st.bitrate a.last.stream.encoder o b.final.stream.decoders
                  b.final.stream.encoder b.final.out)
              a.plays.out_eq
              (subst
                (λ k.
                  Closed k a.last.stream.encoder a.last.out b.final.stream.decoders
                    b.final.stream.encoder b.final.out)
                a.plays.bitrate_eq b.end_eq);
        aligned = a.plays.aligned;
        bitrate_eq = b.bitrate_eq ∙ a.plays.bitrate_eq;
        metadata_eq = λ later.
            a.plays.metadata_eq later
            ∙ ap₂ ◌++◌ (sym b.metadata_eq) (
                all_told a.last later a.stop
                ∙ ap₂ (λ n ds. announced w n later ds) (sym b.count_eq) (sym b.decoders_eq));
        going_on = b.going_on;
      }

  -- What a call tells is all that is announced for what it plays.
  pub told_all :
      (st : Stream w) (samples : ℕ) (a : Advances st samples)
      → a.last.metadata ≡ announced w st.n_samples (samples * 8) st.decoders
  told_all st samples a =
      sym (append-nil a.last.metadata)
      ∙ ap (◌++◌ a.last.metadata)
          (sym (announced_zero w a.last.stream.n_samples 0 a.last.stream.decoders refl))
      ∙ sym (a.metadata_eq 0)
      ∙ ap (λ k. announced w st.n_samples k st.decoders) (omega arith)
