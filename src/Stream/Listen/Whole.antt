-- ===== src/Stream/Listen/Whole.antt =====
-- Calls of `advance` play the playlist as one.
use http_audio_server.Common.{
  ℕ, ◌*◌, ◌^◌, ◌<◌, ◌≡◌, ◌≢◌, refl, sym, ap, ◌∙◌, true, List, [], ◌∷◌, ◌++◌, length, length-append,
  All, arith, subst, append_assoc, append-nil,
}
use http_audio_server.Encoder.{EncoderImpl}
use http_audio_server.Encoder.Feed.{Runs, Runs-trans}
use http_audio_server.Stream.{Entry, Stream, to_floats, output}
use http_audio_server.Stream.Env.{World}
use http_audio_server.Stream.Loop.{announced, contents, IsReady, to_floats-append}
use http_audio_server.Stream.Advance.{Advances, Closed, going, closing, advance_lem, told_all}
use http_audio_server.Stream.Listen.{
  notices, total, calls, sound, outputs, calls-cons, calls_ended, Listens,
}

module _ (w : World) where
  module _ (bitrate : ℕ) (f f' : EncoderImpl (World.codec w)) (o o' : List ℕ)
      (ds : List (Entry w)) where
    done_at_end : Closed w bitrate f o ds f' o' → ds ≡ [] → f'.done ≡ true
    done_at_end (going some_left _ _) e = absurd (some_left e)
    done_at_end (closing _ ended _) e = ap EncoderImpl.done ended

    same_if_more : Closed w bitrate f o ds f' o' → ds ≢ [] → (f' ≡ f) × (o' ≡ o)
    same_if_more (going _ e e') some_left = (e, e')
    same_if_more (closing e _ _) some_left = absurd (some_left e)

    -- More output in front.
    put_in_front :
        (front : List ℕ)
        → Closed w bitrate f o ds f' o'
        → Closed w bitrate f (front ++ o) ds f' (front ++ o')
    put_in_front front (going some_left e e') = going some_left e (ap (◌++◌ front) e')
    put_in_front front (closing e ended e') =
        closing e ended (ap (◌++◌ front) e' ∙ sym (append_assoc front o _))

  module _ (st : Stream w) (k : ℕ) (a : Advances w st k) where
    -- What this call tells is all that is told of what it plays.
    ended_told :
        (ks : List ℕ)
        → a.last.stream.decoders ≡ []
        → a.last.metadata ++ [] ≡ announced w st.n_samples (total (k ∷ ks) * 8) st.decoders
    unfolding total announced
    ended_told ks e =
        ap (λ ds. a.last.metadata ++ announced w a.last.stream.n_samples (total ks * 8) ds) (sym e)
        ∙ sym (a.metadata_eq (total ks * 8))
        ∙ ap (λ n. announced w st.n_samples n st.decoders) (omega arith)

    -- One call.
    one : Listens w st (k ∷ [])
    unfolding total sound calls notices
    one = record {
      last = a.last.stream;
      rounds = a.last ∷ [];
      run = calls-cons w st a.last.stream a.last.stream k [] (output w a.last) [] a.run refl;
      taken = a.taken;
      content_eq = a.content_eq;
      amount = omega (arith, a.amount);
      told =
          append-nil a.last.metadata
          ∙ told_all w st k a
          ∙ ap (λ n. announced w st.n_samples n st.decoders) (omega arith);
      encoder = a.encoder;
      out = a.out;
      encoded = a.encoded;
      end_eq =
          subst
            (λ o.
              Closed w st.bitrate a.encoder a.out a.last.stream.decoders a.last.stream.encoder o)
            (sym (append-nil a.last.out)) a.end_eq;
    }

    -- A call that plays all, and what comes behind.
    one_ended : (ks : List ℕ) → a.last.stream.decoders ≡ [] → Listens w st (k ∷ ks)
    unfolding total sound contents notices
    one_ended ks e =
        let (rounds, run, silent, quiet) = calls_ended w a.last.stream ks e done_eq in
        record {
          last = a.last.stream;
          rounds = a.last ∷ rounds;
          run =
              calls-cons w st a.last.stream a.last.stream k ks (output w a.last) (outputs w rounds)
                a.run run;
          taken = a.taken;
          content_eq = a.content_eq;
          amount = omega (
            arith,
            a.amount,
            ap length a.content_eq,
            length-append a.taken (contents w a.last.stream.decoders),
            ap (λ ds. length (contents w ds)) e,
          );
          told = ap (◌++◌ a.last.metadata) quiet ∙ ended_told ks e;
          encoder = a.encoder;
          out = a.out;
          encoded = a.encoded;
          end_eq =
              subst
                (λ o.
                  Closed w st.bitrate a.encoder a.out a.last.stream.decoders a.last.stream.encoder
                    o)
                (sym (append-nil a.last.out) ∙ ap (◌++◌ a.last.out) (sym silent)) a.end_eq;
        }
      where
        done_eq : a.last.stream.encoder.done ≡ true
        done_eq =
            done_at_end st.bitrate a.encoder a.last.stream.encoder a.out a.last.out
              a.last.stream.decoders a.end_eq e

    -- A call that leaves something, and what comes behind.
    one_going :
        (ks : List ℕ)
        → a.last.stream.decoders ≢ []
        → Listens w a.last.stream ks
        → Listens w st (k ∷ ks)
    unfolding total sound notices
    one_going ks some_left b =
        let same =
          same_if_more st.bitrate a.encoder a.last.stream.encoder a.out a.last.out
            a.last.stream.decoders a.end_eq some_left in
        record {
          last = b.last;
          rounds = a.last ∷ b.rounds;
          run =
              calls-cons w st a.last.stream b.last k ks (output w a.last) (outputs w b.rounds) a.run
                b.run;
          taken = a.taken ++ b.taken;
          content_eq =
              a.content_eq
              ∙ ap (◌++◌ a.taken) b.content_eq
              ∙ sym (append_assoc a.taken b.taken (contents w b.last.decoders));
          amount = omega (
            arith,
            a.amount,
            b.amount,
            ap length a.content_eq,
            length-append a.taken (contents w a.last.stream.decoders),
            length-append a.taken b.taken,
          );
          told =
              ap (◌++◌ a.last.metadata) b.told
              ∙ sym (a.metadata_eq (total ks * 8))
              ∙ ap (λ n. announced w st.n_samples n st.decoders) (omega arith);
          encoder = b.encoder;
          out = a.out ++ b.out;
          encoded =
              subst (λ zs. Runs st.bitrate st.encoder b.encoder zs (a.out ++ b.out))
                (sym (to_floats-append w a.taken b.taken (omega (arith, a.aligned))))
                (Runs-trans (World.codec w) st.bitrate st.encoder a.encoder b.encoder _ _ a.out
                  b.out a.encoded
                  (subst (λ e. Runs st.bitrate e b.encoder (to_floats w b.taken) b.out) same.0
                    (subst (λ r. Runs r a.last.stream.encoder b.encoder (to_floats w b.taken) b.out)
                      a.bitrate_eq b.encoded)));
          end_eq =
              subst
                (λ o.
                  Closed w st.bitrate b.encoder (a.out ++ b.out) b.last.decoders b.last.encoder
                    (o ++ sound w b.rounds))
                (sym same.1)
                (put_in_front st.bitrate b.encoder b.last.encoder b.out (sound w b.rounds)
                  b.last.decoders a.out
                  (subst
                    (λ r.
                      Closed w r b.encoder b.out b.last.decoders b.last.encoder (sound w b.rounds))
                    a.bitrate_eq b.end_eq));
        }

    -- A call, and what comes behind if it leaves something.
    and_more :
        (ks : List ℕ) (ds : List (Entry w))
        → a.last.stream.decoders ≡ ds
        → (IsReady w a.last.stream → Listens w a.last.stream ks)
        → Listens w st (k ∷ ks)
    and_more ks [] e next = one_ended ks e
    and_more ks (entry ∷ rest) e next =
        let some_left : a.last.stream.decoders ≢ [] =
          λ z. absurd (omega (arith, ap length (sym z ∙ e))) in
        one_going ks some_left (next (a.going_on some_left))

  -- A call or more of `advance` on a stream that is ready: all of them return, and they play the
  -- playlist without a gap or an overlap, as much as they ask for together, or all that is left.
  -- The data that they give, put together, is what the encoder gives for these samples as one run,
  -- closed once if the playlist ends, however the samples are shared out among the calls. The
  -- metadata of each file is told once, by the call that reaches the file first.
  pub advance-Listens :
      (st : Stream w) (k : ℕ) (ks : List ℕ)
      → IsReady w st
      → All (λ n. n * 8 < 2 ^ 64) (k ∷ ks)
      → Listens w st (k ∷ ks)
  advance-Listens st k [] v (fits, _) = one st k (advance_lem w st k v fits)
  advance-Listens st k (k' ∷ ks) v (fits, more) =
      let a = advance_lem w st k v fits in
      and_more st k a (k' ∷ ks) a.last.stream.decoders refl
        (λ v'. advance-Listens a.last.stream k' ks v' more)
