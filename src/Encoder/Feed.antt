-- ===== src/Encoder/Feed.antt =====
-- `Encoder::feed` takes every sample that it is given, whatever the sizes of the calls.
use mathlib.Core.Path.{ap₂}
use http_audio_server.Common.{
  ℕ, suc, ◌+◌, ◌*◌, ◌^◌, ◌≤◌, ◌<◌, ◌≡◌, refl, sym, ◌∙◌, ap, subst, false, List, [], ◌++◌, length,
  take, Option, some, arith, take_all, length-append, append-nil, append_assoc, if◌then◌else◌,
}
use http_audio_server.Encoder.{
  Config, EncoderImpl, encode_loop, encode, feed, dump, dump_out, finish, then_finish,
}
use http_audio_server.Encoder.Libs.{Codec}
use http_audio_server.Encoder.Abstract.{View, view, push_all, push_all-append}
use http_audio_server.Encoder.Round.{IsValid}
use http_audio_server.Encoder.Refines.{Fed, encode_loop-Fed}
use http_audio_server.Encoder.Output.{drained, view_behind, push_all-behind}

-- `r` is the new state and the output of a call that fed `xs` to `e`.
pub record Feeds {c : Codec} (bitrate : ℕ) (e : EncoderImpl c) (xs : List (Codec.Sample c))
    (r : EncoderImpl c × List ℕ) : Type 0 where
  pub seen : view r.0 ≡ drained (push_all c e.config bitrate (view e) xs)
  pub output : r.1 ≡ (push_all c e.config bitrate (view e) xs).core.writer.buf
  pub valid : IsValid r.0
  pub config_eq : r.0.config ≡ e.config
  pub done_eq : r.0.done ≡ false

module _ (c : Codec) (bitrate : ℕ) where
  dump_out-Feeds :
      (e f : EncoderImpl c) (xs : List (Codec.Sample c))
      → Fed bitrate e f xs
      → e.done ≡ false
      → Feeds bitrate e xs (dump_out c f)
  unfolding dump_out dump
  dump_out-Feeds e f xs p open_ = record {
    seen = ap drained p.seen;
    output = ap (λ (v : View c). v.core.writer.buf) p.seen;
    valid = record {
      channels = p.valid.channels;
      size = p.valid.size;
      room = p.valid.room;
      aligned = p.valid.aligned;
    };
    config_eq = p.config_eq;
    done_eq = p.done_eq ∙ open_;
  }

  feed_run :
      (e f : EncoderImpl c) (pcm : List (Codec.Sample c)) (n : ℕ)
      → e.done ≡ false
      → encode_loop c (suc n) bitrate false (record { state = e; pcm = pcm; n_samples = n })
        ≡ some f
      → feed c e pcm n bitrate ≡ some (dump_out c f)
  unfolding feed encode finish
  feed_run e f pcm n open_ run =
      let same : n + 1 ≡ suc n = omega arith in
      let loop : ℕ → Option (EncoderImpl c) =
        λ fuel. encode_loop c fuel bitrate false (record { state = e; pcm = pcm; n_samples = n }) in
      ap (λ b. if b then some (e, []) else then_finish c false (loop (n + 1))) open_
      ∙ ap (then_finish c false) (ap loop same ∙ run)

  -- A call of `feed` on an encoder that is not finished returns, and acts as the encoder that
  -- takes the samples one at a time; the bytes muxed meanwhile are its output.
  pub feed-Feeds :
      (e : EncoderImpl c) (pcm : List (Codec.Sample c)) (n : ℕ)
      → IsValid e
      → e.done ≡ false
      → n * e.n_channels < 2 ^ 64
      → n * e.n_channels ≤ length pcm
      → (r : EncoderImpl c × List ℕ) × (feed c e pcm n bitrate ≡ some r)
        × Feeds bitrate e (take (n * e.n_channels) pcm) r
  feed-Feeds e pcm n v open_ fits given =
      let (f, run, fed) = encode_loop-Fed c bitrate (suc n) e v pcm n fits given (omega arith) in
      (dump_out c f, feed_run e f pcm n open_ run, dump_out-Feeds e f _ fed open_)

  refold : (v : View c) → v ≡ view_behind v.core.writer.buf (drained v)
  refold v =
      ap
        (λ (b : List ℕ). record v {
          core = record v.core { writer = record v.core.writer { buf = b } };
        })
        (sym (append-nil v.core.writer.buf))

  Feeds-append :
      (e : EncoderImpl c) (xs ys : List (Codec.Sample c)) (r s t : EncoderImpl c × List ℕ)
      → Feeds bitrate e xs r
      → Feeds bitrate r.0 ys s
      → Feeds bitrate e (xs ++ ys) t
      → (view s.0 ≡ view t.0) × (r.1 ++ s.1 ≡ t.1)
  Feeds-append e xs ys r s t p q w = (
    q.seen ∙ ap drained second ∙ sym (w.seen ∙ ap drained whole),
    ap₂ ◌++◌ p.output (q.output ∙ ap (λ (v : View c). v.core.writer.buf) second)
        ∙ sym (w.output ∙ ap (λ (v : View c). v.core.writer.buf) whole),
  )
    where
      mid : View c
      mid = push_all c e.config bitrate (view e) xs

      whole :
          push_all c e.config bitrate (view e) (xs ++ ys)
          ≡ view_behind mid.core.writer.buf (push_all c e.config bitrate (drained mid) ys)
      whole =
          push_all-append c e.config bitrate (view e) xs ys
          ∙ ap (λ (v : View c). push_all c e.config bitrate v ys) (refold mid)
          ∙ push_all-behind c e.config bitrate mid.core.writer.buf (drained mid) ys

      second :
          push_all c r.0.config bitrate (view r.0) ys ≡ push_all c e.config bitrate (drained mid) ys
      second =
          ap (λ g. push_all c g bitrate (view r.0) ys) p.config_eq
          ∙ ap (λ v. push_all c e.config bitrate v ys) p.seen

  -- The same where the samples given are those to be taken.
  feed_exact :
      (e : EncoderImpl c) (xs : List (Codec.Sample c)) (n : ℕ)
      → IsValid e
      → e.done ≡ false
      → n * e.n_channels < 2 ^ 64
      → length xs ≡ n * e.n_channels
      → (r : EncoderImpl c × List ℕ) × (feed c e xs n bitrate ≡ some r) × Feeds bitrate e xs r
  feed_exact e xs n v open_ fits len =
      let (r, run, p) = feed-Feeds e xs n v open_ fits (omega arith) in
      (r, run, subst (λ zs. Feeds bitrate e zs r) (take_all (n * e.n_channels) xs (omega arith)) p)

  -- Two calls of `feed` write what one call over all the samples writes, and leave the encoder in
  -- a state that differs in unused buffer space only.
  pub feed-append :
      (e : EncoderImpl c) (xs ys : List (Codec.Sample c)) (n m : ℕ)
      → IsValid e
      → e.done ≡ false
      → (n + m) * e.n_channels < 2 ^ 64
      → length xs ≡ n * e.n_channels
      → length ys ≡ m * e.n_channels
      → (r s t : EncoderImpl c × List ℕ) × (feed c e xs n bitrate ≡ some r)
        × (feed c r.0 ys m bitrate ≡ some s)
        × (feed c e (xs ++ ys) (n + m) bitrate ≡ some t)
        × (view s.0 ≡ view t.0)
        × (r.1 ++ s.1 ≡ t.1)
  feed-append e xs ys n m v open_ fits len len' =
      let (r, run, p) = feed_exact e xs n v open_ (omega arith) len in
      let same : m * e.n_channels ≡ m * r.0.n_channels =
        ap (λ g. m * Config.n_channels g) (sym p.config_eq) in
      let (s, run', q) =
        feed_exact r.0 ys m p.valid p.done_eq (omega (arith, same)) (len' ∙ same) in
      let (t, run'', w) =
        feed_exact e (xs ++ ys) (n + m) v open_ fits (omega (arith, length-append xs ys)) in
      let (a, b) = Feeds-append e xs ys r s t p q w in (r, s, t, run, run', run'', a, b)

-- From `e` to `f` the samples `xs` were taken, and `out` was written.
pub record Runs {c : Codec} (bitrate : ℕ) (e f : EncoderImpl c) (xs : List (Codec.Sample c))
    (out : List ℕ) : Type 0 where
  pub seen : view_behind out (view f) ≡ push_all c e.config bitrate (view e) xs
  pub valid : IsValid f
  pub config_eq : f.config ≡ e.config
  pub done_eq : f.done ≡ false

module _ (c : Codec) (bitrate : ℕ) where
  pub feed-Runs :
      (e : EncoderImpl c) (pcm : List (Codec.Sample c)) (n : ℕ)
      → IsValid e
      → e.done ≡ false
      → n * e.n_channels < 2 ^ 64
      → n * e.n_channels ≤ length pcm
      → (r : EncoderImpl c × List ℕ) × (feed c e pcm n bitrate ≡ some r)
        × Runs bitrate e r.0 (take (n * e.n_channels) pcm) r.1
  feed-Runs e pcm n v open_ fits given =
      let (r, run, p) = feed-Feeds c bitrate e pcm n v open_ fits given in
      (
        r,
        run,
        record {
          seen =
              ap₂ view_behind p.output p.seen
              ∙ sym (
                  refold c bitrate
                    (push_all c e.config bitrate (view e) (take (n * e.n_channels) pcm)));
          valid = p.valid;
          config_eq = p.config_eq;
          done_eq = p.done_eq;
        },
      )

  pub Runs-refl : (e : EncoderImpl c) → IsValid e → e.done ≡ false → Runs bitrate e e [] []
  unfolding push_all
  Runs-refl e v open_ = record { seen = refl; valid = v; config_eq = refl; done_eq = open_ }

  pub Runs-trans :
      (e f g : EncoderImpl c) (xs ys : List (Codec.Sample c)) (o o' : List ℕ)
      → Runs bitrate e f xs o
      → Runs bitrate f g ys o'
      → Runs bitrate e g (xs ++ ys) (o ++ o')
  Runs-trans e f g xs ys o o' p q = record {
    seen =
        ap
          (λ (b : List ℕ). record {
            pending = (view g).pending;
            core = record g.core { writer = record g.core.writer { buf = b } };
          })
          (append_assoc o o' g.writer.buf)
        ∙ ap (view_behind o) (q.seen ∙ ap (λ h. push_all c h bitrate (view f) ys) p.config_eq)
        ∙ sym (push_all-behind c e.config bitrate o (view f) ys)
        ∙ ap (λ v. push_all c e.config bitrate v ys) p.seen
        ∙ sym (push_all-append c e.config bitrate (view e) xs ys);
    valid = q.valid;
    config_eq = q.config_eq ∙ p.config_eq;
    done_eq = q.done_eq;
  }
