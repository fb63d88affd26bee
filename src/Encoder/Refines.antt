-- ===== src/Encoder/Refines.antt =====
-- The loop of `encode` against the encoder that takes one sample at a time.
use http_audio_server.Common.{
  ℕ, zero, suc, ◌+◌, ◌-◌, ◌*◌, ◌^◌, ◌≤◌, ◌<◌, ◌≡◌, ◌≢◌, subst, sym, ◌∙◌, ap, false, List, ◌++◌,
  length, take, drop, arith, some, take-add, length-drop, Bool,
}
use native.Mathlib.Decide.{ℕ_discrete}
use http_audio_server.Encoder.{Config, EncoderImpl, Loop, round, encode_loop}
use http_audio_server.Encoder.Libs.{Codec}
use http_audio_server.Encoder.Abstract.{view, push_all, push_all-append}
use http_audio_server.Encoder.Round.{
  IsValid, taken, filled-lt, floats, next, next_view, next-IsValid, next_config, round_lem,
}

-- `f` is `e` after it has taken the samples `xs`.
pub record Fed {c : Codec} (bitrate : ℕ) (e f : EncoderImpl c) (xs : List (Codec.Sample c))
    : Type 0 where
  pub seen : view f ≡ push_all c e.config bitrate (view e) xs
  pub valid : IsValid f
  pub config_eq : f.config ≡ e.config
  pub done_eq : f.done ≡ e.done

Fed-trans :
    {c : Codec} (bitrate : ℕ) (e f g : EncoderImpl c) (xs ys : List (Codec.Sample c))
    → Fed bitrate e f xs
    → Fed bitrate f g ys
    → Fed bitrate e g (xs ++ ys)
Fed-trans {c} bitrate e f g xs ys p q = record {
  seen =
      q.seen
      ∙ ap (λ h. push_all c h bitrate (view f) ys) p.config_eq
      ∙ ap (λ w. push_all c e.config bitrate w ys) p.seen
      ∙ sym (push_all-append c e.config bitrate (view e) xs ys);
  valid = q.valid;
  config_eq = q.config_eq ∙ p.config_eq;
  done_eq = q.done_eq ∙ p.done_eq;
}

module _ (c : Codec) (bitrate : ℕ) where
  next-Fed :
      (e : EncoderImpl c) (v : IsValid e) (pcm : List (Codec.Sample c)) (n : ℕ)
      (fits : n * e.n_channels < 2 ^ 64) (given : n * e.n_channels ≤ length pcm)
      → Fed bitrate e
          (next c bitrate e v pcm n fits given)
          (take (floats c bitrate e v pcm n fits given) pcm)
  next-Fed e v pcm n fits given = record {
    seen = next_view c bitrate e v pcm n fits given;
    valid = next-IsValid c bitrate e v pcm n fits given;
    config_eq = (next_config c bitrate e v pcm n fits given).0;
    done_eq = (next_config c bitrate e v pcm n fits given).1;
  }

  split_at : (p q t n : ℕ) → q ≡ p → t ≤ n → n * p ≡ t * p + (n - t) * q
  split_at p q t n e h =
      let g : n ≡ t + (n - t) = omega arith in rw e (omega (arith, ap (λ (z : ℕ). z * p) g))

  pub loop_last :
      (flush : Bool) (fuel : ℕ) (l l' : Loop c)
      → round c bitrate flush l ≡ l'
      → l'.n_samples ≡ 0
      → encode_loop c (suc fuel) bitrate flush l ≡ some l'.state
  unfolding encode_loop
  loop_last flush fuel l l' e z = ground arith

  loop_more :
      (fuel : ℕ) (l l' : Loop c)
      → round c bitrate false l ≡ l'
      → l'.n_samples ≢ 0
      → encode_loop c (suc fuel) bitrate false l ≡ encode_loop c fuel bitrate false l'
  unfolding encode_loop
  loop_more fuel l l' e z = ground arith

  -- With more fuel than samples the loop ends, and has taken every sample given.
  pub encode_loop-Fed :
      (fuel : ℕ) (e : EncoderImpl c) (v : IsValid e) (pcm : List (Codec.Sample c)) (n : ℕ)
      → n * e.n_channels < 2 ^ 64
      → n * e.n_channels ≤ length pcm
      → n < fuel
      → (f : EncoderImpl c) × (encode_loop c fuel bitrate false
            (record { state = e; pcm = pcm; n_samples = n })
          ≡ some f)
        × Fed bitrate e f (take (n * e.n_channels) pcm)
  unfolding floats
  encode_loop-Fed zero e v pcm n fits given h = absurd (omega arith)
  encode_loop-Fed (suc fuel) e v pcm n fits given h = elim (ℕ_discrete (n - taken e n) 0) [
    | yes last ↦
        let whole : k ≡ n * e.n_channels =
          omega (arith, split, ap (λ (z : ℕ). z * e'.n_channels) last) in
        (
          e',
          loop_last false fuel _ _ stepped last,
          subst (λ j. Fed bitrate e e' (take j pcm)) whole fed,
        )
    | no more ↦
        let (f, run, rest) =
          encode_loop-Fed fuel e' fed.valid (drop k pcm) (n - taken e n) (omega (arith, split))
            (omega (arith, split, length-drop k pcm)) (omega (arith, filled-lt v)) in
        (
          f,
          loop_more fuel _ _ stepped more ∙ run,
          subst (Fed bitrate e f)
              (sym (take-add k ((n - taken e n) * e'.n_channels) (n * e.n_channels) pcm split))
              (Fed-trans bitrate e e' f _ _ fed rest),
        )
  ]
    where
      e' : EncoderImpl c
      e' = next c bitrate e v pcm n fits given

      k : ℕ
      k = floats c bitrate e v pcm n fits given

      stepped :
          round c bitrate false (record { state = e; pcm = pcm; n_samples = n })
          ≡ record { state = e'; pcm = drop k pcm; n_samples = n - taken e n }
      stepped = round_lem c bitrate e v pcm n fits given

      fed : Fed bitrate e e' (take k pcm)
      fed = next-Fed e v pcm n fits given

      same : e'.n_channels ≡ e.n_channels
      same = ap Config.n_channels fed.config_eq

      split : n * e.n_channels ≡ k + (n - taken e n) * e'.n_channels
      split = split_at e.n_channels e'.n_channels (taken e n) n same (omega arith)
