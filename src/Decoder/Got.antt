-- ===== src/Decoder/Got.antt =====
-- A read in terms of what is still to come from the decoder.
use http_audio_server.Common.{
  ℕ, ◌%◌, ◌≤◌, ◌<◌, ◌≡◌, refl, sym, false, List, [], ◌++◌, length, take, drop, leb, arith,
  take-append-drop, drop_all, length-take, length-drop, Bool-cases, inl, inr,
}
use http_audio_server.Pipe.{Source}
use http_audio_server.Decoder.{read}
use http_audio_server.Decoder.Reads.{read_good, read_bad}

-- A decoder whose output is in whole sample pairs, and that gives nothing when it is not good.
pub record IsWhole (d : Source) : Type 0 where
  pub whole : length d.rest % 8 ≡ 0
  pub ended : d.good ≡ false → d.rest ≡ []

-- `dec'` and `buf` are what a read of n bytes from `dec` makes.
pub record Got (dec : Source) (n : ℕ) (dec' : Source) (buf : List ℕ) : Type 0 where
  pub split : dec.rest ≡ buf ++ dec'.rest
  pub most : length buf ≤ n
  pub short : length buf < n → dec'.rest ≡ []
  pub aligned : length buf % 8 ≡ 0
  pub is_whole : IsWhole dec'

module _ (dec : Source) (n : ℕ) (v : IsWhole dec) (n_aligned : n % 8 ≡ 0) where
  rest_ended : length dec.rest < n → drop n dec.rest ≡ []
  rest_ended h = drop_all n dec.rest (omega arith)

  good_Got :
      Got dec n
        (record { rest = drop n dec.rest; good = leb n (length dec.rest) })
        (take n dec.rest)
  good_Got = record {
    split = sym (take-append-drop n dec.rest);
    most = omega (arith, length-take n dec.rest);
    short = λ h. rest_ended (omega (arith, length-take n dec.rest));
    aligned = omega (arith, length-take n dec.rest, v.whole);
    is_whole = record {
      whole = omega (arith, length-drop n dec.rest, v.whole);
      ended = λ h. rest_ended (not_leb n (length dec.rest) h);
    };
  }
    where
      not_leb : (a b : ℕ) → leb a b ≡ false → b < a
      not_leb a b h = ground arith

  bad_Got : dec.good ≡ false → Got dec n dec []
  bad_Got h = record {
    split = refl;
    most = omega arith;
    short = λ _. v.ended h;
    aligned = refl;
    is_whole = v;
  }

  -- Whether the decoder is good or not, a read into the empty buffer gives what comes next, and
  -- less than n bytes only if that is all.
  pub read-Got :
      (dec' : Source) × (buf : List ℕ) × (read dec n [] ≡ (dec', buf, length buf))
      × Got dec n dec' buf
  read-Got = elim (Bool-cases dec.good) [
    | inl h ↦ (_, take n dec.rest, read_good dec n [] h, good_Got)
    | inr h ↦ (dec, [], read_bad dec n [] h, bad_Got h)
  ]
