-- ===== src/Stream/Plays.antt =====
-- The loop of `advance` plays the playlist without gaps.
use mathlib.Core.Path.{ap₂}
use http_audio_server.Common.{
  ℕ, zero, suc, ◌+◌, ◌%◌, ◌^◌, ◌<◌, ◌≡◌, ◌⊎◌, refl, sym, ap, ◌∙◌, some, List, [], ◌∷◌, ◌++◌, length,
  length-append, All, arith, inl, inr, subst, append_assoc, append-nil,
}
use native.Mathlib.Decide.{ℕ_discrete}
use http_audio_server.Pipe.{Source}
use http_audio_server.Encoder.Feed.{Runs, Runs-refl, Runs-trans}
use http_audio_server.Stream.{
  Entry, Round, done, ready, to_floats, step, open_decoder, round, advance_loop,
}
use http_audio_server.Stream.Env.{World}
use http_audio_server.Stream.Loop.{
  described, announced, contents, rest_of, decoder_of, IsPlayable, IsReady, Plays, to_floats-append,
}
use http_audio_server.Stream.Announce.{announced_reached}
use http_audio_server.Stream.Step.{step-Stepped, open_ready, with_opened}

module _ (w : World) where
  contents-cons :
      (entry : Entry w) (rest : List (Entry w))
      → contents w (entry ∷ rest) ≡ rest_of w (decoder_of w entry.decoder entry) ++ contents w rest
  unfolding contents
  contents-cons entry rest = refl

  round_run :
      (r r' r'' : Round w) (entry : Entry w) (rest : List (Entry w)) (dec : Source)
      → open_decoder w r entry rest entry.decoder ≡ ready r' dec
      → step w entry rest r' dec ≡ some r''
      → round w r entry rest ≡ done r''
  unfolding round
  round_run r r' r'' entry rest dec e f = rw (e, f, round)

  -- The state after a round, in the terms of the state before.
  record Rounds (r : Round w) (entry : Entry w) (rest : List (Entry w)) : Type 0 where
    next : Round w
    run : round w r entry rest ≡ done next
    taken : List ℕ
    plays : Plays w r next taken
    shorter : next.n_bytes + length next.stream.decoders < r.n_bytes + suc (length rest)

  round_lem :
      (r : Round w) (entry : Entry w) (rest : List (Entry w))
      → r.stream.decoders ≡ entry ∷ rest
      → IsReady w r.stream
      → r.n_bytes % 8 ≡ 0
      → r.n_bytes < 2 ^ 64
      → 0 < r.n_bytes
      → Rounds r entry rest
  round_lem r entry rest de v aligned fits pos =
      let ps = subst (All (IsPlayable w)) de v.playable in
      let p = ps.0 in
      let (ds, ms, o, told) = open_ready w r entry rest entry.decoder p.dec p.opens p.is_known in
      let (r', run, s) =
        step-Stepped w (with_opened w r ds ms) entry rest p.dec p.is_whole ps.1 v.valid v.not_done
          v.stereo v.empty aligned fits pos v.counted in
      record {
        next = r';
        run = round_run r (with_opened w r ds ms) r' entry rest p.dec o run;
        taken = s.taken;
        plays = record {
          content_eq = ap (contents w) de ∙ first entry rest p.dec p.opens ∙ s.content_eq;
          n_eq = s.n_eq;
          aligned = s.aligned;
          out = s.out;
          out_eq = s.out_eq;
          encoded = s.encoded;
          count_eq = s.count_eq;
          bitrate_eq = s.bitrate_eq;
          is_ready = s.is_ready;
          metadata_eq = λ later.
              ap (λ es. r.metadata ++ announced w r.stream.n_samples (r.n_bytes + later) es) de
              ∙ ap (◌++◌ r.metadata) (
                  announced_reached w r.stream.n_samples (r.n_bytes + later) entry rest p.dec
                    (omega arith) p.opens)
              ∙ sym (append_assoc r.metadata (described w r.stream.n_samples entry entry.decoder) _)
              ∙ ap₂ ◌++◌ (sym told ∙ sym s.metadata_eq) (s.later_eq later);
        };
        shorter = s.shorter;
      }
    where
      first :
          (entry : Entry w) (rest : List (Entry w)) (dec : Source)
          → decoder_of w entry.decoder entry ≡ some dec
          → contents w (entry ∷ rest) ≡ dec.rest ++ contents w rest
      first entry rest dec e = contents-cons entry rest ∙ ap (λ o. rest_of w o ++ contents w rest) e

  Plays-refl : (r : Round w) → IsReady w r.stream → Plays w r r []
  unfolding to_floats
  Plays-refl r v = record {
    content_eq = refl;
    n_eq = omega arith;
    aligned = refl;
    out = [];
    out_eq = sym (append-nil r.out);
    encoded = Runs-refl (World.codec w) r.stream.bitrate r.stream.encoder v.valid v.not_done;
    count_eq = omega (arith, v.counted);
    bitrate_eq = refl;
    is_ready = v;
    metadata_eq = λ later. refl;
  }

  Plays-trans :
      (r s t : Round w) (xs ys : List ℕ) → Plays w r s xs → Plays w s t ys → Plays w r t (xs ++ ys)
  Plays-trans r s t xs ys p q = record {
    content_eq =
        p.content_eq
        ∙ ap (◌++◌ xs) q.content_eq
        ∙ sym (append_assoc xs ys (contents w t.stream.decoders));
    n_eq = omega (arith, p.n_eq, q.n_eq, length-append xs ys);
    aligned = omega (arith, p.aligned, q.aligned, length-append xs ys);
    out = p.out ++ q.out;
    out_eq = q.out_eq ∙ ap (λ o. o ++ q.out) p.out_eq ∙ append_assoc r.out p.out q.out;
    encoded =
        subst (λ zs. Runs r.stream.bitrate r.stream.encoder t.stream.encoder zs (p.out ++ q.out))
          (sym (to_floats-append w xs ys (omega (arith, p.aligned))))
          (Runs-trans (World.codec w) r.stream.bitrate r.stream.encoder s.stream.encoder
            t.stream.encoder _ _ p.out q.out p.encoded
            (subst (λ b. Runs b s.stream.encoder t.stream.encoder (to_floats w ys) q.out)
              p.bitrate_eq q.encoded));
    count_eq = omega (arith, p.count_eq, q.count_eq, p.aligned, q.aligned, length-append xs ys);
    bitrate_eq = q.bitrate_eq ∙ p.bitrate_eq;
    is_ready = q.is_ready;
    metadata_eq = λ later. p.metadata_eq later ∙ q.metadata_eq later;
  }

  -- How the loop ends, with what it played.
  pub record Ended (fuel : ℕ) (r : Round w) : Type 0 where
    pub last : Round w
    pub run : advance_loop w fuel r ≡ done last
    pub taken : List ℕ
    pub plays : Plays w r last taken
    pub stop : (last.n_bytes ≡ 0) ⊎ (last.stream.decoders ≡ [])

  pub loop_stop :
      (fuel : ℕ) (r : Round w)
      → (r.n_bytes ≡ 0) ⊎ (r.stream.decoders ≡ [])
      → advance_loop w (suc fuel) r ≡ done r
  unfolding advance_loop
  loop_stop fuel r h = ground arith

  loop_next :
      (fuel : ℕ) (r r' : Round w) (entry : Entry w) (rest : List (Entry w))
      → 0 < r.n_bytes
      → r.stream.decoders ≡ entry ∷ rest
      → round w r entry rest ≡ done r'
      → advance_loop w (suc fuel) r ≡ advance_loop w fuel r'
  unfolding advance_loop
  loop_next fuel r r' entry rest pos de run = ground arith

  -- The loop ends, with more fuel than bytes wanted and files listed.
  pub advance_loop-Ended :
      (fuel : ℕ) (r : Round w) (ds : List (Entry w))
      → r.stream.decoders ≡ ds
      → IsReady w r.stream
      → r.n_bytes % 8 ≡ 0
      → r.n_bytes < 2 ^ 64
      → r.n_bytes + length ds < fuel
      → Ended fuel r
  advance_loop-Ended zero r ds e v aligned fits h = absurd (omega arith)
  advance_loop-Ended (suc fuel) r [] e v aligned fits h = record {
    last = r;
    run = loop_stop fuel r (inr e);
    taken = [];
    plays = Plays-refl r v;
    stop = inr e;
  }
  advance_loop-Ended (suc fuel) r (entry ∷ rest) e v aligned fits h =
      elim (ℕ_discrete r.n_bytes 0) [
        | yes z ↦ record {
          last = r;
          run = loop_stop fuel r (inl z);
          taken = [];
          plays = Plays-refl r v;
          stop = inl z;
        }
        | no nz ↦
            let a = round_lem r entry rest e v aligned fits (omega arith) in
            let b =
              advance_loop-Ended fuel a.next a.next.stream.decoders refl a.plays.is_ready
                (omega (arith, a.plays.n_eq, a.plays.aligned)) (omega (arith, a.plays.n_eq))
                (omega (arith, a.shorter)) in
            record {
              last = b.last;
              run = loop_next fuel r a.next entry rest (omega arith) e a.run ∙ b.run;
              taken = a.taken ++ b.taken;
              plays = Plays-trans r a.next b.last a.taken b.taken a.plays b.plays;
              stop = b.stop;
            }
      ]
