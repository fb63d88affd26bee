-- ===== src/Stream/Announce.antt =====
-- What `advance` tells of the files, as the playlist is played.
use mathlib.Core.Path.{ap₂}
use http_audio_server.Common.{
  ℕ, ◌+◌, ◌-◌, ◌/◌, ◌%◌, ◌≡◌, ◌≢◌, refl, sym, ap, ◌∙◌, Bool, true, false, some, List, [], ◌∷◌, ◌++◌,
  length, arith, if◌then◌else◌, ==_ne, ◌^◌,
}
use native.Mathlib.Decide.{ℕ_discrete}
use http_audio_server.Json.{Json}
use http_audio_server.Pipe.{Source}
use http_audio_server.Stream.{Entry}
use http_audio_server.Stream.Env.{World, Double}
use http_audio_server.Stream.Loop.{rest_of, decoder_of, described, announced}

module _ (w : World) where
  abbrev Told : Type 0
  Told = List (Json (Double w))

  -- Nothing is told if nothing is wanted.
  pub announced_zero : (n k : ℕ) (ds : List (Entry w)) → k ≡ 0 → announced w n k ds ≡ []
  unfolding announced
  announced_zero n k [] z = refl
  announced_zero n k (entry ∷ entries) z = rw z refl

  -- An entry that is reached.
  pub announced_reached :
      (n k : ℕ) (entry : Entry w) (entries : List (Entry w)) (dec : Source)
      → k ≢ 0
      → decoder_of w entry.decoder entry ≡ some dec
      → announced w n k (entry ∷ entries)
        ≡ described w n entry entry.decoder
          ++ announced w ((n + length dec.rest / 8) % 2 ^ 64) (k - length dec.rest) entries
  unfolding announced
  announced_reached n k entry entries dec nz e =
      let size : ℕ = length (rest_of w (decoder_of w entry.decoder entry)) in
      let all : ℕ → Told = λ size.
        described w n entry entry.decoder
        ++ announced w ((n + size / 8) % 2 ^ 64) (k - size) entries in
      ap (λ b. if b then [] else all size) (==_ne k 0 nz) ∙ ap (λ o. all (length (rest_of w o))) e

  announced_cong :
      (n n' k k' : ℕ) (ds : List (Entry w))
      → n ≡ n'
      → k ≡ k'
      → announced w n k ds ≡ announced w n' k' ds
  announced_cong n n' k k' ds e f = ap₂ (λ n k. announced w n k ds) e f

  -- What is told behind an entry, when `j` of the bytes that its decoder gives were played.
  pub announced_after :
      (b : Bool) (n n' k k' j : ℕ) (entry : Entry w) (rest : List (Entry w)) (dec dec' : Source)
      → length dec.rest ≡ j + length dec'.rest
      → k ≡ j + k'
      → j % 8 ≡ 0
      → n' ≡ (n + j / 8) % 2 ^ 64
      → (b ≡ true → dec'.rest ≡ [])
      → announced w ((n + length dec.rest / 8) % 2 ^ 64) (k - length dec.rest) rest
        ≡ announced w n' k' (if b then rest else record entry { decoder = some dec' } ∷ rest)
  announced_after true n n' k k' j entry rest dec dec' split wanted aligned count ended =
      announced_cong _ n' _ k' rest (omega (arith, ap length (ended refl)))
        (omega (arith, ap length (ended refl)))
  announced_after false n n' k k' j entry rest dec dec' split wanted aligned count ended =
      elim (ℕ_discrete k' 0) [
        | yes z ↦
            announced_zero _ _ rest (omega arith)
            ∙ sym (announced_zero n' k' (record entry { decoder = some dec' } ∷ rest) z)
        | no nz ↦
            announced_cong _ ((n' + length dec'.rest / 8) % 2 ^ 64) _ (k' - length dec'.rest) rest
              (omega arith) (omega arith)
            ∙ sym (announced_reached n' k' (record entry { decoder = some dec' }) rest dec' nz refl)
      ]
