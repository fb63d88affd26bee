-- ===== src/Common/Words.antt =====
-- Comparisons of texts: `==`, `<`, and the equality that ignores case.
use Prim.Native.Nat.{ℕ, ◌+◌}
use mathlib.Core.Path.{◌≡◌, refl, sym, ap, ap₂, ◌∙◌}
use mathlib.Core.Logic.{◌≢◌, inl, inr}
use mathlib.Core.Bool.{Bool, true, false, ◌&&◌}
use mathlib.Core.List.{List, [], ◌∷◌, map}
use native.Mathlib.Omega.{arith}
use http_audio_server.Common.Tests.{◌==◌, ==_iff, ==_self, ltb, leb, if◌then◌else◌, Bool-cases}

unfoldable pub same_text : List ℕ → List ℕ → Bool
same_text [] [] = true
same_text [] (d ∷ ds) = false
same_text (c ∷ cs) [] = false
same_text (c ∷ cs) (d ∷ ds) = c == d && same_text cs ds

-- `std::string::operator<`, by the values of the characters.
unfoldable pub text_lt : List ℕ → List ℕ → Bool
text_lt xs [] = false
text_lt [] (d ∷ ds) = true
text_lt (c ∷ cs) (d ∷ ds) = let later = text_lt cs ds in if c == d then later else ltb c d

-- `std::tolower` in the C locale.
unfoldable pub lower : ℕ → ℕ
lower c = if leb b'A' c && leb c b'Z' then c + 32 else c

-- `std::regex_match` with a text without operators and the flag `icase`.
unfoldable pub same_icase : List ℕ → List ℕ → Bool
unfolding same_text lower
same_icase a b = same_text (map lower a) (map lower b)

pub same_text_self : (cs : List ℕ) → same_text cs cs ≡ true
unfolding same_text
same_text_self [] = refl
same_text_self (c ∷ cs) = rw (==_self c) (same_text_self cs)

pub and_true : (a b : Bool) → (a && b) ≡ true → (a ≡ true) × (b ≡ true)
and_true true b h = (refl, h)
and_true false b h = ground arith

-- The test holds of equal texts only.
pub same_text→eq : (a b : List ℕ) → same_text a b ≡ true → a ≡ b
unfolding same_text
same_text→eq [] [] h = refl
same_text→eq [] (d ∷ ds) h = ground arith
same_text→eq (c ∷ cs) [] h = ground arith
same_text→eq (c ∷ cs) (d ∷ ds) h =
    let (e, f) = and_true (c == d) (same_text cs ds) h in
    ap₂ (λ (x : ℕ) (xs : List ℕ). x ∷ xs) ((==_iff c d).0 e) (same_text→eq cs ds f)

pub same_text-ne : (a b : List ℕ) → a ≢ b → same_text a b ≡ false
same_text-ne a b h = elim (Bool-cases (same_text a b)) [
  | inl e ↦ absurd (h (same_text→eq a b e))
  | inr e ↦ e
]

pub true≢false : true ≢ false
true≢false e = ground arith

-- A text cannot match two patterns that differ by more than case.
pub same_icase_apart :
    (p q key : List ℕ) → same_icase p q ≡ false → same_icase p key ≡ true → same_icase q key ≡ false
unfolding same_icase
same_icase_apart p q key apart h =
    let e = same_text→eq (map lower p) (map lower key) h in
    same_text-ne (map lower q) (map lower key) (λ f.
      true≢false
        (sym (same_text_self (map lower p)) ∙ ap (same_text (map lower p)) (e ∙ sym f) ∙ apart))
