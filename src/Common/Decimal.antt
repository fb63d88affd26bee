-- ===== src/Common/Decimal.antt =====
-- Numbers in decimal digits, as `std::to_string` and `<<` print them.
use Prim.Native.Nat.{ℕ, zero, suc, ◌+◌, ◌-◌, ◌*◌, ◌/◌, ◌%◌, ◌<◌, ◌≤◌}
use mathlib.Core.Path.{◌≡◌, refl, ◌∙◌}
use mathlib.Core.List.{List, [], ◌∷◌, ◌++◌}
use native.Mathlib.Omega.{arith}
use http_audio_server.Common.Lists.{All, All-append}
use http_audio_server.Common.Tests.{ltb, if◌then◌else◌, Bool-cases, ltb→lt}
use mathlib.Core.Logic.{inl, inr}
use mathlib.Core.Bool.{false}

-- The number of digits is at most the fuel.
unfoldable pub digits : ℕ → ℕ → List ℕ
digits zero n = []
digits (suc fuel) n =
    let high = digits fuel (n / 10) in
    if ltb n 10 then (b'0' + n) ∷ [] else high ++ (b'0' + n % 10) ∷ []

unfoldable pub show_nat : ℕ → List ℕ
unfolding digits
show_nat n = digits (n + 1) n

abbrev pub IsDigit : ℕ → Type 0
IsDigit c = (b'0' ≤ c) × (c ≤ b'9')

digits-IsDigit : (fuel n : ℕ) → All IsDigit (digits fuel n)
unfolding digits
digits-IsDigit zero n = tt
digits-IsDigit (suc fuel) n = elim (Bool-cases (ltb n 10)) [
  | inl small ↦ rw small ((omega arith, omega (arith, ltb→lt n 10 small)), tt)
  | inr large ↦ rw large (
      All-append IsDigit (digits fuel (n / 10)) ((b'0' + n % 10) ∷ [])
        (digits-IsDigit fuel (n / 10)) ((omega arith, omega arith), tt))
]

pub show_nat-IsDigit : (n : ℕ) → All IsDigit (show_nat n)
unfolding show_nat
show_nat-IsDigit n = digits-IsDigit (n + 1) n

value_from : ℕ → List ℕ → ℕ
value_from acc [] = acc
value_from acc (c ∷ cs) = value_from (acc * 10 + (c - b'0')) cs

-- The number that decimal digits stand for.
pub number_of : List ℕ → ℕ
unfolding value_from
number_of cs = value_from 0 cs

value_from-append :
    (acc : ℕ) (xs ys : List ℕ) → value_from acc (xs ++ ys) ≡ value_from (value_from acc xs) ys
unfolding value_from
value_from-append acc [] ys = refl
value_from-append acc (c ∷ xs) ys = value_from-append (acc * 10 + (c - b'0')) xs ys

number_of-digits : (fuel n : ℕ) → n < fuel → value_from 0 (digits fuel n) ≡ n
unfolding value_from digits
number_of-digits zero n h = absurd (omega arith)
number_of-digits (suc fuel) n h = elim (Bool-cases (ltb n 10)) [
  | inl small ↦ rw small (omega arith)
  | inr large ↦ rw large (
      value_from-append 0 (digits fuel (n / 10)) ((b'0' + n % 10) ∷ [])
      ∙ omega (arith, number_of-digits fuel (n / 10) (smaller large)))
]
  where
    smaller : ltb n 10 ≡ false → n / 10 < fuel
    smaller e = ground arith

-- Printed numbers are read back.
pub number_of-show_nat : (n : ℕ) → number_of (show_nat n) ≡ n
unfolding number_of show_nat
number_of-show_nat n = number_of-digits (n + 1) n (omega arith)
