-- ===== src/Common/Bytes.antt =====
-- Unsigned integers in little-endian byte order, as the machine stores them.
use Prim.Native.Nat.{ℕ, zero, suc, ◌+◌, ◌*◌, ◌/◌, ◌%◌, ◌^◌, ◌<◌}
use mathlib.Core.Path.{◌≡◌, refl, ap}
use mathlib.Core.List.{List, [], ◌∷◌}
use native.Mathlib.Omega.{arith}
use native.Mathlib.Nat.{pow-suc}
use http_audio_server.Common.Lists.{length}

-- The lowest n bytes of x.
unfoldable pub to_bytes : ℕ → ℕ → List ℕ
to_bytes zero x = []
to_bytes (suc n) x = x % 256 ∷ to_bytes n (x / 256)

unfoldable pub of_bytes : List ℕ → ℕ
of_bytes [] = 0
of_bytes (b ∷ bs) = b + 256 * of_bytes bs

pub length-to_bytes : (n x : ℕ) → length (to_bytes n x) ≡ n
unfolding to_bytes
length-to_bytes zero x = refl
length-to_bytes (suc n) x = ap suc (length-to_bytes n (x / 256))

-- Reading back n bytes gives the number, if it fits them.
pub of_bytes-to_bytes : (n x : ℕ) → x < 256 ^ n → of_bytes (to_bytes n x) ≡ x
unfolding of_bytes to_bytes
of_bytes-to_bytes zero x h = omega arith
of_bytes-to_bytes (suc n) x h =
    omega (arith, of_bytes-to_bytes n (x / 256) (omega (arith, pow-suc 256 n)))
