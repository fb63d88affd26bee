-- ===== src/Terminal/Colors.antt =====
-- The palette entries that `rgb` selects.
use http_audio_server.Common.{ℕ, ◌*◌, ◌/◌, ◌≤◌, ◌<◌, ◌≡◌, ◌≢◌, ◌⊎◌, arith}
use http_audio_server.Terminal.{rgb_code}

-- The code lies in the palette's part for colours and greys: greys at 16 and from 232 to 255,
-- all other colours in the cube from 16 to 231.
pub rgb_code_bounds :
    (r g b : ℕ)
    → r < 256
    → g < 256
    → b < 256
    → ((r ≡ g)
        × (g ≡ b)
        × ((rgb_code r g b ≡ 16) ⊎ ((232 ≤ rgb_code r g b) × (rgb_code r g b ≤ 255))))
      ⊎ ((16 ≤ rgb_code r g b) × (rgb_code r g b ≤ 231))
unfolding rgb_code
rgb_code_bounds r g b hr hg hb = ground arith

-- In the cube a code determines the six levels of red, green and blue.
pub rgb_code_levels :
    (r g b r' g' b' : ℕ)
    → g < 256
    → b < 256
    → g' < 256
    → b' < 256
    → r ≢ g
    → r' ≢ g'
    → rgb_code r g b ≡ rgb_code r' g' b'
    → (r * 6 / 256 ≡ r' * 6 / 256) × (g * 6 / 256 ≡ g' * 6 / 256) × (b * 6 / 256 ≡ b' * 6 / 256)
unfolding rgb_code
rgb_code_levels r g b r' g' b' hg hb hg' hb' n n' e = ground arith
