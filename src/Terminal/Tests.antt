-- ===== src/Terminal/Tests.antt =====
-- Control strings and colours at concrete inputs.
use http_audio_server.Common.{ℕ, ◌*◌, ◌/◌, ◌≤◌, ◌≡◌, ◌⊎◌, true}
use http_audio_server.Terminal.{Terminal, rgb_code}

abbrev tty : Terminal
tty = record { use_color = true }

abbrev level : ℕ → ℕ
level c = c * 6 / 256

abbrev InGreys : ℕ → ℕ → ℕ → Type 0
InGreys r g b =
    (r ≡ g) × (g ≡ b) × ((rgb_code r g b ≡ 16) ⊎ ((232 ≤ rgb_code r g b) × (rgb_code r g b ≤ 255)))

abbrev InCube : ℕ → ℕ → ℕ → Type 0
InCube r g b = (16 ≤ rgb_code r g b) × (rgb_code r g b ≤ 231)
