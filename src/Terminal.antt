-- ===== src/Terminal.antt =====
-- http_audio_server/terminal.hpp and terminal.cpp: control strings for a terminal.
pub mod Color
pub mod Visible
pub mod Colors
pub mod Class
mod Tests
use http_audio_server.Common.{
  ℕ, ◌+◌, ◌*◌, ◌/◌, ◌%◌, ◌^◌, Bool, true, false, ◌&&◌, List, [], ◌∷◌, ◌++◌, ◌==◌, if◌then◌else◌,
}
use http_audio_server.Common.Decimal.{show_nat}
use http_audio_server.Common.Text.{codes}

pub record Terminal : Type 0 where
  pub use_color : Bool

-- "\x1b["
abbrev pub escape : List ℕ
escape = 0x1b ∷ b'[' ∷ []

unfoldable pub color : Terminal → ℕ → Bool → List ℕ
color t code is_bright =
    if t.use_color
    then escape ++ ((if is_bright then codes "1;" else []) ++ (show_nat code ++ codes "m"))
    else []

unfoldable pub background : Terminal → ℕ → List ℕ
background t code = if t.use_color then escape ++ (show_nat (code + 10) ++ codes "m") else []

-- The entry of the 256 colours for a colour of three bytes.
unfoldable pub rgb_code : ℕ → ℕ → ℕ → ℕ
rgb_code r g b =
    if r == g && g == b
    then (if r == 0 then 16 else 232 + r * 24 / 256)
    else 16 + r * 6 / 256 * 36 + g * 6 / 256 * 6 + b * 6 / 256

unfoldable pub rgb : Terminal → ℕ → ℕ → ℕ → Bool → List ℕ
unfolding rgb_code
rgb t r g b is_background =
    if t.use_color
    then escape
      ++ ((if is_background then codes "48" else codes "38")
          ++ (codes ";5;" ++ (show_nat (rgb_code r g b) ++ codes "m")))
    else []

unfoldable pub bright : Terminal → List ℕ
bright t = if t.use_color then escape ++ codes "1m" else []

unfoldable pub italic : Terminal → List ℕ
italic t = if t.use_color then escape ++ codes "3m" else []

unfoldable pub underline : Terminal → List ℕ
underline t = if t.use_color then escape ++ codes "4m" else []

unfoldable pub reset : Terminal → List ℕ
reset t = if t.use_color then escape ++ codes "0m" else []
