-- ===== src/Terminal/Class.antt =====
-- http_audio_server/terminal.hpp, the class `Terminal` as its clients see it: its constants and
-- methods, with what the comments say of them, and the implementation.
use http_audio_server.Common.{ap, ◌∙◌, ◌++◌, append-nil, ℕ, ◌≡◌, refl, Bool, false, List, []}
use http_audio_server.Terminal.{Terminal, color, background, rgb, bright, italic, underline, reset}
use http_audio_server.Terminal.Color.{black, red, green, yellow, blue, magenta, cyan, white}
use http_audio_server.Terminal.Visible.{
  visible, visible_from, visible-IsPlain, IsPlain, IsHidden, controls-IsHidden,
}

pub record TerminalClass : Type 1 where
  pub T : Type 0
  pub black : ℕ
  pub red : ℕ
  pub green : ℕ
  pub yellow : ℕ
  pub blue : ℕ
  pub magenta : ℕ
  pub cyan : ℕ
  pub white : ℕ
  pub create : Bool → T
  pub color : T → ℕ → Bool → List ℕ
  pub background : T → ℕ → List ℕ
  pub rgb : T → ℕ → ℕ → ℕ → Bool → List ℕ
  pub bright : T → List ℕ
  pub italic : T → List ℕ
  pub underline : T → List ℕ
  pub reset : T → List ℕ
  -- `use_color` specifies whether codes should be generated.
  pub no_codes :
      (code r g b : ℕ) (is_bright is_background : Bool)
      → (color (create false) code is_bright ≡ [])
        × (background (create false) code ≡ [])
        × (rgb (create false) r g b is_background ≡ [])
        × (bright (create false) ≡ [])
        × (italic (create false) ≡ [])
        × (underline (create false) ≡ [])
        × (reset (create false) ≡ [])
  -- Each method returns a control string: it shows no character.
  pub controls :
      (t : T) (code r g b : ℕ) (is_bright is_background : Bool)
      → IsHidden (color t code is_bright)
        × IsHidden (background t code)
        × IsHidden (rgb t r g b is_background)
        × IsHidden (bright t)
        × IsHidden (italic t)
        × IsHidden (underline t)
        × IsHidden (reset t)

no_codes_lem :
    (code r g b : ℕ) (is_bright is_background : Bool)
    → let t : Terminal = record { use_color = false } in
      (color t code is_bright ≡ [])
      × (background t code ≡ [])
      × (rgb t r g b is_background ≡ [])
      × (bright t ≡ [])
      × (italic t ≡ [])
      × (underline t ≡ [])
      × (reset t ≡ [])
unfolding color background rgb bright italic underline reset
no_codes_lem code r g b is_bright is_background = (refl, refl, refl, refl, refl, refl, refl)

abbrev terminal_class : TerminalClass
terminal_class = record {
  T = Terminal;
  black = black;
  red = red;
  green = green;
  yellow = yellow;
  blue = blue;
  magenta = magenta;
  cyan = cyan;
  white = white;
  create = λ use_color. record { use_color = use_color };
  color = color;
  background = background;
  rgb = rgb;
  bright = bright;
  italic = italic;
  underline = underline;
  reset = reset;
  no_codes = no_codes_lem;
  controls = controls-IsHidden;
}

-- A client of the class.
module _ (c : TerminalClass) where
  -- By the laws of the class alone: a text without escape characters between a colour and the
  -- default mode shows as the text, whatever the terminal.
  pub visible-colored :
      (t : TerminalClass.T c) (code : ℕ) (is_bright : Bool) (text : List ℕ)
      → IsPlain text
      → visible
          (TerminalClass.color c t code is_bright ++ (text ++ (TerminalClass.reset c t ++ [])))
        ≡ text
  unfolding visible visible_from
  visible-colored t code is_bright text h =
      let all = TerminalClass.controls c t code 0 0 0 is_bright false in
      all.0 (text ++ (TerminalClass.reset c t ++ []))
      ∙ visible-IsPlain text (TerminalClass.reset c t ++ []) h
      ∙ ap (λ r. text ++ r) (all.6 [])
      ∙ append-nil text
