-- ===== src/Terminal/Visible.antt =====
-- What a reader sees of a text with control strings.
use http_audio_server.Common.{
  ℕ, ◌+◌, ◌≡◌, ◌≢◌, refl, sym, ap, ◌∙◌, Bool, true, false, List, [], ◌∷◌, ◌++◌, ◌==◌, ==_ne, All,
  All-append, if◌then◌else◌, arith, append_assoc,
}
use http_audio_server.Common.Decimal.{show_nat, show_nat-IsDigit, IsDigit}
use http_audio_server.Common.Text.{codes}
use http_audio_server.Terminal.{
  Terminal, color, background, rgb, rgb_code, bright, italic, underline, reset, escape,
}

-- The characters that show; the flag tells whether an escape sequence is open. It ends with 'm'.
unfoldable pub visible_from : Bool → List ℕ → List ℕ
visible_from true [] = []
visible_from true (c ∷ cs) = visible_from (if c == b'm' then false else true) cs
visible_from false [] = []
visible_from false (c ∷ cs) =
    let shown = visible_from (if c == 0x1b then true else false) cs in
    if c == 0x1b then shown else c ∷ shown

unfoldable pub visible : List ℕ → List ℕ
unfolding visible_from
visible text = visible_from false text

-- Text with no escape character.
abbrev pub IsPlain : List ℕ → Type 0
IsPlain = All (λ c. c ≢ 0x1b)

pub visible-IsPlain :
    (text rest : List ℕ) → IsPlain text → visible (text ++ rest) ≡ text ++ visible rest
unfolding visible
visible-IsPlain [] rest h = refl
visible-IsPlain (c ∷ text) rest (h, hs) =
    rw (==_ne c 0x1b h) (ap (◌∷◌ c) (visible-IsPlain text rest hs))

-- Inside a sequence everything up to the 'm' is hidden.
hidden :
    (text rest : List ℕ)
    → All (λ c. c ≢ b'm') text
    → visible_from true (text ++ b'm' ∷ rest) ≡ visible rest
unfolding visible visible_from
hidden [] rest h = refl
hidden (c ∷ text) rest (h, hs) =
    ap (λ b. visible_from (if b then false else true) (text ++ b'm' ∷ rest)) (==_ne c b'm' h)
    ∙ hidden text rest hs

-- A control string shows nothing.
abbrev pub IsHidden : List ℕ → Type 0
IsHidden text = (rest : List ℕ) → visible (text ++ rest) ≡ visible rest

digits_close : (text : List ℕ) → All IsDigit text → All (λ c. c ≢ b'm') text
digits_close [] h = tt
digits_close (c ∷ text) ((lo, hi), hs) = (λ e. omega arith, digits_close text hs)

picked-IsHidden : (b : Bool) (text : List ℕ) → IsHidden text → IsHidden (if b then text else [])
picked-IsHidden true text h rest = h rest
picked-IsHidden false text h rest = refl

-- A sequence with the parameters `head` and n.
sequence-IsHidden :
    (head : List ℕ) (n : ℕ)
    → All (λ c. c ≢ b'm') head
    → IsHidden (escape ++ (head ++ (show_nat n ++ codes "m")))
unfolding visible visible_from
sequence-IsHidden head n h rest =
    ap (visible_from true) (
      ap (λ t. t ++ rest) (sym (append_assoc head (show_nat n) (codes "m")))
      ∙ append_assoc (head ++ show_nat n) (codes "m") rest)
    ∙ hidden (head ++ show_nat n) rest (
        All-append (λ c. c ≢ b'm') head (show_nat n) h
          (digits_close (show_nat n) (show_nat-IsDigit n)))

color-IsHidden :
    (code : ℕ) (b : Bool)
    → IsHidden (escape ++ ((if b then codes "1;" else []) ++ (show_nat code ++ codes "m")))
color-IsHidden code true =
    sequence-IsHidden (codes "1;") code (λ e. omega arith, (λ e. omega arith, tt))
color-IsHidden code false = sequence-IsHidden [] code tt

rgb-IsHidden :
    (code : ℕ) (b : Bool)
    → IsHidden (
        escape
        ++ ((if b then codes "48" else codes "38")
            ++ (codes ";5;" ++ (show_nat code ++ codes "m"))))
rgb-IsHidden code true = sequence-IsHidden (codes "48;5;") code (
  λ e. omega arith,
  (λ e. omega arith, (λ e. omega arith, (λ e. omega arith, (λ e. omega arith, tt)))),
)
rgb-IsHidden code false = sequence-IsHidden (codes "38;5;") code (
  λ e. omega arith,
  (λ e. omega arith, (λ e. omega arith, (λ e. omega arith, (λ e. omega arith, tt)))),
)

-- Whatever the terminal, the colour and the style, the control strings show nothing: the text
-- behind them is seen as it is without them.
pub controls-IsHidden :
    (t : Terminal) (code r g b : ℕ) (is_bright is_background : Bool)
    → IsHidden (color t code is_bright)
      × IsHidden (background t code)
      × IsHidden (rgb t r g b is_background)
      × IsHidden (bright t)
      × IsHidden (italic t)
      × IsHidden (underline t)
      × IsHidden (reset t)
unfolding color background rgb bright italic underline reset visible visible_from
controls-IsHidden t code r g b is_bright is_background = (
  picked-IsHidden t.use_color _ (color-IsHidden code is_bright),
  picked-IsHidden t.use_color _ (sequence-IsHidden [] (code + 10) tt),
  picked-IsHidden t.use_color _ (rgb-IsHidden (rgb_code r g b) is_background),
  picked-IsHidden t.use_color _ (λ rest. refl),
  picked-IsHidden t.use_color _ (λ rest. refl),
  picked-IsHidden t.use_color _ (λ rest. refl),
  picked-IsHidden t.use_color _ (λ rest. refl),
)
