-- ===== src/Logger/Line.antt =====
-- http_audio_server/logger.cpp, `LogStreamBackendImpl::log`: a line of the log.
use http_audio_server.Common.{
  ℕ, ◌≡◌, refl, ap, ◌∙◌, Bool, true, false, List, [], ◌∷◌, ◌++◌, leb, ◌==◌, arith, if◌then◌else◌,
}
use http_audio_server.Common.Text.{codes}
use http_audio_server.Terminal.{Terminal, italic, reset, color}
use http_audio_server.Terminal.Color.{black, blue, magenta, red}
use http_audio_server.Terminal.Visible.{
  visible, visible_from, visible-IsPlain, IsPlain, controls-IsHidden,
}
use http_audio_server.Logger.{LogSeverity, debug, info, warning, error, fatal_error, value, Message}

unfoldable pub level_color : LogSeverity → ℕ
level_color lvl =
    if leb (value lvl) (value debug)
    then black
    else if leb (value lvl) (value info)
    then blue
    else if leb (value lvl) (value warning)
    then magenta
    else red

unfoldable pub level_name : LogSeverity → List ℕ
level_name lvl =
    if leb (value lvl) (value debug)
    then codes "debug"
    else if leb (value lvl) (value info)
    then codes "info"
    else if leb (value lvl) (value warning)
    then codes "warning"
    else if leb (value lvl) (value error)
    then codes "error"
    else codes "fatal error"

-- What is written for a message; `time_str` is the text that `strftime` makes of a time.
unfoldable pub stream_log : (ℕ → List ℕ) → Terminal → Message → List ℕ
unfolding level_color level_name
stream_log time_str t m =
    italic t
    ++ (time_str m.time
        ++ (reset t
            ++ (codes " ["
                ++ (m.module_name
                    ++ (codes "] "
                        ++ (color t (level_color m.lvl) true
                            ++ (level_name m.lvl
                                ++ (reset t ++ (codes ": " ++ (m.message ++ codes "\n"))))))))))

-- The line without its control strings.
unfoldable pub plain_line : (ℕ → List ℕ) → Message → List ℕ
unfolding level_name
plain_line time_str m =
    time_str m.time
    ++ (codes " ["
        ++ (m.module_name
            ++ (codes "] " ++ (level_name m.lvl ++ (codes ": " ++ (m.message ++ codes "\n"))))))

abbrev no_escape : List ℕ → Bool
no_escape [] = true
no_escape (c ∷ cs) = if c == 0x1b then false else no_escape cs

no_escape-IsPlain : (text : List ℕ) → no_escape text ≡ true → IsPlain text
no_escape-IsPlain [] h = tt
no_escape-IsPlain (c ∷ cs) h = (λ e. ground arith, no_escape-IsPlain cs (ground arith))

level_name-IsPlain : (lvl : LogSeverity) → IsPlain (level_name lvl)
unfolding level_name
level_name-IsPlain debug = no_escape-IsPlain (codes "debug") refl
level_name-IsPlain info = no_escape-IsPlain (codes "info") refl
level_name-IsPlain warning = no_escape-IsPlain (codes "warning") refl
level_name-IsPlain error = no_escape-IsPlain (codes "error") refl
level_name-IsPlain fatal_error = no_escape-IsPlain (codes "fatal error") refl

shown :
    (text rest seen : List ℕ)
    → IsPlain text
    → visible rest ≡ seen
    → visible (text ++ rest) ≡ text ++ seen
shown text rest seen h e = visible-IsPlain text rest h ∙ ap (λ z. text ++ z) e

newline : visible (codes "\n") ≡ codes "\n"
unfolding visible visible_from
newline = refl

-- With and without colours a line of the log reads the same, if the message, its module and the
-- time hold no escape character: the time, the module in brackets, the level and the message.
pub visible-stream_log :
    (time_str : ℕ → List ℕ) (t : Terminal) (m : Message)
    → IsPlain (time_str m.time)
    → IsPlain m.module_name
    → IsPlain m.message
    → visible (stream_log time_str t m) ≡ plain_line time_str m
unfolding stream_log plain_line
visible-stream_log time_str t m h k l =
    let (c, _, _, _, i, _, r) = controls-IsHidden t (level_color m.lvl) 0 0 0 true false in
    i _
    ∙ shown (time_str m.time) _ _ h (
        r _
        ∙ shown (codes " [") _ _ (no_escape-IsPlain (codes " [") refl) (
            shown m.module_name _ _ k (
              shown (codes "] ") _ _ (no_escape-IsPlain (codes "] ") refl) (
                c _
                ∙ shown (level_name m.lvl) _ _ (level_name-IsPlain m.lvl) (
                    r _
                    ∙ shown (codes ": ") _ _ (no_escape-IsPlain (codes ": ") refl)
                        (shown m.message (codes "\n") _ l newline))))))
