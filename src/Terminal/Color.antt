-- ===== src/Terminal/Color.antt =====
-- The colour constants of the class `Terminal`.
use http_audio_server.Common.{ℕ}

abbrev pub black : ℕ
black = 30

abbrev pub red : ℕ
red = 31

abbrev pub green : ℕ
green = 32

abbrev pub yellow : ℕ
yellow = 33

abbrev pub blue : ℕ
blue = 34

abbrev pub magenta : ℕ
magenta = 35

abbrev pub cyan : ℕ
cyan = 36

abbrev pub white : ℕ
white = 37
