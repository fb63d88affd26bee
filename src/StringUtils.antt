-- ===== src/StringUtils.antt =====
-- http_audio_server/string_utils.cpp: random names.
pub mod Shape
mod Tests
use http_audio_server.Common.{
  ℕ, zero, suc, Option, none, some, List, [], ◌∷◌, ◌++◌, length, get_elem?, set, replicate, ltb,
  if◌then◌else◌,
}
use http_audio_server.Common.Text.{codes}

abbrev pub alphanum : List ℕ
alphanum = codes "0123456789ABCDEFGHIJKLMNOPQRSTUVWXYZabcdefghijklmnopqrstuvwxyz"

abbrev pub blank : ℕ
blank = 0x20

-- `res[i] = alphanum[n]`; `none` is an access out of bounds.
unfoldable pub put_char : List ℕ → ℕ → ℕ → Option (List ℕ)
put_char res i n = elim (get_elem? alphanum n) [
  | none ↦ none
  | some c ↦ if ltb i (length res) then some (set res i c) else none
]

-- The loop over i, for `count` more characters; `draw i` is the number drawn in round i.
unfoldable pub fill : (ℕ → ℕ) → ℕ → ℕ → List ℕ → Option (List ℕ)
fill draw zero i res = some res
fill draw (suc count) i res = elim (put_char res i (draw i)) [
  | none ↦ none
  | some res' ↦ fill draw count (suc i) res'
]

unfoldable pub random_alphanum_string : (ℕ → ℕ) → ℕ → Option (List ℕ)
unfolding put_char fill
random_alphanum_string draw len = fill draw len 0 (replicate 16 blank)
