-- ===== src/StringUtils/Tests.antt =====
-- Random names, where the draws are 0, 1, 2 and so on, up to 61.
use http_audio_server.Common.{ℕ, ◌%◌, ◌≡◌, refl, some}
use http_audio_server.Common.Text.{codes}
use http_audio_server.StringUtils.{random_alphanum_string}

abbrev draws : ℕ → ℕ
draws k = k % 62

four_runs : random_alphanum_string draws 4 ≡ some (codes "0123            ")
unfolding random_alphanum_string
four_runs = refl
