-- ===== src/Logger.antt =====
-- http_audio_server/logger.hpp and logger.cpp: messages go to the backends that want their level,
-- and are counted for each level. A backend is a reference; what a call of `log` does to the
-- backends is the list of the calls made on them.
pub mod Line
pub mod Front
pub mod Class
pub mod Counts
pub mod Threads
pub mod Backends
mod Tests
use http_audio_server.Common.{
  ℕ, suc, ◌+◌, ◌-◌, ◌%◌, ◌^◌, Bool, true, false, Option, none, some, List, [], ◌∷◌, ◌++◌, length,
  get_elem?, set, ltb, leb, ◌==◌, if◌then◌else◌,
}
use http_audio_server.Common.Int.{ℤ, pos, negsuc, ◌+ℤ◌, ltb_ℤ, to_int, sub_ℕ}

pub data LogSeverity : Type 0 where
  debug info warning error fatal_error : LogSeverity

abbrev pub value : LogSeverity → ℕ
value debug = 10
value info = 20
value warning = 30
value error = 40
value fatal_error = 50

pub record Message : Type 0 where
  pub lvl : LogSeverity
  pub time : ℕ
  pub module_name : List ℕ
  pub message : List ℕ

-- A call of `log` on the backend `target`.
pub record Delivery : Type 0 where
  pub target : ℕ
  pub content : Message

-- `counts` is a `std::map`: its entries in the order of their keys.
pub record Logger : Type 0 where
  pub backends : List (ℕ × LogSeverity)
  pub counts : List (LogSeverity × ℕ)

unfoldable pub new_logger : Logger
new_logger = record { backends = []; counts = [] }

abbrev pub backend_count : Logger → ℕ
backend_count l = length l.backends

abbrev pub in_range : Logger → ℤ → Option ℕ
in_range l (negsuc n) = none
in_range l (pos n) = if ltb n (length l.backends) then some n else none

-- `none` is the exception of an index out of range.
unfoldable pub backend_idx : Logger → ℤ → Option ℕ
unfolding to_int
backend_idx l idx =
    in_range l (if ltb_ℤ idx (pos 0) then to_int (length l.backends) +ℤ idx else idx)

unfoldable pub add_backend : Logger → ℕ → LogSeverity → Logger × ℤ
unfolding to_int
add_backend l backend lvl =
    let backends = l.backends ++ (backend, lvl) ∷ [] in
    (record l { backends = backends }, to_int (length backends - 1))

abbrev pub with_level : LogSeverity → ℕ × LogSeverity → ℕ × LogSeverity
with_level lvl entry = (entry.0, lvl)

abbrev pub update : List (ℕ × LogSeverity) → ℕ → LogSeverity → List (ℕ × LogSeverity)
update backends i lvl = elim (get_elem? backends i) [
  | none ↦ backends
  | some entry ↦ set backends i (with_level lvl entry)
]

unfoldable pub set_min_level : Logger → LogSeverity → ℤ → Option Logger
set_min_level l lvl idx = elim (backend_idx l idx) [
  | none ↦ none
  | some i ↦ some (record l { backends = update l.backends i lvl })
]

abbrev pub level_of : Option (ℕ × LogSeverity) → Option LogSeverity
level_of none = none
level_of (some entry) = some (entry.1)

unfoldable pub min_level : Logger → ℤ → Option LogSeverity
min_level l idx = elim (backend_idx l idx) [
  | none ↦ none
  | some i ↦ level_of (get_elem? l.backends i)
]

-- `find` and the increment, or `emplace` at the place of the key.
unfoldable pub bump : List (LogSeverity × ℕ) → LogSeverity → List (LogSeverity × ℕ)
bump [] lvl = (lvl, 1) ∷ []
bump ((key, n) ∷ counts) lvl =
    let more = bump counts lvl in
    if value key == value lvl
    then (key, (n + 1) % 2 ^ 64) ∷ counts
    else if ltb (value lvl) (value key)
    then (lvl, 1) ∷ (key, n) ∷ counts
    else (key, n) ∷ more

-- The loop over the backends.
unfoldable pub deliver : List (ℕ × LogSeverity) → Message → List Delivery
deliver [] m = []
deliver ((backend, lvl) ∷ backends) m =
    let more = deliver backends m in
    if leb (value lvl) (value m.lvl) then record { target = backend; content = m } ∷ more else more

unfoldable pub log : Logger → Message → Logger × List Delivery
unfolding bump deliver
log l m = (record l { counts = bump l.counts m.lvl }, deliver l.backends m)

-- `lower_bound`: from the first key that is not less.
unfoldable pub lower_bound : List (LogSeverity × ℕ) → LogSeverity → List (LogSeverity × ℕ)
lower_bound [] lvl = []
lower_bound ((key, n) ∷ counts) lvl =
    let later = lower_bound counts lvl in
    if ltb (value key) (value lvl) then later else (key, n) ∷ counts

-- The sum, from `res`.
unfoldable pub sum_from : ℕ → List (LogSeverity × ℕ) → ℕ
sum_from res [] = res
sum_from res ((key, n) ∷ counts) = sum_from ((res + n) % 2 ^ 64) counts

unfoldable pub count : Logger → LogSeverity → ℕ
unfolding lower_bound sum_from
count l lvl = sum_from 0 (lower_bound l.counts lvl)

-- `global_logger()`, where `console` is the backend for `std::cout`.
unfoldable pub global_logger : ℕ → Logger → Logger
unfolding add_backend
global_logger console l = if length l.backends == 0 then (add_backend l console info).0 else l

-- A run of `log`.
unfoldable pub log_all : Logger → List Message → Logger × List Delivery
unfolding log
log_all l [] = (l, [])
log_all l (m ∷ ms) =
    let (l', calls) = log l m in let (l'', later) = log_all l' ms in (l'', calls ++ later)
