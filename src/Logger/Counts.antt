-- ===== src/Logger/Counts.antt =====
-- The counts of a logger count its messages.
use http_audio_server.Common.{
  ℕ, ◌+◌, ◌%◌, ◌^◌, ◌≤◌, ◌<◌, ◌≡◌, refl, ◌∙◌, Bool, true, false, List, [], ◌∷◌, All, ltb, leb, ◌==◌,
  if◌then◌else◌, arith, Bool-cases, inl, inr, ltb→lt, le→leb,
}
use http_audio_server.Logger.{
  LogSeverity, value, Message, Logger, bump, log, log_all, lower_bound, sum_from, count,
}

-- The entries stand in the order of their keys.
unfoldable pub Sorted : List (LogSeverity × ℕ) → Type 0
Sorted [] = Unit
Sorted ((key, n) ∷ counts) = All (λ e. value key < value (e.0)) counts × Sorted counts

abbrev one_if : Bool → ℕ
one_if b = if b then 1 else 0

-- How many of the messages have the level or a higher one.
unfoldable pub at_least : LogSeverity → List Message → ℕ
at_least lvl [] = 0
at_least lvl (m ∷ ms) = one_if (leb (value lvl) (value m.lvl)) + at_least lvl ms

-- The sum over all entries with the level or a higher one.
unfoldable pub total : LogSeverity → List (LogSeverity × ℕ) → ℕ
total lvl [] = 0
total lvl ((key, n) ∷ counts) =
    let more = total lvl counts in if leb (value lvl) (value key) then n + more else more

sum_from-total :
    (lvl : LogSeverity) (res : ℕ) (counts : List (LogSeverity × ℕ))
    → All (λ e. value lvl ≤ value (e.0)) counts
    → res < 2 ^ 64
    → sum_from res counts ≡ (res + total lvl counts) % 2 ^ 64
unfolding sum_from total
sum_from-total lvl res [] h r = omega arith
sum_from-total lvl res ((key, n) ∷ counts) (h, hs) r =
    rw (le→leb (value lvl) (value key) h)
      (sum_from-total lvl ((res + n) % 2 ^ 64) counts hs (omega arith) ∙ omega arith)

total_same :
    (v a b n more : ℕ)
    → (a == b) ≡ true
    → (if leb v a then (n + 1) % 2 ^ 64 + more else more) % 2 ^ 64
      ≡ ((if leb v a then n + more else more) + one_if (leb v b)) % 2 ^ 64
total_same v a b n more e = ground arith

total_new :
    (b : Bool) (more : ℕ) → (if b then 1 + more else more) % 2 ^ 64 ≡ (more + one_if b) % 2 ^ 64
total_new true more = omega arith
total_new false more = omega arith

total_later :
    (a b : Bool) (n more more' : ℕ)
    → more' % 2 ^ 64 ≡ (more + one_if b) % 2 ^ 64
    → (if a then n + more' else more') % 2 ^ 64
      ≡ ((if a then n + more else more) + one_if b) % 2 ^ 64
total_later true b n more more' e = omega (arith, e)
total_later false b n more more' e = e

bump-total :
    (lvl k : LogSeverity) (counts : List (LogSeverity × ℕ))
    → total lvl (bump counts k) % 2 ^ 64
      ≡ (total lvl counts + one_if (leb (value lvl) (value k))) % 2 ^ 64
unfolding bump total
bump-total lvl k [] = total_new (leb (value lvl) (value k)) 0
bump-total lvl k ((key, n) ∷ counts) = elim (Bool-cases (value key == value k)) [
  | inl same ↦ rw same (total_same (value lvl) (value key) (value k) n (total lvl counts) same)
  | inr other ↦ rw other (elim (Bool-cases (ltb (value k) (value key))) [
    | inl before ↦ rw before (total_new (leb (value lvl) (value k)) _)
    | inr behind ↦ rw behind (
        total_later (leb (value lvl) (value key)) _ n (total lvl counts) (total lvl (bump counts k))
          (bump-total lvl k counts))
  ])
]

above_later :
    (k key : LogSeverity) (counts : List (LogSeverity × ℕ))
    → value k ≤ value key
    → All (λ e. value key < value (e.0)) counts
    → All (λ e. value k ≤ value (e.0)) counts
above_later k key [] h hs = tt
above_later k key (e ∷ counts) h (h', hs) = (omega arith, above_later k key counts h hs)

lower_bound-total :
    (lvl : LogSeverity) (counts : List (LogSeverity × ℕ))
    → total lvl (lower_bound counts lvl) ≡ total lvl counts
unfolding lower_bound total
lower_bound-total lvl [] = refl
lower_bound-total lvl ((key, n) ∷ counts) = ground (arith, lower_bound-total lvl counts)

lower_bound-All :
    (lvl : LogSeverity) (counts : List (LogSeverity × ℕ))
    → Sorted counts
    → All (λ e. value lvl ≤ value (e.0)) (lower_bound counts lvl)
unfolding lower_bound Sorted
lower_bound-All lvl [] h = tt
lower_bound-All lvl ((key, n) ∷ counts) (h, hs) = elim (Bool-cases (ltb (value key) (value lvl))) [
  | inl low ↦ rw low (lower_bound-All lvl counts hs)
  | inr high ↦ rw high (not_less high, above_later lvl key counts (not_less high) h)
]
  where
    not_less : ltb (value key) (value lvl) ≡ false → value lvl ≤ value key
    not_less e = ground arith

bump-All :
    (j : ℕ) (counts : List (LogSeverity × ℕ)) (k : LogSeverity)
    → j < value k
    → All (λ e. j < value (e.0)) counts
    → All (λ e. j < value (e.0)) (bump counts k)
unfolding bump
bump-All j [] k h hs = (h, tt)
bump-All j ((key, n) ∷ counts) k h (h', hs) = elim (Bool-cases (value key == value k)) [
  | inl same ↦ rw same (h', hs)
  | inr other ↦ rw other (elim (Bool-cases (ltb (value k) (value key))) [
    | inl before ↦ rw before (h, (h', hs))
    | inr behind ↦ rw behind (h', bump-All j counts k h hs)
  ])
]

pub bump-Sorted :
    (counts : List (LogSeverity × ℕ)) (k : LogSeverity) → Sorted counts → Sorted (bump counts k)
unfolding bump Sorted
bump-Sorted [] k h = (tt, tt)
bump-Sorted ((key, n) ∷ counts) k (h, hs) = elim (Bool-cases (value key == value k)) [
  | inl same ↦ rw same (h, hs)
  | inr other ↦ rw other (elim (Bool-cases (ltb (value k) (value key))) [
    | inl before ↦
        rw before ((ltb→lt _ _ before, All_less k key counts (ltb→lt _ _ before) h), (h, hs))
    | inr behind ↦
        rw behind (bump-All (value key) counts k (greater other behind) h, bump-Sorted counts k hs)
  ])
]
  where
    greater :
        (value key == value k) ≡ false → ltb (value k) (value key) ≡ false → value key < value k
    greater e f = ground arith

    All_less :
        (k key : LogSeverity) (counts : List (LogSeverity × ℕ))
        → value k < value key
        → All (λ e. value key < value (e.0)) counts
        → All (λ e. value k < value (e.0)) counts
    All_less k key [] h hs = tt
    All_less k key (e ∷ counts) h (h', hs) = (omega arith, All_less k key counts h hs)

pub count-total :
    (l : Logger) (lvl : LogSeverity) → Sorted l.counts → count l lvl ≡ total lvl l.counts % 2 ^ 64
unfolding count
count-total l lvl h =
    sum_from-total lvl 0 (lower_bound l.counts lvl) (lower_bound-All lvl l.counts h) (omega arith)
    ∙ omega (arith, lower_bound-total lvl l.counts)

log_all-total :
    (l : Logger) (ms : List Message) (lvl : LogSeverity)
    → Sorted l.counts
    → Sorted (log_all l ms).0.counts
      × (total lvl (log_all l ms).0.counts % 2 ^ 64
          ≡ (total lvl l.counts + at_least lvl ms) % 2 ^ 64)
unfolding log_all log at_least
log_all-total l [] lvl h = (h, omega arith)
log_all-total l (m ∷ ms) lvl h =
    let (s, e) = log_all-total (log l m).0 ms lvl (bump-Sorted l.counts m.lvl h) in
    (s, omega (arith, e, bump-total lvl m.lvl l.counts))

-- After any run of `log`, the count for a level has grown by the number of messages at that level
-- or a higher one, in 64 bits.
pub count-log_all :
    (l : Logger) (ms : List Message) (lvl : LogSeverity)
    → Sorted l.counts
    → count (log_all l ms).0 lvl ≡ (count l lvl + at_least lvl ms) % 2 ^ 64
count-log_all l ms lvl h =
    let (s, e) = log_all-total l ms lvl h in
    omega (arith, count-total (log_all l ms).0 lvl s, count-total l lvl h, e)
