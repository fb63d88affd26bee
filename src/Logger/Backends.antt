-- ===== src/Logger/Backends.antt =====
-- The backends of a logger: their levels, and the messages that they get.
use http_audio_server.Common.{
  ℕ, zero, suc, ◌+◌, ◌-◌, ◌^◌, ◌<◌, ◌≡◌, ◌≢◌, refl, sym, ap, ◌∙◌, Option, some, none, List, [], ◌∷◌,
  ◌++◌, length, get_elem?, set, All, leb, ◌==◌, if◌then◌else◌, arith, Bool-cases, inl, inr,
  length-append, ==_ne, ==_self,
}
use mathlib.Core.Path.{ap₂}
use http_audio_server.Common.Int.{to_int, pos, negsuc, ◌+ℤ◌}
use http_audio_server.Logger.{
  LogSeverity, value, Message, Delivery, Logger, backend_idx, with_level, update, level_of,
  add_backend, set_min_level, min_level, deliver, log, log_all,
}

-- The messages that a backend gets.
unfoldable pub delivered : ℕ → List Delivery → List Message
delivered r [] = []
delivered r (d ∷ ds) = let more = delivered r ds in if d.target == r then d.content ∷ more else more

-- The messages of a level or a higher one.
unfoldable pub wanted : LogSeverity → List Message → List Message
wanted lvl [] = []
wanted lvl (m ∷ ms) =
    let more = wanted lvl ms in if leb (value lvl) (value m.lvl) then m ∷ more else more

abbrev pub IsNot : ℕ → ℕ × LogSeverity → Type 0
IsNot r entry = entry.0 ≢ r

delivered-append :
    (r : ℕ) (ds es : List Delivery) → delivered r (ds ++ es) ≡ delivered r ds ++ delivered r es
unfolding delivered
delivered-append r [] es = refl
delivered-append r (d ∷ ds) es = elim (Bool-cases (d.target == r)) [
  | inl e ↦ rw e (ap (◌∷◌ d.content) (delivered-append r ds es))
  | inr e ↦ rw e (delivered-append r ds es)
]

deliver_others :
    (r : ℕ) (backends : List (ℕ × LogSeverity)) (m : Message)
    → All (IsNot r) backends
    → delivered r (deliver backends m) ≡ []
unfolding delivered deliver
deliver_others r [] m h = refl
deliver_others r ((b, lvl) ∷ backends) m (h, hs) =
    elim (Bool-cases (leb (value lvl) (value m.lvl))) [
      | inl e ↦ rw (e, ==_ne b r h) (deliver_others r backends m hs)
      | inr e ↦ rw e (deliver_others r backends m hs)
    ]

module _ (r : ℕ) (lvl : LogSeverity) (after : List (ℕ × LogSeverity))
    (hs : All (IsNot r) after) where
  deliver_one :
      (before : List (ℕ × LogSeverity)) (m : Message)
      → All (IsNot r) before
      → delivered r (deliver (before ++ (r, lvl) ∷ after) m) ≡ wanted lvl (m ∷ [])
  unfolding delivered deliver wanted
  deliver_one [] m h = elim (Bool-cases (leb (value lvl) (value m.lvl))) [
    | inl e ↦ rw (e, ==_self r) (ap (◌∷◌ m) (deliver_others r after m hs))
    | inr e ↦ rw e (deliver_others r after m hs)
  ]
  deliver_one ((b, k) ∷ before) m (h, h') = elim (Bool-cases (leb (value k) (value m.lvl))) [
    | inl e ↦ rw (e, ==_ne b r h) (deliver_one before m h')
    | inr e ↦ rw e (deliver_one before m h')
  ]

wanted-cons :
    (lvl : LogSeverity) (m : Message) (ms : List Message)
    → wanted lvl (m ∷ ms) ≡ wanted lvl (m ∷ []) ++ wanted lvl ms
unfolding wanted
wanted-cons lvl m ms = elim (Bool-cases (leb (value lvl) (value m.lvl))) [
  | inl e ↦ rw e refl
  | inr e ↦ rw e refl
]

nothing : (r : ℕ) (lvl : LogSeverity) → delivered r [] ≡ wanted lvl []
unfolding delivered wanted
nothing r lvl = refl

-- A backend that is listed once gets, in a run of `log`, the messages of its level or a higher one,
-- each once and in their order.
pub delivered-log_all :
    (l : Logger) (ms : List Message) (r : ℕ) (lvl : LogSeverity)
    (before after : List (ℕ × LogSeverity))
    → l.backends ≡ before ++ (r, lvl) ∷ after
    → All (IsNot r) before
    → All (IsNot r) after
    → delivered r (log_all l ms).1 ≡ wanted lvl ms
unfolding log_all log
delivered-log_all l [] r lvl before after e h hs = nothing r lvl
delivered-log_all l (m ∷ ms) r lvl before after e h hs =
    delivered-append r (deliver l.backends m) _
    ∙ ap₂ ◌++◌ (ap (λ b. delivered r (deliver b m)) e ∙ deliver_one r lvl after hs before m h)
        (delivered-log_all (log l m).0 ms r lvl before after e h hs)
    ∙ sym (wanted-cons lvl m ms)

pub backend_idx-pos : (l : Logger) (i : ℕ) → i < length l.backends → backend_idx l (pos i) ≡ some i
unfolding backend_idx
backend_idx-pos l i h = ground arith

pub backend_idx-negsuc :
    (l : Logger) (i : ℕ)
    → i < length l.backends
    → length l.backends < 2 ^ 31
    → backend_idx l (negsuc (length l.backends - 1 - i)) ≡ some i
unfolding backend_idx to_int ◌+ℤ◌
backend_idx-negsuc l i h fits = ground arith

get_elem?-set :
    {A : Type 0} (xs : List A) (i : ℕ) (x : A) → i < length xs → get_elem? (set xs i x) i ≡ some x
get_elem?-set [] i x h = absurd (omega arith)
get_elem?-set (y ∷ xs) zero x h = refl
get_elem?-set (y ∷ xs) (suc i) x h = get_elem?-set xs i x (omega arith)

get_elem?-set_other :
    {A : Type 0} (xs : List A) (i j : ℕ) (x : A) → j ≢ i → get_elem? (set xs i x) j ≡ get_elem? xs j
get_elem?-set_other [] i j x h = refl
get_elem?-set_other (y ∷ xs) zero zero x h = absurd (h refl)
get_elem?-set_other (y ∷ xs) zero (suc j) x h = refl
get_elem?-set_other (y ∷ xs) (suc i) zero x h = refl
get_elem?-set_other (y ∷ xs) (suc i) (suc j) x h = get_elem?-set_other xs i j x (λ e. h (ap suc e))

length-set : {A : Type 0} (xs : List A) (i : ℕ) (x : A) → length (set xs i x) ≡ length xs
length-set [] i x = refl
length-set (y ∷ xs) zero x = refl
length-set (y ∷ xs) (suc i) x = ap suc (length-set xs i x)

get_elem?-some :
    {A : Type 0} (xs : List A) (i : ℕ) → i < length xs → (x : A) × (get_elem? xs i ≡ some x)
get_elem?-some [] i h = absurd (omega arith)
get_elem?-some (y ∷ xs) zero h = (y, refl)
get_elem?-some (y ∷ xs) (suc i) h = get_elem?-some xs i (omega arith)

update_lem :
    (backends : List (ℕ × LogSeverity)) (i : ℕ) (lvl : LogSeverity)
    → i < length backends
    → (entry : ℕ × LogSeverity) × (get_elem? backends i ≡ some entry)
      × (update backends i lvl ≡ set backends i (entry.0, lvl))
update_lem backends i lvl h =
    let (entry, e) = get_elem?-some backends i h in
    (entry, e, ap (λ o. elim o [ none ↦ backends | some x ↦ set backends i (with_level lvl x) ]) e)

-- Setting the level of a backend, by its index or by the negative one that counts from the end,
-- gives the same logger, which has that level there; all other entries are as before.
pub min_level-set_min_level :
    (l : Logger) (i j : ℕ) (lvl : LogSeverity)
    → i < length l.backends
    → length l.backends < 2 ^ 31
    → j ≢ i
    → (l' : Logger) × (set_min_level l lvl (pos i) ≡ some l')
      × (set_min_level l lvl (negsuc (length l.backends - 1 - i)) ≡ some l')
      × (min_level l' (pos i) ≡ some lvl)
      × (get_elem? l'.backends j ≡ get_elem? l.backends j)
      × (l'.counts ≡ l.counts)
unfolding set_min_level min_level
min_level-set_min_level l i j lvl h fits other =
    let (entry, e, f) = update_lem l.backends i lvl h in
    let l' : Logger = record l { backends = update l.backends i lvl } in
    let size : length l'.backends ≡ length l.backends =
      ap length f ∙ length-set l.backends i (entry.0, lvl) in
    let found : Option ℕ → Option Logger = λ o. elim o [
      | none ↦ none
      | some k ↦ some (record l { backends = update l.backends k lvl })
    ] in
    (
      l',
      ap found (backend_idx-pos l i h),
      ap found (backend_idx-negsuc l i h fits),
      ap (λ o. elim o [ none ↦ none | some k ↦ level_of (get_elem? l'.backends k) ])
            (backend_idx-pos l' i (omega (arith, size)))
          ∙ ap (λ b. level_of (get_elem? b i)) f
          ∙ ap level_of (get_elem?-set l.backends i (entry.0, lvl) h),
      ap (λ b. get_elem? b j) f ∙ get_elem?-set_other l.backends i j (entry.0, lvl) other,
      refl,
    )

get_elem?-last : {A : Type 0} (xs : List A) (x : A) → get_elem? (xs ++ x ∷ []) (length xs) ≡ some x
get_elem?-last [] x = refl
get_elem?-last (y ∷ xs) x = get_elem?-last xs x

to_int_small : (n : ℕ) → n < 2 ^ 31 → to_int n ≡ pos n
unfolding to_int
to_int_small n h = ground arith

-- Behind `add_backend` the returned index and the index -1 both name the new backend, whose level
-- is the one given.
pub min_level-add_backend :
    (l : Logger) (backend : ℕ) (lvl : LogSeverity)
    → length l.backends + 1 < 2 ^ 31
    → let (l', i) = add_backend l backend lvl in
      (min_level l' i ≡ some lvl) × (min_level l' (negsuc 0) ≡ some lvl)
unfolding add_backend min_level
min_level-add_backend l backend lvl h =
    let backends : List (ℕ × LogSeverity) = l.backends ++ (backend, lvl) ∷ [] in
    let l' : Logger = record l { backends = backends } in
    let n : ℕ = length l.backends in
    let size : length backends ≡ n + 1 =
      length-append l.backends ((backend, lvl) ∷ []) ∙ omega arith in
    let found : Option ℕ → Option LogSeverity =
      λ o. elim o [ none ↦ none | some k ↦ level_of (get_elem? backends k) ] in
    let last : level_of (get_elem? backends n) ≡ some lvl =
      ap level_of (get_elem?-last l.backends (backend, lvl)) in
    let here : length backends - 1 ≡ n = omega (arith, size) in
    let zeroth : length backends - 1 - n ≡ 0 = omega (arith, size) in
    (
      ap (λ i. found (backend_idx l' i))
            (to_int_small (length backends - 1) (omega (arith, size)) ∙ ap pos here)
          ∙ ap found (backend_idx-pos l' n (omega (arith, size)))
          ∙ last,
      ap (λ k. found (backend_idx l' (negsuc k))) (sym zeroth)
          ∙ ap found (backend_idx-negsuc l' n (omega (arith, size)) (omega (arith, size)))
          ∙ last,
    )
