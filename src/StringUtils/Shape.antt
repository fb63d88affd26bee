-- ===== src/StringUtils/Shape.antt =====
-- What `random_alphanum_string` makes, for each length.
use mathlib.Core.Path.{ap₂}
use native.Mathlib.Decide.{ℕ_discrete}
use http_audio_server.Common.{
  ℕ, false, append-nil, zero, suc, ◌+◌, ◌-◌, ◌≤◌, ◌<◌, ◌≡◌, refl, sym, ap, ◌∙◌, Option, none, some,
  List, [], ◌∷◌, ◌++◌, length, get_elem?, set, replicate, ltb, if◌then◌else◌, All, arith, lt→ltb,
  append_assoc, length-append,
}
use http_audio_server.StringUtils.{alphanum, blank, put_char, fill, random_alphanum_string}

-- A character of the table.
abbrev pub IsAlphanum : ℕ → Type 0
IsAlphanum c = (n : ℕ) × (get_elem? alphanum n ≡ some c)

get_elem?-some :
    {A : Type 0} (xs : List A) (i : ℕ) → i < length xs → (x : A) × (get_elem? xs i ≡ some x)
get_elem?-some [] i h = absurd (omega arith)
get_elem?-some (y ∷ xs) zero h = (y, refl)
get_elem?-some (y ∷ xs) (suc i) h = get_elem?-some xs i (omega arith)

set_next :
    (done rest : List ℕ) (b c i : ℕ)
    → length done ≡ i
    → set (done ++ b ∷ rest) i c ≡ (done ++ c ∷ []) ++ rest
set_next [] rest b c zero h = refl
set_next [] rest b c (suc i) h = absurd (omega arith)
set_next (d ∷ done) rest b c zero h = absurd (omega arith)
set_next (d ∷ done) rest b c (suc i) h = ap (◌∷◌ d) (set_next done rest b c i (omega (arith, h)))

put_next :
    (done rest : List ℕ) (b i n c : ℕ)
    → length done ≡ i
    → get_elem? alphanum n ≡ some c
    → put_char (done ++ b ∷ rest) i n ≡ some ((done ++ c ∷ []) ++ rest)
unfolding put_char
put_next done rest b i n c h e =
    ap
      (λ o. elim o [
        | none ↦ none
        | some c' ↦
            if ltb i (length (done ++ b ∷ rest)) then some (set (done ++ b ∷ rest) i c') else none
      ])
      e
    ∙ ap (λ t. if t then some (set (done ++ b ∷ rest) i c) else none)
        (lt→ltb i (length (done ++ b ∷ rest)) (omega (arith, length-append done (b ∷ rest), h)))
    ∙ ap some (set_next done rest b c i h)

fill_lem :
    (draw : ℕ → ℕ) (count more i : ℕ) (done : List ℕ)
    → ((k : ℕ) → draw k < 62)
    → length done ≡ i
    → (name : List ℕ) × (fill draw count i (done ++ replicate (count + more) blank)
        ≡ some ((done ++ name) ++ replicate more blank))
      × (length name ≡ count)
      × All IsAlphanum name
unfolding fill
fill_lem draw zero more i done inside h =
    let same : 0 + more ≡ more = omega arith in
    (
      [],
      ap₂ (λ (a : List ℕ) (n : ℕ). some (a ++ replicate n blank)) (sym (append-nil done)) same,
      refl,
      tt,
    )
fill_lem draw (suc count) more i done inside h =
    let next : suc count + more ≡ suc (count + more) = omega arith in
    let (c, e) = get_elem?-some alphanum (draw i) (inside i) in
    let (name, run, size, all) =
      fill_lem draw count more (suc i) (done ++ c ∷ []) inside
        (omega (arith, length-append done (c ∷ []), h)) in
    (
      c ∷ name,
      ap (λ n. fill draw (suc count) i (done ++ replicate n blank)) next
          ∙ ap (λ o. elim o [ none ↦ none | some res ↦ fill draw count (suc i) res ])
              (put_next done (replicate (count + more) blank) blank i (draw i) c h e)
          ∙ run
          ∙ ap (λ a. some (a ++ replicate more blank)) (append_assoc done (c ∷ []) name),
      ap suc size,
      ((draw i, e), all),
    )

-- For a length up to 16 the result is 16 characters long: `len` characters of the table, and then
-- blanks, if all numbers drawn are below 62.
pub random_alphanum_string_lem :
    (draw : ℕ → ℕ) (len : ℕ)
    → ((k : ℕ) → draw k < 62)
    → len ≤ 16
    → (name : List ℕ) × (random_alphanum_string draw len
        ≡ some (name ++ replicate (16 - len) blank))
      × (length name ≡ len)
      × All IsAlphanum name
unfolding random_alphanum_string
random_alphanum_string_lem draw len inside h =
    let split : 16 ≡ len + (16 - len) = omega arith in
    let (name, run, size, all) = fill_lem draw len (16 - len) 0 [] inside refl in
    (name, ap (λ n. fill draw len 0 (replicate n blank)) split ∙ run, size, all)

length-set : (xs : List ℕ) (i c : ℕ) → length (set xs i c) ≡ length xs
length-set [] i c = refl
length-set (x ∷ xs) zero c = refl
length-set (x ∷ xs) (suc i) c = ap suc (length-set xs i c)

put_inside :
    (res : List ℕ) (i n : ℕ)
    → i < length res
    → n < 62
    → (res' : List ℕ) × (put_char res i n ≡ some res') × (length res' ≡ length res)
unfolding put_char
put_inside res i n h inside =
    let (c, e) = get_elem?-some alphanum n inside in
    (
      set res i c,
      ap
            (λ o. elim o [
              | none ↦ none
              | some c' ↦ if ltb i (length res) then some (set res i c') else none
            ])
            e
          ∙ ap (λ t. if t then some (set res i c) else none) (lt→ltb i (length res) h),
      length-set res i c,
    )

put_outside : (res : List ℕ) (i n : ℕ) → length res ≤ i → n < 62 → put_char res i n ≡ none
unfolding put_char
put_outside res i n h inside =
    let (c, e) = get_elem?-some alphanum n inside in
    let out : ltb i (length res) ≡ false = ground arith in
    ap
      (λ o. elim o [
        | none ↦ none
        | some c' ↦ if ltb i (length res) then some (set res i c') else none
      ])
      e
    ∙ ap (λ t. if t then some (set res i c) else none) out

fill_overrun :
    (draw : ℕ → ℕ) (count i : ℕ) (res : List ℕ)
    → ((k : ℕ) → draw k < 62)
    → length res < i + count
    → i ≤ length res
    → fill draw count i res ≡ none
unfolding fill
fill_overrun draw zero i res inside h k = absurd (omega arith)
fill_overrun draw (suc count) i res inside h k = elim (ℕ_discrete i (length res)) [
  | yes e ↦ ap go (put_outside res i (draw i) (omega (arith, e)) (inside i))
  | no n ↦
      let (res', run, size) = put_inside res i (draw i) (omega arith) (inside i) in
      ap go run
      ∙ fill_overrun draw count (suc i) res' inside (omega (arith, size)) (omega (arith, size))
]
  where
    go : Option (List ℕ) → Option (List ℕ)
    go o = elim o [ none ↦ none | some res' ↦ fill draw count (suc i) res' ]

-- A length above 16 leads to an access out of bounds.
pub random_alphanum_string-none :
    (draw : ℕ → ℕ) (len : ℕ)
    → ((k : ℕ) → draw k < 62)
    → 16 < len
    → random_alphanum_string draw len ≡ none
unfolding random_alphanum_string
random_alphanum_string-none draw len inside h =
    fill_overrun draw len 0 (replicate 16 blank) inside (omega arith) (omega arith)
