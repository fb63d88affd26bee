-- ===== src/Pipe/Pieces.antt =====
-- How `generic_pipe` cuts a text: at each line break, and at 4096 bytes.
use http_audio_server.Common.{
  ℕ, ◌≤◌, ◌<◌, ◌≡◌, inl, inr, refl, sym, ap, ◌∙◌, Bool, false, ◌||◌, List, [], ◌∷◌, ◌++◌, length,
  ◌==◌, if◌then◌else◌, arith, length-append, append_assoc, Bool-cases, All, All-append,
}
use http_audio_server.Pipe.{buf_size, ends_line}

unfoldable pub last_piece : List ℕ → List (List ℕ)
last_piece [] = []
last_piece (b ∷ buf) = (b ∷ buf) ∷ []

-- The pieces of `rest`, where `buf` is read already.
unfoldable pub pieces : List ℕ → List ℕ → List (List ℕ)
unfolding last_piece
pieces buf [] = last_piece buf
pieces buf (c ∷ rest) =
    let buf' = buf ++ c ∷ [] in
    let cut = pieces [] rest in
    let longer = pieces buf' rest in
    if length buf' == buf_size || ends_line c then buf' ∷ cut else longer

unfoldable pub flatten : List (List ℕ) → List ℕ
flatten [] = []
flatten (p ∷ ps) = p ++ flatten ps

pub flatten-append : (ps qs : List (List ℕ)) → flatten (ps ++ qs) ≡ flatten ps ++ flatten qs
unfolding flatten
flatten-append [] qs = refl
flatten-append (p ∷ ps) qs =
    ap (◌++◌ p) (flatten-append ps qs) ∙ sym (append_assoc p (flatten ps) (flatten qs))

-- No byte is lost, added or moved.
pub flatten-pieces : (buf rest : List ℕ) → flatten (pieces buf rest) ≡ buf ++ rest
unfolding pieces flatten
flatten-pieces [] [] = refl
flatten-pieces (b ∷ buf) [] = refl
flatten-pieces buf (c ∷ rest) =
    elim (Bool-cases (length (buf ++ c ∷ []) == buf_size || ends_line c)) [
      | inl cut ↦
          rw cut
            (ap (◌++◌ (buf ++ c ∷ [])) (flatten-pieces [] rest) ∙ append_assoc buf (c ∷ []) rest)
      | inr longer ↦
          rw longer (flatten-pieces (buf ++ c ∷ []) rest ∙ append_assoc buf (c ∷ []) rest)
    ]

-- Every piece has 1 to 4096 bytes.
abbrev pub IsPiece : List ℕ → Type 0
IsPiece p = (0 < length p) × (length p ≤ buf_size)

-- A byte that does not fill the buffer leaves room for one more.
pub short :
    (buf : List ℕ) (c : ℕ)
    → length buf < buf_size
    → (length (buf ++ c ∷ []) == buf_size || ends_line c) ≡ false
    → length (buf ++ c ∷ []) < buf_size
short buf c h e = ground (arith, length-append buf (c ∷ []))

pub pieces-IsPiece : (buf rest : List ℕ) → length buf < buf_size → All IsPiece (pieces buf rest)
unfolding pieces
pieces-IsPiece [] [] h = tt
pieces-IsPiece (b ∷ buf) [] h = ((omega arith, omega arith), tt)
pieces-IsPiece buf (c ∷ rest) h =
    elim (Bool-cases (length (buf ++ c ∷ []) == buf_size || ends_line c)) [
      | inl cut ↦ rw cut (
        (omega (arith, length-append buf (c ∷ [])), omega (arith, length-append buf (c ∷ []))),
        pieces-IsPiece [] rest (omega arith),
      )
      | inr longer ↦ rw longer (pieces-IsPiece (buf ++ c ∷ []) rest (short buf c h longer))
    ]

-- No byte of a piece but its last one is a line break.
abbrev pub IsLine : List ℕ → Type 0
IsLine [] = Unit
IsLine (c ∷ []) = Unit
IsLine (c ∷ d ∷ cs) = (ends_line c ≡ false) × IsLine (d ∷ cs)

abbrev NoBreak : List ℕ → Type 0
NoBreak = All (λ c. ends_line c ≡ false)

IsLine-snoc : (buf : List ℕ) (c : ℕ) → NoBreak buf → IsLine (buf ++ c ∷ [])
IsLine-snoc [] c h = tt
IsLine-snoc (b ∷ []) c (h, _) = (h, tt)
IsLine-snoc (b ∷ d ∷ buf) c (h, hs) = (h, IsLine-snoc (d ∷ buf) c hs)

IsLine-of_NoBreak : (buf : List ℕ) → NoBreak buf → IsLine buf
IsLine-of_NoBreak [] h = tt
IsLine-of_NoBreak (c ∷ []) h = tt
IsLine-of_NoBreak (c ∷ d ∷ cs) (h, hs) = (h, IsLine-of_NoBreak (d ∷ cs) hs)

not_line : (full line : Bool) → (full || line) ≡ false → line ≡ false
not_line full line h = ground arith

pub pieces-IsLine : (buf rest : List ℕ) → NoBreak buf → All IsLine (pieces buf rest)
unfolding pieces
pieces-IsLine [] [] h = tt
pieces-IsLine (b ∷ buf) [] h = (IsLine-of_NoBreak (b ∷ buf) h, tt)
pieces-IsLine buf (c ∷ rest) h =
    elim (Bool-cases (length (buf ++ c ∷ []) == buf_size || ends_line c)) [
      | inl cut ↦ rw cut (IsLine-snoc buf c h, pieces-IsLine [] rest tt)
      | inr longer ↦ rw longer (
          pieces-IsLine (buf ++ c ∷ []) rest (
            All-append (λ x. ends_line x ≡ false) buf (c ∷ []) h
              (not_line (length (buf ++ c ∷ []) == buf_size) (ends_line c) longer, tt)))
    ]
