-- ===== src/Pipe/Copies.antt =====
-- `generic_pipe` writes the pieces of its input, each with a flush.
use http_audio_server.Common.{
  ℕ, suc, ◌≡◌, ◌⊎◌, inl, inr, refl, sym, ap, ◌∙◌, true, false, ◌||◌, List, [], ◌∷◌, ◌++◌, length,
  ltb, ◌==◌, if◌then◌else◌, arith, Bool-cases, subst, All, All-left,
}
use http_audio_server.Pipe.{
  buf_size, ends_line, Source, Ostream, put_out, take_byte, pipe_loop, put_rest, generic_pipe,
}
use http_audio_server.Pipe.Pieces.{
  pieces, last_piece, flatten, flatten-append, flatten-pieces, IsPiece, pieces-IsPiece, IsLine,
  pieces-IsLine,
}

not_empty : (n : ℕ) → ltb 0 (suc n) ≡ true
not_empty n = ground arith

flat_stop : {Q : Type 0} → (left : List (List ℕ)) → (left ≡ []) ⊎ Q → (flatten left ≡ []) ⊎ Q
unfolding flatten
flat_stop left (inl e) = inl (ap flatten e)
flat_stop left (inr q) = inr q

module _ {S : Type 0} (os : Ostream S) where
  unfoldable pub put_all : S → List (List ℕ) → S
  put_all o [] = o
  put_all o (p ∷ ps) = put_all (put_out os o p) ps

  -- From state `o` the pieces `done` are written, and `left` is not, since the output broke down.
  pub record Copies (o o' : S) (ps : List (List ℕ)) : Type 0 where
    pub done : List (List ℕ)
    pub left : List (List ℕ)
    pub split : ps ≡ done ++ left
    pub result : o' ≡ put_all o done
    pub stop : (left ≡ []) ⊎ (Ostream.good os o' ≡ false)

  put_rest_broken : (o : S) (buf : List ℕ) → Ostream.good os o ≡ false → put_rest os (o, buf) ≡ o
  unfolding put_rest
  put_rest_broken o buf h = ground arith

  stays :
      (o : S) (buf : List ℕ) (ps : List (List ℕ))
      → Ostream.good os o ≡ false
      → Copies o (put_rest os (o, buf)) ps
  unfolding put_all
  stays o buf ps broken =
      let same = put_rest_broken o buf broken in
      record {
        done = [];
        left = ps;
        split = refl;
        result = same;
        stop = inr (ap (Ostream.good os) same ∙ broken);
      }

  take_byte_cut :
      (o : S) (buf : List ℕ) (c : ℕ)
      → (length (buf ++ c ∷ []) == buf_size || ends_line c) ≡ true
      → take_byte os o buf c ≡ (put_out os o (buf ++ c ∷ []), [])
  unfolding take_byte
  take_byte_cut o buf c h = rw h

  take_byte_longer :
      (o : S) (buf : List ℕ) (c : ℕ)
      → (length (buf ++ c ∷ []) == buf_size || ends_line c) ≡ false
      → take_byte os o buf c ≡ (o, buf ++ c ∷ [])
  unfolding take_byte
  take_byte_longer o buf c h = rw h

  put_rest-Copies : (o : S) (buf : List ℕ) → Copies o (put_rest os (o, buf)) (last_piece buf)
  unfolding put_rest put_all last_piece
  put_rest-Copies o [] = record {
    done = [];
    left = [];
    split = refl;
    result = refl;
    stop = inl refl;
  }
  put_rest-Copies o (b ∷ buf) = elim (Bool-cases (Ostream.good os o)) [
    | inl fine ↦
        rw (fine, not_empty (length buf))
          (record {
            done = (b ∷ buf) ∷ [];
            left = [];
            split = refl;
            result = refl;
            stop = inl refl;
          })
    | inr broken ↦ stays o (b ∷ buf) ((b ∷ buf) ∷ []) broken
  ]

  Copies-cons :
      (o o' : S) (p : List ℕ) (ps : List (List ℕ))
      → Copies (put_out os o p) o' ps
      → Copies o o' (p ∷ ps)
  unfolding put_all
  Copies-cons o o' p ps h = record {
    done = p ∷ h.done;
    left = h.left;
    split = ap (◌∷◌ p) h.split;
    result = h.result;
    stop = h.stop;
  }

  pub pipe_loop-Copies :
      (rest : List ℕ) (o : S) (buf : List ℕ)
      → Copies o (put_rest os (pipe_loop os true rest o buf)) (pieces buf rest)
  unfolding pipe_loop pieces
  pipe_loop-Copies [] o buf = put_rest-Copies o buf
  pipe_loop-Copies (c ∷ rest) o buf = elim (Bool-cases (Ostream.good os o)) [
    | inl fine ↦ rw fine (elim (Bool-cases (length (buf ++ c ∷ []) == buf_size || ends_line c)) [
      | inl cut ↦ rw cut (
          rw (take_byte_cut o buf c cut) (
            Copies-cons o _ (buf ++ c ∷ []) (pieces [] rest)
              (pipe_loop-Copies rest (put_out os o (buf ++ c ∷ [])) [])))
      | inr longer ↦
          rw longer (rw (take_byte_longer o buf c longer) (pipe_loop-Copies rest o (buf ++ c ∷ [])))
    ])
    | inr broken ↦
        subst
          (λ b.
            Copies o
              (put_rest os (
                if b
                then pipe_loop os true rest (take_byte os o buf c).0 (take_byte os o buf c).1
                else (o, buf)))
              (pieces buf (c ∷ rest)))
          (sym broken) (stays o buf (pieces buf (c ∷ rest)) broken)
  ]

  -- From a good source, `generic_pipe` writes the pieces of the source one by one, and stops early
  -- only when the output is no longer good.
  pub generic_pipe-Copies :
      (source : Source) (o : S)
      → source.good ≡ true
      → Copies o (generic_pipe os source o) (pieces [] source.rest)
  unfolding generic_pipe
  generic_pipe-Copies source o h =
      subst (λ b. Copies o (put_rest os (pipe_loop os b source.rest o [])) (pieces [] source.rest))
        (sym h) (pipe_loop-Copies source.rest o [])

  -- What `generic_pipe` does to an output: the writes, and the bytes that are not written.
  pub record Piped (source : Source) (o o' : S) : Type 0 where
    pub writes : List (List ℕ)
    pub lost : List ℕ
    pub bytes_eq : source.rest ≡ flatten writes ++ lost
    pub result : o' ≡ put_all o writes
    pub all_pieces : All IsPiece writes
    pub all_lines : All IsLine writes
    pub stop : (lost ≡ []) ⊎ (Ostream.good os o' ≡ false)

  pub generic_pipe-Piped :
      (source : Source) (o : S) → source.good ≡ true → Piped source o (generic_pipe os source o)
  generic_pipe-Piped source o h =
      let p = generic_pipe-Copies source o h in
      record {
        writes = p.done;
        lost = flatten p.left;
        bytes_eq =
            sym (flatten-pieces [] source.rest) ∙ ap flatten p.split ∙ flatten-append p.done p.left;
        result = p.result;
        all_pieces =
            All-left IsPiece p.done p.left
              (subst (All IsPiece) p.split (pieces-IsPiece [] source.rest (omega arith)));
        all_lines =
            All-left IsLine p.done p.left
              (subst (All IsLine) p.split (pieces-IsLine [] source.rest tt));
        stop = flat_stop p.left p.stop;
      }
