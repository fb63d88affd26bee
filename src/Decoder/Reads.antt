-- ===== src/Decoder/Reads.antt =====
-- What `read` appends, and what it leaves.
use mathlib.Core.Path.{ap₂}
use http_audio_server.Common.{
  ℕ, ◌+◌, ◌-◌, ◌≡◌, refl, sym, ap, ◌∙◌, true, false, List, ◌++◌, length, take, drop, replicate, leb,
  if◌then◌else◌, arith, take-append, take_all, append-nil, append_assoc, length-append,
}
use http_audio_server.Pipe.{Source}
use http_audio_server.Decoder.{resize, read_into, read}

resize_grow : (tar : List ℕ) (n : ℕ) → resize tar (length tar + n) ≡ tar ++ replicate n 0
unfolding resize
resize_grow tar n =
    ap₂ ◌++◌ (take_all (length tar + n) tar (omega arith)) (ap (λ k. replicate k 0) (omega arith))

resize_shrink : (xs ys : List ℕ) (m : ℕ) → m ≡ length xs → resize (xs ++ ys) m ≡ xs
unfolding resize
resize_shrink xs ys m e =
    let none_left : m - length (xs ++ ys) ≡ 0 = omega (arith, length-append xs ys) in
    ap₂ ◌++◌ (take-append xs ys m e) (ap (λ k. replicate k 0) none_left) ∙ append-nil xs

-- The vector behind a read, for any text that was got.
resized :
    (tar got : List ℕ) (n : ℕ)
    → let filled =
        take (length tar) (resize tar (length tar + n))
        ++ (got ++ drop (length tar + length got) (resize tar (length tar + n))) in
      resize filled (length tar + length got) ≡ tar ++ got
resized tar got n =
    let grown = resize tar (length tar + n) in
    let rest = drop (length tar + length got) grown in
    ap (λ t. resize (t ++ (got ++ rest)) (length tar + length got))
      (ap (take (length tar)) (resize_grow tar n)
        ∙ take-append tar (replicate n 0) (length tar) refl)
    ∙ ap (λ t. resize t (length tar + length got)) (sym (append_assoc tar got rest))
    ∙ resize_shrink (tar ++ got) rest (length tar + length got) (sym (length-append tar got))

-- A read appends the next bytes of the source, at most n, and gives their number.
pub read_good :
    (is : Source) (n : ℕ) (tar : List ℕ)
    → is.good ≡ true
    → read is n tar ≡ (
      record { rest = drop n is.rest; good = leb n (length is.rest) },
      tar ++ take n is.rest,
      length (take n is.rest),
    )
unfolding read
read_good is n tar h =
    let after : Source = record { rest = drop n is.rest; good = leb n (length is.rest) } in
    let count = length (take n is.rest) in
    let (filled, is', n_bytes_read) = read_into (resize tar (length tar + n)) (length tar) n is in
    ap
      (λ b.
        if b
        then (is', resize filled (length tar + n_bytes_read), n_bytes_read)
        else (is, resize tar (length tar + 0), 0))
      h
    ∙ ap (λ t. (after, t, count)) (resized tar (take n is.rest) n)

-- A source that is no longer good gives nothing.
pub read_bad : (is : Source) (n : ℕ) (tar : List ℕ) → is.good ≡ false → read is n tar ≡ (is, tar, 0)
unfolding read
read_bad is n tar h =
    let (filled, is', n_bytes_read) = read_into (resize tar (length tar + n)) (length tar) n is in
    ap
      (λ b.
        if b
        then (is', resize filled (length tar + n_bytes_read), n_bytes_read)
        else (is, resize tar (length tar + 0), 0))
      h
    ∙ ap (λ t. (is, t, 0)) (resize_grow tar 0 ∙ append-nil tar)
