-- ===== src/Stream/Wire.antt =====
-- The body of an answer of `advance`: two segments, each with its name and size. The client
-- (static/index.html) takes them apart again.
use http_audio_server.Common.{
  ℕ, ◌%◌, ◌^◌, ◌<◌, ◌≡◌, refl, sym, append-nil, ap, ◌∙◌, List, [], ◌∷◌, ◌++◌, length, take, drop,
  take-append, drop-append, arith,
}
use http_audio_server.Common.Bytes.{to_bytes, of_bytes, of_bytes-to_bytes}
use http_audio_server.Common.Text.{codes}
use http_audio_server.Json.{JsonLib, array}
use http_audio_server.Stream.Env.{World}
use http_audio_server.Stream.{Round, segment, items, output}

-- One segment, as `size = Uint32(buf[4..8]); data = buf[8..8 + size]`, and the rest.
abbrev pub name_of : List ℕ → List ℕ
name_of buf = take 4 buf

abbrev pub size_of : List ℕ → ℕ
size_of buf = of_bytes (take 4 (drop 4 buf))

abbrev pub data_of : List ℕ → List ℕ
data_of buf = take (size_of buf) (drop 8 buf)

abbrev pub rest_of : List ℕ → List ℕ
rest_of buf = drop (size_of buf) (drop 8 buf)

-- Parsing a segment in front of any text gives its name, its bytes and that text, if the name has
-- four bytes and the size fits 32 bits.
pub segment_parts :
    (a b c d : ℕ) (bytes rest : List ℕ)
    → length bytes < 2 ^ 32
    → let buf = segment (a ∷ b ∷ c ∷ d ∷ []) bytes ++ rest in
      (name_of buf ≡ a ∷ b ∷ c ∷ d ∷ []) × (data_of buf ≡ bytes) × (rest_of buf ≡ rest)
unfolding segment to_bytes
segment_parts a b c d bytes rest h = (
  refl,
  ap (λ k. take k (bytes ++ rest)) size ∙ take-append bytes rest (length bytes) refl,
  ap (λ k. drop k (bytes ++ rest)) size ∙ drop-append bytes rest (length bytes) refl,
)
  where
    size : of_bytes (to_bytes 4 (length bytes % 2 ^ 32)) ≡ length bytes
    size = of_bytes-to_bytes 4 (length bytes % 2 ^ 32) (omega arith) ∙ omega arith

-- The client takes the body of an answer of `advance` apart into the text of the metadata and the
-- data, with nothing left, if both are shorter than 2 ^ 32 bytes.
pub output_parts :
    (w : World) (r : Round w)
    → let text = JsonLib.dump (World.lib w) (array (items w r.metadata)) in
      length text < 2 ^ 32
      → length r.out < 2 ^ 32
      → let buf = output w r in
        (name_of buf ≡ codes "meta")
        × (data_of buf ≡ text)
        × (name_of (rest_of buf) ≡ codes "data")
        × (data_of (rest_of buf) ≡ r.out)
        × (rest_of (rest_of buf) ≡ [])
unfolding output
output_parts w r h k =
    let text = JsonLib.dump (World.lib w) (array (items w r.metadata)) in
    let (meta, first, next) =
      segment_parts b'm' b'e' b't' b'a' text (segment (codes "data") r.out) h in
    let (name, second, last) = segment_parts b'd' b'a' b't' b'a' r.out [] k in
    let behind : rest_of (output w r) ≡ segment (codes "data") r.out ++ [] =
      next ∙ sym (append-nil (segment (codes "data") r.out)) in
    (meta, first, ap name_of behind ∙ name, ap data_of behind ∙ second, ap rest_of behind ∙ last)
