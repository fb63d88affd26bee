-- ===== src/Handlers/Index.antt =====
-- The page is sent whole: `generic_pipe` writes to a response, and no flush ends the body early.
use mathlib.Core.Path.{ap₂}
use http_audio_server.Common.{
  ℕ, ◌+◌, ◌≤◌, ◌≡◌, ◌⊎◌, inl, inr, refl, sym, ap, ◌∙◌, subst, true, false, List, [], ◌∷◌, ◌++◌,
  length, All, arith, lt→ltb, append-nil, append_assoc, length-append, map, replicate,
  if◌then◌else◌,
}
use http_audio_server.Common.Text.{codes}
use http_audio_server.Response.{
  Call, send_head, send_chunk, Response, ok, new_response, buf_capacity, sputc, write, flush, sync,
  header, stream, extra_headers, destroy,
}
use http_audio_server.Response.Chunks.{payload, IsData}
use http_audio_server.Response.Wire.{Ends}
use http_audio_server.Pipe.{Source, put_out, generic_pipe}
use http_audio_server.Pipe.Pieces.{flatten, IsPiece}
use http_audio_server.Pipe.Copies.{put_all, generic_pipe-Piped}
use http_audio_server.Handlers.{response_stream, handle_index}

write_short :
    (r : Response) (text : List ℕ)
    → length r.pending + length text ≤ buf_capacity
    → write r text ≡ record r { pending = r.pending ++ text }
unfolding write sputc
write_short r [] h = ap (λ (p : List ℕ). record r { pending = p }) (sym (append-nil r.pending))
write_short r (ch ∷ text) h =
    ap
      (λ b.
        write
          (if b
            then record r { pending = r.pending ++ ch ∷ [] }
            else sync (record r { pending = r.pending ++ ch ∷ [] }))
          text)
      (lt→ltb (length r.pending) buf_capacity (omega arith))
    ∙ write_short (record r { pending = r.pending ++ ch ∷ [] }) text
        (omega (arith, length-append r.pending (ch ∷ [])))
    ∙ ap (λ (p : List ℕ). record r { pending = p }) (append_assoc r.pending (ch ∷ []) text)

-- The response behind a run of writes with flushes.
abbrev sent : Response → List (List ℕ) → Response
sent r ps = record {
  calls = r.calls ++ map send_chunk ps;
  pending = [];
  header_sent = r.header_sent;
}

put_piece :
    (r : Response) (p : List ℕ)
    → r.pending ≡ []
    → IsPiece p
    → put_out response_stream r p ≡ sent r (p ∷ [])
unfolding put_out flush sync
put_piece r p e (_, h) =
    ap flush
      (write_short r p (omega (arith, ap length e)) ∙ ap (λ q. record r { pending = q ++ p }) e)

put_all-sent :
    (ps : List (List ℕ)) (r : Response)
    → r.pending ≡ []
    → All IsPiece ps
    → put_all response_stream r ps ≡ sent r ps
unfolding put_all
put_all-sent [] r e h =
    ap₂
      (λ (c : List Call) (q : List ℕ). record {
        calls = c;
        pending = q;
        header_sent = r.header_sent;
      })
      (sym (append-nil r.calls)) e
put_all-sent (p ∷ ps) r e (h, hs) =
    ap (λ x. put_all response_stream x ps) (put_piece r p e h)
    ∙ put_all-sent ps (sent r (p ∷ [])) refl hs
    ∙ ap (λ (c : List Call). record { calls = c; pending = []; header_sent = r.header_sent })
        (append_assoc r.calls (send_chunk p ∷ []) (map send_chunk ps))

chunks-IsData : (ps : List (List ℕ)) → All IsPiece ps → All IsData (map send_chunk ps)
chunks-IsData [] h = tt
chunks-IsData (p ∷ ps) ((h, k), hs) = ((h, omega arith), chunks-IsData ps hs)

payload-map : (ps : List (List ℕ)) → payload (map send_chunk ps) ≡ flatten ps
unfolding payload flatten
payload-map [] = refl
payload-map (p ∷ ps) = ap (◌++◌ p) (payload-map ps)

-- A response behind its head that is destroyed after such a run.
sent-Ends :
    (r : Response) (ps : List (List ℕ)) (text : List ℕ)
    → r.header_sent ≡ true
    → All IsPiece ps
    → flatten ps ≡ text
    → Ends r.calls text 2 (destroy (sent r ps))
unfolding destroy flush sync
sent-Ends r ps text e h f =
    let out : List Call = r.calls ++ map send_chunk ps in
    let more : List Call = (out ++ send_chunk [] ∷ []) ++ send_chunk [] ∷ [] in
    record {
      chunks = map send_chunk ps;
      empties = 2;
      calls_eq =
          ap (λ b. if b then more else out) e
          ∙ append_assoc out (send_chunk [] ∷ []) (send_chunk [] ∷ [])
          ∙ append_assoc r.calls (map send_chunk ps) (replicate 2 (send_chunk []));
      all_data = chunks-IsData ps h;
      payload_eq = payload-map ps ∙ f;
      enough = omega arith;
    }

whole :
    (text bytes lost : List ℕ) → text ≡ bytes ++ lost → (lost ≡ []) ⊎ (true ≡ false) → bytes ≡ text
whole text bytes lost e (inl z) = sym (e ∙ ap (λ l. bytes ++ l) z ∙ append-nil bytes)
whole text bytes lost e (inr z) = ground arith

-- From a file that can be read, the page is sent whole behind its head, in chunks that carry data,
-- and only then comes the end of the body.
pub handle_index-Ends :
    (is : Source) (calls : List Call)
    → is.good ≡ true
    → (r : Response) × (handle_index is (new_response calls) ≡ (ok tt, r))
      × Ends
          (calls ++ send_head 200 (codes "Content-Type: text/html; charset=utf-8") ∷ [])
          is.rest
          2
          (destroy r)
unfolding handle_index header stream new_response extra_headers
handle_index-Ends is calls h =
    let headed : Response = record {
      calls = calls ++ send_head 200 (codes "Content-Type: text/html; charset=utf-8") ∷ [];
      pending = [];
      header_sent = true;
    } in
    let p = generic_pipe-Piped response_stream is headed h in
    let all = p.result ∙ put_all-sent p.writes headed refl p.all_pieces in
    (
      generic_pipe response_stream is headed,
      refl,
      subst (λ r. Ends headed.calls is.rest 2 (destroy r)) (sym all)
          (sent-Ends headed p.writes is.rest refl p.all_pieces
            (whole is.rest (flatten p.writes) p.lost p.bytes_eq p.stop)),
    )
