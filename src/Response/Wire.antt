-- ===== src/Response/Wire.antt =====
-- A whole response as the client sees it: a head, chunks with data, and an empty chunk, which
-- ends the body of a chunked HTTP response.
use mathlib.Core.Path.{ap₂}
use http_audio_server.Common.{
  ℕ, zero, suc, ◌+◌, ◌≤◌, ◌≡◌, refl, sym, ap, ◌∙◌, true, List, [], ◌∷◌, ◌++◌, length, All,
  All-append, append_assoc, append-nil, arith, replicate, replicate_snoc, if◌then◌else◌, subst,
}
use http_audio_server.Common.Text.{codes}
use http_audio_server.Json.{JsonLib}
use http_audio_server.Response.{
  Call, send_head, send_chunk, Response, ok, thrown, header_already_sent, sync, write, flush, endl,
  header, stream, destroy, new_response, status_text, respond, extra_headers,
}
use http_audio_server.Response.Chunks.{
  payload, payload-append, IsData, Sends, Sends-trans, write-Sends,
}

-- The body that a client reads: the data up to the first empty chunk.
unfoldable pub received : List Call → List ℕ
received [] = []
received (send_head code headers ∷ calls) = received calls
received (send_chunk [] ∷ calls) = []
received (send_chunk (b ∷ bytes) ∷ calls) = (b ∷ bytes) ++ received calls

-- If only data comes before it, an empty chunk ends what a client reads: the data is read whole, and
-- nothing behind it.
pub received-payload :
    (chunks rest : List Call)
    → All IsData chunks
    → received (chunks ++ send_chunk [] ∷ rest) ≡ payload chunks
unfolding received payload
received-payload [] rest h = refl
received-payload (send_head code headers ∷ chunks) rest (h, hs) = absurd h
received-payload (send_chunk [] ∷ chunks) rest ((h, _), hs) = absurd (omega arith)
received-payload (send_chunk (b ∷ bytes) ∷ chunks) rest (h, hs) =
    ap (◌++◌ (b ∷ bytes)) (received-payload chunks rest hs)

-- `calls` are those of `base`, then chunks that carry `text`, then k empty chunks or more.
pub record Ends (base : List Call) (text : List ℕ) (k : ℕ) (calls : List Call) : Type 0 where
  pub chunks : List Call
  pub empties : ℕ
  pub calls_eq : calls ≡ base ++ (chunks ++ replicate empties (send_chunk []))
  pub all_data : All IsData chunks
  pub payload_eq : payload chunks ≡ text
  pub enough : k ≤ empties

-- One more empty chunk.
Ends-snoc :
    (base : List Call) (text : List ℕ) (k : ℕ) (calls : List Call)
    → Ends base text k calls
    → Ends base text (k + 1) (calls ++ send_chunk [] ∷ [])
Ends-snoc base text k calls h = record {
  chunks = h.chunks;
  empties = suc h.empties;
  calls_eq =
      ap (λ c. c ++ send_chunk [] ∷ []) h.calls_eq
      ∙ append_assoc base (h.chunks ++ replicate h.empties (send_chunk [])) (send_chunk [] ∷ [])
      ∙ ap (◌++◌ base) (
          append_assoc h.chunks (replicate h.empties (send_chunk [])) (send_chunk [] ∷ [])
          ∙ ap (◌++◌ h.chunks) (replicate_snoc h.empties (send_chunk [])));
  all_data = h.all_data;
  payload_eq = h.payload_eq;
  enough = omega (arith, h.enough);
}

module _ (r s : Response) (text pending : List ℕ) (h : Sends r s text) where
  whole_calls :
      s.pending ≡ pending
      → s.calls ++ send_chunk s.pending ∷ [] ≡ r.calls ++ (h.chunks ++ send_chunk pending ∷ [])
  whole_calls p =
      ap₂ (λ c b. c ++ send_chunk b ∷ []) h.calls_eq p
      ∙ append_assoc r.calls h.chunks (send_chunk pending ∷ [])

  whole_payload : r.pending ≡ [] → s.pending ≡ pending → payload h.chunks ++ pending ≡ text
  whole_payload e p = ap (◌++◌ (payload h.chunks)) (sym p) ∙ h.payload_eq ∙ ap (λ b. b ++ text) e

-- A flush sends what waits; if nothing waits, it sends an empty chunk.
sync-Ends :
    (r s : Response) (text pending : List ℕ)
    → Sends r s text
    → r.pending ≡ []
    → s.pending ≡ pending
    → Ends r.calls text 0 (sync s).calls
unfolding sync payload
sync-Ends r s text [] h e p = record {
  chunks = h.chunks;
  empties = 1;
  calls_eq = whole_calls r s text [] h p;
  all_data = h.all_data;
  payload_eq = sym (append-nil (payload h.chunks)) ∙ whole_payload r s text [] h e p;
  enough = omega arith;
}
sync-Ends r s text (b ∷ bytes) h e p = record {
  chunks = h.chunks ++ send_chunk (b ∷ bytes) ∷ [];
  empties = 0;
  calls_eq =
      whole_calls r s text (b ∷ bytes) h p
      ∙ ap (◌++◌ r.calls) (sym (append-nil (h.chunks ++ send_chunk (b ∷ bytes) ∷ [])));
  all_data = All-append IsData h.chunks _ h.all_data (omega (arith, h.room, ap length p), tt);
  payload_eq =
      payload-append h.chunks (send_chunk (b ∷ bytes) ∷ [])
      ∙ ap (◌++◌ (payload h.chunks)) (append-nil (b ∷ bytes))
      ∙ whole_payload r s text (b ∷ bytes) h e p;
  enough = omega arith;
}

-- A response that has sent its head ends the body with an empty chunk or more when it is destroyed,
-- and the chunks before hold all the text that was written.
pub destroy-Ends :
    (r s : Response) (text : List ℕ)
    → Sends r s text
    → r.pending ≡ []
    → s.header_sent ≡ true
    → Ends r.calls text 1 (destroy s)
unfolding destroy flush
destroy-Ends r s text h e sent =
    let more : List Call = (sync s).calls ++ send_chunk [] ∷ [] in
    subst (Ends r.calls text 1) (ap (λ b. if b then more else s.calls) (sym sent))
      (Ends-snoc r.calls text 0 (sync s).calls (sync-Ends r s text s.pending h e refl))

-- Whatever the state of the buffer, a response that is destroyed right behind a flush ends with
-- two empty chunks or more: the second one follows the end of the body.
pub flush-destroy-Ends :
    (r s : Response) (text : List ℕ)
    → Sends r s text
    → r.pending ≡ []
    → s.header_sent ≡ true
    → Ends r.calls text 2 (destroy (flush s))
unfolding destroy flush sync
flush-destroy-Ends r s text h e sent =
    let more : List Call = ((sync s).calls ++ send_chunk [] ∷ []) ++ send_chunk [] ∷ [] in
    subst (Ends r.calls text 2) (ap (λ b. if b then more else (sync s).calls) (sym sent)) (
      Ends-snoc r.calls text 1 _
        (Ends-snoc r.calls text 0 (sync s).calls (sync-Ends r s text s.pending h e refl)))

-- A client reads the text, behind the head.
pub received-Ends :
    (code : ℕ) (headers text : List ℕ) (k : ℕ) (calls : List Call)
    → Ends (send_head code headers ∷ []) text (suc k) calls
    → received calls ≡ text
unfolding received
received-Ends code headers text k calls h = by_empties h.empties refl
  where
    by_empties : (n : ℕ) → h.empties ≡ n → received calls ≡ text
    by_empties zero e = absurd (omega (arith, e, h.enough))
    by_empties (suc n) e =
        ap received h.calls_eq
        ∙ ap (λ m. received (h.chunks ++ replicate m (send_chunk []))) e
        ∙ received-payload h.chunks (replicate n (send_chunk [])) h.all_data
        ∙ h.payload_eq

module _ (lib : JsonLib) where
  -- `ok` and `error` on a new response: the head, the JSON text and a line break in chunks with
  -- data, and then at least two empty chunks by the time that the response is destroyed.
  pub respond-Ends :
      (calls : List Call) (status msg : List ℕ) (code : ℕ)
      → (r : Response) × (respond lib status code msg (new_response calls) ≡ (ok tt, r))
        × Ends
            (calls ++ send_head code (codes "Content-type: application/json") ∷ [])
            (status_text lib status msg ++ b'\n' ∷ [])
            2
            (destroy r)
  unfolding respond header stream extra_headers new_response endl
  respond-Ends calls status msg code = (
    endl (write headed text),
    refl,
    flush-destroy-Ends headed (write (write headed text) (b'\n' ∷ [])) (text ++ b'\n' ∷ []) sent
        refl sent.header_eq,
  )
    where
      headed : Response
      headed = record {
        calls = calls ++ send_head code (codes "Content-type: application/json") ∷ [];
        pending = [];
        header_sent = true;
      }

      text : List ℕ
      text = status_text lib status msg

      sent : Sends headed (write (write headed text) (b'\n' ∷ [])) (text ++ b'\n' ∷ [])
      sent =
          let p = write-Sends headed text (omega arith) in
          Sends-trans headed (write headed text) _ text (b'\n' ∷ []) p
            (write-Sends (write headed text) (b'\n' ∷ []) p.room)

  -- A response whose head was sent cannot be used for another: `ok` and `error` throw, and send
  -- nothing.
  pub respond_again :
      (r : Response) (status msg : List ℕ) (code : ℕ)
      → r.header_sent ≡ true
      → respond lib status code msg r ≡ (thrown header_already_sent, r)
  unfolding respond header
  respond_again r status msg code h = rw h
