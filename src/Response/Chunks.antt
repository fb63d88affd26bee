-- ===== src/Response/Chunks.antt =====
-- What the buffer of a response sends, and that it loses nothing.
use http_audio_server.Common.{
  ℕ, ◌+◌, ◌≤◌, ◌<◌, ◌≡◌, refl, sym, ap, ◌∙◌, List, [], ◌∷◌, ◌++◌, length, All, All-append,
  append_assoc, append-nil, length-append, arith, ltb, Bool-cases, inl, inr, ltb→lt,
}
use http_audio_server.Response.{
  Call, send_head, send_chunk, Response, buf_capacity, sync, sputc, write,
}

-- The bytes of all chunks.
unfoldable pub payload : List Call → List ℕ
payload [] = []
payload (send_head code headers ∷ calls) = payload calls
payload (send_chunk bytes ∷ calls) = bytes ++ payload calls

pub payload-append : (cs ds : List Call) → payload (cs ++ ds) ≡ payload cs ++ payload ds
unfolding payload
payload-append [] ds = refl
payload-append (send_head code headers ∷ cs) ds = payload-append cs ds
payload-append (send_chunk bytes ∷ cs) ds =
    ap (◌++◌ bytes) (payload-append cs ds) ∙ sym (append_assoc bytes (payload cs) (payload ds))

-- A chunk that carries data: it is not empty, and fits the buffer.
abbrev pub IsData : Call → Type 0
IsData (send_head code headers) = ⊥
IsData (send_chunk bytes) = (0 < length bytes) × (length bytes ≤ buf_capacity + 1)

-- The bytes sent so far, and those that wait.
abbrev pub written : Response → List ℕ
written r = payload r.calls ++ r.pending

-- From `r` to `s` only data was sent.
pub record Sends (r s : Response) (text : List ℕ) : Type 0 where
  pub chunks : List Call
  pub calls_eq : s.calls ≡ r.calls ++ chunks
  pub all_data : All IsData chunks
  pub payload_eq : payload chunks ++ s.pending ≡ r.pending ++ text
  pub room : length s.pending ≤ buf_capacity
  pub header_eq : s.header_sent ≡ r.header_sent

sputc-Sends :
    (r : Response) (ch : ℕ) → length r.pending ≤ buf_capacity → Sends r (sputc r ch) (ch ∷ [])
unfolding sputc sync payload
sputc-Sends r ch h = elim (Bool-cases (ltb (length r.pending) buf_capacity)) [
  | inl low ↦ rw low (record {
    chunks = [];
    calls_eq = sym (append-nil r.calls);
    all_data = tt;
    payload_eq = refl;
    room = omega (arith, ltb→lt _ _ low, length-append r.pending (ch ∷ []));
    header_eq = refl;
  })
  | inr full ↦ rw full (record {
    chunks = send_chunk (r.pending ++ ch ∷ []) ∷ [];
    calls_eq = refl;
    all_data = (omega (arith, length-append r.pending (ch ∷ [])), tt);
    payload_eq = append-nil _ ∙ append-nil _;
    room = omega arith;
    header_eq = refl;
  })
]

pub Sends-trans :
    (r s t : Response) (xs ys : List ℕ) → Sends r s xs → Sends s t ys → Sends r t (xs ++ ys)
Sends-trans r s t xs ys p q = record {
  chunks = p.chunks ++ q.chunks;
  calls_eq =
      q.calls_eq ∙ ap (λ c. c ++ q.chunks) p.calls_eq ∙ append_assoc r.calls p.chunks q.chunks;
  all_data = All-append IsData p.chunks q.chunks p.all_data q.all_data;
  payload_eq =
      ap (λ b. b ++ t.pending) (payload-append p.chunks q.chunks)
      ∙ append_assoc (payload p.chunks) (payload q.chunks) t.pending
      ∙ ap (◌++◌ (payload p.chunks)) q.payload_eq
      ∙ sym (append_assoc (payload p.chunks) s.pending ys)
      ∙ ap (λ b. b ++ ys) p.payload_eq
      ∙ append_assoc r.pending xs ys;
  room = q.room;
  header_eq = q.header_eq ∙ p.header_eq;
}

-- Text written to the stream is sent in order and whole, but for at most 4096 bytes that wait;
-- on the way only chunks with data are sent, each of at most 4097 bytes.
pub write-Sends :
    (r : Response) (text : List ℕ) → length r.pending ≤ buf_capacity → Sends r (write r text) text
unfolding write payload
write-Sends r [] h = record {
  chunks = [];
  calls_eq = sym (append-nil r.calls);
  all_data = tt;
  payload_eq = sym (append-nil r.pending);
  room = h;
  header_eq = refl;
}
write-Sends r (ch ∷ text) h =
    let p = sputc-Sends r ch h in
    Sends-trans r (sputc r ch) (write (sputc r ch) text) (ch ∷ []) text p
      (write-Sends (sputc r ch) text p.room)
