-- ===== src/Response.antt =====
-- http_audio_server/server.cpp, the classes `ChunkedHTTPResponseBuf` and `Response`.
-- A connection of mongoose is the list of the calls made on it, oldest first.
pub mod Chunks
pub mod Wire
mod Tests
use http_audio_server.Common.{
  ℕ, Bool, true, false, not, Option, some, none, List, [], ◌∷◌, ◌++◌, length, ltb, if◌then◌else◌,
}
use http_audio_server.Common.Text.{codes}
use http_audio_server.Json.{Json, JsonLib, object, field, end, string}

-- `mg_send_head(nc, code, -1, extra_headers)` and `mg_send_http_chunk(nc, bytes)`.
pub data Call : Type 0 where
  send_head : ℕ → List ℕ → Call
  send_chunk : List ℕ → Call

-- The last place of the buffer, behind the 4096 that `setp` gives, is for `overflow`.
abbrev pub buf_capacity : ℕ
buf_capacity = 4096

-- `pending` is the text from `pbase()` to `pptr()`.
pub record Response : Type 0 where
  pub calls : List Call
  pub pending : List ℕ
  pub header_sent : Bool

pub data Error : Type 0 where
  header_already_sent header_not_sent : Error

-- A method returns, or throws; the object keeps what was done to it before.
pub data Result {ℓ} (A : Type ℓ) : Type ℓ where
  ok : A → Result A
  thrown : Error → Result A

abbrev pub Action : Type 0 → Type 0
Action A = Response → Result A × Response

infixl 5 ◌>>=◌ ◌>>◌
abbrev pub ◌>>=◌ : {A B : Type 0} → Action A → (A → Action B) → Action B
◌>>=◌ m f r = let (a, r') = m r in elim a [ ok x ↦ f x r' | thrown e ↦ (thrown e, r') ]

abbrev pub ◌>>◌ : {A B : Type 0} → Action A → Action B → Action B
m >> k = m >>= λ _. k

-- `Response(nc)`
unfoldable pub new_response : List Call → Response
new_response calls = record { calls = calls; pending = []; header_sent = false }

unfoldable pub sync : Response → Response
sync r = record r { calls = r.calls ++ send_chunk r.pending ∷ []; pending = [] }

-- `none` is `eof()`; the second component is the value returned.
unfoldable pub overflow : Response → Option ℕ → Response × Option ℕ
unfolding sync
overflow r none = (r, none)
overflow r (some ch) = (sync (record r { pending = r.pending ++ ch ∷ [] }), some ch)

-- `std::streambuf`: a character goes to the buffer, or to `overflow` if that is full.
unfoldable pub sputc : Response → ℕ → Response
unfolding overflow
sputc r ch =
    if ltb (length r.pending) buf_capacity
    then record r { pending = r.pending ++ ch ∷ [] }
    else (overflow r (some ch)).0

unfoldable pub write : Response → List ℕ → Response
write r [] = r
write r (ch ∷ text) = write (sputc r ch) text

-- `std::flush` and `std::endl`.
unfoldable pub flush : Response → Response
flush r = sync r

unfoldable pub endl : Response → Response
endl r = flush (write r (b'\n' ∷ []))

-- The loop over the headers; the flag is `first`.
unfoldable pub extra_headers : Bool → List (List ℕ × List ℕ) → List ℕ
extra_headers first [] = []
extra_headers first ((name, value) ∷ headers) =
    (if first then [] else b'\r' ∷ b'\n' ∷ [])
    ++ (name ++ (codes ": " ++ (value ++ extra_headers false headers)))

unfoldable pub header : ℕ → List (List ℕ × List ℕ) → Action (Unit {0})
header code headers r = if r.header_sent then (thrown header_already_sent, r) else (
  ok tt,
  record r {
    calls = r.calls ++ send_head code (extra_headers true headers) ∷ [];
    header_sent = true;
  },
)

-- `stream()` gives the output stream of the response.
unfoldable pub stream : Action (Unit {0})
stream r = if r.header_sent then (ok tt, r) else (thrown header_not_sent, r)

abbrev pub put : (Response → Response) → Action (Unit {0})
put f r = (ok tt, f r)

unfoldable pub destroy : Response → List Call
destroy r = if r.header_sent then (flush r).calls ++ send_chunk [] ∷ [] else r.calls

module _ (lib : JsonLib) where
  -- `json{{"status", status}, {"msg", msg}}` under `std::setw(4)`. The keys of an object are
  -- sorted.
  unfoldable pub status_text : List ℕ → List ℕ → List ℕ
  status_text status msg =
      JsonLib.dump_setw lib 4
        (object (field (codes "msg") (string msg) (field (codes "status") (string status) end)))

  unfoldable pub respond : List ℕ → ℕ → List ℕ → Action (Unit {0})
  respond status code msg = do
    header code ((codes "Content-type", codes "application/json") ∷ [])
    stream
    put (λ r. endl (write r (status_text status msg)))

  unfoldable pub ok_response : ℕ → List ℕ → Action (Unit {0})
  unfolding respond
  ok_response code msg = respond (codes "ok") code msg

  unfoldable pub error_response : ℕ → List ℕ → Action (Unit {0})
  unfolding respond
  error_response code msg = respond (codes "error") code msg
