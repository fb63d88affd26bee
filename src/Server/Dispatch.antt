-- ===== src/Server/Dispatch.antt =====
-- Which handler runs, and what a client gets when none fits or a handler throws.
use http_audio_server.Common.{
  ℕ, ◌≡◌, ◌⊎◌, inl, inr, refl, sym, ap, ◌∙◌, subst, Bool, true, false, Option, none, some, List, [],
  ◌∷◌, ◌++◌, All, append-nil, append_assoc, if◌then◌else◌,
}
use http_audio_server.Common.Text.{codes}
use http_audio_server.Json.{JsonLib}
use http_audio_server.Response.{
  Call, send_head, send_chunk, Response, new_response, destroy, flush, sync, error_response,
  status_text,
}
use http_audio_server.Response.Wire.{Ends, respond-Ends}
use http_audio_server.Common.Words.{same_text}
use http_audio_server.Server.{
  Request, RequestMapEntry, HttpMessage, reply_error, end_handler, end_handled, not_found, dispatch,
  event_handler,
}

-- The entry does not fit the message: another method, or another address.
abbrev pub Misses : {S : Type 0} → HttpMessage → RequestMapEntry S → Type 0
Misses hm descr = (same_text descr.method hm.method ≡ false) ⊎ (descr.matches hm.uri ≡ none)

abbrev pub json_head : ℕ → Call
json_head code = send_head code (codes "Content-type: application/json")

abbrev pub error_body : JsonLib → List ℕ → List ℕ
error_body lib msg = status_text lib (codes "error") msg ++ b'\n' ∷ []

-- A reply of an error is a whole response.
pub reply_error-Ends :
    (lib : JsonLib) (code : ℕ) (msg : List ℕ) (calls : List Call)
    → Ends (calls ++ json_head code ∷ []) (error_body lib msg) 2 (reply_error lib code msg calls)
unfolding reply_error error_response
reply_error-Ends lib code msg calls =
    let (r, run, ends) = respond-Ends lib calls (codes "error") msg code in
    subst (λ c. Ends (calls ++ json_head code ∷ []) (error_body lib msg) 2 (destroy c))
      (sym (ap (λ x. x.1) run)) ends

either : {A : Type 0} (b : Bool) (x : A) → (if b then x else x) ≡ x
either true x = refl
either false x = refl

abbrev request : HttpMessage → List (List ℕ) → Request
request hm sm = record { method = hm.method; uri = hm.uri; body = hm.body; matcher = sm }

module _ (lib : JsonLib) {S : Type 0} where
  abbrev handled :
      RequestMapEntry S
      → HttpMessage
      → S
      → List Call
      → Option (S × List Call)
      → Option (List (List ℕ))
      → Option (S × List Call)
  handled descr hm s calls later o = elim o [
    | none ↦ later
    | some sm ↦ end_handled lib (descr.handler (request hm sm) s (new_response calls))
  ]

  miss :
      (descr : RequestMapEntry S) (entries : List (RequestMapEntry S)) (hm : HttpMessage) (s : S)
      (calls : List Call)
      → Misses hm descr
      → dispatch lib (descr ∷ entries) hm s calls ≡ dispatch lib entries hm s calls
  unfolding dispatch
  miss descr entries hm s calls (inl e) =
      let later = dispatch lib entries hm s calls in
      ap (λ b. if b then handled descr hm s calls later (descr.matches hm.uri) else later) e
  miss descr entries hm s calls (inr e) =
      let later = dispatch lib entries hm s calls in
      ap (λ o. if same_text descr.method hm.method then handled descr hm s calls later o else later)
        e
      ∙ either (same_text descr.method hm.method) later

  hit :
      (descr : RequestMapEntry S) (entries : List (RequestMapEntry S)) (hm : HttpMessage) (s : S)
      (calls : List Call) (sm : List (List ℕ))
      → same_text descr.method hm.method ≡ true
      → descr.matches hm.uri ≡ some sm
      → dispatch lib (descr ∷ entries) hm s calls
        ≡ end_handled lib (descr.handler (request hm sm) s (new_response calls))
  unfolding dispatch
  hit descr entries hm s calls sm e f =
      let later = dispatch lib entries hm s calls in
      ap (λ b. if b then handled descr hm s calls later (descr.matches hm.uri) else later) e
      ∙ ap (handled descr hm s calls later) f

  skip :
      (before rest : List (RequestMapEntry S)) (hm : HttpMessage) (s : S) (calls : List Call)
      → All (Misses hm) before
      → dispatch lib (before ++ rest) hm s calls ≡ dispatch lib rest hm s calls
  skip [] rest hm s calls h = refl
  skip (descr ∷ before) rest hm s calls (h, hs) =
      miss descr (before ++ rest) hm s calls h ∙ skip before rest hm s calls hs

  taken :
      (entries : List (RequestMapEntry S)) (hm : HttpMessage) (s : S) (calls : List Call)
      → hm.is_request ≡ true
      → event_handler lib entries hm s calls ≡ dispatch lib entries hm s calls
  unfolding event_handler
  taken entries hm s calls h =
      ap (λ b. if b then dispatch lib entries hm s calls else some (s, calls)) h

  -- The first entry that fits the method and the address handles a request, whatever follows it.
  pub event_handler-first :
      (before after : List (RequestMapEntry S)) (descr : RequestMapEntry S) (hm : HttpMessage)
      → (s : S) (calls : List Call) (sm : List (List ℕ)) → hm.is_request ≡ true
      → All (Misses hm) before
      → same_text descr.method hm.method ≡ true
      → descr.matches hm.uri ≡ some sm
      → event_handler lib (before ++ descr ∷ after) hm s calls
        ≡ end_handled lib (
            descr.handler
              (record { method = hm.method; uri = hm.uri; body = hm.body; matcher = sm })
              s
              (new_response calls))
  event_handler-first before after descr hm s calls sm is_request misses e f =
      taken (before ++ descr ∷ after) hm s calls is_request
      ∙ skip before (descr ∷ after) hm s calls misses
      ∙ hit descr after hm s calls sm e f

  -- A request that no entry fits changes no state, and is answered with the code 404 and a message
  -- that names it.
  pub event_handler-none :
      (entries : List (RequestMapEntry S)) (hm : HttpMessage) (s : S) (calls : List Call)
      → hm.is_request ≡ true
      → All (Misses hm) entries
      → (out : List Call) × (event_handler lib entries hm s calls ≡ some (s, out))
        × Ends (calls ++ json_head 404 ∷ []) (error_body lib (not_found hm.method hm.uri)) 2 out
  unfolding dispatch
  event_handler-none entries hm s calls is_request misses =
      let all : entries ≡ entries ++ [] = sym (append-nil entries) in
      (
        _,
        taken entries hm s calls is_request
            ∙ ap (λ es. dispatch lib es hm s calls) all
            ∙ skip entries [] hm s calls misses,
        reply_error-Ends lib 404 (not_found hm.method hm.uri) calls,
      )

  -- A handler that throws before it sends its head leads to a whole response with the code 500.
  pub end_handler-early :
      (s : S) (res : Response)
      → res.header_sent ≡ false
      → (out : List Call) × (end_handler lib (s, res, none) ≡ (s, out))
        × Ends
            (res.calls ++ json_head 500 ∷ [])
            (error_body lib (codes "Internal server error"))
            2
            out
  unfolding end_handler destroy flush sync
  end_handler-early s res e =
      let out : List Call = reply_error lib 500 (codes "Internal server error") res.calls in
      let more : List Call = (out ++ send_chunk res.pending ∷ []) ++ send_chunk [] ∷ [] in
      (
        out,
        ap (λ b. (s, if b then more else out)) e,
        reply_error-Ends lib 500 (codes "Internal server error") res.calls,
      )

  -- A handler that throws behind its head leads to a second head in the middle of its response: a
  -- whole response with the code 500, and only then the chunk that was waiting, and the end.
  pub end_handler-late :
      (s : S) (res : Response)
      → res.header_sent ≡ true
      → (inner : List Call) × (end_handler lib (s, res, none)
          ≡ (s, inner ++ send_chunk res.pending ∷ send_chunk [] ∷ []))
        × Ends
            (res.calls ++ json_head 500 ∷ [])
            (error_body lib (codes "Internal server error"))
            2
            inner
  unfolding end_handler destroy flush sync
  end_handler-late s res e =
      let out : List Call = reply_error lib 500 (codes "Internal server error") res.calls in
      let more : List Call = (out ++ send_chunk res.pending ∷ []) ++ send_chunk [] ∷ [] in
      (
        out,
        ap (λ b. (s, if b then more else out)) e
            ∙ ap (λ (c : List Call). (s, c))
                (append_assoc out (send_chunk res.pending ∷ []) (send_chunk [] ∷ [])),
        reply_error-Ends lib 500 (codes "Internal server error") res.calls,
      )
