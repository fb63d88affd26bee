-- ===== src/Server/Keeps.antt =====
-- What every handler keeps, `event_handler` keeps.
use http_audio_server.Common.{
  ℕ, ◌≡◌, refl, Bool, true, false, Option, none, some, List, [], ◌∷◌, All, if◌then◌else◌,
}
use http_audio_server.Common.Words.{same_text}
use http_audio_server.Json.{JsonLib}
use http_audio_server.Response.{Call, Response, new_response}
use http_audio_server.Server.{
  Request, RequestMapEntry, HttpMessage, end_handler, end_handled, dispatch, event_handler,
}

-- A predicate on a result, if there is one.
abbrev pub Holds : {A : Type 0} → (A → Type 0) → Option A → Type 0
Holds P none = Unit
Holds P (some x) = P x

-- The request that a handler gets for this message.
abbrev pub request_of : HttpMessage → List (List ℕ) → Request
request_of hm sm = record { method = hm.method; uri = hm.uri; body = hm.body; matcher = sm }

module _ (lib : JsonLib) {S : Type 0} (P : S → Type 0) (hm : HttpMessage) where
  -- The handler keeps the predicate if it gets this message.
  abbrev pub Keeps : RequestMapEntry S → Type 0
  Keeps descr =
      (sm : List (List ℕ)) (s : S) (res : Response)
      → descr.matches hm.uri ≡ some sm
      → P s
      → Holds (λ h. P h.0) (descr.handler (request_of hm sm) s res)

  abbrev Good : Option (S × List Call) → Type 0
  Good = Holds (λ r. P r.0)

  end_handled-Good :
      (o : Option (S × Response × Option (Unit {0})))
      → Holds (λ h. P h.0) o
      → Good (end_handled lib o)
  unfolding end_handler
  end_handled-Good none h = tt
  end_handled-Good (some (s, res, none)) h = h
  end_handled-Good (some (s, res, some _)) h = h

  handled-Good :
      (descr : RequestMapEntry S) (s : S) (calls : List Call) (later : Option (S × List Call))
      (o : Option (List (List ℕ)))
      → descr.matches hm.uri ≡ o
      → Keeps descr
      → P s
      → Good later
      → Good (elim o [
        | none ↦ later
        | some sm ↦ end_handled lib (descr.handler (request_of hm sm) s (new_response calls))
      ])
  handled-Good descr s calls later none e k h l = l
  handled-Good descr s calls later (some sm) e k h l =
      end_handled-Good (descr.handler (request_of hm sm) s (new_response calls))
        (k sm s (new_response calls) e h)

  if-Good : (b : Bool) (x y : Option (S × List Call)) → Good x → Good y → Good (if b then x else y)
  if-Good true x y hx hy = hx
  if-Good false x y hx hy = hy

  dispatch-Good :
      (entries : List (RequestMapEntry S)) (s : S) (calls : List Call)
      → All Keeps entries
      → P s
      → Good (dispatch lib entries hm s calls)
  unfolding dispatch
  dispatch-Good [] s calls k h = h
  dispatch-Good (descr ∷ entries) s calls (k, ks) h =
      let later = dispatch-Good entries s calls ks h in
      if-Good (same_text descr.method hm.method) _ (dispatch lib entries hm s calls)
        (handled-Good descr s calls (dispatch lib entries hm s calls) (descr.matches hm.uri) refl k
          h later)
        later

  pub event_handler-Good :
      (entries : List (RequestMapEntry S)) (s : S) (calls : List Call)
      → All Keeps entries
      → P s
      → Holds (λ r. P r.0) (event_handler lib entries hm s calls)
  unfolding event_handler
  event_handler-Good entries s calls k h =
      if-Good hm.is_request (dispatch lib entries hm s calls) (some (s, calls))
        (dispatch-Good entries s calls k h) h
