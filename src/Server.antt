-- ===== src/Server.antt =====
-- http_audio_server/server.cpp, `HTTPServerImpl::event_handler`: a request goes to the first entry
-- of the request map that fits. `S` is the state of the program that the handlers share.
pub mod Dispatch
pub mod Keeps
pub mod Poll
pub mod Class
mod Tests
use http_audio_server.Common.{
  ℕ, Bool, true, false, ◌&&◌, Option, none, some, List, [], ◌∷◌, ◌++◌, ◌==◌, if◌then◌else◌,
}
use http_audio_server.Common.Text.{codes}
use http_audio_server.Common.Words.{same_text}
use http_audio_server.Json.{JsonLib}
use http_audio_server.Response.{Call, Response, new_response, destroy, error_response}

pub record Request : Type 0 where
  pub method : List ℕ
  pub uri : List ℕ
  pub body : List ℕ
  pub matcher : List (List ℕ)

-- `matches` is `regex_match` with the entry's regular expression. A handler gives the new state,
-- the response, and `none` in the third place where it throws. As a whole `none` means that the
-- model has no result: a loop of it ran out of fuel, or an access was out of bounds.
pub record RequestMapEntry (S : Type 0) : Type 0 where
  pub method : List ℕ
  pub matches : List ℕ → Option (List (List ℕ))
  pub handler : Request → S → Response → Option (S × Response × Option (Unit {0}))

-- What mongoose hands over: whether the event is `MG_EV_HTTP_REQUEST`, and the message.
pub record HttpMessage : Type 0 where
  pub is_request : Bool
  pub method : List ℕ
  pub uri : List ℕ
  pub body : List ℕ

unfoldable pub not_found : List ℕ → List ℕ → List ℕ
not_found method uri =
    codes "Requested resource \"" ++ (uri ++ (codes "\" not found for method " ++ method))

-- A reply by a response of its own, which is destroyed at once.
unfoldable pub reply_error : JsonLib → ℕ → List ℕ → List Call → List Call
reply_error lib code msg calls = destroy ((error_response lib code msg (new_response calls)).1)

module _ (lib : JsonLib) {S : Type 0} where
  -- The handler, the answer to an exception, and the end of the response.
  unfoldable pub end_handler : S × Response × Option (Unit {0}) → S × List Call
  unfolding reply_error
  end_handler (s, res, some _) = (s, destroy res)
  end_handler (s, res, none) = (
    s,
    destroy (record res { calls = reply_error lib 500 (codes "Internal server error") res.calls }),
  )

  abbrev pub end_handled : Option (S × Response × Option (Unit {0})) → Option (S × List Call)
  end_handled none = none
  end_handled (some h) = some (end_handler h)

  -- The loop over the request map.
  unfoldable pub dispatch :
      List (RequestMapEntry S) → HttpMessage → S → List Call → Option (S × List Call)
  unfolding end_handler not_found
  dispatch [] hm s calls = some (s, reply_error lib 404 (not_found hm.method hm.uri) calls)
  dispatch (descr ∷ entries) hm s calls =
      let later = dispatch entries hm s calls in
      if same_text descr.method hm.method
      then elim (descr.matches hm.uri) [
        | none ↦ later
        | some sm ↦ end_handled (
            descr.handler
              (record { method = hm.method; uri = hm.uri; body = hm.body; matcher = sm }) s
              (new_response calls))
      ]
      else later

  unfoldable pub event_handler :
      List (RequestMapEntry S) → HttpMessage → S → List Call → Option (S × List Call)
  unfolding dispatch
  event_handler entries hm s calls =
      if hm.is_request then dispatch entries hm s calls else some (s, calls)
