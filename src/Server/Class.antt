-- ===== src/Server/Class.antt =====
-- http_audio_server/server.hpp, the class `HTTPServer` as its clients see it, and the implementation.
use mathlib.Core.Option.{some-injective, none-ne-some}
use http_audio_server.Common.{
  ℕ, ◌≡◌, refl, sym, ap, ◌∙◌, Bool, Option-cases, inl, inr, Option, none, some, List, [], ◌∷◌, ◌++◌,
}
use http_audio_server.Json.{JsonLib}
use http_audio_server.Response.{Call}
use http_audio_server.Logger.{Logger, Delivery}
use http_audio_server.Server.{RequestMapEntry, HttpMessage, event_handler}
use http_audio_server.Server.Poll.{HttpServer, Opened, new_server, with_later, poll_server}

-- `S` is the state that the handlers share. A poll gives the calls on the connection of each message.
pub record ServerClass (S : Type 0) : Type 1 where
  pub T : Type 0
  pub create :
      (List ℕ → Bool)
      → List (RequestMapEntry S)
      → List ℕ
      → ℕ
      → Logger
      → ℕ
      → Opened S × (Logger × List Delivery)
  pub poll : T → S → List HttpMessage → Option (S × List (List Call))
  pub poll_nothing : (server : T) (s : S) → poll server s [] ≡ some (s, [])
  -- Messages are handled one after the other, whichever poll they come in.
  pub poll_parts :
      (server : T) (s s' s'' : S) (xs ys : List HttpMessage) (replies replies' : List (List Call))
      → poll server s xs ≡ some (s', replies)
      → poll server s' ys ≡ some (s'', replies')
      → poll server s (xs ++ ys) ≡ some (s'', replies ++ replies')

module _ {S : Type 0} (lib : JsonLib) where
  abbrev more : List Call → Option (S × List (List Call)) → Option (S × List (List Call))
  more calls o = elim o [ none ↦ none | some (s', later) ↦ some (s', calls ∷ later) ]

  abbrev rest_of :
      HttpServer S → List HttpMessage → Option (S × List Call) → Option (S × List (List Call))
  rest_of server messages o = with_later o (λ s'. poll_server lib server s' messages)

  -- The replies of two polls in a row are those of one poll.
  pub poll_server-append :
      (server : HttpServer S) (s s' s'' : S) (xs ys : List HttpMessage)
      (replies replies' : List (List Call))
      → poll_server lib server s xs ≡ some (s', replies)
      → poll_server lib server s' ys ≡ some (s'', replies')
      → poll_server lib server s (xs ++ ys) ≡ some (s'', replies ++ replies')
  unfolding poll_server
  poll_server-append server s s' s'' [] ys replies replies' h k =
      let e = some-injective (s, []) (s', replies) h in
      ap (λ (r : S × List (List Call)). poll_server lib server r.0 ys) e
      ∙ k
      ∙ ap (λ (r : S × List (List Call)). some (s'', r.1 ++ replies')) e
  poll_server-append server s s' s'' (hm ∷ xs) ys replies replies' h k =
      elim (Option-cases (event_handler lib server.request_map hm s [])) [
        | inl n ↦ absurd (none-ne-some (s', replies) (sym (ap (rest_of server xs) n) ∙ h))
        | inr ((s1, calls), e) ↦
            let h' = sym (ap (rest_of server xs) e) ∙ h in
            elim (Option-cases (poll_server lib server s1 xs)) [
              | inl n ↦ absurd (none-ne-some (s', replies) (sym (ap (more calls) n) ∙ h'))
              | inr ((s2, later), f) ↦
                  let g =
                    some-injective (s2, calls ∷ later) (s', replies)
                      (sym (ap (more calls) f) ∙ h') in
                  let f' = f ∙ ap (λ (r : S × List (List Call)). some (r.0, later)) g in
                  ap (rest_of server (xs ++ ys)) e
                  ∙ ap (more calls) (poll_server-append server s1 s' s'' xs ys later replies' f' k)
                  ∙ ap (λ (r : S × List (List Call)). some (s'', r.1 ++ replies')) g
            ]
      ]

  nothing : (server : HttpServer S) (s : S) → poll_server lib server s [] ≡ some (s, [])
  unfolding poll_server
  nothing server s = refl

  abbrev server_class : ServerClass S
  server_class = record {
    T = HttpServer S;
    create = new_server;
    poll = poll_server lib;
    poll_nothing = nothing;
    poll_parts = poll_server-append;
  }
