-- ===== src/App/Creation.antt =====
-- A request to create a stream, from the address to the reply that names it.
use mathlib.Core.Option.{some-injective, none-ne-some}
use http_audio_server.Common.Words.{and_true}
use http_audio_server.Common.{
  Bool, ◌&&◌, ℕ, zero, suc, ◌≡◌, ◌<◌, refl, sym, ap, ◌∙◌, subst, true, none, some, List, [], ◌∷◌,
  ◌++◌, length, All, append-nil, get_elem?, arith,
}
use http_audio_server.Common.Text.{codes}
use http_audio_server.Common.Words.{same_text}
use http_audio_server.Response.{
  Call, send_head, Response, new_response, destroy, header, stream, extra_headers, write, endl,
}
use http_audio_server.Response.Chunks.{write-Sends, Sends-trans}
use http_audio_server.Response.Wire.{Ends, flush-destroy-Ends}
use http_audio_server.Pipe.{Source}
use http_audio_server.Stream.{new_stream}
use http_audio_server.Stream.Env.{World}
use http_audio_server.StringUtils.{alphanum, random_alphanum_string}
use http_audio_server.StringUtils.Shape.{IsAlphanum, random_alphanum_string_lem}
use http_audio_server.Handlers.{Streams, find, emplace, handle_stream_create}
use http_audio_server.Handlers.Map.{find-emplace}
use http_audio_server.Routes.{is_alnum, matches_create}
use http_audio_server.Routes.Paths.{IsAlnum}
use http_audio_server.App.{
  App, with_streams, index_entry, create_entry, append_entry, advance_entry, destroy_entry,
  request_map, serve,
}
use http_audio_server.App.Requests.{IsId, post, served, index-Misses}

abbrev all_alnum : List ℕ → Bool
all_alnum [] = true
all_alnum (c ∷ cs) = is_alnum c && all_alnum cs

all_alnum→All : (cs : List ℕ) → all_alnum cs ≡ true → IsAlnum cs
all_alnum→All [] h = tt
all_alnum→All (c ∷ cs) h =
    let (e, es) = and_true (is_alnum c) (all_alnum cs) h in (e, all_alnum→All cs es)

alphanum-IsAlnum : IsAlnum alphanum
unfolding is_alnum
alphanum-IsAlnum = all_alnum→All alphanum refl

get_elem?-All : (P : ℕ → Type 0) (xs : List ℕ) (n c : ℕ) → All P xs → get_elem? xs n ≡ some c → P c
get_elem?-All P [] n c h e = absurd (none-ne-some c e)
get_elem?-All P (x ∷ xs) zero c (h, hs) e = subst P (some-injective x c e) h
get_elem?-All P (x ∷ xs) (suc n) c (h, hs) e = get_elem?-All P xs n c hs e

names-IsAlnum : (name : List ℕ) → All IsAlphanum name → IsAlnum name
names-IsAlnum [] h = tt
names-IsAlnum (c ∷ name) ((n, e), hs) =
    (get_elem?-All (λ c. is_alnum c ≡ true) alphanum n c alphanum-IsAlnum e, names-IsAlnum name hs)

-- The names of streams can stand in an address.
drawn-IsId :
    (draw : ℕ → ℕ) (id : List ℕ)
    → ((k : ℕ) → draw k < 62)
    → random_alphanum_string draw 16 ≡ some id
    → IsId id × (length id ≡ 16)
drawn-IsId draw id inside e =
    let (name, run, len, all) = random_alphanum_string_lem draw 16 inside (omega arith) in
    let same : name ≡ id = sym (append-nil name) ∙ some-injective _ _ (sym run ∙ e) in
    subst (λ i. IsId i × (length i ≡ 16)) same ((names-IsAlnum name all, omega (arith, len)), len)

module _ (w : World) where
  abbrev headed : Response
  headed = record {
    calls = send_head 200 (codes "Content-Type: text/plain") ∷ [];
    pending = [];
    header_sent = true;
  }

  create_run :
      (draw : ℕ → ℕ) (streams : Streams w) (id : List ℕ)
      → random_alphanum_string draw 16 ≡ some id
      → handle_stream_create w draw streams (new_response [])
        ≡ some (emplace w streams id (new_stream w 196000), endl (write headed id), some tt)
  unfolding handle_stream_create header stream extra_headers new_response
  create_run draw streams id e = rw (e, handle_stream_create) refl

  reply-Ends :
      (id : List ℕ) → Ends headed.calls (id ++ b'\n' ∷ []) 2 (destroy (endl (write headed id)))
  unfolding endl
  reply-Ends id =
      let first = write-Sends headed id (omega arith) in
      let both =
        Sends-trans headed (write headed id) (write (write headed id) (b'\n' ∷ [])) id (b'\n' ∷ [])
          first (write-Sends (write headed id) (b'\n' ∷ []) first.room) in
      flush-destroy-Ends headed (write (write headed id) (b'\n' ∷ [])) (id ++ b'\n' ∷ []) both refl
        both.header_eq

  -- A request to create a stream, where the engine draws numbers below 62 and the name is not in
  -- use: the name has 16 characters and can stand in an address, an empty stream is found under it,
  -- and the body of the reply is the name and a line break.
  pub serve-create :
      (draws : ℕ → ℕ → ℕ) (page : Source) (a : App w) (body id : List ℕ)
      → ((k : ℕ) → draws a.drawn k < 62)
      → random_alphanum_string (draws a.drawn) 16 ≡ some id
      → find w a.streams id ≡ none
      → (streams' : Streams w) × (out : List Call) × (serve w draws page
            (post (codes "/stream/create") body)
            a
          ≡ some (record { streams = streams'; drawn = suc a.drawn }, out))
        × (find w streams' id ≡ some (new_stream w 196000))
        × (IsId id × (length id ≡ 16))
        × Ends (send_head 200 (codes "Content-Type: text/plain") ∷ []) (id ++ b'\n' ∷ []) 2 out
  unfolding create_entry request_map same_text matches_create
  serve-create draws page a body id inside e fresh =
      let uri : List ℕ = codes "/stream/create" in
      let streams' : Streams w = emplace w a.streams id (new_stream w 196000) in
      (
        streams',
        destroy (endl (write headed id)),
        served w draws page (index_entry w draws page ∷ [])
            (append_entry w draws page
              ∷ advance_entry w draws page
              ∷ destroy_entry w draws page
              ∷ [])
            (create_entry w draws page) uri body (uri ∷ []) a
            (record { streams = streams'; drawn = suc a.drawn }) (endl (write headed id)) refl
            (index-Misses w draws page uri body, tt) refl refl
            (ap (with_streams w draws page (record a { drawn = suc a.drawn }))
              (create_run (draws a.drawn) a.streams id e)),
        find-emplace w a.streams id (new_stream w 196000) fresh,
        drawn-IsId (draws a.drawn) id inside e,
        reply-Ends id,
      )
