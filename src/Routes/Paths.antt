-- ===== src/Routes/Paths.antt =====
-- The addresses that name a stream.
use mathlib.Core.Path.{ap₂}
use mathlib.Core.Option.{some-injective, none-ne-some}
use http_audio_server.Common.{
  lt→ltb, drop, ltb→lt, Option-cases, ℕ, ◌<◌, ◌≡◌, refl, sym, ap, ◌∙◌, Bool, true, false, ◌&&◌,
  none, some, List, [], ◌∷◌, ◌++◌, length, ltb, ◌==◌, ==_iff, All, if◌then◌else◌, Bool-cases, inl,
  inr, arith,
}
use http_audio_server.Common.Text.{codes}
use http_audio_server.Common.Words.{same_text, same_text_self, same_text→eq, same_text-ne, and_true}
use http_audio_server.Routes.{
  is_alnum, drop_prefix, take_id, id_then, matches_stream, matches_create,
}

abbrev pub IsAlnum : List ℕ → Type 0
IsAlnum = All (λ c. is_alnum c ≡ true)

-- The address of an action on a stream.
abbrev pub path : List ℕ → List ℕ → List ℕ
path id suffix = codes "/stream/" ++ (id ++ suffix)

take_id_run :
    (id suffix : List ℕ) (c : ℕ)
    → IsAlnum id
    → is_alnum c ≡ false
    → take_id (id ++ c ∷ suffix) ≡ (id, c ∷ suffix)
unfolding take_id
take_id_run [] suffix c h k =
    ap (λ b. if b then (c ∷ (take_id suffix).0, (take_id suffix).1) else ([], c ∷ suffix)) k
take_id_run (d ∷ id) suffix c (h, hs) k =
    ap
      (λ b.
        if b
        then (d ∷ (take_id (id ++ c ∷ suffix)).0, (take_id (id ++ c ∷ suffix)).1)
        else ([], d ∷ (id ++ c ∷ suffix)))
      h
    ∙ ap (λ r. (d ∷ r.0, r.1)) (take_id_run id suffix c hs k)

take_id_split : (text : List ℕ) → let (id, rest) = take_id text in (text ≡ id ++ rest) × IsAlnum id
unfolding take_id
take_id_split [] = (refl, tt)
take_id_split (c ∷ text) = elim (Bool-cases (is_alnum c)) [
  | inl e ↦ rw (e, take_id) (ap (◌∷◌ c) (take_id_split text).0, (e, (take_id_split text).1))
  | inr e ↦ rw (e, take_id) (refl, tt)
]

drop_prefix_self : (prefix rest : List ℕ) → drop_prefix prefix (prefix ++ rest) ≡ some rest
unfolding drop_prefix
drop_prefix_self [] rest = refl
drop_prefix_self (c ∷ prefix) rest =
    ap (λ b. if b then drop_prefix prefix (prefix ++ rest) else none) ((==_iff c c).1 refl)
    ∙ drop_prefix_self prefix rest

drop_prefix→eq :
    (prefix uri rest : List ℕ) → drop_prefix prefix uri ≡ some rest → uri ≡ prefix ++ rest
unfolding drop_prefix
drop_prefix→eq [] uri rest h = some-injective _ _ h
drop_prefix→eq (c ∷ prefix) [] rest h = absurd (none-ne-some rest h)
drop_prefix→eq (c ∷ prefix) (d ∷ uri) rest h = elim (Bool-cases (c == d)) [
  | inl e ↦
      ap₂ (λ (x : ℕ) (xs : List ℕ). x ∷ xs) (sym ((==_iff c d).0 e))
        (drop_prefix→eq prefix uri rest
          (sym (ap (λ b. if b then drop_prefix prefix uri else none) e) ∙ h))
  | inr e ↦
      absurd (none-ne-some rest (sym (ap (λ b. if b then drop_prefix prefix uri else none) e) ∙ h))
]

-- The address of an action is recognised, and gives back the id.
pub matches_stream-path :
    (id suffix : List ℕ) (c : ℕ)
    → IsAlnum id
    → 0 < length id
    → is_alnum c ≡ false
    → matches_stream (c ∷ suffix) (path id (c ∷ suffix)) ≡ some (path id (c ∷ suffix) ∷ id ∷ [])
unfolding matches_stream
matches_stream-path id suffix c h pos k =
    let uri : List ℕ = path id (c ∷ suffix) in
    ap (id_then (c ∷ suffix) uri) (drop_prefix_self (codes "/stream/") (id ++ c ∷ suffix))
    ∙ ap
        (λ (r : List ℕ × List ℕ).
          if ltb 0 (length r.0) && same_text r.1 (c ∷ suffix) then some (uri ∷ r.0 ∷ []) else none)
        (take_id_run id suffix c h k)
    ∙ ap (λ b. if b then some (uri ∷ id ∷ []) else none)
        (ap₂ ◌&&◌ (lt→ltb 0 (length id) pos) (same_text_self (c ∷ suffix)))

id_then→path :
    (suffix uri rest : List ℕ) (groups : List (List ℕ))
    → uri ≡ codes "/stream/" ++ rest
    → id_then suffix uri (some rest) ≡ some groups
    → (id : List ℕ) × (groups ≡ uri ∷ id ∷ [])
      × (uri ≡ path id suffix)
      × IsAlnum id
      × (0 < length id)
id_then→path suffix uri rest groups e h =
    let id : List ℕ = (take_id rest).0 in
    let tail : List ℕ = (take_id rest).1 in
    let (split, all) = take_id_split rest in
    elim (Bool-cases (ltb 0 (length id) && same_text tail suffix)) [
      | inr f ↦
          absurd
            (none-ne-some groups (sym (ap (λ b. if b then some (uri ∷ id ∷ []) else none) f) ∙ h))
      | inl f ↦
          let (pos, same) = and_true (ltb 0 (length id)) (same_text tail suffix) f in
          (
            id,
            some-injective _ _ (sym h ∙ ap (λ b. if b then some (uri ∷ id ∷ []) else none) f),
            e
                ∙ ap (λ r. codes "/stream/" ++ r)
                    (split ∙ ap (λ r. id ++ r) (same_text→eq tail suffix same)),
            all,
            ltb→lt 0 (length id) pos,
          )
    ]

-- An address is recognised only if it is that of an action with this suffix, for the id that is
-- given back, which is not empty and has letters and digits only.
pub matches_stream→path :
    (suffix uri : List ℕ) (groups : List (List ℕ))
    → matches_stream suffix uri ≡ some groups
    → (id : List ℕ) × (groups ≡ uri ∷ id ∷ [])
      × (uri ≡ path id suffix)
      × IsAlnum id
      × (0 < length id)
unfolding matches_stream
matches_stream→path suffix uri groups h = elim (Option-cases (drop_prefix (codes "/stream/") uri)) [
  | inl n ↦ absurd (none-ne-some groups (sym (ap (id_then suffix uri) n) ∙ h))
  | inr (rest, e) ↦
      id_then→path suffix uri rest groups (drop_prefix→eq (codes "/stream/") uri rest e)
        (sym (ap (id_then suffix uri) e) ∙ h)
]

create_ends : length (take_id (codes "create")).1 ≡ 0
unfolding take_id is_alnum
create_ends = refl

and_false : (b : Bool) → (b && false) ≡ false
and_false true = refl
and_false false = refl

-- The address for creating a stream is not the address of an action.
pub matches_create-path :
    (id suffix : List ℕ) (c : ℕ)
    → IsAlnum id
    → is_alnum c ≡ false
    → matches_create (path id (c ∷ suffix)) ≡ none
unfolding matches_create
matches_create-path id suffix c h k =
    let uri : List ℕ = path id (c ∷ suffix) in
    ap (λ b. if b then some (uri ∷ []) else none)
      (same_text-ne (codes "/stream/create") uri (λ e. omega (
        arith,
        ap (λ t. length (take_id (drop 8 t)).1) e,
        create_ends,
        ap (λ (r : List ℕ × List ℕ). length r.1) (take_id_run id suffix c h k),
      )))

-- The address of an action is not that of another one.
pub matches_stream-other :
    (id suffix other : List ℕ) (c : ℕ)
    → IsAlnum id
    → is_alnum c ≡ false
    → same_text (c ∷ suffix) other ≡ false
    → matches_stream other (path id (c ∷ suffix)) ≡ none
unfolding matches_stream
matches_stream-other id suffix other c h k apart =
    let uri : List ℕ = path id (c ∷ suffix) in
    ap (id_then other uri) (drop_prefix_self (codes "/stream/") (id ++ c ∷ suffix))
    ∙ ap
        (λ (r : List ℕ × List ℕ).
          if ltb 0 (length r.0) && same_text r.1 other then some (uri ∷ r.0 ∷ []) else none)
        (take_id_run id suffix c h k)
    ∙ ap (λ b. if b then some (uri ∷ id ∷ []) else none)
        (ap (λ b. ltb 0 (length id) && b) apart ∙ and_false (ltb 0 (length id)))
