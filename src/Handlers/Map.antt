-- ===== src/Handlers/Map.antt =====
-- The map of streams: no id has two entries, and what is found behind each change.
use http_audio_server.Common.{
  ℕ, ◌≡◌, refl, sym, ap, ◌∙◌, subst, Bool, true, false, Option, none, some, List, [], ◌∷◌,
  if◌then◌else◌, Bool-cases, Option-cases, inl, inr,
}
use mathlib.Core.Option.{none-ne-some}
use http_audio_server.Common.Words.{
  same_text, same_text_self, same_text→eq, same_text-ne, true≢false,
}
use http_audio_server.Stream.{Stream}
use http_audio_server.Stream.Env.{World}
use http_audio_server.Handlers.{Streams, find, emplace, store, erase}

module _ (w : World) where
  -- No key stands twice.
  unfoldable pub Unique : Streams w → Type 0
  Unique [] = Unit
  Unique ((key, st) ∷ streams) = (find w streams key ≡ none) × Unique streams

  abbrev pick : Stream w → Option (Stream w) → Bool → Option (Stream w)
  pick st later b = if b then some st else later

  pub find_hit :
      (key id : List ℕ) (st : Stream w) (streams : Streams w)
      → same_text key id ≡ true
      → find w ((key, st) ∷ streams) id ≡ some st
  unfolding find
  find_hit key id st streams e = ap (pick st (find w streams id)) e

  pub find_miss :
      (key id : List ℕ) (st : Stream w) (streams : Streams w)
      → same_text key id ≡ false
      → find w ((key, st) ∷ streams) id ≡ find w streams id
  unfolding find
  find_miss key id st streams e = ap (pick st (find w streams id)) e

  pub emplace_new :
      (streams : Streams w) (id : List ℕ) (st : Stream w)
      → find w streams id ≡ none
      → emplace w streams id st ≡ (id, st) ∷ streams
  unfolding emplace
  emplace_new streams id st h =
      ap (λ o. elim o [ some old ↦ streams | none ↦ (id, st) ∷ streams ]) h

  pub emplace_old :
      (streams : Streams w) (id : List ℕ) (st old : Stream w)
      → find w streams id ≡ some old
      → emplace w streams id st ≡ streams
  unfolding emplace
  emplace_old streams id st old h =
      ap (λ o. elim o [ some old ↦ streams | none ↦ (id, st) ∷ streams ]) h

  -- A new id is found behind `emplace`.
  pub find-emplace :
      (streams : Streams w) (id : List ℕ) (st : Stream w)
      → find w streams id ≡ none
      → find w (emplace w streams id st) id ≡ some st
  find-emplace streams id st h =
      ap (λ s. find w s id) (emplace_new streams id st h)
      ∙ find_hit id id st streams (same_text_self id)

  pub emplace-Unique :
      (streams : Streams w) (id : List ℕ) (st : Stream w)
      → Unique streams
      → Unique (emplace w streams id st)
  unfolding Unique
  emplace-Unique streams id st u = elim (Option-cases (find w streams id)) [
    | inl n ↦ subst Unique (sym (emplace_new streams id st n)) (n, u)
    | inr (old, e) ↦ subst Unique (sym (emplace_old streams id st old e)) u
  ]

  -- An entry that is there is found behind `emplace`, also if it is for the same id.
  pub find-emplace_kept :
      (streams : Streams w) (id other : List ℕ) (st old : Stream w)
      → find w streams other ≡ some old
      → find w (emplace w streams id st) other ≡ some old
  find-emplace_kept streams id other st old h = elim (Option-cases (find w streams id)) [
    | inr (there, e) ↦ ap (λ s. find w s other) (emplace_old streams id st there e) ∙ h
    | inl n ↦
        ap (λ s. find w s other) (emplace_new streams id st n)
        ∙ find_miss id other st streams
            (same_text-ne id other (λ e. none-ne-some old (sym n ∙ ap (find w streams) e ∙ h)))
        ∙ h
  ]

  -- What is found behind an entry depends on what is found in the rest.
  pub find_cong :
      (key other : List ℕ) (st : Stream w) (xs ys : Streams w)
      → find w xs other ≡ find w ys other
      → find w ((key, st) ∷ xs) other ≡ find w ((key, st) ∷ ys) other
  unfolding find
  find_cong key other st xs ys e = ap (λ later. pick st later (same_text key other)) e

  pub store_hit :
      (key id : List ℕ) (st old : Stream w) (streams : Streams w)
      → same_text key id ≡ true
      → store w ((key, old) ∷ streams) id st ≡ (key, st) ∷ streams
  unfolding store
  store_hit key id st old streams e =
      ap (λ b. if b then (key, st) ∷ streams else (key, old) ∷ store w streams id st) e

  pub store_miss :
      (key id : List ℕ) (st old : Stream w) (streams : Streams w)
      → same_text key id ≡ false
      → store w ((key, old) ∷ streams) id st ≡ (key, old) ∷ store w streams id st
  unfolding store
  store_miss key id st old streams e =
      ap (λ b. if b then (key, st) ∷ streams else (key, old) ∷ store w streams id st) e

  erase_hit :
      (key id : List ℕ) (old : Stream w) (streams : Streams w)
      → same_text key id ≡ true
      → erase w ((key, old) ∷ streams) id ≡ streams
  unfolding erase
  erase_hit key id old streams e =
      ap (λ b. if b then streams else (key, old) ∷ erase w streams id) e

  erase_miss :
      (key id : List ℕ) (old : Stream w) (streams : Streams w)
      → same_text key id ≡ false
      → erase w ((key, old) ∷ streams) id ≡ (key, old) ∷ erase w streams id
  unfolding erase
  erase_miss key id old streams e =
      ap (λ b. if b then streams else (key, old) ∷ erase w streams id) e

  flip : (a b : List ℕ) → same_text a b ≡ false → same_text b a ≡ false
  flip a b h =
      same_text-ne b a (λ e. true≢false (sym (same_text_self a) ∙ ap (same_text a) (sym e) ∙ h))

  pub find-store :
      (streams : Streams w) (id : List ℕ) (st old : Stream w)
      → find w streams id ≡ some old
      → find w (store w streams id st) id ≡ some st
  unfolding store find
  find-store [] id st old h = absurd (none-ne-some old h)
  find-store ((key, o) ∷ streams) id st old h = elim (Bool-cases (same_text key id)) [
    | inl e ↦ ap (λ s. find w s id) (store_hit key id st o streams e) ∙ find_hit key id st streams e
    | inr e ↦
        ap (λ s. find w s id) (store_miss key id st o streams e)
        ∙ find_miss key id o (store w streams id st) e
        ∙ find-store streams id st old (sym (find_miss key id o streams e) ∙ h)
  ]

  -- The key of a change is not another id.
  elsewhere :
      (key id other : List ℕ)
      → same_text key id ≡ true
      → same_text id other ≡ false
      → same_text key other ≡ false
  elsewhere key id other e h = ap (λ k. same_text k other) (same_text→eq key id e) ∙ h

  -- A change of the entry of `id` keeps what is found for other ids.
  pub find-store_other :
      (streams : Streams w) (id other : List ℕ) (st : Stream w)
      → same_text id other ≡ false
      → find w (store w streams id st) other ≡ find w streams other
  unfolding store find
  find-store_other [] id other st h = refl
  find-store_other ((key, o) ∷ streams) id other st h = elim (Bool-cases (same_text key id)) [
    | inl e ↦
        ap (λ s. find w s other) (store_hit key id st o streams e)
        ∙ find_miss key other st streams (elsewhere key id other e h)
        ∙ sym (find_miss key other o streams (elsewhere key id other e h))
    | inr e ↦
        ap (λ s. find w s other) (store_miss key id st o streams e)
        ∙ find_cong key other o (store w streams id st) streams
            (find-store_other streams id other st h)
  ]

  pub find-erase_other :
      (streams : Streams w) (id other : List ℕ)
      → same_text id other ≡ false
      → find w (erase w streams id) other ≡ find w streams other
  unfolding erase find
  find-erase_other [] id other h = refl
  find-erase_other ((key, o) ∷ streams) id other h = elim (Bool-cases (same_text key id)) [
    | inl e ↦
        ap (λ s. find w s other) (erase_hit key id o streams e)
        ∙ sym (find_miss key other o streams (elsewhere key id other e h))
    | inr e ↦
        ap (λ s. find w s other) (erase_miss key id o streams e)
        ∙ find_cong key other o (erase w streams id) streams (find-erase_other streams id other h)
  ]

  pub find-erase :
      (streams : Streams w) (id : List ℕ) → Unique streams → find w (erase w streams id) id ≡ none
  unfolding erase find Unique
  find-erase [] id u = refl
  find-erase ((key, o) ∷ streams) id (n, u) = elim (Bool-cases (same_text key id)) [
    | inl e ↦
        ap (λ s. find w s id) (erase_hit key id o streams e)
        ∙ ap (find w streams) (sym (same_text→eq key id e))
        ∙ n
    | inr e ↦
        ap (λ s. find w s id) (erase_miss key id o streams e)
        ∙ find_miss key id o (erase w streams id) e
        ∙ find-erase streams id u
  ]

  pub store-Unique :
      (streams : Streams w) (id : List ℕ) (st : Stream w)
      → Unique streams
      → Unique (store w streams id st)
  unfolding store Unique
  store-Unique [] id st u = tt
  store-Unique ((key, o) ∷ streams) id st (n, u) = elim (Bool-cases (same_text key id)) [
    | inl e ↦ subst Unique (sym (store_hit key id st o streams e)) (n, u)
    | inr e ↦
        subst Unique (sym (store_miss key id st o streams e))
          (find-store_other streams id key st (flip key id e) ∙ n, store-Unique streams id st u)
  ]

  pub erase-Unique :
      (streams : Streams w) (id : List ℕ) → Unique streams → Unique (erase w streams id)
  unfolding erase Unique
  erase-Unique [] id u = tt
  erase-Unique ((key, o) ∷ streams) id (n, u) = elim (Bool-cases (same_text key id)) [
    | inl e ↦ subst Unique (sym (erase_hit key id o streams e)) u
    | inr e ↦
        subst Unique (sym (erase_miss key id o streams e))
          (find-erase_other streams id key (flip key id e) ∙ n, erase-Unique streams id u)
  ]
