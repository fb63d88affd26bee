-- ===== src/Metadata/Flat.antt =====
-- The map that `flaten` makes of an object, by its leaves.
use mathlib.Core.Path.{ap₂}
use mathlib.Core.Option.{none-ne-some}
use http_audio_server.Common.{
  Option-cases, ℕ, ◌≡◌, refl, sym, ap, ◌∙◌, Bool, false, Option, none, some, List, [], ◌∷◌, ◌++◌,
  if◌then◌else◌, Bool-cases, inl, inr,
}
use http_audio_server.Common.Words.{same_text, same_text→eq, text_lt, true≢false}
use http_audio_server.Json.{Fields, end, field, null, boolean, integer, real, string, array, object}
use http_audio_server.Metadata.{
  Data, Value, find_key, insert, emplace_key, tar_key, flaten_value, flaten_fields, flaten,
}
use http_audio_server.Metadata.Env.{Tools, Double}

abbrev pub or_else : {A : Type 0} → Option A → Option A → Option A
or_else (some a) b = some a
or_else none b = b

or_else_assoc : {A : Type 0} (a b c : Option A) → or_else (or_else a b) c ≡ or_else a (or_else b c)
or_else_assoc (some a) b c = refl
or_else_assoc none b c = refl

or_else-none : {A : Type 0} (a : Option A) → or_else a none ≡ a
or_else-none (some a) = refl
or_else-none none = refl

module _ (t : Tools) where
  -- The values in an object that are no objects, under the names that lead to them, in the order
  -- of the text.
  unfoldable mutual
    unfolding tar_key

    pub leaves_of : List ℕ → Value t → Data t
    leaves_of key (object fields) = leaves key fields
    leaves_of key (array items) = (key, array items) ∷ []
    leaves_of key (string text) = (key, string text) ∷ []
    leaves_of key (real d) = (key, real d) ∷ []
    leaves_of key (integer n) = (key, integer n) ∷ []
    leaves_of key (boolean b) = (key, boolean b) ∷ []
    leaves_of key null = (key, null) ∷ []

    pub leaves : List ℕ → Fields (Double t) → Data t
    leaves prefix end = []
    leaves prefix (field key v fields) = leaves_of (tar_key prefix key) v ++ leaves prefix fields

  find_key-append :
      (k : List ℕ) (xs ys : Data t)
      → find_key t k (xs ++ ys) ≡ or_else (find_key t k xs) (find_key t k ys)
  unfolding find_key
  find_key-append k [] ys = refl
  find_key-append k ((j, v) ∷ xs) ys = elim (Bool-cases (same_text j k)) [
    | inl e ↦ rw e refl
    | inr e ↦ rw e (find_key-append k xs ys)
  ]

  abbrev found : Bool → Value t → Option (Value t) → Option (Value t)
  found b v later = if b then some v else later

  swap_found :
      (k j key : List ℕ) (v w : Value t) (later : Option (Value t))
      → same_text j key ≡ false
      → found (same_text key k) v (found (same_text j k) w later)
        ≡ found (same_text j k) w (found (same_text key k) v later)
  swap_found k j key v w later h = elim (Bool-cases (same_text key k)) [
    | inl e ↦ elim (Bool-cases (same_text j k)) [
      | inl f ↦ absurd (true≢false (sym f ∙ ap (same_text j) (sym (same_text→eq key k e)) ∙ h))
      | inr f ↦ rw (e, f) refl
    ]
    | inr e ↦ rw e refl
  ]

  find_key-insert :
      (k key : List ℕ) (v : Value t) (tags : Data t)
      → find_key t key tags ≡ none
      → find_key t k (insert t key v tags) ≡ found (same_text key k) v (find_key t k tags)
  unfolding find_key insert
  find_key-insert k key v [] h = refl
  find_key-insert k key v ((j, w) ∷ tags) h = elim (Bool-cases (same_text j key)) [
    | inl g ↦ absurd (none-ne-some w (sym h ∙ ap (λ b. found b w (find_key t key tags)) g))
    | inr g ↦ elim (Bool-cases (text_lt key j)) [
      | inl e ↦
          ap
            (λ b.
              find_key t k (if b then (key, v) ∷ (j, w) ∷ tags else (j, w) ∷ insert t key v tags))
            e
      | inr e ↦
          ap
            (λ b.
              find_key t k (if b then (key, v) ∷ (j, w) ∷ tags else (j, w) ∷ insert t key v tags))
            e
          ∙ ap (found (same_text j k) w)
              (find_key-insert k key v tags (sym (ap (λ b. found b w (find_key t key tags)) g) ∙ h))
          ∙ sym (swap_found k j key v w (find_key t k tags) g)
    ]
  ]

  find_key-emplace_key :
      (k key : List ℕ) (v : Value t) (tags : Data t)
      → find_key t k (emplace_key t key v tags)
        ≡ or_else (find_key t k tags) (find_key t k ((key, v) ∷ []))
  unfolding emplace_key find_key
  find_key-emplace_key k key v tags = elim (Option-cases (find_key t key tags)) [
    | inl n ↦
        ap (λ o. find_key t k (elim o [ some w ↦ tags | none ↦ insert t key v tags ])) n
        ∙ find_key-insert k key v tags n
        ∙ elim (Bool-cases (same_text key k)) [
          | inl e ↦
              ap (λ b. found b v (find_key t k tags)) e
              ∙ sym (
                  ap₂ or_else (ap (λ x. find_key t x tags) (sym (same_text→eq key k e)) ∙ n)
                    (ap (λ b. found b v none) e))
          | inr e ↦
              ap (λ b. found b v (find_key t k tags)) e
              ∙ sym (
                  ap (λ b. or_else (find_key t k tags) (found b v none)) e
                  ∙ or_else-none (find_key t k tags))
        ]
    | inr (w, f) ↦
        ap (λ o. find_key t k (elim o [ some w ↦ tags | none ↦ insert t key v tags ])) f
        ∙ elim (Bool-cases (same_text key k)) [
          | inl e ↦
              let here : find_key t k tags ≡ some w =
                ap (λ x. find_key t x tags) (sym (same_text→eq key k e)) ∙ f in
              here ∙ sym (ap (λ o. or_else o (found (same_text key k) v none)) here)
          | inr e ↦ sym (
              ap (λ b. or_else (find_key t k tags) (found b v none)) e
              ∙ or_else-none (find_key t k tags))
        ]
  ]

  mutual
    unfolding flaten_value flaten_fields leaves_of leaves find_key

    find_key-flaten_value :
        (k key : List ℕ) (v : Value t) (tags : Data t)
        → find_key t k (flaten_value t key v tags)
          ≡ or_else (find_key t k tags) (find_key t k (leaves_of key v))
    find_key-flaten_value k key (object fields) tags = find_key-flaten_fields k key fields tags
    find_key-flaten_value k key (array items) tags = find_key-emplace_key k key (array items) tags
    find_key-flaten_value k key (string text) tags = find_key-emplace_key k key (string text) tags
    find_key-flaten_value k key (real d) tags = find_key-emplace_key k key (real d) tags
    find_key-flaten_value k key (integer n) tags = find_key-emplace_key k key (integer n) tags
    find_key-flaten_value k key (boolean b) tags = find_key-emplace_key k key (boolean b) tags
    find_key-flaten_value k key null tags = find_key-emplace_key k key null tags

    find_key-flaten_fields :
        (k prefix : List ℕ) (fields : Fields (Double t)) (tags : Data t)
        → find_key t k (flaten_fields t prefix fields tags)
          ≡ or_else (find_key t k tags) (find_key t k (leaves prefix fields))
    find_key-flaten_fields k prefix end tags = sym (or_else-none (find_key t k tags))
    find_key-flaten_fields k prefix (field key v fields) tags =
        find_key-flaten_fields k prefix fields (flaten_value t (tar_key prefix key) v tags)
        ∙ ap (λ o. or_else o (find_key t k (leaves prefix fields)))
            (find_key-flaten_value k (tar_key prefix key) v tags)
        ∙ or_else_assoc (find_key t k tags) (find_key t k (leaves_of (tar_key prefix key) v))
            (find_key t k (leaves prefix fields))
        ∙ ap (or_else (find_key t k tags))
            (sym (find_key-append k (leaves_of (tar_key prefix key) v) (leaves prefix fields)))

  -- The map that is made of an object has for each name the first of the leaves with that name.
  pub find_key-flaten :
      (fields : Fields (Double t))
      → (tags : Data t) × (flaten t (object fields) [] ≡ some tags)
        × ((key : List ℕ) → find_key t key tags ≡ find_key t key (leaves [] fields))
  unfolding flaten find_key
  find_key-flaten fields =
      (flaten_fields t [] fields [], refl, λ key. find_key-flaten_fields key [] fields [])
