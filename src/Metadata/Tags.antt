-- ===== src/Metadata/Tags.antt =====
-- Each tag is read as if it were the only one: taking out the others does not matter.
use http_audio_server.Common.{
  ℕ, ◌≡◌, refl, sym, ap, ◌∙◌, Bool, true, false, Option, none, some, List, [], ◌∷◌, All,
  if◌then◌else◌, drop, ◌-◌, Bool-cases, inl, inr,
}
use http_audio_server.Common.Int.{ℤ, negsuc}
use http_audio_server.Common.Text.{codes}
use http_audio_server.Common.Words.{same_icase, same_icase_apart, same_text, lower}
use http_audio_server.Metadata.{
  Metadata, Data, Value, get_json, get_string, get_number, number_of, text_of, with_rest,
}
use http_audio_server.Metadata.Env.{Tools, Long}
use http_audio_server.Metadata.File.{Reader, ◌>>=◌, read_tags}

module _ (t : Tools) where
  -- The value of the first key that matches, or `null`; and the map without it.
  abbrev pub first : List ℕ → Data t → Value t
  first p tags = (get_json t p tags).0

  abbrev pub without : List ℕ → Data t → Data t
  without p tags = (get_json t p tags).1

  abbrev entry : List ℕ → List ℕ → Value t → Data t → Bool → Value t × Data t
  entry p k v tags b = if b then (v, tags) else (first p tags, (k, v) ∷ without p tags)

  get_json_hit :
      (p k : List ℕ) (v : Value t) (tags : Data t)
      → same_icase p k ≡ true
      → get_json t p ((k, v) ∷ tags) ≡ (v, tags)
  unfolding get_json
  get_json_hit p k v tags e = ap (entry p k v tags) e

  get_json_miss :
      (p k : List ℕ) (v : Value t) (tags : Data t)
      → same_icase p k ≡ false
      → get_json t p ((k, v) ∷ tags) ≡ (first p tags, (k, v) ∷ without p tags)
  unfolding get_json
  get_json_miss p k v tags e = ap (entry p k v tags) e

  without_nil : (q : List ℕ) → without q [] ≡ []
  unfolding get_json
  without_nil q = refl

  first-without :
      (p q : List ℕ) (tags : Data t)
      → same_icase q p ≡ false
      → first p (without q tags) ≡ first p tags
  first-without p q [] h = ap (first p) (without_nil q)
  first-without p q ((k, v) ∷ tags) h = elim (Bool-cases (same_icase q k)) [
    | inl e ↦
        ap (λ r. first p (r.1)) (get_json_hit q k v tags e)
        ∙ sym (ap (λ r. r.0) (get_json_miss p k v tags (same_icase_apart q p k h e)))
    | inr e ↦
        ap (λ r. first p (r.1)) (get_json_miss q k v tags e) ∙ (elim (Bool-cases (same_icase p k)) [
          | inl f ↦
              ap (λ r. r.0) (get_json_hit p k v (without q tags) f)
              ∙ sym (ap (λ r. r.0) (get_json_hit p k v tags f))
          | inr f ↦
              ap (λ r. r.0) (get_json_miss p k v (without q tags) f)
              ∙ first-without p q tags h
              ∙ sym (ap (λ r. r.0) (get_json_miss p k v tags f))
        ])
  ]

  -- The map behind the reads of some patterns, the last one first.
  abbrev pub taken : List (List ℕ) → Data t → Data t
  taken [] tags = tags
  taken (p ∷ ps) tags = without p (taken ps tags)

  abbrev Apart : List ℕ → List (List ℕ) → Type 0
  Apart p = All (λ q. same_icase q p ≡ false)

  first-taken :
      (p : List ℕ) (ps : List (List ℕ)) (tags : Data t)
      → Apart p ps
      → first p (taken ps tags) ≡ first p tags
  first-taken p [] tags h = refl
  first-taken p (q ∷ ps) tags (h, hs) =
      first-without p q (taken ps tags) h ∙ first-taken p ps tags hs

  -- The rest of a read, behind that of a text.
  string_step :
      {B : Type 0} (p : List ℕ) (ps : List (List ℕ)) (tags : Data t) (k : List ℕ → Reader t B)
      (b : Option (B × Data t))
      → Apart p ps
      → k (text_of t (first p tags)) (taken (p ∷ ps) tags) ≡ b
      → (get_string t p >>= k) (taken ps tags) ≡ b
  unfolding get_string
  string_step p ps tags k b h e =
      ap (λ j. k (text_of t j) (taken (p ∷ ps) tags)) (first-taken p ps tags h) ∙ e

  abbrev pub end_with : Data t → Option (Metadata t) → Option (Metadata t × Data t)
  end_with tags none = none
  end_with tags (some m) = some (m, tags)

  follow :
      {A : Type 0} (o : Option A) (tags rest : Data t) (k : A → Reader t (Metadata t))
      (b : A → Option (Metadata t))
      → ((a : A) → k a tags ≡ end_with rest (b a))
      → elim o [ none ↦ none | some a ↦ k a tags ]
        ≡ end_with rest (elim o [ none ↦ none | some a ↦ b a ])
  follow none tags rest k b h = refl
  follow (some a) tags rest k b h = h a

  fuse :
      {A B : Type 0} (o : Option A) (tags : Data t) (k : A → Reader t B)
      → elim (with_rest t tags o) [ none ↦ none | some (a, rest) ↦ k a rest ]
        ≡ elim o [ none ↦ none | some a ↦ k a tags ]
  fuse none tags k = refl
  fuse (some a) tags k = refl

  -- The rest of a read, behind that of a number.
  number_step :
      {T : Type 0} (from_int : ℤ → T) (from_long : Long t → T) (default : T)
      → (p : List ℕ) (ps : List (List ℕ)) (tags rest : Data t) (k : T → Reader t (Metadata t))
        (b : T → Option (Metadata t))
      → Apart p ps
      → ((x : T) → k x (taken (p ∷ ps) tags) ≡ end_with rest (b x))
      → (get_number t from_int from_long default p >>= k) (taken ps tags)
        ≡ end_with rest (elim (number_of t from_int from_long default (first p tags)) [
          | none ↦ none
          | some x ↦ b x
        ])
  unfolding get_number
  number_step from_int from_long default p ps tags rest k b h e =
      let read = number_of t from_int from_long default in
      let after = taken (p ∷ ps) tags in
      ap (λ j. elim (with_rest t after (read j)) [ none ↦ none | some (a, more) ↦ k a more ])
        (first-taken p ps tags h)
      ∙ fuse (read (first p tags)) after k
      ∙ follow (read (first p tags)) after rest k b e

  -- Each tag read from the whole map, by its own name.
  unfoldable pub tags_of : Data t → Option (Metadata t)
  tags_of tags =
      let int : List ℕ → Option ℤ =
        λ p. number_of t (λ n. n) (Tools.long_to_int t) (negsuc 0) (first p tags) in
      let text : List ℕ → List ℕ = λ p. text_of t (first p tags) in
      elim (int (codes "format::tags::track")) [
        | none ↦ none
        | some track_number ↦ elim (int (codes "format::tags::track_total")) [
          | none ↦ none
          | some track_total ↦ elim (int (codes "format::tags::disc")) [
            | none ↦ none
            | some disc_number ↦ elim (int (codes "format::tags::disc_total")) [
              | none ↦ none
              | some disc_total ↦
                  elim (number_of t (Tools.int_to_double t) (Tools.long_to_double t)
                    (Tools.minus_one t) (first (codes "format::duration") tags)) [
                      | none ↦ none
                      | some duration ↦ some (record {
                        title = text (codes "format::tags::title");
                        album = text (codes "format::tags::album");
                        artist = text (codes "format::tags::artist");
                        date = text (codes "format::tags::date");
                        format = text (codes "format::format_name");
                        track_number = track_number;
                        track_total = track_total;
                        disc_number = disc_number;
                        disc_total = disc_total;
                        duration = duration;
                      })
                    ]
            ]
          ]
        ]
      ]

  -- The tags in the order in which they are taken out, the last one first.
  abbrev pub patterns : List (List ℕ)
  patterns =
      codes "format::duration"
      ∷ codes "format::tags::disc_total"
      ∷ codes "format::tags::disc"
      ∷ codes "format::tags::track_total"
      ∷ codes "format::tags::track"
      ∷ codes "format::format_name"
      ∷ codes "format::tags::date"
      ∷ codes "format::tags::artist"
      ∷ codes "format::tags::album"
      ∷ codes "format::tags::title"
      ∷ []

  -- The first n of them.
  abbrev behind : ℕ → List (List ℕ)
  behind n = drop (10 - n) patterns

  -- The metadata is the same as if each tag were read from the whole map: no read takes away what
  -- another one looks for.
  pub read_tags-tags_of :
      (tags : Data t) → read_tags t tags ≡ end_with (taken patterns tags) (tags_of tags)
  unfolding read_tags tags_of same_icase lower same_text
  read_tags-tags_of tags = string_step (codes "format::tags::title") (behind 0) tags _ _ tt (
      string_step (codes "format::tags::album") (behind 1) tags _ _ (refl, tt)
        (string_step (codes "format::tags::artist") (behind 2) tags _ _ (refl, (refl, tt))
          (string_step (codes "format::tags::date") (behind 3) tags _ _ (refl, (refl, (refl, tt)))
            (string_step (codes "format::format_name") (behind 4) tags _ _
              (refl, (refl, (refl, (refl, tt))))
              (number_step (λ n. n) (Tools.long_to_int t) (negsuc 0) (codes "format::tags::track")
                (behind 5) tags (taken patterns tags) _ _ (refl, (refl, (refl, (refl, (refl, tt)))))
                (λ x5.
                  (number_step (λ n. n) (Tools.long_to_int t) (negsuc 0)
                    (codes "format::tags::track_total") (behind 6) tags (taken patterns tags) _ _
                    (refl, (refl, (refl, (refl, (refl, (refl, tt))))))
                    (λ x6.
                      (number_step (λ n. n) (Tools.long_to_int t) (negsuc 0)
                        (codes "format::tags::disc") (behind 7) tags (taken patterns tags) _ _
                        (refl, (refl, (refl, (refl, (refl, (refl, (refl, tt)))))))
                        (λ x7.
                          (number_step (λ n. n) (Tools.long_to_int t) (negsuc 0)
                            (codes "format::tags::disc_total") (behind 8) tags (taken patterns tags)
                            _ _ (refl, (refl, (refl, (refl, (refl, (refl, (refl, (refl, tt))))))))
                            (λ x8.
                              (number_step (Tools.int_to_double t) (Tools.long_to_double t)
                                (Tools.minus_one t) (codes "format::duration") (behind 9) tags
                                (taken patterns tags) _ _
                                (
                                  refl,
                                  (
                                    refl,
                                    (refl, (refl, (refl, (refl, (refl, (refl, (refl, tt))))))),
                                  ),
                                )
                                (λ x9. refl))))))))))))))
