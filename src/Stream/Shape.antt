-- ===== src/Stream/Shape.antt =====
-- The shape of the metadata in the output of `advance`, as the client reads it.
use http_audio_server.Common.{
  ℕ, ◌+◌, ◌-◌, ◌*◌, ◌/◌, ◌^◌, ◌<◌, sym, subst, Bool, true, false, Option, none, some, List, [], ◌∷◌,
  All, All-append, length, ◌==◌, if◌then◌else◌, ◌%◌,
}
use http_audio_server.Common.Int.{ℤ}
use http_audio_server.Common.Text.{codes}
use http_audio_server.Json.{
  Json, Items, Fields, nil, item, end, field, string, integer, real, array, object,
}
use http_audio_server.Pipe.{Source}
use http_audio_server.Metadata.{Metadata, to_json}
use http_audio_server.Metadata.File.{metadata_from_file}
use http_audio_server.Stream.{Entry, Stream, items, metadata_entry}
use http_audio_server.Stream.Env.{World, Double}
use http_audio_server.Stream.Loop.{announced, described, told, decoder_of, rest_of, IsReady}
use http_audio_server.Stream.Advance.{Advances, advance_lem, told_all}
use http_audio_server.Stream.Parts.{Machine, world_of, describe, json_of}

mutual
  pub data Shape : Type 0 where
    text whole_number number : Shape
    list_of : Shape → Shape
    object_of : Members → Shape

  -- The members of an object, in their order.
  pub data Members : Type 0 where
    no_more : Members
    with_member : List ℕ → Shape → Members → Members

-- A value has a shape.
mutual
  pub data Fits {D : Type 0} : Json D → Shape → Type 0 where
    fits_text : (t : List ℕ) → Fits (string t) text
    fits_whole : (n : ℤ) → Fits (integer n) whole_number
    fits_number : (d : D) → Fits (real d) number
    fits_list : (js : Items D) (s : Shape) → FitsItems js s → Fits (array js) (list_of s)
    fits_object :
        (fields : Fields D) (ms : Members)
        → FitsFields fields ms
        → Fits (object fields) (object_of ms)

  pub data FitsItems {D : Type 0} : Items D → Shape → Type 0 where
    fits_nil : (s : Shape) → FitsItems nil s
    fits_item :
        (j : Json D) (js : Items D) (s : Shape)
        → Fits j s
        → FitsItems js s
        → FitsItems (item j js) s

  pub data FitsFields {D : Type 0} : Fields D → Members → Type 0 where
    fits_end : FitsFields end no_more
    fits_field :
        (name : List ℕ) (j : Json D) (s : Shape) (fields : Fields D) (ms : Members)
        → Fits j s
        → FitsFields fields ms
        → FitsFields (field name j fields) (with_member name s ms)

abbrev pub tags_shape : Shape
tags_shape = object_of (
    with_member (codes "album") text (
      with_member (codes "artist") text (
        with_member (codes "date") text (
          with_member (codes "disc_number") whole_number (
            with_member (codes "disc_total") whole_number (
              with_member (codes "duration") number (
                with_member (codes "format") text (
                  with_member (codes "title") text (
                    with_member (codes "track_number") whole_number
                      (with_member (codes "track_total") whole_number no_more))))))))))

-- A file that is announced.
abbrev pub file_shape : Shape
file_shape = object_of (
    with_member (codes "filename") text
      (with_member (codes "meta") tags_shape (with_member (codes "start") number no_more)))

tags-Fits : (m : Machine) (tags : Metadata m.tools) → Fits (to_json m.tools tags) tags_shape
unfolding to_json
tags-Fits m tags = fits_object _ _ (
    fits_field _ _ _ _ _ (fits_text tags.album) (
      fits_field _ _ _ _ _ (fits_text tags.artist) (
        fits_field _ _ _ _ _ (fits_text tags.date) (
          fits_field _ _ _ _ _ (fits_whole tags.disc_number) (
            fits_field _ _ _ _ _ (fits_whole tags.disc_total) (
              fits_field _ _ _ _ _ (fits_number tags.duration) (
                fits_field _ _ _ _ _ (fits_text tags.format) (
                  fits_field _ _ _ _ _ (fits_text tags.title) (
                    fits_field _ _ _ _ _ (fits_whole tags.track_number)
                      (fits_field _ _ _ _ _ (fits_whole tags.track_total) fits_end))))))))))

items-Fits :
    (w : World) (s : Shape) (js : List (Json (Double w)))
    → All (λ j. Fits j s) js
    → FitsItems (items w js) s
unfolding items
items-Fits w s [] h = fits_nil s
items-Fits w s (j ∷ js) (h, hs) = fits_item j (items w js) s h (items-Fits w s js hs)

module _ (m : Machine) where
  abbrev w : World
  w = world_of m

  abbrev IsFile : Json (Double w) → Type 0
  IsFile j = Fits j file_shape

  told-IsFile :
      (n : ℕ) (entry : Entry w) (o : Option (Metadata m.tools))
      → All IsFile (told w n entry (json_of m.tools o))
  unfolding metadata_entry
  told-IsFile n entry none = tt
  told-IsFile n entry (some tags) = (
    fits_object _ _ (
        fits_field _ _ _ _ _ (fits_text entry.filename) (
          fits_field _ _ _ _ _ (tags-Fits m tags)
            (fits_field _ _ _ _ _ (fits_number (m.seconds_of n)) fits_end))),
    tt,
  )

  described-IsFile :
      (n : ℕ) (entry : Entry w) (dec : Option Source) → All IsFile (described w n entry dec)
  unfolding describe
  described-IsFile n entry (some dec) = tt
  described-IsFile n entry none = told-IsFile n entry (metadata_from_file m.tools entry.filename)

  if-IsFile :
      (b : Bool) (js : List (Json (Double w))) → All IsFile js → All IsFile (if b then [] else js)
  if-IsFile true js h = tt
  if-IsFile false js h = h

  announced-IsFile : (n k : ℕ) (ds : List (Entry w)) → All IsFile (announced w n k ds)
  unfolding announced
  announced-IsFile n k [] = tt
  announced-IsFile n k (entry ∷ ds) =
      let size : ℕ = length (rest_of w (decoder_of w entry.decoder entry)) in
      if-IsFile (k == 0) _ (
        All-append IsFile (described w n entry entry.decoder)
          (announced w ((n + size / 8) % 2 ^ 64) (k - size) ds)
          (described-IsFile n entry entry.decoder)
          (announced-IsFile ((n + size / 8) % 2 ^ 64) (k - size) ds))

  -- `advance` on a stream that is ready returns, and the metadata in its output is a list of objects
  -- with the name of a file, its tags and its start, in which the tags are an object with all ten
  -- members, each of its own kind.
  pub advance-Fits :
      (st : Stream w) (samples : ℕ)
      → IsReady w st
      → samples * 8 < 2 ^ 64
      → (adv : Advances w st samples) × Fits
          (array (items w adv.last.metadata))
          (list_of file_shape)
  advance-Fits st samples v fits =
      let adv = advance_lem w st samples v fits in
      (
        adv,
        fits_list (items w adv.last.metadata) file_shape (
            items-Fits w file_shape adv.last.metadata (
              subst (All IsFile) (sym (told_all w st samples adv))
                (announced-IsFile st.n_samples (samples * 8) st.decoders))),
      )
