-- ===== src/Decoder/Format.antt =====
-- http_audio_server/decoder.cpp, `ffmpeg_fmt` and `ffmpeg_args`, for the structure `AudioFormat`
-- of decoder.hpp.
use mathlib.Core.Option.{some-injective, none-ne-some}
use native.Mathlib.Decide.{ℕ_discrete}
use http_audio_server.Common.{
  ℕ, ◌+◌, ◌*◌, ◌-◌, sym, ap, ◌∙◌, ==_ne, ◌≡◌, ◌⊎◌, inl, inr, refl, Bool, true, false, Option, none,
  some, List, [], ◌∷◌, ◌++◌, ◌==◌, if◌then◌else◌, arith,
}
use http_audio_server.Common.Text.{codes}
use http_audio_server.Common.Decimal.{show_nat}

pub record AudioFormat : Type 0 where
  pub n_channels : ℕ
  pub rate : ℕ
  pub bit_depth : ℕ
  pub use_float : Bool
  pub little_endian : Bool

abbrev pub default_format : AudioFormat
default_format = record {
  n_channels = 2;
  rate = 48000;
  bit_depth = 32;
  use_float = true;
  little_endian = true;
}

abbrev float_name : ℕ → Option (List ℕ)
float_name bit_depth =
    if bit_depth == 32
    then some (codes "f32")
    else if bit_depth == 64
    then some (codes "f64")
    else none

abbrev int_name : ℕ → Option (List ℕ)
int_name bit_depth =
    if bit_depth == 16
    then some (codes "s16")
    else if bit_depth == 24
    then some (codes "s24")
    else if bit_depth == 32
    then some (codes "s32")
    else none

abbrev with_order : Bool → Option (List ℕ) → Option (List ℕ)
with_order little_endian none = none
with_order little_endian (some name) =
    some (name ++ (if little_endian then codes "le" else codes "be"))

-- `none` is an exception. One byte has no order.
unfoldable pub ffmpeg_fmt : AudioFormat → Option (List ℕ)
ffmpeg_fmt f =
    if f.use_float
    then with_order f.little_endian (float_name f.bit_depth)
    else if f.bit_depth == 8
    then some (codes "u8")
    else with_order f.little_endian (int_name f.bit_depth)

abbrev with_format : List (List ℕ) → Option (List ℕ) → Option (List (List ℕ))
with_format args none = none
with_format args (some fmt) = some (args ++ codes "-f" ∷ fmt ∷ codes "-" ∷ [])

-- `start` is `std::to_string(offs)`, or `none` where `offs` is not positive.
unfoldable pub ffmpeg_args : List ℕ → Option (List ℕ) → AudioFormat → Option (List (List ℕ))
unfolding ffmpeg_fmt
ffmpeg_args filename start f =
    with_format
      (elim start [ none ↦ [] | some offs ↦ codes "-ss" ∷ offs ∷ [] ]
        ++ (codes "-i"
            ∷ filename
            ∷ codes "-ac"
            ∷ show_nat f.n_channels
            ∷ codes "-ar"
            ∷ show_nat f.rate
            ∷ []))
      (ffmpeg_fmt f)

-- An independent reading of the names of sample formats: a letter for the kind, the bits, and the
-- order of the bytes.
pub record Meaning : Type 0 where
  pub is_float : Bool
  pub bits : ℕ
  pub order : Option Bool

unfoldable pub meaning : List ℕ → Option Meaning
meaning (k ∷ b ∷ []) =
    if k == b'u' then some (record { is_float = false; bits = b - 48; order = none }) else none
meaning (k ∷ a ∷ b ∷ c ∷ d ∷ []) =
    if d == b'e'
    then some
        (record { is_float = k == b'f'; bits = (a - 48) * 10 + (b - 48); order = some (c == b'l') })
    else none
meaning _ = none

abbrev pub reads_as : Bool → ℕ → Bool → Option Meaning
reads_as is_float bits little_endian =
    some (record { is_float = is_float; bits = bits; order = some little_endian })

float_cases :
    (d : ℕ)
    → ((d ≡ 32) × (float_name d ≡ some (codes "f32")))
      ⊎ (((d ≡ 64) × (float_name d ≡ some (codes "f64"))) ⊎ (float_name d ≡ none))
float_cases d = ground arith

int_cases :
    (d : ℕ)
    → ((d ≡ 16) × (int_name d ≡ some (codes "s16")))
      ⊎ (((d ≡ 24) × (int_name d ≡ some (codes "s24")))
          ⊎ (((d ≡ 32) × (int_name d ≡ some (codes "s32"))) ⊎ (int_name d ≡ none)))
int_cases d = ground arith

named :
    (le : Bool) (o : Option (List ℕ)) (base name : List ℕ)
    → with_order le o ≡ some name
    → o ≡ some base
    → base ++ (if le then codes "le" else codes "be") ≡ name
named le o base name h e = some-injective _ _ (ap (with_order le) (sym e) ∙ h)

unnamed :
    (le : Bool) (o : Option (List ℕ)) (name : List ℕ) → with_order le o ≡ some name → o ≡ none → ⊥
unnamed le o name h e = none-ne-some name (ap (with_order le) (sym e) ∙ h)

known :
    (k : Bool) (d n : ℕ) (le : Bool) (text name : List ℕ)
    → d ≡ n
    → meaning text ≡ reads_as k n le
    → text ≡ name
    → meaning name ≡ reads_as k d le
known k d n le text name e f g = ap meaning (sym g) ∙ f ∙ ap (λ m. reads_as k m le) (sym e)

texts :
    (le : Bool)
    → let order = if le then codes "le" else codes "be" in
      (meaning (codes "f32" ++ order) ≡ reads_as true 32 le)
      × (meaning (codes "f64" ++ order) ≡ reads_as true 64 le)
      × (meaning (codes "s16" ++ order) ≡ reads_as false 16 le)
      × (meaning (codes "s24" ++ order) ≡ reads_as false 24 le)
      × (meaning (codes "s32" ++ order) ≡ reads_as false 32 le)
unfolding meaning
texts true = (refl, refl, refl, refl, refl)
texts false = (refl, refl, refl, refl, refl)

float_meaning :
    (d : ℕ) (le : Bool) (name : List ℕ)
    → with_order le (float_name d) ≡ some name
    → meaning name ≡ reads_as true d le
float_meaning d le name h =
    let (a, b, _, _, _) = texts le in
    elim (float_cases d) [
      | inl (e, f) ↦ known true d 32 le _ name e a (named le (float_name d) (codes "f32") name h f)
      | inr (inl (e, f)) ↦
          known true d 64 le _ name e b (named le (float_name d) (codes "f64") name h f)
      | inr (inr f) ↦ absurd (unnamed le (float_name d) name h f)
    ]

int_meaning :
    (d : ℕ) (le : Bool) (name : List ℕ)
    → with_order le (int_name d) ≡ some name
    → meaning name ≡ reads_as false d le
int_meaning d le name h =
    let (_, _, a, b, c) = texts le in
    elim (int_cases d) [
      | inl (e, f) ↦ known false d 16 le _ name e a (named le (int_name d) (codes "s16") name h f)
      | inr (inl (e, f)) ↦
          known false d 24 le _ name e b (named le (int_name d) (codes "s24") name h f)
      | inr (inr (inl (e, f))) ↦
          known false d 32 le _ name e c (named le (int_name d) (codes "s32") name h f)
      | inr (inr (inr f)) ↦ absurd (unnamed le (int_name d) name h f)
    ]

-- The name that is given for a format means this format: its kind, its bits and its byte order, and
-- for one byte no order.
pub meaning-ffmpeg_fmt :
    (channels rate d : ℕ) (k le : Bool) (name : List ℕ)
    → ffmpeg_fmt (record {
      n_channels = channels;
      rate = rate;
      bit_depth = d;
      use_float = k;
      little_endian = le;
    })
      ≡ some name
    → (meaning name ≡ reads_as k d le)
      ⊎ ((k ≡ false)
          × (d ≡ 8)
          × (meaning name ≡ some (record { is_float = false; bits = 8; order = none })))
unfolding ffmpeg_fmt meaning
meaning-ffmpeg_fmt channels rate d true le name h = inl (float_meaning d le name h)
meaning-ffmpeg_fmt channels rate d false le name h = elim (ℕ_discrete d 8) [
  | yes e ↦
      let eight : (d == 8) ≡ true = ground arith in
      inr (
        refl,
        e,
        ap meaning (
            sym (
              some-injective _ _ (
                sym (ap (λ b. if b then some (codes "u8") else with_order le (int_name d)) eight)
                ∙ h))),
      )
  | no n ↦ inl (
      int_meaning d le name (
        sym (ap (λ b. if b then some (codes "u8") else with_order le (int_name d)) (==_ne d 8 n))
        ∙ h))
]
