-- ===== src/App/Program.antt =====
-- A session on the program's own parts: the requests, the process with `ffmpeg`, and the tags that
-- `ffprobe` prints.
use http_audio_server.Common.{
  ℕ, ◌≡◌, ◌<◌, sym, ap, ◌∙◌, none, some, List, [], ◌∷◌, ◌++◌, append-nil, min, length, arith,
}
use http_audio_server.Common.Text.{codes}
use http_audio_server.Json.{Json, string, JsonLib}
use http_audio_server.Response.{Call}
use http_audio_server.Response.Wire.{received, received-Ends}
use http_audio_server.Pipe.{Source}
use http_audio_server.Decoder.Got.{IsWhole}
use http_audio_server.Metadata.{Metadata, to_json}
use http_audio_server.Metadata.File.{metadata_from_file}
use http_audio_server.Stream.{Entry, Stream, new_stream, append, metadata_entry, output}
use http_audio_server.Stream.Env.{World, Double}
use http_audio_server.Stream.Loop.{told, rest_of, announced, contents, IsPlayable}
use http_audio_server.Stream.Announce.{announced_reached}
use http_audio_server.Stream.Advance.{Advances, told_all}
use http_audio_server.Stream.Parts.{
  Machine, world_of, Forks, describe_run, start_ffmpeg_run, parts-IsPlayable,
}
use http_audio_server.StringUtils.{random_alphanum_string}
use http_audio_server.Handlers.{find, find_member}
use http_audio_server.Routes.Paths.{path}
use http_audio_server.App.{App, serve}
use http_audio_server.App.Requests.{post}
use http_audio_server.App.Session.{serve_session}

module _ (m : Machine) (name : List ℕ) (f : Forks m name m.zero_seconds)
    (meta : Metadata m.tools) where
  abbrev pub w : World
  w = world_of m

  -- What `ffmpeg` writes for the file.
  abbrev pub decoded : Source
  decoded = m.reads name m.zero_seconds (some f.pipes.out.0)

  abbrev entry : Entry w
  entry = record { filename = name; offs = m.zero_seconds; decoder = none }

  -- The new stream with the file.
  abbrev pub playlist : Stream w
  playlist = append w (new_stream w 196000) name m.zero_seconds

  module _ (adv : Advances w playlist 240000) where
    told_once :
        IsPlayable w entry
        → metadata_from_file m.tools name ≡ some meta
        → adv.last.metadata ≡ metadata_entry w 0 name (to_json m.tools meta) ∷ []
    unfolding append new_stream announced
    told_once v read =
        told_all w playlist 240000 adv
        ∙ announced_reached w 0 1920000 entry [] v.dec (omega arith) v.opens
        ∙ ap (λ o. told w 0 entry o ++ []) (describe_run m name meta read)

    plays_decoded :
        (rest : List ℕ) × (decoded.rest ≡ adv.taken ++ rest)
        × (length adv.taken ≡ min 1920000 (length decoded.rest))
    unfolding append new_stream contents
    plays_decoded =
        let all : decoded.rest ≡ contents w playlist.decoders =
          sym (append-nil decoded.rest)
          ∙ ap (λ o. rest_of w o ++ []) (sym (start_ffmpeg_run m name m.zero_seconds f)) in
        (
          contents w adv.last.stream.decoders,
          all ∙ adv.content_eq,
          omega (arith, adv.amount, ap length all),
        )

  -- Three requests, one after the other, where the drawn name is not in use, the system starts the
  -- process, `ffmpeg` writes whole sample pairs, and the metadata is read: the client reads the name
  -- of the stream and a line break, and with this name in the addresses it appends the file and
  -- reads the output of a call of `advance`. In this output the metadata of the file stands once,
  -- for the start of the stream, and the call encodes the first five seconds that `ffmpeg` writes,
  -- or all.
  pub serve_program :
      (draws : ℕ → ℕ → ℕ) (page : Source) (a : App w) (id body : List ℕ)
      (resource : Json (Double w))
      → ((k : ℕ) → draws a.drawn k < 62)
      → random_alphanum_string (draws a.drawn) 16 ≡ some id
      → find w a.streams id ≡ none
      → JsonLib.parse (World.lib w) body ≡ some resource
      → find_member w (codes "filename") resource ≡ some (string name)
      → IsWhole decoded
      → metadata_from_file m.tools name ≡ some meta
      → (a1 a2 a3 : App w) × (out1 out2 out3 : List Call) × (adv : Advances w playlist 240000)
        × (rest : List ℕ) × (serve w draws page (post (codes "/stream/create") []) a
            ≡ some (a1, out1))
        × (serve w draws page (post (path id (codes "/append")) body) a1 ≡ some (a2, out2))
        × (serve w draws page (post (path id (codes "/advance")) []) a2 ≡ some (a3, out3))
        × (received out1 ≡ id ++ b'\n' ∷ [])
        × (received out3 ≡ output w adv.last)
        × (adv.last.metadata ≡ metadata_entry w 0 name (to_json m.tools meta) ∷ [])
        × (decoded.rest ≡ adv.taken ++ rest)
        × (length adv.taken ≡ min 1920000 (length decoded.rest))
  serve_program draws page a id body resource inside drawn fresh parsed member whole read =
      let v = parts-IsPlayable m name f meta whole read in
      let (a1, a2, a3, out1, out2, out3, adv, run1, run2, run3, ends1, ends2, ends3) =
        serve_session w draws page a id body name resource inside drawn fresh parsed member v in
      let (rest, split, amount) = plays_decoded adv in
      (
        a1,
        a2,
        a3,
        out1,
        out2,
        out3,
        adv,
        rest,
        run1,
        run2,
        run3,
        received-Ends 200 (codes "Content-Type: text/plain") (id ++ b'\n' ∷ []) 1 out1 ends1,
        received-Ends 200 (codes "Content-Type: audio/webm") (output w adv.last) 0 out3 ends3,
        told_once adv v read,
        split,
        amount,
      )
