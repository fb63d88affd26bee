-- ===== src/Stream/Finished.antt =====
-- A stream whose encoder was closed, and to which files are appended later.
use http_audio_server.Common.{
  ℕ, ◌+◌, ◌*◌, ◌^◌, ◌<◌, min, ◌≡◌, refl, subst, true, some, List, [], ◌++◌, length, All, arith,
}
use http_audio_server.Encoder.Create.{create, create-IsValid}
use http_audio_server.Stream.{Stream, Round, advance_loop, advance, output}
use http_audio_server.Stream.Env.{World}
use http_audio_server.Stream.Loop.{contents, IsPlayable, IsReady}
use http_audio_server.Stream.Plays.{advance_loop-Ended}
use http_audio_server.Stream.Advance.{advance_run, amount_lem, exhausted}
use http_audio_server.Stream.Twin.{Done, advance_loop-Done, close_twin}

module _ (w : World) where
  -- On a stream whose encoder was closed, as it is when a call leaves the playlist empty, and to
  -- which files were appended since then that can all be played: `advance` returns for a number of
  -- samples whose bytes are counted in 64 bits, and takes as many bytes from the files as on any
  -- stream; but it gives no data, and the encoder stays closed.
  pub advance_closed :
      (st : Stream w) (samples : ℕ)
      → st.encoder.done ≡ true
      → All (IsPlayable w) st.decoders
      → st.buf ≡ []
      → st.n_samples < 2 ^ 64
      → samples * 8 < 2 ^ 64
      → (last : Round w) × (taken : List ℕ) × (advance w st samples
          ≡ some (last.stream, some (output w last)))
        × (contents w st.decoders ≡ taken ++ contents w last.stream.decoders)
        × (length taken ≡ min (samples * 8) (length (contents w st.decoders)))
        × (last.out ≡ [])
        × (last.stream.encoder ≡ st.encoder)
  unfolding create
  advance_closed st samples closed playable empty counted fits =
      let n : ℕ = samples * 8 in
      let open_ : Stream w = record st { encoder = create (World.codec w) 48000 2 } in
      let start : Round w = record { stream = open_; n_bytes = n; metadata = []; out = [] } in
      let v : IsReady w open_ = record {
        playable = playable;
        valid = create-IsValid (World.codec w) 48000 2 (omega arith) (omega arith);
        not_done = refl;
        stereo = refl;
        empty = empty;
        counted = counted;
      } in
      let a =
        advance_loop-Ended w (n + length st.decoders + 1) start st.decoders refl v (omega arith)
          fits (omega arith) in
      let last : Round w = record a.last {
        stream = record a.last.stream { encoder = st.encoder };
        out = [];
      } in
      (
        last,
        a.taken,
        advance_run w st samples n last last (omega arith)
            (subst
              (λ o. Done w st.encoder closed o (
                advance_loop w (n + length st.decoders + 1)
                  (record { stream = st; n_bytes = n; metadata = []; out = [] })))
              a.run (advance_loop-Done w st.encoder closed (n + length st.decoders + 1) start))
            (close_twin w st.encoder closed a.last a.last.stream.decoders refl),
        a.plays.content_eq,
        amount_lem w n a.last.n_bytes a.taken (contents w a.last.stream.decoders)
            (contents w st.decoders) a.plays.n_eq a.plays.content_eq (exhausted w a.last a.stop),
        refl,
        refl,
      )
