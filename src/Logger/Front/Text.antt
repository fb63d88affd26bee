-- ===== src/Logger/Front/Text.antt =====
-- What stands on the stream of a backend, and where the file of a backend lies.
use http_audio_server.Common.{
  ℕ, ◌≡◌, ◌<◌, sym, ap, ◌∙◌, Bool-cases, inl, inr, some, List, [], ◌∷◌, ◌++◌, length, replicate,
  All, append-nil, append_assoc, ◌==◌, if◌then◌else◌, arith,
}
use http_audio_server.Common.Text.{codes}
use http_audio_server.Terminal.{Terminal}
use http_audio_server.StringUtils.{blank}
use http_audio_server.StringUtils.Shape.{IsAlphanum, random_alphanum_string_lem}
use http_audio_server.Logger.{LogSeverity, Message, Delivery, Logger, log_all}
use http_audio_server.Logger.Backends.{delivered, wanted, IsNot, delivered-log_all}
use http_audio_server.Logger.Line.{stream_log}
use http_audio_server.Logger.Front.{
  LogStreamBackend, backend_log, receive, created, file_name, make_log_filename,
}

-- The lines of messages.
unfoldable pub lines : (ℕ → List ℕ) → Terminal → List Message → List ℕ
lines time_str t [] = []
lines time_str t (m ∷ ms) = stream_log time_str t m ++ lines time_str t ms

receive-lines :
    (time_str : ℕ → List ℕ) (r : ℕ) (b : LogStreamBackend) (ds : List Delivery)
    → receive time_str r b ds
      ≡ record b { text = b.text ++ lines time_str b.terminal (delivered r ds) }
unfolding receive delivered lines backend_log
receive-lines time_str r b [] = ap (λ (t : List ℕ). record b { text = t }) (sym (append-nil b.text))
receive-lines time_str r b (d ∷ ds) =
    let b' : LogStreamBackend = backend_log time_str b d.content in
    let called : LogStreamBackend = receive time_str r b' ds in
    let passed : LogStreamBackend = receive time_str r b ds in
    let more : List Message = delivered r ds in
    elim (Bool-cases (d.target == r)) [
      | inl e ↦
          ap (λ c. if c then called else passed) e
          ∙ receive-lines time_str r b' ds
          ∙ ap (λ (t : List ℕ). record b { text = t })
              (append_assoc b.text (stream_log time_str b.terminal d.content)
                  (lines time_str b.terminal more)
                ∙ ap
                    (λ c.
                      b.text ++ lines time_str b.terminal (if c then d.content ∷ more else more))
                    (sym e))
      | inr e ↦
          ap (λ c. if c then called else passed) e
          ∙ receive-lines time_str r b ds
          ∙ ap
              (λ c. record b {
                text = b.text ++ lines time_str b.terminal (if c then d.content ∷ more else more);
              })
              (sym e)
    ]

-- The stream of a backend that is listed once holds, behind a run of `log`, what it held before and
-- then a line for each message of its level or a higher one, in their order.
pub receive-log_all :
    (time_str : ℕ → List ℕ) (l : Logger) (ms : List Message) (r : ℕ) (lvl : LogSeverity)
    (b : LogStreamBackend) (before after : List (ℕ × LogSeverity))
    → l.backends ≡ before ++ (r, lvl) ∷ after
    → All (IsNot r) before
    → All (IsNot r) after
    → (receive time_str r b (log_all l ms).1).text
      ≡ b.text ++ lines time_str b.terminal (wanted lvl ms)
receive-log_all time_str l ms r lvl b before after e h hs =
    ap (λ (x : LogStreamBackend). x.text) (receive-lines time_str r b (log_all l ms).1)
    ∙ ap (λ w. b.text ++ lines time_str b.terminal w)
        (delivered-log_all l ms r lvl before after e h hs)

-- The name of a log file has four random characters, and then twelve blanks in front of ".log".
pub make_log_filename_lem :
    (draw : ℕ → ℕ) (prefix time_str : List ℕ)
    → ((k : ℕ) → draw k < 62)
    → (name : List ℕ) × (make_log_filename created draw prefix time_str
        ≡ some (
            codes "logs/"
            ++ (prefix
                ++ (codes "_"
                    ++ (time_str
                        ++ (codes "_" ++ ((name ++ replicate 12 blank) ++ codes ".log")))))))
      × (length name ≡ 4)
      × All IsAlphanum name
unfolding make_log_filename
make_log_filename_lem draw prefix time_str inside =
    let (name, run, len, all) = random_alphanum_string_lem draw 4 inside (omega arith) in
    (name, ap (file_name prefix time_str) run, len, all)
