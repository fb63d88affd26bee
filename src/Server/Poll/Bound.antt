-- ===== src/Server/Poll/Bound.antt =====
-- What a log says of the server, and the replies of a poll.
use http_audio_server.Common.{
  ℕ, ◌≡◌, refl, sym, ap, ◌∙◌, subst, Bool, true, false, List, [], ◌∷◌, ◌++◌, All, leb,
  if◌then◌else◌,
}
use http_audio_server.Common.Text.{codes}
use http_audio_server.Logger.{
  LogSeverity, debug, info, warning, error, fatal_error, value, Message, Delivery, Logger, deliver,
  log,
}
use http_audio_server.Logger.Front.{log_now, log_info, log_fatal_error}
use http_audio_server.Server.{RequestMapEntry}
use http_audio_server.Server.Poll.{serving, exits_1, address, new_server}

-- The numbers of the backends that are called, in the order of the calls.
abbrev pub targets : List Delivery → List ℕ
targets [] = []
targets (d ∷ ds) = d.target ∷ targets ds

abbrev pub numbers : List (ℕ × LogSeverity) → List ℕ
numbers [] = []
numbers ((r, lvl) ∷ backends) = r ∷ numbers backends

below_fatal : (lvl : LogSeverity) → leb (value lvl) 50 ≡ true
below_fatal debug = refl
below_fatal info = refl
below_fatal warning = refl
below_fatal error = refl
below_fatal fatal_error = refl

-- Every backend wants a fatal error.
deliver_fatal :
    (backends : List (ℕ × LogSeverity)) (m : Message)
    → m.lvl ≡ fatal_error
    → (targets (deliver backends m) ≡ numbers backends)
      × All (λ d. d.content ≡ m) (deliver backends m)
unfolding deliver
deliver_fatal [] m h = (refl, tt)
deliver_fatal ((r, lvl) ∷ backends) m h =
    let more : List Delivery = deliver backends m in
    let wants : leb (value lvl) (value m.lvl) ≡ true =
      ap (λ k. leb (value lvl) (value k)) h ∙ below_fatal lvl in
    let (all, same) = deliver_fatal backends m h in
    subst
      (λ (ds : List Delivery). (targets ds ≡ r ∷ numbers backends) × All (λ d. d.content ≡ m) ds)
      (ap (λ b. if b then record { target = r; content = m } ∷ more else more) (sym wants))
      (ap (◌∷◌ r) all, (refl, same))

-- If the address cannot be bound, there is no server, the program is to exit with 1, and every
-- backend of the logger, whatever its level, gets one message that names the address.
pub new_server_unbound :
    {S : Type 0} (mg_bind : List ℕ → Bool) (request_map : List (RequestMapEntry S)) (host : List ℕ)
    (port : ℕ) (l : Logger) (now : ℕ)
    → mg_bind (address host port) ≡ false
    → (l' : Logger) × (calls : List Delivery) × (new_server mg_bind request_map host port l now
        ≡ (exits_1, (l', calls)))
      × (targets calls ≡ numbers l.backends)
      × All (λ d. d.content.message ≡ codes "Error, cannot bind to " ++ address host port) calls
unfolding new_server log_fatal_error log_now log
new_server_unbound {S} mg_bind request_map host port l now h =
    let m : Message = record {
      lvl = fatal_error;
      time = now;
      module_name = codes "server";
      message = codes "Error, cannot bind to " ++ address host port;
    } in
    let (all, same) = deliver_fatal l.backends m refl in
    (
      (log l m).0,
      deliver l.backends m,
      ap
          (λ b.
            if b
            then (
              serving (record { request_map = request_map; addr = address host port }),
              log_info l now (codes "server") (
                  codes "Serving HTTP at "
                  ++ (address host port ++ codes ", press CTRL+C to exit")),
            )
            else (exits_1, log l m))
          h,
      all,
      messages (deliver l.backends m) m same,
    )
  where
    messages :
        (ds : List Delivery) (m : Message)
        → All (λ d. d.content ≡ m) ds
        → All (λ d. d.content.message ≡ m.message) ds
    messages [] m h = tt
    messages (d ∷ ds) m (h, hs) = (ap (λ (x : Message). x.message) h, messages ds m hs)
