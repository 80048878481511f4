-- ===== src/Socket/Timeout.antt =====
-- When a socket of socket.hpp has timed out.
use libncclient.Common.{
  ℕ, ◌+◌, ◌<◌, ◌≡◌, ◌↔◌, refl, ap, ◌∙◌, Bool, true, [], ◌∷◌, List, arith, if◌then◌else◌,
}
use libncclient.Socket.{ErrorCode, ReadAnswer, SocketInterface, timed_out}
use libncclient.Socket.Http.{HttpSocket, http_interface}
use libncclient.Socket.Websock.{WebsockSocket, websock_interface}
use libncclient.Socket.Ssl.{SslSocket, ssl_interface}
use libncclient.Socket.Laws.{
  Restarts, on_success, always, http-Restarts, websock-Restarts, ssl-Restarts,
}

-- Reads, the oldest first, each with its time and what the stream answered.
abbrev pub reads {ℓ} : {S : Type ℓ} → SocketInterface S → S → List (ℕ × ReadAnswer) → S
reads i s [] = s
reads i s ((now, answer) ∷ events) = reads i (i.read s now answer).0 events

-- The time of the last read whose error passes the test, or `begun`.
abbrev pub last_of : (ErrorCode → Bool) → ℕ → List (ℕ × ReadAnswer) → ℕ
last_of test begun [] = begun
last_of test begun ((now, answer) ∷ events) =
    last_of test (if test answer.ec then now else begun) events

-- The socket times out when more than 30 seconds, here microseconds, are over since then.
abbrev pub TimesOut {ℓ} : {S : Type ℓ} → SocketInterface S → (ErrorCode → Bool) → Type ℓ
TimesOut {S = S} i test =
    (s : S) (events : List (ℕ × ReadAnswer)) (now : ℕ)
    → (timed_out (i.timeout_clock (reads i s events)) now ≡ true)
      ↔ (last_of test (i.timeout_clock s) events + 30000000 < now)

module _ {ℓ} {S : Type ℓ} (i : SocketInterface S) (test : ErrorCode → Bool)
    (restarts : Restarts i test) where
  clock-reads :
      (s : S) (events : List (ℕ × ReadAnswer))
      → i.timeout_clock (reads i s events) ≡ last_of test (i.timeout_clock s) events
  clock-reads s [] = refl
  clock-reads s ((now, answer) ∷ events) =
      clock-reads (i.read s now answer).0 events
      ∙ ap (λ clock. last_of test clock events) (restarts s now answer)

  Restarts-TimesOut : TimesOut i test
  Restarts-TimesOut s events now =
      let clock = clock-reads s events in
      ((λ late. ground (arith, late, clock)), (λ late. ground (arith, late, clock)))

-- Over any history of reads, an HTTP socket and a websocket that is not over TLS have timed out
-- exactly when more than 30 seconds have passed since their last read without an error, or, before
-- the first of these, since they were made. A websocket over TLS has timed out exactly when more
-- than 30 seconds have passed since its last read of any kind, so that reads that fail keep it alive.
pub timed_out-reads :
    (a : HttpSocket) (b : WebsockSocket) (c : SslSocket) (events : List (ℕ × ReadAnswer)) (now : ℕ)
    → ((timed_out (reads http_interface a events).timeout_clock now ≡ true)
        ↔ (last_of on_success a.timeout_clock events + 30000000 < now))
      × ((timed_out (reads websock_interface b events).timeout_clock now ≡ true)
          ↔ (last_of on_success b.timeout_clock events + 30000000 < now))
      × ((timed_out (reads ssl_interface c events).timeout_clock now ≡ true)
          ↔ (last_of always c.timeout_clock events + 30000000 < now))
unfolding http_interface websock_interface ssl_interface
timed_out-reads a b c events now = (
  Restarts-TimesOut http_interface on_success http-Restarts a events now,
  Restarts-TimesOut websock_interface on_success websock-Restarts b events now,
  Restarts-TimesOut ssl_interface always ssl-Restarts c events now,
)
