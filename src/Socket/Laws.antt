-- ===== src/Socket/Laws.antt =====
-- What the three kinds of socket of socket.hpp have in common, and where they differ.
use libncclient.Common.{ℕ, ◌≡◌, refl, Bool, true, false, Bytes, arith, if◌then◌else◌}
use libncclient.Socket.{ErrorCode, success, is_error, ReadAnswer, SocketInterface}
use libncclient.Socket.Http
use libncclient.Socket.Websock
use libncclient.Socket.Ssl

-- What the threads of the client rely on: a read fails exactly where the stream gives an error, and
-- gives that error; what is read is what the stream gave; a write neither changes it nor the clock.
pub record Lawful {ℓ} {S : Type ℓ} (i : SocketInterface S) : Type ℓ where
  pub failed_read :
      (s : S) (now : ℕ) (answer : ReadAnswer)
      → ((i.read s now answer).2 ≡ is_error answer.ec) × ((i.read s now answer).1 ≡ answer.ec)
  pub read_back :
      (s : S) (now : ℕ) (answer : ReadAnswer) → i.get_read (i.read s now answer).0 ≡ answer.contents
  pub write_apart :
      (s : S) (msg : Bytes) (ec : ErrorCode)
      → (i.get_read (i.write s msg ec).0 ≡ i.get_read s)
        × (i.timeout_clock (i.write s msg ec).0 ≡ i.timeout_clock s)
  pub bytes_available : (s : S) (n : ℕ) → i.available s n ≡ n

-- The clock restarts at a read, or not, as the test of its error says.
abbrev pub Restarts {ℓ} : {S : Type ℓ} → SocketInterface S → (ErrorCode → Bool) → Type ℓ
Restarts {S = S} i restarts =
    (s : S) (now : ℕ) (answer : ReadAnswer)
    → i.timeout_clock (i.read s now answer).0
      ≡ (if restarts answer.ec then now else i.timeout_clock s)

-- A write says whether the stream gave an error.
abbrev pub Reports {ℓ} : {S : Type ℓ} → SocketInterface S → Type ℓ
Reports {S = S} i = (s : S) (msg : Bytes) (ec : ErrorCode) → (i.write s msg ec).1 ≡ is_error ec

abbrev pub on_success : ErrorCode → Bool
on_success success = true
on_success _ = false

abbrev pub always : ErrorCode → Bool
always ec = true

pub http-Lawful : Lawful Http.http_interface
unfolding Http.http_interface Http.read Http.get_read Http.write Http.send_lambda Http.available
http-Lawful = record {
  failed_read = λ s now answer. (ground (arith, answer.ec), ground (arith, answer.ec));
  read_back = λ s now answer. ground (arith, answer.ec);
  write_apart = λ s msg ec. (refl, refl);
  bytes_available = λ s n. refl;
}

pub websock-Lawful : Lawful Websock.websock_interface
unfolding Websock.websock_interface Websock.read Websock.get_read Websock.write Websock.available
websock-Lawful = record {
  failed_read = λ s now answer. (ground (arith, answer.ec), ground (arith, answer.ec));
  read_back = λ s now answer. ground (arith, answer.ec);
  write_apart = λ s msg ec. (refl, refl);
  bytes_available = λ s n. refl;
}

pub ssl-Lawful : Lawful Ssl.ssl_interface
unfolding Ssl.ssl_interface Ssl.read Ssl.get_read Ssl.write Ssl.available
ssl-Lawful = record {
  failed_read = λ s now answer. (ground (arith, answer.ec), ground (arith, answer.ec));
  read_back = λ s now answer. ground (arith, answer.ec);
  write_apart = λ s msg ec. (refl, refl);
  bytes_available = λ s n. refl;
}

-- The sockets without TLS restart the clock at a read that succeeds, a websocket over TLS at every
-- read, also at one that fails.
pub http-Restarts : Restarts Http.http_interface on_success
unfolding Http.http_interface Http.read
http-Restarts s now answer = ground (arith, answer.ec)

pub websock-Restarts : Restarts Websock.websock_interface on_success
unfolding Websock.websock_interface Websock.read
websock-Restarts s now answer = ground (arith, answer.ec)

pub ssl-Restarts : Restarts Ssl.ssl_interface always
unfolding Ssl.ssl_interface Ssl.read
ssl-Restarts s now answer = ground (arith, answer.ec)

pub websock-Reports : Reports Websock.websock_interface
unfolding Websock.websock_interface Websock.write
websock-Reports s msg ec = refl

pub ssl-Reports : Reports Ssl.ssl_interface
unfolding Ssl.ssl_interface Ssl.write
ssl-Reports s msg ec = refl
