-- ===== src/Socket.antt =====
-- socket.hpp: the sockets, over the streams of boost::beast. What a stream answers is an argument of
-- the operation that asks it. Each operation but `shutdown`, `is_open` and `available` of the HTTP
-- socket holds the socket's lock, which is recursive, so it is one step. `fail` writes to the console
-- and is left out.
pub mod Http
pub mod Websock
pub mod Ssl
pub mod Laws
pub mod Timeout
pub mod Receive
pub mod Context
use libncclient.Common.{
  ℕ, ◌+◌, ◌-◌, ◌*◌, Bool, true, false, [], ◌∷◌, List, Bytes, Option, none, some, ltb, if◌then◌else◌,
  ◌==◌,
}

-- `boost::system::error_code`: no error, the end of an HTTP stream, or another error.
pub data ErrorCode : Type 0 where
  success end_of_stream : ErrorCode
  other_error : ℕ → ErrorCode

-- `if(ec)`.
abbrev pub is_error : ErrorCode → Bool
is_error success = false
is_error _ = true

abbrev pub is_end_of_stream : ErrorCode → Bool
is_end_of_stream end_of_stream = true
is_end_of_stream _ = false

-- What a stream's `read` leaves: the error, the message's contents, and whether it is text.
pub record ReadAnswer : Type 0 where
  pub ec : ErrorCode
  pub contents : Bytes
  pub got_text : Bool

-- The virtual functions of `socket_interface` on a kind of socket. The numbers are times, in
-- microseconds. `read` gives its error code and whether it failed.
pub record SocketInterface {ℓ} (S : Type ℓ) : Type ℓ where
  pub timeout_clock : S → ℕ
  pub write : S → Bytes → ErrorCode → S × Bool
  pub read : S → ℕ → ReadAnswer → S × ErrorCode × Bool
  pub get_read : S → Bytes
  pub shutdown : S → ErrorCode → S
  pub is_open : S → Bool → Bool
  pub available : S → ℕ → ℕ
  pub ping : S → Bytes → S

-- `timeout_clock.restart()`.
abbrev pub restart_timeout : ℕ → ℕ
restart_timeout now = now

-- More than 30 seconds of the clock. The rounding of `asSeconds` to a `float` is left out.
abbrev pub timed_out : ℕ → ℕ → Bool
timed_out timeout_clock now = ltb (30 * 1000000) (now - timeout_clock)

-- The functions of `socket_interface` itself, for a socket that is no more than a clock.
unfoldable pub no_socket : SocketInterface ℕ
no_socket = record {
  timeout_clock = λ clock. clock;
  write = λ clock msg ec. (clock, false);
  read = λ clock now answer. (clock, answer.ec, false);
  get_read = λ clock. [];
  shutdown = λ clock ec. clock;
  is_open = λ clock opened. false;
  available = λ clock n. 0;
  ping = λ clock payload. clock;
}
