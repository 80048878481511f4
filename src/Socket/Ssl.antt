-- ===== src/Socket/Ssl.antt =====
-- `websock_socket_ssl` and `websock_socket_client_ssl` of socket.hpp: a websocket over TLS.
use libncclient.Common.{
  ℕ, Bool, true, false, [], ◌∷◌, ◌++◌, List, Bytes, if◌then◌else◌, ◌&&◌, Option, none, some,
}
use libncclient.Socket.Websock.{up_to_nul}
use libncclient.Socket.{ErrorCode, success, is_error, ReadAnswer, SocketInterface, restart_timeout}

-- The socket, with the options of its stream, and all that was given to the stream.
pub record SslSocket : Type 0 where
  pub timeout_clock : ℕ
  pub mbuffer : Bytes
  pub lec : ErrorCode
  pub text : Bool
  pub no_delay : Bool
  pub server_enable : Bool
  pub client_enable : Bool
  pub sent : List Bytes
  pub pinged : List Bytes

-- The constructor of the clients' base, which sets no option. A stream sends text at first.
unfoldable pub ssl_unconnected : ℕ → SslSocket
ssl_unconnected now = record {
  timeout_clock = now;
  mbuffer = [];
  lec = success;
  text = true;
  no_delay = false;
  server_enable = false;
  client_enable = false;
  sent = [];
  pinged = [];
}

-- The constructor of a server's socket. `accept` throws or not, and so does the handshake of TLS.
unfoldable pub ssl_accepted : ℕ → Bool → Bool → Option SslSocket
unfolding ssl_unconnected
ssl_accepted now handshakes accepts =
    let s = record (ssl_unconnected now) { no_delay = true; server_enable = true } in
    if handshakes && accepts then some s else none

-- The constructor of a client's socket.
unfoldable pub ssl_client : ℕ → SslSocket
unfolding ssl_unconnected
ssl_client now = record (ssl_unconnected now) { client_enable = true; text = false }

-- The clock is restarted before the test of the error.
unfoldable pub read : SslSocket → ℕ → ReadAnswer → SslSocket × ErrorCode × Bool
read s now answer =
    let t = record s {
      mbuffer = answer.contents;
      text = answer.got_text;
      timeout_clock = restart_timeout now;
    } in
    if is_error answer.ec then (t, answer.ec, true) else (t, answer.ec, false)

unfoldable pub get_read : SslSocket → Bytes
get_read s = s.mbuffer

unfoldable pub write : SslSocket → Bytes → ErrorCode → SslSocket × Bool
write s msg ec = (record s { sent = s.sent ++ msg ∷ []; lec = ec }, is_error ec)

unfoldable pub shutdown : SslSocket → ErrorCode → SslSocket
shutdown s ec = record s { lec = ec }

unfoldable pub is_open : SslSocket → Bool → Bool
is_open s opened = opened

unfoldable pub available : SslSocket → ℕ → ℕ
available s n = n

unfoldable pub ping : SslSocket → Bytes → SslSocket
unfolding up_to_nul
ping s payload = record s { pinged = s.pinged ++ up_to_nul payload ∷ [] }

unfoldable pub ssl_interface : SocketInterface SslSocket
unfolding read get_read write shutdown is_open available ping
ssl_interface = record {
  timeout_clock = λ s. s.timeout_clock;
  write = write;
  read = read;
  get_read = get_read;
  shutdown = shutdown;
  is_open = is_open;
  available = available;
  ping = ping;
}
