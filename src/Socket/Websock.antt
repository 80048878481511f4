-- ===== src/Socket/Websock.antt =====
-- `websock_socket` and `websock_socket_client` of socket.hpp: a websocket over TCP.
use libncclient.Common.{
  ℕ, Bool, true, false, [], ◌∷◌, ◌++◌, List, Bytes, if◌then◌else◌, ◌==◌, Option, none, some,
}
use libncclient.Socket.{ErrorCode, success, is_error, ReadAnswer, SocketInterface, restart_timeout}

-- The socket, with the options of its stream, and all that was given to the stream.
pub record WebsockSocket : Type 0 where
  pub timeout_clock : ℕ
  pub mbuffer : Bytes
  pub lec : ErrorCode
  pub text : Bool
  pub no_delay : Bool
  pub server_enable : Bool
  pub client_enable : Bool
  pub sent : List Bytes
  pub pinged : List Bytes

-- The constructor of the clients' base, which sets no option. A stream sends text at first.
unfoldable pub websock_unconnected : ℕ → WebsockSocket
websock_unconnected now = record {
  timeout_clock = now;
  mbuffer = [];
  lec = success;
  text = true;
  no_delay = false;
  server_enable = false;
  client_enable = false;
  sent = [];
  pinged = [];
}

-- The constructor of a server's socket. `accept` throws or not, and so does the handshake of TLS.
unfoldable pub websock_accepted : ℕ → Bool → Option WebsockSocket
unfolding websock_unconnected
websock_accepted now accepts =
    let s = record (websock_unconnected now) { no_delay = true; server_enable = true } in
    if accepts then some s else none

-- The constructor of a client's socket.
unfoldable pub websock_client : ℕ → WebsockSocket
unfolding websock_unconnected
websock_client now = record (websock_unconnected now) { client_enable = true; text = false }

unfoldable pub read : WebsockSocket → ℕ → ReadAnswer → WebsockSocket × ErrorCode × Bool
read s now answer =
    let t = record s { mbuffer = answer.contents; text = answer.got_text } in
    if is_error answer.ec
    then (t, answer.ec, true)
    else (record t { timeout_clock = restart_timeout now }, answer.ec, false)

unfoldable pub get_read : WebsockSocket → Bytes
get_read s = s.mbuffer

unfoldable pub write : WebsockSocket → Bytes → ErrorCode → WebsockSocket × Bool
write s msg ec = (record s { sent = s.sent ++ msg ∷ []; lec = ec }, is_error ec)

unfoldable pub shutdown : WebsockSocket → ErrorCode → WebsockSocket
shutdown s ec = record s { lec = ec }

unfoldable pub is_open : WebsockSocket → Bool → Bool
is_open s opened = opened

unfoldable pub available : WebsockSocket → ℕ → ℕ
available s n = n

-- `payload.c_str()` is the payload up to its first NUL.
unfoldable pub up_to_nul : Bytes → Bytes
up_to_nul [] = []
up_to_nul (c ∷ s) = let rest = up_to_nul s in if c == 0 then [] else c ∷ rest

unfoldable pub ping : WebsockSocket → Bytes → WebsockSocket
unfolding up_to_nul
ping s payload = record s { pinged = s.pinged ++ up_to_nul payload ∷ [] }

unfoldable pub websock_interface : SocketInterface WebsockSocket
unfolding read get_read write shutdown is_open available ping
websock_interface = record {
  timeout_clock = λ s. s.timeout_clock;
  write = write;
  read = read;
  get_read = get_read;
  shutdown = shutdown;
  is_open = is_open;
  available = available;
  ping = ping;
}
