-- ===== src/Socket/Http.antt =====
-- `http_socket` and `send_lambda` of socket.hpp.
use libncclient.Common.{
  ℕ, Bool, true, false, [], ◌∷◌, ◌++◌, List, Bytes, codes, if◌then◌else◌, length,
}
use libncclient.Socket.{
  ErrorCode, success, is_error, is_end_of_stream, ReadAnswer, SocketInterface, restart_timeout,
}

-- `http::response`, with the header fields that the code sets, and the length of the payload.
pub record Response : Type 0 where
  pub body : Bytes
  pub status : ℕ
  pub version : ℕ
  pub keep_alive : Bool
  pub content_type : Bytes
  pub content_length : ℕ

-- The socket, with all that was given to the stream.
pub record HttpSocket : Type 0 where
  pub timeout_clock : ℕ
  pub req : Bytes
  pub lec : ErrorCode
  pub close : Bool
  pub sent : List Response

-- The constructor.
unfoldable pub http_socket : ℕ → HttpSocket
http_socket now = record { timeout_clock = now; req = []; lec = success; close = false; sent = [] }

-- A message needs the end of the file to mark its end where the connection is not kept alive, since
-- its length is given.
unfoldable pub send_lambda : HttpSocket → Response → ErrorCode → HttpSocket
send_lambda s msg ec = record s {
  close = if msg.keep_alive then false else true;
  lec = ec;
  sent = s.sent ++ msg ∷ [];
}

unfoldable pub read : HttpSocket → ℕ → ReadAnswer → HttpSocket × ErrorCode × Bool
read s now answer =
    let t = record s { req = answer.contents } in
    if is_end_of_stream answer.ec
    then (t, answer.ec, true)
    else if is_error answer.ec
    then (t, answer.ec, true)
    else (record t { timeout_clock = restart_timeout now }, answer.ec, false)

unfoldable pub get_read : HttpSocket → Bytes
get_read s = s.req

-- The result is false whatever the stream answers.
unfoldable pub write : HttpSocket → Bytes → ErrorCode → HttpSocket × Bool
unfolding send_lambda
write s msg ec =
    let res : Response = record {
      body = msg;
      status = 200;
      version = 11;
      keep_alive = true;
      content_type = codes "text/plain";
      content_length = length msg;
    } in
    (send_lambda s res ec, false)

unfoldable pub shutdown : HttpSocket → ErrorCode → HttpSocket
shutdown s ec = record s { lec = ec }

unfoldable pub is_open : HttpSocket → Bool → Bool
is_open s opened = opened

unfoldable pub available : HttpSocket → ℕ → ℕ
available s n = n

unfoldable pub http_interface : SocketInterface HttpSocket
unfolding read get_read write shutdown is_open available
http_interface = record {
  timeout_clock = λ s. s.timeout_clock;
  write = write;
  read = read;
  get_read = get_read;
  shutdown = shutdown;
  is_open = is_open;
  available = available;
  ping = λ s payload. s;
}
