-- ===== src/Socket/Receive.antt =====
-- The part of `handle_async_read` of c_net_client.cpp that asks its socket for a message, and what
-- it receives through any kind of socket of socket.hpp.
use libncclient.Common.{ℕ, ◌≡◌, [], ◌∷◌, List, Bytes, arith, if◌then◌else◌, ◌==◌}
use libncclient.Socket.{is_error, ReadAnswer, SocketInterface}
use libncclient.Socket.Laws.{Lawful}

pub data Received : Type 0 where
  -- Nothing is available.
  idle : Received
  -- `socket_alive = false`.
  dead : Received
  got : Bytes → Received

-- What the stream has: the bytes that are available, the time, and what it answers to a read.
pub record Stream : Type 0 where
  pub waiting : ℕ
  pub now : ℕ
  pub answer : ReadAnswer

unfoldable pub receive {ℓ} : {S : Type ℓ} → SocketInterface S → S → Stream → S × Received
receive i s stream =
    if i.available s stream.waiting == 0
    then (s, idle)
    else (let (t, ec, failed) = i.read s stream.now stream.answer in
        if failed then (t, dead) else (t, got (i.get_read t)))

-- The messages that the thread goes on with. It is not told to end meanwhile, and rests behind a
-- failed read: `socket_alive` is set again only for a new socket.
unfoldable pub receive_all {ℓ} : {S : Type ℓ} → SocketInterface S → S → List Stream → List Bytes
receive_all i s [] = []
receive_all i s (stream ∷ streams) =
    let (t, received) = receive i s stream in
    let rest = receive_all i t streams in
    elim received [ idle ↦ rest | dead ↦ [] | got m ↦ m ∷ rest ]

-- What the stream has to give, without a socket.
abbrev pub offer : Stream → Received
offer stream =
    if stream.waiting == 0
    then idle
    else if is_error stream.answer.ec
    then dead
    else got stream.answer.contents

-- The messages that the server sent, up to the first error.
abbrev pub offers : List Stream → List Bytes
offers [] = []
offers (stream ∷ streams) =
    let rest = offers streams in
    if stream.waiting == 0
    then rest
    else if is_error stream.answer.ec
    then []
    else stream.answer.contents ∷ rest

module _ {ℓ} {S : Type ℓ} (i : SocketInterface S) (lawful : Lawful i) where
  pub receive-offer : (s : S) (stream : Stream) → (receive i s stream).1 ≡ offer stream
  unfolding receive
  receive-offer s stream = ground (
    arith,
    lawful.bytes_available s stream.waiting,
    (lawful.failed_read s stream.now stream.answer).0,
    lawful.read_back s stream.now stream.answer,
  )
