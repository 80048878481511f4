-- ===== src/Tests/Sockets.antt =====
-- Runs of the sockets of socket.hpp, and of the connection of c_net_client.cpp.
use libncclient.Common.{
  ℕ, ◌+◌, ◌<◌, ◌≡◌, ◌↔◌, refl, true, false, List, [], ◌∷◌, none, some, codes, length,
}
use libncclient.Util.Files.{Files, put, read_file_bin}
use libncclient.Socket.{success, other_error, ReadAnswer, timed_out}
use libncclient.Socket.Http.{http_socket, http_interface, write}
use libncclient.Socket.Websock.{websock_client, websock_interface, up_to_nul}
use libncclient.Socket.Websock.{websock_client, websock_interface}
use libncclient.Socket.Ssl.{ssl_client, ssl_interface}
use libncclient.Socket.Laws.{on_success, always}
use libncclient.Socket.Timeout.{reads, last_of, timed_out-reads}
use libncclient.Socket.Receive.{Stream}
use libncclient.Socket.Context.{
  SslContext, Statics, no_statics, load, wrap_loaded, server_options, ssl_ctx_wrap,
}
use libncclient.NetClient.Connect.{
  Attempt, shared_context, connect_all, failures, kept, connect_all-sockets,
}

abbrev message : ReadAnswer
message = record { ec = success; contents = codes "hi"; got_text = true }

abbrev lost : ReadAnswer
lost = record { ec = other_error 104; contents = []; got_text = false }

abbrev events : List (ℕ × ReadAnswer)
events = (5000000, message) ∷ (20000000, lost) ∷ []

timed_out-reads_example :
    ((timed_out (reads http_interface (http_socket 0) events).timeout_clock 36000000 ≡ true)
      ↔ (last_of on_success (http_socket 0).timeout_clock events + 30000000 < 36000000))
    × ((timed_out (reads websock_interface (websock_client 0) events).timeout_clock 36000000 ≡ true)
        ↔ (last_of on_success (websock_client 0).timeout_clock events + 30000000 < 36000000))
    × ((timed_out (reads ssl_interface (ssl_client 0) events).timeout_clock 36000000 ≡ true)
        ↔ (last_of always (ssl_client 0).timeout_clock events + 30000000 < 36000000))
timed_out-reads_example =
    timed_out-reads (http_socket 0) (websock_client 0) (ssl_client 0) events 36000000

abbrev streams : List Stream
streams =
    (record { waiting = 0; now = 1; answer = message })
    ∷ (record { waiting = 2; now = 2; answer = message })
    ∷ (record { waiting = 1; now = 3; answer = lost })
    ∷ []

-- A ping's payload ends at its first NUL.
cut_payload : up_to_nul (65 ∷ 0 ∷ 66 ∷ []) ≡ 65 ∷ []
unfolding up_to_nul
cut_payload = refl

-- A write of an HTTP socket that failed.
unreported : (write (http_socket 0) (codes "a") (other_error 32)).1 ≡ false
unfolding write
unreported = refl

abbrev key_files : Files
key_files = put (codes "./deps/secret/cert/cert.crt") (some (codes "c")) (
    put (codes "./deps/secret/cert/dh.pem") (some (codes "d"))
      (put (codes "./deps/secret/cert/key.pem") (some (codes "k")) (λ other. none)))

abbrev loaded : Statics
loaded = record { cert = some (codes "c"); dh = some (codes "d"); key = some (codes "k") }

abbrev full : SslContext
full = record {
  options = server_options;
  certificate_chain = codes "c";
  private_key = codes "k";
  tmp_dh = codes "d";
}

first_wrap : ssl_ctx_wrap (λ ctx. true) true no_statics key_files ≡ (loaded, some full)
unfolding ssl_ctx_wrap wrap_loaded load read_file_bin
first_wrap = refl

abbrev good : Attempt
good = record {
  resolves = true;
  connects = true;
  sets_option = true;
  ssl_handshakes = true;
  handshakes = true;
}

abbrev attempts : List Attempt
attempts = (record good { resolves = false }) ∷ good ∷ (record good { handshakes = false }) ∷ []

connect_all-sockets_example :
    length (connect_all (shared_context true) attempts).sockets
    ≡ failures true attempts + kept (connect_all (shared_context true) attempts).sock
connect_all-sockets_example = connect_all-sockets true attempts
