-- ===== src/NetClient/Threads/Steps.antt =====
-- The steps of the threads and of the application, and where they lead.
use libncclient.Common.{
  ℕ, ◌+◌, ◌≡◌, true, false, List, [], ◌∷◌, ◌++◌, none, some, Bytes, codes, All,
}
use libncclient.Memory.{Heap, done}
use libncclient.Interop.{make_view}
use libncclient.Interop.Copies.{Fits}
use libncclient.SharedData.{
  SharedData, SteamStore, sd_should_terminate, sd_has_front_write, sd_add_back_read,
  sd_increment_termination_count, all_terminated,
}
use libncclient.SharedData.Queues.{Call, step, puts_write}
use libncclient.NetClient.Auth.{Steam, handle_sending_auth}
use libncclient.Util.Files.{Files, OutStream}
use libncclient.NetClient.KeyFile.{check_auth}
use libncclient.NetClient.Threads.{
  Net, take_front, send_user, tell, is_application, top, tests_alive, tests_front, takes, writes,
  leaves, ended, tests_available, reads, gets, added, checks, queues, tests_terminate, announces,
  connects, connecting, greets, sends_auth, sends_user, wakes, fails, waits, shuts,
}

-- A step from `n`, with what it puts into the write queue.
pub data Step (steam : Steam) (store : SteamStore) (n : Net) : List Bytes → Net → Type 0 where
  writer_stops :
      n.writer ≡ top
      → sd_should_terminate n.shared ≡ true
      → Step steam store n [] (record n { writer = leaves })
  writer_goes :
      n.writer ≡ top
      → sd_should_terminate n.shared ≡ false
      → Step steam store n [] (record n { writer = tests_alive })
  writer_idles :
      n.writer ≡ tests_alive
      → n.socket_alive ≡ false
      → Step steam store n [] (record n { writer = top })
  writer_lives :
      n.writer ≡ tests_alive
      → n.socket_alive ≡ true
      → Step steam store n [] (record n { writer = tests_front })
  writer_rests :
      n.writer ≡ tests_front
      → sd_has_front_write n.shared ≡ false
      → Step steam store n [] (record n { writer = top })
  writer_sees :
      n.writer ≡ tests_front
      → sd_has_front_write n.shared ≡ true
      → Step steam store n [] (record n { writer = takes })
  writer_takes :
      (m : Bytes) (d : SharedData) (h : Heap)
      → n.writer ≡ takes
      → All Fits n.shared.write_queue
      → take_front n.shared n.heap ≡ done (m, d) h
      → Step steam store n [] (record n { shared = d; heap = h; writer = writes m })
  writer_writes :
      (m : Bytes) (k : ℕ)
      → n.writer ≡ writes m
      → n.sock ≡ some k
      → Step steam store n [] (record n { tried = n.tried ++ m ∷ []; writer = top })
  -- `write` returns true or throws.
  writer_fails :
      (m : Bytes) (k : ℕ)
      → n.writer ≡ writes m
      → n.sock ≡ some k
      → Step steam store n []
          (record n { tried = n.tried ++ m ∷ []; socket_alive = false; writer = top })
  writer_ends :
      n.writer ≡ leaves
      → Step steam store n []
          (record n { shared = sd_increment_termination_count n.shared; writer = ended })
  reader_stops :
      n.reader ≡ top
      → sd_should_terminate n.shared ≡ true
      → Step steam store n [] (record n { reader = leaves })
  reader_goes :
      n.reader ≡ top
      → sd_should_terminate n.shared ≡ false
      → Step steam store n [] (record n { reader = tests_alive })
  reader_idles :
      n.reader ≡ tests_alive
      → n.socket_alive ≡ false
      → Step steam store n [] (record n { reader = top })
  reader_lives :
      n.reader ≡ tests_alive
      → n.socket_alive ≡ true
      → Step steam store n [] (record n { reader = tests_available })
  -- `available()` is 0, is not, or throws.
  reader_rests :
      (k : ℕ)
      → n.reader ≡ tests_available
      → n.sock ≡ some k
      → Step steam store n [] (record n { reader = top })
  reader_sees :
      (k : ℕ)
      → n.reader ≡ tests_available
      → n.sock ≡ some k
      → Step steam store n [] (record n { reader = reads })
  reader_throws :
      (k : ℕ)
      → n.reader ≡ tests_available
      → n.sock ≡ some k
      → Step steam store n [] (record n { socket_alive = false; reader = top })
  reader_reads :
      (k : ℕ)
      → n.reader ≡ reads
      → n.sock ≡ some k
      → Step steam store n [] (record n { reader = gets })
  -- `read` returns true or throws.
  reader_fails :
      (k : ℕ)
      → n.reader ≡ reads
      → n.sock ≡ some k
      → Step steam store n [] (record n { socket_alive = false; reader = top })
  reader_gets :
      (m : Bytes) (k : ℕ)
      → n.reader ≡ gets
      → n.sock ≡ some k
      → Step steam store n [] (record n { reader = checks m })
  reader_checks :
      (m : Bytes) (out : OutStream) (fs : Files) (d : SharedData) (h : Heap)
      → n.reader ≡ checks m
      → check_auth (handle_sending_auth steam store) out n.files n.shared m n.heap ≡ done (fs, d) h
      → Step steam store n
          (added n.shared d)
          (record n { files = fs; shared = d; heap = h; reader = queues m })
  reader_queues :
      (m : Bytes) (d : SharedData) (h : Heap)
      → n.reader ≡ queues m
      → sd_add_back_read n.shared (make_view m) n.heap ≡ done d h
      → Step steam store n (added n.shared d) (record n { shared = d; heap = h; reader = top })
  reader_ends :
      n.reader ≡ leaves
      → Step steam store n []
          (record n { shared = sd_increment_termination_count n.shared; reader = ended })
  watchdog_stops :
      n.watchdog ≡ top
      → sd_should_terminate n.shared ≡ true
      → Step steam store n [] (record n { watchdog = leaves })
  watchdog_goes :
      n.watchdog ≡ top
      → sd_should_terminate n.shared ≡ false
      → Step steam store n [] (record n { watchdog = tests_alive })
  watchdog_rests :
      n.watchdog ≡ tests_alive
      → n.socket_alive ≡ true
      → Step steam store n [] (record n { watchdog = top })
  watchdog_tests :
      n.watchdog ≡ tests_alive
      → n.socket_alive ≡ false
      → Step steam store n [] (record n { watchdog = tests_terminate })
  watchdog_breaks :
      n.watchdog ≡ tests_terminate
      → sd_should_terminate n.shared ≡ true
      → Step steam store n [] (record n { watchdog = top })
  watchdog_starts :
      n.watchdog ≡ tests_terminate
      → sd_should_terminate n.shared ≡ false
      → Step steam store n [] (record n { watchdog = announces })
  watchdog_announces :
      (d : SharedData) (h : Heap)
      → n.watchdog ≡ announces
      → tell (codes "Connecting...") n.shared n.heap ≡ done d h
      → Step steam store n
          (added n.shared d)
          (record n { shared = d; heap = h; watchdog = connects })
  -- `delete sock; sock = nullptr;`.
  watchdog_deletes :
      n.watchdog ≡ connects
      → Step steam store n [] (record n { sock = none; watchdog = connecting })
  watchdog_connects :
      n.watchdog ≡ connecting
      → Step steam store n [] (record n {
        sock = some n.connections;
        connections = n.connections + 1;
        watchdog = greets;
      })
  -- The connection throws.
  watchdog_throws : n.watchdog ≡ connecting → Step steam store n [] (record n { watchdog = fails })
  watchdog_greets :
      (d : SharedData) (h : Heap)
      → n.watchdog ≡ greets
      → tell (codes "`LConnected`") n.shared n.heap ≡ done d h
      → Step steam store n
          (added n.shared d)
          (record n { shared = d; heap = h; watchdog = sends_auth })
  watchdog_sends_auth :
      (d : SharedData) (h : Heap)
      → n.watchdog ≡ sends_auth
      → handle_sending_auth steam store n.shared n.heap ≡ done d h
      → Step steam store n
          (added n.shared d)
          (record n { shared = d; heap = h; watchdog = sends_user })
  watchdog_sends_user :
      (d : SharedData) (h : Heap)
      → n.watchdog ≡ sends_user
      → send_user n.shared n.heap ≡ done d h
      → Step steam store n (added n.shared d) (record n { shared = d; heap = h; watchdog = wakes })
  watchdog_wakes :
      n.watchdog ≡ wakes
      → Step steam store n [] (record n { socket_alive = true; watchdog = tests_alive })
  watchdog_fails :
      (d : SharedData) (h : Heap)
      → n.watchdog ≡ fails
      → tell (codes "`DConnection to the server failed`") n.shared n.heap ≡ done d h
      → Step steam store n
          (added n.shared d)
          (record n { shared = d; heap = h; watchdog = tests_alive })
  watchdog_ends :
      n.watchdog ≡ leaves
      → Step steam store n []
          (record n { shared = sd_increment_termination_count n.shared; watchdog = waits })
  watchdog_waits :
      n.watchdog ≡ waits
      → all_terminated n.shared ≡ true
      → Step steam store n [] (record n { watchdog = shuts })
  watchdog_shuts :
      (k : ℕ)
      → n.watchdog ≡ shuts
      → n.sock ≡ some k
      → Step steam store n [] (record n { watchdog = ended })
  application :
      (c : Call)
      → is_application c ≡ true
      → Step steam store n (puts_write c) (record n { shared = step n.shared c })

-- A use of `ctx.sock` while it is nullptr.
pub data Crash (n : Net) : Type 0 where
  writer_null : (m : Bytes) → n.writer ≡ writes m → n.sock ≡ none → Crash n
  reader_null : n.reader ≡ tests_available → n.sock ≡ none → Crash n
  reader_lost : n.reader ≡ reads → n.sock ≡ none → Crash n
  reader_got : n.reader ≡ gets → n.sock ≡ none → Crash n
  watchdog_null : n.watchdog ≡ shuts → n.sock ≡ none → Crash n

-- Any number of steps, the newest last, with all that they put into the write queue.
pub data Steps (steam : Steam) (store : SteamStore) (n : Net) : List Bytes → Net → Type 0 where
  nothing : Steps steam store n [] n
  then_one :
      {ps p : List Bytes} {t u : Net}
      → Steps steam store n ps t
      → Step steam store t p u
      → Steps steam store n (ps ++ p) u
