-- ===== src/NetClient/Threads/Balance.antt =====
-- The threads of c_net_client.cpp leave the memory as they find it.
use libncclient.Common.{Bool, ◌≡◌, refl, ◌∙◌, List, Bytes, codes}
use libncclient.Memory.{Heap}
use libncclient.Memory.Balance.{Same, done-Runs}
use libncclient.Interop.{make_view}
use libncclient.SharedData.{SharedData, SteamStore, sd_add_back_read}
use libncclient.SharedData.Balanced.{add_read_runs}
use libncclient.NetClient.Auth.{Steam, handle_sending_auth}
use libncclient.NetClient.Balanced.{
  take_front_runs, send_user_runs, tell_runs, handle_sending_auth_runs, check_auth_runs,
}
use libncclient.Util.Files.{Files}
use libncclient.NetClient.KeyFile.{check_auth}
use libncclient.NetClient.Threads.{Net, start, take_front, send_user, tell}
use libncclient.NetClient.Threads.Steps.{
  Step, Steps, nothing, then_one, writer_takes, reader_checks, reader_queues, watchdog_announces,
  watchdog_greets, watchdog_sends_auth, watchdog_sends_user, watchdog_fails,
}

module _ (steam : Steam) (store : SteamStore) where
  Step-blocks :
      {n t : Net} {p : List Bytes} → Step steam store n p t → t.heap.blocks ≡ n.heap.blocks
  Step-blocks {n} (writer_takes m d h w fits e) =
      done-Runs (take_front n.shared) (Same n.heap.blocks) (m, d) n.heap h
        (take_front_runs n.heap.blocks n.shared) e
  Step-blocks {n} (reader_checks m out fs d h r e) =
      done-Runs (check_auth (handle_sending_auth steam store) out n.files n.shared m)
        (Same n.heap.blocks) (fs, d) n.heap h
        (check_auth_runs n.heap.blocks steam store out n.files n.shared m) e
  Step-blocks {n} (reader_queues m d h r e) =
      done-Runs (sd_add_back_read n.shared (make_view m)) (Same n.heap.blocks) d n.heap h
        (add_read_runs n.heap.blocks n.shared (make_view m)) e
  Step-blocks {n} (watchdog_announces d h w e) =
      done-Runs (tell (codes "Connecting...") n.shared) (Same n.heap.blocks) d n.heap h
        (tell_runs n.heap.blocks (codes "Connecting...") n.shared) e
  Step-blocks {n} (watchdog_greets d h w e) =
      done-Runs (tell (codes "`LConnected`") n.shared) (Same n.heap.blocks) d n.heap h
        (tell_runs n.heap.blocks (codes "`LConnected`") n.shared) e
  Step-blocks {n} (watchdog_sends_auth d h w e) =
      done-Runs (handle_sending_auth steam store n.shared) (Same n.heap.blocks) d n.heap h
        (handle_sending_auth_runs n.heap.blocks steam store n.shared) e
  Step-blocks {n} (watchdog_sends_user d h w e) =
      done-Runs (send_user n.shared) (Same n.heap.blocks) d n.heap h
        (send_user_runs n.heap.blocks n.shared) e
  Step-blocks {n} (watchdog_fails d h w e) =
      done-Runs (tell (codes "`DConnection to the server failed`") n.shared) (Same n.heap.blocks) d
        n.heap h (tell_runs n.heap.blocks (codes "`DConnection to the server failed`") n.shared) e
  Step-blocks _ = refl

  Steps-same :
      {n t : Net} {ps : List Bytes} → Steps steam store n ps t → t.heap.blocks ≡ n.heap.blocks
  Steps-same nothing = refl
  Steps-same (then_one run one) = Step-blocks one ∙ Steps-same run

  -- Whatever the threads, the server and the application do, for as long as they run: the strings
  -- that cross the C interface within the threads are all given back, so that after each step the
  -- blocks that are allocated are those of the start, with the same contents. No step leaks a
  -- string, and none frees one that is not its own.
  pub Steps-blocks :
      (alive : Bool) (d : SharedData) (h : Heap) (files : Files) (ps : List Bytes) (t : Net)
      → Steps steam store (start alive d h files) ps t
      → t.heap.blocks ≡ h.blocks
  Steps-blocks alive d h files ps t run = Steps-same run
