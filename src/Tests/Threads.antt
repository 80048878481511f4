-- ===== src/Tests/Threads.antt =====
-- Tests of the threads of NetClient.
use libncclient.Common.{
  ◌⊎◌, List, Bytes, ◌≤◌, ◌≡◌, ◌↔◌, refl, true, false, to_int, [], ◌∷◌, some, codes, arith,
}
use libncclient.Memory.Laws.{used_address}
use libncclient.SharedData.{
  SharedData, request_termination, sd_alloc, sd_should_terminate, sd_increment_termination_count,
  sd_add_back_read, sd_get_front_write, sd_has_front_write, all_terminated, sd_use_steam_auth,
  sd_has_key_auth, sd_get_user,
}
use libncclient.Interop.{
  make_copy, make_view_from_raw, c_str_sized_to_cpp, free_sized_string, view_to_cpp,
}
use libncclient.SharedData.Queues.{adds_write, terminates, step}
use libncclient.NetClient.Auth.{handle_sending_auth}
use libncclient.NetClient.Threads.{
  Net, start, tell, take_front, send_user, send_user_command, ended, top, tests_alive,
}
use libncclient.NetClient.Threads.Steps.{
  Step, Steps, nothing, then_one, Crash, application, watchdog_goes, watchdog_tests,
  watchdog_starts, watchdog_announces, watchdog_deletes, watchdog_connects, watchdog_greets,
  watchdog_sends_auth, watchdog_sends_user, watchdog_wakes, writer_goes, writer_lives, writer_sees,
  writer_takes, writer_writes, writer_stops, writer_ends,
}
use libncclient.NetClient.Threads.Order.{Steps-order}
use libncclient.NetClient.Threads.Balance.{Steps-blocks}
use libncclient.NetClient.Threads.End.{watchdog_over, Steps-all_terminated}
use libncclient.NetClient.Threads.Exit.{all_moves, moves, Steps-termination}
use libncclient.NetClient.Threads.Liveness.{IsAtRest, Steps-progress}
use libncclient.NetClient.Threads.Socket.{shutdown-Crash, restart-Crash}
use libncclient.Tests.Shared.{start_heap, clients, steam, no_files}

abbrev begin : Net
begin = start false sd_alloc start_heap no_files

abbrev told : SharedData
told = record sd_alloc {
  read_queue = codes "Connecting..." ∷ codes "`LConnected`" ∷ [];
  write_queue = codes "a" ∷ [];
}

abbrev connecting_told : SharedData
connecting_told = record sd_alloc {
  read_queue = codes "Connecting..." ∷ [];
  write_queue = codes "a" ∷ [];
}

-- The first connection, with a command that was queued before it and is written after it.
abbrev written : Net
written = record {
  shared = record told { write_queue = [] };
  heap = used_address (used_address start_heap);
  files = no_files;
  socket_alive = true;
  sock = some 0;
  connections = 1;
  tried = codes "a" ∷ [];
  writer = top;
  reader = top;
  watchdog = tests_alive;
}

write_one : Steps steam clients begin (codes "a" ∷ []) written
unfolding step sd_should_terminate tell make_view_from_raw handle_sending_auth send_user
    send_user_command take_front sd_has_front_write sd_add_back_read view_to_cpp to_int sd_get_user
    make_copy sd_get_front_write c_str_sized_to_cpp free_sized_string sd_use_steam_auth
    sd_has_key_auth
write_one =
    then_one
      (then_one
        (then_one
          (then_one
            (then_one
              (then_one
                (then_one
                  (then_one
                    (then_one
                      (then_one
                        (then_one
                          (then_one
                            (then_one
                              (then_one
                                (then_one
                                  (then_one nothing (application (adds_write (codes "a")) refl))
                                  (watchdog_goes refl refl))
                                (watchdog_tests refl refl))
                              (watchdog_starts refl refl))
                            (watchdog_announces connecting_told start_heap refl refl))
                          (watchdog_deletes refl))
                        (watchdog_connects refl))
                      (watchdog_greets told start_heap refl refl))
                    (watchdog_sends_auth told start_heap refl refl))
                  (watchdog_sends_user told (used_address start_heap) refl refl))
                (watchdog_wakes refl))
              (writer_goes refl refl))
            (writer_lives refl refl))
          (writer_sees refl refl))
        (writer_takes (codes "a") (record told { write_queue = [] })
          (used_address (used_address start_heap)) refl (omega arith, tt) refl))
      (writer_writes (codes "a") 0 refl refl)

Steps-order_example : codes "a" ∷ [] ≡ codes "a" ∷ []
Steps-order_example =
    Steps-order steam clients false sd_alloc start_heap no_files (codes "a" ∷ []) written write_one

-- The same program, told to end, and its write thread at its end.
abbrev stopping : Net
stopping = record written { shared = record told { write_queue = []; should_terminate = true } }

abbrev stopped : Net
stopped = record stopping {
  shared = record told { write_queue = []; should_terminate = true; termination_count = 1 };
  writer = ended;
}

stop_one : Steps steam clients stopping [] stopped
unfolding sd_should_terminate sd_increment_termination_count
stop_one = then_one (then_one nothing (writer_stops refl refl)) (writer_ends refl)

told_to_stop : Steps steam clients begin (codes "a" ∷ []) stopping
unfolding step request_termination
told_to_stop = then_one write_one (application terminates refl)

Steps-termination_example : (true ≡ true) × (all_moves steam clients stop_one ≤ 27)
Steps-termination_example =
    Steps-termination steam clients false sd_alloc start_heap no_files (codes "a" ∷ []) [] stopping
      stopped told_to_stop refl stop_one

Steps-all_terminated_example :
    (all_terminated written.shared ≡ true)
    ↔ ((written.writer ≡ ended) × (written.reader ≡ ended) × (watchdog_over written.watchdog ≡ 1))
Steps-all_terminated_example =
    Steps-all_terminated steam clients false sd_alloc start_heap no_files (codes "a" ∷ []) written
      refl write_one

shutdown-Crash_example : (t : Net) × Steps steam clients begin [] t × Crash t
shutdown-Crash_example = shutdown-Crash steam clients false sd_alloc start_heap no_files refl

Steps-progress_example :
    IsAtRest steam clients stopping
    ⊎ ((t : Net) × (p : List Bytes) × (one : Step steam clients stopping p t) × (moves steam clients
            one
          ≡ 1))
Steps-progress_example =
    Steps-progress steam clients false sd_alloc start_heap no_files (codes "a" ∷ []) stopping refl
      told_to_stop refl

Steps-blocks_example : written.heap.blocks ≡ start_heap.blocks
Steps-blocks_example =
    Steps-blocks steam clients false sd_alloc start_heap no_files (codes "a" ∷ []) written write_one

restart-Crash_example :
    (t : Net) × Steps steam clients (start true sd_alloc start_heap no_files) [] t
    × (t.watchdog ≡ top)
    × Crash t
restart-Crash_example = restart-Crash steam clients sd_alloc start_heap no_files refl
