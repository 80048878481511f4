-- ===== src/NetClient/Threads/Socket.antt =====
-- When there is a socket, and when `ctx.sock` is used as nullptr.
use libncclient.Common.{ℕ, ◌≡◌, refl, Bool, true, false, [], Option, none, some}
use libncclient.Memory.{Heap}
use libncclient.SharedData.{
  SharedData, SteamStore, sd_should_terminate, sd_increment_termination_count, all_terminated,
  request_termination,
}
use libncclient.SharedData.Queues.{terminates, step}
use libncclient.NetClient.Auth.{Steam}
use libncclient.Util.Files.{Files}
use libncclient.NetClient.Threads.{
  Net, start, top, Watchdog, tests_terminate, announces, connects, connecting, greets, sends_auth,
  sends_user, wakes, fails,
}
use libncclient.NetClient.Threads.Steps.{
  Crash, reader_null, watchdog_null, Steps, nothing, then_one, writer_stops, writer_ends,
  reader_stops, reader_goes, reader_lives, reader_ends, watchdog_stops, watchdog_ends,
  watchdog_waits, application,
}

abbrev pub has_sock : Option ℕ → Bool
has_sock none = false
has_sock (some k) = true

-- The watchdog is between the connection and the set of `socket_alive`.
abbrev connected : Watchdog → Bool
connected greets = true
connected sends_auth = true
connected sends_user = true
connected wakes = true
connected _ = false

-- The watchdog is in the loop that makes the connection.
abbrev busy : Watchdog → Bool
busy tests_terminate = true
busy announces = true
busy connects = true
busy connecting = true
busy greets = true
busy sends_auth = true
busy sends_user = true
busy wakes = true
busy fails = true
busy _ = false

abbrev IsLinked : Net → Type 0
IsLinked n =
    (n.socket_alive ≡ true → has_sock n.sock ≡ true)
    × (connected n.watchdog ≡ true → has_sock n.sock ≡ true)
    × (busy n.watchdog ≡ true → n.socket_alive ≡ false)

three_counts :
    (d : SharedData)
    → d.termination_count ≡ 0
    → all_terminated (
        sd_increment_termination_count
          (sd_increment_termination_count (sd_increment_termination_count (request_termination d))))
      ≡ true
unfolding all_terminated sd_increment_termination_count request_termination
three_counts d zeroed = rw zeroed refl

module _ (steam : Steam) (store : SteamStore) where
  -- Whatever the shared object holds, an application that ends the client before its first
  -- connection can crash it: all three threads leave, and the watchdog shuts down the socket that
  -- was never made. The count of ended threads is 0 at the start.
  pub shutdown-Crash :
      (alive : Bool) (d : SharedData) (h : Heap) (files : Files)
      → d.termination_count ≡ 0
      → (t : Net) × Steps steam store (start alive d h files) [] t × Crash t
  unfolding sd_should_terminate step request_termination
  shutdown-Crash alive d h files zeroed = (
    _,
    then_one
        (then_one
          (then_one
            (then_one
              (then_one
                (then_one
                  (then_one (then_one nothing (application terminates refl))
                    (writer_stops refl refl))
                  (reader_stops refl refl))
                (watchdog_stops refl refl))
              (writer_ends refl))
            (reader_ends refl))
          (watchdog_ends refl))
        (watchdog_waits refl (three_counts d zeroed)),
    watchdog_null refl refl,
  )

  -- Where an earlier start in the process has left `socket_alive` set, a new start can crash before
  -- its watchdog has run: the read thread sees the flag and goes on to use a socket that is not
  -- there. The new shared object is not told to end.
  pub restart-Crash :
      (d : SharedData) (h : Heap) (files : Files)
      → d.should_terminate ≡ false
      → (t : Net) × Steps steam store (start true d h files) [] t × (t.watchdog ≡ top) × Crash t
  unfolding sd_should_terminate
  restart-Crash d h files untold = (
    _,
    then_one (then_one nothing (reader_goes refl untold)) (reader_lives refl refl),
    refl,
    reader_null refl refl,
  )
