-- ===== src/NetClient/Threads/Exit.antt =====
-- How soon the threads end once they are told to.
use libncclient.Common.{Bool, ℕ, ◌+◌, ◌≤◌, ◌≡◌, ap, ◌∙◌, true, List, Bytes, codes, arith}
use libncclient.Memory.{Heap}
use libncclient.Util.Files.{Files}
use libncclient.SharedData.{
  SharedData, SteamStore, sd_should_terminate, sd_increment_termination_count,
}
use libncclient.NetClient.Auth.{Steam}
use libncclient.NetClient.Threads.{start, Net}
use libncclient.NetClient.Threads.Ranks.{writer_rank, reader_rank, watchdog_rank, rank, rank_le}
use libncclient.NetClient.Threads.Steps.{
  Step, Steps, nothing, then_one, writer_stops, writer_goes, writer_idles, writer_lives,
  writer_rests, writer_sees, writer_takes, writer_writes, writer_fails, writer_ends, reader_stops,
  reader_goes, reader_idles, reader_lives, reader_rests, reader_sees, reader_throws, reader_reads,
  reader_gets, reader_fails, reader_checks, reader_queues, reader_ends, watchdog_stops,
  watchdog_goes, watchdog_rests, watchdog_tests, watchdog_breaks, watchdog_starts,
  watchdog_announces, watchdog_deletes, watchdog_connects, watchdog_throws, watchdog_greets,
  watchdog_sends_auth, watchdog_sends_user, watchdog_wakes, watchdog_fails, watchdog_ends,
  watchdog_waits, watchdog_shuts, application,
}
use libncclient.NetClient.Threads.Keeps.{
  step-Keeps, Extends-Keeps, tell_adds, send_user_adds, add_back_read_adds,
  handle_sending_auth_adds, check_auth_adds,
}
use libncclient.NetClient.Threads.Ready.{Steps-IsReady, IsReady, Step-IsReady, take_front-Taken}

abbrev pub IsTold : Net → Type 0
IsTold n = n.shared.should_terminate ≡ true

module _ (steam : Steam) (store : SteamStore) where
  -- The steps of threads, not those of the application.
  abbrev pub moves : {n t : Net} {p : List Bytes} → Step steam store n p t → ℕ
  moves (application c a) = 0
  moves _ = 1

  abbrev pub all_moves : {n t : Net} {ps : List Bytes} → Steps steam store n ps t → ℕ
  all_moves nothing = 0
  all_moves (then_one run one) = all_moves run + moves one

  pub Step-rank :
      {n t : Net} {p : List Bytes} (ready : IsReady n) (told : IsTold n)
      (one : Step steam store n p t)
      → IsTold t × (moves one + rank t ≤ rank n)
  unfolding sd_should_terminate sd_increment_termination_count
  Step-rank {n} ready told (writer_stops w e) = (told, omega (arith, ap writer_rank w))
  Step-rank {n} ready told (writer_idles w e) = (told, omega (arith, ap writer_rank w))
  Step-rank {n} ready told (writer_lives w e) = (told, omega (arith, ap writer_rank w))
  Step-rank {n} ready told (writer_rests w e) = (told, omega (arith, ap writer_rank w))
  Step-rank {n} ready told (writer_sees w e) = (told, omega (arith, ap writer_rank w))
  Step-rank {n} ready told (writer_writes m k w e) = (told, omega (arith, ap writer_rank w))
  Step-rank {n} ready told (writer_fails m k w e) = (told, omega (arith, ap writer_rank w))
  Step-rank {n} ready told (writer_ends w) = (told, omega (arith, ap writer_rank w))
  Step-rank {n} ready told (writer_goes w e) = absurd (ground (arith, told, e))
  Step-rank {n} ready told (reader_goes w e) = absurd (ground (arith, told, e))
  Step-rank {n} ready told (watchdog_goes w e) = absurd (ground (arith, told, e))
  Step-rank {n} ready told (watchdog_starts w e) = absurd (ground (arith, told, e))
  Step-rank {n} ready told (writer_takes m d h w fits e) = (
    (take_front-Taken n.shared d m n.heap h (ready w) fits e).2 ∙ told,
    omega (arith, ap writer_rank w),
  )
  Step-rank {n} ready told (reader_stops r e) = (told, omega (arith, ap reader_rank r))
  Step-rank {n} ready told (reader_idles r e) = (told, omega (arith, ap reader_rank r))
  Step-rank {n} ready told (reader_lives r e) = (told, omega (arith, ap reader_rank r))
  Step-rank {n} ready told (reader_rests k r e) = (told, omega (arith, ap reader_rank r))
  Step-rank {n} ready told (reader_sees k r e) = (told, omega (arith, ap reader_rank r))
  Step-rank {n} ready told (reader_throws k r e) = (told, omega (arith, ap reader_rank r))
  Step-rank {n} ready told (reader_reads k r e) = (told, omega (arith, ap reader_rank r))
  Step-rank {n} ready told (reader_gets m k r e) = (told, omega (arith, ap reader_rank r))
  Step-rank {n} ready told (reader_fails k r e) = (told, omega (arith, ap reader_rank r))
  Step-rank {n} ready told (reader_ends r) = (told, omega (arith, ap reader_rank r))
  Step-rank {n} ready told (reader_checks m out fs d h r e) = (
    (Extends-Keeps (check_auth_adds steam store n m out fs d h e)).1 told,
    omega (arith, ap reader_rank r),
  )
  Step-rank {n} ready told (reader_queues m d h r e) =
      ((Extends-Keeps (add_back_read_adds n m d h e)).1 told, omega (arith, ap reader_rank r))
  Step-rank {n} ready told (watchdog_stops w e) = (told, omega (arith, ap watchdog_rank w))
  Step-rank {n} ready told (watchdog_rests w e) = (told, omega (arith, ap watchdog_rank w))
  Step-rank {n} ready told (watchdog_tests w e) = (told, omega (arith, ap watchdog_rank w))
  Step-rank {n} ready told (watchdog_breaks w e) = (told, omega (arith, ap watchdog_rank w))
  Step-rank {n} ready told (watchdog_deletes w) = (told, omega (arith, ap watchdog_rank w))
  Step-rank {n} ready told (watchdog_connects w) = (told, omega (arith, ap watchdog_rank w))
  Step-rank {n} ready told (watchdog_throws w) = (told, omega (arith, ap watchdog_rank w))
  Step-rank {n} ready told (watchdog_wakes w) = (told, omega (arith, ap watchdog_rank w))
  Step-rank {n} ready told (watchdog_waits w e) = (told, omega (arith, ap watchdog_rank w))
  Step-rank {n} ready told (watchdog_shuts k w e) = (told, omega (arith, ap watchdog_rank w))
  Step-rank {n} ready told (watchdog_ends w) = (told, omega (arith, ap watchdog_rank w))
  Step-rank {n} ready told (watchdog_announces d h w e) = (
    (Extends-Keeps (tell_adds (codes "Connecting...") n d h e)).1 told,
    omega (arith, ap watchdog_rank w),
  )
  Step-rank {n} ready told (watchdog_greets d h w e) = (
    (Extends-Keeps (tell_adds (codes "`LConnected`") n d h e)).1 told,
    omega (arith, ap watchdog_rank w),
  )
  Step-rank {n} ready told (watchdog_fails d h w e) = (
    (Extends-Keeps (tell_adds (codes "`DConnection to the server failed`") n d h e)).1 told,
    omega (arith, ap watchdog_rank w),
  )
  Step-rank {n} ready told (watchdog_sends_auth d h w e) = (
    (Extends-Keeps (handle_sending_auth_adds steam store n d h e)).1 told,
    omega (arith, ap watchdog_rank w),
  )
  Step-rank {n} ready told (watchdog_sends_user d h w e) =
      ((Extends-Keeps (send_user_adds n d h e)).1 told, omega (arith, ap watchdog_rank w))
  Step-rank {n} ready told (application call a) = ((step-Keeps n.shared call a).1 told, omega arith)

  pub Steps-rank :
      {n t : Net} {ps : List Bytes}
      → IsReady n
      → IsTold n
      → (run : Steps steam store n ps t) → IsReady t × IsTold t × (all_moves run + rank t ≤ rank n)
  Steps-rank ready told nothing = (ready, told, omega arith)
  Steps-rank ready told (then_one run one) =
      let (before, still, few) = Steps-rank ready told run in
      let (after, fewer) = Step-rank before still one in
      (Step-IsReady steam store before one, after, omega (arith, few, fewer))

  -- Once the application asked the threads to terminate they take at most 27 more steps between
  -- them, wherever each stands in a program that came from their start, whatever the server answers
  -- and whatever the application calls: no thread goes round its loop again, and the flag stays set.
  pub Steps-termination :
      (alive : Bool) (d : SharedData) (h : Heap) (files : Files) (qs ps : List Bytes) (n t : Net)
      → Steps steam store (start alive d h files) qs n
      → IsTold n
      → (run : Steps steam store n ps t) → IsTold t × (all_moves run ≤ 27)
  Steps-termination alive d h files qs ps n t before told run =
      let ready = Steps-IsReady steam store (λ w. cc) before in
      let (_, still, few) = Steps-rank ready told run in (still, omega (arith, few, rank_le n))
