-- ===== src/NetClient/Threads/End.antt =====
-- How the threads end.
use libncclient.Common.{
  Bool, ◌↔◌, ℕ, ◌+◌, ◌≤◌, ◌≡◌, refl, ap, ◌∙◌, true, List, Bytes, codes, arith, ==_iff,
}
use libncclient.Memory.{Heap}
use libncclient.SharedData.{SharedData, SteamStore, sd_increment_termination_count, all_terminated}
use libncclient.NetClient.Auth.{Steam}
use libncclient.Util.Files.{Files}
use libncclient.NetClient.Threads.{Net, start, Writer, Reader, Watchdog, ended, waits, shuts}
use libncclient.NetClient.Threads.Steps.{
  Step, Steps, nothing, then_one, writer_stops, writer_goes, writer_idles, writer_lives,
  writer_rests, writer_sees, writer_takes, writer_writes, writer_fails, writer_ends, reader_stops,
  reader_goes, reader_idles, reader_lives, reader_rests, reader_sees, reader_throws, reader_reads,
  reader_gets, reader_fails, reader_checks, reader_queues, reader_ends, watchdog_stops,
  watchdog_goes, watchdog_rests, watchdog_tests, watchdog_breaks, watchdog_starts,
  watchdog_announces, watchdog_deletes, watchdog_connects, watchdog_throws, watchdog_greets,
  watchdog_sends_auth, watchdog_sends_user, watchdog_wakes, watchdog_fails, watchdog_ends,
  watchdog_waits, watchdog_shuts, application,
}
use libncclient.NetClient.Threads.Keeps.{
  step-Keeps, Extends-Keeps, tell_adds, send_user_adds, add_back_read_adds,
  handle_sending_auth_adds, check_auth_adds,
}
use libncclient.NetClient.Threads.Ready.{IsReady, Step-IsReady, take_front-Taken}

-- How many of a thread's counts are made.
abbrev pub writer_over : Writer → ℕ
writer_over ended = 1
writer_over _ = 0

abbrev pub reader_over : Reader → ℕ
reader_over ended = 1
reader_over _ = 0

abbrev pub watchdog_over : Watchdog → ℕ
watchdog_over waits = 1
watchdog_over shuts = 1
watchdog_over ended = 1
watchdog_over _ = 0

abbrev pub over : Net → ℕ
over n = writer_over n.writer + reader_over n.reader + watchdog_over n.watchdog

abbrev pub IsCounted : Net → Type 0
IsCounted n = n.shared.termination_count ≡ over n

writer_over_le : (w : Writer) → writer_over w ≤ 1
writer_over_le ended = omega arith
writer_over_le _ = omega arith

reader_over_le : (r : Reader) → reader_over r ≤ 1
reader_over_le ended = omega arith
reader_over_le _ = omega arith

watchdog_over_le : (w : Watchdog) → watchdog_over w ≤ 1
watchdog_over_le waits = omega arith
watchdog_over_le shuts = omega arith
watchdog_over_le ended = omega arith
watchdog_over_le _ = omega arith

writer_ended : (w : Writer) → writer_over w ≡ 1 → w ≡ ended
writer_ended ended e = refl
writer_ended _ e = absurd (omega arith)

reader_ended : (r : Reader) → reader_over r ≡ 1 → r ≡ ended
reader_ended ended e = refl
reader_ended _ e = absurd (omega arith)

-- One more count, of at most two.
counted_one :
    (d : SharedData) (k : ℕ)
    → d.termination_count ≡ k
    → k ≤ 2
    → (sd_increment_termination_count d).termination_count ≡ k + 1
unfolding sd_increment_termination_count
counted_one d k c small = omega (arith, c, small)

module _ (steam : Steam) (store : SteamStore) where
  pub Step-IsCounted :
      {n t : Net} {p : List Bytes} → IsReady n → IsCounted n → Step steam store n p t → IsCounted t
  Step-IsCounted {n} ready c (writer_stops w e) = omega (arith, c, ap writer_over w)
  Step-IsCounted {n} ready c (writer_goes w e) = omega (arith, c, ap writer_over w)
  Step-IsCounted {n} ready c (writer_idles w e) = omega (arith, c, ap writer_over w)
  Step-IsCounted {n} ready c (writer_lives w e) = omega (arith, c, ap writer_over w)
  Step-IsCounted {n} ready c (writer_rests w e) = omega (arith, c, ap writer_over w)
  Step-IsCounted {n} ready c (writer_sees w e) = omega (arith, c, ap writer_over w)
  Step-IsCounted {n} ready c (writer_writes m k w e) = omega (arith, c, ap writer_over w)
  Step-IsCounted {n} ready c (writer_fails m k w e) = omega (arith, c, ap writer_over w)
  Step-IsCounted {n} ready c (writer_takes m d h w fits e) =
      let taken = take_front-Taken n.shared d m n.heap h (ready w) fits e in
      omega (arith, c, taken.1, ap writer_over w)
  Step-IsCounted {n} ready c (writer_ends w) = omega (
    arith,
    counted_one n.shared (over n) c
        (omega (arith, ap writer_over w, reader_over_le n.reader, watchdog_over_le n.watchdog)),
    ap writer_over w,
  )
  Step-IsCounted {n} ready c (reader_stops r e) = omega (arith, c, ap reader_over r)
  Step-IsCounted {n} ready c (reader_goes r e) = omega (arith, c, ap reader_over r)
  Step-IsCounted {n} ready c (reader_idles r e) = omega (arith, c, ap reader_over r)
  Step-IsCounted {n} ready c (reader_lives r e) = omega (arith, c, ap reader_over r)
  Step-IsCounted {n} ready c (reader_rests k r e) = omega (arith, c, ap reader_over r)
  Step-IsCounted {n} ready c (reader_sees k r e) = omega (arith, c, ap reader_over r)
  Step-IsCounted {n} ready c (reader_throws k r e) = omega (arith, c, ap reader_over r)
  Step-IsCounted {n} ready c (reader_reads k r e) = omega (arith, c, ap reader_over r)
  Step-IsCounted {n} ready c (reader_gets m k r e) = omega (arith, c, ap reader_over r)
  Step-IsCounted {n} ready c (reader_fails k r e) = omega (arith, c, ap reader_over r)
  Step-IsCounted {n} ready c (reader_checks m out fs d h r e) =
      omega (
        arith,
        c,
        (Extends-Keeps (check_auth_adds steam store n m out fs d h e)).0,
        ap reader_over r,
      )
  Step-IsCounted {n} ready c (reader_queues m d h r e) =
      omega (arith, c, (Extends-Keeps (add_back_read_adds n m d h e)).0, ap reader_over r)
  Step-IsCounted {n} ready c (reader_ends r) = omega (
    arith,
    counted_one n.shared (over n) c
        (omega (arith, ap reader_over r, writer_over_le n.writer, watchdog_over_le n.watchdog)),
    ap reader_over r,
  )
  Step-IsCounted {n} ready c (watchdog_stops w e) = omega (arith, c, ap watchdog_over w)
  Step-IsCounted {n} ready c (watchdog_goes w e) = omega (arith, c, ap watchdog_over w)
  Step-IsCounted {n} ready c (watchdog_rests w e) = omega (arith, c, ap watchdog_over w)
  Step-IsCounted {n} ready c (watchdog_tests w e) = omega (arith, c, ap watchdog_over w)
  Step-IsCounted {n} ready c (watchdog_breaks w e) = omega (arith, c, ap watchdog_over w)
  Step-IsCounted {n} ready c (watchdog_starts w e) = omega (arith, c, ap watchdog_over w)
  Step-IsCounted {n} ready c (watchdog_deletes w) = omega (arith, c, ap watchdog_over w)
  Step-IsCounted {n} ready c (watchdog_connects w) = omega (arith, c, ap watchdog_over w)
  Step-IsCounted {n} ready c (watchdog_throws w) = omega (arith, c, ap watchdog_over w)
  Step-IsCounted {n} ready c (watchdog_wakes w) = omega (arith, c, ap watchdog_over w)
  Step-IsCounted {n} ready c (watchdog_waits w e) = omega (arith, c, ap watchdog_over w)
  Step-IsCounted {n} ready c (watchdog_shuts k w e) = omega (arith, c, ap watchdog_over w)
  Step-IsCounted {n} ready c (watchdog_announces d h w e) =
      omega (
        arith,
        c,
        (Extends-Keeps (tell_adds (codes "Connecting...") n d h e)).0,
        ap watchdog_over w,
      )
  Step-IsCounted {n} ready c (watchdog_greets d h w e) =
      omega
        (arith, c, (Extends-Keeps (tell_adds (codes "`LConnected`") n d h e)).0, ap watchdog_over w)
  Step-IsCounted {n} ready c (watchdog_fails d h w e) = omega (
    arith,
    c,
    (Extends-Keeps (tell_adds (codes "`DConnection to the server failed`") n d h e)).0,
    ap watchdog_over w,
  )
  Step-IsCounted {n} ready c (watchdog_sends_auth d h w e) = omega (
    arith,
    c,
    (Extends-Keeps (handle_sending_auth_adds steam store n d h e)).0,
    ap watchdog_over w,
  )
  Step-IsCounted {n} ready c (watchdog_sends_user d h w e) =
      omega (arith, c, (Extends-Keeps (send_user_adds n d h e)).0, ap watchdog_over w)
  Step-IsCounted {n} ready c (watchdog_ends w) = omega (
    arith,
    counted_one n.shared (over n) c
        (omega (arith, ap watchdog_over w, writer_over_le n.writer, reader_over_le n.reader)),
    ap watchdog_over w,
  )
  Step-IsCounted {n} ready c (application call a) = (step-Keeps n.shared call a).0 ∙ c

  pub Steps-IsCounted :
      {n t : Net} {ps : List Bytes}
      → IsReady n
      → IsCounted n
      → Steps steam store n ps t
      → IsReady t × IsCounted t
  Steps-IsCounted ready c nothing = (ready, c)
  Steps-IsCounted ready c (then_one run one) =
      let (before, counted) = Steps-IsCounted ready c run in
      (Step-IsReady steam store before one, Step-IsCounted before counted one)

  -- From the start of the threads on, the test that ends the wait of `sd_set_termination`, and so
  -- that of `nc_shutdown`, holds exactly when the read and the write thread have ended and the
  -- watchdog has left its loop: the count is the number of threads that are through, and no
  -- interleaving makes it reach 3 early or pass it. The count is 0 at the start.
  pub Steps-all_terminated :
      (alive : Bool) (d : SharedData) (h : Heap) (files : Files) (ps : List Bytes) (t : Net)
      → d.termination_count ≡ 0
      → Steps steam store (start alive d h files) ps t
      → (all_terminated t.shared ≡ true)
        ↔ ((t.writer ≡ ended) × (t.reader ≡ ended) × (watchdog_over t.watchdog ≡ 1))
  unfolding all_terminated
  Steps-all_terminated alive d h files ps t zeroed run =
      let counted = (Steps-IsCounted (λ w. cc) zeroed run).1 in
      let writer_le = writer_over_le t.writer in
      let reader_le = reader_over_le t.reader in
      let watchdog_le = watchdog_over_le t.watchdog in
      (
        (λ test.
            let three = (==_iff t.shared.termination_count 3).0 test in
            (
              writer_ended t.writer
                  (omega (arith, counted, three, writer_le, reader_le, watchdog_le)),
              reader_ended t.reader
                  (omega (arith, counted, three, writer_le, reader_le, watchdog_le)),
              omega (arith, counted, three, writer_le, reader_le, watchdog_le),
            )),
        (λ (w, r, g).
            (==_iff t.shared.termination_count 3).1
              (omega (arith, counted, ap writer_over w, ap reader_over r, g))),
      )
