-- ===== src/NetClient/Threads/Progress.antt =====
-- What each thread does next once it is told to end.
use native.Mathlib.Decide.{dec_lt}
use libncclient.Common.{
  ◌^◌, subst, to_int, ◌+◌, ◌≡◌, ◌≢◌, ◌⊎◌, inl, inr, refl, true, List, [], ◌∷◌, Bytes, All,
  Bool-cases, Option-cases, length,
}
use libncclient.Memory.{Heap, Outcome, done, threw, fault}
use libncclient.Interop.{make_view, make_view_from_raw, view_to_cpp}
use libncclient.Interop.Copies.{Fits}
use libncclient.SharedData.{
  SteamStore, sd_add_back_read, sd_should_terminate, sd_has_front_write, has_front_write,
  all_terminated,
}
use libncclient.NetClient.Auth.{Steam, handle_sending_auth}
use libncclient.Util.Files.{OutStream, not_opened}
use libncclient.NetClient.KeyFile.{check_auth}
use libncclient.NetClient.Threads.{
  Net, Writer, Reader, Watchdog, send_user, tell, top, tests_alive, tests_front, takes, writes,
  leaves, ended, tests_available, reads, gets, checks, queues, tests_terminate, announces, connects,
  connecting, greets, sends_auth, sends_user, wakes, fails, waits, shuts,
}
use libncclient.NetClient.Threads.Steps.{
  Step, Crash, writer_null, reader_null, reader_lost, reader_got, watchdog_null, writer_stops,
  writer_idles, writer_lives, writer_rests, writer_sees, writer_takes, writer_writes, writer_ends,
  reader_stops, reader_idles, reader_lives, reader_rests, reader_reads, reader_gets, reader_checks,
  reader_queues, reader_ends, watchdog_stops, watchdog_rests, watchdog_tests, watchdog_breaks,
  watchdog_announces, watchdog_deletes, watchdog_connects, watchdog_greets, watchdog_sends_auth,
  watchdog_sends_user, watchdog_wakes, watchdog_fails, watchdog_ends, watchdog_waits,
  watchdog_shuts,
}
use libncclient.NetClient.Threads.Ready.{IsReady, take_front-full, List-cases}
use libncclient.NetClient.Threads.Exit.{IsTold, moves}

-- A call that gives no result.
abbrev pub IsNothing : {A : Type 0} → Outcome A → Type 0
IsNothing {A} o = (a : A) (h : Heap) → o ≢ done a h

Outcome-cases : {A : Type 0} (o : Outcome A) → ((a : A) × (h : Heap) × (o ≡ done a h)) ⊎ IsNothing o
Outcome-cases (done a h) = inl (a, h, refl)
Outcome-cases (threw h) = inr (λ a h'. cc)
Outcome-cases fault = inr (λ a h'. cc)

Fits-cases : (s : Bytes) → Fits s ⊎ ¬ Fits s
Fits-cases s = elim (dec_lt (length s + 1) (2 ^ 31)) [ yes p ↦ inl p | no np ↦ inr np ]

All-Fits-cases : (l : List Bytes) → All Fits l ⊎ ¬ All Fits l
All-Fits-cases [] = inl tt
All-Fits-cases (s ∷ l) = elim (Fits-cases s) [
  | inl p ↦ elim (All-Fits-cases l) [ inl ps ↦ inl (p, ps) | inr long ↦ inr (λ q. long q.1) ]
  | inr long ↦ inr (λ q. long q.0)
]

module _ (steam : Steam) (store : SteamStore) where
  -- A call of a thread that throws or is undefined, or a command that is too long to be copied.
  pub data Stuck (n : Net) : Type 0 where
    takes_nothing : n.writer ≡ takes → ¬ All Fits n.shared.write_queue → Stuck n
    checks_nothing :
        (m : Bytes) (out : OutStream)
        → n.reader ≡ checks m
        → IsNothing (check_auth (handle_sending_auth steam store) out n.files n.shared m n.heap)
        → Stuck n
    queues_nothing :
        (m : Bytes)
        → n.reader ≡ queues m
        → IsNothing (sd_add_back_read n.shared (make_view m) n.heap)
        → Stuck n
    sends_no_auth :
        n.watchdog ≡ sends_auth
        → IsNothing (handle_sending_auth steam store n.shared n.heap)
        → Stuck n
    sends_no_user : n.watchdog ≡ sends_user → IsNothing (send_user n.shared n.heap) → Stuck n

  -- What may become of a program: a thread has a step, or an end.
  pub data Fate (n : Net) : Type 0 where
    goes_on :
        {p : List Bytes} {t : Net} (one : Step steam store n p t)
        → moves steam store one ≡ 1
        → Fate n
    crashes : Crash n → Fate n
    sticks : Stuck n → Fate n
    is_over : n.writer ≡ ended → n.reader ≡ ended → n.watchdog ≡ ended → Fate n

  pub writer-Fate :
      (n : Net) (w : Writer) → n.writer ≡ w → IsReady n → IsTold n → Fate n ⊎ (n.writer ≡ ended)
  unfolding sd_should_terminate sd_has_front_write
  writer-Fate n top w ready told = inl (goes_on (writer_stops w told) refl)
  writer-Fate n tests_alive w ready told = elim (Bool-cases n.socket_alive) [
    | inl on ↦ inl (goes_on (writer_lives w on) refl)
    | inr off ↦ inl (goes_on (writer_idles w off) refl)
  ]
  writer-Fate n tests_front w ready told = elim (Bool-cases (has_front_write n.shared)) [
    | inl some_front ↦ inl (goes_on (writer_sees w some_front) refl)
    | inr no_front ↦ inl (goes_on (writer_rests w no_front) refl)
  ]
  writer-Fate n takes w ready told = elim (All-Fits-cases n.shared.write_queue) [
    | inl fits ↦
        let (q, rest, at) = List-cases n.shared.write_queue (ready w) in
        inl (
          goes_on
            (writer_takes q _ _ w fits
              (take_front-full n.shared q rest n.heap (subst (All Fits) at fits).0 at))
            refl)
    | inr long ↦ inl (sticks (takes_nothing w long))
  ]
  writer-Fate n (writes m) w ready told = elim (Option-cases n.sock) [
    | inl gone ↦ inl (crashes (writer_null m w gone))
    | inr (k, there) ↦ inl (goes_on (writer_writes m k w there) refl)
  ]
  writer-Fate n leaves w ready told = inl (goes_on (writer_ends w) refl)
  writer-Fate n ended w ready told = inr w

  pub reader-Fate : (n : Net) (r : Reader) → n.reader ≡ r → IsTold n → Fate n ⊎ (n.reader ≡ ended)
  unfolding sd_should_terminate
  reader-Fate n top r told = inl (goes_on (reader_stops r told) refl)
  reader-Fate n tests_alive r told = elim (Bool-cases n.socket_alive) [
    | inl on ↦ inl (goes_on (reader_lives r on) refl)
    | inr off ↦ inl (goes_on (reader_idles r off) refl)
  ]
  reader-Fate n tests_available r told = elim (Option-cases n.sock) [
    | inl gone ↦ inl (crashes (reader_null r gone))
    | inr (k, there) ↦ inl (goes_on (reader_rests k r there) refl)
  ]
  reader-Fate n reads r told = elim (Option-cases n.sock) [
    | inl gone ↦ inl (crashes (reader_lost r gone))
    | inr (k, there) ↦ inl (goes_on (reader_reads k r there) refl)
  ]
  reader-Fate n gets r told = elim (Option-cases n.sock) [
    | inl gone ↦ inl (crashes (reader_got r gone))
    | inr (k, there) ↦ inl (goes_on (reader_gets [] k r there) refl)
  ]
  reader-Fate n (checks m) r told =
      elim (Outcome-cases
        (check_auth (handle_sending_auth steam store) not_opened n.files n.shared m n.heap)) [
          | inl ((fs, d), h, e) ↦ inl (goes_on (reader_checks m not_opened fs d h r e) refl)
          | inr fruitless ↦ inl (sticks (checks_nothing m not_opened r fruitless))
        ]
  reader-Fate n (queues m) r told =
      elim (Outcome-cases (sd_add_back_read n.shared (make_view m) n.heap)) [
        | inl (d, h, e) ↦ inl (goes_on (reader_queues m d h r e) refl)
        | inr fruitless ↦ inl (sticks (queues_nothing m r fruitless))
      ]
  reader-Fate n leaves r told = inl (goes_on (reader_ends r) refl)
  reader-Fate n ended r told = inr r

  pub watchdog-Fate :
      (n : Net) (w : Watchdog)
      → n.watchdog ≡ w
      → IsTold n
      → (n.watchdog ≡ waits → all_terminated n.shared ≡ true)
      → Fate n ⊎ (n.watchdog ≡ ended)
  unfolding sd_should_terminate tell make_view_from_raw sd_add_back_read view_to_cpp to_int
  watchdog-Fate n top w told through = inl (goes_on (watchdog_stops w told) refl)
  watchdog-Fate n tests_alive w told through = elim (Bool-cases n.socket_alive) [
    | inl on ↦ inl (goes_on (watchdog_rests w on) refl)
    | inr off ↦ inl (goes_on (watchdog_tests w off) refl)
  ]
  watchdog-Fate n tests_terminate w told through = inl (goes_on (watchdog_breaks w told) refl)
  watchdog-Fate n announces w told through = inl (goes_on (watchdog_announces _ _ w refl) refl)
  watchdog-Fate n connects w told through = inl (goes_on (watchdog_deletes w) refl)
  watchdog-Fate n connecting w told through = inl (goes_on (watchdog_connects w) refl)
  watchdog-Fate n greets w told through = inl (goes_on (watchdog_greets _ _ w refl) refl)
  watchdog-Fate n sends_auth w told through =
      elim (Outcome-cases (handle_sending_auth steam store n.shared n.heap)) [
        | inl (d, h, e) ↦ inl (goes_on (watchdog_sends_auth d h w e) refl)
        | inr fruitless ↦ inl (sticks (sends_no_auth w fruitless))
      ]
  watchdog-Fate n sends_user w told through = elim (Outcome-cases (send_user n.shared n.heap)) [
    | inl (d, h, e) ↦ inl (goes_on (watchdog_sends_user d h w e) refl)
    | inr fruitless ↦ inl (sticks (sends_no_user w fruitless))
  ]
  watchdog-Fate n wakes w told through = inl (goes_on (watchdog_wakes w) refl)
  watchdog-Fate n fails w told through = inl (goes_on (watchdog_fails _ _ w refl) refl)
  watchdog-Fate n leaves w told through = inl (goes_on (watchdog_ends w) refl)
  watchdog-Fate n waits w told through = inl (goes_on (watchdog_waits w (through w)) refl)
  watchdog-Fate n shuts w told through = elim (Option-cases n.sock) [
    | inl gone ↦ inl (crashes (watchdog_null w gone))
    | inr (k, there) ↦ inl (goes_on (watchdog_shuts k w there) refl)
  ]
  watchdog-Fate n ended w told through = inr w
