-- ===== src/NetClient/Threads/Liveness.antt =====
-- What the threads can do once they are told to end.
use libncclient.Common.{Bool, ◌≡◌, ◌⊎◌, inl, inr, refl, ap, List, Bytes, arith, ==_iff}
use libncclient.Memory.{Heap}
use libncclient.SharedData.{SharedData, SteamStore, all_terminated}
use libncclient.NetClient.Auth.{Steam}
use libncclient.Util.Files.{Files}
use libncclient.NetClient.Threads.{start, Net, ended}
use libncclient.NetClient.Threads.Steps.{Step, Steps, Crash}
use libncclient.NetClient.Threads.Ready.{IsReady}
use libncclient.NetClient.Threads.End.{
  IsCounted, Steps-IsCounted, writer_over, reader_over, watchdog_over,
}
use libncclient.NetClient.Threads.Exit.{IsTold, moves}
use libncclient.NetClient.Threads.Progress.{
  Stuck, Fate, goes_on, crashes, sticks, is_over, writer-Fate, reader-Fate, watchdog-Fate,
}

module _ (steam : Steam) (store : SteamStore) where
  fate : (n : Net) → IsReady n → IsCounted n → IsTold n → Fate steam store n
  unfolding all_terminated
  fate n ready counted told = elim (writer-Fate steam store n n.writer refl ready told) [
    | inl f ↦ f
    | inr w ↦ elim (reader-Fate steam store n n.reader refl told) [
      | inl f ↦ f
      | inr r ↦
          elim (watchdog-Fate steam store n n.watchdog refl told (λ g.
            (==_iff n.shared.termination_count 3).1
              (omega (arith, counted, ap writer_over w, ap reader_over r, ap watchdog_over g)))) [
                | inl f ↦ f
                | inr g ↦ is_over w r g
              ]
    ]
  ]

  -- Where the threads come to rest.
  abbrev pub IsAtRest : Net → Type 0
  IsAtRest t =
      ((t.writer ≡ ended) × (t.reader ≡ ended) × (t.watchdog ≡ ended))
      ⊎ Crash t
      ⊎ Stuck steam store t

  -- Once the application asked the threads to terminate, in a program that came from their start with
  -- no thread counted, a thread has a step; or all three have ended; or a thread is about to use
  -- `ctx.sock` as nullptr; or a call that a thread has to make gives no result, since it throws, as
  -- for a text that does not fit, or is undefined (`Stuck`). So no order of the steps leaves the
  -- watchdog in its wait for all three. It is a condition that a call of the socket returns or
  -- throws, and that the wait for a Steam ticket in `handle_sending_auth` ends: `steam` gives the
  -- client behind it. An application that waits in `sd_set_termination` has to pump the events of
  -- Steam from another thread for that.
  pub Steps-progress :
      (alive : Bool) (d : SharedData) (h : Heap) (files : Files) (ps : List Bytes) (n : Net)
      → d.termination_count ≡ 0
      → Steps steam store (start alive d h files) ps n
      → IsTold n
      → IsAtRest n
        ⊎ ((t : Net) × (p : List Bytes) × (one : Step steam store n p t) × (moves steam store one
              ≡ 1))
  Steps-progress alive d h files ps n zeroed before told =
      let (ready, counted) = Steps-IsCounted steam store (λ w. cc) zeroed before in
      elim (fate n ready counted told) [
        | crashes c ↦ inl (inr (inl c))
        | sticks s ↦ inl (inr (inr s))
        | is_over w r g ↦ inl (inl (w, r, g))
        | goes_on {p} {t} one moved ↦ inr (t, p, one, moved)
      ]
