-- ===== src/NetClient/Threads/Channel.antt =====
-- The client as a channel that hands over what was put into it, in the order of putting.
use libncclient.Common.{
  codes, Bool, ◌≡◌, refl, sym, ap, ◌∙◌, List, [], ◌∷◌, ◌++◌, Bytes, append_assoc, append-nil,
}
use libncclient.Memory.{Heap}
use libncclient.NetClient.Auth.{Steam}
use libncclient.Util.Files.{Files}
use libncclient.NetClient.Extends.{Extends}
use libncclient.NetClient.Threads.Keeps.{
  Extends-added, tell_adds, send_user_adds, add_back_read_adds, handle_sending_auth_adds,
  check_auth_adds,
}
use libncclient.NetClient.Threads.{
  Net, added, start, Writer, top, tests_alive, tests_front, takes, writes, leaves, ended,
}
use libncclient.SharedData.{SharedData, SteamStore, sd_increment_termination_count}
use libncclient.SharedData.Queues.{step, puts_write}
use libncclient.NetClient.Threads.Steps.{
  Step, Steps, nothing, then_one, writer_stops, writer_goes, writer_idles, writer_lives,
  writer_rests, writer_sees, writer_takes, writer_writes, writer_fails, writer_ends, reader_checks,
  reader_queues, watchdog_announces, watchdog_greets, watchdog_sends_auth, watchdog_sends_user,
  watchdog_fails, application,
}
use libncclient.NetClient.Threads.Ready.{hand, IsReady, Step-IsReady, take_front-Taken, step-puts}

-- What was delivered and what is still to be.
pub record Channel : Type 0 where
  pub delivered : List Bytes
  pub pending : List Bytes

-- One act of a channel, with what is submitted to it: it delivers the oldest message that waits,
-- or lines up what is submitted, or does nothing.
pub data Act (c : Channel) : List Bytes → Channel → Type 0 where
  stays : (e : Channel) → e.delivered ≡ c.delivered → e.pending ≡ c.pending → Act c [] e
  submits :
      (p : List Bytes) (e : Channel)
      → e.delivered ≡ c.delivered
      → e.pending ≡ c.pending ++ p
      → Act c p e
  delivers :
      (m : Bytes) (e : Channel)
      → c.pending ≡ m ∷ e.pending
      → e.delivered ≡ c.delivered ++ m ∷ []
      → Act c [] e

Act-fifo :
    {c e : Channel} {p : List Bytes}
    → Act c p e
    → (c.delivered ++ c.pending) ++ p ≡ e.delivered ++ e.pending
Act-fifo {c} {e} (stays _ d p) = append-nil (c.delivered ++ c.pending) ∙ same d p
  where
    same :
        e.delivered ≡ c.delivered
        → e.pending ≡ c.pending
        → c.delivered ++ c.pending ≡ e.delivered ++ e.pending
    same d p = ap (λ l. l ++ c.pending) (sym d) ∙ ap (◌++◌ e.delivered) (sym p)
Act-fifo {c} {e} (submits q _ d p) =
    append_assoc c.delivered c.pending q
    ∙ ap (λ l. l ++ (c.pending ++ q)) (sym d)
    ∙ ap (◌++◌ e.delivered) (sym p)
Act-fifo {c} {e} (delivers m _ p d) =
    append-nil (c.delivered ++ c.pending)
    ∙ ap (◌++◌ c.delivered) p
    ∙ sym (append_assoc c.delivered (m ∷ []) e.pending)
    ∙ ap (λ l. l ++ e.pending) (sym d)

pub data Acts (c : Channel) : List Bytes → Channel → Type 0 where
  at_rest : Acts c [] c
  then_act : {ps p : List Bytes} {e f : Channel} → Acts c ps e → Act e p f → Acts c (ps ++ p) f

-- A channel hands over what was submitted, in order, each message once.
pub Acts-fifo :
    {c e : Channel} {ps : List Bytes}
    → Acts c ps e
    → (c.delivered ++ c.pending) ++ ps ≡ e.delivered ++ e.pending
Acts-fifo {c} at_rest = append-nil (c.delivered ++ c.pending)
Acts-fifo {c} (then_act {ps} {p} acts one) =
    sym (append_assoc (c.delivered ++ c.pending) ps p)
    ∙ ap (λ l. l ++ p) (Acts-fifo acts)
    ∙ Act-fifo one

-- The channel that the threads' program is: handed to a socket, in the write thread's hand or queued.
abbrev pub channel : Net → Channel
channel n = record { delivered = n.tried; pending = hand n.writer ++ n.shared.write_queue }

-- A step of the write thread's loop that takes and writes nothing.
idle :
    (n : Net) (w : Writer)
    → hand n.writer ≡ []
    → hand w ≡ []
    → Act (channel n) [] (record { delivered = n.tried; pending = hand w ++ n.shared.write_queue })
idle n w a b = stays _ refl (ap (λ l. l ++ n.shared.write_queue) (b ∙ sym a))

-- A step that puts a message behind those that wait.
queued :
    (n : Net) (put queue : List Bytes)
    → queue ≡ n.shared.write_queue ++ put
    → Act (channel n) put (record { delivered = n.tried; pending = hand n.writer ++ queue })
queued n put queue e =
    submits put _ refl
      (ap (◌++◌ (hand n.writer)) e ∙ sym (append_assoc (hand n.writer) n.shared.write_queue put))

-- A call of a thread, which only adds to the queue.
adds :
    (n : Net) (d : SharedData)
    → Extends n.shared d
    → Act
        (channel n)
        (added n.shared d)
        (record { delivered = n.tried; pending = hand n.writer ++ d.write_queue })
adds n d p = queued n (added n.shared d) d.write_queue (Extends-added p)

written :
    (n : Net) (m : Bytes)
    → n.writer ≡ writes m
    → Act (channel n) [] (record { delivered = n.tried ++ m ∷ []; pending = n.shared.write_queue })
written n m w = delivers m _ (ap (λ v. hand v ++ n.shared.write_queue) w) refl

module _ (steam : Steam) (store : SteamStore) where
  -- Each step of the threads and the application is one act of the channel.
  Step-Act :
      {n t : Net} {p : List Bytes}
      → IsReady n
      → Step steam store n p t
      → Act (channel n) p (channel t)
  unfolding sd_increment_termination_count
  Step-Act {n} ready (writer_stops w e) = idle n leaves (ap hand w) refl
  Step-Act {n} ready (writer_goes w e) = idle n tests_alive (ap hand w) refl
  Step-Act {n} ready (writer_idles w e) = idle n top (ap hand w) refl
  Step-Act {n} ready (writer_lives w e) = idle n tests_front (ap hand w) refl
  Step-Act {n} ready (writer_rests w e) = idle n top (ap hand w) refl
  Step-Act {n} ready (writer_sees w e) = idle n takes (ap hand w) refl
  Step-Act {n} ready (writer_takes m d h w fits e) =
      let taken = take_front-Taken n.shared d m n.heap h (ready w) fits e in
      stays _ refl (sym taken.0 ∙ ap (λ v. hand v ++ n.shared.write_queue) (sym w))
  Step-Act {n} ready (writer_writes m k w e) = written n m w
  Step-Act {n} ready (writer_fails m k w e) = written n m w
  Step-Act {n} ready (writer_ends w) = idle n ended (ap hand w) refl
  Step-Act {n} ready (reader_checks m out fs d h r e) =
      adds n d (check_auth_adds steam store n m out fs d h e)
  Step-Act {n} ready (reader_queues m d h r e) = adds n d (add_back_read_adds n m d h e)
  Step-Act {n} ready (watchdog_announces d h w e) =
      adds n d (tell_adds (codes "Connecting...") n d h e)
  Step-Act {n} ready (watchdog_greets d h w e) = adds n d (tell_adds (codes "`LConnected`") n d h e)
  Step-Act {n} ready (watchdog_sends_auth d h w e) =
      adds n d (handle_sending_auth_adds steam store n d h e)
  Step-Act {n} ready (watchdog_sends_user d h w e) = adds n d (send_user_adds n d h e)
  Step-Act {n} ready (watchdog_fails d h w e) =
      adds n d (tell_adds (codes "`DConnection to the server failed`") n d h e)
  Step-Act {n} ready (application c a) =
      queued n (puts_write c) (step n.shared c).write_queue (step-puts n.shared c a)
  Step-Act {n} ready _ = stays _ refl refl

  Steps-Acts :
      {n t : Net} {ps : List Bytes}
      → IsReady n
      → Steps steam store n ps t
      → IsReady t × Acts (channel n) ps (channel t)
  Steps-Acts ready nothing = (ready, at_rest)
  Steps-Acts ready (then_one run one) =
      let (before, acts) = Steps-Acts ready run in
      (Step-IsReady steam store before one, then_act acts (Step-Act before one))

  -- From the start of the threads on, the program is a channel from the calls that queue a command
  -- to the sockets. Every run of the threads, the server and the application is a run of the
  -- channel with the same submissions: each step lines up at the back what it puts into the write
  -- queue, or hands the oldest message to a socket, or leaves the channel as it is. What a write
  -- that fails was given counts as delivered.
  pub Steps-Channel :
      (alive : Bool) (d : SharedData) (h : Heap) (files : Files) (ps : List Bytes) (t : Net)
      → Steps steam store (start alive d h files) ps t
      → Acts (record { delivered = []; pending = d.write_queue }) ps (channel t)
  Steps-Channel alive d h files ps t run = (Steps-Acts (λ w. cc) run).1
