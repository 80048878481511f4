-- ===== src/SharedData/Queues.antt =====
-- The two queues over a whole history of calls, by any threads in any order: each call is one step,
-- under the lock. A get is a call of its own, with a look at the queue before it or without one:
-- `has_front_read` and `has_front_write` change nothing, and are no calls here.
use libncclient.Common.{
  ◌≡◌, refl, sym, ap, ◌∙◌, List, [], ◌∷◌, ◌++◌, Bytes, if◌then◌else◌, append_assoc, append-nil,
  arith,
}
use libncclient.SharedData.{
  SharedData, has_front_read, has_front_write, get_front_read, get_front_write, add_back_read,
  add_back_write, set_user, set_key_file, request_termination, sd_increment_termination_count,
}

pub data Call : Type 0 where
  adds_read adds_write sets_user sets_key_file : Bytes → Call
  gets_read gets_write terminates counts : Call

unfoldable pub step : SharedData → Call → SharedData
unfolding get_front_read get_front_write add_back_read add_back_write set_user set_key_file
    request_termination sd_increment_termination_count
step d (adds_read s) = add_back_read s d
step d (adds_write s) = add_back_write s d
step d (sets_user s) = set_user s d
step d (sets_key_file s) = set_key_file s d
step d gets_read = (get_front_read d).1
step d gets_write = (get_front_write d).1
step d terminates = request_termination d
step d counts = sd_increment_termination_count d

-- What a call adds to the queues, and what it takes. A get where nothing is queued gives a text of
-- its own, an error message, that is in no queue.
abbrev pub puts_read : Call → List Bytes
puts_read (adds_read s) = s ∷ []
puts_read _ = []

abbrev pub puts_write : Call → List Bytes
puts_write (adds_write s) = s ∷ []
puts_write _ = []

unfoldable pub takes_read : SharedData → Call → List Bytes
unfolding has_front_read get_front_read
takes_read d gets_read = if has_front_read d then (get_front_read d).0 ∷ [] else []
takes_read d _ = []

unfoldable pub takes_write : SharedData → Call → List Bytes
unfolding has_front_write get_front_write
takes_write d gets_write = if has_front_write d then (get_front_write d).0 ∷ [] else []
takes_write d _ = []

unfoldable pub run : SharedData → List Call → SharedData
run d [] = d
run d (c ∷ cs) = run (step d c) cs

-- All that a history adds, and takes.
abbrev pub all_puts : (Call → List Bytes) → List Call → List Bytes
all_puts puts [] = []
all_puts puts (c ∷ cs) = puts c ++ all_puts puts cs

unfoldable pub all_takes : (SharedData → Call → List Bytes) → SharedData → List Call → List Bytes
all_takes takes d [] = []
all_takes takes d (c ∷ cs) = takes d c ++ all_takes takes (step d c) cs

step-reads :
    (d : SharedData) (c : Call)
    → d.read_queue ++ puts_read c ≡ takes_read d c ++ (step d c).read_queue
unfolding step takes_read
step-reads d (adds_read s) = refl
step-reads d gets_read = ground (arith, append-nil d.read_queue)
step-reads d gets_write = ground (arith, append-nil d.read_queue)
step-reads d _ = append-nil d.read_queue

step-writes :
    (d : SharedData) (c : Call)
    → d.write_queue ++ puts_write c ≡ takes_write d c ++ (step d c).write_queue
unfolding step takes_write
step-writes d (adds_write s) = refl
step-writes d gets_write = ground (arith, append-nil d.write_queue)
step-writes d gets_read = ground (arith, append-nil d.write_queue)
step-writes d _ = append-nil d.write_queue

-- The law of one step makes that of a history.
module _ (queue : SharedData → List Bytes) (puts : Call → List Bytes)
    (takes : SharedData → Call → List Bytes)
    (one : (d : SharedData) (c : Call) → queue d ++ puts c ≡ takes d c ++ queue (step d c)) where
  run-queue :
      (d : SharedData) (cs : List Call)
      → queue d ++ all_puts puts cs ≡ all_takes takes d cs ++ queue (run d cs)
  unfolding run all_takes
  run-queue d [] = append-nil (queue d)
  run-queue d (c ∷ cs) =
      sym (append_assoc (queue d) (puts c) (all_puts puts cs))
      ∙ ap (λ l. l ++ all_puts puts cs) (one d c)
      ∙ append_assoc (takes d c) (queue (step d c)) (all_puts puts cs)
      ∙ ap (◌++◌ (takes d c)) (run-queue (step d c) cs)
      ∙ sym (append_assoc (takes d c) (all_takes takes (step d c) cs) (queue (run (step d c) cs)))

-- Over any history of calls of the shared object that add to a queue, get from one or set something
-- else, by any threads, and whatever each of them looked at before a get, both queues are first-in
-- first-out: what was queued at the start and what the calls added, in order, is what
-- the gets took, in order, and then what is queued at the end. A get of an empty queue takes
-- nothing: the error message that it gives is not counted here.
pub run-fifo :
    (d : SharedData) (cs : List Call)
    → (d.read_queue ++ all_puts puts_read cs ≡ all_takes takes_read d cs ++ (run d cs).read_queue)
      × (d.write_queue ++ all_puts puts_write cs
          ≡ all_takes takes_write d cs ++ (run d cs).write_queue)
run-fifo d cs = (
  run-queue (λ e. e.read_queue) puts_read takes_read step-reads d cs,
  run-queue (λ e. e.write_queue) puts_write takes_write step-writes d cs,
)
