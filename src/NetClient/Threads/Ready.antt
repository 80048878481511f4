-- ===== src/NetClient/Threads/Ready.antt =====
-- What the write thread takes: where it is about to, there is a message in the queue.
use libncclient.Common.{
  codes, ◌<◌, subst, ◌≡◌, refl, sym, ap, ◌∙◌, true, List, [], ◌∷◌, ◌++◌, Bytes, All, append-nil,
  length-append, arith, length,
}
use libncclient.Memory.{Heap, done}
use libncclient.Memory.Laws.{used_address}
use libncclient.Interop.Copies.{Fits, c_str_sized_to_cpp-make_copy, free_sized_string-make_copy}
use libncclient.SharedData.{
  SharedData, SteamStore, sd_has_front_write, has_front_write, sd_increment_termination_count,
  add_back_read, add_back_write, set_user, set_key_file, request_termination, get_front_read,
}
use libncclient.SharedData.Interface.{sd_get_front_write_lem}
use libncclient.SharedData.Queues.{
  Call, adds_read, adds_write, sets_user, sets_key_file, gets_read, gets_write, terminates, counts,
  step, puts_write,
}
use libncclient.NetClient.Auth.{Steam}
use libncclient.Memory.Always.{Holds}
use libncclient.NetClient.Extends.{Extends}
use libncclient.NetClient.Threads.Keeps.{
  Extends-added, tell_adds, send_user_adds, add_back_read_adds, handle_sending_auth_adds,
  check_auth_adds,
}
use libncclient.NetClient.Threads.{Net, Writer, take_front, is_application, added, takes, writes}
use libncclient.NetClient.Threads.Steps.{
  Step, Steps, nothing, then_one, writer_stops, writer_goes, writer_idles, writer_lives,
  writer_rests, writer_sees, writer_takes, writer_writes, writer_fails, writer_ends, reader_checks,
  reader_queues, watchdog_announces, watchdog_greets, watchdog_sends_auth, watchdog_sends_user,
  watchdog_fails, application,
}

-- The message that the write thread holds.
abbrev pub hand : Writer → List Bytes
hand (writes m) = m ∷ []
hand _ = []

-- There is a message where the write thread is about to take one.
abbrev pub IsReady : Net → Type 0
IsReady n = n.writer ≡ takes → 0 < length n.shared.write_queue

pub take_front-full :
    (d : SharedData) (q : Bytes) (rest : List Bytes) (h : Heap)
    → Fits q
    → d.write_queue ≡ q ∷ rest
    → take_front d h ≡ done (q, record d { write_queue = rest }) (used_address h)
unfolding take_front
take_front-full d q rest h fits e = ground (
  arith,
  sd_get_front_write_lem d q rest h fits e,
  c_str_sized_to_cpp-make_copy q h,
  free_sized_string-make_copy q h,
)

pub List-cases :
    (l : List Bytes) → 0 < length l → (q : Bytes) × (rest : List Bytes) × (l ≡ q ∷ rest)
List-cases [] full = absurd (omega arith)
List-cases (q ∷ rest) full = (q, rest, refl)

-- The write thread takes the front message, and nothing else of the object changes for the threads.
abbrev pub Taken : SharedData → Bytes × SharedData → Type 0
Taken d (m, e) =
    (d.write_queue ≡ m ∷ e.write_queue)
    × (e.termination_count ≡ d.termination_count)
    × (e.should_terminate ≡ d.should_terminate)

pub take_front-Taken :
    (d e : SharedData) (m : Bytes) (h h' : Heap)
    → 0 < length d.write_queue
    → All Fits d.write_queue
    → take_front d h ≡ done (m, e) h'
    → Taken d (m, e)
take_front-Taken d e m h h' full fits result =
    let (q, rest, at) = List-cases d.write_queue full in
    let fits_q : Fits q = (subst (All Fits) at fits).0 in
    subst (Holds (Taken d)) (sym (take_front-full d q rest h fits_q at) ∙ result) (at, refl, refl)

-- `application` and `counts` calls put what they say into the write queue.
pub step-puts :
    (d : SharedData) (c : Call)
    → is_application c ≡ true
    → (step d c).write_queue ≡ d.write_queue ++ puts_write c
unfolding step add_back_read add_back_write set_user set_key_file request_termination get_front_read
step-puts d (adds_write s) e = refl
step-puts d (adds_read s) e = sym (append-nil d.write_queue)
step-puts d (sets_user s) e = sym (append-nil d.write_queue)
step-puts d (sets_key_file s) e = sym (append-nil d.write_queue)
step-puts d terminates e = sym (append-nil d.write_queue)
step-puts d gets_read e = ground (arith, append-nil d.write_queue)
step-puts d gets_write e = absurd (ground arith)
step-puts d counts e = absurd (ground arith)

module _ (steam : Steam) (store : SteamStore) where
  full_behind :
      (n : Net) (put queue : List Bytes)
      → IsReady n
      → queue ≡ n.shared.write_queue ++ put
      → n.writer ≡ takes
      → 0 < length queue
  full_behind n put queue ready e w =
      omega (arith, ready w, ap length e, length-append n.shared.write_queue put)

  adds_behind :
      (n : Net) (d : SharedData)
      → IsReady n
      → Extends n.shared d
      → n.writer ≡ takes
      → 0 < length d.write_queue
  adds_behind n d ready p = full_behind n (added n.shared d) d.write_queue ready (Extends-added p)

  pub Step-IsReady : {n t : Net} {p : List Bytes} → IsReady n → Step steam store n p t → IsReady t
  unfolding sd_has_front_write has_front_write sd_increment_termination_count
  Step-IsReady {n} ready (writer_stops w e) = λ a. cc
  Step-IsReady {n} ready (writer_goes w e) = λ a. cc
  Step-IsReady {n} ready (writer_idles w e) = λ a. cc
  Step-IsReady {n} ready (writer_lives w e) = λ a. cc
  Step-IsReady {n} ready (writer_rests w e) = λ a. cc
  Step-IsReady {n} ready (writer_sees w e) = λ a. ground arith
  Step-IsReady {n} ready (writer_takes m d h w fits e) = λ a. cc
  Step-IsReady {n} ready (writer_writes m k w e) = λ a. cc
  Step-IsReady {n} ready (writer_fails m k w e) = λ a. cc
  Step-IsReady {n} ready (writer_ends w) = λ a. cc
  Step-IsReady {n} ready (reader_checks m out fs d h r e) =
      adds_behind n d ready (check_auth_adds steam store n m out fs d h e)
  Step-IsReady {n} ready (reader_queues m d h r e) =
      adds_behind n d ready (add_back_read_adds n m d h e)
  Step-IsReady {n} ready (watchdog_announces d h w e) =
      adds_behind n d ready (tell_adds (codes "Connecting...") n d h e)
  Step-IsReady {n} ready (watchdog_greets d h w e) =
      adds_behind n d ready (tell_adds (codes "`LConnected`") n d h e)
  Step-IsReady {n} ready (watchdog_sends_auth d h w e) =
      adds_behind n d ready (handle_sending_auth_adds steam store n d h e)
  Step-IsReady {n} ready (watchdog_sends_user d h w e) =
      adds_behind n d ready (send_user_adds n d h e)
  Step-IsReady {n} ready (watchdog_fails d h w e) =
      adds_behind n d ready (tell_adds (codes "`DConnection to the server failed`") n d h e)
  Step-IsReady {n} ready (application c a) =
      full_behind n (puts_write c) (step n.shared c).write_queue ready (step-puts n.shared c a)
  Step-IsReady {n} ready _ = ready

  pub Steps-IsReady :
      {n t : Net} {ps : List Bytes} → IsReady n → Steps steam store n ps t → IsReady t
  Steps-IsReady ready nothing = ready
  Steps-IsReady ready (then_one run one) = Step-IsReady (Steps-IsReady ready run) one
