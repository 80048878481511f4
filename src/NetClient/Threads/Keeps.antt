-- ===== src/NetClient/Threads/Keeps.antt =====
-- What the parts of the threads do to the termination flags: the flag stays set, and the count stays.
use libncclient.Common.{
  sym, ap, drop, length, drop-append, ◌≡◌, refl, ◌∙◌, true, [], ◌∷◌, ◌++◌, Bytes, codes, arith,
  is_nonpos,
}
use libncclient.Memory.{Heap, done}
use libncclient.Interop.{
  SizedString, make_view, make_view_owned, make_view_from_raw, c_str_sized_to_cpp,
  free_sized_string,
}
use libncclient.SharedData.{
  SharedData, SteamStore, sd_get_user, sd_add_back_write, sd_add_back_read, add_back_read,
  add_back_write, set_user, set_key_file, request_termination, get_front_read,
}
use libncclient.SharedData.Queues.{
  Call, adds_read, adds_write, sets_user, sets_key_file, gets_read, gets_write, terminates, counts,
  step,
}
use libncclient.ServerApi.Requests.{sa_make_generic_server_command}
use libncclient.NetClient.Auth.{Steam, handle_sending_auth}
use libncclient.Util.Files.{Files, OutStream}
use libncclient.NetClient.KeyFile.{check_auth}
use libncclient.Memory.Always.{
  Always, done-Always, pure-Always, bind-Always, then-Always, if-Always,
}
use libncclient.NetClient.Extends.{
  Extends, Extends-refl, add_write-Extends, add_read-Extends, handle_sending_auth-Extends,
  ExtendsBoth, check_auth-Extends,
}
use libncclient.NetClient.Threads.{Net, send_user_command, send_user, tell, is_application, added}

pub tell-Extends : (text : Bytes) (d : SharedData) → Always (Extends d) (tell text d)
unfolding tell
tell-Extends text d =
    bind-Always (Extends d) (make_view_from_raw (text ++ 0 ∷ [])) _
      (λ view. add_read-Extends d view)

send_user_command-Extends :
    (d : SharedData) (username : SizedString) → Always (Extends d) (send_user_command d username)
unfolding send_user_command
send_user_command-Extends d username =
    if-Always (Extends d) (is_nonpos username.num) _ _ (pure-Always (Extends d) d (Extends-refl d))
      (bind-Always (Extends d) (c_str_sized_to_cpp username) _ (λ name.
        bind-Always (Extends d) (sa_make_generic_server_command (make_view (codes "user " ++ name)))
          _
          (λ user_command. bind-Always (Extends d) (make_view_owned user_command) _ (λ view.
            then-Always (Extends d) (Extends d) (sd_add_back_write d view) _
              (add_write-Extends d view)
              (λ e p.
                bind-Always (Extends d) (free_sized_string user_command) _
                  (λ u. pure-Always (Extends d) e p))))))

pub send_user-Extends : (d : SharedData) → Always (Extends d) (send_user d)
unfolding send_user
send_user-Extends d = bind-Always (Extends d) (sd_get_user d) _ (λ username.
    then-Always (Extends d) (Extends d) (send_user_command d username) _
      (send_user_command-Extends d username)
      (λ e p.
        bind-Always (Extends d) (free_sized_string username) _ (λ u. pure-Always (Extends d) e p)))

-- What a step does to the termination flags: the flag stays set, and the count stays.
abbrev pub Keeps : SharedData → SharedData → Type 0
Keeps d e =
    (e.termination_count ≡ d.termination_count)
    × (d.should_terminate ≡ true → e.should_terminate ≡ true)

pub Extends-Keeps : {d e : SharedData} → Extends d e → Keeps d e
Extends-Keeps p = (p.counted, λ set. p.flagged ∙ set)

pub step-Keeps : (d : SharedData) (c : Call) → is_application c ≡ true → Keeps d (step d c)
unfolding step add_back_read add_back_write set_user set_key_file request_termination get_front_read
step-Keeps d (adds_write s) e = (refl, λ set. set)
step-Keeps d (adds_read s) e = (refl, λ set. set)
step-Keeps d (sets_user s) e = (refl, λ set. set)
step-Keeps d (sets_key_file s) e = (refl, λ set. set)
step-Keeps d terminates e = (refl, λ set. refl)
step-Keeps d gets_read e = (ground arith, ground arith)
step-Keeps d gets_write e = absurd (ground arith)
step-Keeps d counts e = absurd (ground arith)

-- What a call put behind the queue is all that it did to it.
pub Extends-added : {d e : SharedData} → Extends d e → e.write_queue ≡ d.write_queue ++ added d e
Extends-added {d} {e} p =
    p.queued
    ∙ ap (◌++◌ d.write_queue)
        (sym (ap (drop (length d.write_queue)) p.queued ∙ drop-append d.write_queue p.put))

module _ (steam : Steam) (store : SteamStore) where
  pub handle_sending_auth_adds :
      (n : Net) (d : SharedData) (h : Heap)
      → handle_sending_auth steam store n.shared n.heap ≡ done d h
      → Extends n.shared d
  handle_sending_auth_adds n d h e =
      (done-Always (Extends n.shared) (handle_sending_auth steam store n.shared) d n.heap h
        (handle_sending_auth-Extends steam store n.shared) e)

  pub check_auth_adds :
      (n : Net) (m : Bytes) (out : OutStream) (fs : Files) (d : SharedData) (h : Heap)
      → check_auth (handle_sending_auth steam store) out n.files n.shared m n.heap ≡ done (fs, d) h
      → Extends n.shared d
  check_auth_adds n m out fs d h e =
      (done-Always (ExtendsBoth n.shared)
        (check_auth (handle_sending_auth steam store) out n.files n.shared m) (fs, d) n.heap h
        (check_auth-Extends (handle_sending_auth steam store) out n.files n.shared
          (handle_sending_auth-Extends steam store) m)
        e)

pub tell_adds :
    (text : Bytes) (n : Net) (d : SharedData) (h : Heap)
    → tell text n.shared n.heap ≡ done d h
    → Extends n.shared d
tell_adds text n d h e =
    (done-Always (Extends n.shared) (tell text n.shared) d n.heap h (tell-Extends text n.shared) e)

pub send_user_adds :
    (n : Net) (d : SharedData) (h : Heap)
    → send_user n.shared n.heap ≡ done d h
    → Extends n.shared d
send_user_adds n d h e =
    (done-Always (Extends n.shared) (send_user n.shared) d n.heap h (send_user-Extends n.shared) e)

pub add_back_read_adds :
    (n : Net) (m : Bytes) (d : SharedData) (h : Heap)
    → sd_add_back_read n.shared (make_view m) n.heap ≡ done d h
    → Extends n.shared d
add_back_read_adds n m d h e =
    (done-Always (Extends n.shared) (sd_add_back_read n.shared (make_view m)) d n.heap h
      (add_read-Extends n.shared (make_view m)) e)
