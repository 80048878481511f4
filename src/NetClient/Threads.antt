-- ===== src/NetClient/Threads.antt =====
-- The three threads of c_net_client.cpp, `handle_async_write`, `handle_async_read` and `watchdog`,
-- with every interleaving of their steps and the calls of the application. A step is a test, a call
-- on the shared object or a use of `ctx.sock` of a thread's loop. `check_auth`,
-- `handle_sending_auth` and the command for the user are one step each, though they call the shared
-- object more than once. Sleeps are left out, since any thread may wait before any step; so are
-- messages to the console. `nc_shutdown` is the application's call of termination, and a wait for
-- `all_terminated`.
--
-- What the socket answers is open: every answer is a step. The `catch(...)` of each loop is the
-- step for an exception of the socket. The texts that the program handles have fewer than 2 ^ 31
-- chars: a longer one, which would throw in `make_copy`, takes no step. The wait for a Steam ticket
-- ends within the step of `handle_sending_auth`, with the client that `steam` gives, and the
-- clients of the store are as they were for the other steps. `ctx.sock` is the number of its
-- connection, `none` for nullptr. A use of nullptr is no step but a crash.
pub mod Steps
pub mod Ready
pub mod Order
pub mod Keeps
pub mod End
pub mod Ranks
pub mod Exit
pub mod Socket
pub mod Channel
pub mod Balance
pub mod Progress
pub mod Liveness
use libncclient.Common.{
  ℕ, zero, suc, ◌+◌, ◌≡◌, ◌≢◌, Bool, true, false, List, [], ◌∷◌, ◌++◌, Option, none, some, Bytes,
  codes, ℤ, pos, All, if◌then◌else◌, not, is_nonpos, drop, length,
}
use libncclient.Memory.{Heap, M, done, pure, ◌>>=◌}
use libncclient.Interop.{
  SizedString, c_str_sized_to_cpp, free_sized_string, make_view, make_view_owned,
  make_view_from_raw,
}
use libncclient.Interop.Copies.{Fits}
use libncclient.SharedData.{
  SharedData, sd_set_use_steam_auth, add_back_read, sd_should_terminate, sd_has_front_write,
  sd_get_front_write, sd_add_back_read, sd_get_user, sd_add_back_write,
  sd_increment_termination_count, sd_get_termination_count, all_terminated,
}
use libncclient.SharedData.Queues.{
  Call, adds_read, adds_write, sets_user, sets_key_file, gets_read, gets_write, terminates, counts,
  step, puts_write,
}
use libncclient.ServerApi.Requests.{sa_make_generic_server_command}
use libncclient.NetClient.Auth.{Steam, handle_sending_auth}
use libncclient.Util.Files.{Files}
use libncclient.NetClient.KeyFile.{load_key_file}

-- Where each thread stands: before the test or the call of this name. The write thread holds the
-- message that it took, and the read thread the one that it read.
pub data Writer : Type 0 where
  top tests_alive tests_front takes : Writer
  writes : Bytes → Writer
  leaves ended : Writer

pub data Reader : Type 0 where
  top tests_alive tests_available reads gets : Reader
  checks queues : Bytes → Reader
  leaves ended : Reader

pub data Watchdog : Type 0 where
  top tests_alive tests_terminate announces connects connecting greets sends_auth sends_user wakes :
      Watchdog
  fails leaves waits shuts ended : Watchdog

-- The program: the shared object, the memory and the files, `socket_alive`, `ctx.sock` with the
-- number of connections so far, all that was handed to a socket's `write`, and the threads.
pub record Net : Type 0 where
  pub shared : SharedData
  pub heap : Heap
  pub files : Files
  pub socket_alive : Bool
  pub sock : Option ℕ
  pub connections : ℕ
  pub tried : List Bytes
  pub writer : Writer
  pub reader : Reader
  pub watchdog : Watchdog

-- `nc_start` starts the threads, with no socket. `socket_alive` belongs to the process, and has what
-- the threads of an earlier start left in it.
abbrev pub start : Bool → SharedData → Heap → Files → Net
start alive d h files = record {
  shared = d;
  heap = h;
  files = files;
  socket_alive = alive;
  sock = none;
  connections = 0;
  tried = [];
  writer = top;
  reader = top;
  watchdog = top;
}

-- `nc_start`, `nc_start_ssl` and `nc_start_ssl_steam_auth`, which differ in the kind of socket and
-- in the Steam client that the last one is given.
unfoldable pub nc_start : Bool → Files → SharedData → M Net
nc_start alive files d = do e ← load_key_file files d; λ h. done (start alive e h files) h

unfoldable pub nc_start_ssl : Bool → Files → SharedData → M Net
nc_start_ssl alive files d = do e ← load_key_file files d; λ h. done (start alive e h files) h

unfoldable pub nc_start_ssl_steam_auth : Bool → Files → SharedData → ℕ → M Net
nc_start_ssl_steam_auth alive files d csapi = do
  e ← load_key_file files d
  λ h. done (start alive (sd_set_use_steam_auth e csapi) h files) h

-- `sd_get_front_write`, its conversion and its `free_sized_string`.
unfoldable pub take_front : SharedData → M (Bytes × SharedData)
take_front d = do
  (c_write, e) ← sd_get_front_write d
  next_command ← c_str_sized_to_cpp c_write
  _ ← free_sized_string c_write
  pure (next_command, e)

-- The command `user name`, if a user is set.
unfoldable pub send_user_command : SharedData → SizedString → M SharedData
send_user_command d username = if is_nonpos username.num then pure d else (do
  name ← c_str_sized_to_cpp username
  user_command ← sa_make_generic_server_command (make_view (codes "user " ++ name))
  view ← make_view_owned user_command
  e ← sd_add_back_write d view
  _ ← free_sized_string user_command
  pure e)

unfoldable pub send_user : SharedData → M SharedData
send_user d = do
  username ← sd_get_user d
  e ← send_user_command d username
  _ ← free_sized_string username
  pure e

-- `sd_add_back_read(shared, make_view_from_raw(…))` of a literal.
unfoldable pub tell : Bytes → SharedData → M SharedData
tell text d = do view ← make_view_from_raw (text ++ 0 ∷ []); sd_add_back_read d view

-- What a call of a thread put behind the write queue.
abbrev pub added : SharedData → SharedData → List Bytes
added d e = drop (length d.write_queue) e.write_queue

-- The calls that the application makes: only the write thread takes from the write queue, and only
-- the threads count themselves.
abbrev pub is_application : Call → Bool
is_application gets_write = false
is_application counts = false
is_application _ = true
