-- ===== src/SharedData.antt =====
-- c_shared_data.h and c_shared_data.cpp: the object that the application and the threads of the
-- client share, with a queue of messages from the server and one of messages to it.
--
-- The methods of `struct shared_data` come first, then the functions of the C interface. A method
-- holds the lock while it runs, so it is one step. `termination_count` is the bit pattern of the
-- `atomic_int`. `csapi` is an address, `none` before it is set, when the program has an
-- indeterminate pointer there: to use it is undefined. Steam clients live behind `SteamStore`.
pub mod Queues
pub mod Interface
pub mod Balanced
use libncclient.Common.{
  ℕ, ◌+◌, ◌%◌, ◌^◌, ◌<◌, Bool, true, false, List, [], ◌∷◌, ◌++◌, Option, none, some, Bytes, codes,
  ℤ, signed32, ltb, length, if◌then◌else◌, not, ◌==◌,
}
use libncclient.Memory.{M, pure, undefined, ◌>>=◌}
use libncclient.Interop.{SizedString, SizedView, view_to_cpp, make_copy}
use libncclient.SteamApi.{SteamApi, steam_api_enabled}

pub record SharedData : Type 0 where
  pub read_queue : List Bytes
  pub write_queue : List Bytes
  pub user : Bytes
  pub auth : Bytes
  pub should_terminate : Bool
  pub termination_count : ℕ
  pub key_file : Bytes
  pub use_steam_auth : Bool
  pub csapi : Option ℕ

abbrev pub SteamStore : Type 0
SteamStore = ℕ → Option SteamApi

-- `new shared_data`.
abbrev pub sd_alloc : SharedData
sd_alloc = record {
  read_queue = [];
  write_queue = [];
  user = [];
  auth = [];
  should_terminate = false;
  termination_count = 0;
  key_file = codes "key.key";
  use_steam_auth = false;
  csapi = none;
}

unfoldable pub set_steam_auth : ℕ → SharedData → SharedData
set_steam_auth pcsapi d = record d { csapi = some pcsapi; use_steam_auth = true }

-- A use of the pointer.
deref : SteamStore → Option ℕ → M SteamApi
deref store none = undefined
deref store (some p) = elim (store p) [ none ↦ undefined | some s ↦ pure s ]

unfoldable pub should_use_steam_auth : SteamStore → SharedData → M Bool
unfolding deref
should_use_steam_auth store d =
    if d.use_steam_auth
    then (do s ← deref store d.csapi; pure (steam_api_enabled s))
    else pure false

unfoldable pub has_key_auth : SharedData → Bool
has_key_auth d = not (length d.auth == 0)

unfoldable pub has_front_read : SharedData → Bool
has_front_read d = ltb 0 (length d.read_queue)

unfoldable pub has_front_write : SharedData → Bool
has_front_write d = ltb 0 (length d.write_queue)

abbrev pub read_error : Bytes
read_error = codes "Catastrophic error in get_front_read(), queue is empty"

abbrev pub write_error : Bytes
write_error = codes "Catstrophic error in get_front_write(), queue is empty"

unfoldable pub get_front_read : SharedData → Bytes × SharedData
get_front_read d = elim d.read_queue [
  | [] ↦ (read_error, d)
  | ret ∷ rest ↦ (ret, record d { read_queue = rest })
]

unfoldable pub get_front_write : SharedData → Bytes × SharedData
get_front_write d = elim d.write_queue [
  | [] ↦ (write_error, d)
  | ret ∷ rest ↦ (ret, record d { write_queue = rest })
]

unfoldable pub add_back_write : Bytes → SharedData → SharedData
add_back_write str d = record d { write_queue = d.write_queue ++ str ∷ [] }

unfoldable pub add_back_read : Bytes → SharedData → SharedData
add_back_read str d = record d { read_queue = d.read_queue ++ str ∷ [] }

unfoldable pub set_user : Bytes → SharedData → SharedData
set_user text d = record d { user = text }

unfoldable pub get_user : SharedData → Bytes
get_user d = d.user

unfoldable pub set_key_file : Bytes → SharedData → SharedData
set_key_file fname d = record d { key_file = fname }

unfoldable pub get_key_file : SharedData → Bytes
get_key_file d = d.key_file

-- The C interface.

unfoldable pub sd_set_auth : SharedData → SizedView → M SharedData
sd_set_auth d view = elim view.str [
  | none ↦ pure d
  | some _ ↦ do auth ← view_to_cpp view; pure (record d { auth = auth })
]

unfoldable pub sd_get_auth : SharedData → M SizedString
sd_get_auth d = make_copy d.auth

unfoldable pub sd_set_key_file_name : SharedData → SizedView → M SharedData
unfolding set_key_file
sd_set_key_file_name d key = do fname ← view_to_cpp key; pure (set_key_file fname d)

unfoldable pub sd_get_key_file_name : SharedData → M SizedString
unfolding get_key_file
sd_get_key_file_name d = make_copy (get_key_file d)

unfoldable pub sd_has_key_auth : SharedData → Bool
unfolding has_key_auth
sd_has_key_auth d = has_key_auth d

unfoldable pub sd_has_front_read : SharedData → Bool
unfolding has_front_read
sd_has_front_read d = has_front_read d

unfoldable pub sd_has_front_write : SharedData → Bool
unfolding has_front_write
sd_has_front_write d = has_front_write d

-- The string is returned with the object after the call.
unfoldable pub sd_get_front_read : SharedData → M (SizedString × SharedData)
unfolding get_front_read
sd_get_front_read d =
    let (str, rest) = get_front_read d in do copied ← make_copy str; pure (copied, rest)

unfoldable pub sd_get_front_write : SharedData → M (SizedString × SharedData)
unfolding get_front_write
sd_get_front_write d =
    let (str, rest) = get_front_write d in do copied ← make_copy str; pure (copied, rest)

unfoldable pub sd_add_back_write : SharedData → SizedView → M SharedData
unfolding add_back_write
sd_add_back_write d view = elim view.str [
  | none ↦ pure d
  | some _ ↦ do str ← view_to_cpp view; pure (add_back_write str d)
]

unfoldable pub sd_add_back_read : SharedData → SizedView → M SharedData
unfolding add_back_read
sd_add_back_read d view = elim view.str [
  | none ↦ pure d
  | some _ ↦ do str ← view_to_cpp view; pure (add_back_read str d)
]

unfoldable pub sd_set_user : SharedData → SizedView → M SharedData
unfolding set_user
sd_set_user d user = do str ← view_to_cpp user; pure (set_user str d)

unfoldable pub sd_get_user : SharedData → M SizedString
unfolding get_user
sd_get_user d = make_copy (get_user d)

-- `sd_set_termination` up to its wait.
unfoldable pub request_termination : SharedData → SharedData
request_termination d = record d { should_terminate = true }

-- The test that ends the wait of `sd_set_termination`: `termination_count == 3`.
unfoldable pub all_terminated : SharedData → Bool
all_terminated d = d.termination_count == 3

unfoldable pub sd_should_terminate : SharedData → Bool
sd_should_terminate d = d.should_terminate

unfoldable pub sd_increment_termination_count : SharedData → SharedData
sd_increment_termination_count d = record d {
  termination_count = (d.termination_count + 1) % 2 ^ 32;
}

unfoldable pub sd_get_termination_count : SharedData → ℤ
sd_get_termination_count d = signed32 d.termination_count

unfoldable pub sd_set_use_steam_auth : SharedData → ℕ → SharedData
unfolding set_steam_auth
sd_set_use_steam_auth d csapi = set_steam_auth csapi d

unfoldable pub sd_use_steam_auth : SteamStore → SharedData → M Bool
unfolding should_use_steam_auth
sd_use_steam_auth store d = should_use_steam_auth store d

unfoldable pub sd_get_steam_auth : SharedData → M ℕ
sd_get_steam_auth d = elim d.csapi [ none ↦ undefined | some p ↦ pure p ]

-- `sd_destroy`, on the shared objects by their addresses; `none` is nullptr.
unfoldable pub sd_destroy : Option ℕ → (ℕ → Option SharedData) → ℕ → Option SharedData
sd_destroy none store other = store other
sd_destroy (some p) store other = if other == p then none else store other
