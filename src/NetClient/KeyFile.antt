-- ===== src/NetClient/KeyFile.antt =====
-- `check_auth` of c_net_client.cpp, and the start of `nc_start`, which read and write the key file.
-- The files are a function from names to contents. `send_auth` is `handle_sending_auth`, and `out`
-- what becomes of the stream that writes the key.
pub mod Kept
use libncclient.Common.{
  Bool, true, false, List, [], ◌∷◌, ◌++◌, Option, none, some, Bytes, codes, if◌then◌else◌, bytes_eq,
  ltb, length, take, drop, not,
}
use libncclient.Memory.{M, pure, ◌>>=◌}
use libncclient.Interop.{SizedView, c_str_consume, make_view}
use libncclient.Util.Colour.{make_success_col, make_error_col}
use libncclient.Util.Files.{Files, OutStream, write_all_bin}
use libncclient.SharedData.{
  SharedData, sd_get_key_file_name, sd_set_auth, sd_add_back_read, sd_set_use_steam_auth,
}

abbrev pub auth_str : Bytes
auth_str = codes "command_auth secret "

unfoldable pub welcome : Bytes
unfolding make_success_col
welcome =
    codes "command "
    ++ make_success_col
        (codes "Success! Try user lowercase_name to get started, and then #scripts.core()")

unfoldable pub already_registered : Bytes
unfolding make_error_col
already_registered =
    codes "command "
    ++ make_error_col (codes "Did not overwrite existing key file, you are already registered")

-- The part for a response that carries a key.
unfoldable pub take_key :
    (SharedData → M SharedData) → OutStream → Files → SharedData → Bytes → M (Files × SharedData)
take_key send_auth out files d key = do
  name ← sd_get_key_file_name d
  key_file ← c_str_consume name
  elim (files key_file) [
    | none ↦ (do
      e ← sd_set_auth d (make_view key)
      g ← sd_add_back_read e (make_view welcome)
      pure (write_all_bin out key_file key files, g))
    | some old ↦ (do
      e ← sd_add_back_read d (make_view already_registered)
      g ← send_auth e
      pure (files, g))
  ]

unfoldable pub check_auth :
    (SharedData → M SharedData) → OutStream → Files → SharedData → Bytes → M (Files × SharedData)
check_auth send_auth out files d str =
    if ltb (length str) (length auth_str)
    then pure (files, d)
    else if bytes_eq (take (length auth_str) str) auth_str
    then take_key send_auth out files d (drop (length auth_str) str)
    else pure (files, d)

-- `nc_start`, `nc_start_ssl` and `nc_start_ssl_steam_auth` up to the start of the threads: the key
-- file's contents become the auth data.
unfoldable pub load_key_file : Files → SharedData → M SharedData
load_key_file files d = do
  name ← sd_get_key_file_name d
  key_file ← c_str_consume name
  elim (files key_file) [ none ↦ pure d | some key ↦ sd_set_auth d (make_view key) ]
