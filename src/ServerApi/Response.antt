-- ===== src/ServerApi/Response.antt =====
-- `sa_server_response_to_info`, `sa_command_to_human_readable` and `sa_destroy_server_command_info`.
pub mod Classify
pub mod Ownership
use libncclient.Common.{
  ◌≡◌, Bool, true, false, List, [], ◌∷◌, Option, none, some, Bytes, codes, ℤ, is_nonpos, is_zero,
  drop, length, if◌then◌else◌, ◌||◌,
}
use libncclient.Memory.{M, pure, ◌>>=◌}
use libncclient.Interop.{
  SizedString, SizedView, null_string, view_to_cpp, c_str_sized_to_cpp, make_copy,
  free_sized_string,
}
use libncclient.Util.Prefix.{starts_with}

pub data ServerCommandType : Type 0 where
  server_command_command server_command_chat_api server_command_server_scriptargs :
      ServerCommandType
  server_command_server_scriptargs_invalid : ServerCommandType
  server_command_server_scriptargs_ratelimit : ServerCommandType
  server_command_command_realtime server_command_command_tagged : ServerCommandType
  server_command_command_ping server_command_command_no_pad : ServerCommandType
  server_command_command_down server_command_chat_api_response : ServerCommandType
  error_invalid_response : ServerCommandType

pub record ServerCommandInfo : Type 0 where
  pub type : ServerCommandType
  pub text : SizedString

-- `dat`, in its order.
abbrev pub table : List (ServerCommandType × Bytes)
table =
    (server_command_command, codes "command ")
    ∷ (server_command_command_realtime, codes "command_realtime_json ")
    ∷ (server_command_chat_api, codes "chat_api_json ")
    ∷ (server_command_server_scriptargs, codes "server_scriptargs_json ")
    ∷ (server_command_server_scriptargs_invalid, codes "server_scriptargs_invalid_json")
    ∷ (server_command_server_scriptargs_ratelimit, codes "server_scriptargs_ratelimit_json ")
    ∷ (server_command_command_tagged, codes "command_tagged ")
    ∷ (server_command_command_ping, codes "command_ping")
    ∷ (server_command_command_no_pad, codes "command_no_pad ")
    ∷ (server_command_command_down, codes "command_down ")
    ∷ (server_command_chat_api_response, codes "chat_api_response ")
    ∷ []

abbrev pub invalid_response : ServerCommandInfo
invalid_response = record { type = error_invalid_response; text = null_string }

-- `for(auto& i : dat)`.
unfoldable pub search_table : List (ServerCommandType × Bytes) → Bytes → M ServerCommandInfo
search_table [] str = pure invalid_response
search_table ((t, offset_str) ∷ dat) str =
    if starts_with str offset_str
    then (do
      data_str ← make_copy (drop (length offset_str) str)
      pure (record { type = t; text = data_str }))
    else search_table dat str

abbrev pub is_nullptr : Option Bytes → Bool
is_nullptr none = true
is_nullptr (some s) = false

unfoldable pub sa_server_response_to_info : SizedView → M ServerCommandInfo
sa_server_response_to_info server_response =
    if is_nullptr server_response.str || is_nonpos server_response.num
    then pure invalid_response
    else (do str ← view_to_cpp server_response; search_table table str)

abbrev pub is_nullptr_owned : SizedString → Bool
is_nullptr_owned s = elim s.str [ none ↦ true | some a ↦ false ]

unfoldable pub sa_command_to_human_readable : ServerCommandInfo → M SizedString
sa_command_to_human_readable info =
    if is_zero info.text.num || is_nullptr_owned info.text
    then pure null_string
    else (do cp ← c_str_sized_to_cpp info.text; make_copy cp)

unfoldable pub sa_destroy_server_command_info : ServerCommandInfo → M (Unit {0})
sa_destroy_server_command_info info =
    if is_zero info.text.num then pure tt else free_sized_string info.text
