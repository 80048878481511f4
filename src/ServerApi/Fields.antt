-- ===== src/ServerApi/Fields.antt =====
-- `sa_command_tagged_to_info` and `sa_command_down_to_info`, which cut the text of a response at
-- its first space, and the functions that destroy what they return.
pub mod Cut
use libncclient.Common.{
  ℕ, suc, ◌+◌, Bool, [], ◌∷◌, ◌++◌, Bytes, is_zero, drop, length, if◌then◌else◌, ◌||◌, ◌==◌,
}
use libncclient.Memory.{M, pure, ◌>>=◌}
use libncclient.Interop.{SizedString, null_string, c_str_sized_to_cpp, make_copy, free_sized_string}
use libncclient.ServerApi.Response.{ServerCommandInfo, is_nullptr_owned}

pub record CommandTaggedInfo : Type 0 where
  pub tag : SizedString
  pub val : SizedString

pub record CommandDownInfo : Type 0 where
  pub full_name : SizedString
  pub script_data : SizedString

abbrev pub space : ℕ
space = b' '

-- `for(int i=0; i < str.size() && str[i] != ' '; i++) tag += str[i];`.
unfoldable pub to_space : Bytes → Bytes
to_space [] = []
to_space (c ∷ s) = if c == space then [] else c ∷ to_space s

-- `int idx = tag.size() + 1; for(int i=idx; i < str.size(); i++) val += str[i];`.
unfoldable pub from_index : ℕ → Bytes → Bytes
from_index idx s = drop idx s

unfoldable pub sa_command_tagged_to_info : ServerCommandInfo → M CommandTaggedInfo
sa_command_tagged_to_info info =
    if is_nullptr_owned info.text || is_zero info.text.num
    then pure (record { tag = null_string; val = null_string })
    else (do
      str ← c_str_sized_to_cpp info.text
      let tag = to_space str
      tag_copy ← make_copy tag
      val_copy ← make_copy (from_index (length tag + 1) str)
      pure (record { tag = tag_copy; val = val_copy }))

unfoldable pub sa_command_down_to_info : ServerCommandInfo → M CommandDownInfo
sa_command_down_to_info info =
    if is_nullptr_owned info.text || is_zero info.text.num
    then pure (record { full_name = null_string; script_data = null_string })
    else (do
      str ← c_str_sized_to_cpp info.text
      let full_name = to_space str
      name_copy ← make_copy full_name
      data_copy ← make_copy (from_index (length full_name + 1) str)
      pure (record { full_name = name_copy; script_data = data_copy }))

unfoldable pub sa_destroy_command_tagged_info : CommandTaggedInfo → M (Unit {0})
sa_destroy_command_tagged_info info = do _ ← free_sized_string info.tag; free_sized_string info.val

unfoldable pub sa_destroy_command_down_info : CommandDownInfo → M (Unit {0})
sa_destroy_command_down_info info = do
  _ ← free_sized_string info.full_name
  free_sized_string info.script_data
