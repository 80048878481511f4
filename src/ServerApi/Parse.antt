-- ===== src/ServerApi/Parse.antt =====
-- The responses whose text is JSON: `sa_server_scriptargs_to_list`,
-- `sa_server_scriptargs_invalid_to_script_name`, `sa_server_scriptargs_ratelimit_to_script_name`,
-- `sa_command_realtime_to_info` and what destroys their results. An exception of the JSON library
-- is caught, and what was allocated before it stays.
pub mod Reads
pub mod Args
pub mod Refused
pub mod Realtime
pub mod Freed
use libncclient.Common.{
  ℕ, zero, suc, Bool, true, false, List, [], ◌∷◌, Option, none, some, Bytes, codes, ℤ, pos, negsuc,
  is_zero, length, drop, to_int, ◌==◌, if◌then◌else◌, ◌||◌, not,
}
use libncclient.Memory.{
  Array, new_block, entries_of, delete_array, M, pure, raise, undefined, ◌>>=◌, try◌catch◌,
}
use libncclient.Interop.{
  SizedString, null_string, c_str_sized_to_cpp, make_copy, free_sized_string, char_at_0,
}
use libncclient.ServerApi.Json.{JsonLib}
use libncclient.ServerApi.Response.{ServerCommandInfo, is_nullptr_owned}

pub record ScriptArgument : Type 0 where
  pub key : SizedString
  pub val : SizedString

-- `args` is an array of `num` entries, `none` for nullptr.
pub record ScriptArgumentList : Type 0 where
  pub scriptname : SizedString
  pub args : Option (Array ScriptArgument)
  pub num : ℤ

abbrev pub null_list : ScriptArgumentList
null_list = record { scriptname = null_string; args = none; num = pos 0 }

pub record RealtimeInfo : Type 0 where
  pub id : ℤ
  pub msg : SizedString
  pub should_close : ℤ
  pub width : ℤ
  pub height : ℤ
  pub name : SizedString

abbrev pub null_realtime : RealtimeInfo
null_realtime = record {
  id = pos 0;
  msg = null_string;
  should_close = pos 0;
  width = pos 0;
  height = pos 0;
  name = null_string;
}

-- A result of the library, or its exception.
abbrev pub or_throw {ℓ} : {A : Type ℓ} → Option A → M A
or_throw none = raise
or_throw (some a) = pure a

-- The loop over `keys` and `vals`, of one length.
unfoldable pub copy_args : List Bytes → List Bytes → M (List ScriptArgument)
copy_args [] vals = pure []
copy_args (k ∷ keys) [] = undefined
copy_args (k ∷ keys) (v ∷ vals) = do
  key ← make_copy k
  val ← make_copy v
  rest ← copy_args keys vals
  pure (record { key = key; val = val } ∷ rest)

-- `for(int i=0; i < argl.num; i++)`: a read past the array's end, or of nullptr, is undefined.
unfoldable pub free_args : ℕ → List ScriptArgument → M (Unit {0})
free_args zero args = pure tt
free_args (suc n) [] = undefined
free_args (suc n) (a ∷ args) = do
  _ ← free_sized_string a.key
  _ ← free_sized_string a.val
  free_args n args

unfoldable pub sa_destroy_script_argument_list : ScriptArgumentList → M (Unit {0})
unfolding free_args
sa_destroy_script_argument_list argl = do
  _ ← elim argl.num [ pos n ↦ free_args n (entries_of argl.args) | negsuc n ↦ pure tt ]
  _ ← free_sized_string argl.scriptname
  delete_array argl.args

module _ (lib : JsonLib) where
  open lib use {Json, parse, at_key, has_key, get_string, get_strings, get_int}

  -- `data[key].get<std::string>()`, and so on.
  abbrev pub string_at : Json → Bytes → M Bytes
  string_at j key = do v ← or_throw (at_key j key); or_throw (get_string v)

  abbrev pub strings_at : Json → Bytes → M (List Bytes)
  strings_at j key = do v ← or_throw (at_key j key); or_throw (get_strings v)

  abbrev pub int_at : Json → Bytes → M ℤ
  int_at j key = do v ← or_throw (at_key j key); or_throw (get_int v)

  -- The body of the `try` in `sa_server_scriptargs_to_list`.
  unfoldable pub scriptargs_body : Bytes → M ScriptArgumentList
  scriptargs_body text = do
    j ← or_throw (parse text)
    name ← string_at j (codes "script")
    keys ← strings_at j (codes "keys")
    vals ← strings_at j (codes "vals")
    if not (length keys == length vals) then raise else (do
      scriptname ← make_copy name
      address ← new_block []
      entries ← copy_args keys vals
      pure (record {
        scriptname = scriptname;
        args = some (record { address = address; entries = entries });
        num = to_int (length keys);
      }))

  unfoldable pub sa_server_scriptargs_to_list : ServerCommandInfo → M ScriptArgumentList
  sa_server_scriptargs_to_list info =
      if is_zero info.text.num || is_nullptr_owned info.text then pure null_list else (do
        text ← c_str_sized_to_cpp info.text
        try◌catch◌ (scriptargs_body text) (pure null_list))

  unfoldable pub script_name_body : Bytes → M SizedString
  script_name_body text = do
    j ← or_throw (parse text)
    name ← string_at j (codes "script")
    make_copy name

  -- `str.erase(str.begin())` of a text that is not empty, and the `try` block.
  unfoldable pub invalid_text : Bytes → M SizedString
  unfolding script_name_body
  invalid_text [] = pure null_string
  invalid_text (c ∷ s) = try◌catch◌ (script_name_body s) (pure null_string)

  unfoldable pub sa_server_scriptargs_invalid_to_script_name : ServerCommandInfo → M SizedString
  sa_server_scriptargs_invalid_to_script_name info =
      if is_nullptr_owned info.text || is_zero info.text.num then pure null_string else (do
        front ← char_at_0 info.text
        if not (front == b' ')
            then pure null_string
            else (do text ← c_str_sized_to_cpp info.text; invalid_text text))

  unfoldable pub sa_server_scriptargs_ratelimit_to_script_name : ServerCommandInfo → M SizedString
  sa_server_scriptargs_ratelimit_to_script_name info = do
    text ← c_str_sized_to_cpp info.text
    try◌catch◌ (script_name_body text) (pure null_string)

  -- `if(j.find(key) != j.end()) … = j[key]; else … = 0;`.
  abbrev pub int_or_zero : Json → Bytes → M ℤ
  int_or_zero j key = if has_key j key then int_at j key else pure (pos 0)

  abbrev pub copy_or_empty : Json → Bytes → M SizedString
  copy_or_empty j key =
      if has_key j key then (do s ← string_at j key; make_copy s) else make_copy []

  unfoldable pub realtime_body : Bytes → M RealtimeInfo
  realtime_body text = do
    j ← or_throw (parse text)
    id ← int_at j (codes "id")
    msg ← copy_or_empty j (codes "msg")
    should_close ← int_or_zero j (codes "close")
    width ← int_or_zero j (codes "width")
    height ← int_or_zero j (codes "height")
    name ← copy_or_empty j (codes "script_name")
    pure (record {
      id = id;
      msg = msg;
      should_close = should_close;
      width = width;
      height = height;
      name = name;
    })

  unfoldable pub sa_command_realtime_to_info : ServerCommandInfo → M RealtimeInfo
  sa_command_realtime_to_info info = do
    text ← c_str_sized_to_cpp info.text
    try◌catch◌ (realtime_body text) (pure null_realtime)

unfoldable pub sa_destroy_realtime_info : RealtimeInfo → M (Unit {0})
sa_destroy_realtime_info info = do _ ← free_sized_string info.msg; free_sized_string info.name
