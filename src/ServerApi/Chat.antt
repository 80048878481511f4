-- ===== src/ServerApi/Chat.antt =====
-- `sa_chat_api_to_info` and `sa_destroy_chat_api_info`. An array is a block with a list
-- of its entries, with its `num_` field beside it; the loops that fill an array visit all of it, as
-- its length is an `int`. Two vectors that a loop fills side by side are a list of pairs.
pub mod Arrays
pub mod Copied
pub mod Blocks
pub mod Deleted
pub mod Freed
use libncclient.Common.{
  ℕ, zero, suc, Bool, true, false, List, [], ◌∷◌, Option, none, some, Bytes, codes, ℤ, pos, negsuc,
  is_zero, length, to_int, if◌then◌else◌, ◌||◌,
}
use libncclient.Memory.{
  Array, new_block, entries_of, delete_array, M, pure, raise, undefined, ◌>>=◌, try◌catch◌,
}
use libncclient.Interop.{SizedString, null_string, c_str_sized_to_cpp, make_copy, free_sized_string}
use libncclient.ServerApi.Json.{JsonLib}
use libncclient.ServerApi.Response.{ServerCommandInfo, is_nullptr_owned}
use libncclient.ServerApi.Parse.{or_throw, string_at, strings_at, copy_or_empty}

pub record ChatInfo : Type 0 where
  pub channel : SizedString
  pub msg : SizedString

pub record ChatChannel : Type 0 where
  pub channel : SizedString

pub record TellInfo : Type 0 where
  pub user : SizedString
  pub msg : SizedString

pub record NotifInfo : Type 0 where
  pub msg : SizedString

pub record ChatApiInfo : Type 0 where
  pub msgs : Option (Array ChatInfo)
  pub num_msgs : ℤ
  pub in_channels : Option (Array ChatChannel)
  pub num_in_channels : ℤ
  pub tells : Option (Array TellInfo)
  pub num_tells : ℤ
  pub notifs : Option (Array NotifInfo)
  pub num_notifs : ℤ
  pub current_user : SizedString
  pub root_user : SizedString

-- `{}`.
abbrev pub null_chat : ChatApiInfo
null_chat = record {
  msgs = none;
  num_msgs = pos 0;
  in_channels = none;
  num_in_channels = pos 0;
  tells = none;
  num_tells = pos 0;
  notifs = none;
  num_notifs = pos 0;
  current_user = null_string;
  root_user = null_string;
}

-- The loops that fill the arrays. A tell's message is copied before its user.
unfoldable pub copy_msgs : List (Bytes × Bytes) → M (List ChatInfo)
copy_msgs [] = pure []
copy_msgs ((c, m) ∷ msgs) = do
  channel ← make_copy c
  msg ← make_copy m
  rest ← copy_msgs msgs
  pure (record { channel = channel; msg = msg } ∷ rest)

unfoldable pub copy_channels : List Bytes → M (List ChatChannel)
copy_channels [] = pure []
copy_channels (c ∷ channels) = do
  channel ← make_copy c
  rest ← copy_channels channels
  pure (record { channel = channel } ∷ rest)

unfoldable pub copy_tells : List (Bytes × Bytes) → M (List TellInfo)
copy_tells [] = pure []
copy_tells ((u, m) ∷ tells) = do
  msg ← make_copy m
  user ← make_copy u
  rest ← copy_tells tells
  pure (record { user = user; msg = msg } ∷ rest)

unfoldable pub copy_notifs : List Bytes → M (List NotifInfo)
copy_notifs [] = pure []
copy_notifs (m ∷ notifs) = do
  msg ← make_copy m
  rest ← copy_notifs notifs
  pure (record { msg = msg } ∷ rest)

-- `if(texts.size() > 0)`: the array is made, and then filled.
unfoldable pub make_array {ℓ κ} :
    {A : Type ℓ} {B : Type κ} → (List B → M (List A)) → List B → M (Option (Array A))
make_array copy [] = pure none
make_array copy (x ∷ texts) = do
  address ← new_block []
  entries ← copy (x ∷ texts)
  pure (some (record { address = address; entries = entries }))

module _ (lib : JsonLib) where
  open lib use {Json, parse, at_key, size, at_index}

  -- The loop over the elements `n` of them from `i` on, each with two strings.
  unfoldable pub read_elements : Json → Bytes → Bytes → ℕ → ℕ → M (List (Bytes × Bytes))
  read_elements j first second i zero = pure []
  read_elements j first second i (suc n) = do
    element ← or_throw (at_index j i)
    a ← string_at lib element first
    b ← string_at lib element second
    rest ← read_elements j first second (suc i) n
    pure ((a, b) ∷ rest)

  -- What is read before anything is copied.
  unfoldable pub read_chat :
      Json → M (List Bytes × List Bytes × List (Bytes × Bytes) × List (Bytes × Bytes))
  read_chat full = do
    in_channels ← strings_at lib full (codes "channels")
    notif_msgs ← strings_at lib full (codes "notifs")
    chat_data ← or_throw (at_key full (codes "data"))
    chats ← read_elements chat_data (codes "channel") (codes "text") 0 (size chat_data)
    tell_data ← or_throw (at_key full (codes "tells"))
    tells ← read_elements tell_data (codes "user") (codes "text") 0 (size tell_data)
    pure (in_channels, notif_msgs, chats, tells)

  -- The body of the `try`.
  unfoldable pub chat_body : Bytes → M ChatApiInfo
  chat_body chat_in = do
    full ← or_throw (parse chat_in)
    (channels, notif_msgs, chats, tell_texts) ← read_chat full
    msgs ← make_array copy_msgs chats
    in_channels ← make_array copy_channels channels
    tells ← make_array copy_tells tell_texts
    notifs ← make_array copy_notifs notif_msgs
    current_user ← copy_or_empty lib full (codes "user")
    root_user ← copy_or_empty lib full (codes "root_user")
    pure (record {
      msgs = msgs;
      num_msgs = to_int (length chats);
      in_channels = in_channels;
      num_in_channels = to_int (length channels);
      tells = tells;
      num_tells = to_int (length tell_texts);
      notifs = notifs;
      num_notifs = to_int (length notif_msgs);
      current_user = current_user;
      root_user = root_user;
    })

  unfoldable pub sa_chat_api_to_info : ServerCommandInfo → M ChatApiInfo
  sa_chat_api_to_info info =
      if is_zero info.text.num || is_nullptr_owned info.text then pure null_chat else (do
        chat_in ← c_str_sized_to_cpp info.text
        try◌catch◌ (chat_body chat_in) (pure null_chat))

-- `for(int i=0; i < num; i++)` over an array: a read past its end is undefined.
unfoldable pub free_each {ℓ} : {A : Type ℓ} → (A → M (Unit {0})) → ℕ → List A → M (Unit {0})
free_each free zero entries = pure tt
free_each free (suc n) [] = undefined
free_each free (suc n) (a ∷ entries) = do _ ← free a; free_each free n entries

-- `if(num > 0)`: the strings of the array are freed, and then the array.
unfoldable pub free_array {ℓ} :
    {A : Type ℓ} → (A → M (Unit {0})) → ℤ → Option (Array A) → M (Unit {0})
unfolding free_each
free_array free (pos zero) array = pure tt
free_array free (pos (suc n)) array = do
  _ ← free_each free (suc n) (entries_of array)
  delete_array array
free_array free (negsuc n) array = pure tt

unfoldable pub sa_destroy_chat_api_info : ChatApiInfo → M (Unit {0})
unfolding free_array
sa_destroy_chat_api_info info = do
  _ ←
      free_array (λ e. do _ ← free_sized_string e.channel; free_sized_string e.msg) info.num_msgs
        info.msgs
  _ ← free_array (λ e. free_sized_string e.channel) info.num_in_channels info.in_channels
  _ ←
      free_array (λ e. do _ ← free_sized_string e.user; free_sized_string e.msg) info.num_tells
        info.tells
  _ ← free_array (λ e. free_sized_string e.msg) info.num_notifs info.notifs
  _ ← free_sized_string info.current_user
  free_sized_string info.root_user
