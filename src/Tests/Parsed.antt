-- ===== src/Tests/Parsed.antt =====
-- Tests of the JSON responses of ServerApi.
use libncclient.Common.{
  inl, inr, ◌≡◌, refl, [], ◌∷◌, some, Bytes, codes, pos, arith, bytes_eq, if◌then◌else◌,
}
use libncclient.Memory.{◌>>=◌, Heap, done}
use libncclient.Interop.Copies.{copy_in, with_copy}
use libncclient.ServerApi.Json.{JsonLib}
use libncclient.ServerApi.Response.{
  server_command_server_scriptargs, server_command_chat_api, server_command_command_realtime,
}
use libncclient.ServerApi.Response.Classify.{info_in}
use libncclient.ServerApi.Chat.{sa_chat_api_to_info, sa_destroy_chat_api_info}
use libncclient.ServerApi.Chat.Freed.{freed_chat, sa_destroy_chat_api_info_lem}
use libncclient.ServerApi.Chat.Copied.{HasChat, chat_in, after_arrays, sa_chat_api_to_info_lem}
use libncclient.ServerApi.Parse.Freed.{freed_args, sa_destroy_script_argument_list_lem}
use libncclient.ServerApi.Parse.{
  sa_destroy_script_argument_list, sa_server_scriptargs_to_list, null_list, null_realtime,
  sa_command_realtime_to_info,
}
use libncclient.ServerApi.Parse.Reads.{HasString}
use libncclient.ServerApi.Parse.Args.{
  HasArgs, with_name, args_array, after_args, sa_server_scriptargs_to_list_lem,
  sa_server_scriptargs_to_list_mismatch,
}
use libncclient.ServerApi.Parse.Realtime.{BadClose, sa_command_realtime_to_info_leak}
use libncclient.Tests.Requests.{clean, texts, uneven}

text_of : (lib_key : Bytes) → HasString texts (codes "{}") lib_key lib_key
text_of key = record { value = key; found = refl; reads = refl }

abbrev some_args : HasArgs texts (codes "{}") (codes "script") (codes "k" ∷ []) (codes "v" ∷ [])
some_args = record {
  json = codes "{}";
  parsed = refl;
  script = text_of (codes "script");
  keys_there = record { value = codes "keys"; found = refl; reads = refl };
  vals_there = record { value = codes "vals"; found = refl; reads = refl };
}

abbrev uneven_args : HasArgs uneven (codes "{}") (codes "script") (codes "k" ∷ []) []
uneven_args = record {
  json = codes "{}";
  parsed = refl;
  script = record { value = codes "script"; found = refl; reads = refl };
  keys_there = record { value = codes "keys"; found = refl; reads = refl };
  vals_there = record { value = codes "vals"; found = refl; reads = refl };
}

abbrev response : Heap
response = with_copy (codes "{}") clean

sa_server_scriptargs_to_list_lem_example :
    sa_server_scriptargs_to_list texts
      (info_in server_command_server_scriptargs (codes "{}") clean)
      response
    ≡ done
        (record {
          scriptname = copy_in (codes "script") response;
          args = args_array (codes "script") (codes "k" ∷ []) (codes "v" ∷ []) response;
          num = pos 1;
        })
        (after_args (codes "k" ∷ []) (codes "v" ∷ []) (with_name (codes "script") response))
sa_server_scriptargs_to_list_lem_example =
    sa_server_scriptargs_to_list_lem texts server_command_server_scriptargs b'{' (codes "}")
      (codes "script") (codes "k" ∷ []) (codes "v" ∷ []) clean some_args refl (omega arith)
      (omega arith) (omega arith, tt) (omega arith, tt)

sa_destroy_script_argument_list_lem_example :
    (sa_server_scriptargs_to_list texts
          (info_in server_command_server_scriptargs (codes "{}") clean)
        >>= sa_destroy_script_argument_list)
      response
    ≡ done tt (freed_args (codes "script") (codes "k" ∷ []) (codes "v" ∷ []) response)
sa_destroy_script_argument_list_lem_example =
    sa_destroy_script_argument_list_lem texts server_command_server_scriptargs b'{' (codes "}")
      (codes "script") (codes "k" ∷ []) (codes "v" ∷ []) clean some_args refl (omega arith)
      (omega arith) (omega arith, tt) (omega arith, tt)

sa_server_scriptargs_to_list_mismatch_example :
    sa_server_scriptargs_to_list uneven
      (info_in server_command_server_scriptargs (codes "{}") clean)
      response
    ≡ done null_list response
sa_server_scriptargs_to_list_mismatch_example =
    sa_server_scriptargs_to_list_mismatch uneven server_command_server_scriptargs b'{' (codes "}")
      (codes "script") (codes "k" ∷ []) [] clean uneven_args (λ e. omega arith)

abbrev bad_close : BadClose texts (codes "{}") (codes "msg")
bad_close = record {
  json = codes "{}";
  parsed = refl;
  id_value = codes "id";
  id = pos 0;
  id_found = refl;
  id_reads = refl;
  has_msg = refl;
  msg = text_of (codes "msg");
  has_close = refl;
  close_value = codes "close";
  close_found = refl;
  close_fails = refl;
}

sa_command_realtime_to_info_leak_example :
    sa_command_realtime_to_info texts
      (info_in server_command_command_realtime (codes "{}") clean)
      response
    ≡ done null_realtime (with_copy (codes "msg") response)
sa_command_realtime_to_info_leak_example =
    sa_command_realtime_to_info_leak texts server_command_command_realtime (codes "{}")
      (codes "msg") clean bad_close (omega arith)

-- A library whose one object has a channel, a message and a user, but no root user; its arrays are
-- the object itself under "data", with one element, and a null value under "tells".
abbrev chats : JsonLib
chats = record texts {
  has_key = λ j key. bytes_eq key (codes "user");
  size = λ j. if bytes_eq j (codes "data") then 1 else 0;
  at_index = λ j i. some j;
  get_strings = λ j. some (if bytes_eq j (codes "channels") then codes "0000" ∷ [] else []);
}

abbrev one_chat :
    HasChat chats
      (codes "{}")
      (codes "0000" ∷ [])
      []
      ((codes "channel", codes "text") ∷ [])
      []
      (codes "user")
      []
one_chat = record {
  json = codes "{}";
  parsed = refl;
  channels_there = record { value = codes "channels"; found = refl; reads = refl };
  notifs_there = record { value = codes "notifs"; found = refl; reads = refl };
  msgs_there = record {
    value = codes "data";
    found = refl;
    sized = refl;
    elements = (
      codes "data",
      refl,
      record { value = codes "channel"; found = refl; reads = refl },
      record { value = codes "text"; found = refl; reads = refl },
      tt,
    );
  };
  tells_there = record { value = codes "tells"; found = refl; sized = refl; elements = tt };
  user_there = inl (refl, record { value = codes "user"; found = refl; reads = refl });
  root_there = inr (refl, refl);
}

sa_chat_api_to_info_lem_example :
    sa_chat_api_to_info chats (info_in server_command_chat_api (codes "{}") clean) response
    ≡ done
        (chat_in chats
          (codes "0000" ∷ [])
          []
          ((codes "channel", codes "text") ∷ [])
          []
          (codes "user")
          []
          response)
        (with_copy [] (
          with_copy (codes "user") (
            after_arrays chats
              (codes "0000" ∷ [])
              []
              ((codes "channel", codes "text") ∷ [])
              []
              response)))
sa_chat_api_to_info_lem_example =
    sa_chat_api_to_info_lem chats server_command_chat_api b'{' (codes "}") (codes "0000" ∷ []) []
      ((codes "channel", codes "text") ∷ []) [] (codes "user") [] clean one_chat (omega arith)
      (omega arith) (omega arith) (omega arith) (omega arith, tt) tt
      ((omega arith, omega arith), tt) tt (omega arith) (omega arith)

sa_destroy_chat_api_info_lem_example :
    (sa_chat_api_to_info chats (info_in server_command_chat_api (codes "{}") clean)
        >>= sa_destroy_chat_api_info)
      response
    ≡ done tt (
        freed_chat chats
          (codes "0000" ∷ [])
          []
          ((codes "channel", codes "text") ∷ [])
          []
          (codes "user")
          []
          response)
sa_destroy_chat_api_info_lem_example =
    sa_destroy_chat_api_info_lem chats server_command_chat_api b'{' (codes "}") (codes "0000" ∷ [])
      [] ((codes "channel", codes "text") ∷ []) [] (codes "user") [] clean one_chat (omega arith)
      (omega arith) (omega arith) (omega arith) (omega arith, tt) tt
      ((omega arith, omega arith), tt) tt (omega arith) (omega arith)
