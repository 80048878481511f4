-- ===== src/ServerApi/Parse/Realtime.antt =====
-- Realtime responses that fail: `sa_command_realtime_to_info` of c_server_api.cpp.
use libncclient.Common.{◌≡◌, true, none, some, Bytes, codes, ℤ, arith}
use libncclient.Memory.{Heap, done}
use libncclient.Interop.Copies.{Fits, make_copy_lem, with_copy, c_str_sized_to_cpp-make_copy}
use libncclient.ServerApi.Json.{JsonLib}
use libncclient.ServerApi.Response.{ServerCommandType}
use libncclient.ServerApi.Response.Classify.{info_in}
use libncclient.ServerApi.Parse.{null_realtime, realtime_body, sa_command_realtime_to_info}
use libncclient.ServerApi.Parse.Reads.{HasString}

module _ (lib : JsonLib) where
  open lib use {Json, parse, at_key, has_key, get_string, get_strings, get_int}

  -- What the library reads in a realtime response whose "close" is no number.
  pub record BadClose (text m : Bytes) : Type 0 where
    pub json : Json
    pub parsed : parse text ≡ some json
    pub id_value : Json
    pub id : ℤ
    pub id_found : at_key json (codes "id") ≡ some id_value
    pub id_reads : get_int id_value ≡ some id
    pub has_msg : has_key json (codes "msg") ≡ true
    pub msg : HasString lib json (codes "msg") m
    pub has_close : has_key json (codes "close") ≡ true
    pub close_value : Json
    pub close_found : at_key json (codes "close") ≡ some close_value
    pub close_fails : get_int close_value ≡ none

  -- A realtime response that fails after its message was copied loses the copy: the result is
  -- null, and the block stays allocated. The JSON library reads an id and a message that fits
  -- (`Fits`), and no number under "close" (`BadClose`).
  pub sa_command_realtime_to_info_leak :
      (t : ServerCommandType) (s m : Bytes) (h : Heap)
      → BadClose s m
      → Fits m
      → sa_command_realtime_to_info lib (info_in t s h) (with_copy s h)
        ≡ done null_realtime (with_copy m (with_copy s h))
  unfolding sa_command_realtime_to_info realtime_body
  sa_command_realtime_to_info_leak t s m h p fits = ground (
    arith,
    c_str_sized_to_cpp-make_copy s h,
    p.parsed,
    p.id_found,
    p.id_reads,
    p.has_msg,
    p.msg.found,
    p.msg.reads,
    p.has_close,
    p.close_found,
    p.close_fails,
    make_copy_lem m (with_copy s h) fits,
  )
