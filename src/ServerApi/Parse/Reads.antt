-- ===== src/ServerApi/Parse/Reads.antt =====
-- What the JSON library reads under a key, in the responses of c_server_api.cpp that are JSON.
use libncclient.Common.{◌≡◌, List, some, Bytes, arith}
use libncclient.Memory.{Heap, done}
use libncclient.ServerApi.Json.{JsonLib}
use libncclient.ServerApi.Parse.{string_at, strings_at}

module _ (lib : JsonLib) where
  open lib use {Json, parse, at_key, has_key, get_string, get_strings, get_int}

  -- The object has a string, or a list of strings, under the key.
  pub record HasString (j : Json) (key s : Bytes) : Type 0 where
    pub value : Json
    pub found : at_key j key ≡ some value
    pub reads : get_string value ≡ some s

  pub record HasStrings (j : Json) (key : Bytes) (ss : List Bytes) : Type 0 where
    pub value : Json
    pub found : at_key j key ≡ some value
    pub reads : get_strings value ≡ some ss

  pub string_at_lem :
      (j : Json) (key s : Bytes) (h : Heap) → HasString j key s → string_at lib j key h ≡ done s h
  string_at_lem j key s h p = ground (arith, p.found, p.reads)

  pub strings_at_lem :
      (j : Json) (key : Bytes) (ss : List Bytes) (h : Heap)
      → HasStrings j key ss
      → strings_at lib j key h ≡ done ss h
  strings_at_lem j key ss h p = ground (arith, p.found, p.reads)
