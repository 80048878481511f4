-- ===== src/ServerApi/Parse/Args.antt =====
-- Script argument responses: `sa_server_scriptargs_to_list` of c_server_api.cpp, by what the JSON
-- library reads in their text.
use libncclient.Common.{
  ℕ, ◌≡◌, ◌≢◌, refl, List, [], ◌∷◌, Option, some, Bytes, codes, pos, length, to_int, to_int-of_lt,
  ◌<◌, ◌^◌, All, arith,
}
use libncclient.Memory.{Array, new_block, with_array, Heap, done, threw, pure, try◌catch◌}
use libncclient.Interop.Copies.{
  Fits, make_copy_lem, copy_in, with_copy, c_str_sized_to_cpp-make_copy,
}
use libncclient.ServerApi.Json.{JsonLib}
use libncclient.ServerApi.Response.{ServerCommandType}
use libncclient.ServerApi.Response.Classify.{info_in}
use libncclient.ServerApi.Parse.{
  ScriptArgument, null_list, copy_args, scriptargs_body, sa_server_scriptargs_to_list,
}
use libncclient.ServerApi.Parse.Reads.{HasString, HasStrings, string_at_lem, strings_at_lem}

-- The memory behind the copy of the name and the `new` of the array.
abbrev pub with_name : Bytes → Heap → Heap
with_name name h = with_array (with_copy name h)

-- The memory after the pairs were copied, each key before its value, and the entries.
abbrev pub after_args : List Bytes → List Bytes → Heap → Heap
after_args [] vals h = h
after_args (k ∷ keys) [] h = h
after_args (k ∷ keys) (v ∷ vals) h = after_args keys vals (with_copy v (with_copy k h))

abbrev pub args_in : List Bytes → List Bytes → Heap → List ScriptArgument
args_in [] vals h = []
args_in (k ∷ keys) [] h = []
args_in (k ∷ keys) (v ∷ vals) h =
    record { key = copy_in k h; val = copy_in v (with_copy k h) }
    ∷ args_in keys vals (with_copy v (with_copy k h))

-- The array, with these entries.
abbrev pub args_array : Bytes → List Bytes → List Bytes → Heap → Option (Array ScriptArgument)
args_array name keys vals h =
    some
      (record { address = (with_copy name h).next; entries = args_in keys vals (with_name name h) })

copy_args_lem :
    (keys vals : List Bytes) (h : Heap)
    → length keys ≡ length vals
    → All Fits keys
    → All Fits vals
    → copy_args keys vals h ≡ done (args_in keys vals h) (after_args keys vals h)
unfolding copy_args
copy_args_lem [] vals h e fk fv = refl
copy_args_lem (k ∷ keys) [] h e fk fv = absurd (omega arith)
copy_args_lem (k ∷ keys) (v ∷ vals) h e fk fv = ground (
  arith,
  make_copy_lem k h fk.0,
  make_copy_lem v (with_copy k h) fv.0,
  copy_args_lem keys vals (with_copy v (with_copy k h)) (omega arith) fk.1 fv.1,
)

module _ (lib : JsonLib) where
  open lib use {Json, parse, at_key, has_key, get_string, get_strings, get_int}

  -- What the library reads in a script argument response.
  pub record HasArgs (text name : Bytes) (keys vals : List Bytes) : Type 0 where
    pub json : Json
    pub parsed : parse text ≡ some json
    pub script : HasString lib json (codes "script") name
    pub keys_there : HasStrings lib json (codes "keys") keys
    pub vals_there : HasStrings lib json (codes "vals") vals

  module _ (text name : Bytes) (keys vals : List Bytes) (h : Heap)
      (p : HasArgs text name keys vals) where
    args_body_match :
        length keys ≡ length vals
        → Fits name
        → All Fits keys
        → All Fits vals
        → scriptargs_body lib text h
          ≡ done
              (record {
                scriptname = copy_in name h;
                args = args_array name keys vals h;
                num = to_int (length keys);
              })
              (after_args keys vals (with_name name h))
    unfolding scriptargs_body new_block
    args_body_match e fn fk fv = ground (
      arith,
      p.parsed,
      string_at_lem lib p.json (codes "script") name h p.script,
      strings_at_lem lib p.json (codes "keys") keys h p.keys_there,
      strings_at_lem lib p.json (codes "vals") vals h p.vals_there,
      make_copy_lem name h fn,
      copy_args_lem keys vals (with_name name h) e fk fv,
    )

    args_body_mismatch : length keys ≢ length vals → scriptargs_body lib text h ≡ threw h
    unfolding scriptargs_body
    args_body_mismatch e = ground (
      arith,
      p.parsed,
      string_at_lem lib p.json (codes "script") name h p.script,
      strings_at_lem lib p.json (codes "keys") keys h p.keys_there,
      strings_at_lem lib p.json (codes "vals") vals h p.vals_there,
    )

  -- The info of a text that is not empty is read and handed to the `try` block.
  scriptargs_read :
      (t : ServerCommandType) (c : ℕ) (s : Bytes) (h : Heap)
      → sa_server_scriptargs_to_list lib (info_in t (c ∷ s) h) (with_copy (c ∷ s) h)
        ≡ (try◌catch◌ (scriptargs_body lib (c ∷ s)) (pure null_list)) (with_copy (c ∷ s) h)
  unfolding sa_server_scriptargs_to_list
  scriptargs_read t c s h = ground (arith, c_str_sized_to_cpp-make_copy (c ∷ s) h)

  -- A script argument response with as many values as keys gives the script's name and the pairs
  -- in order, each string copied. The text is not empty, the JSON library reads these strings in
  -- it (`HasArgs`), every string fits (`Fits`), and there are fewer than 2 ^ 31 keys.
  pub sa_server_scriptargs_to_list_lem :
      (t : ServerCommandType) (c : ℕ) (s name : Bytes) (keys vals : List Bytes) (h : Heap)
      → HasArgs (c ∷ s) name keys vals
      → length keys ≡ length vals
      → length keys < 2 ^ 31
      → Fits name
      → All Fits keys
      → All Fits vals
      → sa_server_scriptargs_to_list lib (info_in t (c ∷ s) h) (with_copy (c ∷ s) h)
        ≡ done
            (record {
              scriptname = copy_in name (with_copy (c ∷ s) h);
              args = args_array name keys vals (with_copy (c ∷ s) h);
              num = pos (length keys);
            })
            (after_args keys vals (with_name name (with_copy (c ∷ s) h)))
  sa_server_scriptargs_to_list_lem t c s name keys vals h p e few fn fk fv = ground (
    arith,
    scriptargs_read t c s h,
    args_body_match (c ∷ s) name keys vals (with_copy (c ∷ s) h) p e fn fk fv,
    to_int-of_lt (length keys) few,
  )

  -- With more keys than values, or fewer, the result is the null list, and nothing is allocated.
  -- The text is not empty, and the JSON library reads these strings in it (`HasArgs`).
  pub sa_server_scriptargs_to_list_mismatch :
      (t : ServerCommandType) (c : ℕ) (s name : Bytes) (keys vals : List Bytes) (h : Heap)
      → HasArgs (c ∷ s) name keys vals
      → length keys ≢ length vals
      → sa_server_scriptargs_to_list lib (info_in t (c ∷ s) h) (with_copy (c ∷ s) h)
        ≡ done null_list (with_copy (c ∷ s) h)
  sa_server_scriptargs_to_list_mismatch t c s name keys vals h p e = ground (
    arith,
    scriptargs_read t c s h,
    args_body_mismatch (c ∷ s) name keys vals (with_copy (c ∷ s) h) p e,
  )
