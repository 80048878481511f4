-- ===== src/ServerApi/Parse/Refused.antt =====
-- Refused script arguments: `sa_server_scriptargs_invalid_to_script_name` and
-- `sa_server_scriptargs_ratelimit_to_script_name` of c_server_api.cpp.
use libncclient.Common.{ℕ, ◌≡◌, false, ◌∷◌, some, Bytes, codes, ◌==◌, arith}
use libncclient.Memory.{Heap, done}
use libncclient.Interop.{null_string}
use libncclient.Interop.Copies.{
  Fits, make_copy_lem, copy_in, with_copy, c_str_sized_to_cpp-make_copy, char_at_0-make_copy,
}
use libncclient.ServerApi.Json.{JsonLib}
use libncclient.ServerApi.Response.{ServerCommandType}
use libncclient.ServerApi.Response.Classify.{info_in}
use libncclient.ServerApi.Parse.{
  script_name_body, invalid_text, sa_server_scriptargs_invalid_to_script_name,
  sa_server_scriptargs_ratelimit_to_script_name,
}
use libncclient.ServerApi.Parse.Reads.{HasString, string_at_lem}

module _ (lib : JsonLib) where
  open lib use {Json, parse, at_key, has_key, get_string, get_strings, get_int}

  name_body :
      (j : Json) (text name : Bytes) (h : Heap)
      → parse text ≡ some j
      → HasString lib j (codes "script") name
      → Fits name
      → script_name_body lib text h ≡ done (copy_in name h) (with_copy name h)
  unfolding script_name_body
  name_body j text name h e p fits =
      ground (arith, string_at_lem lib j (codes "script") name h p, make_copy_lem name h fits)

  -- The two refusals of script arguments name their script: the one for an invalid script has a
  -- space before its JSON, and gives nothing where that is missing. The JSON library reads the
  -- name in the text, which does not begin with a space, and the name fits (`Fits`).
  pub sa_server_scriptargs_refused :
      (t : ServerCommandType) (j : Json) (c : ℕ) (s name : Bytes) (h : Heap)
      → parse (c ∷ s) ≡ some j
      → HasString lib j (codes "script") name
      → Fits name
      → (c == b' ') ≡ false
      → (sa_server_scriptargs_ratelimit_to_script_name lib
            (info_in t (c ∷ s) h)
            (with_copy (c ∷ s) h)
          ≡ done (copy_in name (with_copy (c ∷ s) h)) (with_copy name (with_copy (c ∷ s) h)))
        × (sa_server_scriptargs_invalid_to_script_name lib
              (info_in t (b' ' ∷ c ∷ s) h)
              (with_copy (b' ' ∷ c ∷ s) h)
            ≡ done
                (copy_in name (with_copy (b' ' ∷ c ∷ s) h))
                (with_copy name (with_copy (b' ' ∷ c ∷ s) h)))
        × (sa_server_scriptargs_invalid_to_script_name lib
              (info_in t (c ∷ s) h)
              (with_copy (c ∷ s) h)
            ≡ done null_string (with_copy (c ∷ s) h))
  unfolding sa_server_scriptargs_ratelimit_to_script_name
      sa_server_scriptargs_invalid_to_script_name invalid_text
  sa_server_scriptargs_refused t j c s name h e p fits other = (
    ground (
      arith,
      c_str_sized_to_cpp-make_copy (c ∷ s) h,
      name_body j (c ∷ s) name (with_copy (c ∷ s) h) e p fits,
    ),
    ground (
      arith,
      char_at_0-make_copy b' ' (c ∷ s) h,
      c_str_sized_to_cpp-make_copy (b' ' ∷ c ∷ s) h,
      name_body j (c ∷ s) name (with_copy (b' ' ∷ c ∷ s) h) e p fits,
    ),
    ground (arith, char_at_0-make_copy c s h),
  )
