-- ===== src/ServerApi/Json.antt =====
-- What the code uses of nlohmann::json, which is not part of this program: its values, what `dump`
-- writes and what `parse` reads, as an argument of the definitions that use them. `none` stands for
-- an exception.
use libncclient.Common.{ℕ, Bool, List, Option, Bytes, ℤ}

pub record JsonLib : Type 1 where
  pub Json : Type 0
  -- `float`, which the code only hands on.
  pub Float : Type 0
  -- An object with these members, in the order of the assignments.
  pub object : List (Bytes × Json) → Json
  pub of_int : ℤ → Json
  pub of_float : Float → Json
  pub of_strings : List Bytes → Json
  pub dump : Json → Bytes
  pub parse : Bytes → Option Json
  -- `j[key]`, which is a null value where the object lacks the key.
  pub at_key : Json → Bytes → Option Json
  -- `find(key) != end()`, or `count(key) > 0`.
  pub has_key : Json → Bytes → Bool
  pub size : Json → ℕ
  -- `j[i]`.
  pub at_index : Json → ℕ → Option Json
  pub get_string : Json → Option Bytes
  pub get_strings : Json → Option (List Bytes)
  pub get_int : Json → Option ℤ
