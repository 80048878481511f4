-- ===== src/ServerApi/Local.antt =====
-- `is_local_command` and `sa_is_local_command`: the commands that never go to the server.
use libncclient.Common.{
  ◌≡◌, ◌↔◌, ◌⊎◌, inl, inr, Bool, true, false, List, [], ◌∷◌, ◌++◌, Bytes, codes, bytes_eq,
  bytes_eq_sound, if◌then◌else◌, arith, Bool-cases,
}
use libncclient.Memory.{M, pure, ◌>>=◌}
use libncclient.Interop.{SizedView, view_to_cpp}
use libncclient.Util.Prefix.{starts_with, starts_with_iff}

-- The prefixes that the code tests, in its order.
abbrev pub local_prefixes : List Bytes
local_prefixes =
    codes "#edit "
    ∷ codes "#edit_es6 "
    ∷ codes "#edit_es5 "
    ∷ codes "#open "
    ∷ codes "#dir"
    ∷ codes "#clear_autos"
    ∷ codes "#autos_clear"
    ∷ codes "#shutdown"
    ∷ codes "#cls"
    ∷ codes "#clear_term"
    ∷ codes "#clear_chat"
    ∷ []

-- The row of `if(starts_with(command, …)) return true;`.
unfoldable pub starts_with_any : Bytes → List Bytes → Bool
starts_with_any command [] = false
starts_with_any command (p ∷ ps) =
    if starts_with command p then true else starts_with_any command ps

unfoldable pub is_local_command : Bytes → Bool
is_local_command command =
    if bytes_eq command (codes "#") then true else starts_with_any command local_prefixes

unfoldable pub sa_is_local_command : SizedView → M Bool
sa_is_local_command server_msg = do
  command ← view_to_cpp server_msg
  pure (is_local_command command)

-- The text is one of these prefixes and something behind it.
abbrev pub StartsAny : Bytes → List Bytes → Type 0
StartsAny command [] = ⊥
StartsAny command (p ∷ ps) = ((rest : Bytes) × (command ≡ p ++ rest)) ⊎ StartsAny command ps

starts_with_any-StartsAny :
    (command : Bytes) (ps : List Bytes) → starts_with_any command ps ≡ true → StartsAny command ps
unfolding starts_with_any
starts_with_any-StartsAny command [] h = cc
starts_with_any-StartsAny command (p ∷ ps) h = elim (Bool-cases (starts_with command p)) [
  | inl at ↦ inl ((starts_with_iff command p).0 at)
  | inr past ↦ inr (starts_with_any-StartsAny command ps (ground arith))
]

StartsAny-starts_with_any :
    (command : Bytes) (ps : List Bytes) → StartsAny command ps → starts_with_any command ps ≡ true
unfolding starts_with_any
StartsAny-starts_with_any command [] h = absurd h
StartsAny-starts_with_any command (p ∷ ps) (inl at) = rw ((starts_with_iff command p).1 at)
StartsAny-starts_with_any command (p ∷ ps) (inr later) =
    ground (arith, StartsAny-starts_with_any command ps later)

-- A command is local exactly if it is `#` alone or begins with one of the eleven local commands.
pub is_local_command_iff :
    (command : Bytes)
    → (is_local_command command ≡ true) ↔ ((command ≡ codes "#") ⊎ StartsAny command local_prefixes)
unfolding is_local_command
is_local_command_iff command = (to, from)
  where
    to : is_local_command command ≡ true → (command ≡ codes "#") ⊎ StartsAny command local_prefixes
    to h = elim (Bool-cases (bytes_eq command (codes "#"))) [
      | inl at ↦ inl (bytes_eq_sound command (codes "#") at)
      | inr past ↦ inr (starts_with_any-StartsAny command local_prefixes (ground arith))
    ]

    from :
        (command ≡ codes "#") ⊎ StartsAny command local_prefixes → is_local_command command ≡ true
    from (inl at) = rw at
    from (inr any) = ground (arith, StartsAny-starts_with_any command local_prefixes any)
