-- ===== src/Util/Split.antt =====
-- `no_ss_split` of nc_util.hpp. The loop keeps the text from `prev` on; `k` is `pos - prev`. It
-- takes fuel, since it does not end on an empty delimiter.
pub mod Words
pub mod Tokens
use libncclient.Common.{
  ℕ, zero, suc, ◌+◌, ◌≡◌, Bool, true, false, ◌&&◌, [], ◌∷◌, ◌++◌, List, Option, none, some, Bytes,
  arith, length, take, drop, ltb, if◌then◌else◌,
}
use libncclient.Util.Prefix.{starts_with}

-- `str.find(delim, prev)`, from `prev`.
unfoldable pub find : Bytes → Bytes → Option ℕ
find delim [] = if ltb 0 (length delim) then none else some 0
find delim (c ∷ s) =
    if starts_with (c ∷ s) delim
    then some 0
    else (elim (find delim s) [ none ↦ none | some k ↦ some (suc k) ])

-- `if (pos == npos) pos = str.length()`.
unfoldable pub find_or_end : Bytes → Bytes → ℕ
find_or_end delim s = elim (find delim s) [ none ↦ length s | some k ↦ k ]

-- `if (!token.empty()) tokens.push_back(token)`.
unfoldable pub push_token : List Bytes → Bytes → List Bytes
push_token tokens [] = tokens
push_token tokens (c ∷ s) = tokens ++ (c ∷ s) ∷ []

unfoldable pub split_loop : ℕ → Bytes → Bytes → List Bytes → Option (List Bytes)
unfolding find_or_end push_token
split_loop zero delim s tokens = none
split_loop (suc fuel) delim s tokens =
    let k = find_or_end delim s in
    let tokens' = push_token tokens (take k s) in
    let rest = split_loop fuel delim (drop (k + length delim) s) tokens' in
    if ltb k (length s) && ltb (k + length delim) (length s) then rest else some tokens'

-- `none` if the loop does not end.
unfoldable pub no_ss_split : Bytes → Bytes → Option (List Bytes)
unfolding split_loop
no_ss_split str delim = split_loop (suc (length str)) delim str []
