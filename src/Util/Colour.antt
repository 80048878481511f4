-- ===== src/Util/Colour.antt =====
-- The colour helpers of nc_util.hpp. `hash` is `std::hash<std::string>`, which the library defines.
pub mod Chosen
use libncclient.Common.{
  ℕ, zero, suc, ◌+◌, ◌<◌, ◌≤◌, ◌%◌, ◌≡◌, ◌≢◌, ◌⊎◌, inl, inr, refl, sym, ap, ◌∙◌, true, false, not,
  [], ◌∷◌, ◌++◌, List, Bytes, Bool, Option, none, some, All, arith, length, get_elem?, ◌==◌, ltb,
  if◌then◌else◌, bytes_eq, codes, ◌&&◌, Option-cases,
}
use libncclient.Util.Name.{isalnum, isdigit, islower, isupper}
use libncclient.Util.Format.{tolower_str}

unfoldable pub make_item_col : Bytes → Bytes
make_item_col text = codes "`P" ++ (text ++ codes "`")

unfoldable pub make_cash_col : Bytes → Bytes
make_cash_col text = codes "`H" ++ (text ++ codes "`")

unfoldable pub make_error_col : Bytes → Bytes
make_error_col text = codes "`D" ++ (text ++ codes "`")

unfoldable pub make_success_col : Bytes → Bytes
make_success_col text = codes "`L" ++ (text ++ codes "`")

unfoldable pub make_key_col : Bytes → Bytes
make_key_col text = codes "`F" ++ (text ++ codes "`")

unfoldable pub make_val_col : Bytes → Bytes
make_val_col text = codes "`P" ++ (text ++ codes "`")

unfoldable pub make_notif_col : Bytes → Bytes
make_notif_col text = codes "`e" ++ (text ++ codes "`")

unfoldable pub make_gray_col : Bytes → Bytes
make_gray_col text = codes "`b" ++ (text ++ codes "`")

unfoldable pub make_key_val : Bytes → Bytes → Bytes
unfolding make_key_col make_val_col
make_key_val key val = make_key_col key ++ (codes ":" ++ make_val_col val)

abbrev pub valid_cols : Bytes
valid_cols = codes "ABCDEFGHIJKLNOPSTVWXYdefghijlnpqsw"

-- `string(1, valid_cols[i])`.
unfoldable pub one_char : Option ℕ → Bytes
one_char none = 0 ∷ []
one_char (some c) = c ∷ []

-- The names that the function knows, and whether their case counts.
unfoldable pub known_colour : Bytes → Option Bytes
known_colour text =
    if bytes_eq text (codes "core")
    then some (codes "L")
    else if bytes_eq text (codes "extern")
    then some (codes "H")
    else if bytes_eq (tolower_str text) (codes "fullsec")
    then some (codes "4")
    else if bytes_eq (tolower_str text) (codes "highsec")
    then some (codes "3")
    else if bytes_eq (tolower_str text) (codes "midsec")
    then some (codes "2")
    else if bytes_eq (tolower_str text) (codes "lowsec")
    then some (codes "1")
    else if bytes_eq (tolower_str text) (codes "nullsec")
    then some (codes "0")
    else if bytes_eq (tolower_str text) (codes "fs")
    then some (codes "4")
    else if bytes_eq (tolower_str text) (codes "hs")
    then some (codes "3")
    else if bytes_eq (tolower_str text) (codes "ms")
    then some (codes "2")
    else if bytes_eq (tolower_str text) (codes "ls")
    then some (codes "1")
    else if bytes_eq (tolower_str text) (codes "ns")
    then some (codes "0")
    else none

-- The loop: the letters and digits, and the place of the first one, `none` for -1.
unfoldable pub alnum_loop : ℕ → Bytes → Bytes → Option ℕ → Bytes × Option ℕ
unfolding isalnum
alnum_loop i [] f first_alpha = (f, first_alpha)
alnum_loop i (c ∷ text) f first_alpha =
    let found = alnum_loop (suc i) text (f ++ c ∷ []) (first_of first_alpha i) in
    let passed = alnum_loop (suc i) text f first_alpha in if isalnum c then found else passed
  where
    first_of : Option ℕ → ℕ → Option ℕ
    first_of none i = some i
    first_of (some k) i = some k

module _ (hash : Bytes → ℕ) where
  unfoldable pub string_to_colour : Bytes → Bytes
  unfolding known_colour one_char
  string_to_colour text = elim (known_colour text) [
    | some colour ↦ colour
    | none ↦ one_char (get_elem? valid_cols (hash text % length valid_cols))
  ]

  unfoldable pub colour_string : Bytes → Bytes
  unfolding string_to_colour
  colour_string text = codes "`" ++ (string_to_colour text ++ (text ++ codes "`"))

  unfoldable pub colour_string_if : Bytes → Bool → Bytes
  unfolding colour_string
  colour_string_if text condition = if condition then colour_string text else text

  -- The part behind the loop.
  unfoldable pub colour_from : Bytes → Bytes × Option ℕ → Bytes
  unfolding string_to_colour colour_string
  colour_from text (f, none) = colour_string text
  colour_from text (f, some k) =
      let col = string_to_colour f in
      if ltb k (length text) then (codes "`" ++ (col ++ text)) ++ codes "`" else colour_string text

  unfoldable pub colour_string_only_alnum : Bytes → Bytes
  unfolding alnum_loop colour_from
  colour_string_only_alnum text = colour_from text (alnum_loop 0 text [] none)
