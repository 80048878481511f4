-- ===== src/Util/Name.antt =====
-- Names of users and scripts in nc_util.hpp: `is_valid_name_character`, `is_valid_string`,
-- `is_valid_full_name_string`, `get_host_from_fullname` and `get_script_from_name_string`. The
-- `isalnum` family is that of the C locale, where no byte from 128 on is a letter or a digit.
pub mod Plain
pub mod Cut
pub mod Full
pub mod Path
use libncclient.Common.{
  ℕ, zero, suc, ◌+◌, ◌≡◌, Bool, true, false, not, ◌&&◌, ◌||◌, [], ◌∷◌, ◌++◌, List, Option, none,
  some, Bytes, arith, length, leb, ltb, ◌==◌, if◌then◌else◌, codes, map,
}
use libncclient.Util.Split.{no_ss_split}
use libncclient.Util.Strip.{strip_whitespace}

unfoldable pub isdigit : ℕ → Bool
isdigit c = leb b'0' c && leb c b'9'

unfoldable pub islower : ℕ → Bool
islower c = leb b'a' c && leb c b'z'

unfoldable pub isupper : ℕ → Bool
isupper c = leb b'A' c && leb c b'Z'

unfoldable pub isalnum : ℕ → Bool
unfolding isdigit islower isupper
isalnum c = isdigit c || islower c || isupper c

unfoldable pub is_valid_name_character : ℕ → Bool → Bool
unfolding isalnum
is_valid_name_character c true = isalnum c || c == b'_'
is_valid_name_character c false = (isdigit c || (isalnum c && islower c)) || c == b'_'

abbrev pub max_any_name_len : ℕ
max_any_name_len = 24

-- The loop of `is_valid_string`, with `check_digit`.
name_loop : Bytes → Bool → Bool → Bool
unfolding is_valid_name_character
name_loop [] check_digit allow_uppercase = true
name_loop (c ∷ s) check_digit allow_uppercase =
    if check_digit && isdigit c
    then false
    else if not (is_valid_name_character c allow_uppercase)
    then false
    else name_loop s false allow_uppercase

unfoldable pub is_valid_string : Bytes → Bool → Bool
unfolding name_loop
is_valid_string to_parse allow_uppercase =
    if leb max_any_name_len (length to_parse)
    then false
    else if length to_parse == 0
    then false
    else name_loop to_parse true allow_uppercase

-- `std::count`.
unfoldable pub count : ℕ → Bytes → ℕ
count d [] = 0
count d (c ∷ s) = if c == d then suc (count d s) else count d s

-- The checks behind the split: two parts, of which the second may have uppercase letters.
check_parts : List Bytes → Bool
check_parts (host ∷ name ∷ []) =
    if not (is_valid_string host false)
    then false
    else if not (is_valid_string name true)
    then false
    else true
check_parts strings = false

unfoldable pub is_valid_full_name_string : Bytes → Bool
unfolding check_parts count
is_valid_full_name_string name =
    if not (count b'.' name == 1)
    then false
    else (elim (no_ss_split name (codes ".")) [ none ↦ false | some strings ↦ check_parts strings ])

-- `""` if there is no part.
first_part : List Bytes → Bytes
first_part [] = []
first_part (host ∷ rest) = host

-- `none` if the split does not end.
unfoldable pub get_host_from_fullname : Bytes → Option Bytes
unfolding first_part
get_host_from_fullname text = elim (no_ss_split text (codes ".")) [
  | none ↦ none
  | some found ↦ some (first_part found)
]

-- `std::replace`.
unfoldable pub replace : ℕ → ℕ → Bytes → Bytes
replace old new = map (λ c. if c == old then new else c)

-- The file that `get_script_from_name_string` looks for; `none` if the name is not valid.
unfoldable pub script_file : Bytes → Bytes → Option Bytes
unfolding replace
script_file base_dir name_string =
    if not (is_valid_full_name_string name_string)
    then none
    else some
        (base_dir ++ codes "/" ++ replace b'.' b'/' (strip_whitespace name_string) ++ codes ".js")

-- The files are those of `file_exists` and `read_file`.
unfoldable pub get_script_from_name_string : (Bytes → Option Bytes) → Bytes → Bytes → Bytes
unfolding script_file
get_script_from_name_string files base_dir name_string = elim (script_file base_dir name_string) [
  | none ↦ []
  | some file ↦ elim (files file) [ none ↦ [] | some contents ↦ contents ]
]
