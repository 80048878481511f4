-- ===== src/Interop.antt =====
-- nc_string_interop.hpp, the two string structs of c_shared_data.h, `free_string` and
-- `free_sized_string` of c_shared_data.cpp, and the C string helpers that end nc_util.hpp.
--
-- A pointer to a string that the library allocates is an address, with `none` for nullptr. A view
-- stands for the chars that its pointer reaches while the call runs, since the library keeps no
-- view; here too `none` is nullptr. `char` values are bytes. The loop `for(i < num) ret[i] =
-- str[i]` is `peek`: it is undefined where a char is read past the block.
pub mod Copies
pub mod Balance
use libncclient.Common.{
  ℕ, zero, suc, ◌+◌, ◌-◌, ◌^◌, ◌<◌, ◌≡◌, ◌++◌, [], ◌∷◌, Bool, List, Option, none, some, Bytes, ℤ,
  pos, negsuc, to_int, length, take, leb, ◌==◌, if◌then◌else◌,
}
use libncclient.Memory.{
  Heap, M, Outcome, done, threw, fault, pure, raise, undefined, ◌>>=◌, ◌>>◌, find, new_block,
  delete_block,
}

-- Owning.
pub record SizedString : Type 0 where
  pub str : Option ℕ
  pub num : ℤ

-- Non owning.
pub record SizedView : Type 0 where
  pub str : Option Bytes
  pub num : ℤ

-- `{}`.
abbrev pub null_string : SizedString
null_string = record { str = none; num = pos 0 }

-- `{ptr, num}` with nullptr.
abbrev pub null_view : SizedView
null_view = record { str = none; num = pos 0 }

peek : ℕ → Option Bytes → M Bytes
peek zero str = pure []
peek (suc n) none = undefined
peek (suc n) (some s) = if leb (suc n) (length s) then pure (take (suc n) s) else undefined

-- `resize` of a negative number, as a `size_t`, throws.
read_chars : ℤ → Option Bytes → M Bytes
unfolding peek
read_chars (pos n) str = peek n str
read_chars (negsuc n) str = raise

-- What a pointer reaches: nothing for nullptr and for a block that was freed.
reach : Option ℕ → Heap → Option Bytes
unfolding find
reach none h = none
reach (some a) h = find a h.blocks

-- `c_str_sized_to_cpp(sized_view)`.
unfoldable pub view_to_cpp : SizedView → M Bytes
unfolding read_chars
view_to_cpp v = read_chars v.num v.str

-- `c_str_sized_to_cpp(sized_string)`.
unfoldable pub c_str_sized_to_cpp : SizedString → M Bytes
unfolding read_chars reach
c_str_sized_to_cpp s h = read_chars s.num (reach s.str h) h

-- `delete []` of a pointer, unless it is nullptr.
unfoldable pub free_string : Option ℕ → M (Unit {0})
unfolding delete_block
free_string none = pure tt
free_string (some a) = delete_block a

unfoldable pub free_sized_string : SizedString → M (Unit {0})
unfolding free_string
free_sized_string s = free_string s.str

-- `c_str_consume(sized_string)`.
unfoldable pub c_str_consume : SizedString → M Bytes
unfolding c_str_sized_to_cpp free_sized_string
c_str_consume s = elim s.str [
  | none ↦ pure []
  | some a ↦ do ret ← c_str_sized_to_cpp s; free_sized_string s; pure ret
]

-- The `len` chars of `new char[len]()`, with the `len - 1` first of the string copied in.
copy_chars : Bytes → ℤ → M SizedString
unfolding new_block
copy_chars s (negsuc n) = raise
copy_chars s (pos zero) = do p ← new_block []; pure (record { str = some p; num = negsuc 0 })
copy_chars s (pos (suc n)) = do
  p ← new_block (take n s ++ 0 ∷ [])
  pure (record { str = some p; num = pos n })

-- `make_copy(const std::string&)`: `int len = str.size() + 1`.
unfoldable pub make_copy : Bytes → M SizedString
unfolding copy_chars
make_copy s = copy_chars s (to_int (length s + 1))

-- `str.num + 1` as an `int`: undefined for the greatest `int`.
succ_int : ℤ → M ℤ
succ_int (pos n) = if n == 2 ^ 31 - 1 then undefined else pure (pos (suc n))
succ_int (negsuc zero) = pure (pos 0)
succ_int (negsuc (suc n)) = pure (negsuc n)

copy_owned : SizedString → ℤ → M SizedString
unfolding copy_chars read_chars reach
copy_owned s (pos (suc n)) h =
    (do chars ← read_chars (pos n) (reach s.str h); copy_chars chars (pos (suc n))) h
copy_owned s len h = copy_chars [] len h

-- `make_copy(sized_string)`.
unfoldable pub make_copy_owned : SizedString → M SizedString
unfolding copy_owned succ_int
make_copy_owned s = do len ← succ_int s.num; copy_owned s len

-- `make_view(const std::string&)`: `c_str()` ends in a NUL.
unfoldable pub make_view : Bytes → SizedView
make_view s = record { str = some (s ++ 0 ∷ []); num = to_int (length s) }

-- `make_view(sized_string)`.
unfoldable pub make_view_owned : SizedString → M SizedView
unfolding reach
make_view_owned s h = done (record { str = reach s.str h; num = s.num }) h

-- The chars before the first NUL.
to_nul : Bytes → Option Bytes
to_nul [] = none
to_nul (c ∷ s) =
    if c == 0 then some [] else (elim (to_nul s) [ none ↦ none | some t ↦ some (c ∷ t) ])

-- `s.str[0]`.
unfoldable pub char_at_0 : SizedString → M ℕ
unfolding reach
char_at_0 s h = elim (reach s.str h) [
  | none ↦ fault
  | some chars ↦ elim chars [ [] ↦ fault | c ∷ rest ↦ done c h ]
]

-- `make_view_from_raw`, with `strlen`.
unfoldable pub make_view_from_raw : Bytes → M SizedView
unfolding to_nul
make_view_from_raw c = elim (to_nul c) [
  | none ↦ undefined
  | some s ↦ pure (record { str = some c; num = to_int (length s) })
]

-- `c_str_consume(char*)`.
unfoldable pub c_str_consume_raw : Option ℕ → M Bytes
unfolding reach to_nul free_string
c_str_consume_raw none h = done [] h
c_str_consume_raw (some a) h = elim (reach (some a) h) [
  | none ↦ fault
  | some s ↦ elim (to_nul s) [ none ↦ fault | some ret ↦ (do free_string (some a); pure ret) h ]
]

-- `cpp_str_to_c`.
unfoldable pub cpp_str_to_c : Bytes → M (Option ℕ)
unfolding make_copy
cpp_str_to_c s = do copied ← make_copy s; pure copied.str

-- `c_str_to_cpp(const char*)`.
unfoldable pub c_str_to_cpp : Option Bytes → M Bytes
unfolding to_nul
c_str_to_cpp none = pure []
c_str_to_cpp (some s) = elim (to_nul s) [ none ↦ undefined | some ret ↦ pure ret ]

-- `c_str_to_cpp(const char*, int)`: a negative length, as a `size_t`, throws.
unfoldable pub c_str_to_cpp_len : Option Bytes → ℤ → M Bytes
unfolding read_chars
c_str_to_cpp_len none len = pure []
c_str_to_cpp_len (some s) len = read_chars len (some s)
