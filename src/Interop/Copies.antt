-- ===== src/Interop/Copies.antt =====
-- Copies and views of strings: what they show, and what stays allocated.
use libncclient.Common.{
  ℕ, suc, ◌+◌, ◌^◌, ◌≤◌, ◌<◌, ◌≡◌, refl, [], ◌∷◌, ◌++◌, some, Bytes, arith, pos, to_int-of_lt,
  to_int_of_ge, length, take-append, take-length, length-append, le→leb,
}
use native.Mathlib.Numerals.{add-one}
use libncclient.Memory.{Heap, done, threw, extend, find, new_block, ◌>>=◌}
use libncclient.Memory.Laws.{find-extend, used_address, delete_block-extend}
use libncclient.Interop.{
  SizedString, SizedView, peek, read_chars, view_to_cpp, c_str_sized_to_cpp, c_str_consume,
  free_string, free_sized_string, copy_chars, make_copy, make_view, reach, make_view_owned,
  char_at_0,
}

-- The `int` arithmetic of `make_copy` does not overflow.
abbrev pub Fits : Bytes → Type 0
Fits s = length s + 1 < 2 ^ 31

-- The view reads as this string, in any memory.
abbrev pub Shows : SizedView → Bytes → Type 0
Shows v s = (h : Heap) → view_to_cpp v h ≡ done s h

-- The memory after a copy was made, and the copy.
abbrev pub with_copy : Bytes → Heap → Heap
with_copy s h = extend (s ++ 0 ∷ []) h

abbrev pub copy_in : Bytes → Heap → SizedString
copy_in s h = record { str = some h.next; num = pos (length s) }

peek_all : (s t : Bytes) (h : Heap) → peek (length s) (some (s ++ t)) h ≡ done s h
unfolding peek
peek_all [] t h = refl
peek_all (c ∷ s) t h =
    rw (le→leb (suc (length s)) (suc (length (s ++ t))) (omega (arith, length-append s t)))
      (rw (take-append s t))

copy_chars_all :
    (s : Bytes) (h : Heap)
    → copy_chars s (pos (suc (length s))) h ≡ done (copy_in s h) (with_copy s h)
unfolding copy_chars new_block
copy_chars_all s h = rw (take-length s)

-- A string that fits is copied into a new block, with a NUL behind it.
pub make_copy_lem :
    (s : Bytes) (h : Heap) → Fits s → make_copy s h ≡ done (copy_in s h) (with_copy s h)
unfolding make_copy
make_copy_lem s h fits =
    rw (to_int-of_lt (length s + 1) fits, add-one (length s)) (copy_chars_all s h)

-- The view of a `std::string` shows it.
pub make_view-Shows : (s : Bytes) → Fits s → Shows (make_view s) s
unfolding make_view view_to_cpp read_chars
make_view-Shows s fits h = rw (to_int-of_lt (length s) (omega arith)) (peek_all s (0 ∷ []) h)

-- The copy reads as the string.
pub c_str_sized_to_cpp-make_copy :
    (s : Bytes) (h : Heap)
    → c_str_sized_to_cpp (copy_in s h) (with_copy s h) ≡ done s (with_copy s h)
unfolding c_str_sized_to_cpp read_chars reach
c_str_sized_to_cpp-make_copy s h =
    rw (find-extend (s ++ 0 ∷ []) h) (peek_all s (0 ∷ []) (with_copy s h))

-- The first char of a copy that is not empty.
pub char_at_0-make_copy :
    (c : ℕ) (s : Bytes) (h : Heap)
    → char_at_0 (copy_in (c ∷ s) h) (with_copy (c ∷ s) h) ≡ done c (with_copy (c ∷ s) h)
unfolding char_at_0 reach
char_at_0-make_copy c s h = ground (arith, find-extend ((c ∷ s) ++ 0 ∷ []) h)

pub free_sized_string-make_copy :
    (s : Bytes) (h : Heap)
    → free_sized_string (copy_in s h) (with_copy s h) ≡ done tt (used_address h)
unfolding free_sized_string free_string
free_sized_string-make_copy s h = delete_block-extend (s ++ 0 ∷ []) h

pub consume_copy :
    (s : Bytes) (h : Heap) → c_str_consume (copy_in s h) (with_copy s h) ≡ done s (used_address h)
unfolding c_str_consume
consume_copy s h = ground (arith, c_str_sized_to_cpp-make_copy s h, free_sized_string-make_copy s h)

-- Copying a string and consuming the copy gives the string, and leaves nothing allocated. The
-- string fits (`Fits`).
pub c_str_consume-make_copy :
    (s : Bytes) (h : Heap) → Fits s → (make_copy s >>= c_str_consume) h ≡ done s (used_address h)
c_str_consume-make_copy s h fits = rw (make_copy_lem s h fits, ◌>>=◌) (consume_copy s h)

-- A string is read through its address wherever its block stands.
pub read_block :
    (a : ℕ) (s : Bytes) (h : Heap)
    → find a h.blocks ≡ some (s ++ 0 ∷ [])
    → c_str_sized_to_cpp (record { str = some a; num = pos (length s) }) h ≡ done s h
unfolding c_str_sized_to_cpp read_chars reach
read_block a s h e = rw e (peek_all s (0 ∷ []) h)

-- The view of a copy.
abbrev pub view_of_copy : Bytes → SizedView
view_of_copy s = record { str = some (s ++ 0 ∷ []); num = pos (length s) }

pub make_view_owned_lem :
    (s : Bytes) (h : Heap)
    → make_view_owned (copy_in s h) (with_copy s h) ≡ done (view_of_copy s) (with_copy s h)
unfolding make_view_owned reach
make_view_owned_lem s h = rw (find-extend (s ++ 0 ∷ []) h)

pub view_of_copy-Shows : (s : Bytes) → Shows (view_of_copy s) s
unfolding view_to_cpp read_chars
view_of_copy-Shows s h = peek_all s (0 ∷ []) h

-- Where the `int` of the length plus one is negative, the copy throws and allocates nothing.
pub make_copy_overflow :
    (s : Bytes) (h : Heap) → 2 ^ 31 ≤ length s + 1 → length s + 1 < 2 ^ 32 → make_copy s h ≡ threw h
unfolding make_copy copy_chars
make_copy_overflow s h low high = rw (to_int_of_ge (length s + 1) low high, copy_chars)
