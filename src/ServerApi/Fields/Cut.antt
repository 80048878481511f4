-- ===== src/ServerApi/Fields/Cut.antt =====
-- The cut at the first space, and the whole life of the two strings.
use native.Mathlib.Numerals.{add-one}
use libncclient.Common.{
  ℕ, suc, ◌+◌, ◌≡◌, refl, false, [], ◌∷◌, ◌++◌, Bytes, length, drop, ◌==◌, All, arith,
  length-append,
}
use libncclient.Memory.{Heap, M, pure, done, ◌>>=◌}
use libncclient.Memory.Laws.{delete_block_first, delete_block_second, find_second}
use libncclient.Interop.{SizedString, c_str_sized_to_cpp, free_sized_string, free_string}
use libncclient.Interop.Copies.{
  Fits, make_copy_lem, copy_in, with_copy, c_str_sized_to_cpp-make_copy, read_block,
}
use libncclient.ServerApi.Response.{ServerCommandType}
use libncclient.ServerApi.Response.Classify.{info_in}
use libncclient.ServerApi.Fields.{
  CommandTaggedInfo, CommandDownInfo, space, to_space, from_index, sa_command_tagged_to_info,
  sa_command_down_to_info, sa_destroy_command_tagged_info, sa_destroy_command_down_info,
}

abbrev pub HasNoSpace : Bytes → Type 0
HasNoSpace = All λ c. (c == space) ≡ false

to_space-cut : (a b : Bytes) → HasNoSpace a → to_space (a ++ space ∷ b) ≡ a
unfolding to_space
to_space-cut [] b h = refl
to_space-cut (c ∷ a) b h = rw (h.0, to_space-cut a b h.1)

to_space_all : (a : Bytes) → HasNoSpace a → to_space a ≡ a
unfolding to_space
to_space_all [] h = refl
to_space_all (c ∷ a) h = rw (h.0, to_space_all a h.1)

drop-cut : (a b : Bytes) → drop (suc (length a)) (a ++ space ∷ b) ≡ b
drop-cut [] b = refl
drop-cut (c ∷ a) b = drop-cut a b

drop_end : (a : Bytes) → drop (suc (length a)) a ≡ []
drop_end [] = refl
drop_end (c ∷ a) = drop_end a

from_index-cut : (a b : Bytes) → from_index (length a + 1) (a ++ space ∷ b) ≡ b
unfolding from_index
from_index-cut a b = rw (add-one (length a)) (drop-cut a b)

from_index_end : (a : Bytes) → from_index (length a + 1) a ≡ []
unfolding from_index
from_index_end a = rw (add-one (length a)) (drop_end a)

-- The memory after a response was read and its two parts were copied.
abbrev pub with_parts : Bytes → Bytes → Bytes → Heap → Heap
with_parts text a b h = with_copy b (with_copy a (with_copy text h))

abbrev pub first_part : Bytes → Bytes → Heap → SizedString
first_part text a h = copy_in a (with_copy text h)

abbrev pub second_part : Bytes → Bytes → Bytes → Heap → SizedString
second_part text a b h = copy_in b (with_copy a (with_copy text h))

-- Both functions, on a text that is read from `text`, give these parts.
abbrev pub Gives : ServerCommandType → Bytes → Bytes → Bytes → Heap → Type 0
Gives t text a b h =
    (sa_command_tagged_to_info (info_in t text h) (with_copy text h)
      ≡ done (record { tag = first_part text a h; val = second_part text a b h })
          (with_parts text a b h))
    × (sa_command_down_to_info (info_in t text h) (with_copy text h)
        ≡ done (record { full_name = first_part text a h; script_data = second_part text a b h })
            (with_parts text a b h))

Gives-parts :
    (t : ServerCommandType) (c : ℕ) (s a b : Bytes) (h : Heap)
    → to_space (c ∷ s) ≡ a
    → from_index (length a + 1) (c ∷ s) ≡ b
    → Fits a
    → Fits b
    → Gives t (c ∷ s) a b h
unfolding sa_command_tagged_to_info sa_command_down_to_info
Gives-parts t c s a b h ea eb fa fb =
    let text = c ∷ s in
    let read = c_str_sized_to_cpp-make_copy text h in
    let copy_a = make_copy_lem a (with_copy text h) fa in
    let copy_b = make_copy_lem b (with_copy a (with_copy text h)) fb in
    (ground (arith, read, copy_a, copy_b), ground (arith, read, copy_a, copy_b))

-- A text with a space is cut at its first one: the part before it and all behind it, which may
-- hold more spaces. A text without a space is the first part, and the second is empty. Both
-- functions allocate the two parts and nothing else. The texts fit (`Fits`), and the second one is
-- not empty.
pub fields-cut :
    (t : ServerCommandType) (a b : Bytes) (c : ℕ) (s : Bytes) (h : Heap)
    → HasNoSpace a
    → Fits (a ++ space ∷ b)
    → HasNoSpace (c ∷ s)
    → Fits (c ∷ s)
    → Gives t (a ++ space ∷ b) a b h × Gives t (c ∷ s) (c ∷ s) [] h
fields-cut t [] b c s h ha fits hs fits_s = (
  Gives-parts t space b [] b h (to_space-cut [] b tt) (from_index-cut [] b) (omega arith)
      (omega arith),
  Gives-parts t c s (c ∷ s) [] h (to_space_all (c ∷ s) hs) (from_index_end (c ∷ s)) fits_s
      (omega arith),
)
fields-cut t (x ∷ a) b c s h ha fits hs fits_s = (
  Gives-parts t x (a ++ space ∷ b) (x ∷ a) b h (to_space-cut (x ∷ a) b ha)
      (from_index-cut (x ∷ a) b) (omega (arith, length-append a (space ∷ b)))
      (omega (arith, length-append a (space ∷ b))),
  Gives-parts t c s (c ∷ s) [] h (to_space_all (c ∷ s) hs) (from_index_end (c ∷ s)) fits_s
      (omega arith),
)

-- The memory in which the response's own text alone is left, with the addresses of the parts used.
abbrev pub text_left : Bytes → Heap → Heap
text_left text h = record { next = suc (suc (suc h.next)); blocks = (with_copy text h).blocks }

-- Read both parts and destroy them.
unfoldable pub consume_tagged : CommandTaggedInfo → M (Bytes × Bytes)
consume_tagged info = do
  tag ← c_str_sized_to_cpp info.tag
  val ← c_str_sized_to_cpp info.val
  _ ← sa_destroy_command_tagged_info info
  pure (tag, val)

unfoldable pub consume_down : CommandDownInfo → M (Bytes × Bytes)
consume_down info = do
  full_name ← c_str_sized_to_cpp info.full_name
  script_data ← c_str_sized_to_cpp info.script_data
  _ ← sa_destroy_command_down_info info
  pure (full_name, script_data)

module _ (text a b : Bytes) (h : Heap) where
  other : (suc (suc h.next) == suc h.next) ≡ false
  other = ground arith

  read_first :
      c_str_sized_to_cpp (first_part text a h) (with_parts text a b h)
      ≡ done a (with_parts text a b h)
  read_first = read_block (suc h.next) a (with_parts text a b h) (
      find_second (suc h.next) (suc (suc h.next)) (a ++ 0 ∷ []) (b ++ 0 ∷ [])
        (with_copy text h).blocks other)

  read_second :
      c_str_sized_to_cpp (second_part text a b h) (with_parts text a b h)
      ≡ done b (with_parts text a b h)
  read_second = c_str_sized_to_cpp-make_copy b (with_copy a (with_copy text h))

  -- The memory without the first part.
  abbrev without_first : Heap
  without_first = record {
    next = suc (suc (suc h.next));
    blocks = (suc (suc h.next), b ++ 0 ∷ []) ∷ (with_copy text h).blocks;
  }

  free_first :
      free_sized_string (first_part text a h) (with_parts text a b h) ≡ done tt without_first
  unfolding free_sized_string free_string
  free_first =
      delete_block_second (suc h.next) (suc (suc h.next)) (suc (suc (suc h.next))) (a ++ 0 ∷ [])
        (b ++ 0 ∷ []) (with_copy text h).blocks other

  free_second :
      free_sized_string (second_part text a b h) without_first ≡ done tt (text_left text h)
  unfolding free_sized_string free_string
  free_second =
      delete_block_first (suc (suc h.next)) (suc (suc (suc h.next))) (b ++ 0 ∷ [])
        (with_copy text h).blocks

  -- The two parts read as the strings that were cut, and destroying the info frees both.
  pub consume-parts :
      (consume_tagged
          (record { tag = first_part text a h; val = second_part text a b h })
          (with_parts text a b h)
        ≡ done (a, b) (text_left text h))
      × (consume_down
            (record { full_name = first_part text a h; script_data = second_part text a b h })
            (with_parts text a b h)
          ≡ done (a, b) (text_left text h))
  unfolding consume_tagged consume_down sa_destroy_command_tagged_info sa_destroy_command_down_info
  consume-parts = (
    ground (arith, read_first, read_second, free_first, free_second),
    ground (arith, read_first, read_second, free_first, free_second),
  )
