-- ===== src/Tests/Strings.antt =====
-- Tests of Memory, Interop and Util.
use libncclient.Common.{◌≡◌, ◌↔◌, refl, true, [], ◌∷◌, some, codes}
use libncclient.Memory.{Heap, done, extend, delete_block}
use libncclient.Memory.Laws.{used_address}
use libncclient.Util.Prefix.{starts_with}
use libncclient.Util.Strip.{strip_whitespace}
use libncclient.Util.Split.{no_ss_split, find}
use libncclient.Util.Split.Words.{words, no_ss_split-words}
use libncclient.Util.Name.{is_valid_string, is_valid_full_name_string}
use libncclient.Util.Name.Full.{FullName, is_valid_full_name_string_iff}

abbrev empty_heap : Heap
empty_heap = record { next = 1; blocks = [] }

abbrev one_block : Heap
one_block = extend (codes "a") empty_heap

freed : delete_block 1 one_block ≡ done tt (used_address empty_heap)
unfolding delete_block
freed = refl

stripped : strip_whitespace (codes " a b  ") ≡ codes "a b"
unfolding strip_whitespace
stripped = refl

split_names : no_ss_split (codes "..a.bc.") (codes ".") ≡ some (codes "a" ∷ codes "bc" ∷ [])
unfolding no_ss_split find starts_with
split_names = refl

split_long :
    no_ss_split (codes "a, b, , c") (codes ", ") ≡ some (codes "a" ∷ codes "b" ∷ codes "c" ∷ [])
unfolding no_ss_split find starts_with
split_long = refl

no_ss_split-words_example :
    no_ss_split (codes "..a.bc.") (codes ".") ≡ some (words b'.' (codes "..a.bc."))
no_ss_split-words_example = no_ss_split-words (codes "..a.bc.") b'.'

abbrev scripts_core : FullName (codes "scripts.Core")
unfolding is_valid_string
scripts_core = record {
  host = codes "scripts";
  name = codes "Core";
  cut = refl;
  host_valid = refl;
  name_valid = refl;
}

is_valid_full_name_string_iff_example :
    (is_valid_full_name_string (codes "scripts.Core") ≡ true) ↔ FullName (codes "scripts.Core")
is_valid_full_name_string_iff_example = is_valid_full_name_string_iff (codes "scripts.Core")
