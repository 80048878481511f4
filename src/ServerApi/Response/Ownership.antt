-- ===== src/ServerApi/Response/Ownership.antt =====
-- Who frees the text of a response.
use libncclient.Common.{
  ℕ, suc, ◌≡◌, refl, [], ◌∷◌, ◌++◌, some, Bytes, length, get_elem?, ◌==◌, if◌then◌else◌, arith,
  length-append,
}
use libncclient.Memory.{Heap, M, pure, done, ◌>>=◌}
use libncclient.Memory.Laws.{used_address, delete_block_first}
use libncclient.Interop.{make_view, free_sized_string, free_string, c_str_consume}
use libncclient.Interop.Copies.{
  Fits, make_copy_lem, copy_in, with_copy, free_sized_string-make_copy,
  c_str_sized_to_cpp-make_copy, consume_copy,
}
use libncclient.ServerApi.Response.Classify.{info_in, response-entry}
use libncclient.ServerApi.Response.{
  ServerCommandType, table, sa_server_response_to_info, sa_command_to_human_readable,
  sa_destroy_server_command_info,
}

-- The text of a response is freed unless it is empty: then its one byte stays allocated.
pub sa_destroy_server_command_info_lem :
    (t : ServerCommandType) (s : Bytes) (h : Heap)
    → sa_destroy_server_command_info (info_in t s h) (with_copy s h)
      ≡ done tt (if length s == 0 then with_copy s h else used_address h)
unfolding sa_destroy_server_command_info
sa_destroy_server_command_info_lem t [] h = refl
sa_destroy_server_command_info_lem t (c ∷ s) h =
    ground (arith, free_sized_string-make_copy (c ∷ s) h)

-- The whole use of a response that the README shows.
unfoldable pub read_response : Bytes → M Bytes
read_response text = do
  info ← sa_server_response_to_info (make_view text)
  shown ← sa_command_to_human_readable info
  str ← c_str_consume shown
  _ ← sa_destroy_server_command_info info
  pure str

-- The memory before, with two more addresses used.
abbrev pub used_twice : Heap → Heap
used_twice h = record { next = suc (suc h.next); blocks = h.blocks }

human_readable :
    (t : ServerCommandType) (c : ℕ) (s : Bytes) (h : Heap)
    → Fits (c ∷ s)
    → sa_command_to_human_readable (info_in t (c ∷ s) h) (with_copy (c ∷ s) h)
      ≡ done (copy_in (c ∷ s) (with_copy (c ∷ s) h)) (with_copy (c ∷ s) (with_copy (c ∷ s) h))
unfolding sa_command_to_human_readable
human_readable t c s h fits = ground (
  arith,
  c_str_sized_to_cpp-make_copy (c ∷ s) h,
  make_copy_lem (c ∷ s) (with_copy (c ∷ s) h) fits,
)

destroy_later :
    (t : ServerCommandType) (c : ℕ) (s : Bytes) (h : Heap)
    → sa_destroy_server_command_info (info_in t (c ∷ s) h) (used_address (with_copy (c ∷ s) h))
      ≡ done tt (used_twice h)
unfolding sa_destroy_server_command_info free_sized_string free_string
destroy_later t c s h =
    ground (arith, delete_block_first h.next (suc (suc h.next)) ((c ∷ s) ++ 0 ∷ []) h.blocks)

-- A response that is not empty behind its prefix is read back byte for byte, and when its info is
-- destroyed no memory of it stays allocated. The whole response fits (`Fits`).
pub read_response_lem :
    (i : ℕ) (t : ServerCommandType) (p : Bytes) (c : ℕ) (s : Bytes) (h : Heap)
    → get_elem? table i ≡ some (t, p)
    → Fits (p ++ c ∷ s)
    → read_response (p ++ c ∷ s) h ≡ done (c ∷ s) (used_twice h)
unfolding read_response
read_response_lem i t p c s h e fits =
    let small : Fits (c ∷ s) = omega (arith, length-append p (c ∷ s)) in
    ground (
      arith,
      response-entry i t p (c ∷ s) h e fits,
      human_readable t c s h small,
      consume_copy (c ∷ s) (with_copy (c ∷ s) h),
      destroy_later t c s h,
    )
