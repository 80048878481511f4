-- ===== src/ServerApi/Parse/Freed.antt =====
-- `sa_destroy_script_argument_list` frees all that a list of script arguments holds.
use libncclient.Common.{
  ℕ, suc, ◌≤◌, ◌<◌, ◌^◌, ◌≡◌, refl, sym, ◌∙◌, List, [], ◌∷◌, ◌++◌, Bytes, length, All, All-append,
  append_assoc, arith, pos,
}
use libncclient.Memory.{Heap, done, ◌>>=◌}
use libncclient.Memory.Past.{
  Blocks, Above, Above-Lacks, Above-weaken, heap_of, delete_two, delete_block_past,
}
use libncclient.Memory.Laws.{delete_block_first}
use libncclient.Interop.{free_string, free_sized_string}
use libncclient.Interop.Copies.{Fits, copy_in, with_copy}
use libncclient.ServerApi.Json.{JsonLib}
use libncclient.ServerApi.Response.{ServerCommandType}
use libncclient.ServerApi.Response.Classify.{info_in}
use libncclient.ServerApi.Parse.{
  sa_server_scriptargs_to_list, ScriptArgumentList, free_args, sa_destroy_script_argument_list,
}
use libncclient.ServerApi.Parse.Args.{
  with_name, args_array, after_args, args_in, HasArgs, sa_server_scriptargs_to_list_lem,
}

-- The blocks of the pairs, from this address on, the newest first; and the address behind them.
abbrev new_args : ℕ → List Bytes → List Bytes → Blocks
new_args a [] vals = []
new_args a (k ∷ keys) [] = []
new_args a (k ∷ keys) (v ∷ vals) =
    new_args (suc (suc a)) keys vals ++ (suc a, v ++ 0 ∷ []) ∷ (a, k ++ 0 ∷ []) ∷ []

abbrev behind_args : ℕ → List Bytes → List Bytes → ℕ
behind_args a [] vals = a
behind_args a (k ∷ keys) [] = a
behind_args a (k ∷ keys) (v ∷ vals) = behind_args (suc (suc a)) keys vals

behind_args_le : (a : ℕ) (keys vals : List Bytes) → a ≤ behind_args a keys vals
behind_args_le a [] vals = omega arith
behind_args_le a (k ∷ keys) [] = omega arith
behind_args_le a (k ∷ keys) (v ∷ vals) = omega (arith, behind_args_le (suc (suc a)) keys vals)

new_args-Above : (a : ℕ) (keys vals : List Bytes) → Above a (new_args a keys vals)
new_args-Above a [] vals = tt
new_args-Above a (k ∷ keys) [] = tt
new_args-Above a (k ∷ keys) (v ∷ vals) =
    All-append (λ e. a ≤ e.0) (new_args (suc (suc a)) keys vals) _
      (Above-weaken a (suc (suc a)) _ (omega arith) (new_args-Above (suc (suc a)) keys vals))
      (omega arith, (omega arith, tt))

after_args_blocks :
    (keys vals : List Bytes) (h : Heap)
    → (after_args keys vals h).blocks ≡ new_args h.next keys vals ++ h.blocks
after_args_blocks [] vals h = refl
after_args_blocks (k ∷ keys) [] h = refl
after_args_blocks (k ∷ keys) (v ∷ vals) h =
    after_args_blocks keys vals (with_copy v (with_copy k h))
    ∙ sym (append_assoc (new_args (suc (suc h.next)) keys vals) _ h.blocks)

free_args_lem :
    (keys vals : List Bytes) (h : Heap) (next : ℕ) (n base : Blocks)
    → length keys ≡ length vals
    → Above (behind_args h.next keys vals) n
    → free_args
        (length keys)
        (args_in keys vals h)
        (heap_of next (n ++ (new_args h.next keys vals ++ base)))
      ≡ done tt (heap_of next (n ++ base))
unfolding free_args free_sized_string free_string
free_args_lem [] vals h next n base e above = refl
free_args_lem (k ∷ keys) [] h next n base e above = absurd (omega arith)
free_args_lem (k ∷ keys) (v ∷ vals) h next n base e above =
    let a = h.next in
    let r = new_args (suc (suc a)) keys vals in
    let far = behind_args_le (suc (suc a)) keys vals in
    let newer = new_args-Above (suc (suc a)) keys vals in
    let two =
      delete_two a next n r (k ++ 0 ∷ []) (v ++ 0 ∷ []) base
        (Above-Lacks a _ n (omega (arith, far)) above) (Above-Lacks a _ r (omega arith) newer)
        (Above-Lacks (suc a) _ n (omega (arith, far)) above)
        (Above-Lacks (suc a) _ r (omega arith) newer) in
    ground (
      arith,
      two,
      free_args_lem keys vals (with_copy v (with_copy k h)) next n base (omega arith) above,
    )

-- The list of these pairs in the memory where they were copied.
abbrev pub list_in : Bytes → List Bytes → List Bytes → Heap → ScriptArgumentList
list_in name keys vals h = record {
  scriptname = copy_in name h;
  args = args_array name keys vals h;
  num = pos (length keys);
}

-- The memory before, with the addresses of the copies used.
abbrev pub freed_args : Bytes → List Bytes → List Bytes → Heap → Heap
freed_args name keys vals h = record {
  next = (after_args keys vals (with_name name h)).next;
  blocks = h.blocks;
}

destroy_list :
    (name : Bytes) (keys vals : List Bytes) (h : Heap)
    → length keys ≡ length vals
    → sa_destroy_script_argument_list
        (list_in name keys vals h)
        (after_args keys vals (with_name name h))
      ≡ done tt (freed_args name keys vals h)
unfolding sa_destroy_script_argument_list free_sized_string free_string
destroy_list name keys vals h e =
    let next = (after_args keys vals (with_name name h)).next in
    ground (
      arith,
      after_args_blocks keys vals (with_name name h),
      free_args_lem keys vals (with_name name h) next [] (with_name name h).blocks e tt,
      delete_block_past h.next next ((suc h.next, []) ∷ []) (name ++ 0 ∷ []) h.blocks
          ((suc h.next, []) ∷ (h.next, name ++ 0 ∷ []) ∷ h.blocks) (ground arith, tt) refl,
      delete_block_first (suc h.next) next [] h.blocks,
    )

-- Destroying the list of a script argument response frees every string of it, the name, each key
-- and each value, and the array of the pairs. The response's own text alone stays allocated. The text is not empty, the JSON
-- library reads these strings in it (`HasArgs`), as many values as keys, every string fits
-- (`Fits`), and there are fewer than 2 ^ 31 keys.
pub sa_destroy_script_argument_list_lem :
    (lib : JsonLib) (t : ServerCommandType) (c : ℕ) (s name : Bytes) (keys vals : List Bytes)
    (h : Heap)
    → HasArgs lib (c ∷ s) name keys vals
    → length keys ≡ length vals
    → length keys < 2 ^ 31
    → Fits name
    → All Fits keys
    → All Fits vals
    → (sa_server_scriptargs_to_list lib (info_in t (c ∷ s) h) >>= sa_destroy_script_argument_list)
        (with_copy (c ∷ s) h)
      ≡ done tt (freed_args name keys vals (with_copy (c ∷ s) h))
sa_destroy_script_argument_list_lem lib t c s name keys vals h p e few fn fk fv = ground (
  arith,
  sa_server_scriptargs_to_list_lem lib t c s name keys vals h p e few fn fk fv,
  destroy_list name keys vals (with_copy (c ∷ s) h) e,
)
