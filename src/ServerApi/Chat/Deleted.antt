-- ===== src/ServerApi/Chat/Deleted.antt =====
-- `free_array` of c_server_api.cpp's `sa_destroy_chat_api_info`: the strings of an array are freed,
-- and then the array, behind the blocks that are newer.
use libncclient.Common.{
  ℕ, suc, ◌≤◌, ◌≡◌, refl, sym, ◌∙◌, List, [], ◌∷◌, ◌++◌, length, All-append, append_assoc, arith,
  pos,
}
use libncclient.Memory.{Heap, M, done, with_array}
use libncclient.Memory.Past.{Blocks, Above, Above-Lacks, Above-weaken, delete_block_past, heap_of}
use libncclient.ServerApi.Chat.{free_each, free_array}
use libncclient.ServerApi.Chat.Arrays.{array_in, after_array}

-- The blocks of an array, with those of its strings, which are newer.
abbrev pub new_array : {B : Type 0} → (ℕ → List B → Blocks) → ℕ → List B → Blocks
new_array new a [] = []
new_array new a (x ∷ xs) = new (suc a) (x ∷ xs) ++ (a, []) ∷ []

module _ {B : Type 0} (after : List B → Heap → Heap) (new : ℕ → List B → Blocks)
    (le : (xs : List B) (h : Heap) → h.next ≤ (after xs h).next) where
  pub after_array_blocks :
      (xs : List B) (h : Heap)
      → ((g : Heap) → (after xs g).blocks ≡ new g.next xs ++ g.blocks)
      → (after_array after xs h).blocks ≡ new_array new h.next xs ++ h.blocks
  after_array_blocks [] h blocks = refl
  after_array_blocks (x ∷ xs) h blocks =
      blocks (with_array h) ∙ sym (append_assoc (new (suc h.next) (x ∷ xs)) _ h.blocks)

  pub after_array_le : (xs : List B) (h : Heap) → h.next ≤ (after_array after xs h).next
  after_array_le [] h = omega arith
  after_array_le (x ∷ xs) h = omega (arith, le (x ∷ xs) (with_array h))

  pub new_array-Above :
      (a : ℕ) (xs : List B) → ((b : ℕ) → Above b (new b xs)) → Above a (new_array new a xs)
  new_array-Above a [] above = tt
  new_array-Above a (x ∷ xs) above =
      All-append (λ e. a ≤ e.0) (new (suc a) (x ∷ xs)) _
        (Above-weaken a (suc a) _ (omega arith) (above (suc a))) (omega arith, tt)

  pub free_array_lem :
      {A : Type 0} (free : A → M (Unit {0})) (entries : List B → Heap → List A) (next : ℕ)
      (n base : Blocks) (xs : List B) (h : Heap)
      → Above (after_array after xs h).next n
      → ((g : Heap) (older : Blocks)
          → Above (after xs g).next n
          → free_each free (length xs) (entries xs g) (heap_of next (n ++ (new g.next xs ++ older)))
            ≡ done tt (heap_of next (n ++ older)))
      → free_array free
          (pos (length xs))
          (array_in entries xs h)
          (heap_of next (n ++ (new_array new h.next xs ++ base)))
        ≡ done tt (heap_of next (n ++ base))
  unfolding free_array
  free_array_lem free entries next n base [] h above frees = refl
  free_array_lem free entries next n base (x ∷ xs) h above frees =
      let a = h.next in
      let far = le (x ∷ xs) (with_array h) in
      let older = (a, []) ∷ base in
      ground (
        arith,
        append_assoc (new (suc a) (x ∷ xs)) ((a, []) ∷ []) base,
        frees (with_array h) older above,
        delete_block_past a next n [] base (n ++ older)
            (Above-Lacks a _ n (omega (arith, far)) above) refl,
      )
