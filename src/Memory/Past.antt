-- ===== src/Memory/Past.antt =====
-- Blocks that are freed behind newer ones.
use libncclient.Common.{
  ℕ, suc, ◌≤◌, ◌<◌, ◌≡◌, refl, false, List, [], ◌∷◌, ◌++◌, some, Bytes, All, All-append,
  append_assoc, arith, ◌==◌,
}
use libncclient.Memory.{Heap, done, find, remove, delete_block, ◌>>=◌}

abbrev pub Blocks : Type 0
Blocks = List (ℕ × Bytes)

-- No block of the list is at the address, and all are from the address on.
abbrev pub Lacks : ℕ → Blocks → Type 0
Lacks a = All λ e. (e.0 == a) ≡ false

abbrev pub Above : ℕ → Blocks → Type 0
Above a = All λ e. a ≤ e.0

pub Above-Lacks : (a b : ℕ) (l : Blocks) → a < b → Above b l → Lacks a l
Above-Lacks a b [] lt above = tt
Above-Lacks a b ((c, s) ∷ l) lt (here, above) = (ground arith, Above-Lacks a b l lt above)

pub Above-weaken : (a b : ℕ) (l : Blocks) → a ≤ b → Above b l → Above a l
Above-weaken a b [] le above = tt
Above-weaken a b ((c, s) ∷ l) le (here, above) = (omega arith, Above-weaken a b l le above)

pub find_past :
    (a : ℕ) (l : Blocks) (s : Bytes) (b : Blocks) → Lacks a l → find a (l ++ (a, s) ∷ b) ≡ some s
unfolding find
find_past a [] s b lacks = ground arith
find_past a ((c, r) ∷ l) s b (here, lacks) = ground (arith, find_past a l s b lacks)

pub remove_past :
    (a : ℕ) (l : Blocks) (s : Bytes) (b : Blocks) → Lacks a l → remove a (l ++ (a, s) ∷ b) ≡ l ++ b
unfolding remove
remove_past a [] s b lacks = ground arith
remove_past a ((c, r) ∷ l) s b (here, lacks) = ground (arith, remove_past a l s b lacks)

-- A block is freed behind blocks at other addresses.
pub delete_block_past :
    (a next : ℕ) (l : Blocks) (s : Bytes) (b blocks : Blocks)
    → Lacks a l
    → blocks ≡ l ++ (a, s) ∷ b
    → delete_block a (record { next = next; blocks = blocks })
      ≡ done tt (record { next = next; blocks = l ++ b })
unfolding delete_block
delete_block_past a next l s b blocks lacks e =
    ground (arith, e, find_past a l s b lacks, remove_past a l s b lacks)

abbrev pub heap_of : ℕ → Blocks → Heap
heap_of next blocks = record { next = next; blocks = blocks }

-- Two blocks are freed, the older one first, between newer blocks and older ones.
pub delete_two :
    (a next : ℕ) (n r : Blocks) (k v : Bytes) (base : Blocks)
    → Lacks a n
    → Lacks a r
    → Lacks (suc a) n
    → Lacks (suc a) r
    → (delete_block a >>= λ u. delete_block (suc a))
        (heap_of next (n ++ ((r ++ (suc a, v) ∷ (a, k) ∷ []) ++ base)))
      ≡ done tt (heap_of next (n ++ (r ++ base)))
delete_two a next n r k v base na ra nb rb =
    let l = n ++ r in
    let old = (suc a, v) ∷ [] in
    let lacks_a : Lacks a l = All-append (λ e. (e.0 == a) ≡ false) n r na ra in
    let lacks_b : Lacks (suc a) l = All-append (λ e. (e.0 == suc a) ≡ false) n r nb rb in
    let first : n ++ ((r ++ (suc a, v) ∷ (a, k) ∷ []) ++ base) ≡ (l ++ old) ++ (a, k) ∷ base =
      simp append_assoc in
    ground (
      arith,
      delete_block_past a next (l ++ old) k base _
          (All-append (λ e. (e.0 == a) ≡ false) l old lacks_a (ground arith, tt)) first,
      delete_block_past (suc a) next l v base _ lacks_b (append_assoc l old base),
      append_assoc n r base,
    )

-- Two blocks are freed, the newer one first.
pub delete_two_back :
    (a next : ℕ) (n r : Blocks) (k v : Bytes) (base : Blocks)
    → Lacks a n
    → Lacks a r
    → Lacks (suc a) n
    → Lacks (suc a) r
    → (delete_block (suc a) >>= λ u. delete_block a)
        (heap_of next (n ++ ((r ++ (suc a, v) ∷ (a, k) ∷ []) ++ base)))
      ≡ done tt (heap_of next (n ++ (r ++ base)))
delete_two_back a next n r k v base na ra nb rb =
    let l = n ++ r in
    let lacks_a : Lacks a l = All-append (λ e. (e.0 == a) ≡ false) n r na ra in
    let lacks_b : Lacks (suc a) l = All-append (λ e. (e.0 == suc a) ≡ false) n r nb rb in
    let first : n ++ ((r ++ (suc a, v) ∷ (a, k) ∷ []) ++ base) ≡ l ++ (suc a, v) ∷ (a, k) ∷ base =
      simp append_assoc in
    ground (
      arith,
      delete_block_past (suc a) next l v ((a, k) ∷ base) _ lacks_b first,
      delete_block_past a next l k base _ lacks_a refl,
      append_assoc n r base,
    )
