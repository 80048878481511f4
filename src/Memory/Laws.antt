-- ===== src/Memory/Laws.antt =====
-- Laws of the memory: what stays allocated, and that an address is freed once.
use libncclient.Common.{
  ℕ, suc, ◌≤◌, ◌<◌, ◌≡◌, refl, List, [], ◌∷◌, none, some, Bytes, arith, ◌==◌, false,
}
use libncclient.Memory.{Heap, done, fault, find, remove, delete_block, extend}

-- Addresses fall along the list and stay below the bound.
abbrev pub Below : ℕ → List (ℕ × Bytes) → Type 0
Below n [] = Unit {0}
Below n ((a, s) ∷ bs) = (a < n) × Below a bs

abbrev pub IsSound : Heap → Type 0
IsSound h = Below h.next h.blocks

pub Below-mono : {m n : ℕ} (bs : List (ℕ × Bytes)) → m ≤ n → Below m bs → Below n bs
Below-mono [] h b = tt
Below-mono ((a, s) ∷ bs) h b = (omega arith, b.1)

pub find_above : (a n : ℕ) (bs : List (ℕ × Bytes)) → Below n bs → n ≤ a → find a bs ≡ none
unfolding find
find_above a n [] b h = refl
find_above a n ((x, s) ∷ bs) b h = ground (arith, find_above a x bs b.1)

pub remove-Below : (a n : ℕ) (bs : List (ℕ × Bytes)) → Below n bs → Below n (remove a bs)
unfolding remove
remove-Below a n [] b = tt
remove-Below a n ((x, s) ∷ bs) b =
    ground (arith, remove-Below a x bs b.1, Below-mono {m = x} {n = n} bs)

pub find-remove : (a n : ℕ) (bs : List (ℕ × Bytes)) → Below n bs → find a (remove a bs) ≡ none
unfolding find remove
find-remove a n [] b = refl
find-remove a n ((x, s) ∷ bs) b = ground (arith, find_above a x bs b.1, find-remove a x bs b.1)

pub extend-IsSound : (s : Bytes) (h : Heap) → IsSound h → IsSound (extend s h)
extend-IsSound s h v = (omega arith, v)

-- The newest block is found.
pub find-extend : (s : Bytes) (h : Heap) → find h.next (extend s h).blocks ≡ some s
unfolding find
find-extend s h = ground arith

pub remove-extend : (s : Bytes) (h : Heap) → remove h.next (extend s h).blocks ≡ h.blocks
unfolding remove
remove-extend s h = ground arith

-- Freeing the newest block gives the memory before it back; its address stays used.
abbrev pub used_address : Heap → Heap
used_address h = record { next = suc h.next; blocks = h.blocks }

pub delete_block-extend :
    (s : Bytes) (h : Heap) → delete_block h.next (extend s h) ≡ done tt (used_address h)
unfolding delete_block
delete_block-extend s h = rw (find-extend s h, delete_block) (rw (remove-extend s h))

-- A block is freed once: the second `delete []` of an address is undefined.
pub delete_block_twice :
    (a : ℕ) (h h' : Heap) → IsSound h → delete_block a h ≡ done tt h' → delete_block a h' ≡ fault
unfolding delete_block
delete_block_twice a h h' v e = ground (arith, find-remove a h.next h.blocks v)

-- The same for the block at the front of a list, whatever the next address is.
pub delete_block_first :
    (a n : ℕ) (s : Bytes) (bs : List (ℕ × Bytes))
    → delete_block a (record { next = n; blocks = (a, s) ∷ bs })
      ≡ done tt (record { next = n; blocks = bs })
unfolding delete_block find remove
delete_block_first a n s bs = ground arith

pub find_second :
    (a b : ℕ) (s t : Bytes) (bs : List (ℕ × Bytes))
    → (b == a) ≡ false
    → find a ((b, t) ∷ (a, s) ∷ bs) ≡ some s
unfolding find
find_second a b s t bs h = ground arith

pub delete_block_second :
    (a b n : ℕ) (s t : Bytes) (bs : List (ℕ × Bytes))
    → (b == a) ≡ false
    → delete_block a (record { next = n; blocks = (b, t) ∷ (a, s) ∷ bs })
      ≡ done tt (record { next = n; blocks = (b, t) ∷ bs })
unfolding delete_block find remove
delete_block_second a b n s t bs h = ground arith
