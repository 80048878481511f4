-- ===== src/ServerApi/Chat/Blocks.antt =====
-- The loops of `sa_destroy_chat_api_info`: each frees the strings of its array, behind those that
-- were copied after them.
use libncclient.Common.{
  ℕ, suc, ◌≤◌, ◌≡◌, refl, sym, ◌∙◌, List, [], ◌∷◌, ◌++◌, Bytes, length, All-append, append_assoc,
  arith, ◌==◌, false,
}
use libncclient.Memory.{Heap, done, delete_block, ◌>>=◌}
use libncclient.Memory.Past.{
  Blocks, Above, Above-Lacks, Above-weaken, delete_block_past, heap_of, delete_two, delete_two_back,
}
use libncclient.Interop.{free_string, free_sized_string}
use libncclient.Interop.Copies.{with_copy}
use libncclient.ServerApi.Chat.{free_each}
use libncclient.ServerApi.Chat.Arrays.{
  after_each, after_msgs, after_tells, msgs_in, channels_in, tells_in, notifs_in,
}

-- The blocks of strings, or of pairs of strings, copied in order from this address on, the newest
-- first.
abbrev pub new_each : ℕ → List Bytes → Blocks
new_each a [] = []
new_each a (s ∷ ss) = new_each (suc a) ss ++ (a, s ++ 0 ∷ []) ∷ []

abbrev pub new_msgs : ℕ → List (Bytes × Bytes) → Blocks
new_msgs a [] = []
new_msgs a ((c, m) ∷ ps) = new_msgs (suc (suc a)) ps ++ (suc a, m ++ 0 ∷ []) ∷ (a, c ++ 0 ∷ []) ∷ []

abbrev pub new_tells : ℕ → List (Bytes × Bytes) → Blocks
new_tells a [] = []
new_tells a ((u, m) ∷ ps) =
    new_tells (suc (suc a)) ps ++ (suc a, u ++ 0 ∷ []) ∷ (a, m ++ 0 ∷ []) ∷ []

pub after_each_blocks :
    (ss : List Bytes) (h : Heap) → (after_each ss h).blocks ≡ new_each h.next ss ++ h.blocks
after_each_blocks [] h = refl
after_each_blocks (s ∷ ss) h =
    after_each_blocks ss (with_copy s h) ∙ sym (append_assoc (new_each (suc h.next) ss) _ h.blocks)

pub after_msgs_blocks :
    (ps : List (Bytes × Bytes)) (h : Heap)
    → (after_msgs ps h).blocks ≡ new_msgs h.next ps ++ h.blocks
after_msgs_blocks [] h = refl
after_msgs_blocks ((c, m) ∷ ps) h =
    after_msgs_blocks ps (with_copy m (with_copy c h))
    ∙ sym (append_assoc (new_msgs (suc (suc h.next)) ps) _ h.blocks)

pub after_tells_blocks :
    (ps : List (Bytes × Bytes)) (h : Heap)
    → (after_tells ps h).blocks ≡ new_tells h.next ps ++ h.blocks
after_tells_blocks [] h = refl
after_tells_blocks ((u, m) ∷ ps) h =
    after_tells_blocks ps (with_copy u (with_copy m h))
    ∙ sym (append_assoc (new_tells (suc (suc h.next)) ps) _ h.blocks)

pub after_each_le : (ss : List Bytes) (h : Heap) → h.next ≤ (after_each ss h).next
after_each_le [] h = omega arith
after_each_le (s ∷ ss) h = omega (arith, after_each_le ss (with_copy s h))

pub after_msgs_le : (ps : List (Bytes × Bytes)) (h : Heap) → h.next ≤ (after_msgs ps h).next
after_msgs_le [] h = omega arith
after_msgs_le ((c, m) ∷ ps) h = omega (arith, after_msgs_le ps (with_copy m (with_copy c h)))

pub after_tells_le : (ps : List (Bytes × Bytes)) (h : Heap) → h.next ≤ (after_tells ps h).next
after_tells_le [] h = omega arith
after_tells_le ((u, m) ∷ ps) h = omega (arith, after_tells_le ps (with_copy u (with_copy m h)))

pub new_each-Above : (a : ℕ) (ss : List Bytes) → Above a (new_each a ss)
new_each-Above a [] = tt
new_each-Above a (s ∷ ss) =
    All-append (λ e. a ≤ e.0) (new_each (suc a) ss) _
      (Above-weaken a (suc a) _ (omega arith) (new_each-Above (suc a) ss)) (omega arith, tt)

pub new_msgs-Above : (a : ℕ) (ps : List (Bytes × Bytes)) → Above a (new_msgs a ps)
new_msgs-Above a [] = tt
new_msgs-Above a ((c, m) ∷ ps) =
    All-append (λ e. a ≤ e.0) (new_msgs (suc (suc a)) ps) _
      (Above-weaken a (suc (suc a)) _ (omega arith) (new_msgs-Above (suc (suc a)) ps))
      (omega arith, (omega arith, tt))

pub new_tells-Above : (a : ℕ) (ps : List (Bytes × Bytes)) → Above a (new_tells a ps)
new_tells-Above a [] = tt
new_tells-Above a ((u, m) ∷ ps) =
    All-append (λ e. a ≤ e.0) (new_tells (suc (suc a)) ps) _
      (Above-weaken a (suc (suc a)) _ (omega arith) (new_tells-Above (suc (suc a)) ps))
      (omega arith, (omega arith, tt))

module _ (next : ℕ) (n base : Blocks) where
  pub free_msgs_lem :
      (ps : List (Bytes × Bytes)) (h : Heap)
      → Above (after_msgs ps h).next n
      → free_each
          (λ e. do _ ← free_sized_string e.channel; free_sized_string e.msg)
          (length ps)
          (msgs_in ps h)
          (heap_of next (n ++ (new_msgs h.next ps ++ base)))
        ≡ done tt (heap_of next (n ++ base))
  unfolding free_each free_sized_string free_string
  free_msgs_lem [] h above = refl
  free_msgs_lem ((c, m) ∷ ps) h above =
      let a = h.next in
      let r = new_msgs (suc (suc a)) ps in
      let far = after_msgs_le ps (with_copy m (with_copy c h)) in
      let newer = new_msgs-Above (suc (suc a)) ps in
      let two =
        delete_two a next n r (c ++ 0 ∷ []) (m ++ 0 ∷ []) base
          (Above-Lacks a _ n (omega (arith, far)) above) (Above-Lacks a _ r (omega arith) newer)
          (Above-Lacks (suc a) _ n (omega (arith, far)) above)
          (Above-Lacks (suc a) _ r (omega arith) newer) in
      ground (arith, two, free_msgs_lem ps (with_copy m (with_copy c h)) above)

  pub free_tells_lem :
      (ps : List (Bytes × Bytes)) (h : Heap)
      → Above (after_tells ps h).next n
      → free_each
          (λ e. do _ ← free_sized_string e.user; free_sized_string e.msg)
          (length ps)
          (tells_in ps h)
          (heap_of next (n ++ (new_tells h.next ps ++ base)))
        ≡ done tt (heap_of next (n ++ base))
  unfolding free_each free_sized_string free_string
  free_tells_lem [] h above = refl
  free_tells_lem ((u, m) ∷ ps) h above =
      let a = h.next in
      let r = new_tells (suc (suc a)) ps in
      let far = after_tells_le ps (with_copy u (with_copy m h)) in
      let newer = new_tells-Above (suc (suc a)) ps in
      let two =
        delete_two_back a next n r (m ++ 0 ∷ []) (u ++ 0 ∷ []) base
          (Above-Lacks a _ n (omega (arith, far)) above) (Above-Lacks a _ r (omega arith) newer)
          (Above-Lacks (suc a) _ n (omega (arith, far)) above)
          (Above-Lacks (suc a) _ r (omega arith) newer) in
      ground (arith, two, free_tells_lem ps (with_copy u (with_copy m h)) above)

  -- One block of a string is freed, behind `n` and those of the strings copied after it.
  delete_one :
      (s : Bytes) (ss : List Bytes) (h : Heap)
      → Above (after_each ss (with_copy s h)).next n
      → delete_block h.next (heap_of next (n ++ (new_each h.next (s ∷ ss) ++ base)))
        ≡ done tt (heap_of next (n ++ (new_each (suc h.next) ss ++ base)))
  delete_one s ss h above =
      let a = h.next in
      let r = new_each (suc a) ss in
      let far = after_each_le ss (with_copy s h) in
      let lacks =
        All-append (λ e. (e.0 == a) ≡ false) n r (Above-Lacks a _ n (omega (arith, far)) above)
          (Above-Lacks a _ r (omega arith) (new_each-Above (suc a) ss)) in
      let first : n ++ ((r ++ (a, s ++ 0 ∷ []) ∷ []) ++ base)
          ≡ (n ++ r) ++ (a, s ++ 0 ∷ []) ∷ base =
        simp append_assoc in
      ground (
        arith,
        delete_block_past a next (n ++ r) (s ++ 0 ∷ []) base _ lacks first,
        append_assoc n r base,
      )

  pub free_channels_lem :
      (ss : List Bytes) (h : Heap)
      → Above (after_each ss h).next n
      → free_each
          (λ e. free_sized_string e.channel)
          (length ss)
          (channels_in ss h)
          (heap_of next (n ++ (new_each h.next ss ++ base)))
        ≡ done tt (heap_of next (n ++ base))
  unfolding free_each free_sized_string free_string
  free_channels_lem [] h above = refl
  free_channels_lem (s ∷ ss) h above =
      ground (arith, delete_one s ss h above, free_channels_lem ss (with_copy s h) above)

  pub free_notifs_lem :
      (ss : List Bytes) (h : Heap)
      → Above (after_each ss h).next n
      → free_each
          (λ e. free_sized_string e.msg)
          (length ss)
          (notifs_in ss h)
          (heap_of next (n ++ (new_each h.next ss ++ base)))
        ≡ done tt (heap_of next (n ++ base))
  unfolding free_each free_sized_string free_string
  free_notifs_lem [] h above = refl
  free_notifs_lem (s ∷ ss) h above =
      ground (arith, delete_one s ss h above, free_notifs_lem ss (with_copy s h) above)
