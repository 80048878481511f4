-- ===== src/ServerApi/Chat/Freed.antt =====
-- `sa_destroy_chat_api_info` frees all that a chat info holds.
use libncclient.Common.{
  pos, ℕ, suc, ◌≤◌, ◌<◌, ◌^◌, ◌≡◌, refl, ap, ◌∙◌, List, [], ◌∷◌, ◌++◌, Bytes, length, All,
  All-append, append_assoc, arith,
}
use libncclient.Memory.{Heap, done, ◌>>=◌}
use libncclient.Memory.Laws.{delete_block_first}
use libncclient.Memory.Past.{Blocks, Above, Above-weaken, delete_block_past, heap_of}
use libncclient.Interop.{free_string, free_sized_string}
use libncclient.Interop.Copies.{Fits, with_copy}
use libncclient.ServerApi.Json.{JsonLib}
use libncclient.ServerApi.Response.{ServerCommandType}
use libncclient.ServerApi.Response.Classify.{info_in}
use libncclient.ServerApi.Chat.{free_array, sa_chat_api_to_info, sa_destroy_chat_api_info}
use libncclient.ServerApi.Chat.Arrays.{
  FitBoth, after_each, after_msgs, after_tells, array_in, after_array, msgs_in, channels_in,
  tells_in, notifs_in,
}
use libncclient.ServerApi.Chat.Deleted.{
  new_array, after_array_blocks, after_array_le, new_array-Above, free_array_lem,
}
use libncclient.ServerApi.Chat.Copied.{chat_in, HasChat, sa_chat_api_to_info_lem}
use libncclient.ServerApi.Chat.Blocks.{
  new_each, new_msgs, new_tells, after_each_blocks, after_msgs_blocks, after_tells_blocks,
  after_each_le, after_tells_le, after_msgs_le, new_each-Above, new_tells-Above, free_msgs_lem,
  free_channels_lem, free_tells_lem, free_notifs_lem,
}

Above-append : (a : ℕ) (l r : Blocks) → Above a l → Above a r → Above a (l ++ r)
Above-append a l r = All-append (λ e. a ≤ e.0) l r

module _ (lib : JsonLib) (channels notifs : List Bytes) (msgs tells : List (Bytes × Bytes))
    (user root : Bytes) (h : Heap) where
  abbrev h1 : Heap
  h1 = after_array after_msgs msgs h

  abbrev h2 : Heap
  h2 = after_array after_each channels h1

  abbrev h3 : Heap
  h3 = after_array after_tells tells h2

  abbrev h4 : Heap
  h4 = after_array after_each notifs h3

  -- The memory where all is copied.
  abbrev full : Heap
  full = with_copy root (with_copy user h4)

  -- What is newer than the notifications, the tells, the channels and the messages.
  abbrev past_notifs : Blocks
  past_notifs = (suc h4.next, root ++ 0 ∷ []) ∷ (h4.next, user ++ 0 ∷ []) ∷ []

  abbrev past_tells : Blocks
  past_tells = past_notifs ++ new_array new_each h3.next notifs

  abbrev past_channels : Blocks
  past_channels = past_tells ++ new_array new_tells h2.next tells

  abbrev past_msgs : Blocks
  past_msgs = past_channels ++ new_array new_each h1.next channels

  full_blocks : full.blocks ≡ past_msgs ++ (new_array new_msgs h.next msgs ++ h.blocks)
  full_blocks =
      ap (◌++◌ past_notifs)
        (after_array_blocks after_each new_each after_each_le notifs h3 (after_each_blocks notifs))
      ∙ ap (λ b. past_notifs ++ (new_array new_each h3.next notifs ++ b))
          (after_array_blocks after_tells new_tells after_tells_le tells h2
            (after_tells_blocks tells))
      ∙ ap
          (λ b.
            past_notifs
            ++ (new_array new_each h3.next notifs ++ (new_array new_tells h2.next tells ++ b)))
          (after_array_blocks after_each new_each after_each_le channels h1
              (after_each_blocks channels)
            ∙ ap (◌++◌ (new_array new_each h1.next channels)) (
                after_array_blocks after_msgs new_msgs after_msgs_le msgs h
                  (after_msgs_blocks msgs)))
      ∙ simp append_assoc

  notifs-Above : Above h4.next past_notifs
  notifs-Above = (omega arith, (omega arith, tt))

  tells-Above : Above h3.next past_tells
  tells-Above =
      Above-append h3.next past_notifs _
        (Above-weaken h3.next h4.next past_notifs
          (after_array_le after_each new_each after_each_le notifs h3) notifs-Above)
        (new_array-Above after_each new_each after_each_le h3.next notifs
          (λ b. new_each-Above b notifs))

  channels-Above : Above h2.next past_channels
  channels-Above =
      Above-append h2.next past_tells _
        (Above-weaken h2.next h3.next past_tells
          (after_array_le after_tells new_tells after_tells_le tells h2) tells-Above)
        (new_array-Above after_tells new_tells after_tells_le h2.next tells
          (λ b. new_tells-Above b tells))

  msgs-Above : Above h1.next past_msgs
  msgs-Above =
      Above-append h1.next past_channels _
        (Above-weaken h1.next h2.next past_channels
          (after_array_le after_each new_each after_each_le channels h1) channels-Above)
        (new_array-Above after_each new_each after_each_le h1.next channels
          (λ b. new_each-Above b channels))

  -- The memory before, with the addresses of the copies used.
  abbrev pub freed_chat : Heap
  freed_chat = heap_of full.next h.blocks

  msgs_gone :
      free_array
        (λ e. do _ ← free_sized_string e.channel; free_sized_string e.msg)
        (pos (length msgs))
        (array_in msgs_in msgs h)
        (heap_of full.next (past_msgs ++ (new_array new_msgs h.next msgs ++ h.blocks)))
      ≡ done tt
          (heap_of full.next (past_channels ++ (new_array new_each h1.next channels ++ h.blocks)))
  msgs_gone =
      free_array_lem after_msgs new_msgs after_msgs_le
        (λ e. do _ ← free_sized_string e.channel; free_sized_string e.msg) msgs_in full.next
        past_msgs h.blocks msgs h msgs-Above
        (λ g older above. free_msgs_lem full.next past_msgs older msgs g above)
      ∙ ap (λ b. done tt (heap_of full.next b))
          (append_assoc past_channels (new_array new_each h1.next channels) h.blocks)

  channels_gone :
      free_array
        (λ e. free_sized_string e.channel)
        (pos (length channels))
        (array_in channels_in channels h1)
        (heap_of full.next (past_channels ++ (new_array new_each h1.next channels ++ h.blocks)))
      ≡ done tt (heap_of full.next (past_tells ++ (new_array new_tells h2.next tells ++ h.blocks)))
  channels_gone =
      free_array_lem after_each new_each after_each_le (λ e. free_sized_string e.channel)
        channels_in full.next past_channels h.blocks channels h1 channels-Above
        (λ g older above. free_channels_lem full.next past_channels older channels g above)
      ∙ ap (λ b. done tt (heap_of full.next b))
          (append_assoc past_tells (new_array new_tells h2.next tells) h.blocks)

  tells_gone :
      free_array
        (λ e. do _ ← free_sized_string e.user; free_sized_string e.msg)
        (pos (length tells))
        (array_in tells_in tells h2)
        (heap_of full.next (past_tells ++ (new_array new_tells h2.next tells ++ h.blocks)))
      ≡ done tt (heap_of full.next (past_notifs ++ (new_array new_each h3.next notifs ++ h.blocks)))
  tells_gone =
      free_array_lem after_tells new_tells after_tells_le
        (λ e. do _ ← free_sized_string e.user; free_sized_string e.msg) tells_in full.next
        past_tells h.blocks tells h2 tells-Above
        (λ g older above. free_tells_lem full.next past_tells older tells g above)
      ∙ ap (λ b. done tt (heap_of full.next b))
          (append_assoc past_notifs (new_array new_each h3.next notifs) h.blocks)

  notifs_gone :
      free_array
        (λ e. free_sized_string e.msg)
        (pos (length notifs))
        (array_in notifs_in notifs h3)
        (heap_of full.next (past_notifs ++ (new_array new_each h3.next notifs ++ h.blocks)))
      ≡ done tt (heap_of full.next (past_notifs ++ h.blocks))
  notifs_gone =
      free_array_lem after_each new_each after_each_le (λ e. free_sized_string e.msg) notifs_in
        full.next past_notifs h.blocks notifs h3 notifs-Above
        (λ g older above. free_notifs_lem full.next past_notifs older notifs g above)

  destroy_chat :
      sa_destroy_chat_api_info (chat_in lib channels notifs msgs tells user root h) full
      ≡ done tt freed_chat
  unfolding sa_destroy_chat_api_info free_sized_string free_string
  destroy_chat = ground (
    arith,
    full_blocks,
    msgs_gone,
    channels_gone,
    tells_gone,
    notifs_gone,
    delete_block_past h4.next full.next ((suc h4.next, root ++ 0 ∷ []) ∷ []) (user ++ 0 ∷ [])
        h.blocks (past_notifs ++ h.blocks) (ground arith, tt) refl,
    delete_block_first (suc h4.next) full.next (root ++ 0 ∷ []) h.blocks,
  )

-- Destroying the info of a chat response frees every string of it, those of the messages, channels,
-- tells and notifications and the two names, and the four arrays. The response's own text alone stays allocated. The text
-- is not empty, the JSON library reads these strings in it (`HasChat`), every string fits (`Fits`),
-- and each list has fewer than 2 ^ 31 entries.
pub sa_destroy_chat_api_info_lem :
    (lib : JsonLib) (t : ServerCommandType) (c : ℕ) (s : Bytes) (channels notifs : List Bytes)
    (msgs tells : List (Bytes × Bytes)) (user root : Bytes) (h : Heap)
    → HasChat lib (c ∷ s) channels notifs msgs tells user root
    → length channels < 2 ^ 31
    → length notifs < 2 ^ 31
    → length msgs < 2 ^ 31
    → length tells < 2 ^ 31
    → All Fits channels
    → All Fits notifs
    → All FitBoth msgs
    → All FitBoth tells
    → Fits user
    → Fits root
    → (sa_chat_api_to_info lib (info_in t (c ∷ s) h) >>= sa_destroy_chat_api_info)
        (with_copy (c ∷ s) h)
      ≡ done tt (freed_chat lib channels notifs msgs tells user root (with_copy (c ∷ s) h))
sa_destroy_chat_api_info_lem lib t c s channels notifs msgs tells user root h p lc ln lm lt fc fn fm
      ft fu fr =
    ground (
      arith,
      sa_chat_api_to_info_lem lib t c s channels notifs msgs tells user root h p lc ln lm lt fc fn
          fm ft fu fr,
      destroy_chat lib channels notifs msgs tells user root (with_copy (c ∷ s) h),
    )
