-- ===== src/ServerApi/Chat/Arrays.antt =====
-- The loops that fill the arrays of a chat info: what they leave in memory, and the entries.
use libncclient.Common.{◌≡◌, refl, Option, none, some, List, [], ◌∷◌, Bytes, All, arith}
use libncclient.Memory.{Array, with_array, new_block, M, Heap, done}
use libncclient.Interop.Copies.{Fits, make_copy_lem, copy_in, with_copy}
use libncclient.ServerApi.Chat.{
  ChatInfo, ChatChannel, TellInfo, NotifInfo, copy_msgs, copy_channels, copy_tells, copy_notifs,
  make_array,
}

abbrev pub FitBoth : Bytes × Bytes → Type 0
FitBoth (a, b) = Fits a × Fits b

-- The memory after the strings were copied in order, and the entries.
abbrev pub after_each : List Bytes → Heap → Heap
after_each [] h = h
after_each (s ∷ ss) h = after_each ss (with_copy s h)

abbrev pub after_msgs : List (Bytes × Bytes) → Heap → Heap
after_msgs [] h = h
after_msgs ((c, m) ∷ ps) h = after_msgs ps (with_copy m (with_copy c h))

abbrev pub after_tells : List (Bytes × Bytes) → Heap → Heap
after_tells [] h = h
after_tells ((u, m) ∷ ps) h = after_tells ps (with_copy u (with_copy m h))

abbrev pub msgs_in : List (Bytes × Bytes) → Heap → List ChatInfo
msgs_in [] h = []
msgs_in ((c, m) ∷ ps) h =
    record { channel = copy_in c h; msg = copy_in m (with_copy c h) }
    ∷ msgs_in ps (with_copy m (with_copy c h))

abbrev pub channels_in : List Bytes → Heap → List ChatChannel
channels_in [] h = []
channels_in (c ∷ cs) h = record { channel = copy_in c h } ∷ channels_in cs (with_copy c h)

abbrev pub tells_in : List (Bytes × Bytes) → Heap → List TellInfo
tells_in [] h = []
tells_in ((u, m) ∷ ps) h =
    record { user = copy_in u (with_copy m h); msg = copy_in m h }
    ∷ tells_in ps (with_copy u (with_copy m h))

abbrev pub notifs_in : List Bytes → Heap → List NotifInfo
notifs_in [] h = []
notifs_in (m ∷ ms) h = record { msg = copy_in m h } ∷ notifs_in ms (with_copy m h)

pub copy_msgs_lem :
    (ps : List (Bytes × Bytes)) (h : Heap)
    → All FitBoth ps
    → copy_msgs ps h ≡ done (msgs_in ps h) (after_msgs ps h)
unfolding copy_msgs
copy_msgs_lem [] h fits = refl
copy_msgs_lem ((c, m) ∷ ps) h ((fc, fm), fits) = ground (
  arith,
  make_copy_lem c h fc,
  make_copy_lem m (with_copy c h) fm,
  copy_msgs_lem ps (with_copy m (with_copy c h)) fits,
)

pub copy_channels_lem :
    (cs : List Bytes) (h : Heap)
    → All Fits cs
    → copy_channels cs h ≡ done (channels_in cs h) (after_each cs h)
unfolding copy_channels
copy_channels_lem [] h fits = refl
copy_channels_lem (c ∷ cs) h (fc, fits) =
    ground (arith, make_copy_lem c h fc, copy_channels_lem cs (with_copy c h) fits)

pub copy_tells_lem :
    (ps : List (Bytes × Bytes)) (h : Heap)
    → All FitBoth ps
    → copy_tells ps h ≡ done (tells_in ps h) (after_tells ps h)
unfolding copy_tells
copy_tells_lem [] h fits = refl
copy_tells_lem ((u, m) ∷ ps) h ((fu, fm), fits) = ground (
  arith,
  make_copy_lem m h fm,
  make_copy_lem u (with_copy m h) fu,
  copy_tells_lem ps (with_copy u (with_copy m h)) fits,
)

pub copy_notifs_lem :
    (ms : List Bytes) (h : Heap)
    → All Fits ms
    → copy_notifs ms h ≡ done (notifs_in ms h) (after_each ms h)
unfolding copy_notifs
copy_notifs_lem [] h fits = refl
copy_notifs_lem (m ∷ ms) h (fm, fits) =
    ground (arith, make_copy_lem m h fm, copy_notifs_lem ms (with_copy m h) fits)

-- An array of entries, or nullptr where there are none, and the memory behind it.
abbrev pub array_in {ℓ κ} :
    {A : Type ℓ} {B : Type κ} → (List B → Heap → List A) → List B → Heap → Option (Array A)
array_in entries [] h = none
array_in entries (x ∷ xs) h =
    some (record { address = h.next; entries = entries (x ∷ xs) (with_array h) })

abbrev pub after_array {κ} : {B : Type κ} → (List B → Heap → Heap) → List B → Heap → Heap
after_array after [] h = h
after_array after (x ∷ xs) h = after (x ∷ xs) (with_array h)

pub make_array_lem {ℓ κ} :
    {A : Type ℓ} {B : Type κ} (copy : List B → M (List A)) (entries : List B → Heap → List A)
    (after : List B → Heap → Heap) (xs : List B) (h : Heap)
    → ((g : Heap) → copy xs g ≡ done (entries xs g) (after xs g))
    → make_array copy xs h ≡ done (array_in entries xs h) (after_array after xs h)
unfolding make_array new_block
make_array_lem copy entries after [] h copies = refl
make_array_lem copy entries after (x ∷ xs) h copies = ground (arith, copies (with_array h))
