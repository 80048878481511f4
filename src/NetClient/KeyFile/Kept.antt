-- ===== src/NetClient/KeyFile/Kept.antt =====
-- The key file: written once, never overwritten, and read back at the next start.
use libncclient.Common.{
  ap, ℕ, take, sym, subst, ◌≡◌, refl, ◌∙◌, false, ◌++◌, none, some, Bytes, bytes_eq_self, arith,
}
use libncclient.Memory.{Heap, M, done, threw, fault, ◌>>=◌}
use libncclient.Memory.Laws.{used_address}
use libncclient.Interop.{make_view}
use libncclient.Interop.Copies.{
  Fits, make_view-Shows, make_copy_lem, copy_in, with_copy, consume_copy,
}
use libncclient.SharedData.{
  SharedData, add_back_read, sd_get_key_file_name, sd_set_auth, sd_add_back_read,
}
use libncclient.SharedData.Interface.{sd_set_auth_lem, sd_add_back_read_lem}
use libncclient.Util.Prefix.{starts_with}
use libncclient.Util.Files.{Files, OutStream, stores, write_all_bin}
use libncclient.NetClient.KeyFile.{
  auth_str, welcome, already_registered, take_key, check_auth, load_key_file,
}

set_auth-view :
    (d : SharedData) (s : Bytes) (h : Heap)
    → Fits s
    → sd_set_auth d (make_view s) h ≡ done (record d { auth = s }) h
set_auth-view d s h fits =
    sd_set_auth_lem d (make_view s) s h (make_view-Shows s fits) ∙ unfold make_view in refl

add_read-view :
    (d : SharedData) (s : Bytes) (h : Heap)
    → Fits s
    → sd_add_back_read d (make_view s) h ≡ done (add_back_read s d) h
add_read-view d s h fits =
    sd_add_back_read_lem d (make_view s) s h (make_view-Shows s fits) ∙ unfold make_view in refl

key_file_copy :
    (d : SharedData) (h : Heap)
    → Fits d.key_file
    → sd_get_key_file_name d h ≡ done (copy_in d.key_file h) (with_copy d.key_file h)
unfolding sd_get_key_file_name
key_file_copy d h fits = make_copy_lem d.key_file h fits

check_auth-key :
    (send_auth : SharedData → M SharedData) (out : OutStream) (files : Files) (d : SharedData)
    (key : Bytes) (h : Heap)
    → check_auth send_auth out files d (auth_str ++ key) h ≡ take_key send_auth out files d key h
unfolding check_auth
check_auth-key send_auth out files d key h = ground arith

-- A new key is given to the stream for the key file, kept as the auth data and announced as a
-- success, whatever becomes of the stream: it may not open, and then no file changes, or store a
-- part of the key. The key file does not exist before, and its name and the key fit (`Fits`).
pub check_auth_new :
    (send_auth : SharedData → M SharedData) (out : OutStream) (files : Files) (d : SharedData)
    (key : Bytes) (h : Heap)
    → files d.key_file ≡ none
    → Fits key
    → Fits d.key_file
    → check_auth send_auth out files d (auth_str ++ key) h
      ≡ done
          (write_all_bin out d.key_file key files, add_back_read welcome (record d { auth = key }))
          (used_address h)
unfolding take_key welcome
check_auth_new send_auth out files d key h missing fits fits_name = ground (
  arith,
  check_auth-key send_auth out files d key h,
  key_file_copy d h fits_name,
  consume_copy d.key_file h,
  set_auth-view d key (used_address h) fits,
  add_read-view (record d { auth = key }) welcome (used_address h) (omega arith),
)

-- Where a key file exists no file changes: the user is told so, and the auth data is sent again.
-- The file's name fits (`Fits`), and sending the auth data gives a result.
pub check_auth_old :
    (send_auth : SharedData → M SharedData) (out : OutStream) (files : Files) (d g : SharedData)
    (key old : Bytes) (h h' : Heap)
    → files d.key_file ≡ some old
    → Fits d.key_file
    → send_auth (add_back_read already_registered d) (used_address h) ≡ done g h'
    → check_auth send_auth out files d (auth_str ++ key) h ≡ done (files, g) h'
unfolding take_key already_registered
check_auth_old send_auth out files d g key old h h' there fits_name sent = ground (
  arith,
  check_auth-key send_auth out files d key h,
  key_file_copy d h fits_name,
  consume_copy d.key_file h,
  add_read-view d already_registered (used_address h) (omega arith),
)

-- A message that is no key changes nothing.
pub check_auth_other :
    (send_auth : SharedData → M SharedData) (out : OutStream) (files : Files) (d : SharedData)
    (str : Bytes) (h : Heap)
    → starts_with str auth_str ≡ false
    → check_auth send_auth out files d str h ≡ done (files, d) h
unfolding check_auth starts_with
check_auth_other send_auth out files d str h other = ground arith

-- The next start of the client behind a message with a new key, with a shared object `g` of its own
-- for the same key file.
unfoldable pub restart :
    (SharedData → M SharedData) → OutStream → Files → SharedData → SharedData → Bytes → M SharedData
restart send_auth out files d g str = do
  r ← check_auth send_auth out files d str
  load_key_file r.0 g

bind_done :
    {A : Type 0} {B : Type 0} (m : M A) (f : A → M B) (a : A) (h h' : Heap)
    → m h ≡ done a h'
    → (m >>= f) h ≡ f a h'
bind_done m f a h h' e = ap (λ o. elim o [ done b t ↦ f b t | threw t ↦ threw t | fault ↦ fault ]) e

load_written :
    (name : Bytes) (n : ℕ) (key : Bytes) (g : SharedData) (files : Files) (h : Heap)
    → g.key_file ≡ name
    → Fits (take n key)
    → Fits name
    → load_key_file (write_all_bin (stores n) name key files) g h
      ≡ done (record g { auth = take n key }) (used_address h)
unfolding load_key_file write_all_bin
load_written name n key g files h same fits fits_name = ground (
  arith,
  same,
  key_file_copy g h (subst Fits (sym same) fits_name),
  consume_copy g.key_file h,
  bytes_eq_self name,
  set_auth-view g (take n key) (used_address h) fits,
)

-- A message with a new key makes the key the auth data of the next start, as far as the stream
-- stored it: all of the key where it stores at least as many chars. The stream opens, the key file
-- does not exist before, and its name, the key and the stored part fit (`Fits`).
pub load_key_file-check_auth :
    (send_auth : SharedData → M SharedData) (n : ℕ) (files : Files) (d g : SharedData) (key : Bytes)
    (h : Heap)
    → files d.key_file ≡ none
    → g.key_file ≡ d.key_file
    → Fits key
    → Fits (take n key)
    → Fits d.key_file
    → restart send_auth (stores n) files d g (auth_str ++ key) h
      ≡ done (record g { auth = take n key }) (used_address (used_address h))
unfolding restart
load_key_file-check_auth send_auth n files d g key h missing same fits fits_part fits_name =
    bind_done (check_auth send_auth (stores n) files d (auth_str ++ key)) (λ r. load_key_file r.0 g)
      _ h _ (check_auth_new send_auth (stores n) files d key h missing fits fits_name)
    ∙ load_written d.key_file n key g files (used_address h) same fits_part fits_name
