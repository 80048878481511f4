-- ===== src/SharedData/Interface.antt =====
-- The functions of the C interface to the shared object, over views and copied strings.
use libncclient.Common.{
  ℕ, ◌≡◌, refl, Bool, true, false, List, [], ◌∷◌, ◌++◌, none, some, Bytes, length, if◌then◌else◌,
  not, arith, ◌==◌,
}
use libncclient.Memory.{Heap, M, done, pure, ◌>>=◌}
use libncclient.Memory.Laws.{used_address}
use libncclient.Interop.{SizedView, view_to_cpp, make_view, c_str_consume}
use libncclient.Interop.Copies.{
  Fits, Shows, make_view-Shows, make_copy_lem, copy_in, with_copy, consume_copy,
}
use libncclient.SteamApi.{SteamApi, steam_api_enabled}
use libncclient.SharedData.{
  SharedData, SteamStore, add_back_read, add_back_write, sd_add_back_read, sd_add_back_write,
  sd_get_front_write, sd_set_user, sd_get_user, sd_set_auth, sd_get_auth, sd_has_key_auth,
  sd_set_key_file_name, sd_get_key_file_name, sd_set_use_steam_auth, sd_use_steam_auth,
  sd_get_steam_auth,
}

-- The view's pointer is nullptr.
abbrev pub is_null : SizedView → Bool
is_null v = elim v.str [ none ↦ true | some _ ↦ false ]

module _ (d : SharedData) (v : SizedView) (s : Bytes) (h : Heap) (shows : Shows v s) where
  read_view : view_to_cpp v h ≡ done s h
  read_view = shows h

  -- A message is queued at the back, whatever its bytes, unless the view is nullptr.
  pub sd_add_back_write_lem :
      sd_add_back_write d v h ≡ done (if is_null v then d else add_back_write s d) h
  unfolding sd_add_back_write
  sd_add_back_write_lem = ground (arith, read_view)

  pub sd_add_back_read_lem :
      sd_add_back_read d v h ≡ done (if is_null v then d else add_back_read s d) h
  unfolding sd_add_back_read
  sd_add_back_read_lem = ground (arith, read_view)

  pub sd_set_auth_lem : sd_set_auth d v h ≡ done (if is_null v then d else record d { auth = s }) h
  unfolding sd_set_auth
  sd_set_auth_lem = ground (arith, read_view)

  pub sd_set_user_lem : sd_set_user d v h ≡ done (record d { user = s }) h
  unfolding sd_set_user
  sd_set_user_lem = ground (arith, read_view)

  pub sd_set_key_file_name_lem : sd_set_key_file_name d v h ≡ done (record d { key_file = s }) h
  unfolding sd_set_key_file_name
  sd_set_key_file_name_lem = ground (arith, read_view)

-- What the queue gives out is a copy that reads as the front message.
pub sd_get_front_write_lem :
    (d : SharedData) (q : Bytes) (rest : List Bytes) (h : Heap)
    → Fits q
    → d.write_queue ≡ q ∷ rest
    → sd_get_front_write d h ≡ done (copy_in q h, record d { write_queue = rest }) (with_copy q h)
unfolding sd_get_front_write
sd_get_front_write_lem d q rest h fits e = ground (arith, make_copy_lem q h fits)

-- `sd_add_back_write`, then `sd_get_front_write`, then `c_str_consume` of the result.
unfoldable pub exchange_write : SharedData → Bytes → M (Bytes × SharedData)
exchange_write d s = do
  e ← sd_add_back_write d (make_view s)
  (front, left) ← sd_get_front_write e
  str ← c_str_consume front
  pure (str, left)

-- A message that goes in by one function comes out by the other in its turn: the front message is
-- the oldest one, it reads byte for byte as it was written, and once it is consumed no memory of
-- the exchange stays allocated. Both messages fit (`Fits`).
pub exchange_write_lem :
    (d : SharedData) (s q : Bytes) (rest : List Bytes) (h : Heap)
    → Fits s
    → Fits q
    → d.write_queue ++ s ∷ [] ≡ q ∷ rest
    → exchange_write d s h ≡ done (q, record d { write_queue = rest }) (used_address h)
unfolding exchange_write add_back_write make_view
exchange_write_lem d s q rest h fits_s fits_q e = ground (
  arith,
  sd_add_back_write_lem d (make_view s) s h (make_view-Shows s fits_s),
  sd_get_front_write_lem (add_back_write s d) q rest h fits_q e,
  consume_copy q h,
)

-- What is set is what is got, for the user, the key file's name and the auth data; the auth data
-- counts as set exactly when it is not empty. The view is not nullptr and shows the string, which
-- fits (`Fits`).
pub sd_set-get :
    (d : SharedData) (v : SizedView) (s : Bytes) (h : Heap)
    → Shows v s
    → Fits s
    → is_null v ≡ false
    → ((sd_set_user d v >>= sd_get_user) h ≡ done (copy_in s h) (with_copy s h))
      × ((sd_set_key_file_name d v >>= sd_get_key_file_name) h ≡ done (copy_in s h) (with_copy s h))
      × ((sd_set_auth d v >>= sd_get_auth) h ≡ done (copy_in s h) (with_copy s h))
      × ((sd_set_auth d v >>= λ e. pure (sd_has_key_auth e)) h ≡ done (not (length s == 0)) h)
unfolding sd_get_user sd_get_auth sd_get_key_file_name sd_has_key_auth
sd_set-get d v s h shows fits there = (
  ground (arith, sd_set_user_lem d v s h shows, make_copy_lem s h fits),
  ground (arith, sd_set_key_file_name_lem d v s h shows, make_copy_lem s h fits),
  ground (arith, sd_set_auth_lem d v s h shows, make_copy_lem s h fits),
  ground (arith, sd_set_auth_lem d v s h shows),
)

-- After a Steam client is set it is the one that is got, and Steam is used if it is enabled; an
-- object whose flag is off does not use Steam, whatever its pointer holds.
pub sd_use_steam_auth_lem :
    (store : SteamStore) (d : SharedData) (p : ℕ) (s : SteamApi) (h : Heap)
    → store p ≡ some s
    → (sd_use_steam_auth store (sd_set_use_steam_auth d p) h ≡ done (steam_api_enabled s) h)
      × (sd_get_steam_auth (sd_set_use_steam_auth d p) h ≡ done p h)
      × (sd_use_steam_auth store (record d { use_steam_auth = false }) h ≡ done false h)
unfolding sd_use_steam_auth sd_set_use_steam_auth sd_get_steam_auth
sd_use_steam_auth_lem store d p s h e = (ground arith, refl, refl)
