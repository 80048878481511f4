-- ===== src/SharedData/Balanced.antt =====
-- The calls on the shared object leave nothing allocated but the string that they return.
use libncclient.Common.{ℕ, refl, Option, none, some}
use libncclient.Memory.Balance.{
  Blocks, Runs, Same, pure_runs, undefined_runs, bind_runs, then_runs, option_runs, if_runs,
}
use libncclient.Interop.{SizedView}
use libncclient.Interop.Balance.{Owns, view_to_cpp_runs, make_copy_runs}
use libncclient.SharedData.{
  SharedData, SteamStore, deref, should_use_steam_auth, sd_use_steam_auth, sd_get_steam_auth,
  sd_get_auth, sd_set_auth, sd_add_back_write, sd_add_back_read, sd_get_front_write,
  get_front_write, sd_get_user, get_user, sd_get_key_file_name, get_key_file,
}

module _ (b : Blocks) where
  pub add_write_runs : (d : SharedData) (v : SizedView) → Runs b (sd_add_back_write d v) (Same b)
  unfolding sd_add_back_write
  add_write_runs d v =
      option_runs b (Same b) v.str _ _ (pure_runs b (Same b) d refl)
        (λ s. then_runs b (Same b) _ _ (view_to_cpp_runs b v) (λ str. pure_runs b (Same b) _ refl))

  pub add_read_runs : (d : SharedData) (v : SizedView) → Runs b (sd_add_back_read d v) (Same b)
  unfolding sd_add_back_read
  add_read_runs d v =
      option_runs b (Same b) v.str _ _ (pure_runs b (Same b) d refl)
        (λ s. then_runs b (Same b) _ _ (view_to_cpp_runs b v) (λ str. pure_runs b (Same b) _ refl))

  pub set_auth_runs : (d : SharedData) (v : SizedView) → Runs b (sd_set_auth d v) (Same b)
  unfolding sd_set_auth
  set_auth_runs d v =
      option_runs b (Same b) v.str _ _ (pure_runs b (Same b) d refl)
        (λ s. then_runs b (Same b) _ _ (view_to_cpp_runs b v) (λ str. pure_runs b (Same b) _ refl))

  pub get_auth_runs : (d : SharedData) → Runs b (sd_get_auth d) (Owns b)
  unfolding sd_get_auth
  get_auth_runs d = make_copy_runs b d.auth

  pub get_user_runs : (d : SharedData) → Runs b (sd_get_user d) (Owns b)
  unfolding sd_get_user
  get_user_runs d = make_copy_runs b (get_user d)

  pub get_key_file_name_runs : (d : SharedData) → Runs b (sd_get_key_file_name d) (Owns b)
  unfolding sd_get_key_file_name
  get_key_file_name_runs d = make_copy_runs b (get_key_file d)

  pub get_front_write_runs : (d : SharedData) → Runs b (sd_get_front_write d) (λ r. Owns b r.0)
  unfolding sd_get_front_write
  get_front_write_runs d =
      bind_runs b (Owns b) (λ r. Owns b r.0) _ _ (make_copy_runs b (get_front_write d).0)
        (λ s c owns. pure_runs c (λ r. Owns b r.0) (s, (get_front_write d).1) owns)

  deref_runs : (store : SteamStore) (p : Option ℕ) → Runs b (deref store p) (Same b)
  unfolding deref
  deref_runs store none = undefined_runs b (Same b)
  deref_runs store (some p) =
      option_runs b (Same b) (store p) _ _ (undefined_runs b (Same b))
        (λ s. pure_runs b (Same b) s refl)

  pub use_steam_auth_runs :
      (store : SteamStore) (d : SharedData) → Runs b (sd_use_steam_auth store d) (Same b)
  unfolding sd_use_steam_auth should_use_steam_auth
  use_steam_auth_runs store d =
      if_runs b (Same b) d.use_steam_auth _ _
        (then_runs b (Same b) _ _ (deref_runs store d.csapi) (λ s. pure_runs b (Same b) _ refl))
        (pure_runs b (Same b) _ refl)

  pub get_steam_auth_runs : (d : SharedData) → Runs b (sd_get_steam_auth d) (Same b)
  unfolding sd_get_steam_auth
  get_steam_auth_runs d =
      option_runs b (Same b) d.csapi _ _ (undefined_runs b (Same b))
        (λ p. pure_runs b (Same b) p refl)
