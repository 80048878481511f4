-- ===== src/NetClient/Auth.antt =====
-- `handle_sending_auth` of c_net_client.cpp. The wait for Steam's ticket is an argument: the state in
-- which Steam's callbacks leave the client when they end it. No other thread changes the shared
-- object between the steps. Messages to the console are left out.
pub mod Sent
use libncclient.Common.{
  ℕ, Bool, true, false, List, [], ◌∷◌, ◌++◌, Option, none, some, Bytes, codes, if◌then◌else◌, not,
}
use libncclient.Memory.{M, pure, undefined, ◌>>=◌}
use libncclient.Interop.{
  SizedString, SizedView, c_str_sized_to_cpp, c_str_consume, free_sized_string, make_view,
  make_view_owned, make_view_from_raw,
}
use libncclient.SteamApi.{
  SteamApi, steam_api_request_encrypted_token, steam_api_has_encrypted_token,
  steam_api_get_encrypted_token,
}
use libncclient.SharedData.{
  SharedData, SteamStore, sd_use_steam_auth, sd_get_steam_auth, sd_has_key_auth, sd_get_auth,
  sd_add_back_write,
}
use libncclient.NetClient.Hex.{binary_to_hex}

-- What Steam does: the handle of a request, and the client after the wait.
pub record Steam : Type 0 where
  pub request : Bytes → ℕ
  pub wait : SteamApi → SteamApi

-- The client behind the pointer.
unfoldable pub client_at : SteamStore → ℕ → M SteamApi
client_at store p = elim (store p) [ none ↦ undefined | some s ↦ pure s ]

-- The request, with the auth data as its user data if there is some.
unfoldable pub request_token : Steam → SharedData → SteamApi → M SteamApi
request_token steam d s =
    if sd_has_key_auth d
    then (do
      auth ← sd_get_auth d
      view ← make_view_owned auth
      t ← steam_api_request_encrypted_token steam.request s view
      _ ← free_sized_string auth
      pure t)
    else (do
      view ← make_view_from_raw (0 ∷ [])
      steam_api_request_encrypted_token steam.request s view)

-- What follows the wait.
unfoldable pub send_token : SharedData → SteamApi → M SharedData
send_token d s = if not (steam_api_has_encrypted_token s) then pure d else (do
  str ← steam_api_get_encrypted_token s
  etoken ← c_str_consume str
  sd_add_back_write d
      (make_view (codes "client_command auth_steam client_hex " ++ binary_to_hex etoken false)))

unfoldable pub send_key : SharedData → M SharedData
send_key d = do
  auth ← sd_get_auth d
  str ← c_str_sized_to_cpp auth
  _ ← free_sized_string auth
  sd_add_back_write d (make_view (codes "client_command auth client " ++ str))

unfoldable pub handle_sending_auth : Steam → SteamStore → SharedData → M SharedData
handle_sending_auth steam store d = do
  use_steam ← sd_use_steam_auth store d
  if use_steam
      then (do
        p ← sd_get_steam_auth d
        s ← client_at store p
        t ← request_token steam d s
        send_token d (steam.wait t))
      else (if sd_has_key_auth d then send_key d else pure d)
