-- ===== src/NetClient/Balanced.antt =====
-- The calls of the threads of c_net_client.cpp free all that they allocate.
use libncclient.Common.{
  refl, not, [], ◌∷◌, ◌++◌, Option, none, some, Bytes, codes, bytes_eq, ltb, length, take, drop,
  is_nonpos, ℕ,
}
use libncclient.Memory.{pure, ◌>>=◌}
use libncclient.Memory.Balance.{
  Blocks, Runs, Same, pure_runs, undefined_runs, bind_runs, back_runs, then_runs, option_runs,
  if_runs,
}
use libncclient.Interop.{SizedString, SizedView, make_view}
use libncclient.Interop.Balance.{
  Owns, view_to_cpp_runs, c_str_sized_to_cpp_runs, make_view_owned_runs, make_view_from_raw_runs,
  make_copy_runs, free_sized_string_runs, c_str_consume_runs,
}
use libncclient.SteamApi.{
  SteamApi, steam_api_has_encrypted_token, steam_api_get_encrypted_token,
  steam_api_request_encrypted_token,
}
use libncclient.SharedData.{
  SharedData, SteamStore, sd_has_key_auth, sd_set_auth, sd_add_back_read, sd_get_front_write,
}
use libncclient.SharedData.Balanced.{
  add_write_runs, add_read_runs, set_auth_runs, get_auth_runs, get_user_runs,
  get_key_file_name_runs, get_front_write_runs, use_steam_auth_runs, get_steam_auth_runs,
}
use libncclient.ServerApi.Requests.{sa_make_generic_server_command}
use libncclient.NetClient.Auth.{
  Steam, client_at, request_token, send_token, send_key, handle_sending_auth,
}
use libncclient.Util.Files.{Files, OutStream, write_all_bin}
use libncclient.NetClient.KeyFile.{auth_str, welcome, already_registered, take_key, check_auth}
use libncclient.NetClient.Threads.{take_front, send_user_command, send_user, tell}

module _ (b : Blocks) where
  pub tell_runs : (text : Bytes) (d : SharedData) → Runs b (tell text d) (Same b)
  unfolding tell
  tell_runs text d =
      then_runs b (Same b) _ _ (make_view_from_raw_runs b (text ++ 0 ∷ []))
        (λ view. add_read_runs b d view)

  pub take_front_runs : (d : SharedData) → Runs b (take_front d) (Same b)
  unfolding take_front
  take_front_runs d =
      bind_runs b (λ r. Owns b r.0) (Same b) (sd_get_front_write d) _ (get_front_write_runs b d)
        (λ (s, e) c owns. then_runs c (Same b) _ _ (c_str_sized_to_cpp_runs c s) (λ next_command.
          back_runs b c (Same b) _ _ (free_sized_string_runs b c s owns)
            (λ u. pure_runs b (Same b) (next_command, e) refl)))

  send_user_command_runs :
      (d : SharedData) (username : SizedString) → Runs b (send_user_command d username) (Same b)
  unfolding send_user_command sa_make_generic_server_command
  send_user_command_runs d username =
      if_runs b (Same b) (is_nonpos username.num) _ _ (pure_runs b (Same b) d refl) (
        then_runs b (Same b) _ _ (c_str_sized_to_cpp_runs b username) (λ name.
          bind_runs b (Owns b) (Same b)
            (sa_make_generic_server_command (make_view (codes "user " ++ name))) _
            (then_runs b (Owns b) _ _ (view_to_cpp_runs b (make_view (codes "user " ++ name)))
              (λ str. make_copy_runs b (codes "client_command " ++ str)))
            (λ user_command c owns.
              then_runs c (Same b) _ _ (make_view_owned_runs c user_command) (λ view.
                then_runs c (Same b) _ _ (add_write_runs c d view) (λ e.
                  back_runs b c (Same b) _ _ (free_sized_string_runs b c user_command owns)
                    (λ u. pure_runs b (Same b) e refl))))))

pub send_user_runs : (b : Blocks) (d : SharedData) → Runs b (send_user d) (Same b)
unfolding send_user
send_user_runs b d = bind_runs b (Owns b) (Same b) _ _ (get_user_runs b d) (λ username c owns.
    then_runs c (Same b) _ _ (send_user_command_runs c d username) (λ e.
      back_runs b c (Same b) _ _ (free_sized_string_runs b c username owns)
        (λ u. pure_runs b (Same b) e refl)))

request_runs :
    (b : Blocks) (request : Bytes → ℕ) (s : SteamApi) (v : SizedView)
    → Runs b (steam_api_request_encrypted_token request s v) (Same b)
unfolding steam_api_request_encrypted_token
request_runs b request s v =
    then_runs b (Same b) _ _ (view_to_cpp_runs b v) (λ str. pure_runs b (Same b) _ refl)

request_token_runs :
    (b : Blocks) (steam : Steam) (d : SharedData) (s : SteamApi)
    → Runs b (request_token steam d s) (Same b)
unfolding request_token
request_token_runs b steam d s =
    if_runs b (Same b) (sd_has_key_auth d) _ _
      (bind_runs b (Owns b) (Same b) _ _ (get_auth_runs b d) (λ auth c owns.
        then_runs c (Same b) _ _ (make_view_owned_runs c auth) (λ view.
          then_runs c (Same b) _ _ (request_runs c steam.request s view) (λ t.
            back_runs b c (Same b) _ _ (free_sized_string_runs b c auth owns)
              (λ u. pure_runs b (Same b) t refl)))))
      (then_runs b (Same b) _ _ (make_view_from_raw_runs b (0 ∷ []))
        (λ view. request_runs b steam.request s view))

send_token_runs : (b : Blocks) (d : SharedData) (s : SteamApi) → Runs b (send_token d s) (Same b)
unfolding send_token steam_api_get_encrypted_token
send_token_runs b d s =
    if_runs b (Same b) (not (steam_api_has_encrypted_token s)) _ _ (pure_runs b (Same b) d refl) (
      bind_runs b (Owns b) (Same b) _ _ (make_copy_runs b s.encrypted_app_ticket) (λ str c owns.
        back_runs b c (Same b) _ _ (c_str_consume_runs b c str owns)
          (λ etoken. add_write_runs b d _)))

send_key_runs : (b : Blocks) (d : SharedData) → Runs b (send_key d) (Same b)
unfolding send_key
send_key_runs b d = bind_runs b (Owns b) (Same b) _ _ (get_auth_runs b d) (λ auth c owns.
    then_runs c (Same b) _ _ (c_str_sized_to_cpp_runs c auth) (λ str.
      back_runs b c (Same b) _ _ (free_sized_string_runs b c auth owns)
        (λ u. add_write_runs b d _)))

client_at_runs : (b : Blocks) (store : SteamStore) (p : ℕ) → Runs b (client_at store p) (Same b)
unfolding client_at
client_at_runs b store p =
    option_runs b (Same b) (store p) _ _ (undefined_runs b (Same b))
      (λ s. pure_runs b (Same b) s refl)

pub handle_sending_auth_runs :
    (b : Blocks) (steam : Steam) (store : SteamStore) (d : SharedData)
    → Runs b (handle_sending_auth steam store d) (Same b)
unfolding handle_sending_auth
handle_sending_auth_runs b steam store d =
    then_runs b (Same b) _ _ (use_steam_auth_runs b store d) (λ use_steam.
      if_runs b (Same b) use_steam _ _
        (then_runs b (Same b) _ _ (get_steam_auth_runs b d) (λ p.
          then_runs b (Same b) _ _ (client_at_runs b store p) (λ s.
            then_runs b (Same b) _ _ (request_token_runs b steam d s)
              (λ t. send_token_runs b d (steam.wait t)))))
        (if_runs b (Same b) (sd_has_key_auth d) _ _ (send_key_runs b d)
          (pure_runs b (Same b) d refl)))

module _ (b : Blocks) (steam : Steam) (store : SteamStore) (out : OutStream) (files : Files)
    (d : SharedData) where
  take_key_at :
      (key key_file : Bytes) (o : Option Bytes)
      → Runs {A = Files × SharedData} b
          (elim o [
            | none ↦ (do
              e ← sd_set_auth d (make_view key)
              g ← sd_add_back_read e (make_view welcome)
              pure (write_all_bin out key_file key files, g))
            | some old ↦ (do
              e ← sd_add_back_read d (make_view already_registered)
              g ← handle_sending_auth steam store e
              pure (files, g))
          ])
          (Same b)
  take_key_at key key_file none = then_runs b (Same b) _ _ (set_auth_runs b d (make_view key)) (λ e.
      then_runs b (Same b) _ _ (add_read_runs b e (make_view welcome))
        (λ g. pure_runs b (Same b) _ refl))
  take_key_at key key_file (some old) =
      then_runs b (Same b) _ _ (add_read_runs b d (make_view already_registered)) (λ e.
        then_runs b (Same b) _ _ (handle_sending_auth_runs b steam store e)
          (λ g. pure_runs b (Same b) _ refl))

  take_key_runs :
      (key : Bytes) → Runs b (take_key (handle_sending_auth steam store) out files d key) (Same b)
  unfolding take_key
  take_key_runs key = bind_runs b (Owns b) (Same b) _ _ (get_key_file_name_runs b d) (λ name c owns.
      back_runs b c (Same b) _ _ (c_str_consume_runs b c name owns)
        (λ key_file. (take_key_at key key_file (files key_file))))

  pub check_auth_runs :
      (str : Bytes) → Runs b (check_auth (handle_sending_auth steam store) out files d str) (Same b)
  unfolding check_auth
  check_auth_runs str =
      if_runs b (Same b) (ltb (length str) (length auth_str)) _ _
        (pure_runs b (Same b) (files, d) refl)
        (if_runs b (Same b) (bytes_eq (take (length auth_str) str) auth_str) _ _
          (take_key_runs (drop (length auth_str) str)) (pure_runs b (Same b) (files, d) refl))
