-- ===== src/NetClient/Extends.antt =====
-- What the parts of c_net_client.cpp that run in the threads do to the shared object: they only add
-- behind the write queue, and leave the termination flags alone.
use libncclient.Common.{
  ◌≡◌, refl, sym, ap, ◌∙◌, List, [], ◌∷◌, ◌++◌, Bytes, not, append_assoc, append-nil, take, length,
  drop, bytes_eq, ltb,
}
use libncclient.Memory.{M, pure, ◌>>=◌}
use libncclient.Memory.Always.{
  Always, pure-Always, bind-Always, then-Always, option-Always, if-Always,
}
use libncclient.Interop.{SizedView, make_view, c_str_consume, c_str_sized_to_cpp, free_sized_string}
use libncclient.SteamApi.{SteamApi, steam_api_has_encrypted_token, steam_api_get_encrypted_token}
use libncclient.SharedData.{
  SharedData, SteamStore, add_back_write, add_back_read, sd_add_back_write, sd_add_back_read,
  sd_set_auth, sd_has_key_auth, sd_get_auth, sd_use_steam_auth, sd_get_steam_auth,
  sd_get_key_file_name,
}
use libncclient.NetClient.Auth.{
  Steam, client_at, request_token, send_token, send_key, handle_sending_auth,
}
use libncclient.Util.Files.{Files, OutStream, write_all_bin}
use libncclient.NetClient.KeyFile.{auth_str, welcome, already_registered, take_key, check_auth}

pub record Extends (d g : SharedData) : Type 0 where
  pub put : List Bytes
  pub queued : g.write_queue ≡ d.write_queue ++ put
  pub counted : g.termination_count ≡ d.termination_count
  pub flagged : g.should_terminate ≡ d.should_terminate

pub Extends-refl : (d : SharedData) → Extends d d
Extends-refl d = record {
  put = [];
  queued = sym (append-nil d.write_queue);
  counted = refl;
  flagged = refl;
}

pub Extends-trans : {d e g : SharedData} → Extends d e → Extends e g → Extends d g
Extends-trans {d} {e} {g} p q = record {
  put = p.put ++ q.put;
  queued = q.queued ∙ ap (λ l. l ++ q.put) p.queued ∙ append_assoc d.write_queue p.put q.put;
  counted = q.counted ∙ p.counted;
  flagged = q.flagged ∙ p.flagged;
}

unmoved :
    (d g : SharedData)
    → g.write_queue ≡ d.write_queue
    → g.termination_count ≡ d.termination_count
    → g.should_terminate ≡ d.should_terminate
    → Extends d g
unmoved d g q c f = record {
  put = [];
  queued = q ∙ sym (append-nil d.write_queue);
  counted = c;
  flagged = f;
}

behind : (d : SharedData) (str : Bytes) → Extends d (add_back_write str d)
unfolding add_back_write
behind d str = record { put = str ∷ []; queued = refl; counted = refl; flagged = refl }

pub add_write-Extends :
    (d : SharedData) (v : SizedView) → Always (Extends d) (sd_add_back_write d v)
unfolding sd_add_back_write add_back_write
add_write-Extends d v =
    option-Always (Extends d) v.str _ _ (pure-Always (Extends d) d (Extends-refl d))
      (λ s. bind-Always (Extends d) _ _ (λ str. pure-Always (Extends d) _ (behind d str)))

pub add_read-Extends : (d : SharedData) (v : SizedView) → Always (Extends d) (sd_add_back_read d v)
unfolding sd_add_back_read add_back_read
add_read-Extends d v =
    option-Always (Extends d) v.str _ _ (pure-Always (Extends d) d (Extends-refl d)) (λ s.
      bind-Always (Extends d) _ _ (λ str. pure-Always (Extends d) _ (unmoved d _ refl refl refl)))

set_auth-Extends : (d : SharedData) (v : SizedView) → Always (Extends d) (sd_set_auth d v)
unfolding sd_set_auth
set_auth-Extends d v =
    option-Always (Extends d) v.str _ _ (pure-Always (Extends d) d (Extends-refl d)) (λ s.
      bind-Always (Extends d) _ _ (λ str. pure-Always (Extends d) _ (unmoved d _ refl refl refl)))

send_token-Extends : (d : SharedData) (s : SteamApi) → Always (Extends d) (send_token d s)
unfolding send_token
send_token-Extends d s =
    if-Always (Extends d) (not (steam_api_has_encrypted_token s)) _ _
      (pure-Always (Extends d) d (Extends-refl d))
      (bind-Always (Extends d) (steam_api_get_encrypted_token s) _
        (λ str. bind-Always (Extends d) (c_str_consume str) _ (λ etoken. add_write-Extends d _)))

send_key-Extends : (d : SharedData) → Always (Extends d) (send_key d)
unfolding send_key
send_key-Extends d = bind-Always (Extends d) (sd_get_auth d) _ (λ auth.
    bind-Always (Extends d) (c_str_sized_to_cpp auth) _
      (λ str. bind-Always (Extends d) (free_sized_string auth) _ (λ u. add_write-Extends d _)))

-- `handle_sending_auth` queues behind what is there, and leaves the termination flags alone.
pub handle_sending_auth-Extends :
    (steam : Steam) (store : SteamStore) (d : SharedData)
    → Always (Extends d) (handle_sending_auth steam store d)
unfolding handle_sending_auth
handle_sending_auth-Extends steam store d =
    bind-Always (Extends d) (sd_use_steam_auth store d) _ (λ steamed.
      if-Always (Extends d) steamed _ _
        (bind-Always (Extends d) (sd_get_steam_auth d) _ (λ p.
          bind-Always (Extends d) (client_at store p) _ (λ s.
            bind-Always (Extends d) (request_token steam d s) _
              (λ t. send_token-Extends d (steam.wait t)))))
        (if-Always (Extends d) (sd_has_key_auth d) _ _ (send_key-Extends d)
          (pure-Always (Extends d) d (Extends-refl d))))

-- The shared object of a result.
abbrev pub ExtendsBoth : SharedData → Files × SharedData → Type 0
ExtendsBoth d r = Extends d r.1

-- `check_auth` does so too, if sending the auth data does.
module _ (send_auth : SharedData → M SharedData) (out : OutStream) (files : Files) (d : SharedData)
    (sends : (e : SharedData) → Always (Extends e) (send_auth e)) where
  new_key :
      (key_file key : Bytes)
      → Always (ExtendsBoth d) (do
        e ← sd_set_auth d (make_view key)
        g ← sd_add_back_read e (make_view welcome)
        pure (write_all_bin out key_file key files, g))
  new_key key_file key =
      then-Always (Extends d) (ExtendsBoth d) (sd_set_auth d (make_view key)) _
        (set_auth-Extends d (make_view key))
        (λ e p.
          then-Always (Extends e) (ExtendsBoth d) (sd_add_back_read e (make_view welcome)) _
            (add_read-Extends e (make_view welcome))
            (λ g q.
              pure-Always (ExtendsBoth d) (write_all_bin out key_file key files, g)
                (Extends-trans p q)))

  old_key :
      Always
        (ExtendsBoth d)
        (do e ← sd_add_back_read d (make_view already_registered); g ← send_auth e; pure (files, g))
  old_key =
      then-Always (Extends d) (ExtendsBoth d) (sd_add_back_read d (make_view already_registered)) _
        (add_read-Extends d (make_view already_registered))
        (λ e p.
          then-Always (Extends e) (ExtendsBoth d) (send_auth e) _ (sends e)
            (λ g q. pure-Always (ExtendsBoth d) (files, g) (Extends-trans p q)))

  pub check_auth-Extends :
      (str : Bytes) → Always (ExtendsBoth d) (check_auth send_auth out files d str)
  unfolding check_auth take_key
  check_auth-Extends str =
      if-Always (ExtendsBoth d) (ltb (length str) (length auth_str)) _ _
        (pure-Always (ExtendsBoth d) (files, d) (Extends-refl d))
        (if-Always (ExtendsBoth d) (bytes_eq (take (length auth_str) str) auth_str) _ _
          (bind-Always (ExtendsBoth d) (sd_get_key_file_name d) _ (λ name.
            bind-Always (ExtendsBoth d) (c_str_consume name) _ (λ key_file.
              option-Always (ExtendsBoth d) (files key_file) _ _
                (new_key key_file (drop (length auth_str) str)) (λ old. old_key))))
          (pure-Always (ExtendsBoth d) (files, d) (Extends-refl d)))
