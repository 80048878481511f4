-- ===== src/SteamApi.antt =====
-- c_steam_api.h and c_steam_api.cpp: the wrapper of the Steam client, with its callbacks as calls
-- that Steam makes at any time. What the Steam SDK answers is an argument: the result of
-- `SteamAPI_Init`, the handle of a request, and the ticket of `GetEncryptedAppTicket` (`none` if it
-- fails, when the length that the code goes on with was never set). Each method runs under the lock
-- of `callback_environment`, so it is one step. Messages to the console are left out.
pub mod Auth
use libncclient.Common.{
  ℕ, zero, suc, Bool, true, false, List, [], ◌∷◌, ◌++◌, Option, none, some, Bytes, drop, length,
  if◌then◌else◌, ◌==◌, not,
}
use libncclient.Memory.{M, pure, undefined, ◌>>=◌}
use libncclient.Interop.{SizedString, SizedView, view_to_cpp, make_copy}

pub record CallbackEnvironment : Type 0 where
  pub overlay_open : Bool
  pub auth_in_progress : Bool
  pub has_encrypted_ticket : Bool
  pub encrypted_app_ticket : Bytes
  -- The pending request of `m_OnRequestEncryptedAppTicketCallResult`: its handle and user data.
  pub call_result : Option ℕ

pub record SteamApi : Type 0 where
  pub enabled : Bool
  pub environment : CallbackEnvironment
  pub open environment use *

-- The values of `EResult` that the code tells apart.
pub data EResult : Type 0 where
  result_ok limit_exceeded duplicate_request no_connection other_result : EResult

-- `SteamAPI_Init` answers `init`.
unfoldable pub steam_api_alloc : Bool → SteamApi
steam_api_alloc init = record {
  enabled = init;
  environment = record {
    overlay_open = false;
    auth_in_progress = false;
    has_encrypted_ticket = false;
    encrypted_app_ticket = [];
    call_result = none;
  };
}

unfoldable pub on_game_overlay_activated : Bool → SteamApi → SteamApi
on_game_overlay_activated active s = record s {
  environment = record (s.environment) { overlay_open = active };
}

-- `vector::resize`.
unfoldable pub resize : ℕ → Bytes → Bytes
resize zero s = []
resize (suc n) [] = 0 ∷ resize n []
resize (suc n) (c ∷ s) = c ∷ resize n s

-- The buffer of 1024 bytes after a write to its front.
abbrev pub buffer : Bytes → Bytes → Bytes
buffer old written = written ++ drop (length written) (resize 1024 old)

-- `GetEncryptedAppTicket` into a buffer of 1024 bytes, cut to the length that it reports.
store_ticket : Option (Bytes × ℕ) → SteamApi → M SteamApi
unfolding resize
store_ticket none s = undefined
store_ticket (some (written, cub)) s = pure (record s {
  environment = record (s.environment) {
    encrypted_app_ticket = resize cub (buffer s.encrypted_app_ticket written);
    has_encrypted_ticket = true;
    auth_in_progress = false;
  };
})

-- `OnRequestEncryptedAppTicket`, the answer to a request.
unfoldable pub on_request_encrypted_app_ticket :
    EResult → Option (Bytes × ℕ) → SteamApi → M SteamApi
unfolding store_ticket
on_request_encrypted_app_ticket result_ok ticket s = store_ticket ticket s
on_request_encrypted_app_ticket limit_exceeded ticket s = store_ticket ticket s
on_request_encrypted_app_ticket _ ticket s =
    pure (record s { environment = record (s.environment) { auth_in_progress = false } })

-- `handle_auth`: the request goes to Steam, which answers with the handle. The user data goes to
-- Steam alone.
unfoldable pub handle_auth : (Bytes → ℕ) → Bytes → SteamApi → SteamApi
handle_auth request user_data s = if not s.enabled then s else record s {
  environment = record (s.environment) {
    auth_in_progress = true;
    call_result = some (request user_data);
  };
}

unfoldable pub auth_success : SteamApi → Bool
auth_success s =
    if not s.enabled
    then false
    else if s.auth_in_progress
    then false
    else if not s.has_encrypted_ticket
    then false
    else true

unfoldable pub is_overlay_open : SteamApi → Bool
is_overlay_open s = if not s.enabled then false else s.overlay_open

unfoldable pub steam_api_request_encrypted_token : (Bytes → ℕ) → SteamApi → SizedView → M SteamApi
unfolding handle_auth
steam_api_request_encrypted_token request s user_data = do
  str ← view_to_cpp user_data
  pure (handle_auth request str s)

unfoldable pub steam_api_should_wait_for_encrypted_token : SteamApi → Bool
steam_api_should_wait_for_encrypted_token s = s.auth_in_progress

unfoldable pub steam_api_has_encrypted_token : SteamApi → Bool
unfolding auth_success
steam_api_has_encrypted_token s = auth_success s

unfoldable pub steam_api_get_encrypted_token : SteamApi → M SizedString
steam_api_get_encrypted_token s = make_copy s.encrypted_app_ticket

-- `SteamAPI_RunCallbacks` runs the callbacks that are due, in order.
run_callbacks : List (SteamApi → M SteamApi) → SteamApi → M SteamApi
run_callbacks [] s = pure s
run_callbacks (f ∷ fs) s = do t ← f s; run_callbacks fs t

unfoldable pub steam_api_pump_events : List (SteamApi → M SteamApi) → SteamApi → M SteamApi
unfolding run_callbacks
steam_api_pump_events due s = if not s.enabled then pure s else run_callbacks due s

unfoldable pub steam_api_overlay_is_open : SteamApi → Bool
unfolding is_overlay_open
steam_api_overlay_is_open s = is_overlay_open s

-- `SteamUtils()` is `utils`, with what `BOverlayNeedsPresent` answers.
unfoldable pub steam_api_overlay_needs_present : Option Bool → SteamApi → Bool
steam_api_overlay_needs_present utils s =
    if not s.enabled then false else (elim utils [ none ↦ false | some answer ↦ answer ])

unfoldable pub steam_api_enabled : SteamApi → Bool
steam_api_enabled s = s.enabled

-- `steam_api_destroy`, on the clients by their addresses; `none` is nullptr. The destructor's
-- `SteamAPI_Shutdown` is Steam's alone.
unfoldable pub steam_api_destroy : Option ℕ → (ℕ → Option SteamApi) → ℕ → Option SteamApi
steam_api_destroy none store other = store other
steam_api_destroy (some p) store other = if other == p then none else store other
