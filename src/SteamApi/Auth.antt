-- ===== src/SteamApi/Auth.antt =====
-- The state machine of a request for an encrypted ticket.
use libncclient.Common.{
  ℕ, zero, suc, ◌≡◌, ◌≤◌, refl, Bool, true, false, [], ◌∷◌, ◌++◌, some, Bytes, arith, length, take,
  drop, if◌then◌else◌, ap,
}
use libncclient.Memory.{Heap, done}
use libncclient.SteamApi.{
  SteamApi, EResult, result_ok, limit_exceeded, duplicate_request, no_connection, other_result,
  resize, buffer, on_request_encrypted_app_ticket, handle_auth,
  steam_api_should_wait_for_encrypted_token, steam_api_has_encrypted_token,
}

-- Steam holds a ticket for these answers.
abbrev pub grants : EResult → Bool
grants result_ok = true
grants limit_exceeded = true
grants _ = false

resize-append : (n : ℕ) (s t : Bytes) → n ≤ length s → resize n (s ++ t) ≡ take n s
unfolding resize
resize-append zero s t h = refl
resize-append (suc n) [] t h = absurd (omega arith)
resize-append (suc n) (c ∷ s) t h = ap (◌∷◌ c) (resize-append n s t (omega arith))

-- The client after an answer.
abbrev answered : EResult → Bytes → ℕ → SteamApi → SteamApi
answered result written cub p = record p {
  environment = record (p.environment) {
    auth_in_progress = false;
    has_encrypted_ticket = if grants result then true else p.has_encrypted_ticket;
    encrypted_app_ticket =
        if grants result
        then resize cub (buffer p.encrypted_app_ticket written)
        else p.encrypted_app_ticket;
  };
}

answer_lem :
    (result : EResult) (written : Bytes) (cub : ℕ) (p : SteamApi) (h : Heap)
    → on_request_encrypted_app_ticket result (some (written, cub)) p h
      ≡ done (answered result written cub p) h
unfolding on_request_encrypted_app_ticket
answer_lem result_ok written cub p h = refl
answer_lem limit_exceeded written cub p h = refl
answer_lem duplicate_request written cub p h = refl
answer_lem no_connection written cub p h = refl
answer_lem other_result written cub p h = refl

-- On a live client a request is pending until Steam answers, and a pending request is not a
-- success. An answer with a ticket makes it one, with that ticket; any other answer ends the wait
-- and leaves the ticket state as it was, an older ticket included. The client is enabled, and the
-- length that Steam reports is at most that of what it wrote.
pub handle_auth-answer :
    (request : Bytes → ℕ) (user_data : Bytes) (s : SteamApi) (h : Heap)
    → s.enabled ≡ true
    → (result : EResult) (written : Bytes) (cub : ℕ) → cub ≤ length written
    → let p = handle_auth request user_data s in
      (steam_api_should_wait_for_encrypted_token p ≡ true)
      × (steam_api_has_encrypted_token p ≡ false)
      × (q : SteamApi) × (on_request_encrypted_app_ticket result (some (written, cub)) p h
          ≡ done q h)
      × (steam_api_should_wait_for_encrypted_token q ≡ false)
      × (steam_api_has_encrypted_token q ≡ (if grants result then true else s.has_encrypted_ticket))
      × (q.encrypted_app_ticket
          ≡ (if grants result then take cub written else s.encrypted_app_ticket))
unfolding handle_auth steam_api_should_wait_for_encrypted_token steam_api_has_encrypted_token
handle_auth-answer request user_data s h e result written cub fits = (
  ground arith,
  ground arith,
  answered result written cub (handle_auth request user_data s),
  answer_lem result written cub (handle_auth request user_data s) h,
  ground arith,
  ground arith,
  ground (
    arith,
    resize-append cub written (drop (length written) (resize 1024 s.encrypted_app_ticket)) fits,
  ),
)
