-- ===== src/NetClient/Auth/Sent.antt =====
-- What `handle_sending_auth` queues, and what it leaves in memory.
use libncclient.Common.{
  ℕ, ◌≡◌, refl, ◌∙◌, ◌⊎◌, inl, inr, true, false, [], ◌∷◌, ◌++◌, some, Bytes, codes, length,
  if◌then◌else◌, arith, ◌==◌,
}
use libncclient.Memory.{Heap, done}
use libncclient.Memory.Laws.{used_address}
use libncclient.Interop.{make_view, make_view_from_raw}
use libncclient.Interop.Copies.{
  Fits, make_view-Shows, make_copy_lem, with_copy, consume_copy, c_str_sized_to_cpp-make_copy,
  free_sized_string-make_copy, make_view_owned_lem, view_of_copy-Shows,
}
use libncclient.SteamApi.{
  SteamApi, handle_auth, steam_api_request_encrypted_token, steam_api_has_encrypted_token,
  steam_api_get_encrypted_token,
}
use libncclient.SharedData.{
  SharedData, SteamStore, add_back_write, sd_add_back_write, sd_use_steam_auth, sd_get_steam_auth,
  sd_get_auth, sd_has_key_auth, has_key_auth,
}
use libncclient.SharedData.Interface.{sd_add_back_write_lem}
use libncclient.NetClient.Hex.{binary_to_hex}
use libncclient.NetClient.Auth.{
  Steam, client_at, request_token, send_token, send_key, handle_sending_auth,
}

add_view :
    (d : SharedData) (s : Bytes) (h : Heap)
    → Fits s
    → sd_add_back_write d (make_view s) h ≡ done (add_back_write s d) h
add_view d s h fits =
    sd_add_back_write_lem d (make_view s) s h (make_view-Shows s fits) ∙ unfold make_view in refl

-- The commands that carry the key and the ticket.
abbrev pub key_command : Bytes → Bytes
key_command auth = codes "client_command auth client " ++ auth

abbrev pub ticket_command : Bytes → Bytes
ticket_command ticket = codes "client_command auth_steam client_hex " ++ binary_to_hex ticket false

-- Without Steam the key is queued as one command if there is one, and nothing happens if there is
-- none; no copy of the key stays allocated. The command fits (`Fits`).
pub handle_sending_auth-key :
    (steam : Steam) (store : SteamStore) (d : SharedData) (h : Heap)
    → sd_use_steam_auth store d h ≡ done false h
    → Fits (key_command d.auth)
    → handle_sending_auth steam store d h ≡ (
        if length d.auth == 0
        then done d h
        else done (add_back_write (key_command d.auth) d) (used_address h))
unfolding handle_sending_auth send_key sd_get_auth sd_has_key_auth has_key_auth
handle_sending_auth-key steam store d h e fits = ground (
  arith,
  e,
  make_copy_lem d.auth h (omega arith),
  c_str_sized_to_cpp-make_copy d.auth h,
  free_sized_string-make_copy d.auth h,
  add_view d (key_command d.auth) (used_address h) fits,
)

-- The memory after the request: a copy of the key was made and freed, if there is a key.
abbrev pub requested : Bytes → Heap → Heap
requested auth h = if length auth == 0 then h else used_address h

-- The literal `""`.
empty_literal : (h : Heap) → make_view_from_raw (0 ∷ []) h ≡ done (make_view []) h
unfolding make_view_from_raw make_view
empty_literal h = refl

List-cases : (s : Bytes) → (s ≡ []) ⊎ ((length s == 0) ≡ false)
List-cases [] = inl refl
List-cases (c ∷ s) = inr (ground arith)

request_token_lem :
    (steam : Steam) (d : SharedData) (s : SteamApi) (h : Heap)
    → Fits d.auth
    → request_token steam d s h ≡ done (handle_auth steam.request d.auth s) (requested d.auth h)
unfolding request_token sd_get_auth sd_has_key_auth has_key_auth steam_api_request_encrypted_token
request_token_lem steam d s h fits = elim (List-cases d.auth) [
  | inl none_there ↦ ground (arith, none_there, empty_literal h, make_view-Shows [] (omega arith) h)
  | inr some_there ↦ ground (
    arith,
    some_there,
    make_copy_lem d.auth h fits,
    make_view_owned_lem d.auth h,
    view_of_copy-Shows d.auth (with_copy d.auth h),
    free_sized_string-make_copy d.auth h,
  )
]

send_token_lem :
    (d : SharedData) (q : SteamApi) (h : Heap)
    → Fits q.encrypted_app_ticket
    → Fits (ticket_command q.encrypted_app_ticket)
    → send_token d q h ≡ (
        if steam_api_has_encrypted_token q
        then done (add_back_write (ticket_command q.encrypted_app_ticket) d) (used_address h)
        else done d h)
unfolding send_token steam_api_get_encrypted_token
send_token_lem d q h fits fits_hex = ground (
  arith,
  make_copy_lem q.encrypted_app_ticket h fits,
  consume_copy q.encrypted_app_ticket h,
  add_view d (ticket_command q.encrypted_app_ticket) (used_address h) fits_hex,
)

-- With Steam the request carries the key as its user data, empty if there is none. Once the wait
-- is over the client's ticket is queued in hexadecimal, or nothing is if the client has none; no
-- copy stays allocated. The pointer leads to a client, and the key, the ticket and the command fit
-- (`Fits`).
pub handle_sending_auth-ticket :
    (steam : Steam) (store : SteamStore) (d : SharedData) (p : ℕ) (s q : SteamApi) (h : Heap)
    → sd_use_steam_auth store d h ≡ done true h
    → d.csapi ≡ some p
    → store p ≡ some s
    → steam.wait (handle_auth steam.request d.auth s) ≡ q
    → Fits d.auth
    → Fits q.encrypted_app_ticket
    → Fits (ticket_command q.encrypted_app_ticket)
    → handle_sending_auth steam store d h ≡ (
        if steam_api_has_encrypted_token q
        then done
            (add_back_write (ticket_command q.encrypted_app_ticket) d)
            (used_address (requested d.auth h))
        else done d (requested d.auth h))
unfolding handle_sending_auth sd_get_steam_auth client_at
handle_sending_auth-ticket steam store d p s q h e at there waited fits fits_t fits_hex = ground (
  arith,
  e,
  at,
  there,
  request_token_lem steam d s h fits,
  waited,
  send_token_lem d q (requested d.auth h) fits_t fits_hex,
)
