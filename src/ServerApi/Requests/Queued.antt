-- ===== src/ServerApi/Requests/Queued.antt =====
-- What the requests put into the write queue, and what they leave in memory.
use libncclient.Common.{
  ◌≡◌, ◌≢◌, refl, ap, ◌∙◌, List, [], ◌∷◌, ◌++◌, Bytes, codes, ℤ, negsuc, length, arith,
  append_assoc, length-append,
}
use libncclient.Memory.{Heap, done}
use libncclient.Memory.Laws.{used_address}
use libncclient.Interop.{SizedView, make_view, make_view_from_raw}
use libncclient.Interop.Copies.{
  Fits, Shows, make_view-Shows, make_copy_lem, copy_in, with_copy, make_view_owned_lem,
  view_of_copy, view_of_copy-Shows, free_sized_string-make_copy,
}
use libncclient.SharedData.{SharedData, add_back_write, sd_add_back_write}
use libncclient.SharedData.Interface.{sd_add_back_write_lem}
use libncclient.ServerApi.Json.{JsonLib}
use libncclient.ServerApi.Requests.{
  chat_text, sa_make_chat_command, sa_make_generic_server_command, sa_make_autocomplete_request,
  sa_do_poll_server, sa_do_autocomplete_request, read_views, terminate_text,
  sa_do_terminate_all_scripts, sa_do_terminate_script, keystrokes_text,
  sa_do_send_keystrokes_to_script, mouse_text, sa_do_update_mouse_to_script, script_info_text,
  sa_do_send_script_info,
}

-- The three requests are copies of their command with the arguments in it.
pub sa_make_lem :
    (u v : SizedView) (s t : Bytes) (h : Heap)
    → Shows u s
    → Shows v t
    → Fits (chat_text s t)
    → Fits (codes "client_scriptargs_json " ++ s)
    → (sa_make_chat_command u v h ≡ done (copy_in (chat_text s t) h) (with_copy (chat_text s t) h))
      × (sa_make_generic_server_command u h
          ≡ done
              (copy_in (codes "client_command " ++ s) h)
              (with_copy (codes "client_command " ++ s) h))
      × (sa_make_autocomplete_request u h
          ≡ done
              (copy_in (codes "client_scriptargs_json " ++ s) h)
              (with_copy (codes "client_scriptargs_json " ++ s) h))
unfolding sa_make_chat_command sa_make_generic_server_command sa_make_autocomplete_request
sa_make_lem u v s t h su sv fits_chat fits = (
  ground (arith, su h, sv h, make_copy_lem (chat_text s t) h fits_chat),
  ground (arith, su h, make_copy_lem (codes "client_command " ++ s) h (omega arith)),
  ground (arith, su h, make_copy_lem (codes "client_scriptargs_json " ++ s) h fits),
)

-- The text between the channel and the message of a chat command.
abbrev pub between : Bytes
between = codes "\", msg:\""

-- The arguments of a chat command are not escaped: a channel or a message that holds the text
-- between them makes the command of another channel and another message.
pub chat_text_ambiguous :
    (a b c : Bytes)
    → (chat_text (a ++ (between ++ b)) c ≡ chat_text a (b ++ (between ++ c)))
      × (a ++ (between ++ b) ≢ a)
unfolding chat_text
chat_text_ambiguous a b c = (simp append_assoc, longer a)
  where
    longer : (s : Bytes) → s ++ (between ++ b) ≢ s
    longer s e = omega (arith, ap length e, length-append s (between ++ b))

module _ (d : SharedData) (h : Heap) where
  -- The view of a string that is not null queues it.
  queued : (s : Bytes) → Fits s → sd_add_back_write d (make_view s) h ≡ done (add_back_write s d) h
  queued s fits =
      sd_add_back_write_lem d (make_view s) s h (make_view-Shows s fits) ∙ unfold make_view in refl

  poll_queued : sa_do_poll_server d h ≡ done (add_back_write (codes "client_poll_json") d) h
  unfolding sa_do_poll_server make_view_from_raw make_view
  poll_queued = queued (codes "client_poll_json") (omega arith)

  autocomplete_queued :
      (v : SizedView) (s : Bytes)
      → Shows v s
      → Fits (codes "client_scriptargs_json " ++ s)
      → sa_do_autocomplete_request d v h
        ≡ done (add_back_write (codes "client_scriptargs_json " ++ s) d) (used_address h)
  unfolding sa_do_autocomplete_request sa_make_autocomplete_request
  autocomplete_queued v s shows fits =
      let req = codes "client_scriptargs_json " ++ s in
      ground (
        arith,
        shows h,
        make_copy_lem req h fits,
        make_view_owned_lem req h,
        sd_add_back_write_lem d (view_of_copy req) req (with_copy req h) (view_of_copy-Shows req),
        free_sized_string-make_copy req h,
      )

-- The polls and the autocomplete requests queue one message each, behind all others, and leave
-- nothing of their own in memory. The view shows the script's name, and the request fits (`Fits`).
pub sa_do_plain :
    (d : SharedData) (v : SizedView) (s : Bytes) (h : Heap)
    → Shows v s
    → Fits (codes "client_scriptargs_json " ++ s)
    → (sa_do_poll_server d h ≡ done (add_back_write (codes "client_poll_json") d) h)
      × (sa_do_autocomplete_request d v h
          ≡ done (add_back_write (codes "client_scriptargs_json " ++ s) d) (used_address h))
sa_do_plain d v s h shows fits = (poll_queued d h, autocomplete_queued d h v s shows fits)

-- The views show these strings, one by one.
abbrev pub ShowAll : List SizedView → List Bytes → Type 0
ShowAll [] [] = Unit {0}
ShowAll [] (s ∷ ss) = ⊥
ShowAll (v ∷ vs) [] = ⊥
ShowAll (v ∷ vs) (s ∷ ss) = Shows v s × ShowAll vs ss

read_views_lem :
    (vs : List SizedView) (ss : List Bytes) (h : Heap) → ShowAll vs ss → read_views vs h ≡ done ss h
unfolding read_views
read_views_lem [] [] h all = refl
read_views_lem [] (s ∷ ss) h all = absurd all
read_views_lem (v ∷ vs) [] h all = absurd all
read_views_lem (v ∷ vs) (s ∷ ss) h all = ground (arith, (all.0) h, read_views_lem vs ss h all.1)

module _ (lib : JsonLib) where
  open lib use {Float}

  -- The requests to scripts queue one message each, their command and what the JSON library makes
  -- of their arguments, and allocate nothing. To end all scripts is to end the script -1. The
  -- views show the keys, and each command fits (`Fits`).
  pub sa_do_script :
      (d : SharedData) (h : Heap) (id width height : ℤ) (wx wy x y : Float)
      (keys pressed released : List SizedView) (ks ps rs : List Bytes)
      → ShowAll keys ks
      → ShowAll pressed ps
      → ShowAll released rs
      → Fits (terminate_text lib (negsuc 0))
      → Fits (terminate_text lib id)
      → Fits (keystrokes_text lib id ks ps rs)
      → Fits (mouse_text lib id wx wy x y)
      → Fits (script_info_text lib id width height)
      → (sa_do_terminate_all_scripts lib d h
          ≡ done (add_back_write (terminate_text lib (negsuc 0)) d) h)
        × (sa_do_terminate_script lib d id h ≡ done (add_back_write (terminate_text lib id) d) h)
        × (sa_do_send_keystrokes_to_script lib d id keys pressed released h
            ≡ done (add_back_write (keystrokes_text lib id ks ps rs) d) h)
        × (sa_do_update_mouse_to_script lib d id wx wy x y h
            ≡ done (add_back_write (mouse_text lib id wx wy x y) d) h)
        × (sa_do_send_script_info lib d id width height h
            ≡ done (add_back_write (script_info_text lib id width height) d) h)
  unfolding sa_do_terminate_all_scripts sa_do_terminate_script sa_do_send_keystrokes_to_script
      sa_do_update_mouse_to_script sa_do_send_script_info
  sa_do_script d h id width height wx wy x y keys pressed released ks ps rs hk hp hr f0 f1 f2 f3
        f4 =
      (
        queued d h _ f0,
        queued d h _ f1,
        ground (
          arith,
          read_views_lem keys ks h hk,
          read_views_lem pressed ps h hp,
          read_views_lem released rs h hr,
          queued d h (keystrokes_text lib id ks ps rs) f2,
        ),
        queued d h _ f3,
        queued d h _ f4,
      )
