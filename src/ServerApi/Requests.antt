-- ===== src/ServerApi/Requests.antt =====
-- The functions that make requests, `sa_make_*`, and those that queue them, `sa_do_*`.
pub mod Queued
use libncclient.Common.{List, [], ◌∷◌, ◌++◌, Bytes, codes, ℤ, negsuc}
use libncclient.Memory.{M, pure, ◌>>=◌}
use libncclient.Interop.{
  SizedString, SizedView, view_to_cpp, make_copy, make_view, make_view_owned, make_view_from_raw,
  free_sized_string,
}
use libncclient.SharedData.{SharedData, sd_add_back_write}
use libncclient.ServerApi.Json.{JsonLib}

-- `"client_chat #hs.msg.send({channel:\"" + s1 + "\", msg:\"" + s2 + "\"})"`.
unfoldable pub chat_text : Bytes → Bytes → Bytes
chat_text s1 s2 =
    codes "client_chat #hs.msg.send({channel:\""
    ++ (s1 ++ (codes "\", msg:\"" ++ (s2 ++ codes "\"})")))

unfoldable pub sa_make_chat_command : SizedView → SizedView → M SizedString
sa_make_chat_command chat_channel chat_msg = do
  s1 ← view_to_cpp chat_channel
  s2 ← view_to_cpp chat_msg
  make_copy (chat_text s1 s2)

unfoldable pub sa_make_generic_server_command : SizedView → M SizedString
sa_make_generic_server_command server_msg = do
  str ← view_to_cpp server_msg
  make_copy (codes "client_command " ++ str)

unfoldable pub sa_make_autocomplete_request : SizedView → M SizedString
sa_make_autocomplete_request server_msg = do
  str ← view_to_cpp server_msg
  make_copy (codes "client_scriptargs_json " ++ str)

-- The literal, with the NUL that ends it.
unfoldable pub sa_do_poll_server : SharedData → M SharedData
sa_do_poll_server d = do
  view ← make_view_from_raw (codes "client_poll_json" ++ 0 ∷ [])
  sd_add_back_write d view

unfoldable pub sa_do_autocomplete_request : SharedData → SizedView → M SharedData
sa_do_autocomplete_request d scriptname = do
  req ← sa_make_autocomplete_request scriptname
  view ← make_view_owned req
  e ← sd_add_back_write d view
  _ ← free_sized_string req
  pure e

-- A loop that pushes the text of each view.
unfoldable pub read_views : List SizedView → M (List Bytes)
read_views [] = pure []
read_views (v ∷ vs) = do s ← view_to_cpp v; rest ← read_views vs; pure (s ∷ rest)

module _ (lib : JsonLib) where
  open lib use {Json, Float, object, of_int, of_float, of_strings, dump}

  -- `{"id": script_id}`.
  unfoldable pub terminate_text : ℤ → Bytes
  terminate_text id =
      codes "client_terminate_scripts"
      ++ (codes " " ++ dump (object ((codes "id", of_int id) ∷ [])))

  unfoldable pub sa_do_terminate_all_scripts : SharedData → M SharedData
  sa_do_terminate_all_scripts d = sd_add_back_write d (make_view (terminate_text (negsuc 0)))

  unfoldable pub sa_do_terminate_script : SharedData → ℤ → M SharedData
  sa_do_terminate_script d script_id = sd_add_back_write d (make_view (terminate_text script_id))

  unfoldable pub keystrokes_text : ℤ → List Bytes → List Bytes → List Bytes → Bytes
  keystrokes_text script_id keys pressed released =
      codes "client_script_keystrokes "
      ++ dump (
          object (
            (codes "id", of_int script_id)
            ∷ (codes "input_keys", of_strings keys)
            ∷ (codes "released_keys", of_strings released)
            ∷ (codes "pressed_keys", of_strings pressed)
            ∷ []))

  -- The arrays come with their `num_` arguments as their lengths.
  unfoldable pub sa_do_send_keystrokes_to_script :
      SharedData → ℤ → List SizedView → List SizedView → List SizedView → M SharedData
  sa_do_send_keystrokes_to_script d script_id keystrokes on_pressed on_released = do
    keys ← read_views keystrokes
    pressed ← read_views on_pressed
    released ← read_views on_released
    sd_add_back_write d (make_view (keystrokes_text script_id keys pressed released))

  unfoldable pub mouse_text : ℤ → Float → Float → Float → Float → Bytes
  mouse_text script_id mousewheel_x mousewheel_y mouse_x mouse_y =
      codes "client_script_mouseinput "
      ++ dump (
          object (
            (codes "id", of_int script_id)
            ∷ (codes "mouse_x", of_float mouse_x)
            ∷ (codes "mouse_y", of_float mouse_y)
            ∷ (codes "mousewheel_x", of_float mousewheel_x)
            ∷ (codes "mousewheel_y", of_float mousewheel_y)
            ∷ []))

  unfoldable pub sa_do_update_mouse_to_script :
      SharedData → ℤ → Float → Float → Float → Float → M SharedData
  sa_do_update_mouse_to_script d script_id wheel_x wheel_y x y =
      sd_add_back_write d (make_view (mouse_text script_id wheel_x wheel_y x y))

  unfoldable pub script_info_text : ℤ → ℤ → ℤ → Bytes
  script_info_text script_id width height =
      codes "client_script_info "
      ++ dump (
          object (
            (codes "id", of_int script_id)
            ∷ (codes "width", of_int width)
            ∷ (codes "height", of_int height)
            ∷ []))

  unfoldable pub sa_do_send_script_info : SharedData → ℤ → ℤ → ℤ → M SharedData
  sa_do_send_script_info d script_id width height =
      sd_add_back_write d (make_view (script_info_text script_id width height))
