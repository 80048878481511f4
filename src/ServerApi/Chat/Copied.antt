-- ===== src/ServerApi/Chat/Copied.antt =====
-- What a chat response gives, by what the JSON library reads in its text.
use libncclient.Common.{
  ℕ, suc, ◌≡◌, ◌⊎◌, inl, inr, refl, true, false, List, [], ◌∷◌, some, Bytes, codes, pos, length,
  ◌<◌, ◌^◌, to_int-of_lt, All, arith,
}
use libncclient.Memory.{Heap, done}
use libncclient.Interop.Copies.{
  Fits, make_copy_lem, copy_in, with_copy, c_str_sized_to_cpp-make_copy,
}
use libncclient.ServerApi.Json.{JsonLib}
use libncclient.ServerApi.Response.{ServerCommandType}
use libncclient.ServerApi.Response.Classify.{info_in}
use libncclient.ServerApi.Parse.{copy_or_empty}
use libncclient.ServerApi.Parse.Reads.{HasString, HasStrings, string_at_lem, strings_at_lem}
use libncclient.ServerApi.Chat.{
  ChatApiInfo, read_elements, read_chat, chat_body, sa_chat_api_to_info, copy_msgs, copy_channels,
  copy_tells, copy_notifs,
}
use libncclient.ServerApi.Chat.Arrays.{
  FitBoth, after_each, after_msgs, after_tells, msgs_in, channels_in, tells_in, notifs_in, array_in,
  after_array, make_array_lem, copy_msgs_lem, copy_channels_lem, copy_tells_lem, copy_notifs_lem,
}

module _ (lib : JsonLib) where
  open lib use {Json, parse, at_key, has_key, size, at_index}

  -- The elements from `i` on have these two strings.
  abbrev pub HasElements : Json → Bytes → Bytes → ℕ → List (Bytes × Bytes) → Type 0
  HasElements j first second i [] = Unit {0}
  HasElements j first second i ((a, b) ∷ ps) =
      (element : Json) × (at_index j i ≡ some element)
      × HasString lib element first a
      × HasString lib element second b
      × HasElements j first second (suc i) ps

  read_elements_lem :
      (j : Json) (first second : Bytes) (i : ℕ) (ps : List (Bytes × Bytes)) (h : Heap)
      → HasElements j first second i ps
      → read_elements lib j first second i (length ps) h ≡ done ps h
  unfolding read_elements
  read_elements_lem j first second i [] h there = refl
  read_elements_lem j first second i ((a, b) ∷ ps) h (element, found, fa, fb, there) = ground (
    arith,
    found,
    string_at_lem lib element first a h fa,
    string_at_lem lib element second b h fb,
    read_elements_lem j first second (suc i) ps h there,
  )

  -- The array under the key, with its elements.
  pub record HasArray (j : Json) (key first second : Bytes) (ps : List (Bytes × Bytes))
      : Type 0 where
    pub value : Json
    pub found : at_key j key ≡ some value
    pub sized : size value ≡ length ps
    pub elements : HasElements value first second 0 ps

  -- The string under the key, or the empty one where the key is missing.
  abbrev pub HasOrLacks : Json → Bytes → Bytes → Type 0
  HasOrLacks j key s =
      ((has_key j key ≡ true) × HasString lib j key s) ⊎ ((has_key j key ≡ false) × (s ≡ []))

  -- What the library reads in a chat response.
  pub record HasChat (text : Bytes) (channels notifs : List Bytes)
      (msgs tells : List (Bytes × Bytes)) (user root : Bytes) : Type 0 where
    pub json : Json
    pub parsed : parse text ≡ some json
    pub channels_there : HasStrings lib json (codes "channels") channels
    pub notifs_there : HasStrings lib json (codes "notifs") notifs
    pub msgs_there : HasArray json (codes "data") (codes "channel") (codes "text") msgs
    pub tells_there : HasArray json (codes "tells") (codes "user") (codes "text") tells
    pub user_there : HasOrLacks json (codes "user") user
    pub root_there : HasOrLacks json (codes "root_user") root

  copy_or_empty_lem :
      (j : Json) (key s : Bytes) (h : Heap)
      → HasOrLacks j key s
      → Fits s
      → copy_or_empty lib j key h ≡ done (copy_in s h) (with_copy s h)
  copy_or_empty_lem j key s h (inl (has, there)) fits =
      ground (arith, string_at_lem lib j key s h there, make_copy_lem s h fits)
  copy_or_empty_lem j key s h (inr (lacks, empty)) fits =
      ground (arith, make_copy_lem [] h (omega arith))

  module _ (text : Bytes) (channels notifs : List Bytes) (msgs tells : List (Bytes × Bytes))
      (user root : Bytes) (p : HasChat text channels notifs msgs tells user root) where
    read_chat_lem : (h : Heap) → read_chat lib p.json h ≡ done (channels, notifs, msgs, tells) h
    unfolding read_chat
    read_chat_lem h = ground (
      arith,
      strings_at_lem lib p.json (codes "channels") channels h p.channels_there,
      strings_at_lem lib p.json (codes "notifs") notifs h p.notifs_there,
      p.msgs_there.found,
      p.msgs_there.sized,
      read_elements_lem p.msgs_there.value (codes "channel") (codes "text") 0 msgs h
          p.msgs_there.elements,
      p.tells_there.found,
      p.tells_there.sized,
      read_elements_lem p.tells_there.value (codes "user") (codes "text") 0 tells h
          p.tells_there.elements,
    )

  -- The memory after all but the two names were copied, and after all.
  abbrev pub after_arrays :
      List Bytes → List Bytes → List (Bytes × Bytes) → List (Bytes × Bytes) → Heap → Heap
  after_arrays channels notifs msgs tells h = after_array after_each notifs (
      after_array after_tells tells
        (after_array after_each channels (after_array after_msgs msgs h)))

  -- The info of these texts, copied from this memory on.
  abbrev pub chat_in :
      List Bytes
      → List Bytes
      → List (Bytes × Bytes)
      → List (Bytes × Bytes)
      → Bytes
      → Bytes
      → Heap
      → ChatApiInfo
  chat_in channels notifs msgs tells user root h = record {
    msgs = array_in msgs_in msgs h;
    num_msgs = pos (length msgs);
    in_channels = array_in channels_in channels (after_array after_msgs msgs h);
    num_in_channels = pos (length channels);
    tells =
        array_in tells_in tells (after_array after_each channels (after_array after_msgs msgs h));
    num_tells = pos (length tells);
    notifs = array_in notifs_in notifs (
        after_array after_tells tells
          (after_array after_each channels (after_array after_msgs msgs h)));
    num_notifs = pos (length notifs);
    current_user = copy_in user (after_arrays channels notifs msgs tells h);
    root_user = copy_in root (with_copy user (after_arrays channels notifs msgs tells h));
  }

  chat_body_lem :
      (text : Bytes) (channels notifs : List Bytes) (msgs tells : List (Bytes × Bytes))
      (user root : Bytes) (h : Heap)
      → HasChat text channels notifs msgs tells user root
      → length channels < 2 ^ 31
      → length notifs < 2 ^ 31
      → length msgs < 2 ^ 31
      → length tells < 2 ^ 31
      → All Fits channels
      → All Fits notifs
      → All FitBoth msgs
      → All FitBoth tells
      → Fits user
      → Fits root
      → chat_body lib text h
        ≡ done
            (chat_in channels notifs msgs tells user root h)
            (with_copy root (with_copy user (after_arrays channels notifs msgs tells h)))
  unfolding chat_body
  chat_body_lem text channels notifs msgs tells user root h p lc ln lm lt fc fn fm ft fu fr =
      let h1 = after_array after_msgs msgs h in
      let h2 = after_array after_each channels h1 in
      let h3 = after_array after_tells tells h2 in
      let h4 = after_array after_each notifs h3 in
      ground (
        arith,
        p.parsed,
        read_chat_lem text channels notifs msgs tells user root p h,
        make_array_lem copy_msgs msgs_in after_msgs msgs h (λ g. copy_msgs_lem msgs g fm),
        make_array_lem copy_channels channels_in after_each channels h1
            (λ g. copy_channels_lem channels g fc),
        make_array_lem copy_tells tells_in after_tells tells h2 (λ g. copy_tells_lem tells g ft),
        make_array_lem copy_notifs notifs_in after_each notifs h3
            (λ g. copy_notifs_lem notifs g fn),
        copy_or_empty_lem p.json (codes "user") user h4 p.user_there fu,
        copy_or_empty_lem p.json (codes "root_user") root (with_copy user h4) p.root_there fr,
        to_int-of_lt (length channels) lc,
        to_int-of_lt (length notifs) ln,
        to_int-of_lt (length msgs) lm,
        to_int-of_lt (length tells) lt,
      )

  -- A chat response gives its channels, its messages with their channels, its tells with their
  -- users and its notifications, each list whole and in order, each string copied, in an array where
  -- there are any, and the two
  -- names, which are empty where the response has none. The text is not empty, the JSON library
  -- reads these strings in it (`HasChat`), every string fits (`Fits`), and each list has fewer
  -- than 2 ^ 31 entries.
  pub sa_chat_api_to_info_lem :
      (t : ServerCommandType) (c : ℕ) (s : Bytes) (channels notifs : List Bytes)
      (msgs tells : List (Bytes × Bytes)) (user root : Bytes) (h : Heap)
      → HasChat (c ∷ s) channels notifs msgs tells user root
      → length channels < 2 ^ 31
      → length notifs < 2 ^ 31
      → length msgs < 2 ^ 31
      → length tells < 2 ^ 31
      → All Fits channels
      → All Fits notifs
      → All FitBoth msgs
      → All FitBoth tells
      → Fits user
      → Fits root
      → sa_chat_api_to_info lib (info_in t (c ∷ s) h) (with_copy (c ∷ s) h)
        ≡ done (chat_in channels notifs msgs tells user root (with_copy (c ∷ s) h)) (
            with_copy root
              (with_copy user (after_arrays channels notifs msgs tells (with_copy (c ∷ s) h))))
  unfolding sa_chat_api_to_info
  sa_chat_api_to_info_lem t c s channels notifs msgs tells user root h p lc ln lm lt fc fn fm ft fu
        fr =
      ground (
        arith,
        c_str_sized_to_cpp-make_copy (c ∷ s) h,
        chat_body_lem (c ∷ s) channels notifs msgs tells user root (with_copy (c ∷ s) h) p lc ln lm
            lt fc fn fm ft fu fr,
      )
