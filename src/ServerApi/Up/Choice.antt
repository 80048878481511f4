-- ===== src/ServerApi/Up/Choice.antt =====
-- Which command goes to the server for an upload, and which commands are left alone.
use libncclient.Common.{
  ℕ, ◌≡◌, refl, ap, ◌∙◌, Bool, true, false, List, [], ◌∷◌, ◌++◌, Option, none, some, Bytes, codes,
  ◌||◌, if◌then◌else◌, arith,
}
use libncclient.Memory.{Heap, done}
use libncclient.Interop.{SizedView, make_view}
use libncclient.Interop.Copies.{Fits, Shows, make_view-Shows, make_copy_lem, copy_in, with_copy}
use libncclient.Util.Prefix.{starts_with, starts_with-append, starts_with-mismatch}
use libncclient.Util.Split.{no_ss_split}
use libncclient.Util.Split.Words.{words-lacking, no_ss_split-words}
use libncclient.ServerApi.Fields.{space}
use libncclient.ServerApi.Fields.Cut.{HasNoSpace}
use libncclient.ServerApi.Response.{is_nullptr}
use libncclient.ServerApi.Up.{
  Files, up, up_es6, dry, disk_name, choose, final_command, handle_words, sa_default_up_handling,
}

abbrev has_value : Option Bytes → Bool
has_value none = false
has_value (some s) = true

-- The first value that is there, or the empty text.
abbrev pub first_of_three : Option Bytes → Option Bytes → Option Bytes → Bytes
first_of_three (some s) b c = s
first_of_three none (some s) c = s
first_of_three none none (some s) = s
first_of_three none none none = []

-- What goes to the server for a script, by the files that exist under its name.
abbrev pub expected : Bool → Bytes → Option Bytes → Option Bytes → Option Bytes → Bytes
expected is_dry name ts js es5 =
    (if has_value ts || has_value js then up_es6 else if is_dry then dry else up)
    ++ name
    ++ codes " "
    ++ first_of_three ts js es5

abbrev pub typed : Bool → Bytes
typed is_dry = if is_dry then dry else up

choose-expected :
    (files : Files) (sdir text name cmd : Bytes) (is_dry : Bool)
    → starts_with cmd dry ≡ is_dry
    → final_command name (choose files sdir text name cmd)
      ≡ expected is_dry name
          (files (disk_name sdir text name (codes ".ts")))
          (files (disk_name sdir text name (codes ".js")))
          (files (disk_name sdir text name (codes ".es5.js")))
unfolding choose final_command
choose-expected files sdir text name cmd is_dry e = ground arith

typed-dry : (is_dry : Bool) (name : Bytes) → starts_with (typed is_dry ++ name) dry ≡ is_dry
typed-dry true name = starts_with-append dry name
typed-dry false name = starts_with-mismatch up dry name refl

typed-handled :
    (is_dry : Bool) (name : Bytes)
    → (starts_with (typed is_dry ++ name) up || starts_with (typed is_dry ++ name) dry) ≡ true
typed-handled true name = rw (starts_with-append dry name, starts_with-mismatch dry up name refl)
typed-handled false name = rw (starts_with-append up name)

typed-words :
    (is_dry : Bool) (c : ℕ) (s : Bytes)
    → HasNoSpace (c ∷ s)
    → (w : Bytes) × (no_ss_split (typed is_dry ++ c ∷ s) (codes " ") ≡ some (w ∷ (c ∷ s) ∷ []))
typed-words true c s h = (
  codes "#dry",
  no_ss_split-words (dry ++ c ∷ s) space
      ∙ ap (λ ws. some (codes "#dry" ∷ ws)) (words-lacking space [] (c ∷ s) h),
)
typed-words false c s h = (
  codes "#up",
  no_ss_split-words (up ++ c ∷ s) space
      ∙ ap (λ ws. some (codes "#up" ∷ ws)) (words-lacking space [] (c ∷ s) h),
)

module _ (files : Files) (user_view dir_view : SizedView) (text sdir : Bytes) (h : Heap) where
  -- A command gets past the guards and is split.
  reach_words :
      (cmd : Bytes) (ws : List Bytes)
      → Shows dir_view sdir
      → is_nullptr user_view.str ≡ false
      → is_nullptr dir_view.str ≡ false
      → Fits cmd
      → no_ss_split cmd (codes " ") ≡ some ws
      → sa_default_up_handling files user_view (make_view cmd) dir_view h
        ≡ handle_words files sdir user_view cmd ws h
  unfolding sa_default_up_handling make_view
  reach_words cmd ws sd nu nd fits words_eq =
      ground (arith, sd h, make_view-Shows cmd fits h, words_eq)

  handle_two :
      (cmd w name r : Bytes)
      → Shows user_view text
      → (starts_with cmd up || starts_with cmd dry) ≡ true
      → final_command name (choose files sdir text name cmd) ≡ r
      → Fits r
      → handle_words files sdir user_view cmd (w ∷ name ∷ []) h ≡ done (copy_in r h) (with_copy r h)
  unfolding handle_words
  handle_two cmd w name r su at e fits = ground (arith, su h, make_copy_lem r h fits)

handle_other :
    (files : Files) (sdir cmd : Bytes) (v : SizedView) (ws : List Bytes) (h : Heap)
    → (starts_with cmd up || starts_with cmd dry) ≡ false
    → Fits cmd
    → handle_words files sdir v cmd ws h ≡ done (copy_in cmd h) (with_copy cmd h)
unfolding handle_words
handle_other files sdir cmd v [] h past fits = make_copy_lem cmd h fits
handle_other files sdir cmd v (a ∷ []) h past fits = make_copy_lem cmd h fits
handle_other files sdir cmd v (a ∷ b ∷ []) h past fits = ground (arith, make_copy_lem cmd h fits)
handle_other files sdir cmd v (a ∷ b ∷ c ∷ ws) h past fits = make_copy_lem cmd h fits

-- `#up name` and `#dry name` become a command with the script's text. Of the files that exist
-- under the user and the name a `.ts` goes before a `.js`, and both before a `.es5.js`; with none
-- the text is empty. The command is `#up_es6` if there is a `.ts` or a `.js`, for a dry run too,
-- and else the one that was typed. No view is nullptr, the views show their texts, the name is not
-- empty and has no space, and the command and the result fit (`Fits`).
pub sa_default_up_handling_lem :
    (files : Files) (user_view dir_view : SizedView) (text sdir : Bytes) (is_dry : Bool) (c : ℕ)
    (s r : Bytes) (h : Heap)
    → Shows user_view text
    → Shows dir_view sdir
    → is_nullptr user_view.str ≡ false
    → is_nullptr dir_view.str ≡ false
    → HasNoSpace (c ∷ s)
    → Fits (typed is_dry ++ c ∷ s)
    → expected is_dry
        (c ∷ s)
        (files (disk_name sdir text (c ∷ s) (codes ".ts")))
        (files (disk_name sdir text (c ∷ s) (codes ".js")))
        (files (disk_name sdir text (c ∷ s) (codes ".es5.js")))
      ≡ r
    → Fits r
    → sa_default_up_handling files user_view (make_view (typed is_dry ++ c ∷ s)) dir_view h
      ≡ done (copy_in r h) (with_copy r h)
sa_default_up_handling_lem files uv dv text sdir is_dry c s r h su sd nu nd ns fits e fits_r =
    let cmd = typed is_dry ++ c ∷ s in
    let (w, split) = typed-words is_dry c s ns in
    reach_words files uv dv text sdir h cmd (w ∷ (c ∷ s) ∷ []) sd nu nd fits split
    ∙ handle_two files uv dv text sdir h cmd w (c ∷ s) r su (typed-handled is_dry (c ∷ s))
        (choose-expected files sdir text (c ∷ s) cmd is_dry (typed-dry is_dry (c ∷ s)) ∙ e) fits_r

-- A command that begins with neither `#up ` nor `#dry ` is copied as it is; that is so for every
-- command that begins with `#up_es6 `, which never gets its script's text. No view is nullptr, the
-- view of the directory shows its text, and both commands fit (`Fits`).
pub sa_default_up_handling_other :
    (files : Files) (user_view dir_view : SizedView) (sdir cmd name : Bytes) (h : Heap)
    → Shows dir_view sdir
    → is_nullptr user_view.str ≡ false
    → is_nullptr dir_view.str ≡ false
    → Fits cmd
    → Fits (up_es6 ++ name)
    → (starts_with cmd up || starts_with cmd dry) ≡ false
    → (sa_default_up_handling files user_view (make_view cmd) dir_view h
        ≡ done (copy_in cmd h) (with_copy cmd h))
      × (sa_default_up_handling files user_view (make_view (up_es6 ++ name)) dir_view h
          ≡ done (copy_in (up_es6 ++ name) h) (with_copy (up_es6 ++ name) h))
sa_default_up_handling_other files uv dv sdir cmd name h sd nu nd fits fits_es6 past = (
  reach_words files uv dv [] sdir h cmd _ sd nu nd fits (no_ss_split-words cmd space)
      ∙ handle_other files sdir cmd uv _ h past fits,
  reach_words files uv dv [] sdir h (up_es6 ++ name) _ sd nu nd fits_es6
        (no_ss_split-words (up_es6 ++ name) space)
      ∙ handle_other files sdir (up_es6 ++ name) uv _ h es6_past fits_es6,
)
  where
    es6_past : (starts_with (up_es6 ++ name) up || starts_with (up_es6 ++ name) dry) ≡ false
    es6_past =
        rw (starts_with-mismatch up_es6 up name refl, starts_with-mismatch up_es6 dry name refl)
