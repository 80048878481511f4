-- ===== src/ServerApi/Up.antt =====
-- `sa_default_up_handling`. The script files are a function from paths to contents: `file_exists`
-- asks whether there is one, and `read_file` gives it. The files do not change during the call.
pub mod Choice
use libncclient.Common.{
  Bool, true, false, List, [], ◌∷◌, ◌++◌, Option, none, some, Bytes, codes, ◌&&◌, ◌||◌,
  if◌then◌else◌,
}
use libncclient.Memory.{M, pure, undefined, ◌>>=◌}
use libncclient.Interop.{SizedString, SizedView, null_string, view_to_cpp, make_copy}
use libncclient.Util.Prefix.{starts_with}
use libncclient.Util.Split.{no_ss_split}
use libncclient.ServerApi.Response.{is_nullptr}

abbrev pub Files : Type 0
Files = Bytes → Option Bytes

abbrev pub up : Bytes
up = codes "#up "

abbrev pub up_es6 : Bytes
up_es6 = codes "#up_es6 "

abbrev pub dry : Bytes
dry = codes "#dry "

-- `if(file_exists(f)) { data = read_file(f); comm = c; }` on the pair of `comm` and `data`.
unfoldable pub load : Files → Bytes → (Bytes → Bytes) → Bytes × Bytes → Bytes × Bytes
load files name c (comm, contents) = elim (files name) [
  | none ↦ (comm, contents)
  | some found ↦ (c comm, found)
]

-- `sdir + hardcoded_user + "." + name + extension`.
abbrev pub disk_name : Bytes → Bytes → Bytes → Bytes → Bytes
disk_name sdir text name extension = sdir ++ text ++ codes "." ++ name ++ extension

-- The three tests for a file, in order, from the command that the user typed.
unfoldable pub choose : Files → Bytes → Bytes → Bytes → Bytes → Bytes × Bytes
unfolding load
choose files sdir user_name name unknown_command =
    let comm = if starts_with unknown_command dry then dry else up in
    load files (disk_name sdir user_name name (codes ".ts")) (λ _. up_es6)
      (load files (disk_name sdir user_name name (codes ".js")) (λ _. up_es6)
        (load files (disk_name sdir user_name name (codes ".es5.js")) (λ c. c) (comm, [])))

-- `comm + name + " " + data`.
unfoldable pub final_command : Bytes → Bytes × Bytes → Bytes
final_command name (comm, contents) = comm ++ name ++ codes " " ++ contents

-- The branch for a command of two words, of which the second is the script's name.
unfoldable pub handle_words : Files → Bytes → SizedView → Bytes → List Bytes → M SizedString
handle_words files sdir for_user unknown_command (word ∷ name ∷ []) =
    if starts_with unknown_command up || starts_with unknown_command dry
    then (do
      hardcoded_user ← view_to_cpp for_user
      make_copy (final_command name (choose files sdir hardcoded_user name unknown_command)))
    else make_copy unknown_command
handle_words files sdir for_user unknown_command strings = make_copy unknown_command

unfoldable pub sa_default_up_handling : Files → SizedView → SizedView → SizedView → M SizedString
sa_default_up_handling files for_user server_msg scripts_dir =
    if is_nullptr for_user.str || (is_nullptr server_msg.str || is_nullptr scripts_dir.str)
    then pure null_string
    else (do
      sdir ← view_to_cpp scripts_dir
      unknown_command ← view_to_cpp server_msg
      elim (no_ss_split unknown_command (codes " ")) [
        | none ↦ undefined
        | some strings ↦ handle_words files sdir for_user unknown_command strings
      ])
