-- ===== src/Util/Atomic.antt =====
-- nc_util.hpp: `atomic_write_all`, for both platforms, as a sequence of system calls. What the system
-- answers is an argument. Each call of the system that may change a file adds the files after it to
-- a log, since the process may be killed between any two of them. The data has fewer than 2 ^ 31
-- chars, as the code's `int` counts have it. Messages to the console are left out.
pub mod Logic
pub mod Safe
pub mod Crash
pub mod Guarantee
pub mod Ends
use libncclient.Common.{
  ℕ, ◌+◌, Bool, true, false, List, [], ◌∷◌, ◌++◌, Option, none, some, Bytes, codes, if◌then◌else◌,
  bytes_eq, ltb, not, length, take, drop, ◌==◌, ◌&&◌,
}
use libncclient.Util.Files.{Files, put, file_exists}

-- How a run of system calls ends: with a result, with an exception, or where the answers of the
-- system that are given here do not go on.
pub data Ending {ℓ} (A : Type ℓ) : Type ℓ where
  gave : A → Ending A
  threw : Ending A
  unanswered : Ending A

-- The files after each call, the oldest first, and the files in the end.
pub record Run {ℓ} (A : Type ℓ) : Type ℓ where
  pub log : List Files
  pub now : Files
  pub ending : Ending A

abbrev pub Sys {ℓ} : Type ℓ → Type ℓ
Sys A = Files → Run A

abbrev pub pure {ℓ} : {A : Type ℓ} → A → Sys A
pure a files = record { log = []; now = files; ending = gave a }

abbrev pub raise {ℓ} : {A : Type ℓ} → Sys A
raise files = record { log = []; now = files; ending = threw }

abbrev pub unknown {ℓ} : {A : Type ℓ} → Sys A
unknown files = record { log = []; now = files; ending = unanswered }

-- A call that changes the files.
abbrev pub call : (Files → Files) → Sys (Unit {0})
call change files = record { log = change files ∷ []; now = change files; ending = gave tt }

abbrev pub ask {ℓ} : {A : Type ℓ} → (Files → A) → Sys A
ask question files = record { log = []; now = files; ending = gave (question files) }

infixl 5 ◌>>=◌
abbrev pub ◌>>=◌ {ℓ κ} : {A : Type ℓ} {B : Type κ} → Sys A → (A → Sys B) → Sys B
◌>>=◌ m f files = elim (m files).ending [
  | gave a ↦ record {
    log = (m files).log ++ (f a (m files).now).log;
    now = (f a (m files).now).now;
    ending = (f a (m files).now).ending;
  }
  | threw ↦ record { log = (m files).log; now = (m files).now; ending = threw }
  | unanswered ↦ record { log = (m files).log; now = (m files).now; ending = unanswered }
]

-- What `write` returns: -1, or the number of chars that it wrote.
pub data Wrote : Type 0 where
  minus_one : Wrote
  chars : ℕ → Wrote

-- How `rename` or `ReplaceFileA` ends: it succeeds, or fails and changes nothing, or, for
-- `ReplaceFileA` alone, fails with ERROR_UNABLE_TO_MOVE_REPLACEMENT_2 where the file has moved to
-- its backup name and the other has not taken its place.
pub data Reply : Type 0 where
  succeeds fails moves_half : Reply

-- The reply, and the time that the timer shows behind it, in milliseconds.
pub record Round : Type 0 where
  pub reply : Reply
  pub elapsed : ℕ

-- The system's answers: whether the file is opened, what each `write` returns, or how much
-- `WriteFile` writes, whether the first `rename` succeeds, and the rounds of the last loop.
pub record Answers : Type 0 where
  pub opened : Bool
  pub writes : List Wrote
  pub written_by_windows : ℕ
  pub renamed : Bool
  pub rounds : List Round

abbrev pub atomic_extension : Bytes
atomic_extension = codes ".atom"

-- `write(fd, &data[written], count)` that wrote so many chars.
abbrev pub write_some : Bytes → Bytes → ℕ → ℕ → Files → Files
write_some atomic_file contents written rval files =
    put atomic_file
      (elim (files atomic_file) [
        | none ↦ none
        | some before ↦ some (before ++ take rval (drop written contents))
      ])
      files

-- The loop of writes.
unfoldable pub write_loop : Bytes → Bytes → ℕ → List Wrote → Sys (Unit {0})
write_loop atomic_file contents written [] =
    if ltb written (length contents) then unknown else pure tt
write_loop atomic_file contents written (minus_one ∷ answers) =
    if ltb written (length contents) then raise else pure tt
write_loop atomic_file contents written (chars rval ∷ answers) =
    let rest = write_loop atomic_file contents (written + rval) answers in
    if ltb written (length contents)
    then (do _ ← call (write_some atomic_file contents written rval); rest)
    else pure tt

-- The part up to `close(fd)`. A `write` to the descriptor -1 of an `open` that failed returns -1.
unfoldable pub write_posix : Answers → Bytes → Bytes → Sys (Unit {0})
write_posix os atomic_file contents =
    if os.opened
    then (do _ ← call (put atomic_file (some [])); write_loop atomic_file contents 0 os.writes)
    else raise

-- The part up to `CloseHandle`. No result is looked at.
unfoldable pub write_windows : Answers → Bytes → Bytes → Sys (Unit {0})
write_windows os atomic_file contents =
    if os.opened
    then (do
      _ ← call (put atomic_file (some []))
      call (write_some atomic_file contents 0 os.written_by_windows))
    else pure tt

abbrev pub rename : Bytes → Bytes → Files → Files
rename from to files = put from none (put to (files from) files)

-- A file that is not there is not moved, whatever else.
abbrev pub moves : Bytes → Bool → Files → Bool
moves from answer files = answer && file_exists from files

abbrev pub is_success : Reply → Bool
is_success succeeds = true
is_success _ = false

abbrev pub is_begun : Reply → Bool
is_begun fails = false
is_begun _ = true

-- The second move of `ReplaceFileA`.
unfoldable pub replace_half : Bytes → Bytes → Reply → Sys Bool
replace_half file atomic_file reply =
    if is_success reply then (do _ ← call (rename atomic_file file); pure true) else pure false

-- `ReplaceFileA` with a backup: both files have to be there, the file moves to the backup name, and
-- then the other moves to its place. Nothing says that the two moves are one.
unfoldable pub replace_file : Bytes → Bytes → Bytes → Reply → Sys Bool
replace_file file atomic_file backup_file reply = do
  begun ← ask (λ files. is_begun reply && (file_exists file files && file_exists atomic_file files))
  (if begun
      then (do _ ← call (rename file backup_file); replace_half file atomic_file reply)
      else pure false)

pub data Platform : Type 0 where
  posix windows : Platform

abbrev pub write_atom : Platform → Answers → Bytes → Bytes → Sys (Unit {0})
write_atom posix = write_posix
write_atom windows = write_windows

-- `rename` on the one platform, which moves in one step, or `ReplaceFileA` on the other; and
-- whether it succeeded.
unfoldable pub replacement : Platform → Bytes → Bytes → Bytes → Reply → Sys Bool
replacement posix file atomic_file backup_file reply = do
  moved ← ask (moves atomic_file (is_success reply))
  (if moved then (do _ ← call (rename atomic_file file); pure true) else pure false)
replacement windows file atomic_file backup_file reply =
    replace_file file atomic_file backup_file reply

-- The loop that replaces the file by the other.
unfoldable pub replace_loop : (Reply → Sys Bool) → List Round → Sys (Unit {0})
replace_loop replace [] = unknown
replace_loop replace (round ∷ rounds) =
    let rest = replace_loop replace rounds in
    (do
      replaced ← replace round.reply
      (if replaced then pure tt else if ltb round.elapsed 1000 then rest else raise))

-- The part behind the written file, where the file is not there yet. The result is not looked at.
unfoldable pub first_rename : Answers → Bytes → Bytes → Sys (Unit {0})
first_rename os atomic_file file = do
  moved ← ask (moves atomic_file os.renamed)
  (if moved then call (rename atomic_file file) else pure tt)

unfoldable pub put_in_place : Platform → Answers → Bytes → Bytes → Bytes → Sys (Unit {0})
put_in_place platform os file atomic_file backup_file = do
  there ← ask (file_exists file)
  if there
      then replace_loop (replacement platform file atomic_file backup_file) os.rounds
      else first_rename os atomic_file file

unfoldable pub atomic_write_all : Platform → Answers → Bytes → Bytes → Sys (Unit {0})
atomic_write_all platform os file contents =
    let atomic_file = file ++ atomic_extension in
    let backup_file = file ++ codes ".back" in
    if length contents == 0 then pure tt else (do
      _ ← write_atom platform os atomic_file contents
      put_in_place platform os file atomic_file backup_file)

-- `no_atomic_write_all`: a stream that does not open writes nothing, and says nothing.
unfoldable pub no_atomic_write_all : Bool → Bytes → Bytes → Sys (Unit {0})
no_atomic_write_all opened file contents =
    if opened then (do _ ← call (put file (some [])); call (put file (some contents))) else pure tt
