-- ===== src/Tests/Files.antt =====
-- Runs of `atomic_write_all` of nc_util.hpp.
use libncclient.Common.{◌≡◌, ◌≢◌, refl, true, [], ◌∷◌, none, some, Bytes, codes, arith, All, take}
use libncclient.Util.Files.{Files, file_exists, put}
use libncclient.Util.Atomic.{
  gave, threw, unanswered, minus_one, chars, Answers, write_loop, write_posix, write_windows,
  replace_loop, put_in_place, replacement, replace_file, replace_half, succeeds, fails, moves_half,
  posix, windows, atomic_write_all,
}
use libncclient.Util.Atomic.Logic.{After}
use libncclient.Util.Atomic.Safe.{Whole, Kept, Written}
use libncclient.Util.Atomic.Guarantee.{
  atomic, backup, Ended, atomic_write_all-Whole, atomic_write_all_lem, atomic_write_all_windows,
}
use libncclient.Util.Atomic.Ends.{atomic_write_all-answered}

abbrev name : Bytes
name = codes "key"

abbrev old_files : Files
old_files = put name (some (codes "old")) (λ other. none)

-- Two writes, and a `rename` that fails once.
abbrev good : Answers
good = record {
  opened = true;
  writes = chars 2 ∷ chars 1 ∷ chars 1 ∷ [];
  written_by_windows = 1;
  renamed = true;
  rounds =
      (record { reply = fails; elapsed = 4 })
      ∷ (record { reply = succeeds; elapsed = 7 })
      ∷ (record { reply = succeeds; elapsed = 1007 })
      ∷ [];
}

abbrev half : Answers
half = record good {
  written_by_windows = 3;
  rounds =
      (record { reply = moves_half; elapsed = 4 })
      ∷ (record { reply = succeeds; elapsed = 1007 })
      ∷ [];
}

replaced : (atomic_write_all posix good name (codes "new") old_files).now name ≡ some (codes "new")
unfolding atomic_write_all write_posix write_loop put_in_place replace_loop replacement replace_file
    replace_half file_exists
replaced = refl

short_returns : (atomic_write_all windows good name (codes "new") old_files).ending ≡ gave tt
unfolding atomic_write_all write_windows put_in_place replace_loop replacement replace_file
    replace_half file_exists
short_returns = refl

short : (atomic_write_all windows good name (codes "new") old_files).now name ≡ some (codes "n")
unfolding atomic_write_all write_windows put_in_place replace_loop replacement replace_file
    replace_half file_exists
short = refl

-- `ReplaceFileA` fails between its moves: the function throws, and the file is gone.
half_moved :
    ((atomic_write_all windows half name (codes "new") old_files).ending ≡ threw)
    × ((atomic_write_all windows half name (codes "new") old_files).now name ≡ none)
unfolding atomic_write_all write_windows put_in_place replace_loop replacement replace_file
    replace_half file_exists
half_moved = (refl, refl)

-- A write that fails.
failed :
    (atomic_write_all posix
      (record good { writes = chars 2 ∷ minus_one ∷ [] })
      name
      (codes "new")
      old_files).ending
    ≡ threw
unfolding atomic_write_all write_posix write_loop
failed = refl

atomic_write_all-Whole_example :
    All
      (Whole name (atomic name) (backup name) old_files posix (codes "new"))
      (atomic_write_all posix good name (codes "new") old_files).log
atomic_write_all-Whole_example = atomic_write_all-Whole posix good name (codes "new") old_files tt

atomic_write_all_lem_example :
    After
      (Ended name (codes "new") old_files)
      (Kept name (atomic name) (backup name) old_files posix)
      (atomic_write_all posix good name (codes "new") old_files).ending
      (atomic_write_all posix good name (codes "new") old_files).now
atomic_write_all_lem_example = atomic_write_all_lem posix good name (codes "new") old_files tt

atomic_write_all_windows_example :
    Written name
      (atomic name)
      (backup name)
      old_files
      (take 1 (codes "new"))
      (atomic_write_all windows good name (codes "new") old_files).now
atomic_write_all_windows_example =
    atomic_write_all_windows good name (codes "new") old_files refl (λ e. cc) short_returns

atomic_write_all-answered_example :
    (atomic_write_all posix good name (codes "new") old_files).ending ≢ unanswered
atomic_write_all-answered_example =
    atomic_write_all-answered posix good name (codes "new") old_files
      (omega arith, (omega arith, (omega arith, tt))) (omega arith) refl
