-- ===== src/Util/Atomic/Guarantee.antt =====
-- What `atomic_write_all` promises, under its own file names.
use libncclient.Common.{
  ◌≡◌, ◌≢◌, ◌⊎◌, inl, inr, refl, sym, ap, ◌∙◌, true, false, [], ◌∷◌, ◌++◌, Bytes, bytes_eq, codes,
  arith, All, length, drop, take, length-append, drop-append, ◌==◌,
}
use libncclient.Util.Files.{Files}
use libncclient.Util.Atomic.{
  Ending, gave, Answers, Platform, windows, atomic_write_all, atomic_extension,
}
use libncclient.Util.Atomic.Logic.{Triple, After, pure_rule, if_rule, weaken}
use libncclient.Util.Atomic.Safe.{Frame, Unwritten, Written, Kept, Whole}
use libncclient.Util.Atomic.Crash.{IsComplete, replace_all-Triple, replace_windows-Triple}

abbrev pub atomic : Bytes → Bytes
atomic file = file ++ atomic_extension

abbrev pub backup : Bytes → Bytes
backup file = file ++ codes ".back"

atomic≢file : (file : Bytes) → atomic file ≢ file
atomic≢file file e = absurd (omega (arith, ap length e, length-append file atomic_extension))

backup≢atomic : (file : Bytes) → backup file ≢ atomic file
backup≢atomic file e =
    let same : codes ".back" ≡ atomic_extension =
      sym (drop-append file (codes ".back"))
      ∙ ap (drop (length file)) e
      ∙ drop-append file atomic_extension in
    let wrong : false ≡ true = ap (λ s. bytes_eq s atomic_extension) same in cc

backup≢file : (file : Bytes) → backup file ≢ file
backup≢file file e = absurd (omega (arith, ap length e, length-append file (codes ".back")))

nothing : (contents : Bytes) → (length contents == 0) ≡ true → contents ≡ []
nothing [] e = refl
nothing (x ∷ contents) e = absurd (ground (arith, e))

-- What is so at the end of a run that is not killed.
abbrev pub Ended : Bytes → Bytes → Files → Unit {0} → Files → Type 0
Ended file contents before u f =
    Written file (atomic file) (backup file) before contents f
    ⊎ ((contents ≡ []) × Unwritten file (atomic file) (backup file) before f)

all-Triple :
    (platform : Platform) (os : Answers) (file contents : Bytes) (before : Files)
    → IsComplete contents platform os
    → Triple
        (Whole file (atomic file) (backup file) before platform contents)
        (Unwritten file (atomic file) (backup file) before)
        (atomic_write_all platform os file contents)
        (Ended file contents before)
        (Kept file (atomic file) (backup file) before platform)
unfolding atomic_write_all
all-Triple platform os file contents before complete =
    let R = Whole file (atomic file) (backup file) before platform contents in
    let E = Kept file (atomic file) (backup file) before platform in
    let P = Unwritten file (atomic file) (backup file) before in
    if_rule R P (Ended file contents before) E (length contents == 0) _ _
      (λ none_given.
        pure_rule R P (Ended file contents before) E tt
          (λ f p. inr (nothing contents none_given, p)))
      (λ some_given.
        weaken R P _ (Ended file contents before) E _ (λ u f w. inl w)
          (replace_all-Triple platform file (atomic file) (backup file) before contents
            (atomic≢file file) (backup≢atomic file) (backup≢file file) os complete))

returned_as :
    (e : Ending (Unit {0})) (Q : Unit {0} → Files → Type 0) (E : Files → Type 0) (f : Files)
    → After Q E e f
    → e ≡ gave tt
    → Q tt f
returned_as (gave u) Q E f q e = q
returned_as _ Q E f q e = absurd cc

-- Wherever `atomic_write_all` is stopped, behind any of its system calls, and however the system
-- answers them, the file has its old contents or all of the new ones, or, on Windows alone, where
-- `ReplaceFileA` is stopped or fails between its two moves, it is not there and the old contents have
-- the backup name. No file but it, its `.atom` file and its `.back` file has changed. On Windows that
-- `CreateFile` succeeds and `WriteFile` writes all of the data is a condition.
pub atomic_write_all-Whole :
    (platform : Platform) (os : Answers) (file contents : Bytes) (before : Files)
    → IsComplete contents platform os
    → All
        (Whole file (atomic file) (backup file) before platform contents)
        (atomic_write_all platform os file contents before).log
atomic_write_all-Whole platform os file contents before complete =
    ((all-Triple platform os file contents before complete).reaches before
      (refl, λ name a b c. refl)).0

-- Where `atomic_write_all` returns, the file has the new contents and the `.atom` file is gone,
-- or there was no file and there still is none, since the result of that `rename` is not looked at,
-- or the data is empty and nothing has changed. Where it throws, the file has its old contents, or,
-- on Windows alone, it is not there and the old contents have the backup name (`Kept`). No file but
-- it and its two companions has changed. On Windows that `CreateFile` succeeds and `WriteFile` writes
-- all of the data is a condition.
pub atomic_write_all_lem :
    (platform : Platform) (os : Answers) (file contents : Bytes) (before : Files)
    → IsComplete contents platform os
    → After
        (Ended file contents before)
        (Kept file (atomic file) (backup file) before platform)
        (atomic_write_all platform os file contents before).ending
        (atomic_write_all platform os file contents before).now
atomic_write_all_lem platform os file contents before complete =
    ((all-Triple platform os file contents before complete).reaches before
      (refl, λ name a b c. refl)).1

-- On Windows, where `CreateFile` succeeds and `atomic_write_all` is given data and returns, the
-- file has the chars that `WriteFile` wrote, be they all of the data or fewer: a short write is
-- not noticed, and the old contents are lost to it. (Where there was no file there may be none.)
pub atomic_write_all_windows :
    (os : Answers) (file contents : Bytes) (before : Files)
    → os.opened ≡ true
    → contents ≢ []
    → (atomic_write_all windows os file contents before).ending ≡ gave tt
    → Written file
        (atomic file)
        (backup file)
        before
        (take os.written_by_windows contents)
        (atomic_write_all windows os file contents before).now
unfolding atomic_write_all
atomic_write_all_windows os file contents before on given returned =
    let part = take os.written_by_windows contents in
    let P = Unwritten file (atomic file) (backup file) before in
    let all =
      if_rule (Frame file (atomic file) (backup file) before) P
        (λ u. Written file (atomic file) (backup file) before part)
        (Kept file (atomic file) (backup file) before windows) (length contents == 0) _ _
        (λ none_given. absurd (given (nothing contents none_given)))
        (λ some_given.
          replace_windows-Triple file (atomic file) (backup file) before contents os
            (atomic≢file file) on (backup≢atomic file) (backup≢file file)) in
    returned_as (atomic_write_all windows os file contents before).ending _ _ _
      (all.reaches before (refl, λ name a b c. refl)).1 returned
