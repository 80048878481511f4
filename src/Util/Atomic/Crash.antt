-- ===== src/Util/Atomic/Crash.antt =====
-- The writes of `atomic_write_all`, and all of it: wherever the process is stopped, the file is whole.
use libncclient.Common.{
  ℕ, suc, zero, ◌+◌, ◌≤◌, ◌≡◌, ◌≢◌, inl, refl, sym, ap, ◌∙◌, true, List, [], ◌∷◌, ◌++◌, subst, none,
  some, Bytes, arith, ltb, length, take, take_all, drop,
}
use libncclient.Util.Files.{Files, put}
use libncclient.Util.Atomic.{
  ◌>>=◌, Wrote, minus_one, chars, Answers, write_some, write_loop, write_posix, write_windows,
  Platform, posix, windows, write_atom, put_in_place,
}
use libncclient.Util.Atomic.Logic.{
  Triple, pure_rule, raise_rule, unknown_rule, if_rule, call_rule, bind_rule, weaken, weaken_log,
}
use libncclient.Util.Atomic.Safe.{
  put_same, put_other, Frame, Unwritten, Ready, Kept, Whole, Written, put_atomic-Frame,
  put_in_place-Triple,
}

take_nil : (k : ℕ) → take {A = ℕ} k [] ≡ []
take_nil zero = refl
take_nil (suc k) = refl

take-add : (k r : ℕ) (xs : Bytes) → take k xs ++ take r (drop k xs) ≡ take (k + r) xs
take-add zero r xs = let sum : r ≡ 0 + r = omega arith in ap (λ n. take n xs) sum
take-add (suc k) r [] = take_nil r ∙ sym (take_nil (suc k + r))
take-add (suc k) r (x ∷ xs) =
    let sum : suc (k + r) ≡ suc k + r = omega arith in
    ap (◌∷◌ x) (take-add k r xs) ∙ ap (λ n. take n (x ∷ xs)) sum

-- On Windows, that `CreateFile` and `WriteFile` do all that they are asked to.
abbrev pub IsComplete : Bytes → Platform → Answers → Type 0
IsComplete contents posix os = Unit
IsComplete contents windows os = (os.opened ≡ true) × (length contents ≤ os.written_by_windows)

-- A file, its two companions, the files at the start, and what is to be written.
module _ (platform : Platform) (file atomic_file backup_file : Bytes) (before : Files)
    (contents : Bytes) (atomic≢file : atomic_file ≢ file) where
  -- So many chars are written.
  At : ℕ → Files → Type 0
  At k = Ready file atomic_file backup_file before (take k contents)

  Rest : Files → Type 0
  Rest = Unwritten file atomic_file backup_file before

  Any : Files → Type 0
  Any = Whole file atomic_file backup_file before platform contents

  Fail : Files → Type 0
  Fail = Kept file atomic_file backup_file before platform

  Rest-Fail : (f : Files) → Rest f → Fail f
  unfolding Rest Fail
  Rest-Fail f rest = inl rest

  Full : Files → Type 0
  Full = Ready file atomic_file backup_file before contents

  put_atomic-Ready :
      (text : Bytes) (f : Files)
      → Unwritten file atomic_file backup_file before f
      → Ready file atomic_file backup_file before text (put atomic_file (some text) f)
  put_atomic-Ready text f (old, frame) = (
    (
      put_other atomic_file file (some text) f atomic≢file ∙ old,
      put_atomic-Frame file atomic_file backup_file before (some text) f frame,
    ),
    put_same atomic_file (some text) f,
  )

  write_some-At :
      (k r : ℕ) (f : Files) → At k f → At (k + r) (write_some atomic_file contents k r f)
  unfolding At
  write_some-At k r f (rest, there) =
      subst (Ready file atomic_file backup_file before (take (k + r) contents)) (sym appended)
        (put_atomic-Ready (take (k + r) contents) f rest)
    where
      appended :
          write_some atomic_file contents k r f ≡ put atomic_file (some (take (k + r) contents)) f
      appended =
          ap
            (λ o.
              put atomic_file
                (elim o [ none ↦ none | some text ↦ some (text ++ take r (drop k contents)) ]) f)
            there
          ∙ ap (λ text. put atomic_file (some text) f) (take-add k r contents)

  At-Any : (k : ℕ) (f : Files) → At k f → Any f
  unfolding Any At
  At-Any k f ((old, frame), there) = (inl old, frame)

  At-Full : (k : ℕ) (f : Files) → length contents ≤ k → At k f → Full f
  unfolding At Full
  At-Full k f over (rest, there) = (rest, there ∙ ap some (take_all k contents over))

  write_loop-Triple :
      (k : ℕ) (answers : List Wrote)
      → Triple Any (At k) (write_loop atomic_file contents k answers) (λ u. Full) Fail
  unfolding write_loop Any At Rest Full Fail
  write_loop-Triple k [] =
      if_rule Any (At k) _ Fail (ltb k (length contents)) _ _
        (λ more. unknown_rule Any (At k) _ Fail)
        (λ over. pure_rule Any (At k) _ Fail tt (λ f at. At-Full k f (ground (arith, over)) at))
  write_loop-Triple k (minus_one ∷ answers) =
      if_rule Any (At k) _ Fail (ltb k (length contents)) _ _
        (λ more. raise_rule Any (At k) _ Fail (λ f at. Rest-Fail f at.0))
        (λ over. pure_rule Any (At k) _ Fail tt (λ f at. At-Full k f (ground (arith, over)) at))
  write_loop-Triple k (chars r ∷ answers) =
      if_rule Any (At k) _ Fail (ltb k (length contents)) _ _
        (λ more.
          bind_rule Any (At k) (λ u. At (k + r)) _ Fail _ _
            (call_rule Any (At k) _ Fail _
              (λ f at. let next = write_some-At k r f at in (At-Any (k + r) _ next, next)))
            (λ u. write_loop-Triple (k + r) answers))
        (λ over. pure_rule Any (At k) _ Fail tt (λ f at. At-Full k f (ground (arith, over)) at))

  truncated : (f : Files) → Rest f → At 0 (put atomic_file (some []) f)
  unfolding At Rest
  truncated f rest = put_atomic-Ready [] f rest

  -- A `WriteFile` that writes so many chars.
  write_windows-Triple :
      (os : Answers)
      → os.opened ≡ true
      → Triple Any Rest (write_windows os atomic_file contents) (λ u. At os.written_by_windows) Fail
  unfolding write_windows
  write_windows-Triple os on =
      if_rule Any Rest _ Fail os.opened _ _
        (λ opened.
          bind_rule Any Rest (λ u. At 0) _ Fail _ _
            (call_rule Any Rest _ Fail _
              (λ f rest. let at = truncated f rest in (At-Any 0 _ at, at)))
            (λ u. call_rule Any (At 0) _ Fail _ (λ f at.
              let next =
                subst (λ n. At n (write_some atomic_file contents 0 os.written_by_windows f))
                  (omega arith) (write_some-At 0 os.written_by_windows f at) in
              (At-Any os.written_by_windows _ next, next))))
        (λ off. absurd (ground (arith, on, off)))

  write_atom-Triple :
      (platform : Platform) (os : Answers)
      → IsComplete contents platform os
      → Triple Any Rest (write_atom platform os atomic_file contents) (λ u. Full) Fail
  unfolding write_posix
  write_atom-Triple posix os done =
      if_rule Any Rest _ Fail os.opened _ _
        (λ on.
          bind_rule Any Rest (λ u. At 0) _ Fail _ _
            (call_rule Any Rest _ Fail _
              (λ f rest. let at = truncated f rest in (At-Any 0 _ at, at)))
            (λ u. write_loop-Triple 0 os.writes))
        (λ off. raise_rule Any Rest _ Fail (λ f rest. Rest-Fail f rest))
  write_atom-Triple windows os (on, enough) =
      weaken Any Rest _ _ Fail _ (λ u f at. At-Full os.written_by_windows f enough at)
        (write_windows-Triple os on)

  module _ (backup≢atomic : backup_file ≢ atomic_file) (backup≢file : backup_file ≢ file)
      (os : Answers) (complete : IsComplete contents platform os) where
    pub replace_all-Triple :
        Triple
          (Whole file atomic_file backup_file before platform contents)
          (Unwritten file atomic_file backup_file before)
          (do
            _ ← write_atom platform os atomic_file contents
            put_in_place platform os file atomic_file backup_file)
          (λ u. Written file atomic_file backup_file before contents)
          (Kept file atomic_file backup_file before platform)
    unfolding Any Rest Full Fail
    replace_all-Triple =
        bind_rule Any Rest (λ u. Full) _ Fail _ _ (write_atom-Triple platform os complete)
          (λ u.
            put_in_place-Triple file atomic_file backup_file before contents atomic≢file
              backup≢atomic backup≢file platform os)

-- On Windows, however much `WriteFile` writes.
pub replace_windows-Triple :
    (file atomic_file backup_file : Bytes) (before : Files) (contents : Bytes) (os : Answers)
    → atomic_file ≢ file
    → os.opened ≡ true
    → backup_file ≢ atomic_file
    → backup_file ≢ file
    → Triple
        (Frame file atomic_file backup_file before)
        (Unwritten file atomic_file backup_file before)
        (do
          _ ← write_atom windows os atomic_file contents
          put_in_place windows os file atomic_file backup_file)
        (λ u. Written file atomic_file backup_file before (take os.written_by_windows contents))
        (Kept file atomic_file backup_file before windows)
unfolding Any Rest At Fail
replace_windows-Triple file atomic_file backup_file before contents os atomic≢file on backup≢atomic
      backup≢file =
    let part = take os.written_by_windows contents in
    let R = Frame file atomic_file backup_file before in
    let P = Unwritten file atomic_file backup_file before in
    let E = Kept file atomic_file backup_file before windows in
    bind_rule R P (λ u. Ready file atomic_file backup_file before part) _ E _ _
      (weaken_log (Whole file atomic_file backup_file before windows contents) R P _ E _
        (λ f any. any.1)
        (write_windows-Triple windows file atomic_file backup_file before contents atomic≢file os
          on))
      (λ u.
        weaken_log (Whole file atomic_file backup_file before windows part) R
          (Ready file atomic_file backup_file before part) _ E _ (λ f whole. whole.1)
          (put_in_place-Triple file atomic_file backup_file before part atomic≢file backup≢atomic
            backup≢file windows os))
