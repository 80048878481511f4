-- ===== src/Util/Atomic/Ends.antt =====
-- That `atomic_write_all` ends.
use libncclient.Common.{
  ℕ, ◌+◌, ◌≤◌, ◌≡◌, ◌≢◌, refl, Bool, true, false, List, [], ◌∷◌, ◌++◌, Bytes, codes, arith, All,
  ltb, length, if◌then◌else◌, ◌||◌, not, ◌==◌,
}
use libncclient.Util.Files.{Files, file_exists}
use libncclient.Util.Atomic.{
  Sys, Run, Ending, gave, threw, unanswered, pure, raise, call, ask, ◌>>=◌, Wrote, minus_one, chars,
  Round, Answers, write_some, write_loop, write_posix, write_windows, replace_loop, replacement,
  Reply, replace_file, replace_half, is_success, first_rename, rename, put_in_place, Platform,
  posix, windows, write_atom, atomic_write_all, atomic_extension,
}

-- No answer is missing.
record IsAnswered {ℓ} {A : Type ℓ} (m : Sys A) : Type ℓ where
  ends : (files : Files) → (m files).ending ≢ unanswered

bind-IsAnswered {ℓ κ} :
    {A : Type ℓ} {B : Type κ} (m : Sys A) (f : A → Sys B)
    → IsAnswered m
    → ((a : A) → IsAnswered (f a))
    → IsAnswered (m >>= f)
bind-IsAnswered {A = A} {B = B} m f first each = record {
  ends = λ files. after (m files).log (m files).now (m files).ending (first.ends files);
}
  where
    after :
        (log : List Files) (now : Files) (ending : Ending A)
        → ending ≢ unanswered
        → (elim ending as (λ e. Run B) [
          | gave a ↦ record {
            log = log ++ (f a now).log;
            now = (f a now).now;
            ending = (f a now).ending;
          }
          | threw ↦ record { log = log; now = now; ending = threw }
          | unanswered ↦ record { log = log; now = now; ending = unanswered }
        ]).ending
          ≢ unanswered
    after log now (gave a) known = (each a).ends now
    after log now threw known = λ e. cc
    after log now unanswered known = absurd (known refl)

if_IsAnswered {ℓ} :
    {A : Type ℓ} (b : Bool) (m n : Sys A)
    → (b ≡ true → IsAnswered m)
    → (b ≡ false → IsAnswered n)
    → IsAnswered (if b then m else n)
if_IsAnswered true m n on off = on refl
if_IsAnswered false m n on off = off refl

gave_answered {ℓ} : {A : Type ℓ} (a : A) → gave a ≢ unanswered
gave_answered a = λ e. cc

pure-IsAnswered {ℓ} : {A : Type ℓ} (a : A) → IsAnswered (pure a)
pure-IsAnswered a = record { ends = λ files. gave_answered a }

ask-IsAnswered {ℓ} : {A : Type ℓ} (question : Files → A) → IsAnswered (ask question)
ask-IsAnswered question = record { ends = λ files. gave_answered (question files) }

call-IsAnswered : (change : Files → Files) → IsAnswered (call change)
call-IsAnswered change = record { ends = λ files. gave_answered tt }

raise-IsAnswered {ℓ} : {A : Type ℓ} → IsAnswered {A = A} raise
raise-IsAnswered = record { ends = λ files e. cc }

-- A `write` that does not fail writes at least one char.
abbrev pub Advances : Wrote → Type 0
Advances minus_one = Unit
Advances (chars r) = 1 ≤ r

-- The timer shows a second or more at some time.
abbrev pub any_late : List Round → Bool
any_late [] = false
any_late (round ∷ rounds) = not (ltb round.elapsed 1000) || any_late rounds

write_loop-IsAnswered :
    (atomic_file contents : Bytes) (k : ℕ) (answers : List Wrote)
    → All Advances answers
    → length contents ≤ k + length answers
    → IsAnswered (write_loop atomic_file contents k answers)
unfolding write_loop
write_loop-IsAnswered atomic_file contents k [] advance enough =
    if_IsAnswered (ltb k (length contents)) _ _ (λ more. absurd (ground (arith, more, enough)))
      (λ over. pure-IsAnswered tt)
write_loop-IsAnswered atomic_file contents k (minus_one ∷ answers) advance enough =
    if_IsAnswered (ltb k (length contents)) _ _ (λ more. raise-IsAnswered)
      (λ over. pure-IsAnswered tt)
write_loop-IsAnswered atomic_file contents k (chars r ∷ answers) (one, advance) enough =
    if_IsAnswered (ltb k (length contents)) _ _
      (λ more. bind-IsAnswered _ _ (call-IsAnswered _) (λ u.
        write_loop-IsAnswered atomic_file contents (k + r) answers advance
          (omega (arith, enough, one))))
      (λ over. pure-IsAnswered tt)

replaced-IsAnswered :
    (atomic_file file : Bytes) → IsAnswered (do _ ← call (rename atomic_file file); pure true)
replaced-IsAnswered atomic_file file =
    bind-IsAnswered _ _ (call-IsAnswered (rename atomic_file file)) (λ u. pure-IsAnswered true)

replacement-IsAnswered :
    (platform : Platform) (file atomic_file backup_file : Bytes) (reply : Reply)
    → IsAnswered (replacement platform file atomic_file backup_file reply)
unfolding replacement replace_file replace_half
replacement-IsAnswered posix file atomic_file backup_file reply =
    bind-IsAnswered _ _ (ask-IsAnswered _) (λ moved.
      if_IsAnswered moved _ _ (λ on. replaced-IsAnswered atomic_file file)
        (λ off. pure-IsAnswered false))
replacement-IsAnswered windows file atomic_file backup_file reply =
    bind-IsAnswered _ _ (ask-IsAnswered _) (λ begun.
      if_IsAnswered begun _ _
        (λ on. bind-IsAnswered _ _ (call-IsAnswered (rename file backup_file)) (λ u.
          if_IsAnswered (is_success reply) _ _ (λ yes. replaced-IsAnswered atomic_file file)
            (λ no. pure-IsAnswered false)))
        (λ off. pure-IsAnswered false))

replace_loop-IsAnswered :
    (replace : Reply → Sys Bool)
    → ((reply : Reply) → IsAnswered (replace reply))
    → (rounds : List Round) → any_late rounds ≡ true
    → IsAnswered (replace_loop replace rounds)
unfolding replace_loop
replace_loop-IsAnswered replace each [] late = absurd (ground (arith, late))
replace_loop-IsAnswered replace each (round ∷ rounds) late =
    bind-IsAnswered _ _ (each round.reply) (λ replaced.
      if_IsAnswered replaced _ _ (λ on. pure-IsAnswered tt)
        (λ off.
          if_IsAnswered (ltb round.elapsed 1000) _ _
            (λ early. replace_loop-IsAnswered replace each rounds (ground (arith, late, early)))
            (λ over. raise-IsAnswered)))

write_atom-IsAnswered :
    (platform : Platform) (os : Answers) (atomic_file contents : Bytes)
    → All Advances os.writes
    → length contents ≤ length os.writes
    → IsAnswered (write_atom platform os atomic_file contents)
unfolding write_posix write_windows
write_atom-IsAnswered posix os atomic_file contents advance enough =
    if_IsAnswered os.opened _ _
      (λ on. bind-IsAnswered _ _ (call-IsAnswered _) (λ u.
        write_loop-IsAnswered atomic_file contents 0 os.writes advance (omega (arith, enough))))
      (λ off. raise-IsAnswered)
write_atom-IsAnswered windows os atomic_file contents advance enough =
    if_IsAnswered os.opened _ _
      (λ on.
        bind-IsAnswered _ _ (call-IsAnswered _)
          (λ u. call-IsAnswered (write_some atomic_file contents 0 os.written_by_windows)))
      (λ off. pure-IsAnswered tt)

first_rename-IsAnswered :
    (os : Answers) (atomic_file file : Bytes) → IsAnswered (first_rename os atomic_file file)
unfolding first_rename
first_rename-IsAnswered os atomic_file file = bind-IsAnswered _ _ (ask-IsAnswered _) (λ moved.
    if_IsAnswered moved _ _ (λ on. call-IsAnswered (rename atomic_file file))
      (λ off. pure-IsAnswered tt))

put_in_place-IsAnswered :
    (platform : Platform) (os : Answers) (file atomic_file backup_file : Bytes)
    → any_late os.rounds ≡ true
    → IsAnswered (put_in_place platform os file atomic_file backup_file)
unfolding put_in_place
put_in_place-IsAnswered platform os file atomic_file backup_file late =
    bind-IsAnswered _ _ (ask-IsAnswered (file_exists file)) (λ there.
      if_IsAnswered there
        (replace_loop (replacement platform file atomic_file backup_file) os.rounds) _
        (λ on.
          replace_loop-IsAnswered (replacement platform file atomic_file backup_file)
            (replacement-IsAnswered platform file atomic_file backup_file) os.rounds late)
        (λ off. first_rename-IsAnswered os atomic_file file))

-- `atomic_write_all` ends, with a result or an exception, if each `write` fails or writes at least
-- one char and the timer gets to a second at last: a `write` for each char of the data, and the
-- rounds of the loop up to the first that is late, are all that it can ask for.
pub atomic_write_all-answered :
    (platform : Platform) (os : Answers) (file contents : Bytes) (before : Files)
    → All Advances os.writes
    → length contents ≤ length os.writes
    → any_late os.rounds ≡ true
    → (atomic_write_all platform os file contents before).ending ≢ unanswered
unfolding atomic_write_all
atomic_write_all-answered platform os file contents before advance enough late =
    (if_IsAnswered (length contents == 0) _ _ (λ none_given. pure-IsAnswered tt)
        (λ some_given.
          bind-IsAnswered _ _
            (write_atom-IsAnswered platform os (file ++ atomic_extension) contents advance enough)
            (λ u.
              put_in_place-IsAnswered platform os file (file ++ atomic_extension)
                (file ++ codes ".back") late))).ends
      before
