-- ===== src/Util/Atomic/Logic.antt =====
-- A program logic for the system calls of nc_util.hpp: what holds after every call of a run, and at
-- its end.
use libncclient.Common.{
  ◌≡◌, refl, Bool, true, false, List, [], ◌∷◌, ◌++◌, All, All-append, if◌then◌else◌,
}
use libncclient.Util.Files.{Files}
use libncclient.Util.Atomic.{
  Ending, gave, threw, unanswered, Run, Sys, pure, raise, unknown, call, ask, ◌>>=◌,
}

-- `Q` of a result and the files, or `E` of the files after an exception.
abbrev pub After {ℓ} :
    {A : Type ℓ} → (A → Files → Type 0) → (Files → Type 0) → Ending A → Files → Type 0
After Q E (gave a) files = Q a files
After Q E threw files = E files
After Q E unanswered files = Unit

abbrev pub Reaches {ℓ} :
    {A : Type ℓ} → (Files → Type 0) → (A → Files → Type 0) → (Files → Type 0) → Run A → Type 0
Reaches R Q E r = All R r.log × After Q E r.ending r.now

-- From files with `P`, every call of the run leaves files with `R`.
pub record Triple {ℓ} {A : Type ℓ} (R P : Files → Type 0) (m : Sys A) (Q : A → Files → Type 0)
    (E : Files → Type 0) : Type ℓ where
  pub reaches : (files : Files) → P files → Reaches R Q E (m files)

module _ {ℓ} {A : Type ℓ} (R P : Files → Type 0) (Q : A → Files → Type 0) (E : Files → Type 0) where
  pub pure_rule : (a : A) → ((files : Files) → P files → Q a files) → Triple R P (pure a) Q E
  pure_rule a q = record { reaches = λ files p. (tt, q files p) }

  pub raise_rule : ((files : Files) → P files → E files) → Triple R P raise Q E
  raise_rule e = record { reaches = λ files p. (tt, e files p) }

  pub unknown_rule : Triple R P unknown Q E
  unknown_rule = record { reaches = λ files p. (tt, tt) }

  pub ask_rule :
      (question : Files → A)
      → ((files : Files) → P files → Q (question files) files)
      → Triple R P (ask question) Q E
  ask_rule question q = record { reaches = λ files p. (tt, q files p) }

  pub if_rule :
      (b : Bool) (m n : Sys A)
      → (b ≡ true → Triple R P m Q E)
      → (b ≡ false → Triple R P n Q E)
      → Triple R P (if b then m else n) Q E
  if_rule true m n on off = on refl
  if_rule false m n on off = off refl

pub call_rule :
    (R P : Files → Type 0) (Q : Unit {0} → Files → Type 0) (E : Files → Type 0)
    (change : Files → Files)
    → ((files : Files) → P files → R (change files) × Q tt (change files))
    → Triple R P (call change) Q E
call_rule R P Q E change q = record { reaches = λ files p. (((q files p).0, tt), (q files p).1) }

pub bind_rule {ℓ κ} :
    {A : Type ℓ} {B : Type κ} (R P : Files → Type 0) (S : A → Files → Type 0)
    (Q : B → Files → Type 0) (E : Files → Type 0) (m : Sys A) (f : A → Sys B)
    → Triple R P m S E
    → ((a : A) → Triple R (S a) (f a) Q E)
    → Triple R P (m >>= f) Q E
bind_rule R P S Q E m f first each = record {
  reaches = λ files p. after (m files).log (m files).now (m files).ending (first.reaches files p);
}
  where
    after :
        (log : List Files) (now : Files) (ending : Ending _)
        → Reaches R S E (record { log = log; now = now; ending = ending })
        → Reaches R Q E (elim ending [
          | gave a ↦ record {
            log = log ++ (f a now).log;
            now = (f a now).now;
            ending = (f a now).ending;
          }
          | threw ↦ record { log = log; now = now; ending = threw }
          | unanswered ↦ record { log = log; now = now; ending = unanswered }
        ])
    after log now (gave a) (logged, s) =
        let (then_logged, q) = (each a).reaches now s in
        (All-append R log (f a now).log logged then_logged, q)
    after log now threw reached = reached
    after log now unanswered reached = reached

each_weaken :
    (R S : Files → Type 0) (log : List Files) → ((f : Files) → R f → S f) → All R log → All S log
each_weaken R S [] stronger all = tt
each_weaken R S (f ∷ log) stronger (r, all) = (stronger f r, each_weaken R S log stronger all)

pub weaken_log {ℓ} :
    {A : Type ℓ} (R S P : Files → Type 0) (Q : A → Files → Type 0) (E : Files → Type 0) (m : Sys A)
    → ((files : Files) → R files → S files)
    → Triple R P m Q E
    → Triple S P m Q E
weaken_log R S P Q E m stronger t = record {
  reaches = λ files p.
      let (logged, end) = t.reaches files p in (each_weaken R S (m files).log stronger logged, end);
}

pub weaken {ℓ} :
    {A : Type ℓ} (R P : Files → Type 0) (S Q : A → Files → Type 0) (E : Files → Type 0) (m : Sys A)
    → ((a : A) (files : Files) → S a files → Q a files)
    → Triple R P m S E
    → Triple R P m Q E
weaken R P S Q E m stronger t = record {
  reaches = λ files p.
      let (logged, end) = t.reaches files p in (logged, at_end (m files).ending (m files).now end);
}
  where
    at_end : (e : Ending _) (files : Files) → After S E e files → After Q E e files
    at_end (gave a) files s = stronger a files s
    at_end threw files e = e
    at_end unanswered files e = e
