-- ===== src/Memory/Always.antt =====
-- What holds of every result of a call, whatever the heap.
use libncclient.Common.{◌≡◌, subst, Bool, true, false, Option, none, some, if◌then◌else◌}
use libncclient.Memory.{Heap, M, Outcome, done, threw, fault, pure, ◌>>=◌}

-- The result satisfies the predicate, if there is one.
abbrev pub Holds {ℓ κ} : {A : Type ℓ} → (A → Type κ) → Outcome A → Type κ
Holds Q (done a h) = Q a
Holds Q (threw h) = Unit
Holds Q fault = Unit

pub record Always {ℓ κ} {A : Type ℓ} (Q : A → Type κ) (m : M A) : Type κ where
  pub holds : (h : Heap) → Holds Q (m h)

pub done-Always {ℓ κ} :
    {A : Type ℓ} (Q : A → Type κ) (m : M A) (a : A) (h h' : Heap)
    → Always Q m
    → m h ≡ done a h'
    → Q a
done-Always Q m a h h' always e = subst (Holds Q) e (always.holds h)

pub pure-Always {ℓ κ} : {A : Type ℓ} (Q : A → Type κ) (a : A) → Q a → Always Q (pure a)
pure-Always Q a q = record { holds = λ h. q }

pub bind-Always {ℓ κ μ} :
    {A : Type ℓ} {B : Type κ} (Q : B → Type μ) (m : M A) (f : A → M B)
    → ((a : A) → Always Q (f a))
    → Always Q (m >>= f)
bind-Always Q m f each = record { holds = λ h. after (m h) }
  where
    after :
        (o : Outcome _)
        → Holds Q (elim o [ done a h' ↦ f a h' | threw h' ↦ threw h' | fault ↦ fault ])
    after (done a h') = (each a).holds h'
    after (threw h') = tt
    after fault = tt

-- Two calls, of which the first gives the second what it needs.
pub then-Always {ℓ κ μ ν} :
    {A : Type ℓ} {B : Type κ} (P : A → Type ν) (Q : B → Type μ) (m : M A) (f : A → M B)
    → Always P m
    → ((a : A) → P a → Always Q (f a))
    → Always Q (m >>= f)
then-Always P Q m f first each = record { holds = λ h. after (m h) (first.holds h) }
  where
    after :
        (o : Outcome _)
        → Holds P o
        → Holds Q (elim o [ done a h' ↦ f a h' | threw h' ↦ threw h' | fault ↦ fault ])
    after (done a h') p = (each a p).holds h'
    after (threw h') p = tt
    after fault p = tt

pub option-Always {ℓ κ μ} :
    {A : Type ℓ} {B : Type κ} (Q : B → Type μ) (o : Option A) (m : M B) (f : A → M B)
    → Always Q m
    → ((a : A) → Always Q (f a))
    → Always Q (elim o [ none ↦ m | some a ↦ f a ])
option-Always Q none m f p q = p
option-Always Q (some a) m f p q = q a

pub if-Always {κ μ} :
    {B : Type κ} (Q : B → Type μ) (b : Bool) (m n : M B)
    → Always Q m
    → Always Q n
    → Always Q (if b then m else n)
if-Always Q true m n p q = p
if-Always Q false m n p q = q
