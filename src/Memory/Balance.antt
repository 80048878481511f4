-- ===== src/Memory/Balance.antt =====
-- A logic for what calls leave allocated.
use libncclient.Common.{
  ℕ, ◌≡◌, sym, subst, Bool, true, false, List, Option, none, some, Bytes, if◌then◌else◌,
}
use libncclient.Memory.{Heap, M, Outcome, done, threw, fault, pure, raise, undefined, ◌>>=◌}

abbrev pub Blocks : Type 0
Blocks = List (ℕ × Bytes)

-- `Q` of the result and the blocks, if there is a result.
abbrev pub Leaves {ℓ κ} : {A : Type ℓ} → (A → Blocks → Type κ) → Outcome A → Type κ
Leaves Q (done a h) = Q a h.blocks
Leaves Q (threw h) = Unit
Leaves Q fault = Unit

-- From these blocks, whatever the next address is.
pub record Runs {ℓ κ} {A : Type ℓ} (b : Blocks) (m : M A) (Q : A → Blocks → Type κ)
    : Type (ℓ ⊔ κ) where
  pub leaves : (next : ℕ) → Leaves Q (m (record { next = next; blocks = b }))

-- Nothing more and nothing less is allocated behind the call.
abbrev pub Same {ℓ} : {A : Type ℓ} → Blocks → A → Blocks → Type 0
Same b a c = c ≡ b

pub done-Runs {ℓ κ} :
    {A : Type ℓ} (m : M A) (Q : A → Blocks → Type κ) (a : A) (h h' : Heap)
    → Runs h.blocks m Q
    → m h ≡ done a h'
    → Q a h'.blocks
done-Runs m Q a h h' runs e = subst (Leaves Q) e (runs.leaves h.next)

pub pure_runs {ℓ κ} :
    {A : Type ℓ} (b : Blocks) (Q : A → Blocks → Type κ) (a : A) → Q a b → Runs b (pure a) Q
pure_runs b Q a q = record { leaves = λ next. q }

pub undefined_runs {ℓ κ} : {A : Type ℓ} (b : Blocks) (Q : A → Blocks → Type κ) → Runs b undefined Q
undefined_runs b Q = record { leaves = λ next. tt }

pub raise_runs {ℓ κ} : {A : Type ℓ} (b : Blocks) (Q : A → Blocks → Type κ) → Runs b raise Q
raise_runs b Q = record { leaves = λ next. tt }

pub bind_runs {ℓ κ μ ν} :
    {A : Type ℓ} {B : Type κ} (b : Blocks) (S : A → Blocks → Type μ) (Q : B → Blocks → Type ν)
    (m : M A) (f : A → M B)
    → Runs b m S
    → ((a : A) (c : Blocks) → S a c → Runs c (f a) Q)
    → Runs b (m >>= f) Q
bind_runs b S Q m f first each = record {
  leaves = λ next. after (m (record { next = next; blocks = b })) (first.leaves next);
}
  where
    after :
        (o : Outcome _)
        → Leaves S o
        → Leaves Q (elim o [ done a h' ↦ f a h' | threw h' ↦ threw h' | fault ↦ fault ])
    after (done a h') s = (each a h'.blocks s).leaves h'.next
    after (threw h') s = tt
    after fault s = tt

-- A call that leaves these blocks, before another.
pub back_runs {ℓ κ ν} :
    {A : Type ℓ} {B : Type κ} (b c : Blocks) (Q : B → Blocks → Type ν) (m : M A) (f : A → M B)
    → Runs c m (Same b)
    → ((a : A) → Runs b (f a) Q)
    → Runs c (m >>= f) Q
back_runs b c Q m f first each =
    bind_runs c (Same b) Q m f first (λ a k same. subst (λ k. Runs k (f a) Q) (sym same) (each a))

-- A call that leaves all as it is, before another.
pub then_runs {ℓ κ ν} :
    {A : Type ℓ} {B : Type κ} (b : Blocks) (Q : B → Blocks → Type ν) (m : M A) (f : A → M B)
    → Runs b m (Same b)
    → ((a : A) → Runs b (f a) Q)
    → Runs b (m >>= f) Q
then_runs b Q m f first each = back_runs b b Q m f first each

pub option_runs {ℓ κ ν} :
    {A : Type ℓ} {B : Type κ} (b : Blocks) (Q : B → Blocks → Type ν) (o : Option A) (m : M B)
    (f : A → M B)
    → Runs b m Q
    → ((a : A) → Runs b (f a) Q)
    → Runs b (elim o [ none ↦ m | some a ↦ f a ]) Q
option_runs b Q none m f p q = p
option_runs b Q (some a) m f p q = q a

pub if_runs {κ ν} :
    {B : Type κ} (b : Blocks) (Q : B → Blocks → Type ν) (t : Bool) (m n : M B)
    → Runs b m Q
    → Runs b n Q
    → Runs b (if t then m else n) Q
if_runs b Q true m n p q = p
if_runs b Q false m n p q = q
