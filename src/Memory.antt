-- ===== src/Memory.antt =====
-- The memory that crosses the C interface: blocks of chars made by `new char[]` and given back by
-- `delete []`, and a monad of calls that read and change it. A call may also throw, or run into
-- undefined behaviour, such as a read past the end of a block or a second `delete []`.
-- Memory is never exhausted, and an address is not used twice.
pub mod Laws
pub mod Past
pub mod Balance
pub mod Always
use libncclient.Common.{
  ℕ, zero, suc, ◌≡◌, Bool, List, [], ◌∷◌, Option, none, some, Bytes, ◌==◌, if◌then◌else◌,
}

-- The newest block first.
pub record Heap : Type 0 where
  pub next : ℕ
  pub blocks : List (ℕ × Bytes)

pub data Outcome {ℓ} (A : Type ℓ) : Type ℓ where
  done : A → Heap → Outcome A
  threw : Heap → Outcome A
  fault : Outcome A

abbrev pub M {ℓ} : Type ℓ → Type ℓ
M A = Heap → Outcome A

abbrev pub pure {ℓ} : {A : Type ℓ} → A → M A
pure a h = done a h

-- `throw`.
abbrev pub raise {ℓ} : {A : Type ℓ} → M A
raise h = threw h

-- Undefined behaviour.
abbrev pub undefined {ℓ} : {A : Type ℓ} → M A
undefined h = fault

infixl 5 ◌>>=◌ ◌>>◌
abbrev pub ◌>>=◌ {ℓ κ} : {A : Type ℓ} {B : Type κ} → M A → (A → M B) → M B
◌>>=◌ m f h = elim (m h) [ done a h' ↦ f a h' | threw h' ↦ threw h' | fault ↦ fault ]

abbrev pub ◌>>◌ {ℓ κ} : {A : Type ℓ} {B : Type κ} → M A → M B → M B
m >> k = m >>= λ _. k

-- `try { body } catch(...) { handler }`: what the body did to the memory stays.
abbrev pub try◌catch◌ {ℓ} : {A : Type ℓ} → M A → M A → M A
try◌catch◌ body handler h = elim (body h) [
  | done a h' ↦ done a h'
  | threw h' ↦ handler h'
  | fault ↦ fault
]

unfoldable pub find : ℕ → List (ℕ × Bytes) → Option Bytes
find a [] = none
find a ((b, s) ∷ bs) = if b == a then some s else find a bs

unfoldable pub remove : ℕ → List (ℕ × Bytes) → List (ℕ × Bytes)
remove a [] = []
remove a ((b, s) ∷ bs) = if b == a then bs else (b, s) ∷ remove a bs

-- The memory after `new char[]` of a block with these contents.
abbrev pub extend : Bytes → Heap → Heap
extend s h = record { next = suc h.next; blocks = (h.next, s) ∷ h.blocks }

-- An array of other things than chars: a block without chars, whose entries stand beside its address.
pub record Array {ℓ} (A : Type ℓ) : Type ℓ where
  pub address : ℕ
  pub entries : List A

-- The memory after `new` of an array.
abbrev pub with_array : Heap → Heap
with_array h = extend [] h

unfoldable pub new_block : Bytes → M ℕ
new_block s h = done h.next (extend s h)

-- `delete []`: of an address that is no live block it is undefined.
unfoldable pub delete_block : ℕ → M (Unit {0})
unfolding find remove
delete_block a h = elim (find a h.blocks) [
  | none ↦ fault
  | some s ↦ done tt (record h { blocks = remove a h.blocks })
]

-- The entries of an array that may be nullptr, and its `delete []`.
abbrev pub entries_of {ℓ} : {A : Type ℓ} → Option (Array A) → List A
entries_of none = []
entries_of (some a) = a.entries

abbrev pub delete_array {ℓ} : {A : Type ℓ} → Option (Array A) → M (Unit {0})
delete_array none = pure tt
delete_array (some a) = delete_block a.address
