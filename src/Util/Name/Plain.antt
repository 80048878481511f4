-- ===== src/Util/Name/Plain.antt =====
-- The chars of valid names, as nc_util.hpp tests them.
use libncclient.Common.{ℕ, ◌≡◌, refl, Bool, true, false, [], ◌∷◌, Bytes, arith, ◌==◌, All}
use libncclient.Util.Strip.{isspace}
use libncclient.Util.Name.{name_loop, is_valid_name_character, is_valid_string, count}

abbrev pub dot : ℕ
dot = b'.'

-- A char that neither ends a part of a name nor cuts a path.
pub record IsPlain (c : ℕ) : Type 0 where
  pub no_dot : (c == dot) ≡ false
  pub no_slash : (c == b'/') ≡ false
  pub no_space : isspace c ≡ false

valid-IsPlain : (c : ℕ) (up : Bool) → is_valid_name_character c up ≡ true → IsPlain c
unfolding is_valid_name_character isspace
valid-IsPlain c true h = ground arith
valid-IsPlain c false h = ground arith

name_loop-next :
    (c : ℕ) (s : Bytes) (digit up : Bool)
    → name_loop (c ∷ s) digit up ≡ true
    → (is_valid_name_character c up ≡ true) × (name_loop s false up ≡ true)
unfolding name_loop
name_loop-next c s digit up h = ground arith

name_loop-IsPlain : (s : Bytes) (digit up : Bool) → name_loop s digit up ≡ true → All IsPlain s
unfolding name_loop
name_loop-IsPlain [] digit up h = tt
name_loop-IsPlain (c ∷ s) digit up h =
    let (here, later) = name_loop-next c s digit up h in
    (valid-IsPlain c up here, name_loop-IsPlain s false up later)

pub is_valid_string-IsPlain : (s : Bytes) (up : Bool) → is_valid_string s up ≡ true → All IsPlain s
unfolding is_valid_string
is_valid_string-IsPlain s up h = ground (arith, name_loop-IsPlain s true up)

pub IsPlain-count : (s : Bytes) → All IsPlain s → count dot s ≡ 0
unfolding count
IsPlain-count [] h = refl
IsPlain-count (c ∷ s) h = rw h.0.no_dot (IsPlain-count s h.1)
