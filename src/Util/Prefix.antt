-- ===== src/Util/Prefix.antt =====
-- `starts_with` of nc_util.hpp.
use libncclient.Common.{
  ℕ, zero, suc, ◌≡◌, ◌↔◌, refl, ap, Bool, true, false, [], ◌∷◌, ◌++◌, Bytes, arith, length, take,
  drop, ltb, bytes_eq, bytes_eq_self, bytes_eq_sound, length-append, take-append, if◌then◌else◌,
  ◌==◌,
}

unfoldable pub starts_with : Bytes → Bytes → Bool
starts_with text test =
    if ltb (length text) (length test)
    then false
    else if bytes_eq (take (length test) text) test
    then true
    else false

take-drop : (n : ℕ) (xs : Bytes) → take n xs ++ drop n xs ≡ xs
take-drop zero xs = refl
take-drop (suc n) [] = refl
take-drop (suc n) (x ∷ xs) = ap (◌∷◌ x) (take-drop n xs)

pub starts_with-append : (test rest : Bytes) → starts_with (test ++ rest) test ≡ true
unfolding starts_with
starts_with-append test rest =
    ground (arith, length-append test rest, take-append test rest, bytes_eq_self test)

pub starts_with-split :
    (text test : Bytes) → starts_with text test ≡ true → text ≡ test ++ drop (length test) text
unfolding starts_with
starts_with-split text test h =
    ground (arith, take-drop (length test) text, bytes_eq_sound (take (length test) text) test)

-- `starts_with` says exactly whether the text is the prefix and something behind it.
pub starts_with_iff :
    (text test : Bytes) → (starts_with text test ≡ true) ↔ ((rest : Bytes) × (text ≡ test ++ rest))
starts_with_iff text test = (
  λ h. (drop (length test) text, starts_with-split text test h),
  λ p. rw p.1 (starts_with-append test p.0),
)

-- The texts differ at a place that both have.
abbrev pub mismatch : Bytes → Bytes → Bool
mismatch [] q = false
mismatch (x ∷ p) [] = false
mismatch (x ∷ p) (y ∷ q) = if x == y then mismatch p q else true

take-mismatch :
    (p q rest : Bytes) → mismatch p q ≡ true → bytes_eq (take (length q) (p ++ rest)) q ≡ false
take-mismatch [] q rest h = cc
take-mismatch (x ∷ p) [] rest h = cc
take-mismatch (x ∷ p) (y ∷ q) rest h = ground (arith, take-mismatch p q rest)

pub starts_with-mismatch :
    (p q rest : Bytes) → mismatch p q ≡ true → starts_with (p ++ rest) q ≡ false
unfolding starts_with
starts_with-mismatch p q rest h = ground (arith, take-mismatch p q rest h)
