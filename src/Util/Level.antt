-- ===== src/Util/Level.antt =====
-- The security levels of nc_util.hpp. A `float` is a fraction over a power of two with its sign, an
-- infinity or not a number. A comparison with a literal, which is a `double`, is exact, and the
-- literals are written as the fractions that they stand for.
use libncclient.Common.{
  ap, ◌∙◌, ℕ, ◌+◌, ◌*◌, ◌^◌, ◌≤◌, ◌≡◌, refl, true, false, [], ◌∷◌, Bytes, Bool, arith, ◌==◌, ltb,
  if◌then◌else◌, codes, ℤ, pos, negsuc,
}
use libncclient.Util.Colour.{string_to_colour, known_colour}
use libncclient.Util.Format.{tolower_str, tolower}
use libncclient.Util.Name.{isupper}

pub data Float : Type 0 where
  nan plus_infinity minus_infinity : Float
  -- `fraction negative n k` is n / 2 ^ k.
  fraction : Bool → ℕ → ℕ → Float

-- `f < n / 2 ^ k`, which is more than 0.
abbrev pub is_less : Float → ℕ → ℕ → Bool
is_less nan n k = false
is_less plus_infinity n k = false
is_less minus_infinity n k = true
is_less (fraction true m j) n k = true
is_less (fraction false m j) n k = ltb (m * 2 ^ k) (n * 2 ^ j)

unfoldable pub seclevel_fraction_to_seclevel : Float → ℕ
seclevel_fraction_to_seclevel seclevel_fraction =
    if is_less seclevel_fraction 3602879701896397 54
    then 0
    else if is_less seclevel_fraction 3602879701896397 53
    then 1
    else if is_less seclevel_fraction 5404319552844595 53
    then 2
    else if is_less seclevel_fraction 3602879701896397 52
    then 3
    else 4

unfoldable pub seclevel_to_seclevel_fraction_lowerbound : ℤ → Float
seclevel_to_seclevel_fraction_lowerbound (negsuc n) = fraction false 0 0
seclevel_to_seclevel_fraction_lowerbound (pos n) =
    if n == 0
    then fraction false 0 0
    else if n == 1
    then fraction false 13421773 26
    else if n == 2
    then fraction false 13421773 25
    else if n == 3
    then fraction false 10066330 24
    else fraction false 13421773 24

unfoldable pub seclevel_to_string : ℤ → Bytes
seclevel_to_string (negsuc n) = codes "nullsec"
seclevel_to_string (pos n) =
    if n == 0
    then codes "nullsec"
    else if n == 1
    then codes "lowsec"
    else if n == 2
    then codes "midsec"
    else if n == 3
    then codes "highsec"
    else if n == 4
    then codes "fullsec"
    else codes "nullsec"

unfoldable pub seclevel_fraction_to_colour : (Bytes → ℕ) → Float → Bytes
seclevel_fraction_to_colour hash seclevel_fraction =
    let isec = seclevel_fraction_to_seclevel seclevel_fraction in
    string_to_colour hash (seclevel_to_string (pos isec))

-- The `int` brought into 0 to 4.
abbrev pub clamp : ℤ → ℕ
clamp (negsuc n) = 0
clamp (pos n) = if ltb n 4 then n else 4

level_fraction :
    (n : ℕ)
    → seclevel_fraction_to_seclevel (seclevel_to_seclevel_fraction_lowerbound (pos n))
      ≡ clamp (pos n)
unfolding seclevel_fraction_to_seclevel seclevel_to_seclevel_fraction_lowerbound
level_fraction n = ground arith

-- The lower bound of a level's fractions is of that level, for every `int`: a level below 0 counts
-- as 0 and one above 4 as 4. The `float` literals are not below the `double` literals that they
-- are compared with, though they are not equal to them.
pub seclevel_fraction_to_seclevel-lowerbound :
    (seclevel : ℤ)
    → seclevel_fraction_to_seclevel (seclevel_to_seclevel_fraction_lowerbound seclevel)
      ≡ clamp seclevel
unfolding seclevel_fraction_to_seclevel seclevel_to_seclevel_fraction_lowerbound
seclevel_fraction_to_seclevel-lowerbound (negsuc n) = refl
seclevel_fraction_to_seclevel-lowerbound (pos n) = level_fraction n

-- How many of the bounds a fraction reaches: those of 0.2, 0.4, 0.6 and 0.8.
abbrev pub reaches_bound : Float → ℕ → ℕ → ℕ
reaches_bound f n k = if is_less f n k then 0 else 1

abbrev pub reached : Float → ℕ
reached f =
    reaches_bound f 3602879701896397 54
    + reaches_bound f 3602879701896397 53
    + reaches_bound f 5404319552844595 53
    + reaches_bound f 3602879701896397 52

level-reached : (f : Float) → seclevel_fraction_to_seclevel f ≡ reached f
unfolding seclevel_fraction_to_seclevel
level-reached nan = refl
level-reached plus_infinity = refl
level-reached minus_infinity = refl
level-reached (fraction true m j) = refl
level-reached (fraction false m j) = ground arith

reached_le : (f : Float) → reached f ≤ 4
reached_le f = ground arith

level_colour :
    (hash : Bytes → ℕ) (n : ℕ)
    → n ≤ 4
    → string_to_colour hash (seclevel_to_string (pos n)) ≡ (b'0' + n) ∷ []
unfolding string_to_colour seclevel_to_string known_colour tolower_str tolower isupper
level_colour hash n small = ground arith

-- The level of a fraction is the number of the bounds 0.2, 0.4, 0.6 and 0.8, as `double` literals,
-- that it is not below, and its colour is the digit of that number, whatever the hash. So it is for
-- every `float`: what is not a number is below none of them.
pub seclevel_fraction_to_colour_lem :
    (hash : Bytes → ℕ) (f : Float)
    → (seclevel_fraction_to_seclevel f ≡ reached f)
      × (seclevel_fraction_to_colour hash f ≡ (b'0' + reached f) ∷ [])
unfolding seclevel_fraction_to_colour
seclevel_fraction_to_colour_lem hash f = (
  level-reached f,
  ap (λ n. string_to_colour hash (seclevel_to_string (pos n))) (level-reached f)
      ∙ level_colour hash (reached f) (reached_le f),
)
