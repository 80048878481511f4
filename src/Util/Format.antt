-- ===== src/Util/Format.antt =====
-- `format_by_vector`, `to_string_with_enforced_variable_dp` and `tolower_str` of nc_util.hpp. Lengths
-- are below 2 ^ 31, so that the code's `int` holds them.
use libncclient.Common.{
  ℕ, zero, suc, ◌+◌, ◌-◌, ◌≤◌, ◌≡◌, ◌≢◌, refl, sym, ap, ◌∙◌, [], ◌∷◌, ◌++◌, List, Bytes, Bool, All,
  arith, length, take, take-length, take_all, Bool-cases, inl, inr, ◌==◌, ltb, leb, if◌then◌else◌,
  map, codes, length-append, Option, none, some,
}
use libncclient.Util.Name.{isupper}

-- The longest length, from `len` on.
unfoldable pub longest : List Bytes → ℕ → ℕ
longest [] len = len
longest (i ∷ all_strings) len = longest all_strings (if ltb len (length i) then length i else len)

-- `to_format + " "`, so many times.
unfoldable pub pad : ℕ → Bytes → Bytes
pad zero to_format = to_format
pad (suc n) to_format = pad n (to_format ++ codes " ")

unfoldable pub format_by_vector : Bytes → List Bytes → Bytes
unfolding longest pad
format_by_vector to_format all_strings = pad (longest all_strings 0 - length to_format) to_format

-- `fstr.find('.')`.
unfoldable pub find_dot : Bytes → Option ℕ
find_dot [] = none
find_dot (c ∷ s) =
    let rest = find_dot s in
    if c == b'.' then some 0 else elim rest [ none ↦ none | some found ↦ some (suc found) ]

-- `fstr` is `std::to_string(a_value)`, and `is_small` whether the absolute value is from 0.0001 to
-- 0.0999999. The number of places is not negative.
unfoldable pub to_string_with_enforced_variable_dp : Bool → Bytes → ℕ → Bytes
unfolding find_dot
to_string_with_enforced_variable_dp is_small fstr forced_dp =
    let places = if is_small then suc forced_dp else forced_dp in
    elim (find_dot fstr) [
      | none ↦ fstr ++ codes ".0"
      | some found ↦
          if leb (length fstr) (found + (places + 1))
          then fstr
          else take (found + (places + 1)) fstr
    ]

-- `tolower` of the C locale, which leaves a byte from 128 on as it is.
unfoldable pub tolower : ℕ → ℕ
unfolding isupper
tolower c = if isupper c then c + 32 else c

unfoldable pub tolower_str : Bytes → Bytes
unfolding tolower
tolower_str str = map tolower str

pub pad_lem : (n : ℕ) (s : Bytes) → length (pad n s) ≡ length s + n
unfolding pad
pad_lem zero s = omega arith
pad_lem (suc n) s = omega (arith, pad_lem n (s ++ codes " "), length-append s (codes " "))

take_front_of : (k : ℕ) (xs ys : Bytes) → k ≤ length xs → take k (xs ++ ys) ≡ take k xs
take_front_of zero xs ys short = refl
take_front_of (suc k) [] ys short = absurd (omega arith)
take_front_of (suc k) (x ∷ xs) ys short = ap (◌∷◌ x) (take_front_of k xs ys (omega arith))

take-pad : (k n : ℕ) (s : Bytes) → k ≤ length s → take k (pad n s) ≡ take k s
unfolding pad
take-pad k zero s short = refl
take-pad k (suc n) s short =
    take-pad k n (s ++ codes " ") (omega (arith, short, length-append s (codes " ")))
    ∙ take_front_of k s (codes " ") short

longest_ge : (all_strings : List Bytes) (len : ℕ) → len ≤ longest all_strings len
unfolding longest
longest_ge [] len = omega arith
longest_ge (i ∷ all_strings) len =
    ground (arith, longest_ge all_strings (length i), longest_ge all_strings len)

longest-All :
    (all_strings : List Bytes) (len : ℕ) → All (λ i. length i ≤ longest all_strings len) all_strings
unfolding longest
longest-All [] len = tt
longest-All (i ∷ all_strings) len = (
  ground (arith, longest_ge all_strings (length i), longest_ge all_strings len),
  longest-All all_strings (if ltb len (length i) then length i else len),
)

-- What the result is, for a string of any length.
abbrev pub IsPadded : Bytes → List Bytes → Bytes → Type 0
IsPadded to_format all_strings s =
    (length s ≡ (
      if leb (length to_format) (longest all_strings 0)
      then longest all_strings 0
      else length to_format))
    × (take (length to_format) s ≡ to_format)

format_by_vector-IsPadded :
    (to_format : Bytes) (all_strings : List Bytes)
    → IsPadded to_format all_strings (format_by_vector to_format all_strings)
unfolding format_by_vector
format_by_vector-IsPadded to_format all_strings = (
  ground (arith, pad_lem (longest all_strings 0 - length to_format) to_format),
  take-pad (length to_format) (longest all_strings 0 - length to_format) to_format (omega arith)
      ∙ take-length to_format,
)

All-map {ℓ κ} :
    {A : Type ℓ} {P Q : A → Type κ} (each : (a : A) → P a → Q a) (xs : List A) → All P xs → All Q xs
All-map each [] all = tt
All-map each (x ∷ xs) (p, all) = (each x p, All-map each xs all)

-- The strings of a vector, each formatted by it, make a column: they all have the length of the
-- longest, and each begins with the string that it was.
pub format_by_vector-column :
    (all_strings : List Bytes)
    → All
        (λ i.
          (length (format_by_vector i all_strings) ≡ longest all_strings 0)
          × (take (length i) (format_by_vector i all_strings) ≡ i))
        all_strings
format_by_vector-column all_strings =
    All-map
      (λ i short.
        let (len, front) = format_by_vector-IsPadded i all_strings in
        (ground (arith, len, short), front))
      all_strings (longest-All all_strings 0)

find_dot-at :
    (whole frac : Bytes)
    → All (λ c. c ≢ b'.') whole
    → find_dot (whole ++ (b'.' ∷ frac)) ≡ some (length whole)
unfolding find_dot
find_dot-at [] frac lacks = refl
find_dot-at (c ∷ whole) frac (other, lacks) = ground (arith, other, find_dot-at whole frac lacks)

take-past : (n : ℕ) (xs ys : Bytes) → take (length xs + n) (xs ++ ys) ≡ xs ++ take n ys
take-past n [] ys = let sum : 0 + n ≡ n = omega arith in ap (λ k. take k ys) sum
take-past n (x ∷ xs) ys =
    let sum : length (x ∷ xs) + n ≡ suc (length xs + n) = omega arith in
    ap (λ k. take k (x ∷ (xs ++ ys))) sum ∙ ap (◌∷◌ x) (take-past n xs ys)

cut_places :
    (whole frac : Bytes) (places : ℕ)
    → (if leb (length (whole ++ (b'.' ∷ frac))) (length whole + (places + 1))
        then whole ++ (b'.' ∷ frac)
        else take (length whole + (places + 1)) (whole ++ (b'.' ∷ frac)))
      ≡ whole ++ (b'.' ∷ take places frac)
cut_places whole frac places =
    elim (Bool-cases (leb (length (whole ++ (b'.' ∷ frac))) (length whole + (places + 1)))) [
      | inl long ↦ rw long (
          ap (λ l. whole ++ (b'.' ∷ l))
            (sym (take_all places frac (ground (arith, long, length-append whole (b'.' ∷ frac))))))
      | inr short ↦
          let sum : places + 1 ≡ suc places = omega arith in
          rw short (
            take-past (places + 1) whole (b'.' ∷ frac)
            ∙ ap (λ k. whole ++ take k (b'.' ∷ frac)) sum)
    ]

-- Of a number's text with a fraction the whole part stays, and so many places of the fraction, one
-- more for a small number, or all that there are. No digit is rounded, and the point stays even
-- where no place is wanted.
pub to_string_with_enforced_variable_dp-places :
    (is_small : Bool) (whole frac : Bytes) (forced_dp : ℕ)
    → All (λ c. c ≢ b'.') whole
    → to_string_with_enforced_variable_dp is_small (whole ++ (b'.' ∷ frac)) forced_dp
      ≡ whole ++ (b'.' ∷ take (if is_small then suc forced_dp else forced_dp) frac)
unfolding to_string_with_enforced_variable_dp
to_string_with_enforced_variable_dp-places is_small whole frac forced_dp lacks =
    let places = if is_small then suc forced_dp else forced_dp in
    rw (to_string_with_enforced_variable_dp, find_dot-at whole frac lacks)
      (cut_places whole frac places)
