-- ===== src/Util/Colour/Chosen.antt =====
-- The colour that a text gets.
use mathlib.Core.Option.{some-injective}
use libncclient.Common.{
  ℕ, zero, suc, ◌+◌, ◌<◌, ◌%◌, ◌≡◌, ◌⊎◌, inl, inr, refl, sym, ap, ◌∙◌, true, false, [], ◌∷◌, ◌++◌,
  Bytes, Bool, Option, none, some, All, arith, length, get_elem?, ltb, if◌then◌else◌, bytes_eq,
  codes, ◌&&◌, Bool-cases, Option-cases, append_assoc, append-nil,
}
use libncclient.Util.Name.{isalnum, isdigit, islower, isupper}
use libncclient.Util.Format.{tolower_str}
use libncclient.Util.Colour.{
  valid_cols, one_char, known_colour, string_to_colour, colour_string, alnum_loop, colour_from,
  colour_string_only_alnum,
}

char_at :
    (P : ℕ → Type 0) (xs : Bytes) (i : ℕ)
    → All P xs
    → i < length xs
    → (c : ℕ) × (get_elem? xs i ≡ some c) × P c
char_at P [] i all inside = absurd (omega arith)
char_at P (x ∷ xs) zero (p, all) inside = (x, refl, p)
char_at P (x ∷ xs) (suc i) (p, all) inside = char_at P xs i all (omega arith)

-- One letter or digit.
abbrev pub IsColour : Bytes → Type 0
IsColour s = (c : ℕ) × (s ≡ c ∷ []) × (isalnum c ≡ true)

-- A known colour is one letter or digit.
record IsKnown (o : Option Bytes) : Type 0 where
  colour : (s : Bytes) → o ≡ some s → IsColour s

if-IsKnown :
    (b : Bool) (c : ℕ) (o : Option Bytes)
    → isalnum c ≡ true
    → IsKnown o
    → IsKnown (if b then some (c ∷ []) else o)
if-IsKnown true c o e known = record {
  colour = λ s same. (c, sym (some-injective (c ∷ []) s same), e);
}
if-IsKnown false c o e known = known

known_colour-IsKnown : (text : Bytes) → IsKnown (known_colour text)
unfolding known_colour isalnum isdigit islower isupper
known_colour-IsKnown text =
    let low = tolower_str text in
    if-IsKnown (bytes_eq text (codes "core")) b'L' _ refl (
      if-IsKnown (bytes_eq text (codes "extern")) b'H' _ refl (
        if-IsKnown (bytes_eq low (codes "fullsec")) b'4' _ refl (
          if-IsKnown (bytes_eq low (codes "highsec")) b'3' _ refl (
            if-IsKnown (bytes_eq low (codes "midsec")) b'2' _ refl (
              if-IsKnown (bytes_eq low (codes "lowsec")) b'1' _ refl (
                if-IsKnown (bytes_eq low (codes "nullsec")) b'0' _ refl (
                  if-IsKnown (bytes_eq low (codes "fs")) b'4' _ refl (
                    if-IsKnown (bytes_eq low (codes "hs")) b'3' _ refl (
                      if-IsKnown (bytes_eq low (codes "ms")) b'2' _ refl (
                        if-IsKnown (bytes_eq low (codes "ls")) b'1' _ refl (
                          if-IsKnown (bytes_eq low (codes "ns")) b'0' _ refl
                            (record { colour = λ s e. absurd cc }))))))))))))

abbrev all_alnum : Bytes → Bool
all_alnum [] = true
all_alnum (c ∷ s) = isalnum c && all_alnum s

all_alnum-All : (s : Bytes) → all_alnum s ≡ true → All (λ c. isalnum c ≡ true) s
all_alnum-All [] e = tt
all_alnum-All (c ∷ s) e = (ground arith, all_alnum-All s (ground arith))

valid_cols-All : All (λ c. isalnum c ≡ true) valid_cols
unfolding isalnum isdigit islower isupper
valid_cols-All = all_alnum-All valid_cols refl

module _ (hash : Bytes → ℕ) where
  -- Every text has a colour that is one letter or digit, whatever the hash: the access to
  -- `valid_cols` is in range.
  pub string_to_colour-IsColour : (text : Bytes) → IsColour (string_to_colour hash text)
  unfolding string_to_colour one_char
  string_to_colour-IsColour text = elim (Option-cases (known_colour text)) [
    | inr (colour, e) ↦ rw (string_to_colour, e) ((known_colour-IsKnown text).colour colour e)
    | inl e ↦
        let (c, at, is_alnum) =
          char_at (λ c. isalnum c ≡ true) valid_cols (hash text % length valid_cols) valid_cols-All
            (omega arith) in
        rw (string_to_colour, e, at) (c, refl, is_alnum)
  ]

-- The letters and digits of a text.
abbrev pub alnums : Bytes → Bytes
alnums [] = []
alnums (c ∷ text) = if isalnum c then c ∷ alnums text else alnums text

-- The loop, once it has found a letter or digit, and what it adds to the text so far.
alnum_loop-some :
    (i k : ℕ) (text f : Bytes) → alnum_loop i text f (some k) ≡ (f ++ alnums text, some k)
unfolding alnum_loop
alnum_loop-some i k [] f = ap (λ s. (s, some k)) (sym (append-nil f))
alnum_loop-some i k (c ∷ text) f = elim (Bool-cases (isalnum c)) [
  | inl on ↦ rw on (
      alnum_loop-some (suc i) k text (f ++ c ∷ [])
      ∙ ap (λ s. (s, some k)) (append_assoc f (c ∷ []) (alnums text)))
  | inr off ↦ rw off (alnum_loop-some (suc i) k text f)
]

-- Where the first one stands.
abbrev first_alnum : ℕ → Bytes → Option ℕ
first_alnum i [] = none
first_alnum i (c ∷ text) = if isalnum c then some i else first_alnum (suc i) text

alnum_loop-none :
    (i : ℕ) (text f : Bytes) → alnum_loop i text f none ≡ (f ++ alnums text, first_alnum i text)
unfolding alnum_loop
alnum_loop-none i [] f = ap (λ s. (s, none)) (sym (append-nil f))
alnum_loop-none i (c ∷ text) f = elim (Bool-cases (isalnum c)) [
  | inl on ↦ rw on (
      alnum_loop-some (suc i) i text (f ++ c ∷ [])
      ∙ ap (λ s. (s, some i)) (append_assoc f (c ∷ []) (alnums text)))
  | inr off ↦ rw off (alnum_loop-none (suc i) text f)
]

-- The text that gives the colour.
abbrev pub chosen : Bytes → Bytes
chosen text = if bytes_eq (alnums text) [] then text else alnums text

-- No letter or digit, or the place of the first.
Placed : ℕ → Bytes → Type 0
Placed i text =
    ((first_alnum i text ≡ none) × (bytes_eq (alnums text) [] ≡ true))
    ⊎ ((k : ℕ) × (first_alnum i text ≡ some k)
        × (k < i + length text)
        × (bytes_eq (alnums text) [] ≡ false))

first_alnum-Placed : (i : ℕ) (text : Bytes) → Placed i text
unfolding Placed
first_alnum-Placed i [] = inl (refl, refl)
first_alnum-Placed i (c ∷ text) = elim (Bool-cases (isalnum c)) [
  | inl on ↦ inr (i, rw on refl, omega arith, rw on refl)
  | inr off ↦ elim (first_alnum-Placed (suc i) text) [
    | inl (gone, empty) ↦ inl (rw off gone, rw off empty)
    | inr (k, there, inside, full) ↦ inr (k, rw off there, omega (arith, inside), rw off full)
  ]
]

module _ (hash : Bytes → ℕ) where
  colour_from-Placed :
      (text : Bytes)
      → Placed 0 text
      → colour_from hash text (alnums text, first_alnum 0 text)
        ≡ codes "`" ++ (string_to_colour hash (chosen text) ++ (text ++ codes "`"))
  unfolding colour_from colour_string Placed
  colour_from-Placed text (inl (gone, empty)) = rw (gone, empty) refl
  colour_from-Placed text (inr (k, there, inside, full)) =
      let short : ltb k (length text) ≡ true = ground (arith, inside) in
      rw (there, full, colour_from, short)
        (ap (◌++◌ (codes "`"))
          (append_assoc (string_to_colour hash (alnums text)) text (codes "`")))

  -- A text is put between backticks behind the colour of its letters and digits alone, or behind
  -- that of the whole text if it has none of them. The chars between them stay in the text.
  pub colour_string_only_alnum_lem :
      (text : Bytes)
      → colour_string_only_alnum hash text
        ≡ codes "`" ++ (string_to_colour hash (chosen text) ++ (text ++ codes "`"))
  unfolding colour_string_only_alnum
  colour_string_only_alnum_lem text =
      ap (colour_from hash text) (alnum_loop-none 0 text [])
      ∙ colour_from-Placed text (first_alnum-Placed 0 text)
