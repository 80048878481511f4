-- ===== src/Util/Strip.antt =====
-- `strip_whitespace` and `strip_trailing_newlines` of nc_util.hpp. A loop that pops the back runs
-- on the reversed list. `isspace` is that of the C locale; no byte from 128 on is a space.
use mathlib.Core.List.{reverse, reverse-append, reverse-reverse, reverse-cons}
use libncclient.Common.{
  ℕ, ◌≡◌, refl, sym, ap, ◌∙◌, Bool, true, false, ◌&&◌, ◌||◌, [], ◌∷◌, ◌++◌, Bytes, All, All-append,
  arith, leb, ◌==◌, if◌then◌else◌, bytes_eq, Option, none, some,
}

unfoldable pub isspace : ℕ → Bool
isspace c = c == b' ' || (leb 9 c && leb c 13)

abbrev pub is_newline : ℕ → Bool
is_newline c = c == 10

-- `while(size > 0 && test(front)) erase front`.
drop_front : (ℕ → Bool) → Bytes → Bytes
drop_front test [] = []
drop_front test (c ∷ s) = if test c then drop_front test s else c ∷ s

-- `while(size > 0 && test(back)) pop_back`.
drop_back : (ℕ → Bool) → Bytes → Bytes
unfolding drop_front
drop_back test s = reverse (drop_front test (reverse s))

unfoldable pub strip_whitespace : Bytes → Bytes
unfolding drop_front drop_back isspace
strip_whitespace s = if bytes_eq s [] then s else drop_back isspace (drop_front isspace s)

unfoldable pub strip_trailing_newlines : Bytes → Bytes
unfolding drop_back
strip_trailing_newlines s = drop_back is_newline s

abbrev pub last? : Bytes → Option ℕ
last? [] = none
last? (c ∷ []) = some c
last? (c ∷ d ∷ s) = last? (d ∷ s)

abbrev pub first? : Bytes → Option ℕ
first? [] = none
first? (c ∷ s) = some c

-- The char passes or there is none.
abbrev pub Ends : (ℕ → Bool) → Option ℕ → Type 0
Ends test none = Unit {0}
Ends test (some c) = test c ≡ false

-- `t` is what is left of `s` when the chars that pass the test are taken from both ends.
pub record IsStripped (test : ℕ → Bool) (s t : Bytes) : Type 0 where
  pub before : Bytes
  pub after : Bytes
  pub parts : s ≡ before ++ (t ++ after)
  pub before_passes : All (λ c. test c ≡ true) before
  pub after_passes : All (λ c. test c ≡ true) after
  pub starts : Ends test (first? t)
  pub stops : Ends test (last? t)

module _ (test : ℕ → Bool) where
  taken : Bytes → Bytes
  taken [] = []
  taken (c ∷ s) = if test c then c ∷ taken s else []

  taken-drop : (s : Bytes) → s ≡ taken s ++ drop_front test s
  unfolding taken drop_front
  taken-drop [] = refl
  taken-drop (c ∷ s) = ground (arith, taken-drop s)

  taken_passes : (s : Bytes) → All (λ c. test c ≡ true) (taken s)
  unfolding taken
  taken_passes [] = tt
  taken_passes (c ∷ s) = ground (arith, taken_passes s)

  drop_front_starts : (s : Bytes) → Ends test (first? (drop_front test s))
  unfolding drop_front
  drop_front_starts [] = tt
  drop_front_starts (c ∷ s) = ground (arith, drop_front_starts s)

  All-reverse : (P : ℕ → Type 0) (s : Bytes) → All P s → All P (reverse s)
  All-reverse P [] h = tt
  All-reverse P (c ∷ s) h =
      rw (reverse-cons c s) (All-append P (reverse s) (c ∷ []) (All-reverse P s h.1) (h.0, tt))

  last?-snoc : (s : Bytes) (c : ℕ) → last? (s ++ c ∷ []) ≡ some c
  last?-snoc [] c = refl
  last?-snoc (x ∷ []) c = refl
  last?-snoc (x ∷ y ∷ s) c = last?-snoc (y ∷ s) c

  last?-reverse : (s : Bytes) → last? (reverse s) ≡ first? s
  last?-reverse [] = refl
  last?-reverse (c ∷ s) = rw (reverse-cons c s) (last?-snoc (reverse s) c)

  first_kept : (a b : Bytes) → Ends test (first? (a ++ b)) → Ends test (first? a)
  first_kept [] b h = tt
  first_kept (c ∷ a) b h = h

  drop_back-parts : (s : Bytes) → s ≡ drop_back test s ++ reverse (taken (reverse s))
  unfolding drop_back
  drop_back-parts s =
      sym (reverse-reverse s)
      ∙ ap reverse (taken-drop (reverse s))
      ∙ reverse-append (taken (reverse s)) (drop_front test (reverse s))

  drop_back_stops : (s : Bytes) → Ends test (last? (drop_back test s))
  unfolding drop_back
  drop_back_stops s =
      rw (last?-reverse (drop_front test (reverse s))) (drop_front_starts (reverse s))

  strip-IsStripped : (s : Bytes) → IsStripped test s (drop_back test (drop_front test s))
  strip-IsStripped s = record {
    before = taken s;
    after = reverse (taken (reverse (drop_front test s)));
    parts = taken-drop s ∙ ap (◌++◌ (taken s)) (drop_back-parts (drop_front test s));
    before_passes = taken_passes s;
    after_passes = All-reverse _ _ (taken_passes (reverse (drop_front test s)));
    starts =
        first_kept _ (reverse (taken (reverse (drop_front test s))))
          (rw (← drop_back-parts (drop_front test s)) (drop_front_starts s));
    stops = drop_back_stops (drop_front test s);
  }

-- `strip_whitespace` takes the white space at both ends, all of it, and nothing else.
pub strip_whitespace-IsStripped : (s : Bytes) → IsStripped isspace s (strip_whitespace s)
unfolding strip_whitespace
strip_whitespace-IsStripped [] = strip-IsStripped isspace []
strip_whitespace-IsStripped (c ∷ s) = strip-IsStripped isspace (c ∷ s)

-- `strip_trailing_newlines` takes the newlines at the end, all of them, and nothing else.
pub strip_trailing_newlines_lem :
    (s : Bytes)
    → (nl : Bytes) × (s ≡ strip_trailing_newlines s ++ nl)
      × All (λ c. is_newline c ≡ true) nl
      × Ends is_newline (last? (strip_trailing_newlines s))
unfolding strip_trailing_newlines
strip_trailing_newlines_lem s = (
  reverse (taken is_newline (reverse s)),
  drop_back-parts is_newline s,
  All-reverse is_newline _ _ (taken_passes is_newline (reverse s)),
  drop_back_stops is_newline s,
)

drop_front_plain :
    (test : ℕ → Bool) (s : Bytes) → All (λ c. test c ≡ false) s → drop_front test s ≡ s
unfolding drop_front
drop_front_plain test [] h = refl
drop_front_plain test (c ∷ s) h = rw h.0

drop_back_plain : (test : ℕ → Bool) (s : Bytes) → All (λ c. test c ≡ false) s → drop_back test s ≡ s
unfolding drop_back
drop_back_plain test s h =
    rw (drop_front_plain test (reverse s) (All-reverse test _ s h)) (reverse-reverse s)

-- A text without white space is not changed.
pub strip_whitespace_plain : (s : Bytes) → All (λ c. isspace c ≡ false) s → strip_whitespace s ≡ s
unfolding strip_whitespace
strip_whitespace_plain [] h = refl
strip_whitespace_plain (c ∷ s) h =
    rw (drop_front_plain isspace (c ∷ s) h) (drop_back_plain isspace (c ∷ s) h)
