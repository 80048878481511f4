-- ===== src/Util/Split/Words.antt =====
-- On a delimiter of one char `no_ss_split` ends, and finds the words between the delimiters.
use native.Mathlib.Numerals.{add-one}
use libncclient.Common.{
  ℕ, zero, suc, ◌≤◌, ◌<◌, ◌≡◌, inl, inr, refl, sym, ap, ◌∙◌, true, false, [], ◌∷◌, ◌++◌, List,
  Option, none, some, Bytes, arith, length, take, drop, ◌==◌, append_assoc, append-nil, All,
  Bool-cases, Option-cases, take-length,
}
use libncclient.Util.Prefix.{starts_with}
use libncclient.Util.Split.{find, find_or_end, push_token, split_loop, no_ss_split}

-- A word ends: it counts unless it is empty.
abbrev pub close : Bytes → List Bytes → List Bytes
close [] ws = ws
close (c ∷ w) ws = (c ∷ w) ∷ ws

-- The maximal runs of chars other than `d`, with the chars read so far.
abbrev pub words_from : ℕ → Bytes → Bytes → List Bytes
words_from d w [] = close w []
words_from d w (c ∷ s) = elim (c == d) [
  | true ↦ close w (words_from d [] s)
  | false ↦ words_from d (w ++ c ∷ []) s
]

abbrev pub words : ℕ → Bytes → List Bytes
words d s = words_from d [] s

-- The words, by the place of the first delimiter.
abbrev by_first : ℕ → Bytes → Bytes → Option ℕ → List Bytes
by_first d w s none = close (w ++ s) []
by_first d w s (some k) = close (w ++ take k s) (words d (drop (suc k) s))

starts_with_char : (d c : ℕ) (s : Bytes) → starts_with (c ∷ s) (d ∷ []) ≡ (c == d)
unfolding starts_with
starts_with_char d c s = ground arith

pub words_at :
    (d c : ℕ) (w s : Bytes) → (c == d) ≡ true → words_from d w (c ∷ s) ≡ close w (words_from d [] s)
words_at d c w s h = rw (h, words_from)

pub words_past :
    (d c : ℕ) (w s : Bytes)
    → (c == d) ≡ false
    → words_from d w (c ∷ s) ≡ words_from d (w ++ c ∷ []) s
words_past d c w s h = rw (h, words_from)

by_first-cons :
    (d c : ℕ) (w s : Bytes) (o : Option ℕ)
    → by_first d (w ++ c ∷ []) s o
      ≡ by_first d w (c ∷ s) (elim o [ none ↦ none | some k ↦ some (suc k) ])
by_first-cons d c w s none = rw (append_assoc w (c ∷ []) s)
by_first-cons d c w s (some k) = rw (append_assoc w (c ∷ []) (take k s))

words-find : (d : ℕ) (w s : Bytes) → words_from d w s ≡ by_first d w s (find (d ∷ []) s)
unfolding find
words-find d w [] = rw (append-nil w)
words-find d w (c ∷ s) = elim (Bool-cases (c == d)) [
  | inl at ↦ rw (starts_with_char d c s, at) (rw (append-nil w) (words_at d c w s at))
  | inr past ↦
      rw (starts_with_char d c s, past)
        (words_past d c w s past
          ∙ words-find d (w ++ c ∷ []) s
          ∙ by_first-cons d c w s (find (d ∷ []) s))
]

find-lt : (d : ℕ) (s : Bytes) (k : ℕ) → find (d ∷ []) s ≡ some k → k < length s
unfolding find
find-lt d [] k h = cc
find-lt d (c ∷ s) zero h = omega arith
find-lt d (c ∷ s) (suc k) h = ground (arith, find-lt d s k)

close-push :
    (tokens : List Bytes) (w : Bytes) (ws : List Bytes)
    → push_token tokens w ++ ws ≡ tokens ++ close w ws
unfolding push_token
close-push tokens [] ws = refl
close-push tokens (c ∷ w) ws = append_assoc tokens ((c ∷ w) ∷ []) ws

drop_end : (k : ℕ) (s : Bytes) → length s ≤ k → drop k s ≡ []
drop_end zero [] h = refl
drop_end zero (c ∷ s) h = absurd (omega arith)
drop_end (suc k) [] h = refl
drop_end (suc k) (c ∷ s) h = drop_end k s (omega arith)

push-none : (tokens : List Bytes) (s : Bytes) → push_token tokens s ≡ tokens ++ close s []
push-none tokens s = sym (append-nil (push_token tokens s)) ∙ close-push tokens s []

length-drop-lt : (k : ℕ) (s : Bytes) → k < length s → length (drop (suc k) s) < length s
length-drop-lt k [] h = absurd (omega arith)
length-drop-lt zero (c ∷ s) h = omega arith
length-drop-lt (suc k) (c ∷ s) h = omega (arith, length-drop-lt k s (omega arith))

split_loop-words :
    (fuel d : ℕ) (s : Bytes) (tokens : List Bytes)
    → length s < fuel
    → split_loop fuel (d ∷ []) s tokens ≡ some (tokens ++ words d s)
unfolding split_loop find_or_end
split_loop-words zero d s tokens h = absurd (omega arith)
split_loop-words (suc fuel) d s tokens h = elim (Option-cases (find (d ∷ []) s)) [
  | inl e ↦ rw (words-find d [] s, e) (ground (arith, push-none tokens s, take-length s))
  | inr (k, e) ↦
      rw (words-find d [] s, e)
        (ground (
          arith,
          find-lt d s k e,
          add-one k,
          drop_end (suc k) s,
          length-drop-lt k s,
          push-none tokens (take k s),
          close-push tokens (take k s) (words d (drop (suc k) s)),
          split_loop-words fuel d (drop (suc k) s) (push_token tokens (take k s)),
        ))
]

-- With a delimiter of one char the loop of `no_ss_split` ends, and gives the words of the text in
-- order: the maximal runs without the delimiter that are not empty.
pub no_ss_split-words : (str : Bytes) (d : ℕ) → no_ss_split str (d ∷ []) ≡ some (words d str)
unfolding no_ss_split
no_ss_split-words str d = split_loop-words (suc (length str)) d str [] (omega arith)

-- A text without the delimiter is one word, or none if it is empty.
pub words-lacking :
    (d : ℕ) (w s : Bytes) → All (λ c. (c == d) ≡ false) s → words_from d w s ≡ close (w ++ s) []
words-lacking d w [] h = rw (append-nil w)
words-lacking d w (c ∷ s) h =
    words_past d c w s h.0
    ∙ words-lacking d (w ++ c ∷ []) s h.1
    ∙ ap (λ t. close t []) (append_assoc w (c ∷ []) s)
