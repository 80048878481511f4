-- ===== src/Util/Split/Tokens.antt =====
-- What the tokens of `no_ss_split` are, apart from any way to compute them.
use libncclient.Common.{
  ℕ, zero, suc, ◌≡◌, ◌≢◌, inl, inr, refl, ap, ◌∙◌, true, false, [], ◌∷◌, ◌++◌, List, none, some,
  Bytes, arith, ◌==◌, if◌then◌else◌, append_assoc, All, All-append, Bool-cases,
}
use libncclient.Util.Prefix.{starts_with}
use libncclient.Util.Split.{find, find_or_end, push_token, split_loop, no_ss_split}
use libncclient.Util.Split.Words.{close, words_from, words, words_at, words_past, no_ss_split-words}

-- The text without the delimiters.
abbrev pub without : ℕ → Bytes → Bytes
without d [] = []
without d (c ∷ s) = if c == d then without d s else c ∷ without d s

abbrev pub concat : List Bytes → Bytes
concat [] = []
concat (w ∷ ws) = w ++ concat ws

-- A token is not empty and does not hold the delimiter.
abbrev pub IsToken : ℕ → Bytes → Type 0
IsToken d w = (w ≢ []) × All (λ c. (c == d) ≡ false) w

concat-close : (w : Bytes) (ws : List Bytes) → concat (close w ws) ≡ w ++ concat ws
concat-close [] ws = refl
concat-close (c ∷ w) ws = refl

concat-words : (d : ℕ) (w s : Bytes) → concat (words_from d w s) ≡ w ++ without d s
concat-words d w [] = concat-close w []
concat-words d w (c ∷ s) = elim (Bool-cases (c == d)) [
  | inl at ↦
      rw (words_at d c w s at, at) (concat-close w (words d s) ∙ ap (◌++◌ w) (concat-words d [] s))
  | inr past ↦
      rw (words_past d c w s past, past)
        (concat-words d (w ++ c ∷ []) s ∙ append_assoc w (c ∷ []) (without d s))
]

close-IsToken :
    (d : ℕ) (w : Bytes) (ws : List Bytes)
    → All (λ c. (c == d) ≡ false) w
    → All (IsToken d) ws
    → All (IsToken d) (close w ws)
close-IsToken d [] ws hw hs = hs
close-IsToken d (c ∷ w) ws hw hs = (((λ e. cc), hw), hs)

words_from-IsToken :
    (d : ℕ) (w s : Bytes) → All (λ c. (c == d) ≡ false) w → All (IsToken d) (words_from d w s)
words_from-IsToken d w [] h = close-IsToken d w [] h tt
words_from-IsToken d w (c ∷ s) h = elim (Bool-cases (c == d)) [
  | inl at ↦
      rw (words_at d c w s at) (close-IsToken d w (words d s) h (words_from-IsToken d [] s tt))
  | inr past ↦
      rw (words_past d c w s past)
        (words_from-IsToken d (w ++ c ∷ []) s (All-append _ w (c ∷ []) h (past, tt)))
]

-- The tokens of a split on one char are not empty, do not hold the delimiter, and spell the text
-- without its delimiters, in order.
pub no_ss_split-IsToken :
    (str : Bytes) (d : ℕ)
    → (tokens : List Bytes) × (no_ss_split str (d ∷ []) ≡ some tokens)
      × All (IsToken d) tokens
      × (concat tokens ≡ without d str)
no_ss_split-IsToken str d =
    (words d str, no_ss_split-words str d, words_from-IsToken d [] str tt, concat-words d [] str)

starts_with_nothing : (s : Bytes) → starts_with s [] ≡ true
unfolding starts_with
starts_with_nothing s = ground arith

find_nothing : (s : Bytes) → find [] s ≡ some 0
unfolding find
find_nothing [] = refl
find_nothing (c ∷ s) = rw (starts_with_nothing (c ∷ s))

find_or_end_nothing : (s : Bytes) → find_or_end [] s ≡ 0
unfolding find_or_end
find_or_end_nothing s = rw (find_nothing s, find_or_end)

-- On an empty delimiter and a text that is not empty the loop does not end.
pub split_loop_forever :
    (fuel c : ℕ) (s : Bytes) (tokens : List Bytes) → split_loop fuel [] (c ∷ s) tokens ≡ none
unfolding split_loop push_token
split_loop_forever zero c s tokens = refl
split_loop_forever (suc fuel) c s tokens =
    rw (find_or_end_nothing (c ∷ s)) (ground (arith, split_loop_forever fuel c s tokens))
