-- ===== src/Util/Name/Cut.antt =====
-- Texts with one dot, and what `is_valid_full_name_string` of nc_util.hpp makes of them.
use libncclient.Common.{
  ℕ, ◌+◌, ◌≡◌, inl, inr, refl, ap, ◌∙◌, true, false, ◌&&◌, [], ◌∷◌, ◌++◌, some, Bytes, arith, ◌==◌,
  codes, append_assoc, append-nil, Bool-cases,
}
use libncclient.Util.Split.{no_ss_split}
use libncclient.Util.Split.Words.{close, words_from, words, words_past, no_ss_split-words}
use libncclient.Util.Name.{is_valid_string, count, check_parts, is_valid_full_name_string}
use libncclient.Util.Name.Plain.{dot}

-- A text with one dot, cut at it.
pub record OneDot (s : Bytes) : Type 0 where
  pub host : Bytes
  pub name : Bytes
  pub cut : s ≡ host ++ dot ∷ name
  pub host_lacks : count dot host ≡ 0
  pub name_lacks : count dot name ≡ 0

pub count-OneDot : (s : Bytes) → count dot s ≡ 1 → OneDot s
unfolding count
count-OneDot [] h = absurd (omega arith)
count-OneDot (c ∷ s) h = elim (Bool-cases (c == dot)) [
  | inl at ↦ record {
    host = [];
    name = s;
    cut = ground arith;
    host_lacks = refl;
    name_lacks = ground arith;
  }
  | inr past ↦
      let rest : OneDot s = count-OneDot s (ground arith) in
      record {
        host = c ∷ rest.host;
        name = rest.name;
        cut = ap (◌∷◌ c) rest.cut;
        host_lacks = rw past rest.host_lacks;
        name_lacks = rest.name_lacks;
      }
]

count-past : (c : ℕ) (s : Bytes) → count dot (c ∷ s) ≡ 0 → ((c == dot) ≡ false) × (count dot s ≡ 0)
unfolding count
count-past c s h = ground arith

words_lacking : (w s : Bytes) → count dot s ≡ 0 → words_from dot w s ≡ close (w ++ s) []
words_lacking w [] h = rw (append-nil w)
words_lacking w (c ∷ s) h =
    let (past, later) = count-past c s h in
    words_past dot c w s past
    ∙ words_lacking (w ++ c ∷ []) s later
    ∙ ap (λ t. close t []) (append_assoc w (c ∷ []) s)

words-cut :
    (w a b : Bytes)
    → count dot a ≡ 0
    → words_from dot w (a ++ dot ∷ b) ≡ close (w ++ a) (words dot b)
words-cut w [] b h = rw (append-nil w)
words-cut w (c ∷ a) b h =
    let (past, later) = count-past c a h in
    words_past dot c w (a ++ dot ∷ b) past
    ∙ words-cut (w ++ c ∷ []) a b later
    ∙ ap (λ t. close t (words dot b)) (append_assoc w (c ∷ []) a)

count-append : (d : ℕ) (a b : Bytes) → count d (a ++ b) ≡ count d a + count d b
unfolding count
count-append d [] b = omega arith
count-append d (c ∷ a) b = ground (arith, count-append d a b)

check_parts-close :
    (a b : Bytes)
    → check_parts (close a (close b [])) ≡ (is_valid_string a false && is_valid_string b true)
unfolding check_parts is_valid_string
check_parts-close [] [] = refl
check_parts-close [] (c ∷ b) = refl
check_parts-close (c ∷ a) [] = ground arith
check_parts-close (c ∷ a) (d ∷ b) = ground arith

pub split-cut :
    (a b : Bytes)
    → count dot a ≡ 0
    → count dot b ≡ 0
    → no_ss_split (a ++ dot ∷ b) (codes ".") ≡ some (close a (close b []))
split-cut a b ha hb =
    no_ss_split-words (a ++ dot ∷ b) dot
    ∙ ap some (words-cut [] a b ha ∙ ap (close a) (words_lacking [] b hb))

count-cut : (a b : Bytes) → count dot a ≡ 0 → count dot b ≡ 0 → count dot (a ++ dot ∷ b) ≡ 1
unfolding count
count-cut a b ha hb = ground (arith, count-append dot a (dot ∷ b))

pub full-cut :
    (a b : Bytes)
    → count dot a ≡ 0
    → count dot b ≡ 0
    → is_valid_full_name_string (a ++ dot ∷ b) ≡ (is_valid_string a false && is_valid_string b true)
unfolding is_valid_full_name_string
full-cut a b ha hb = rw (count-cut a b ha hb, split-cut a b ha hb) (check_parts-close a b)
