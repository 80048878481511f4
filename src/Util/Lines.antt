-- ===== src/Util/Lines.antt =====
-- `split` of nc_util.hpp, which reads a stream of the text by `std::getline`.
use libncclient.Common.{
  ℕ, zero, suc, ◌≤◌, ◌≡◌, ◌≢◌, refl, sym, ◌∙◌, [], ◌∷◌, ◌++◌, List, Bytes, All, arith, length, ◌==◌,
  if◌then◌else◌, append_assoc, append-nil, length-append,
}

-- `std::getline` on a text that is not empty: the chars before the delimiter, and those behind it.
unfoldable pub getline : ℕ → Bytes → Bytes × Bytes
getline delim [] = ([], [])
getline delim (c ∷ s) =
    let (item, rest) = getline delim s in if c == delim then ([], s) else (c ∷ item, rest)

-- The loop: `getline` fails where no char is left. Each round reads a char at least.
split_items : ℕ → ℕ → Bytes → List Bytes → List Bytes
unfolding getline
split_items zero delim s elems = elems
split_items (suc fuel) delim [] elems = elems
split_items (suc fuel) delim (c ∷ s) elems =
    let (item, rest) = getline delim (c ∷ s) in split_items fuel delim rest (elems ++ item ∷ [])

-- The `split` that appends to its argument.
unfoldable pub split_onto : Bytes → ℕ → List Bytes → List Bytes
unfolding split_items
split_onto s delim elems = split_items (length s) delim s elems

unfoldable pub split : Bytes → ℕ → List Bytes
unfolding split_onto
split s delim = split_onto s delim []

-- No char of the item is the delimiter.
abbrev pub Lacks : ℕ → Bytes → Type 0
Lacks delim = All (λ c. c ≢ delim)

-- Each item with a delimiter behind it, then the last one without.
abbrev pub written : ℕ → List Bytes → Bytes → Bytes
written delim [] last = last
written delim (item ∷ items) last = item ++ (delim ∷ written delim items last)

-- The last item, unless it is empty.
abbrev pub unless_empty : Bytes → List Bytes
unless_empty [] = []
unless_empty (c ∷ s) = (c ∷ s) ∷ []

getline_at :
    (delim : ℕ) (item rest : Bytes)
    → Lacks delim item
    → getline delim (item ++ (delim ∷ rest)) ≡ (item, rest)
unfolding getline
getline_at delim [] rest lacks = ground arith
getline_at delim (c ∷ item) rest (other, lacks) =
    ground (arith, other, getline_at delim item rest lacks)

getline_end : (delim : ℕ) (item : Bytes) → Lacks delim item → getline delim item ≡ (item, [])
unfolding getline
getline_end delim [] lacks = refl
getline_end delim (c ∷ item) (other, lacks) = ground (arith, other, getline_end delim item lacks)

split_items-step :
    (fuel delim : ℕ) (s item rest : Bytes) (elems : List Bytes)
    → 1 ≤ length s
    → getline delim s ≡ (item, rest)
    → split_items (suc fuel) delim s elems ≡ split_items fuel delim rest (elems ++ item ∷ [])
unfolding split_items
split_items-step fuel delim [] item rest elems some e = absurd (omega arith)
split_items-step fuel delim (c ∷ s) item rest elems some e = rw e refl

split_items_end : (fuel delim : ℕ) (elems : List Bytes) → split_items fuel delim [] elems ≡ elems
unfolding split_items
split_items_end zero delim elems = refl
split_items_end (suc fuel) delim elems = refl

split_items-written :
    (fuel delim : ℕ) (items : List Bytes) (last : Bytes) (elems : List Bytes)
    → All (Lacks delim) items
    → Lacks delim last
    → length (written delim items last) ≤ fuel
    → split_items fuel delim (written delim items last) elems
      ≡ elems ++ (items ++ unless_empty last)
unfolding split_items
split_items-written fuel delim [] [] elems lack lacks enough =
    split_items_end fuel delim elems ∙ sym (append-nil elems)
split_items-written zero delim [] (c ∷ s) elems lack lacks enough = absurd (omega (arith, enough))
split_items-written (suc fuel) delim [] (c ∷ s) elems lack lacks enough =
    split_items-step fuel delim (c ∷ s) (c ∷ s) [] elems (omega arith)
      (getline_end delim (c ∷ s) lacks)
    ∙ split_items_end fuel delim (elems ++ (c ∷ s) ∷ [])
split_items-written zero delim (item ∷ items) last elems (lack, lacking) lacks enough =
    absurd (omega (arith, enough, length-append item (delim ∷ written delim items last)))
split_items-written (suc fuel) delim (item ∷ items) last elems (lack, lacking) lacks enough =
    let rest = written delim items last in
    let sum = length-append item (delim ∷ rest) in
    split_items-step fuel delim (item ++ (delim ∷ rest)) item rest elems (omega (arith, sum))
      (getline_at delim item rest lack)
    ∙ split_items-written fuel delim items last (elems ++ item ∷ []) lacking lacks
        (omega (arith, enough, sum))
    ∙ append_assoc elems (item ∷ []) (items ++ unless_empty last)

-- Every text is items with the delimiter behind each, and a last item; `split` gives these items,
-- empty ones too, and the last item if it is not empty. So a text that ends in the delimiter has no
-- empty item behind it, and the empty text has no items.
pub split-written :
    (delim : ℕ) (items : List Bytes) (last : Bytes)
    → All (Lacks delim) items
    → Lacks delim last
    → split (written delim items last) delim ≡ items ++ unless_empty last
unfolding split split_onto
split-written delim items last lack lacks =
    split_items-written (length (written delim items last)) delim items last [] lack lacks
      (omega arith)
