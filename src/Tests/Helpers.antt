-- ===== src/Tests/Helpers.antt =====
-- Runs of the text helpers of nc_util.hpp.
use libncclient.Common.{ℕ, ◌≡◌, refl, true, false, List, [], ◌∷◌, ◌++◌, Bytes, codes}
use libncclient.Util.Name.{isalnum, isdigit, islower, isupper}
use libncclient.Util.Lines.{getline, split_onto, split, unless_empty, split-written}
use libncclient.Util.Format.{
  longest, pad, format_by_vector, to_string_with_enforced_variable_dp, tolower, tolower_str,
  to_string_with_enforced_variable_dp-places,
}
use libncclient.Util.Colour.{
  known_colour, string_to_colour, alnum_loop, colour_from, colour_string_only_alnum,
}
use libncclient.Util.Level.{
  fraction, seclevel_fraction_to_seclevel, seclevel_fraction_to_colour,
  seclevel_fraction_to_colour_lem,
}

abbrev no_hash : Bytes → ℕ
no_hash text = 0

split_run : split (codes ",a,,b,") b',' ≡ [] ∷ codes "a" ∷ [] ∷ codes "b" ∷ []
unfolding split split_onto getline
split_run = refl

split-written_example :
    split (codes "a,,b") b',' ≡ (codes "a" ∷ [] ∷ []) ++ unless_empty (codes "b")
split-written_example =
    split-written b',' (codes "a" ∷ [] ∷ []) (codes "b") (((λ e. cc), tt), (tt, tt)) ((λ e. cc), tt)

abbrev names : List Bytes
names = codes "ab" ∷ codes "" ∷ codes "abc" ∷ []

pad_run : format_by_vector (codes "a") names ≡ codes "a  "
unfolding format_by_vector longest pad
pad_run = refl

to_string_with_enforced_variable_dp-places_example :
    to_string_with_enforced_variable_dp true (codes "0.012345") 1 ≡ codes "0.01"
to_string_with_enforced_variable_dp-places_example =
    to_string_with_enforced_variable_dp-places true (codes "0") (codes "012345") 1 ((λ e. cc), tt)

extern : string_to_colour no_hash (codes "FullSec") ≡ codes "4"
unfolding string_to_colour known_colour tolower_str tolower isupper
extern = refl

only_alnum : colour_string_only_alnum no_hash (codes "[core]") ≡ codes "`L[core]`"
unfolding colour_string_only_alnum alnum_loop colour_from string_to_colour known_colour isalnum
    isdigit islower isupper
only_alnum = refl

seclevel_fraction_to_colour_lem_example :
    (seclevel_fraction_to_seclevel (fraction false 1 1) ≡ 2)
    × (seclevel_fraction_to_colour no_hash (fraction false 1 1) ≡ codes "2")
seclevel_fraction_to_colour_lem_example =
    seclevel_fraction_to_colour_lem no_hash (fraction false 1 1)

half : seclevel_fraction_to_seclevel (fraction false 1 1) ≡ 2
unfolding seclevel_fraction_to_seclevel
half = refl
