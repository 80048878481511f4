-- ===== src/Util/Name/Full.antt =====
-- Full names: which texts `is_valid_full_name_string` of nc_util.hpp accepts.
use libncclient.Common.{◌≡◌, ◌↔◌, sym, ap, ◌∙◌, true, false, ◌&&◌, ◌∷◌, ◌++◌, Bytes, arith}
use libncclient.Util.Name.{is_valid_string, count, is_valid_full_name_string}
use libncclient.Util.Name.Plain.{dot, is_valid_string-IsPlain, IsPlain-count}
use libncclient.Util.Name.Cut.{OneDot, count-OneDot, full-cut}

-- A host part and a script part, each valid by itself, of which the second may use capitals.
pub record FullName (s : Bytes) : Type 0 where
  pub host : Bytes
  pub name : Bytes
  pub cut : s ≡ host ++ dot ∷ name
  pub host_valid : is_valid_string host false ≡ true
  pub name_valid : is_valid_string name true ≡ true

full-count : (s : Bytes) → is_valid_full_name_string s ≡ true → count dot s ≡ 1
unfolding is_valid_full_name_string
full-count s h = ground arith

OneDot-full :
    (s : Bytes) (o : OneDot s)
    → is_valid_full_name_string s ≡ (is_valid_string o.host false && is_valid_string o.name true)
OneDot-full s o =
    ap is_valid_full_name_string o.cut ∙ full-cut o.host o.name o.host_lacks o.name_lacks

OneDot-FullName :
    (s : Bytes) (o : OneDot s)
    → (is_valid_string o.host false && is_valid_string o.name true) ≡ true
    → FullName s
OneDot-FullName s o h = record {
  host = o.host;
  name = o.name;
  cut = o.cut;
  host_valid = ground arith;
  name_valid = ground arith;
}

full-FullName : (s : Bytes) → is_valid_full_name_string s ≡ true → FullName s
full-FullName s h =
    let o = count-OneDot s (full-count s h) in OneDot-FullName s o (sym (OneDot-full s o) ∙ h)

pub FullName-full : (s : Bytes) → FullName s → is_valid_full_name_string s ≡ true
FullName-full s f =
    ap is_valid_full_name_string f.cut
    ∙ full-cut f.host f.name
        (IsPlain-count f.host (is_valid_string-IsPlain f.host false f.host_valid))
        (IsPlain-count f.name (is_valid_string-IsPlain f.name true f.name_valid))
    ∙ rw (f.host_valid) (f.name_valid)

-- `is_valid_full_name_string` accepts exactly the texts that are a valid name without capitals, a
-- dot, and a valid name that may have capitals.
pub is_valid_full_name_string_iff : (s : Bytes) → (is_valid_full_name_string s ≡ true) ↔ FullName s
is_valid_full_name_string_iff s = (full-FullName s, FullName-full s)
