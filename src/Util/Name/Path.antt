-- ===== src/Util/Name/Path.antt =====
-- Which host and which file a full name stands for: `get_host_from_fullname` and `script_file`
-- (`get_script_from_name_string`) of nc_util.hpp.
use libncclient.Common.{
  ◌≡◌, refl, ap, ◌∙◌, true, false, [], ◌∷◌, ◌++◌, some, Bytes, codes, append_assoc, All, All-append,
}
use libncclient.Util.Split.{no_ss_split}
use libncclient.Util.Split.Words.{close}
use libncclient.Util.Strip.{isspace, strip_whitespace, strip_whitespace_plain}
use libncclient.Util.Name.{
  is_valid_string, replace, first_part, script_file, get_host_from_fullname,
}
use libncclient.Util.Name.Plain.{dot, IsPlain, is_valid_string-IsPlain, IsPlain-count}
use libncclient.Util.Name.Cut.{split-cut}
use libncclient.Util.Name.Full.{FullName, FullName-full}

host_first : (a b : Bytes) → is_valid_string a false ≡ true → first_part (close a (close b [])) ≡ a
unfolding first_part is_valid_string
host_first [] b h = cc
host_first (c ∷ a) b h = refl

module _ (s : Bytes) (f : FullName s) where
  host_IsPlain : All IsPlain f.host
  host_IsPlain = is_valid_string-IsPlain f.host false f.host_valid

  name_IsPlain : All IsPlain f.name
  name_IsPlain = is_valid_string-IsPlain f.name true f.name_valid

  split-FullName : no_ss_split s (codes ".") ≡ some (close f.host (close f.name []))
  split-FullName =
      ap (λ t. no_ss_split t (codes ".")) f.cut
      ∙ split-cut f.host f.name (IsPlain-count f.host host_IsPlain)
          (IsPlain-count f.name name_IsPlain)

  -- The host of a full name is the part before the dot. The name is a full name (`FullName`).
  pub get_host_from_fullname-FullName : get_host_from_fullname s ≡ some f.host
  unfolding get_host_from_fullname
  get_host_from_fullname-FullName =
      rw (split-FullName, get_host_from_fullname) (ap some (host_first f.host f.name f.host_valid))

replace-IsPlain : (s : Bytes) → All IsPlain s → replace dot b'/' s ≡ s
unfolding replace
replace-IsPlain [] h = refl
replace-IsPlain (c ∷ s) h = rw (h.0.no_dot, replace-IsPlain s h.1)

replace-cut :
    (a b : Bytes) → All IsPlain a → All IsPlain b → replace dot b'/' (a ++ dot ∷ b) ≡ a ++ b'/' ∷ b
unfolding replace
replace-cut [] b ha hb = ap (◌∷◌ b'/') (replace-IsPlain b hb)
replace-cut (c ∷ a) b ha hb = rw (ha.0.no_dot, replace-cut a b ha.1 hb)

IsPlain-space : (s : Bytes) → All IsPlain s → All (λ c. isspace c ≡ false) s
IsPlain-space [] h = tt
IsPlain-space (c ∷ s) h = (h.0.no_space, IsPlain-space s h.1)

strip-cut :
    (a b : Bytes) → All IsPlain a → All IsPlain b → strip_whitespace (a ++ dot ∷ b) ≡ a ++ dot ∷ b
unfolding isspace
strip-cut a b ha hb =
    strip_whitespace_plain (a ++ dot ∷ b)
      (All-append _ a (dot ∷ b) (IsPlain-space a ha) (refl, IsPlain-space b hb))

-- The file of a valid name lies one folder below the base: its two parts hold no slash and no dot.
-- The name is a full name (`FullName`).
pub script_file-FullName :
    (base s : Bytes) (f : FullName s)
    → (script_file base s
        ≡ some (base ++ codes "/" ++ f.host ++ codes "/" ++ f.name ++ codes ".js"))
      × All IsPlain f.host
      × All IsPlain f.name
unfolding script_file
script_file-FullName base s f = (
  rw (FullName-full s f, f.cut)
      (rw (strip-cut f.host f.name (host_IsPlain s f) (name_IsPlain s f))
        (rw (replace-cut f.host f.name (host_IsPlain s f) (name_IsPlain s f)) (simp append_assoc))),
  host_IsPlain s f,
  name_IsPlain s f,
)
