-- ===== src/Tests/Requests.antt =====
-- Tests of the requests and the uploads of ServerApi.
use libncclient.Common.{
  ℕ, ◌≡◌, refl, true, [], ◌∷◌, none, some, Bytes, codes, pos, arith, bytes_eq, if◌then◌else◌,
}
use libncclient.Memory.{Heap, done}
use libncclient.Interop.{SizedView, make_view}
use libncclient.Interop.Copies.{Shows, copy_in, with_copy, make_view-Shows}
use libncclient.ServerApi.Json.{JsonLib}
use libncclient.ServerApi.Up.{Files, sa_default_up_handling}
use libncclient.ServerApi.Up.Choice.{sa_default_up_handling_lem}

abbrev pub clean : Heap
clean = record { next = 1; blocks = [] }

abbrev me : SizedView
unfolding make_view
me = make_view (codes "me")

abbrev directory : SizedView
unfolding make_view
directory = make_view (codes "s/")

-- One script as `.ts`, and one as `.es5.js`.
abbrev scripts : Files
scripts name =
    if bytes_eq name (codes "s/me.a.ts")
    then some (codes "T")
    else if bytes_eq name (codes "s/me.b.es5.js")
    then some (codes "F")
    else none

me-Shows : Shows me (codes "me")
unfolding make_view
me-Shows = make_view-Shows (codes "me") (omega arith)

directory-Shows : Shows directory (codes "s/")
unfolding make_view
directory-Shows = make_view-Shows (codes "s/") (omega arith)

sa_default_up_handling_lem_example :
    sa_default_up_handling scripts me (make_view (codes "#dry a")) directory clean
    ≡ done (copy_in (codes "#up_es6 a T") clean) (with_copy (codes "#up_es6 a T") clean)
unfolding make_view
sa_default_up_handling_lem_example =
    sa_default_up_handling_lem scripts me directory (codes "me") (codes "s/") true b'a' []
      (codes "#up_es6 a T") clean me-Shows directory-Shows refl refl (refl, tt) (omega arith) refl
      (omega arith)

-- A JSON library whose values are texts: an object has every key, with the key as its value, and
-- only "close" is no number.
abbrev pub texts : JsonLib
texts = record {
  Json = Bytes;
  Float = ℕ;
  object = λ members. codes "{}";
  of_int = λ i. codes "0";
  of_float = λ f. codes "0.0";
  of_strings = λ ss. codes "[]";
  dump = λ j. j;
  parse = λ s. some s;
  at_key = λ j key. some key;
  has_key = λ j key. true;
  size = λ j. 0;
  at_index = λ j i. none;
  get_string = λ j. some j;
  get_strings = λ j. some (if bytes_eq j (codes "vals") then codes "v" ∷ [] else codes "k" ∷ []);
  get_int = λ j. if bytes_eq j (codes "close") then none else some (pos 0);
}

-- As `texts`, but without values.
abbrev pub uneven : JsonLib
uneven = record texts {
  get_strings = λ j. some (if bytes_eq j (codes "vals") then [] else codes "k" ∷ []);
}
