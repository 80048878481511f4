-- ===== src/Interop/Balance.antt =====
-- What the calls on strings of nc_string_interop.hpp leave allocated.
use libncclient.Common.{
  ℕ, zero, suc, ◌≡◌, refl, sym, ◌∙◌, [], ◌∷◌, Option, none, some, Bytes, ℤ, pos, negsuc, to_int,
  length, ◌+◌, arith, subst,
}
use libncclient.Memory.{pure, ◌>>=◌, ◌>>◌, new_block}
use libncclient.Memory.Laws.{delete_block_first}
use libncclient.Memory.Balance.{
  Blocks, Runs, Same, pure_runs, undefined_runs, raise_runs, back_runs, then_runs, option_runs,
  if_runs,
}
use libncclient.Interop.{
  SizedString, SizedView, peek, read_chars, reach, view_to_cpp, c_str_sized_to_cpp, free_string,
  free_sized_string, c_str_consume, copy_chars, make_copy, make_view_owned, to_nul,
  make_view_from_raw,
}

-- The string owns the newest block, in front of these.
abbrev pub Owns : Blocks → SizedString → Blocks → Type 0
Owns b s c = (a : ℕ) × (t : Bytes) × (s.str ≡ some a) × (c ≡ (a, t) ∷ b)

peek_runs : (b : Blocks) (n : ℕ) (str : Option Bytes) → Runs b (peek n str) (Same b)
unfolding peek
peek_runs b zero str = pure_runs b (Same b) [] refl
peek_runs b (suc n) none = undefined_runs b (Same b)
peek_runs b (suc n) (some s) =
    if_runs b (Same b) _ _ _ (pure_runs b (Same b) _ refl) (undefined_runs b (Same b))

read_chars_runs : (b : Blocks) (n : ℤ) (str : Option Bytes) → Runs b (read_chars n str) (Same b)
unfolding read_chars
read_chars_runs b (pos n) str = peek_runs b n str
read_chars_runs b (negsuc n) str = raise_runs b (Same b)

pub view_to_cpp_runs : (b : Blocks) (v : SizedView) → Runs b (view_to_cpp v) (Same b)
unfolding view_to_cpp
view_to_cpp_runs b v = read_chars_runs b v.num v.str

pub c_str_sized_to_cpp_runs :
    (b : Blocks) (s : SizedString) → Runs b (c_str_sized_to_cpp s) (Same b)
unfolding c_str_sized_to_cpp
c_str_sized_to_cpp_runs b s = record {
  leaves = λ next.
      (read_chars_runs b s.num (reach s.str (record { next = next; blocks = b }))).leaves next;
}

pub make_view_owned_runs : (b : Blocks) (s : SizedString) → Runs b (make_view_owned s) (Same b)
unfolding make_view_owned
make_view_owned_runs b s = record { leaves = λ next. refl }

pub make_view_from_raw_runs : (b : Blocks) (c : Bytes) → Runs b (make_view_from_raw c) (Same b)
unfolding make_view_from_raw
make_view_from_raw_runs b c =
    option_runs b (Same b) (to_nul c) _ _ (undefined_runs b (Same b))
      (λ s. pure_runs b (Same b) _ refl)

copy_chars_runs : (b : Blocks) (s : Bytes) (n : ℤ) → Runs b (copy_chars s n) (Owns b)
unfolding copy_chars new_block
copy_chars_runs b s (negsuc n) = raise_runs b (Owns b)
copy_chars_runs b s (pos zero) = record { leaves = λ next. (next, [], refl, refl) }
copy_chars_runs b s (pos (suc n)) = record { leaves = λ next. (next, _, refl, refl) }

-- A copy owns one new block, however long the string is.
pub make_copy_runs : (b : Blocks) (s : Bytes) → Runs b (make_copy s) (Owns b)
unfolding make_copy
make_copy_runs b s = copy_chars_runs b s (to_int (length s + 1))

free_at :
    (b : Blocks) (s : SizedString) (a : ℕ) (t : Bytes)
    → s.str ≡ some a
    → Runs ((a, t) ∷ b) (free_sized_string s) (Same b)
unfolding free_sized_string free_string
free_at b s a t owned = record {
  leaves = λ next. ground (arith, owned, delete_block_first a next t b);
}

-- Its release leaves what there was before.
pub free_sized_string_runs :
    (b c : Blocks) (s : SizedString) → Owns b s c → Runs c (free_sized_string s) (Same b)
free_sized_string_runs b c s (a, t, owned, newest) =
    subst (λ c. Runs c (free_sized_string s) (Same b)) (sym newest) (free_at b s a t owned)

consume_at :
    (b c : Blocks) (s : SizedString) (o : Option ℕ)
    → Owns b s c
    → s.str ≡ o
    → Runs {A = Bytes} c
        (elim o [
          | none ↦ pure []
          | some a ↦ do ret ← c_str_sized_to_cpp s; free_sized_string s; pure ret
        ])
        (Same b)
consume_at b c s none (a, t, owned, newest) e = absurd (cc (sym owned ∙ e))
consume_at b c s (some a) owns e =
    then_runs c (Same b) (c_str_sized_to_cpp s) _ (c_str_sized_to_cpp_runs c s) (λ ret.
      back_runs b c (Same b) (free_sized_string s) _ (free_sized_string_runs b c s owns)
        (λ u. pure_runs b (Same b) ret refl))

pub c_str_consume_runs :
    (b c : Blocks) (s : SizedString) → Owns b s c → Runs c (c_str_consume s) (Same b)
unfolding c_str_consume
c_str_consume_runs b c s owns = consume_at b c s s.str owns refl
