-- ===== src/NetClient/Hex.antt =====
-- `binary_to_hex` of c_net_client.cpp. A `char` is its byte; `& 0xF` and `>> 4` on the `int` that it
-- is extended to give the two halves of the byte, whatever its sign.
use libncclient.Common.{
  ℕ, zero, suc, ◌+◌, ◌-◌, ◌*◌, ◌/◌, ◌%◌, ◌<◌, ◌≡◌, refl, Bool, true, false, ◌&&◌, [], ◌∷◌, ◌++◌,
  none, some, Bytes, codes, get_elem?, length, All, arith, if◌then◌else◌, ltb, ◌==◌, ==_iff,
}

-- `LUT[i]`, of an index below 16.
unfoldable pub lut : ℕ → ℕ
lut i = elim (get_elem? (codes "0123456789ABCDEF") i) [ none ↦ 0 | some c ↦ c ]

abbrev pub lower_bits : ℕ → ℕ
lower_bits c = c % 16

abbrev pub upper_bits : ℕ → ℕ
upper_bits c = (c / 16) % 16

unfoldable pub binary_to_hex : Bytes → Bool → Bytes
binary_to_hex [] swap_endianness = []
binary_to_hex (c ∷ s) swap_endianness =
    (if swap_endianness
      then lut (upper_bits c) ∷ lut (lower_bits c) ∷ []
      else lut (lower_bits c) ∷ lut (upper_bits c) ∷ [])
    ++ binary_to_hex s swap_endianness

-- The value of a hex digit.
abbrev pub from_hex : ℕ → ℕ
from_hex c = if ltb c b'A' then c - b'0' else c - b'A' + 10

-- The reader of such a text: two digits make a byte, the lower half first unless they are swapped.
abbrev pub hex_to_binary : Bool → Bytes → Bytes
hex_to_binary swap [] = []
hex_to_binary swap (a ∷ []) = []
hex_to_binary swap (a ∷ b ∷ s) =
    (if swap then from_hex a * 16 + from_hex b else from_hex b * 16 + from_hex a)
    ∷ hex_to_binary swap s

-- The digits from this one on have the values from `v` on.
counted : Bytes → ℕ → Bool
counted [] v = true
counted (c ∷ cs) v = from_hex c == v && counted cs (v + 1)

counted-get :
    (cs : Bytes) (v i : ℕ)
    → counted cs v ≡ true
    → i < length cs
    → from_hex (elim (get_elem? cs i) [ none ↦ 0 | some c ↦ c ]) ≡ v + i
unfolding counted
counted-get [] v i e few = absurd (omega arith)
counted-get (c ∷ cs) v zero e few = ground (arith, ==_iff (from_hex c) v)
counted-get (c ∷ cs) v (suc i) e few =
    omega (arith, counted-get cs (v + 1) i (ground arith) (omega arith))

from_hex-lut : (i : ℕ) → i < 16 → from_hex (lut i) ≡ i
unfolding lut counted
from_hex-lut i few = omega (arith, counted-get (codes "0123456789ABCDEF") 0 i refl few)

halves : (c : ℕ) → c < 256 → from_hex (lut (upper_bits c)) * 16 + from_hex (lut (lower_bits c)) ≡ c
halves c h =
    omega
      (arith, from_hex-lut (upper_bits c) (omega arith), from_hex-lut (lower_bits c) (omega arith))

-- The hex text of any bytes is read back to them, in either order of the halves. Each byte is
-- below 256.
pub hex_to_binary-binary_to_hex :
    (s : Bytes) (swap : Bool) → All (λ c. c < 256) s → hex_to_binary swap (binary_to_hex s swap) ≡ s
unfolding binary_to_hex
hex_to_binary-binary_to_hex [] swap h = refl
hex_to_binary-binary_to_hex (c ∷ s) true h =
    cc (halves c h.0, hex_to_binary-binary_to_hex s true h.1)
hex_to_binary-binary_to_hex (c ∷ s) false h =
    cc (halves c h.0, hex_to_binary-binary_to_hex s false h.1)
