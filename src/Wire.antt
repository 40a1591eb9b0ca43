-- ===== src/Wire.antt =====
-- src/wire.rs: bounds-checked reads. A message is the list of its bytes; `usize` has 64 bits.
pub mod Reads
pub mod Holds
mod Tests
use recurse_x.Prelude.{
  ℕ, zero, suc, ◌+◌, ◌-◌, ◌*◌, ◌/◌, ◌%◌, ◌^◌, ◌<◌, Bool, ◌&&◌, Option, none, some, List, [], ◌∷◌,
  leb, ltb, ◌==◌, if◌then◌else◌, length, get_elem?, take, drop, All,
}
use recurse_x.Prelude.Bits.{bit_or}
use recurse_x.Error.{Error, Result, ok, err, ◌>>=◌, ok_or, wire_error, internal_error}

abbrev pub IsByte : ℕ → Type 0
IsByte b = b < 256

abbrev pub usize_limit : ℕ
usize_limit = 2 ^ 64

-- `usize::checked_add`
unfoldable pub checked_add : ℕ → ℕ → Option ℕ
checked_add a b = if ltb (a + b) usize_limit then some (a + b) else none

-- `bytes.get(from..to)` and `bytes.get(from..)`
unfoldable pub get_range {ℓ} : {A : Type ℓ} → List A → ℕ → ℕ → Option (List A)
get_range buf from to =
    if leb from to && leb to (length buf) then some (take (to - from) (drop from buf)) else none

unfoldable pub get_from {ℓ} : {A : Type ℓ} → List A → ℕ → Option (List A)
get_from buf from = if leb from (length buf) then some (drop from buf) else none

abbrev pub out_of_range : Error
unfolding wire_error
out_of_range = wire_error "read past the end of the message"

unfoldable pub byte_at : List ℕ → ℕ → Result ℕ
byte_at buf at = ok_or (get_elem? buf at) out_of_range

unfoldable pub slice_at : List ℕ → ℕ → ℕ → Result (List ℕ)
unfolding checked_add get_range
slice_at buf at len = do
  end ← ok_or (checked_add at len) out_of_range
  ok_or (get_range buf at end) out_of_range

unfoldable pub rest_at : List ℕ → ℕ → Result (List ℕ)
unfolding get_from
rest_at buf at = ok_or (get_from buf at) out_of_range

-- `array_at::<N>`: a slice of another length is an internal error.
unfoldable pub array_at : ℕ → List ℕ → ℕ → Result (List ℕ)
unfolding slice_at internal_error
array_at n buf at = do
  bytes ← slice_at buf at n
  if length bytes == n then ok bytes else err (internal_error "wire read returned the wrong length")

-- `from_be_bytes`: the value of an array of bytes, most significant first.
unfoldable pub be_value_from : ℕ → List ℕ → ℕ
be_value_from acc [] = acc
be_value_from acc (b ∷ bytes) = be_value_from (acc * 256 + b) bytes

abbrev pub from_be_bytes : List ℕ → ℕ
from_be_bytes = be_value_from 0

-- `to_be_bytes` of a word of `width` bytes.
unfoldable pub to_be_bytes : ℕ → ℕ → List ℕ
to_be_bytes zero n = []
to_be_bytes (suc width) n = (n / 256 ^ width % 256) ∷ to_be_bytes width n

unfoldable pub u16_at : List ℕ → ℕ → Result ℕ
unfolding array_at be_value_from
u16_at buf at = do b ← array_at 2 buf at; ok (from_be_bytes b)

unfoldable pub u32_at : List ℕ → ℕ → Result ℕ
unfolding array_at be_value_from
u32_at buf at = do b ← array_at 4 buf at; ok (from_be_bytes b)

-- The three bytes of the array joined by shifts, as `u24_at` does. An array of another length does
-- not come out of `array_at::<3>`.
join24 : List ℕ → ℕ
join24 (b0 ∷ b1 ∷ b2 ∷ []) = bit_or (bit_or (b0 * 2 ^ 16 % 2 ^ 32) (b1 * 2 ^ 8 % 2 ^ 32)) b2
join24 _ = 0

unfoldable pub u24_at : List ℕ → ℕ → Result ℕ
unfolding array_at join24
u24_at buf at = do b ← array_at 3 buf at; ok (join24 b)

-- The loop of `u48_at`: `v = (v << 8) | byte` in 64 bits.
shift_in : ℕ → List ℕ → ℕ
shift_in v [] = v
shift_in v (byte ∷ b) = shift_in (bit_or (v * 2 ^ 8 % 2 ^ 64) byte) b

unfoldable pub u48_at : List ℕ → ℕ → Result ℕ
unfolding array_at shift_in
u48_at buf at = do b ← array_at 6 buf at; ok (shift_in 0 b)

-- `bytes.get(..limit).unwrap_or(bytes)`
unfoldable pub capped : List ℕ → ℕ → List ℕ
unfolding get_range
capped bytes limit = elim (get_range bytes 0 limit) [ some b ↦ b | none ↦ bytes ]
