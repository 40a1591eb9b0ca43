-- ===== src/Wire/Tests.antt =====
-- Runs of the reads of src/wire.rs, and their theorems at concrete inputs.
use recurse_x.Prelude.{ℕ, ◌%◌, ◌^◌, ◌≡◌, refl, List, [], ◌∷◌, ◌++◌, arith}
use recurse_x.Error.{ok, err, ◌>>=◌}
use recurse_x.Wire.{
  out_of_range, slice_at, rest_at, from_be_bytes, to_be_bytes, u16_at, u24_at, u32_at, u48_at,
  capped,
}
use recurse_x.Wire.Reads.{words_at, words_at-to_be_bytes}

abbrev six_bytes : List ℕ
six_bytes = 0x12 ∷ 0x34 ∷ 0x56 ∷ 0x78 ∷ 0x9a ∷ 0xbc ∷ []

u24_run : u24_at six_bytes 1 ≡ ok 0x345678
unfolding u24_at
u24_run = refl

u48_run : u48_at six_bytes 0 ≡ ok 0x123456789abc
unfolding u48_at
u48_run = refl

straddling : u16_at six_bytes 5 ≡ err out_of_range
unfolding u16_at
straddling = refl

offset_overflow : slice_at six_bytes 0xffff_ffff_ffff_ffff 1 ≡ err out_of_range
unfolding slice_at
offset_overflow = refl

empty_tail : rest_at six_bytes 6 ≡ ok []
unfolding rest_at
empty_tail = refl

capped_run : capped six_bytes 2 ≡ 0x12 ∷ 0x34 ∷ []
unfolding capped
capped_run = refl

words_at_example :
    (u16_at six_bytes 3 ≡ (slice_at six_bytes 3 2 >>= λ b. ok (from_be_bytes b)))
    × (u24_at six_bytes 3 ≡ (slice_at six_bytes 3 3 >>= λ b. ok (from_be_bytes b)))
    × (u32_at six_bytes 3 ≡ (slice_at six_bytes 3 4 >>= λ b. ok (from_be_bytes b)))
    × (u48_at six_bytes 3 ≡ (slice_at six_bytes 3 6 >>= λ b. ok (from_be_bytes b)))
words_at_example = words_at six_bytes 3 (omega arith) (omega arith)

words_at-to_be_bytes_example :
    (u16_at (7 ∷ [] ++ (to_be_bytes 2 0x1234 ++ six_bytes)) 1 ≡ ok (0x1234 % 2 ^ 16))
    × (u32_at (7 ∷ [] ++ (to_be_bytes 4 0x1234 ++ six_bytes)) 1 ≡ ok (0x1234 % 2 ^ 32))
unfolding to_be_bytes
words_at-to_be_bytes_example =
    words_at-to_be_bytes (7 ∷ []) six_bytes 0x1234 (omega arith) (omega arith)
