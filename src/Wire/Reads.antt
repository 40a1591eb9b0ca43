-- ===== src/Wire/Reads.antt =====
-- What the reads of src/wire.rs return, on every branch.
use recurse_x.Prelude.{
  ℕ, zero, suc, ◌+◌, ◌*◌, ◌/◌, ◌%◌, ◌^◌, ◌≤◌, ◌<◌, ◌≡◌, refl, ap, ◌∙◌, List, [], ◌∷◌, ◌++◌, leb,
  if◌then◌else◌, length, take, drop, All, arith, length-take, length-drop, length-append,
  take-append_length, drop-append_length, All-take, All-drop,
}
use native.Mathlib.Nat.{pow-suc, one-le-pow, mod_def, div-add-mod, div-div-eq-div-mul}
use recurse_x.Prelude.Bits.{bit_or, bit_or-shifted}
use recurse_x.Error.{Result, ok, err, ◌>>=◌}
use recurse_x.Wire.{
  IsByte, usize_limit, out_of_range, slice_at, array_at, from_be_bytes, be_value_from, to_be_bytes,
  u16_at, u32_at, u24_at, u48_at, join24, shift_in,
}

module _ (buf : List ℕ) (fits : length buf < usize_limit) where
  -- A slice is read exactly when it lies inside the message; every other read, one whose end
  -- leaves `usize` included, is the out-of-range error.
  pub slice_at_lem :
      (at len : ℕ)
      → slice_at buf at len
        ≡ (if leb (at + len) (length buf) then ok (take len (drop at buf)) else err out_of_range)
  unfolding slice_at
  slice_at_lem at len = ground arith

  -- The conversion into an array never meets a slice of another length: `array_at` is `slice_at`.
  pub array_at-slice_at : (n at : ℕ) → array_at n buf at ≡ slice_at buf at n
  unfolding array_at
  array_at-slice_at n at =
      ground (arith, slice_at_lem at n, length-take n (drop at buf), length-drop at buf)

  pub slice_at-eq-ok :
      (at len : ℕ) {s : List ℕ}
      → slice_at buf at len ≡ ok s
      → (at + len ≤ length buf) × (s ≡ take len (drop at buf)) × (length s ≡ len)
  slice_at-eq-ok at len {s} h =
      ground (arith, slice_at_lem at len, length-take len (drop at buf), length-drop at buf)

-- Bytes that stand at an offset are the slice that is read there.
pub slice_at-seam :
    (front s rest : List ℕ)
    → length (front ++ (s ++ rest)) < usize_limit
    → slice_at (front ++ (s ++ rest)) (length front) (length s) ≡ ok s
slice_at-seam front s rest fits =
    rw (slice_at_lem (front ++ (s ++ rest)) fits, drop-append_length, take-append_length)
      (ground (arith, length-append front (s ++ rest), length-append s rest))

pub length-to_be_bytes : (width n : ℕ) → length (to_be_bytes width n) ≡ width
unfolding to_be_bytes
length-to_be_bytes zero n = refl
length-to_be_bytes (suc width) n = ap suc (length-to_be_bytes width n)

-- Two ways to join the bytes of a slice that agree on byte strings of its length.
join_agree :
    (buf : List ℕ) (at n : ℕ) (f g : List ℕ → ℕ)
    → All IsByte buf
    → length buf < usize_limit
    → ((b : List ℕ) → length b ≡ n → All IsByte b → f b ≡ g b)
    → (slice_at buf at n >>= λ b. ok (f b)) ≡ (slice_at buf at n >>= λ b. ok (g b))
join_agree buf at n f g bytes fits agree = go (slice_at buf at n) refl
  where
    go :
        (r : Result (List ℕ))
        → slice_at buf at n ≡ r
        → ◌≡◌ {A = Result ℕ} (r >>= λ b. ok (f b)) (r >>= λ b. ok (g b))
    go (err e) h = refl
    go (ok b) h =
        let (inside, same, len) = slice_at-eq-ok buf fits at n h in
        ap ok
          (agree b len (rw same (All-take IsByte n (drop at buf) (All-drop IsByte at buf bytes))))

join24_lem : (b : List ℕ) → length b ≡ 3 → All IsByte b → join24 b ≡ from_be_bytes b
unfolding join24 be_value_from
join24_lem [] e h = absurd (omega arith)
join24_lem (b0 ∷ []) e h = absurd (omega arith)
join24_lem (b0 ∷ b1 ∷ []) e h = absurd (omega arith)
join24_lem (b0 ∷ b1 ∷ b2 ∷ []) e (h0, (h1, (h2, _))) =
    let low : bit_or (b0 * 2 ^ 16) (b1 * 2 ^ 8) ≡ (b0 * 256 + b1) * 2 ^ 8 =
      bit_or-shifted 16 b0 (b1 * 2 ^ 8) (omega arith) ∙ omega arith in
    let wide : b0 * 2 ^ 16 % 2 ^ 32 ≡ b0 * 2 ^ 16 = omega arith in
    let mid : b1 * 2 ^ 8 % 2 ^ 32 ≡ b1 * 2 ^ 8 = omega arith in
    rw (wide, mid, low) (bit_or-shifted 8 (b0 * 256 + b1) b2 (omega arith) ∙ omega arith)
join24_lem (b0 ∷ b1 ∷ b2 ∷ b3 ∷ b) e h = absurd (omega arith)

shift_room :
    (v byte p limit : ℕ)
    → byte < 256
    → (v + 1) * (p * 256) ≤ limit
    → (v * 256 + byte + 1) * p ≤ limit
shift_room v byte p limit h bound =
    let grow : (v * 256 + byte + 1) * p ≤ (v + 1) * 256 * p = grind arith in omega arith

shift_in_lem :
    (v : ℕ) (b : List ℕ)
    → All IsByte b
    → (v + 1) * 256 ^ length b ≤ 2 ^ 64
    → shift_in v b ≡ be_value_from v b
unfolding shift_in be_value_from
shift_in_lem v [] h bound = refl
shift_in_lem v (byte ∷ b) (h, hs) bound =
    let p : 0 < 256 ^ length b = one-le-pow (length b) 256 (omega arith) in
    let room : (v * 256 + byte + 1) * 256 ^ length b ≤ 2 ^ 64 =
      shift_room v byte (256 ^ length b) (2 ^ 64) h
        (omega (arith, ap (λ (t : ℕ). (v + 1) * t) (pow-suc 256 (length b)))) in
    let fits : v * 2 ^ 8 % 2 ^ 64 ≡ v * 2 ^ 8 = grind arith in
    rw (fits, bit_or-shifted 8 v byte h) (shift_in_lem (v * 256 + byte) b hs room)

be_value_from-to_be_bytes :
    (width acc n : ℕ)
    → be_value_from acc (to_be_bytes width n) ≡ acc * 256 ^ width + n % 256 ^ width
unfolding be_value_from to_be_bytes
be_value_from-to_be_bytes zero acc n = omega arith
be_value_from-to_be_bytes (suc width) acc n =
    let m = 256 ^ width in
    let q = n / m in
    be_value_from-to_be_bytes width (acc * 256 + q % 256) n
    ∙ omega (
      arith,
      pow-suc 256 width,
      ap (λ (t : ℕ). acc * t) (pow-suc 256 width),
      ap (λ (t : ℕ). n % t) (pow-suc 256 width),
      mod_def n (m * 256),
      div-div-eq-div-mul n m 256,
      ap (λ (t : ℕ). m * 256 * t) (div-div-eq-div-mul n m 256),
      ap (λ (t : ℕ). m * t) (div-add-mod q 256),
      div-add-mod n m,
    )

-- Every fixed-width read of a message of bytes is the big-endian value of the slice that it covers,
-- and fails exactly as that slice does; the widths are 2, 3, 4 and 6 bytes.
pub words_at :
    (buf : List ℕ) (at : ℕ)
    → All IsByte buf
    → length buf < usize_limit
    → (u16_at buf at ≡ (slice_at buf at 2 >>= λ b. ok (from_be_bytes b)))
      × (u24_at buf at ≡ (slice_at buf at 3 >>= λ b. ok (from_be_bytes b)))
      × (u32_at buf at ≡ (slice_at buf at 4 >>= λ b. ok (from_be_bytes b)))
      × (u48_at buf at ≡ (slice_at buf at 6 >>= λ b. ok (from_be_bytes b)))
unfolding u16_at u24_at u32_at u48_at
words_at buf at bytes fits = (
  rw (array_at-slice_at buf fits),
  rw (array_at-slice_at buf fits) (join_agree buf at 3 join24 from_be_bytes bytes fits join24_lem),
  rw (array_at-slice_at buf fits),
  rw (array_at-slice_at buf fits) (
      join_agree buf at 6 (shift_in 0) from_be_bytes bytes fits
        (λ b len h. shift_in_lem 0 b h (rw len (omega arith)))),
)

-- The value of a word that stands in the message, by its width.
pub word_at-seam :
    (front rest : List ℕ) (n width : ℕ)
    → length (front ++ (to_be_bytes width n ++ rest)) < usize_limit
    → (array_at width (front ++ (to_be_bytes width n ++ rest)) (length front) >>= λ b.
        ok (from_be_bytes b))
      ≡ ok (n % 256 ^ width)
word_at-seam front rest n width fits =
    let read = slice_at-seam front (to_be_bytes width n) rest fits in
    let read' = rw (length-to_be_bytes width n) at read in
    rw (array_at-slice_at _ fits, read') (ap ok (be_value_from-to_be_bytes width 0 n ∙ omega arith))

-- A word written in big-endian order is read back, whatever stands before and behind it.
pub words_at-to_be_bytes :
    (front rest : List ℕ) (n : ℕ)
    → length (front ++ (to_be_bytes 2 n ++ rest)) < usize_limit
    → length (front ++ (to_be_bytes 4 n ++ rest)) < usize_limit
    → (u16_at (front ++ (to_be_bytes 2 n ++ rest)) (length front) ≡ ok (n % 2 ^ 16))
      × (u32_at (front ++ (to_be_bytes 4 n ++ rest)) (length front) ≡ ok (n % 2 ^ 32))
unfolding u16_at u32_at
words_at-to_be_bytes front rest n fits16 fits32 =
    (word_at-seam front rest n 2 fits16, word_at-seam front rest n 4 fits32)
