-- ===== src/Wire/Holds.antt =====
-- Reads of src/wire.rs at a place where the message holds known bytes.
use recurse_x.Prelude.{
  ℕ, ◌+◌, ◌-◌, ◌%◌, ◌^◌, ◌≤◌, ◌<◌, ◌≡◌, refl, sym, ap, ◌∙◌, some, List, ◌∷◌, ◌++◌, append_assoc,
  length, length-append, take-append_length, drop-append_length, take, drop, get_elem?-seam, arith,
}
use recurse_x.Error.{ok}
use recurse_x.Wire.{
  usize_limit, get_range, get_from, byte_at, slice_at, rest_at, array_at, u16_at, u32_at,
  to_be_bytes,
}
use recurse_x.Wire.Reads.{slice_at-seam, array_at-slice_at, word_at-seam}

-- The bytes `xs` stand in `buf` at `p`.
pub record Holds (buf : List ℕ) (p : ℕ) (xs : List ℕ) : Type 0 where
  pub front : List ℕ
  pub rest : List ℕ
  pub split : buf ≡ front ++ (xs ++ rest)
  pub place : p ≡ length front

pub Holds-left : (buf : List ℕ) (p : ℕ) (xs ys : List ℕ) → Holds buf p (xs ++ ys) → Holds buf p xs
Holds-left buf p xs ys h = record {
  front = h.front;
  rest = ys ++ h.rest;
  split = h.split ∙ ap (λ t. h.front ++ t) (append_assoc xs ys h.rest);
  place = h.place;
}

pub Holds-right :
    (buf : List ℕ) (p : ℕ) (xs ys : List ℕ) → Holds buf p (xs ++ ys) → Holds buf (p + length xs) ys
Holds-right buf p xs ys h = record {
  front = h.front ++ xs;
  rest = h.rest;
  split =
      h.split
      ∙ ap (λ t. h.front ++ t) (append_assoc xs ys h.rest)
      ∙ sym (append_assoc h.front xs (ys ++ h.rest));
  place = omega (arith, length-append h.front xs, h.place);
}

pub Holds-end : (buf : List ℕ) (p : ℕ) (xs : List ℕ) → Holds buf p xs → p + length xs ≤ length buf
Holds-end buf p xs h = omega (
  arith,
  ap length h.split,
  length-append h.front (xs ++ h.rest),
  length-append xs h.rest,
  h.place,
)

pub byte_at-Holds :
    (buf : List ℕ) (p b : ℕ) (ys : List ℕ) → Holds buf p (b ∷ ys) → byte_at buf p ≡ ok b
unfolding byte_at
byte_at-Holds buf p b ys h = rw (h.split, h.place, get_elem?-seam h.front (ys ++ h.rest) b)

pub get_range-Holds :
    (buf : List ℕ) (p : ℕ) (xs : List ℕ)
    → Holds buf p xs
    → get_range buf p (p + length xs) ≡ some xs
unfolding get_range
get_range-Holds buf p xs h =
    let inside = Holds-end buf p xs h in
    let size : p + length xs - p ≡ length xs = omega arith in
    let bytes : take (length xs) (drop p buf) ≡ xs =
      rw (h.split, h.place, drop-append_length, take-append_length) refl in
    rw (size, bytes) (ground arith)

pub rest_at-Holds : (front xs : List ℕ) (p : ℕ) → p ≡ length front → rest_at (front ++ xs) p ≡ ok xs
unfolding rest_at get_from
rest_at-Holds front xs p e =
    rw (e, drop-append_length front xs) (ground (arith, length-append front xs))

module _ (buf : List ℕ) (fits : length buf < usize_limit) where
  pub slice_at-Holds : (p : ℕ) (xs : List ℕ) → Holds buf p xs → slice_at buf p (length xs) ≡ ok xs
  slice_at-Holds p xs h =
      rw (h.split, h.place) (slice_at-seam h.front xs h.rest (rw h.split at fits))

  pub array_at-Holds : (p : ℕ) (xs : List ℕ) → Holds buf p xs → array_at (length xs) buf p ≡ ok xs
  array_at-Holds p xs h = array_at-slice_at buf fits (length xs) p ∙ slice_at-Holds p xs h

  pub u16_at-Holds : (p n : ℕ) → n < 2 ^ 16 → Holds buf p (to_be_bytes 2 n) → u16_at buf p ≡ ok n
  unfolding u16_at
  u16_at-Holds p n small h =
      let narrow : n % 2 ^ 16 ≡ n = omega arith in
      rw (h.split, h.place) (word_at-seam h.front h.rest n 2 (rw h.split at fits) ∙ ap ok narrow)

  pub u32_at-Holds : (p n : ℕ) → n < 2 ^ 32 → Holds buf p (to_be_bytes 4 n) → u32_at buf p ≡ ok n
  unfolding u32_at
  u32_at-Holds p n small h =
      let narrow : n % 2 ^ 32 ≡ n = omega arith in
      rw (h.split, h.place) (word_at-seam h.front h.rest n 4 (rw h.split at fits) ∙ ap ok narrow)
