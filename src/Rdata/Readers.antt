-- ===== src/Rdata/Readers.antt =====
-- src/rdata.rs: the reads of `RData::parse` at a place where the message holds known bytes.
use mathlib.Core.Path.{subst}
use recurse_x.Prelude.{
  ℕ, ◌+◌, ◌^◌, ◌≤◌, ◌<◌, ◌≡◌, refl, sym, true, false, List, [], ◌∷◌, ◌++◌, leb, ltb, ◌==◌, length,
  arith,
}
use recurse_x.Error.{Error, ok}
use recurse_x.Wire.{usize_limit, to_be_bytes}
use recurse_x.Wire.Reads.{length-to_be_bytes}
use recurse_x.Wire.Holds.{
  Holds, Holds-left, Holds-right, byte_at-Holds, get_range-Holds, u16_at-Holds, u32_at-Holds,
}
use recurse_x.Name.{Name}
use recurse_x.Name.FromWire.{from_wire}
use recurse_x.Rdata.Fields.{
  need, read_u16, read_u32, read_byte, tail, read_name, name_exact, counted,
}

-- The bytes behind a part, at a place that is given.
pub Holds-behind :
    (buf : List ℕ) (p q : ℕ) (xs ys : List ℕ)
    → q ≡ p + length xs
    → Holds buf p (xs ++ ys)
    → Holds buf q ys
Holds-behind buf p q xs ys e h = subst (λ k. Holds buf k ys) (sym e) (Holds-right buf p xs ys h)

pub Holds-word :
    (buf : List ℕ) (p q width n : ℕ) (ys : List ℕ)
    → q ≡ p + width
    → Holds buf p (to_be_bytes width n ++ ys)
    → Holds buf q ys
Holds-word buf p q width n ys e h =
    Holds-behind buf p q (to_be_bytes width n) ys (omega (arith, length-to_be_bytes width n)) h

pub Holds-byte :
    (buf : List ℕ) (p q b : ℕ) (ys : List ℕ) → q ≡ p + 1 → Holds buf p (b ∷ ys) → Holds buf q ys
Holds-byte buf p q b ys e h = Holds-behind buf p q (b ∷ []) ys e h

pub need_lem : (buf : List ℕ) (end pos n : ℕ) → pos + n ≤ end → need buf end pos n ≡ ok tt
unfolding need
need_lem buf end pos n h = ground arith

module _ (buf : List ℕ) (room : length buf < usize_limit) (end : ℕ) where
  pub read_u16-Holds :
      (p n : ℕ) (ys : List ℕ)
      → n < 2 ^ 16
      → p + 2 ≤ end
      → Holds buf p (to_be_bytes 2 n ++ ys)
      → read_u16 buf end p ≡ ok n
  unfolding read_u16
  read_u16-Holds p n ys small inside h =
      let fine : ltb end (p + 2) ≡ false = ground arith in
      rw (fine, u16_at-Holds buf room p n small (Holds-left buf p (to_be_bytes 2 n) ys h)) refl

  pub read_u32-Holds :
      (p n : ℕ) (ys : List ℕ)
      → n < 2 ^ 32
      → p + 4 ≤ end
      → Holds buf p (to_be_bytes 4 n ++ ys)
      → read_u32 buf end p ≡ ok n
  unfolding read_u32
  read_u32-Holds p n ys small inside h =
      let fine : ltb end (p + 4) ≡ false = ground arith in
      rw (fine, u32_at-Holds buf room p n small (Holds-left buf p (to_be_bytes 4 n) ys h)) refl

  pub read_byte-Holds :
      (p b : ℕ) (ys : List ℕ) → p < end → Holds buf p (b ∷ ys) → read_byte buf end p ≡ ok b
  unfolding read_byte
  read_byte-Holds p b ys inside h =
      let fine : leb end p ≡ false = ground arith in rw (fine, byte_at-Holds buf p b ys h) refl

  pub tail-Holds :
      (p : ℕ) (xs : List ℕ) → p + length xs ≡ end → Holds buf p xs → tail buf end p ≡ ok xs
  unfolding tail
  tail-Holds p xs e h =
      let fine : ltb end p ≡ false = ground arith in
      let read = get_range-Holds buf p xs h in rw (fine, (rw e at read)) refl

  pub counted-Holds :
      (p : ℕ) (xs ys : List ℕ) (e : Error)
      → p + length xs ≤ end
      → Holds buf p (xs ++ ys)
      → counted buf end p (length xs) e ≡ ok (xs, p + length xs)
  unfolding counted
  counted-Holds p xs ys e inside h =
      let fine : ltb end (p + length xs) ≡ false = ground arith in
      rw (fine, get_range-Holds buf p xs (Holds-left buf p xs ys h)) refl

  pub read_name_lem :
      (p next : ℕ) (n : Name)
      → from_wire buf p ≡ ok (n, next)
      → next ≤ end
      → read_name buf end p ≡ ok (n, next)
  unfolding read_name
  read_name_lem p next n e h = let fine : ltb end next ≡ false = ground arith in rw (e, fine) refl

  pub name_exact_lem :
      (p : ℕ) (n : Name) → from_wire buf p ≡ ok (n, end) → name_exact buf end p ≡ ok (n, end)
  unfolding name_exact
  name_exact_lem p n e =
      let same : end == end ≡ true = ground arith in
      rw (read_name_lem p end n e (omega arith), same) refl
