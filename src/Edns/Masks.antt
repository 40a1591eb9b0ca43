-- ===== src/Edns/Masks.antt =====
-- src/edns.rs: an address masked to a prefix is canonical.
use native.Mathlib.Nat.{one-le-pow, pow-le-pow_right, mul-mod_left}
use recurse_x.Prelude.{
  ℕ, zero, suc, ◌-◌, ◌*◌, ◌/◌, ◌%◌, ◌^◌, ◌≤◌, ◌<◌, ◌≡◌, refl, ap, ◌∙◌, true, false, Bool-cases, inl,
  inr, Option, none, some, List, [], ◌∷◌, ltb, ◌==◌, length, All, arith,
}
use recurse_x.Prelude.Bits.{bit_and, bit_and-high, bit_and-low, shifted_ones}
use recurse_x.Error.{◌>>=◌}
use recurse_x.Wire.{IsByte}
use recurse_x.Edns.Subnet.{
  octets_of, zeros, zip_copy, last, mask_last, mask_byte, mask, ipv4, ipv6, max_prefix, stray_bits,
  parse, to_wire,
}
use recurse_x.Edns.SubnetWire.{parse-to_wire}

length-zeros : (n : ℕ) → length (zeros n) ≡ n
unfolding zeros
length-zeros zero = refl
length-zeros (suc n) = ap suc (length-zeros n)

zeros-IsByte : (n : ℕ) → All IsByte (zeros n)
unfolding zeros
zeros-IsByte zero = tt
zeros-IsByte (suc n) = (omega arith, zeros-IsByte n)

zip_copy_lem :
    (dst src : List ℕ)
    → All IsByte dst
    → All IsByte src
    → (length (zip_copy dst src) ≡ length dst) × All IsByte (zip_copy dst src)
unfolding zip_copy
zip_copy_lem [] src hd hs = (refl, tt)
zip_copy_lem (d ∷ dst) [] hd hs = (refl, hd)
zip_copy_lem (d ∷ dst) (s ∷ src) (_, hd) (h, hs) =
    let (size, bytes) = zip_copy_lem dst src hd hs in (ap suc size, (h, bytes))

length-mask_last : (m : ℕ) (bytes : List ℕ) → length (mask_last m bytes) ≡ length bytes
unfolding mask_last
length-mask_last m [] = refl
length-mask_last m (b ∷ []) = refl
length-mask_last m (a ∷ b ∷ bytes) = ap suc (length-mask_last m (b ∷ bytes))

-- The bits below a mask of high bits, in a masked byte.
masked_byte :
    (v b : ℕ) → 0 < v → v < 8 → b < 256 → bit_and (bit_and b (mask_byte v)) (255 - mask_byte v) ≡ 0
masked_byte v b some_bits few h =
    let k = 8 - v in
    let size = one-le-pow k 2 (omega arith) in
    let narrow : k ≤ 8 = omega arith in
    let room : 2 ^ k ≤ 2 ^ 8 = pow-le-pow_right (omega arith) narrow in
    let high : mask_byte v ≡ 2 ^ 8 - 2 ^ k = shifted_ones (2 ^ 8) (2 ^ k) size room in
    let low : 255 - (2 ^ 8 - 2 ^ k) ≡ 2 ^ k - 1 = omega arith in
    rw (high, bit_and-high k 8 b (omega arith) h, low, bit_and-low k (b / 2 ^ k * 2 ^ k))
      (mul-mod_left (b / 2 ^ k) (2 ^ k))

mask_last-clean :
    (prefix : ℕ) (bytes : List ℕ)
    → (prefix % 8 == 0) ≡ false
    → All IsByte bytes
    → stray_bits prefix (last (mask_last (mask_byte (prefix % 8)) bytes)) ≡ false
unfolding mask_last last stray_bits
mask_last-clean prefix [] h hb = refl
mask_last-clean prefix (b ∷ []) h (hb, _) =
    rw (h, masked_byte (prefix % 8) b (ground arith) (omega arith) hb)
mask_last-clean prefix (a ∷ b ∷ []) h (_, hb) = mask_last-clean prefix (b ∷ []) h hb
mask_last-clean prefix (a ∷ b ∷ c ∷ bytes) h (_, hb) = mask_last-clean prefix (b ∷ c ∷ bytes) h hb

mask_lem :
    (addr : List ℕ) (prefix : ℕ)
    → All IsByte addr
    → (length (mask addr prefix) ≡ octets_of prefix)
      × (stray_bits prefix (last (mask addr prefix)) ≡ false)
unfolding mask
mask_lem addr prefix h =
    let n = octets_of prefix in
    let (size, bytes) = zip_copy_lem (zeros n) addr (zeros-IsByte n) h in
    elim (Bool-cases (prefix % 8 == 0)) [
      | inl whole ↦
          rw whole (size ∙ length-zeros n, no_stray (last (zip_copy (zeros n) addr)) whole)
      | inr part ↦ rw part (
        length-mask_last (mask_byte (prefix % 8)) (zip_copy (zeros n) addr) ∙ size ∙ length-zeros n,
        mask_last-clean prefix (zip_copy (zeros n) addr) part bytes,
      )
    ]
  where
    no_stray : (b : Option ℕ) → (prefix % 8 == 0) ≡ true → stray_bits prefix b ≡ false
    no_stray none e = unfold stray_bits in refl
    no_stray (some b) e = unfold stray_bits in rw e

-- The client subnet that is built from an address of bytes and a prefix, of either family, is read
-- back from what it writes; a prefix that is too long is an error on both sides.
pub subnets-parse :
    (octets : List ℕ) (prefix : ℕ)
    → All IsByte octets
    → ((ipv4 octets prefix >>= λ e. parse (to_wire e)) ≡ ipv4 octets prefix)
      × ((ipv6 octets prefix >>= λ e. parse (to_wire e)) ≡ ipv6 octets prefix)
unfolding ipv4 ipv6
subnets-parse octets prefix h =
    let (size, clean) = mask_lem octets prefix h in
    (
      elim (Bool-cases (ltb 32 prefix)) [
        | inl long ↦ rw long refl
        | inr fits ↦ rw fits (
            parse-to_wire _ (record {
              most = 32;
              known = unfold max_prefix in refl;
              source_fits = ground arith;
              scope_fits = omega arith;
              size = size;
              clean = clean;
            }))
      ],
      elim (Bool-cases (ltb 128 prefix)) [
        | inl long ↦ rw long refl
        | inr fits ↦ rw fits (
            parse-to_wire _ (record {
              most = 128;
              known = unfold max_prefix in refl;
              source_fits = ground arith;
              scope_fits = omega arith;
              size = size;
              clean = clean;
            }))
      ],
    )
