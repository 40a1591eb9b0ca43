-- ===== src/Message/RoundTrip.antt =====
-- src/message.rs: the two round trips of the flags word.
use recurse_x.Prelude.{
  ℕ, zero, suc, ◌-◌, ◌*◌, ◌/◌, ◌%◌, ◌^◌, ◌<◌, ◌≡◌, refl, ap, ◌∙◌, Bool, true, false, not, ◌==◌,
  arith,
}
use recurse_x.Prelude.Bits.{bit_and, bit_and-low, bit_and-digit}
use recurse_x.Message.{HeaderFlags, to_u16, has_flag, from_u16}
use recurse_x.Message.Flags.{bit, word, to_u16-word}

bit_of_digit : (n : ℕ) → n < 2 → bit (not (n == 0)) ≡ n
bit_of_digit n h = ground arith

digit_of_bit : (b : Bool) → not (bit b == 0) ≡ b
digit_of_bit true = refl
digit_of_bit false = refl

-- A flag is the digit at its place.
has_flag-digit : (k v : ℕ) → 0 < 2 ^ k → has_flag v (2 ^ k) ≡ not (v / 2 ^ k % 2 == 0)
unfolding has_flag
has_flag-digit k v h = rw bit_and-digit (digit (v / 2 ^ k % 2) (omega arith))
  where
    digit : (d : ℕ) → d < 2 → not (d * 2 ^ k == 0) ≡ not (d == 0)
    digit zero b = ground arith
    digit (suc zero) b = ground arith
    digit (suc (suc d)) b = absurd (omega arith)

bit-has_flag : (k v : ℕ) → 0 < 2 ^ k → bit (has_flag v (2 ^ k)) ≡ v / 2 ^ k % 2
bit-has_flag k v h = rw (has_flag-digit k v h) (bit_of_digit (v / 2 ^ k % 2) (omega arith))

has_flag-bit : (k v : ℕ) (b : Bool) → 0 < 2 ^ k → v / 2 ^ k % 2 ≡ bit b → has_flag v (2 ^ k) ≡ b
has_flag-bit k v b h e = rw (has_flag-digit k v h, e) (digit_of_bit b)

word_of_fields : (v : ℕ) → v < 2 ^ 16 → word (from_u16 v) ≡ v - v / 2 ^ 6 % 2 * 2 ^ 6
unfolding word from_u16
word_of_fields v h =
    rw
      (
        bit-has_flag 15 v (omega arith),
        bit-has_flag 10 v (omega arith),
        bit-has_flag 9 v (omega arith),
        bit-has_flag 8 v (omega arith),
        bit-has_flag 7 v (omega arith),
        bit-has_flag 5 v (omega arith),
        bit-has_flag 4 v (omega arith),
        bit_and-low 4 v,
        bit_and-low 4 (v / 2 ^ 11),
      )
      (omega arith)

-- Packing what was unpacked from a 16-bit word gives the word with bit 6, which is reserved,
-- cleared.
pub to_u16-from_u16 : (v : ℕ) → v < 2 ^ 16 → to_u16 (from_u16 v) ≡ v - v / 2 ^ 6 % 2 * 2 ^ 6
to_u16-from_u16 v h = rw (to_u16-word (from_u16 v)) (word_of_fields v h)

bit-lt : (b : Bool) → bit b < 2
bit-lt b = ground arith

-- The digits of the word are the fields.
word_digits :
    (f : HeaderFlags)
    → f.opcode.code < 16
    → f.rcode.code < 16
    → (word f / 2 ^ 15 % 2 ≡ bit f.qr)
      × (word f / 2 ^ 11 % 16 ≡ f.opcode.code)
      × (word f / 2 ^ 10 % 2 ≡ bit f.aa)
      × (word f / 2 ^ 9 % 2 ≡ bit f.tc)
      × (word f / 2 ^ 8 % 2 ≡ bit f.rd)
      × (word f / 2 ^ 7 % 2 ≡ bit f.ra)
      × (word f / 2 ^ 5 % 2 ≡ bit f.ad)
      × (word f / 2 ^ 4 % 2 ≡ bit f.cd)
      × (word f % 16 ≡ f.rcode.code)
unfolding word
word_digits f op rc =
    let b1 = bit-lt f.qr in
    let b2 = bit-lt f.aa in
    let b3 = bit-lt f.tc in
    let b4 = bit-lt f.rd in
    let b5 = bit-lt f.ra in
    let b6 = bit-lt f.ad in
    let b7 = bit-lt f.cd in
    (
      omega arith,
      omega arith,
      omega arith,
      omega arith,
      omega arith,
      omega arith,
      omega arith,
      omega arith,
      omega arith,
    )

-- Unpacking what was packed gives back every field, where the opcode and the response code take at
-- most four bits.
pub from_u16-to_u16 :
    (f : HeaderFlags) → f.opcode.code < 16 → f.rcode.code < 16 → from_u16 (to_u16 f) ≡ f
unfolding from_u16
from_u16-to_u16 f op rc =
    let w = word f in
    let (qr, o, aa, tc, rd, ra, ad, cd, r) = word_digits f op rc in
    let opcode_eq : bit_and (w / 2 ^ 11) 0x0f % 256 ≡ f.opcode.code =
      rw (bit_and-low 4 (w / 2 ^ 11)) (omega arith) in
    let rcode_eq : bit_and w 0x0f % 256 ≡ f.rcode.code = rw (bit_and-low 4 w) (omega arith) in
    ap from_u16 (to_u16-word f) ∙ (λ i. record {
      qr = has_flag-bit 15 w f.qr (omega arith) qr i;
      opcode = record { code = opcode_eq i };
      aa = has_flag-bit 10 w f.aa (omega arith) aa i;
      tc = has_flag-bit 9 w f.tc (omega arith) tc i;
      rd = has_flag-bit 8 w f.rd (omega arith) rd i;
      ra = has_flag-bit 7 w f.ra (omega arith) ra i;
      ad = has_flag-bit 5 w f.ad (omega arith) ad i;
      cd = has_flag-bit 4 w f.cd (omega arith) cd i;
      rcode = record { code = rcode_eq i };
    })
