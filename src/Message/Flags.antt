-- ===== src/Message/Flags.antt =====
-- src/message.rs: the flags word as a number, and its two round trips.
use recurse_x.Prelude.{
  ℕ, suc, ◌+◌, ◌*◌, ◌%◌, ◌^◌, ◌<◌, ◌≡◌, refl, ap, ◌∙◌, Bool, true, false, if◌then◌else◌, arith,
}
use recurse_x.Prelude.Bits.{bit_and, bit_or, bit_or-shifted, bit_and-low}
use recurse_x.Message.{HeaderFlags, set_flag, to_u16}

abbrev pub bit : Bool → ℕ
bit b = if b then 1 else 0

set_flag_lem :
    (b : Bool) (k a : ℕ)
    → 2 ^ k < 2 ^ suc k
    → 2 ^ suc k ≡ 2 ^ k * 2
    → set_flag b (2 ^ k) (a * 2 ^ suc k) ≡ (a * 2 + bit b) * 2 ^ k
unfolding set_flag
set_flag_lem true k a h p =
    bit_or-shifted (suc k) a (2 ^ k) h ∙ omega (arith, p, ap (λ (t : ℕ). a * t) p)
set_flag_lem false k a h p = omega (arith, p, ap (λ (t : ℕ). a * t) p)

-- The word as a sum: opcode and response code take four bits each, and bit 6 is 0.
unfoldable pub word : HeaderFlags → ℕ
word f =
    bit f.qr * 2 ^ 15
    + f.opcode.code % 16 * 2 ^ 11
    + bit f.aa * 2 ^ 10
    + bit f.tc * 2 ^ 9
    + bit f.rd * 2 ^ 8
    + bit f.ra * 2 ^ 7
    + bit f.ad * 2 ^ 5
    + bit f.cd * 2 ^ 4
    + f.rcode.code % 16

pub to_u16-word : (f : HeaderFlags) → to_u16 f ≡ word f
unfolding to_u16 word
to_u16-word f =
    let op = f.opcode.code % 16 in
    let qr = bit f.qr in
    let v1 = qr * 16 + op in
    let v2 = v1 * 2 + bit f.aa in
    let v3 = v2 * 2 + bit f.tc in
    let v4 = v3 * 2 + bit f.rd in
    let v5 = v4 * 2 + bit f.ra in
    let v6 = v5 * 4 + bit f.ad in
    let v7 = v6 * 2 + bit f.cd in
    let e1 : set_flag f.qr 0x8000 0 ≡ qr * 2 ^ 15 =
      set_flag_lem f.qr 15 0 (omega arith) refl ∙ omega arith in
    let low : bit_and f.opcode.code 0x0f * 2 ^ 11 % 2 ^ 16 ≡ op * 2 ^ 11 =
      rw (bit_and-low 4 f.opcode.code) (omega arith) in
    let e2 : bit_or (qr * 2 ^ 15) (op * 2 ^ 11) ≡ v1 * 2 ^ 11 =
      bit_or-shifted 15 qr (op * 2 ^ 11) (omega arith) ∙ omega arith in
    let e3 = set_flag_lem f.aa 10 v1 (omega arith) refl in
    let e4 = set_flag_lem f.tc 9 v2 (omega arith) refl in
    let e5 = set_flag_lem f.rd 8 v3 (omega arith) refl in
    let e6 = set_flag_lem f.ra 7 v4 (omega arith) refl in
    let gap : v5 * 2 ^ 7 ≡ v5 * 2 * 2 ^ 6 = omega arith in
    let e7 = set_flag_lem f.ad 5 (v5 * 2) (omega arith) refl in
    let e8 = set_flag_lem f.cd 4 (v5 * 2 * 2 + bit f.ad) (omega arith) refl in
    let e9 =
      bit_or-shifted 4 ((v5 * 2 * 2 + bit f.ad) * 2 + bit f.cd) (f.rcode.code % 16) (omega arith) in
    rw (e1, low, e2, e3, e4, e5, e6, gap, e7, e8, bit_and-low 4 f.rcode.code, e9) (omega arith)
