-- ===== src/Message.antt =====
-- src/message.rs: the 16-bit flags word of a message header. The sections of a message and its wire
-- format are in the child modules.
pub mod Flags
pub mod RoundTrip
pub mod Sections
pub mod Parse
pub mod ToBytes
pub mod Truncate
pub mod Fits
pub mod Greedy
pub mod Chains
pub mod ReadBack
pub mod OptTrip
pub mod WireTrip
mod Tests
mod WireTests
use recurse_x.Prelude.{ℕ, ◌*◌, ◌/◌, ◌%◌, ◌^◌, Bool, true, false, not, ◌==◌, if◌then◌else◌}
use recurse_x.Prelude.Bits.{bit_and, bit_or}
use recurse_x.Qtype.{Opcode, Rcode}

pub record HeaderFlags : Type 0 where
  pub qr : Bool
  pub opcode : Opcode
  pub aa : Bool
  pub tc : Bool
  pub rd : Bool
  pub ra : Bool
  pub ad : Bool
  pub cd : Bool
  pub rcode : Rcode

-- `if flag { v |= mask }`
unfoldable pub set_flag : Bool → ℕ → ℕ → ℕ
set_flag flag mask v = if flag then bit_or v mask else v

unfoldable pub to_u16 : HeaderFlags → ℕ
to_u16 f =
    let with_qr = set_flag f.qr 0x8000 0 in
    let with_opcode = bit_or with_qr (bit_and f.opcode.code 0x0f * 2 ^ 11 % 2 ^ 16) in
    let with_aa = set_flag f.aa 0x0400 with_opcode in
    let with_tc = set_flag f.tc 0x0200 with_aa in
    let with_rd = set_flag f.rd 0x0100 with_tc in
    let with_ra = set_flag f.ra 0x0080 with_rd in
    let with_ad = set_flag f.ad 0x0020 with_ra in
    let with_cd = set_flag f.cd 0x0010 with_ad in bit_or with_cd (bit_and f.rcode.code 0x0f)

-- `v & mask != 0`
unfoldable pub has_flag : ℕ → ℕ → Bool
has_flag v mask = not (bit_and v mask == 0)

unfoldable pub from_u16 : ℕ → HeaderFlags
from_u16 v = record {
  qr = has_flag v 0x8000;
  opcode = record { code = bit_and (v / 2 ^ 11) 0x0f % 256 };
  aa = has_flag v 0x0400;
  tc = has_flag v 0x0200;
  rd = has_flag v 0x0100;
  ra = has_flag v 0x0080;
  ad = has_flag v 0x0020;
  cd = has_flag v 0x0010;
  rcode = record { code = bit_and v 0x0f % 256 };
}
