-- ===== src/Message/Tests.antt =====
-- Runs on the flags word, and its theorems at concrete inputs.
use recurse_x.Prelude.{◌≡◌, refl, true, false, arith}
use recurse_x.Message.{HeaderFlags, set_flag, to_u16, from_u16}
use recurse_x.Message.RoundTrip.{from_u16-to_u16}

-- A recursive answer: QR, RD, RA and NXDOMAIN.
abbrev answer : HeaderFlags
answer = record {
  qr = true;
  opcode = record { code = 0 };
  aa = false;
  tc = false;
  rd = true;
  ra = true;
  ad = false;
  cd = false;
  rcode = record { code = 3 };
}

answer_word : to_u16 answer ≡ 0x8183
unfolding to_u16 set_flag
answer_word = refl

from_u16-to_u16_example : from_u16 (to_u16 answer) ≡ answer
from_u16-to_u16_example = from_u16-to_u16 answer (omega arith) (omega arith)
