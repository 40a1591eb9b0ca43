-- ===== src/Name/FromWire.antt =====
-- src/name.rs, `Name::from_wire`: a name read from a message, through compression pointers.
pub mod Spec
pub mod Rounds
pub mod Sound
pub mod Finish
pub mod Refines
mod Tests
use recurse_x.Prelude.{
  ℕ, zero, suc, ◌+◌, ◌-◌, ◌*◌, ◌%◌, ◌^◌, Bool, true, false, List, [], ◌∷◌, ◌++◌, map, leb, ltb,
  ◌==◌, if◌then◌else◌, length,
}
use recurse_x.Prelude.Bits.{bit_and, bit_or}
use recurse_x.Error.{
  Error, Result, ok, err, ◌>>=◌, ◌>>◌, ok_or, or_error, fail_if, wire_error, internal_error,
}
use recurse_x.Wire.{byte_at, slice_at, get_range, get_from}
use recurse_x.Name.{Name, max_name_len, max_labels, max_pointer_hops, to_lower}

-- The variables of the loop.
pub record Scan : Type 0 where
  pub label_bytes : List ℕ
  pub lens : List ℕ
  pub p : ℕ
  pub end : ℕ
  pub jumped : Bool
  pub hops : ℕ
  pub total : ℕ

-- How a round ends: with another round, or with `break`.
pub data Round : Type 0 where
  again : Scan → Round
  done : Scan → Round

-- A label that was read joins the name, if the name stays within its bounds.
pub push_label : Scan → ℕ → List ℕ → Result Round
unfolding wire_error
push_label s len label = do
  let total = s.total + (1 + len)
  fail_if (ltb max_name_len total) (wire_error "name exceeds 255 octets")
  fail_if (leb max_labels (length s.lens)) (wire_error "too many labels")
  ok (
      again (record s {
        lens = s.lens ++ (len % 256) ∷ [];
        label_bytes = s.label_bytes ++ map to_lower label;
        p = s.p + (1 + len);
        total = total;
      }))

-- The arm for a length byte whose two top bits are 0.
pub on_label : List ℕ → Scan → ℕ → Result Round
unfolding wire_error push_label
on_label buf s len =
    if len == 0
    then ok (done (record s { p = s.p + 1; end = if s.jumped then s.end else s.p + 1 }))
    else do
      fail_if (ltb 63 len) (wire_error "label longer than 63 octets")
      label ← or_error (slice_at buf (s.p + 1) len) (wire_error "truncated label")
      push_label s len label

-- The jump of a pointer to an offset.
pub jump : List ℕ → Scan → ℕ → Result Round
unfolding wire_error
jump buf s off = do
  fail_if (leb (length buf) off) (wire_error "compression pointer out of range")
  let end = if s.jumped then s.end else s.p + 2
  fail_if (ltb max_pointer_hops (s.hops + 1)) (wire_error "compression pointer loop")
  ok (again (record s { p = off; end = end; jumped = true; hops = s.hops + 1 }))

-- The arm for a length byte whose two top bits are 1.
pub on_pointer : List ℕ → Scan → ℕ → Result Round
unfolding wire_error byte_at jump
on_pointer buf s len = do
  second ← or_error (byte_at buf (s.p + 1)) (wire_error "truncated compression pointer")
  jump buf s (bit_or (bit_and len 0x3f * 2 ^ 8) second)

-- The match on the two top bits of the length byte.
pub by_kind : List ℕ → Scan → ℕ → ℕ → Result Round
unfolding on_label on_pointer wire_error
by_kind buf s len kind =
    if kind == 0x00
    then on_label buf s len
    else if kind == 0xc0
    then on_pointer buf s len
    else err (wire_error "unsupported label type (EDNS label types are not accepted)")

-- One round of the loop.
pub round : List ℕ → Scan → Result Round
unfolding by_kind byte_at
round buf s = do
  len ← or_error (byte_at buf s.p) (wire_error "truncated name")
  by_kind buf s len (bit_and len 0xc0)

-- Not an error of the code: the loop ran out of fuel.
abbrev pub out_of_fuel : Error
unfolding internal_error
out_of_fuel = internal_error "out of fuel"

pub after_round : (Scan → Result Scan) → Round → Result Scan
after_round next (again s) = next s
after_round next (done s) = ok s

pub scan_loop : ℕ → List ℕ → Scan → Result Scan
unfolding round after_round
scan_loop zero buf s = err out_of_fuel
scan_loop (suc fuel) buf s = do r ← round buf s; after_round (scan_loop fuel buf) r

abbrev pub lengths_disagree : Error
unfolding internal_error
lengths_disagree = internal_error "label lengths disagree with the byte pool"

-- `[len][label]…` from the recorded lengths and the pool of label bytes.
pub reassemble : List ℕ → List ℕ → List ℕ → Result (List ℕ)
unfolding get_range get_from
reassemble out rest [] = ok out
reassemble out rest (len ∷ lens) = do
  label ← ok_or (get_range rest 0 len) lengths_disagree
  rest' ← ok_or (get_from rest len) lengths_disagree
  reassemble (out ++ len ∷ label) rest' lens

abbrev pub start : ℕ → Scan
start pos = record {
  label_bytes = [];
  lens = [];
  p = pos;
  end = pos;
  jumped = false;
  hops = 0;
  total = 1;
}

-- Each round but the last takes a label or a hop, and both are bounded.
abbrev pub scan_fuel : ℕ
scan_fuel = max_labels + max_pointer_hops + 1

pub finish : Scan → Result (Name × ℕ)
unfolding reassemble wire_error
finish s = do
  fail_if (leb max_labels (length s.lens)) (wire_error "too many labels")
  out ← reassemble [] s.label_bytes s.lens
  ok (record { bytes = out ++ 0 ∷ [] }, s.end)

unfoldable pub from_wire : List ℕ → ℕ → Result (Name × ℕ)
unfolding wire_error
from_wire buf pos = do
  fail_if (leb (length buf) pos) (wire_error "truncated name (position out of bounds)")
  s ← scan_loop scan_fuel buf (start pos)
  finish s
