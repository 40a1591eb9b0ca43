-- ===== src/Name/FromWire/Tests.antt =====
-- Runs of `Name::from_wire`, and its theorems at concrete inputs.
use recurse_x.Prelude.{ℕ, ◌≡◌, refl, List, [], ◌∷◌, arith}
use recurse_x.Error.{ok, err, ErrorKind, wire_error}
use recurse_x.Wire.{slice_at}
use recurse_x.Name.Labels.{encode, labels_len}
use recurse_x.Name.FromWire.{scan_loop, round, finish, from_wire}
use recurse_x.Name.FromWire.Spec.{NameAt, at_root, at_label, at_pointer}
use recurse_x.Name.FromWire.Refines.{Read, from_wire-Read, from_wire_complete, from_wire-wire_error}

-- `www.example.com`, and at 17 a pointer to `example.com` behind the label `A`.
abbrev message : List ℕ
message =
    3 ∷ b'w' ∷ b'w' ∷ b'w' ∷ 7 ∷ b'e' ∷ b'x' ∷ b'a' ∷ b'm' ∷ b'p' ∷ b'l' ∷ b'e' ∷ 3 ∷ b'c' ∷ b'o'
    ∷ b'm' ∷ 0 ∷ 1 ∷ b'A' ∷ 0xc0 ∷ 4 ∷ []

abbrev read_name : List (List ℕ)
read_name =
    (b'a' ∷ [])
    ∷ (b'e' ∷ b'x' ∷ b'a' ∷ b'm' ∷ b'p' ∷ b'l' ∷ b'e' ∷ [])
    ∷ (b'c' ∷ b'o' ∷ b'm' ∷ [])
    ∷ []

run : from_wire message 17 ≡ ok (record { bytes = encode read_name }, 21)
unfolding from_wire scan_loop round finish encode slice_at
run = refl

-- A pointer to itself.
self_pointer : from_wire (0xc0 ∷ 0 ∷ []) 0 ≡ err (wire_error "compression pointer loop")
unfolding from_wire scan_loop round finish
self_pointer = refl

message_name : NameAt message 17 21 1 read_name
unfolding slice_at
message_name = at_label refl (omega arith) (omega arith) refl (
    at_pointer refl (omega arith) refl (omega arith) (
      at_label refl (omega arith) (omega arith) refl
        (at_label refl (omega arith) (omega arith) refl (at_root refl))))

from_wire-Read_example : Read message 17 (record { bytes = encode read_name }) 21
from_wire-Read_example = from_wire-Read message (omega arith) (omega arith) 17 _ 21 run

from_wire_complete_example : from_wire message 17 ≡ ok (record { bytes = encode read_name }, 21)
unfolding labels_len
from_wire_complete_example =
    from_wire_complete message (omega arith) (omega arith) message_name (omega arith) (omega arith)
      (omega arith)

from_wire-wire_error_example : (wire_error "compression pointer loop").kind ≡ ErrorKind.wire
from_wire-wire_error_example =
    from_wire-wire_error (0xc0 ∷ 0 ∷ []) (omega arith) (omega arith) 0 self_pointer
