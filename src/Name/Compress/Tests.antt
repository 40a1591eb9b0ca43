-- ===== src/Name/Compress/Tests.antt =====
-- Runs of the compressor, and its theorems at concrete inputs.
use recurse_x.Prelude.{ℕ, ◌≡◌, refl, List, [], ◌∷◌, ◌++◌, arith, All, length}
use recurse_x.Error.{ok}
use recurse_x.Name.Labels.{name_of, IsLabel, IsLowerCase, IsStored, encode, labels_len}
use recurse_x.Wire.{IsByte}
use recurse_x.Name.FromWire.{from_wire}
use recurse_x.Name.Compress.{NameCompressor, new, write}
use recurse_x.Name.Compress.RoundTrip.{Written, write-Written, from_wire-write}

abbrev short_name : List (List ℕ)
short_name = (b'a' ∷ b'b' ∷ []) ∷ (b'c' ∷ []) ∷ []

abbrev long_name : List (List ℕ)
long_name = (b'w' ∷ []) ∷ short_name

abbrev header : List ℕ
header = 9 ∷ 9 ∷ []

abbrev first : NameCompressor × List ℕ
unfolding write
first = write new (name_of short_name) header

two_writes :
    (write first.0 (name_of long_name) first.1).1
    ≡ 9 ∷ 9 ∷ 2 ∷ b'a' ∷ b'b' ∷ 1 ∷ b'c' ∷ 0 ∷ 1 ∷ b'w' ∷ 0xc0 ∷ 2 ∷ []
unfolding write encode
two_writes = refl

stored : {l : List ℕ} → IsLabel l → All IsByte l → IsLowerCase l → IsStored l
stored size bytes lower = record { size = size; bytes = bytes; lower = lower }

short_name-IsStored : All IsStored short_name
short_name-IsStored =
    (stored (omega arith) (omega arith) refl, (stored (omega arith) (omega arith) refl, tt))

long_name-IsStored : All IsStored long_name
long_name-IsStored = (stored (omega arith) (omega arith) refl, short_name-IsStored)

write-Written_example : Written header short_name (write new (name_of short_name) header)
unfolding labels_len
write-Written_example = write-Written new header tt short_name short_name-IsStored (omega arith)

from_wire-write_example :
    from_wire ((write first.0 (name_of long_name) first.1).1 ++ 5 ∷ []) (length first.1)
    ≡ ok (name_of long_name, length (write first.0 (name_of long_name) first.1).1)
unfolding labels_len write encode
from_wire-write_example =
    from_wire-write first.0 first.1 write-Written_example.table long_name (5 ∷ []) (omega arith)
      (omega arith) long_name-IsStored (omega arith) (omega arith) (omega arith)
