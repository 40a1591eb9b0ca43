-- ===== src/Name/Compress.antt =====
-- src/name.rs, `NameCompressor`: the table of suffixes already written to a message. The `BTreeMap`
-- is an association list; the code never iterates over it, so the order of its entries is not seen.
pub mod Suffixes
pub mod Chains
pub mod Table
pub mod RoundTrip
mod Tests
use recurse_x.Prelude.{
  ℕ, zero, suc, ◌+◌, ◌-◌, ◌/◌, ◌%◌, ◌^◌, Option, none, some, List, [], ◌∷◌, ◌++◌, leb, ◌==◌,
  if◌then◌else◌, ◌&&◌, length, take, drop,
}
use recurse_x.Prelude.Bits.{bit_and, bit_or}
use recurse_x.Name.{Name, is_root, wire_len, parent, name_eq, bytes_eq, ends_with}

abbrev pub max_pointer_offset : ℕ
max_pointer_offset = 0x3fff

pub record NameCompressor : Type 0 where
  pub offsets : List (Name × ℕ)

abbrev pub new : NameCompressor
new = record { offsets = [] }

-- `offsets.get(suffix)`
unfoldable pub get : List (Name × ℕ) → Name → Option ℕ
unfolding bytes_eq
get [] n = none
get ((m, off) ∷ offsets) n = if name_eq m n then some off else get offsets n

-- `offsets.entry(suffix).or_insert(abs)`
unfoldable pub or_insert : List (Name × ℕ) → Name → ℕ → List (Name × ℕ)
unfolding get
or_insert offsets n abs = elim (get offsets n) [ some _ ↦ offsets | none ↦ (n, abs) ∷ offsets ]

unfoldable pub record_suffix : NameCompressor → ℕ → Name → ℕ → NameCompressor
unfolding or_insert
record_suffix c base suffix rel =
    let abs = base + rel in
    if leb abs max_pointer_offset then record { offsets = or_insert c.offsets suffix abs } else c

-- `for (s, rel) in … { self.record(base, s, rel) }`
unfoldable pub record_all : NameCompressor → ℕ → List (Name × ℕ) → NameCompressor
unfolding record_suffix
record_all c base [] = c
record_all c base ((s, rel) ∷ suffixes) = record_all (record_suffix c base s rel) base suffixes

-- The suffixes of a name with their offsets from its start. Each parent is shorter, so the number of
-- bytes is enough fuel.
unfoldable pub suffix_walk : ℕ → ℕ → Name → List (Name × ℕ)
unfolding is_root parent wire_len
suffix_walk zero total cur = []
suffix_walk (suc fuel) total cur =
    let more : List (Name × ℕ) = elim (parent cur) [
      | some p ↦ suffix_walk fuel total p
      | none ↦ []
    ] in
    if is_root cur then [] else ((cur, total - wire_len cur) ∷ more)

-- `suffixes.iter().enumerate().find_map(…)`: the index, the suffix and its offset.
unfoldable pub find_hit : List (Name × ℕ) → ℕ → List (Name × ℕ) → Option (ℕ × Name × ℕ)
unfolding get
find_hit offsets i [] = none
find_hit offsets i ((suffix, _) ∷ suffixes) =
    let later = find_hit offsets (i + 1) suffixes in
    elim (get offsets suffix) [ some offset ↦ some (i, suffix, offset) | none ↦ later ]

-- `slice::strip_suffix`
unfoldable pub strip_suffix : List ℕ → List ℕ → Option (List ℕ)
unfolding ends_with
strip_suffix xs ys = if ends_with xs ys then some (take (length xs - length ys) xs) else none

-- The two bytes of a compression pointer.
unfoldable pub pointer_bytes : ℕ → List ℕ
pointer_bytes offset = bit_or 0xc0 (offset / 2 ^ 8 % 256) ∷ (bit_and offset 0xff % 256) ∷ []

-- What is written for a name whose suffix stands at `offset`.
unfoldable pub write_hit : Name → Name → ℕ → List ℕ → List ℕ
unfolding strip_suffix pointer_bytes
write_hit name suffix offset out = elim (strip_suffix name.bytes suffix.bytes) [
  | some prefix ↦ out ++ (prefix ++ pointer_bytes offset)
  | none ↦ out ++ name.bytes
]

-- The two arms of `write`, for the longest suffix that was found, if any.
unfoldable pub write_found :
    NameCompressor
    → Name
    → List ℕ
    → List (Name × ℕ)
    → Option (ℕ × Name × ℕ)
    → NameCompressor × List ℕ
unfolding record_all write_hit
write_found c name out suffixes none = (record_all c (length out) suffixes, out ++ name.bytes)
write_found c name out suffixes (some (i, suffix, offset)) =
    (record_all c (length out) (take i suffixes), write_hit name suffix offset out)

unfoldable pub write : NameCompressor → Name → List ℕ → NameCompressor × List ℕ
unfolding suffix_walk find_hit write_found wire_len
write c name out =
    let suffixes = suffix_walk (wire_len name) (wire_len name) name in
    write_found c name out suffixes (find_hit c.offsets 0 suffixes)
