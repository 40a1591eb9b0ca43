-- ===== src/Name.antt =====
-- src/name.rs: domain names in wire form, and the operations on the label chain. The parsers, the
-- text form and the compression table are in the child modules.
pub mod Labels
pub mod Equal
pub mod FromWire
pub mod Compress
pub mod Hierarchy
pub mod Suffix
pub mod Case
pub mod Text
mod Tests
use recurse_x.Prelude.{
  ℕ, zero, suc, ◌+◌, ◌-◌, ◌%◌, Bool, true, false, not, ◌&&◌, ◌||◌, Option, none, some, List, [],
  ◌∷◌, ◌++◌, map, leb, ltb, ◌==◌, if◌then◌else◌, length, get_elem?, take, drop,
}
use mathlib.Core.List.{reverse}
use recurse_x.Wire.{get_from}

abbrev pub max_name_len : ℕ
max_name_len = 255

abbrev pub max_labels : ℕ
max_labels = 127

abbrev pub max_pointer_hops : ℕ
max_pointer_hops = max_labels + 1

-- The boxed bytes of the tuple struct.
pub record Name : Type 0 where
  pub bytes : List ℕ

-- `==` on byte strings.
unfoldable pub bytes_eq : List ℕ → List ℕ → Bool
bytes_eq [] [] = true
bytes_eq [] (y ∷ ys) = false
bytes_eq (x ∷ xs) [] = false
bytes_eq (x ∷ xs) (y ∷ ys) = (x == y) && bytes_eq xs ys

abbrev pub name_eq : Name → Name → Bool
name_eq a b = bytes_eq a.bytes b.bytes

abbrev pub root : Name
root = record { bytes = 0 ∷ [] }

unfoldable pub is_root : Name → Bool
is_root n = (length n.bytes == 1) && elim (get_elem? n.bytes 0) [ some b ↦ b == 0 | none ↦ false ]

unfoldable pub wire_len : Name → ℕ
wire_len n = length n.bytes

-- The labels that the iterator yields. Each step takes a byte at least, so the number of bytes is
-- enough fuel.
unfoldable pub label_walk : ℕ → List ℕ → List (List ℕ)
label_walk fuel [] = []
label_walk zero (len ∷ tail) = []
label_walk (suc fuel) (len ∷ tail) =
    let rest = label_walk fuel (drop len tail) in
    if (len == 0) || ltb (length tail) len then [] else (take len tail ∷ rest)

unfoldable pub labels : Name → List (List ℕ)
unfolding label_walk
labels n = label_walk (length n.bytes) n.bytes

unfoldable pub label_count : Name → ℕ
label_count n = length (labels n)

unfoldable pub first_label : Name → Option (List ℕ)
first_label n = if is_root n then none else get_elem? (labels n) 0

unfoldable pub last_label : Name → Option (List ℕ)
last_label n = if is_root n then none else get_elem? (labels n) (length (labels n) - 1)

-- The whole of `parent`: the root is told by its length, and the offset comes from the first byte.
unfoldable pub parent : Name → Option Name
unfolding get_from
parent n = if length n.bytes == 1 then none else elim (get_elem? n.bytes 0) [
  | none ↦ none
  | some first ↦ elim (get_from n.bytes (1 + first)) [
    | none ↦ none
    | some rest ↦ some (record { bytes = rest })
  ]
]

-- `out.push(label.len() as u8); out.extend_from_slice(label)` for each label.
unfoldable pub push_labels : List ℕ → List (List ℕ) → List ℕ
push_labels out [] = out
push_labels out (label ∷ ls) = push_labels (out ++ (length label % 256) ∷ label) ls

unfoldable pub apex : Name → Name
apex n =
    if leb (label_count n) 2
    then n
    else record { bytes = push_labels [] (drop (label_count n - 2) (labels n)) ++ 0 ∷ [] }

-- `self.0.ends_with(&other.0)`
unfoldable pub ends_with : List ℕ → List ℕ → Bool
unfolding bytes_eq
ends_with xs ys = leb (length ys) (length xs) && bytes_eq (drop (length xs - length ys) xs) ys

unfoldable pub is_subdomain_of : Name → Name → Bool
unfolding ends_with
is_subdomain_of n other = ends_with n.bytes other.bytes

unfoldable pub is_strict_subdomain_of : Name → Name → Bool
unfolding is_subdomain_of bytes_eq
is_strict_subdomain_of n other = not (name_eq n other) && is_subdomain_of n other

-- The loop of `common_suffix` over the reversed label lists.
unfoldable pub common_loop : List (List ℕ) → List (List ℕ) → List ℕ → List ℕ
unfolding bytes_eq
common_loop (a ∷ more_a) (b ∷ more_b) suffix =
    let rest = common_loop more_a more_b ((length a % 256) ∷ (a ++ suffix)) in
    if bytes_eq a b then rest else suffix
common_loop _ _ suffix = suffix

unfoldable pub common_suffix : Name → Name → Name
common_suffix n other = record {
  bytes = common_loop (reverse (labels n)) (reverse (labels other)) [] ++ 0 ∷ [];
}

-- `u8::is_ascii_alphabetic`, `make_ascii_lowercase` and `to_ascii_uppercase`.
abbrev pub is_upper : ℕ → Bool
is_upper b = leb b'A' b && leb b b'Z'

abbrev pub is_lower : ℕ → Bool
is_lower b = leb b'a' b && leb b b'z'

abbrev pub is_alphabetic : ℕ → Bool
is_alphabetic b = is_upper b || is_lower b

abbrev pub to_lower : ℕ → ℕ
to_lower b = if is_upper b then b + 32 else b

abbrev pub to_upper : ℕ → ℕ
to_upper b = if is_lower b then b - 32 else b

unfoldable pub canonical : Name → Name
canonical n = record { bytes = map to_lower n.bytes }

any_alphabetic : List ℕ → Bool
any_alphabetic [] = false
any_alphabetic (b ∷ bs) = is_alphabetic b || any_alphabetic bs

unfoldable pub is_0x20_eligible : Name → Bool
unfolding any_alphabetic
is_0x20_eligible n = any_alphabetic n.bytes
