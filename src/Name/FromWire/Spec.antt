-- ===== src/Name/FromWire/Spec.antt =====
-- What a compressed name means (RFC 1035 §4.1.4), as a relation that says nothing of loops, hop
-- limits or buffers: the specification of `from_wire`.
use recurse_x.Prelude.{
  ℕ, suc, ◌+◌, ◌*◌, ◌%◌, ◌≤◌, ◌<◌, ◌≡◌, some, List, [], ◌∷◌, map, length, get_elem?,
}
use recurse_x.Error.{ok}
use recurse_x.Wire.{slice_at}
use recurse_x.Name.{to_lower}

-- `NameAt buf p e h ls`: the name at `p` has the labels `ls`, it is written in the bytes up to `e`,
-- and `h` pointers are followed to read it.
pub data NameAt (buf : List ℕ) : ℕ → ℕ → ℕ → List (List ℕ) → Type 0 where
  at_root : {p : ℕ} → get_elem? buf p ≡ some 0 → NameAt buf p (p + 1) 0 []
  at_label :
      {p e h len : ℕ} {l : List ℕ} {ls : List (List ℕ)}
      → get_elem? buf p ≡ some len
      → 0 < len
      → len ≤ 63
      → slice_at buf (p + 1) len ≡ ok l
      → NameAt buf (p + (1 + len)) e h ls
      → NameAt buf p e h (map to_lower l ∷ ls)
  at_pointer :
      {p e h hi lo : ℕ} {ls : List (List ℕ)}
      → get_elem? buf p ≡ some hi
      → 192 ≤ hi
      → get_elem? buf (p + 1) ≡ some lo
      → hi % 64 * 256 + lo < length buf
      → NameAt buf (hi % 64 * 256 + lo) e h ls
      → NameAt buf p (p + 2) (suc h) ls
