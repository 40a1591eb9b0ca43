-- ===== src/Rdata/Bitmap.antt =====
-- src/rdata.rs: the type bitmaps of NSEC and NSEC3.
use recurse_x.Prelude.{
  ℕ, zero, suc, ◌+◌, ◌*◌, ◌/◌, ◌%◌, ◌^◌, max, ◌||◌, List, [], ◌∷◌, ◌++◌, map, leb, ltb, ◌==◌,
  if◌then◌else◌,
}
use recurse_x.Prelude.Bits.{bit_and, bit_or}
use recurse_x.Error.{Result, ok, err, ◌>>=◌, ◌>>◌, fail_if, ok_or, or_error, wire_error}
use recurse_x.Wire.{byte_at, get_range, capped}
use recurse_x.Qtype.{RrType}
use recurse_x.Edns.Subnet.{zeros}
use recurse_x.Rdata.Fields.{no_fuel}

abbrev pub all_bits : List ℕ
all_bits = 0 ∷ 1 ∷ 2 ∷ 3 ∷ 4 ∷ 5 ∷ 6 ∷ 7 ∷ []

-- `for bit in 0..8`
unfoldable pub byte_types : ℕ → ℕ → List ℕ → List RrType
byte_types base byte [] = []
byte_types base byte (bit ∷ bits) =
    let rest = byte_types base byte bits in
    if bit_and byte (0x80 / 2 ^ bit) == 0 then rest else record { code = base + bit } ∷ rest

-- `for (i, byte) in window_bytes.iter().enumerate()`
unfoldable pub window_types : ℕ → ℕ → List ℕ → List RrType
window_types window i [] = []
window_types window i (byte ∷ bytes) =
    byte_types (window * 256 + i * 8) byte all_bits ++ window_types window (i + 1) bytes

-- One window, and the cursor behind it.
unfoldable pub bitmap_window : List ℕ → ℕ → ℕ → Result (List RrType × ℕ)
bitmap_window buf end p = do
  fail_if (ltb end (p + 2)) (wire_error "type bitmap window truncated")
  window ← or_error (byte_at buf p) (wire_error "type bitmap window truncated")
  len ← or_error (byte_at buf (p + 1)) (wire_error "type bitmap window truncated")
  fail_if (len == 0 || ltb 32 len || ltb end (p + 2 + len))
      (wire_error "type bitmap window length invalid")
  bytes ← ok_or (get_range buf (p + 2) (p + 2 + len)) (wire_error "type bitmap window truncated")
  ok (window_types window 0 bytes, p + 2 + len)

unfoldable pub bitmap_loop : List ℕ → ℕ → ℕ → ℕ → Result (List RrType × ℕ)
bitmap_loop buf end zero p = err no_fuel
bitmap_loop buf end (suc fuel) p =
    let turn = (do
      (types, p') ← bitmap_window buf end p
      (more, last) ← bitmap_loop buf end fuel p'
      ok (types ++ more, last)) in
    if ltb p end then turn else ok ([], p)

-- A window takes three bytes at least.
unfoldable pub parse_type_bitmap : List ℕ → ℕ → ℕ → Result (List RrType × ℕ)
parse_type_bitmap buf end p = bitmap_loop buf end (end + 1) p

-- `sort_unstable` on numbers, and `dedup`.
unfoldable pub insert_sorted : ℕ → List ℕ → List ℕ
insert_sorted n [] = n ∷ []
insert_sorted n (m ∷ ms) = let rest = insert_sorted n ms in if leb n m then n ∷ m ∷ ms else m ∷ rest

unfoldable pub sort : List ℕ → List ℕ
sort [] = []
sort (n ∷ ns) = insert_sorted n (sort ns)

unfoldable pub dedup : List ℕ → List ℕ
dedup [] = []
dedup (n ∷ []) = n ∷ []
dedup (n ∷ m ∷ ns) = let rest = dedup (m ∷ ns) in if n == m then rest else n ∷ rest

-- `if let Some(slot) = bytes.get_mut(idx) { *slot |= mask }`
unfoldable pub set_bit : List ℕ → ℕ → ℕ → List ℕ
set_bit [] idx mask = []
set_bit (b ∷ bytes) zero mask = bit_or b mask ∷ bytes
set_bit (b ∷ bytes) (suc idx) mask = b ∷ set_bit bytes idx mask

-- A window with its 32 bytes, and how many of them are used.
pub record Window : Type 0 where
  pub number : ℕ
  pub bytes : List ℕ
  pub used : ℕ

-- The window of the type is updated where it is, or added at the end.
unfoldable pub mark : List Window → ℕ → List Window
mark [] t =
    record {
      number = t / 2 ^ 8 % 256;
      bytes = set_bit (zeros 32) (bit_and t 0xff / 8) (0x80 / 2 ^ (bit_and t 0xff % 8));
      used = bit_and t 0xff / 8 + 1;
    }
    ∷ []
mark (w ∷ windows) t =
    let marked = record w {
      bytes = set_bit w.bytes (bit_and t 0xff / 8) (0x80 / 2 ^ (bit_and t 0xff % 8));
      used = max w.used (bit_and t 0xff / 8 + 1);
    } in
    let rest = mark windows t in if w.number == t / 2 ^ 8 % 256 then marked ∷ windows else w ∷ rest

unfoldable pub mark_all : List Window → List ℕ → List Window
mark_all windows [] = windows
mark_all windows (t ∷ ts) = mark_all (mark windows t) ts

unfoldable pub windows_wire : List Window → List ℕ
windows_wire [] = []
windows_wire (w ∷ windows) =
    w.number ∷ ((w.used % 256) ∷ (capped w.bytes w.used ++ windows_wire windows))

-- The bytes that `write_type_bitmap` appends; of no types there are none.
unfoldable pub bitmap_wire : List RrType → List ℕ
bitmap_wire types = windows_wire (mark_all [] (dedup (sort (map (λ t. t.code) types))))
