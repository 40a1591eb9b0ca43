-- ===== src/Edns/Subnet.antt =====
-- src/edns.rs: the client-subnet option. An address is given by its octets.
use recurse_x.Prelude.{
  ℕ, zero, suc, ◌+◌, ◌-◌, ◌*◌, ◌/◌, ◌%◌, ◌^◌, Bool, false, not, ◌||◌, Option, none, some, List, [],
  ◌∷◌, ◌++◌, ltb, ◌==◌, if◌then◌else◌, length,
}
use recurse_x.Prelude.Bits.{bit_and}
use recurse_x.Error.{Result, ok, err, ◌>>=◌, ◌>>◌, fail_if, wire_error}
use recurse_x.Wire.{byte_at, rest_at, to_be_bytes, u16_at}

pub record Ecs : Type 0 where
  pub family : ℕ
  pub source_prefix : ℕ
  pub scope_prefix : ℕ
  pub address : List ℕ

-- `div_ceil(8)`
abbrev pub octets_of : ℕ → ℕ
octets_of bits = (bits + 7) / 8

-- `vec![0u8; n]`
unfoldable pub zeros : ℕ → List ℕ
zeros zero = []
zeros (suc n) = 0 ∷ zeros n

-- `for (dst, src) in out.iter_mut().zip(addr) { *dst = *src }`
unfoldable pub zip_copy : List ℕ → List ℕ → List ℕ
zip_copy [] src = []
zip_copy (d ∷ dst) [] = d ∷ dst
zip_copy (d ∷ dst) (s ∷ src) = s ∷ zip_copy dst src

unfoldable pub last : List ℕ → Option ℕ
last [] = none
last (b ∷ []) = some b
last (_ ∷ b ∷ bytes) = last (b ∷ bytes)

-- `if let Some(last) = out.last_mut() { *last &= mask_byte }`
unfoldable pub mask_last : ℕ → List ℕ → List ℕ
mask_last m [] = []
mask_last m (b ∷ []) = bit_and b m ∷ []
mask_last m (a ∷ b ∷ bytes) = a ∷ mask_last m (b ∷ bytes)

-- `0xffu8 << (8 - valid)`
abbrev pub mask_byte : ℕ → ℕ
mask_byte valid = 0xff * 2 ^ (8 - valid) % 256

unfoldable pub mask : List ℕ → ℕ → List ℕ
mask addr prefix =
    let out = zip_copy (zeros (octets_of prefix)) addr in
    if prefix % 8 == 0 then out else mask_last (mask_byte (prefix % 8)) out

unfoldable pub ipv4 : List ℕ → ℕ → Result Ecs
ipv4 octets prefix = do
  fail_if (ltb 32 prefix) (wire_error "ECS IPv4 prefix > 32")
  ok (record { family = 1; source_prefix = prefix; scope_prefix = 0; address = mask octets prefix })

unfoldable pub ipv6 : List ℕ → ℕ → Result Ecs
ipv6 octets prefix = do
  fail_if (ltb 128 prefix) (wire_error "ECS IPv6 prefix > 128")
  ok (record { family = 2; source_prefix = prefix; scope_prefix = 0; address = mask octets prefix })

unfoldable pub full_address : Ecs → List ℕ
full_address e =
    let full : ℕ = if e.family == 1 then 4 else if e.family == 2 then 16 else 0 in
    if full == 0 then e.address else zip_copy (zeros full) e.address

-- `Ecs::is_none`
unfoldable pub is_none : Ecs → Bool
is_none e = e.family == 0 || e.source_prefix == 0

unfoldable pub max_prefix : ℕ → Result ℕ
max_prefix family =
    if family == 1
    then ok 32
    else if family == 2
    then ok 128
    else err (wire_error "ECS unknown family")

-- Whether bits beyond the prefix are set in the last byte of the address.
unfoldable pub stray_bits : ℕ → Option ℕ → Bool
stray_bits prefix none = false
stray_bits prefix (some b) =
    if prefix % 8 == 0 then false else not (bit_and b (255 - mask_byte (prefix % 8)) == 0)

unfoldable pub parse : List ℕ → Result Ecs
parse bytes = do
  fail_if (ltb (length bytes) 4) (wire_error "ECS option too short")
  family ← u16_at bytes 0
  source_prefix ← byte_at bytes 2
  scope_prefix ← byte_at bytes 3
  most ← max_prefix family
  fail_if (ltb most source_prefix || ltb most scope_prefix) (wire_error "ECS prefix out of range")
  fail_if (not (length bytes == 4 + octets_of source_prefix))
      (wire_error "ECS address length mismatch")
  address ← rest_at bytes 4
  fail_if (stray_bits source_prefix (last address)) (wire_error "ECS non-canonical address")
  ok (record {
    family = family;
    source_prefix = source_prefix;
    scope_prefix = scope_prefix;
    address = address;
  })

unfoldable pub to_wire : Ecs → List ℕ
to_wire e = to_be_bytes 2 e.family ++ (e.source_prefix ∷ e.scope_prefix ∷ e.address)
