-- ===== src/Cidr/V4.antt =====
-- src/cidr.rs: the 32-bit mask and `Ipv4Cidr`.
use recurse_x.Prelude.{
  ℕ, ◌-◌, ◌*◌, ◌%◌, ◌^◌, Bool, Option, none, some, leb, ltb, ◌==◌, if◌then◌else◌,
}
use recurse_x.Prelude.Bits.{bit_and, bit_or}

-- The mask of the `prefix` high bits: a left shift in the 32-bit word, with the two ends apart.
unfoldable pub mask_v4 : ℕ → ℕ
mask_v4 prefix =
    if prefix == 0
    then 0
    else if leb 32 prefix
    then 2 ^ 32 - 1
    else (2 ^ 32 - 1) * 2 ^ (32 - prefix) % 2 ^ 32

pub record Ipv4Cidr : Type 0 where
  pub base : ℕ
  pub prefix : ℕ

unfoldable pub new : ℕ → ℕ → Option Ipv4Cidr
new addr prefix =
    if ltb 32 prefix
    then none
    else some (record { base = bit_and addr (mask_v4 prefix); prefix = prefix })

unfoldable pub contains : Ipv4Cidr → ℕ → Bool
contains c ip = bit_and ip (mask_v4 c.prefix) == c.base

unfoldable pub network : Ipv4Cidr → ℕ
network c = c.base

-- `base | !mask`
unfoldable pub broadcast : Ipv4Cidr → ℕ
broadcast c = bit_or c.base (2 ^ 32 - 1 - mask_v4 c.prefix)

-- `1u64 << (32 - prefix)`
unfoldable pub len : Ipv4Cidr → ℕ
len c = 2 ^ (32 - c.prefix) % 2 ^ 64
