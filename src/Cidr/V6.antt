-- ===== src/Cidr/V6.antt =====
-- src/cidr.rs: the 128-bit mask and `Ipv6Cidr`.
use recurse_x.Prelude.{
  ℕ, ◌-◌, ◌*◌, ◌%◌, ◌^◌, Bool, Option, none, some, leb, ltb, ◌==◌, if◌then◌else◌,
}
use recurse_x.Prelude.Bits.{bit_and, bit_or}

-- The mask of the `prefix` high bits: a left shift in the 128-bit word, with the two ends apart.
unfoldable pub mask_v6 : ℕ → ℕ
mask_v6 prefix =
    if prefix == 0
    then 0
    else if leb 128 prefix
    then 2 ^ 128 - 1
    else (2 ^ 128 - 1) * 2 ^ (128 - prefix) % 2 ^ 128

pub record Ipv6Cidr : Type 0 where
  pub base : ℕ
  pub prefix : ℕ

unfoldable pub new : ℕ → ℕ → Option Ipv6Cidr
new addr prefix =
    if ltb 128 prefix
    then none
    else some (record { base = bit_and addr (mask_v6 prefix); prefix = prefix })

unfoldable pub contains : Ipv6Cidr → ℕ → Bool
contains c ip = bit_and ip (mask_v6 c.prefix) == c.base

unfoldable pub network : Ipv6Cidr → ℕ
network c = c.base

-- `base | !mask`
unfoldable pub broadcast : Ipv6Cidr → ℕ
broadcast c = bit_or c.base (2 ^ 128 - 1 - mask_v6 c.prefix)
