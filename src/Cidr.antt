-- ===== src/Cidr.antt =====
-- src/cidr.rs: address blocks over 32-bit and 128-bit addresses, an address being its number. The
-- text forms are not modelled.
pub mod V4
pub mod V6
pub mod Range
mod Tests
use recurse_x.Prelude.{ℕ, Bool, false}
use recurse_x.Cidr.V4.{Ipv4Cidr}
use recurse_x.Cidr.V6.{Ipv6Cidr}

pub data IpCidr : Type 0 where
  v4 : Ipv4Cidr → IpCidr
  v6 : Ipv6Cidr → IpCidr

-- `IpAddr`, by the numbers of its two forms.
pub data IpAddr : Type 0 where
  addr_v4 : ℕ → IpAddr
  addr_v6 : ℕ → IpAddr

unfoldable pub contains : IpCidr → IpAddr → Bool
contains (IpCidr.v4 c) (addr_v4 a) = V4.contains c a
contains (IpCidr.v6 c) (addr_v6 a) = V6.contains c a
contains (IpCidr.v4 c) (addr_v6 a) = false
contains (IpCidr.v6 c) (addr_v4 a) = false

unfoldable pub prefix : IpCidr → ℕ
prefix (IpCidr.v4 c) = c.prefix
prefix (IpCidr.v6 c) = c.prefix
