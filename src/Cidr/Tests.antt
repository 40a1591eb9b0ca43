-- ===== src/Cidr/Tests.antt =====
-- Runs on blocks, and their theorems at concrete inputs.
use recurse_x.Prelude.{ℕ, ◌+◌, ◌^◌, ◌≤◌, ◌<◌, ◌≡◌, ◌↔◌, ◌⊎◌, refl, true, false, none, some, arith}
use recurse_x.Cidr.{IpCidr, contains, addr_v6}
use recurse_x.Cidr.V4 as V4
use recurse_x.Cidr.V4.{Ipv4Cidr, mask_v4}
use recurse_x.Cidr.V6 as V6
use recurse_x.Cidr.V6.{Ipv6Cidr, mask_v6}
use recurse_x.Cidr.Range.{contains-range_v4, contains-range_v6}

-- `192.168.1.5/24` is `192.168.1.0/24`.
host_bits_masked : V4.new 0xc0a8_0105 24 ≡ some (record { base = 0xc0a8_0100; prefix = 24 })
unfolding V4.new mask_v4
host_bits_masked = refl

other_family : contains (IpCidr.v4 (record { base = 0; prefix = 0 })) (addr_v6 1) ≡ false
unfolding contains
other_family = refl

contains-range_v4_example :
    ((32 < 24) × (V4.new 0xc0a8_0105 24 ≡ none))
    ⊎ ((c : Ipv4Cidr) × (V4.new 0xc0a8_0105 24 ≡ some c)
        × ((ip : ℕ)
            → ip < 2 ^ 32
            → (V4.contains c ip ≡ true) ↔ ((V4.network c ≤ ip) × (ip ≤ V4.broadcast c)))
        × (V4.broadcast c + 1 ≡ V4.network c + V4.len c))
contains-range_v4_example = contains-range_v4 0xc0a8_0105 24 (omega arith)

contains-range_v6_example :
    ((128 < 64) × (V6.new 5 64 ≡ none))
    ⊎ ((c : Ipv6Cidr) × (V6.new 5 64 ≡ some c)
        × ((ip : ℕ)
            → ip < 2 ^ 128
            → (V6.contains c ip ≡ true) ↔ ((V6.network c ≤ ip) × (ip ≤ V6.broadcast c)))
        × (V6.contains c 5 ≡ true)
        × (V6.broadcast c + 1 ≡ V6.network c + 2 ^ 64))
contains-range_v6_example = contains-range_v6 5 64 (omega arith)
