-- ===== src/FakeIp/Pool.antt =====
-- src/fakeip.rs: the pool, which is one allocation space for each configured family behind a filter. The
-- text of the error for a family without a space, which the code formats, is the parameter `no_space`.
use Prim.Native.String.{String}
use recurse_x.Prelude.{
  ℕ, ◌+◌, ◌%◌, ◌^◌, Bool, true, false, Option, none, some, List, [], ◌∷◌, ◌++◌, map, ◌==◌,
  if◌then◌else◌,
}
use recurse_x.Error.{Result, ok, err, internal_error}
use recurse_x.Name.{Name}
use recurse_x.Pattern
use recurse_x.Pattern.{DomainPattern}
use recurse_x.Cidr.{IpAddr}
use recurse_x.Cidr.V4.{Ipv4Cidr}
use recurse_x.Cidr.V6.{Ipv6Cidr}
use recurse_x.FakeIp.Space
use recurse_x.FakeIp.Space.{
  Space, Entry, Family, addr, key, space_v4, space_v6, capacity, entry_cap, len, covers, ttl_nanos,
}

pub data Allocation : Type 0 where
  address : IpAddr → Allocation
  filtered : Allocation

pub record FakeIpPool : Type 0 where
  pub v4_net : Ipv4Cidr
  pub v6_net : Option Ipv6Cidr
  pub v4 : Space
  pub v6 : Option Space
  pub filter : List DomainPattern
  pub filtered_hits : ℕ

unfoldable pub new : Ipv4Cidr → Option Ipv6Cidr → List DomainPattern → ℕ → ℕ → FakeIpPool
unfolding space_v4 space_v6 ttl_nanos
new range range6 filter ttl_secs max_entries = record {
  v4_net = range;
  v6_net = range6;
  v4 = space_v4 range max_entries (ttl_nanos ttl_secs);
  v6 = elim range6 [ none ↦ none | some r ↦ some (space_v6 r max_entries (ttl_nanos ttl_secs)) ];
  filter = filter;
  filtered_hits = 0;
}

-- `space` and `space_mut`; a change of the mutable space is stored by `with_space`.
unfoldable pub space : Family → FakeIpPool → Option Space
space Family.v4 p = some p.v4
space Family.v6 p = p.v6

unfoldable pub with_space : Family → Space → FakeIpPool → FakeIpPool
with_space Family.v4 s p = record p { v4 = s }
with_space Family.v6 s p = record p { v6 = some s }

unfoldable pub synthesizes : Family → FakeIpPool → Bool
unfolding space
synthesizes family p = elim (space family p) [ none ↦ false | some s ↦ true ]

unfoldable pub pool_capacity : Family → FakeIpPool → ℕ
unfolding space capacity
pool_capacity family p = elim (space family p) [ none ↦ 0 | some s ↦ capacity s ]

unfoldable pub max_entries : Family → FakeIpPool → ℕ
unfolding space entry_cap
max_entries family p = elim (space family p) [ none ↦ 0 | some s ↦ entry_cap s ]

unfoldable pub pool_len : FakeIpPool → ℕ
unfolding len
pool_len p = len p.v4 + elim p.v6 [ none ↦ 0 | some s ↦ len s ]

unfoldable pub len_for : Family → FakeIpPool → ℕ
unfolding space len
len_for family p = elim (space family p) [ none ↦ 0 | some s ↦ len s ]

unfoldable pub is_empty : FakeIpPool → Bool
unfolding pool_len
is_empty p = pool_len p == 0

unfoldable pub evicted : FakeIpPool → ℕ
evicted p = (p.v4.evicted + elim p.v6 [ none ↦ 0 | some s ↦ s.evicted ]) % 2 ^ 64

-- The family and the key of an address: the first of `Family::V4.key(ip)` and `Family::V6.key(ip)` that is
-- there.
unfoldable pub home : IpAddr → Option (Family × ℕ)
unfolding key
home ip = elim (key Family.v4 ip) [
  | some k ↦ some (Family.v4, k)
  | none ↦ elim (key Family.v6 ip) [ some k ↦ some (Family.v6, k) | none ↦ none ]
]

unfoldable pub contains : IpAddr → FakeIpPool → Bool
unfolding home space covers
contains ip p = elim (home ip) [
  | none ↦ false
  | some (family, k) ↦ elim (space family p) [ none ↦ false | some s ↦ covers s k ]
]

unfoldable pub any_matches : Name → List DomainPattern → Bool
any_matches name [] = false
any_matches name (p ∷ ps) =
    let rest = any_matches name ps in if Pattern.matches p name then true else rest

unfoldable pub is_filtered : Name → FakeIpPool → Bool
unfolding any_matches
is_filtered name p = any_matches name p.filter

-- `Ok(Allocation::Address(..?))`
unfoldable pub as_allocation : Result IpAddr → Result Allocation
as_allocation (err e) = err e
as_allocation (ok ip) = ok (address ip)

unfoldable pub allocate :
    (Family → String) → Name → Family → ℕ → FakeIpPool → Result Allocation × FakeIpPool
unfolding is_filtered space with_space as_allocation Space.allocate
allocate no_space name family now p =
    if is_filtered name p
    then (ok filtered, record p { filtered_hits = (p.filtered_hits + 1) % 2 ^ 64 })
    else elim (space family p) [
      | none ↦ (err (internal_error (no_space family)), p)
      | some s ↦ (
        as_allocation (Space.allocate name now s).0,
        with_space family (Space.allocate name now s).1 p,
      )
    ]

unfoldable pub lookup : IpAddr → ℕ → FakeIpPool → Option Name × FakeIpPool
unfolding home space with_space Space.lookup
lookup ip now p = elim (home ip) [
  | none ↦ (none, p)
  | some (family, k) ↦ elim (space family p) [
    | none ↦ (none, p)
    | some s ↦ ((Space.lookup k now s).0, with_space family (Space.lookup k now s).1 p)
  ]
]

unfoldable pub peek : IpAddr → FakeIpPool → Option Name
unfolding home space Space.peek
peek ip p = elim (home ip) [
  | none ↦ none
  | some (family, k) ↦ elim (space family p) [ none ↦ none | some s ↦ Space.peek k s ]
]

unfoldable pub restore : Name → IpAddr → ℕ → FakeIpPool → Bool × FakeIpPool
unfolding home space with_space Space.restore
restore name ip now p = elim (home ip) [
  | none ↦ (false, p)
  | some (family, k) ↦ elim (space family p) [
    | none ↦ (false, p)
    | some s ↦ ((Space.restore name k now s).0, with_space family (Space.restore name k now s).1 p)
  ]
]

-- The entries of one family's space, for `iter`.
unfoldable pub addresses : Family → Space → List (Name × IpAddr)
unfolding addr
addresses family s = map (λ (e : ℕ × Entry). (e.1.name, addr family e.0)) s.by_key

unfoldable pub iter : FakeIpPool → List (Name × IpAddr)
unfolding addresses
iter p = addresses Family.v4 p.v4 ++ elim p.v6 [ none ↦ [] | some s ↦ addresses Family.v6 s ]

unfoldable pub cleanup_expired : ℕ → FakeIpPool → ℕ × FakeIpPool
unfolding Space.cleanup_expired
cleanup_expired now p =
    let four = Space.cleanup_expired now p.v4 in
    elim p.v6 [
      | none ↦ (four.0, record p { v4 = four.1 })
      | some s ↦ (
        four.0 + (Space.cleanup_expired now s).0,
        record p { v4 = four.1; v6 = some (Space.cleanup_expired now s).1 },
      )
    ]

unfoldable pub release : Name → Family → FakeIpPool → Option IpAddr × FakeIpPool
unfolding space with_space addr Space.release
release name family p = elim (space family p) [
  | none ↦ (none, p)
  | some s ↦ (
    elim (Space.release name s).0 [ none ↦ none | some k ↦ some (addr family k) ],
    with_space family (Space.release name s).1 p,
  )
]

unfoldable pub clear : FakeIpPool → FakeIpPool
unfolding Space.clear
clear p = record p {
  v4 = Space.clear p.v4;
  v6 = elim p.v6 [ none ↦ none | some s ↦ some (Space.clear s) ];
}
