-- ===== src/FakeIp/Served.antt =====
-- src/fakeip.rs: the pools that calls lead to, from the one that `FakeIpPool::new` makes.
use Prim.Native.String.{String}
use recurse_x.Prelude.{
  ℕ, ◌+◌, ◌%◌, ◌^◌, ◌<◌, ◌≡◌, refl, true, false, Option, none, some, some-eq, List, arith,
}
use recurse_x.Error.{ok}
use recurse_x.Name.{Name}
use recurse_x.Cidr.{IpAddr}
use recurse_x.Cidr.V4
use recurse_x.Cidr.V4.{Ipv4Cidr}
use recurse_x.Cidr.V6
use recurse_x.Cidr.V6.{Ipv6Cidr}
use recurse_x.Pattern.{DomainPattern}
use recurse_x.FakeIp.Space.{Space, Family, bits, new, space_v4, space_v6, ttl_nanos}
use recurse_x.FakeIp.Pool
use recurse_x.FakeIp.Pool.{FakeIpPool, address, space, with_space, home, is_filtered, contains}
use recurse_x.FakeIp.Keeps.{new-IsValid}
use recurse_x.FakeIp.Hands.{allocate-lookup}
use recurse_x.FakeIp.Serves.{Serves}
use recurse_x.FakeIp.Reached.{PoolIsValid, PoolCall, run, both-IsValid, run-PoolIsValid}

new_v4-Serves :
    (range : Ipv4Cidr) (max_entries ttl : ℕ)
    → V4.network range < V4.broadcast range
    → V4.broadcast range < 2 ^ 32
    → Serves Family.v4 (space_v4 range max_entries ttl)
unfolding space_v4 new bits
new_v4-Serves range max_entries ttl p q = record {
  valid =
      new-IsValid Family.v4 (V4.network range + 1) (V4.broadcast range) max_entries ttl
        (omega arith) (omega arith) q;
  same = refl;
}

new_v6-Serves :
    (range : Ipv6Cidr) (max_entries ttl : ℕ)
    → V6.network range < V6.broadcast range
    → V6.broadcast range < 2 ^ 128
    → Serves Family.v6 (space_v6 range max_entries ttl)
unfolding space_v6 new bits
new_v6-Serves range max_entries ttl p q =
    let whole : (V6.network range + 1) % 2 ^ 128 ≡ V6.network range + 1 = omega arith in
    record {
      valid = rw whole (
          new-IsValid Family.v6 (V6.network range + 1) (V6.broadcast range) max_entries ttl
            (omega arith) (omega arith) q);
      same = refl;
    }

new-PoolIsValid :
    (range : Ipv4Cidr) (range6 : Option Ipv6Cidr) (filter : List DomainPattern)
    (ttl max_entries : ℕ)
    → V4.network range < V4.broadcast range
    → V4.broadcast range < 2 ^ 32
    → ((r : Ipv6Cidr)
        → range6 ≡ some r
        → (V6.network r < V6.broadcast r) × (V6.broadcast r < 2 ^ 128))
    → PoolIsValid (Pool.new range range6 filter ttl max_entries)
unfolding Pool.new
new-PoolIsValid range none filter ttl max_entries p q six =
    both-IsValid (Pool.new range none filter ttl max_entries)
      (new_v4-Serves range max_entries (ttl_nanos ttl) p q) (λ s h. absurd (cc))
new-PoolIsValid range (some r) filter ttl max_entries p q six =
    let (low, high) = six r refl in
    let right = new_v6-Serves r max_entries (ttl_nanos ttl) low high in
    both-IsValid (Pool.new range (some r) filter ttl max_entries)
      (new_v4-Serves range max_entries (ttl_nanos ttl) p q)
      (λ s h. let e = some-eq h in rw (← e) right)

-- A pool is made over ranges of more than one address each, and any calls are made on it. Then a name that
-- its filter lets through is given an address in a family that the pool serves, never an error. The address
-- is in the pool's ranges, a later lookup of it yields the name, and a later allocation for the name gives
-- it again.
pub run-lookup :
    (no_space : Family → String) (range : Ipv4Cidr) (range6 : Option Ipv6Cidr)
    (filter : List DomainPattern) (ttl max_entries : ℕ) (calls : List PoolCall) (name : Name)
    (family : Family) (now later : ℕ) (p : FakeIpPool) (s : Space)
    → V4.network range < V4.broadcast range
    → V4.broadcast range < 2 ^ 32
    → ((r : Ipv6Cidr)
        → range6 ≡ some r
        → (V6.network r < V6.broadcast r) × (V6.broadcast r < 2 ^ 128))
    → p ≡ run no_space calls (Pool.new range range6 filter ttl max_entries)
    → is_filtered name p ≡ false
    → space family p ≡ some s
    → (ip : IpAddr) × ((Pool.allocate no_space name family now p).0 ≡ ok (address ip))
      × (contains ip (Pool.allocate no_space name family now p).1 ≡ true)
      × ((Pool.lookup ip later (Pool.allocate no_space name family now p).1).0 ≡ some name)
      × ((Pool.allocate no_space name family later (Pool.allocate no_space name family now p).1).0
          ≡ ok (address ip))
run-lookup no_space range range6 filter ttl max_entries calls name family now later p s low high six
      reached pass here =
    let made = new-PoolIsValid range range6 filter ttl max_entries low high six in
    let v : PoolIsValid p =
      rw reached
        (run-PoolIsValid no_space calls (Pool.new range range6 filter ttl max_entries) made) in
    let right = v.each family s here in
    allocate-lookup no_space name family now later p s pass here right.same right.valid
