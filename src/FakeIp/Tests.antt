-- ===== src/FakeIp/Tests.antt =====
-- Runs of the synthetic addresses, and their theorems at concrete inputs.
use Prim.Native.String.{String}
use recurse_x.Prelude.{◌<◌, ◌^◌, ◌≡◌, ◌↔◌, refl, true, false, none, some, List, [], ◌∷◌, arith}
use recurse_x.Error.{ok}
use recurse_x.Name.{Name, bytes_eq}
use recurse_x.Name.Equal.{bytes_less}
use recurse_x.Maps.{get, insert, place, replace}
use recurse_x.Bounded.{evict_for_capacity}
use recurse_x.Pattern.{matches}
use recurse_x.Pattern.{DomainPattern}
use recurse_x.Cidr.{IpAddr, addr_v4}
use recurse_x.Cidr.V4
use recurse_x.Cidr.V4.{Ipv4Cidr}
use recurse_x.FakeIp.Space
use recurse_x.FakeIp.Space.{Space, Family, bits, new, index_loop, name_get, peek}
use recurse_x.FakeIp.Pool
use recurse_x.FakeIp.Pool.{FakeIpPool, address}
use recurse_x.FakeIp.Keeps.{IsValid, new-IsValid}
use recurse_x.FakeIp.Allocates.{Given, allocate_lem}
use recurse_x.FakeIp.Runs.{allocates, releases, looks_up, run, peek-run}
use recurse_x.FakeIp.Reached as PoolRun
use recurse_x.FakeIp.Served.{run-lookup}

abbrev a : Name
a = record { bytes = 1 ∷ 97 ∷ 0 ∷ [] }

abbrev b : Name
b = record { bytes = 1 ∷ 98 ∷ 0 ∷ [] }

abbrev c : Name
c = record { bytes = 1 ∷ 99 ∷ 0 ∷ [] }

-- Two keys, 11 and 12.
abbrev small : Space
small = new Family.v4 11 12 8 100

small-IsValid : IsValid small
unfolding bits new
small-IsValid = new-IsValid Family.v4 11 12 8 100 (omega arith) (omega arith) (omega arith)

-- A third name takes over the key of the name untouched for longest.
recycled :
    (peek 11 (run (allocates a 1 ∷ allocates b 2 ∷ looks_up 11 3 ∷ allocates c 4 ∷ []) small)
      ≡ some a)
    × (peek 12 (run (allocates a 1 ∷ allocates b 2 ∷ looks_up 11 3 ∷ allocates c 4 ∷ []) small)
        ≡ some c)
unfolding run peek new Space.len get insert place replace evict_for_capacity index_loop bytes_eq
    bytes_less
recycled = (refl, refl)

allocate_lem_example : Given a small (Space.allocate a 5 small)
allocate_lem_example = allocate_lem a 5 small small-IsValid

peek-run_example :
    (name_get b (run (allocates a 1 ∷ allocates b 2 ∷ releases a ∷ []) small).by_name ≡ some 12)
    ↔ (peek 12 (run (allocates a 1 ∷ allocates b 2 ∷ releases a ∷ []) small) ≡ some b)
unfolding bits new
peek-run_example =
    peek-run Family.v4 11 12 8 100 (allocates a 1 ∷ allocates b 2 ∷ releases a ∷ []) b 12
      (omega arith) (omega arith) (omega arith)

-- 10.0.0.0/30, no IPv6 range, and a filter for one name.
abbrev range : Ipv4Cidr
range = record { base = 167772160; prefix = 30 }

abbrev filter : List DomainPattern
filter = DomainPattern.exact b ∷ []

abbrev no_space : Family → String
no_space family = "no fake-ip space"

abbrev pool : FakeIpPool
pool = Pool.new range none filter 60 8

-- The pool after a name got an address and the address was looked up.
unfoldable used : FakeIpPool
unfolding PoolRun.run
used =
    PoolRun.run no_space
      (PoolRun.allocates c Family.v4 1 ∷ PoolRun.looks_up (addr_v4 167772161) 2 ∷ []) pool

passes : Pool.is_filtered a used ≡ false
unfolding used Pool.is_filtered Pool.new matches bytes_eq
passes = refl

served : (s : Space) × (Pool.space Family.v4 used ≡ some s)
unfolding Pool.space
served = (used.v4, refl)

bounds : (V4.network range < V4.broadcast range) × (V4.broadcast range < 2 ^ 32)
unfolding V4.network V4.broadcast V4.mask_v4
bounds = (omega arith, omega arith)

run-lookup_example :
    (ip : IpAddr) × ((Pool.allocate no_space a Family.v4 5 used).0 ≡ ok (address ip))
    × (Pool.contains ip (Pool.allocate no_space a Family.v4 5 used).1 ≡ true)
    × ((Pool.lookup ip 6 (Pool.allocate no_space a Family.v4 5 used).1).0 ≡ some a)
    × ((Pool.allocate no_space a Family.v4 6 (Pool.allocate no_space a Family.v4 5 used).1).0
        ≡ ok (address ip))
unfolding used
run-lookup_example =
    run-lookup no_space range none filter 60 8
      (PoolRun.allocates c Family.v4 1 ∷ PoolRun.looks_up (addr_v4 167772161) 2 ∷ []) a Family.v4 5
      6 used served.0 bounds.0 bounds.1 (λ r h. absurd (cc)) refl passes served.1
