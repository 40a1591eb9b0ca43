-- ===== src/FakeIp/Hands.antt =====
-- src/fakeip.rs: what the pool hands out leads back to the name.
use Prim.Native.String.{String}
use recurse_x.Prelude.{
  ℕ, ◌%◌, ◌^◌, ◌<◌, ◌≡◌, refl, ap, ◌∙◌, true, false, some, Option-cases, inl, inr, some-eq, arith,
}
use recurse_x.Error.{ok}
use recurse_x.Name.{Name}
use recurse_x.Cidr.{IpAddr}
use recurse_x.FakeIp.Space
use recurse_x.FakeIp.Space.{Space, Family, bits, addr, key, covers, name_get, key_get}
use recurse_x.FakeIp.Pool.{
  FakeIpPool, address, space, with_space, home, is_filtered, as_allocation, allocate, lookup,
  contains,
}
use recurse_x.FakeIp.Keeps.{IsValid}
use recurse_x.FakeIp.Allocates.{allocate_lem}

home-addr :
    (family : Family) (k : ℕ) → k < 2 ^ bits family → home (addr family k) ≡ some (family, k)
unfolding home addr key bits
home-addr Family.v4 k h = let small : k % 2 ^ 32 ≡ k = omega arith in rw small refl
home-addr Family.v6 k h = refl

space-with_space :
    (family : Family) (s : Space) (p : FakeIpPool) → space family (with_space family s p) ≡ some s
unfolding space with_space
space-with_space Family.v4 s p = refl
space-with_space Family.v6 s p = refl

filtered-with_space :
    (family : Family) (s : Space) (p : FakeIpPool) (name : Name)
    → is_filtered name (with_space family s p) ≡ is_filtered name p
unfolding is_filtered with_space
filtered-with_space Family.v4 s p name = refl
filtered-with_space Family.v6 s p name = refl

-- The owner of a key, and its place in the range.
module _ (s : Space) (v : IsValid s) (k : ℕ) (name : Name)
    (owner : Space.peek k s ≡ some name) where
  owned : (e : Space.Entry) × (key_get k s.by_key ≡ some e) × (e.name ≡ name)
  unfolding Space.peek
  owned = elim (Option-cases (key_get k s.by_key)) [
    | inl absent ↦ let h = rw (Space.peek, absent) at owner in absurd (cc)
    | inr (e, there) ↦ (e, there, some-eq (rw (Space.peek, there) at owner))
  ]

  owner-covers : covers s k ≡ true
  unfolding covers
  owner-covers =
      let (e, there, named) = owned in let (low, high) = v.agree.in_range k e there in ground arith

  owner-lookup : (now : ℕ) → (Space.lookup k now s).0 ≡ some name
  unfolding Space.lookup
  owner-lookup now = let (e, there, named) = owned in rw (Space.lookup, there) (ap some named)

again_lem :
    (name : Name) (k now : ℕ) (s : Space)
    → name_get name s.by_name ≡ some k
    → (Space.allocate name now s).0 ≡ ok (addr s.family k)
unfolding Space.allocate
again_lem name k now s h = rw (Space.allocate, h) refl

allocate-at :
    (no_space : Family → String) (name : Name) (family : Family) (now : ℕ) (p : FakeIpPool)
    (s : Space)
    → is_filtered name p ≡ false
    → space family p ≡ some s
    → allocate no_space name family now p ≡ (
      as_allocation (Space.allocate name now s).0,
      with_space family (Space.allocate name now s).1 p,
    )
unfolding allocate
allocate-at no_space name family now p s pass here = rw (allocate, pass, here) refl

lookup-at :
    (ip : IpAddr) (family : Family) (k now : ℕ) (p : FakeIpPool) (s : Space)
    → home ip ≡ some (family, k)
    → space family p ≡ some s
    → (lookup ip now p).0 ≡ (Space.lookup k now s).0
unfolding lookup
lookup-at ip family k now p s at_home here = rw (lookup, at_home, here) refl

contains-at :
    (ip : IpAddr) (family : Family) (k : ℕ) (p : FakeIpPool) (s : Space)
    → home ip ≡ some (family, k)
    → space family p ≡ some s
    → contains ip p ≡ covers s k
unfolding contains
contains-at ip family k p s at_home here = rw (contains, at_home, here) refl

-- A name that the filter lets through, in a family whose space is right, is given an address. The address
-- is in the pool's ranges, a later lookup of it yields the name, and a later allocation for the name gives
-- it again.
pub allocate-lookup :
    (no_space : Family → String) (name : Name) (family : Family) (now later : ℕ) (p : FakeIpPool)
    (s : Space)
    → is_filtered name p ≡ false
    → space family p ≡ some s
    → s.family ≡ family
    → IsValid s
    → (ip : IpAddr) × ((allocate no_space name family now p).0 ≡ ok (address ip))
      × (contains ip (allocate no_space name family now p).1 ≡ true)
      × ((lookup ip later (allocate no_space name family now p).1).0 ≡ some name)
      × ((allocate no_space name family later (allocate no_space name family now p).1).0
          ≡ ok (address ip))
unfolding as_allocation
allocate-lookup no_space name family now later p s pass here same v =
    let given = allocate_lem name now s v in
    let s' = (Space.allocate name now s).1 in
    let k = given.key in
    let p' = with_space family s' p in
    let first : (Space.allocate name now s).0 ≡ ok (addr family k) =
      given.address ∙ (λ i. ok (addr (same i) k)) in
    let inside : k < 2 ^ bits family =
      let high = given.high in
      let fits : s.last < 2 ^ bits family = rw (← same) v.fits in omega arith in
    let at_home = home-addr family k inside in
    let stored = space-with_space family s' p in
    let passes = filtered-with_space family s' p name ∙ pass in
    let again : (Space.allocate name later s').0 ≡ ok (addr family k) =
      again_lem name k later s' given.named ∙ (λ i. ok (addr ((given.same_family ∙ same) i) k)) in
    rw (allocate-at no_space name family now p s pass here) (
      addr family k,
      rw first refl,
      contains-at (addr family k) family k p' s' at_home stored
          ∙ owner-covers s' given.valid k name given.owner,
      lookup-at (addr family k) family k later p' s' at_home stored
          ∙ owner-lookup s' given.valid k name given.owner later,
      rw (allocate-at no_space name family later p' s' passes stored, again) refl,
    )
