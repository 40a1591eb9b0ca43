-- ===== src/FakeIp/Reached.antt =====
-- src/fakeip.rs: the calls of the pool keep each of its spaces right.
use Prim.Native.String.{String}
use recurse_x.Prelude.{
  ℕ, ◌+◌, ◌%◌, ◌^◌, ◌≡◌, refl, Bool-cases, none, some, Option-cases, inl, inr, some-eq, List, [],
  ◌∷◌,
}
use recurse_x.Name.{Name}
use recurse_x.Cidr.{IpAddr}
use recurse_x.FakeIp.Space
use recurse_x.FakeIp.Space.{
  Space, Family, bits, new, space_v4, space_v6, ttl_nanos, Entry, key_get, name_get, touch,
}
use recurse_x.FakeIp.Pool
use recurse_x.FakeIp.Pool.{FakeIpPool, address, space, with_space, home, is_filtered, contains}
use recurse_x.FakeIp.Serves.{
  Serves, allocate-Serves, lookup-Serves, restore-Serves, cleanup_expired-Serves, release-Serves,
  clear-Serves,
}

pub record PoolIsValid (p : FakeIpPool) : Type 0 where
  pub each : (family : Family) (s : Space) → space family p ≡ some s → Serves family s

stored :
    (family : Family) (s : Space) (p : FakeIpPool)
    → Serves family s
    → ((g : Family) (t : Space) → space g p ≡ some t → Serves g t)
    → (g : Family) (t : Space) → space g (with_space family s p) ≡ some t
    → Serves g t
unfolding with_space space
stored Family.v4 s p v each Family.v4 t h = let e = some-eq h in rw (← e) v
stored Family.v4 s p v each Family.v6 t h = each Family.v6 t h
stored Family.v6 s p v each Family.v4 t h = each Family.v4 t h
stored Family.v6 s p v each Family.v6 t h = let e = some-eq h in rw (← e) v

with_space-IsValid :
    (family : Family) (s : Space) (p : FakeIpPool)
    → Serves family s
    → PoolIsValid p
    → PoolIsValid (with_space family s p)
with_space-IsValid family s p v w = record { each = stored family s p v w.each }

-- The methods of the pool that take `&mut self`, with their arguments.
pub data PoolCall : Type 0 where
  allocates : Name → Family → ℕ → PoolCall
  looks_up : IpAddr → ℕ → PoolCall
  restores : Name → IpAddr → ℕ → PoolCall
  cleans_up : ℕ → PoolCall
  releases : Name → Family → PoolCall
  clears : PoolCall

unfoldable pub apply : (Family → String) → PoolCall → FakeIpPool → FakeIpPool
unfolding Pool.allocate Pool.lookup Pool.restore Pool.cleanup_expired Pool.release Pool.clear
apply no_space (allocates name family now) p = (Pool.allocate no_space name family now p).1
apply no_space (looks_up ip now) p = (Pool.lookup ip now p).1
apply no_space (restores name ip now) p = (Pool.restore name ip now p).1
apply no_space (cleans_up now) p = (Pool.cleanup_expired now p).1
apply no_space (releases name family) p = (Pool.release name family p).1
apply no_space clears p = Pool.clear p

unfoldable pub run : (Family → String) → List PoolCall → FakeIpPool → FakeIpPool
unfolding apply
run no_space [] p = p
run no_space (call ∷ calls) p = run no_space calls (apply no_space call p)

by_family :
    (p : FakeIpPool)
    → Serves Family.v4 p.v4
    → ((s : Space) → p.v6 ≡ some s → Serves Family.v6 s)
    → (family : Family) (s : Space) → space family p ≡ some s
    → Serves family s
unfolding space
by_family p four six Family.v4 s h = let e = some-eq h in rw (← e) four
by_family p four six Family.v6 s h = six s h

-- A pool is right where the spaces it serves are.
pub both-IsValid :
    (p : FakeIpPool)
    → Serves Family.v4 p.v4
    → ((s : Space) → p.v6 ≡ some s → Serves Family.v6 s)
    → PoolIsValid p
both-IsValid p four six = record { each = by_family p four six }

module _ (p : FakeIpPool) (v : PoolIsValid p) where
  counted : PoolIsValid (record p { filtered_hits = (p.filtered_hits + 1) % 2 ^ 64 })
  unfolding space
  counted =
      both-IsValid (record p { filtered_hits = (p.filtered_hits + 1) % 2 ^ 64 })
        (v.each Family.v4 p.v4 refl) (v.each Family.v6)

  pool_cleanup-IsValid : (now : ℕ) → PoolIsValid (Pool.cleanup_expired now p).1
  unfolding Pool.cleanup_expired space
  pool_cleanup-IsValid now =
      let four = cleanup_expired-Serves Family.v4 now p.v4 (v.each Family.v4 p.v4 refl) in
      elim (Option-cases p.v6) [
        | inl absent ↦
            rw (Pool.cleanup_expired, absent)
              (both-IsValid (record p { v4 = (Space.cleanup_expired now p.v4).1 }) four
                (λ s h. absurd (cc)))
        | inr (t, here) ↦
            let six = cleanup_expired-Serves Family.v6 now t (v.each Family.v6 t here) in
            rw (Pool.cleanup_expired, here)
              (both-IsValid
                (record p {
                  v4 = (Space.cleanup_expired now p.v4).1;
                  v6 = some (Space.cleanup_expired now t).1;
                })
                four (λ s h. let e = some-eq h in rw (← e) six))
      ]

  pool_clear-IsValid : PoolIsValid (Pool.clear p)
  unfolding Pool.clear space
  pool_clear-IsValid =
      let four = clear-Serves Family.v4 p.v4 (v.each Family.v4 p.v4 refl) in
      elim (Option-cases p.v6) [
        | inl absent ↦
            rw (Pool.clear, absent)
              (both-IsValid (record p { v4 = Space.clear p.v4; v6 = none }) four
                (λ s h. absurd (cc)))
        | inr (t, here) ↦
            let six = clear-Serves Family.v6 t (v.each Family.v6 t here) in
            rw (Pool.clear, here)
              (both-IsValid (record p { v4 = Space.clear p.v4; v6 = some (Space.clear t) }) four
                (λ s h. let e = some-eq h in rw (← e) six))
      ]

  allocate-IsValid :
      (no_space : Family → String) (name : Name) (family : Family) (now : ℕ)
      → PoolIsValid (Pool.allocate no_space name family now p).1
  unfolding Pool.allocate
  allocate-IsValid no_space name family now = elim (Bool-cases (is_filtered name p)) [
    | inl out ↦ rw (Pool.allocate, out) counted
    | inr pass ↦ elim (Option-cases (space family p)) [
      | inl absent ↦ rw (Pool.allocate, pass, absent) v
      | inr (s, here) ↦
          rw (Pool.allocate, pass, here)
            (with_space-IsValid family (Space.allocate name now s).1 p
              (allocate-Serves family name now s (v.each family s here)) v)
    ]
  ]

  pool_lookup-IsValid : (ip : IpAddr) (now : ℕ) → PoolIsValid (Pool.lookup ip now p).1
  unfolding Pool.lookup
  pool_lookup-IsValid ip now = elim (Option-cases (home ip)) [
    | inl homeless ↦ rw (Pool.lookup, homeless) v
    | inr ((family, k), at_home) ↦ elim (Option-cases (space family p)) [
      | inl absent ↦ rw (Pool.lookup, at_home, absent) v
      | inr (s, here) ↦
          rw (Pool.lookup, at_home, here)
            (with_space-IsValid family (Space.lookup k now s).1 p
              (lookup-Serves family k now s (v.each family s here)) v)
    ]
  ]

  pool_restore-IsValid :
      (name : Name) (ip : IpAddr) (now : ℕ) → PoolIsValid (Pool.restore name ip now p).1
  unfolding Pool.restore
  pool_restore-IsValid name ip now = elim (Option-cases (home ip)) [
    | inl homeless ↦ rw (Pool.restore, homeless) v
    | inr ((family, k), at_home) ↦ elim (Option-cases (space family p)) [
      | inl absent ↦ rw (Pool.restore, at_home, absent) v
      | inr (s, here) ↦
          rw (Pool.restore, at_home, here)
            (with_space-IsValid family (Space.restore name k now s).1 p
              (restore-Serves family name k now s (v.each family s here)) v)
    ]
  ]

  pool_release-IsValid :
      (name : Name) (family : Family) → PoolIsValid (Pool.release name family p).1
  unfolding Pool.release
  pool_release-IsValid name family = elim (Option-cases (space family p)) [
    | inl absent ↦ rw (Pool.release, absent) v
    | inr (s, here) ↦
        rw (Pool.release, here)
          (with_space-IsValid family (Space.release name s).1 p
            (release-Serves family name s (v.each family s here)) v)
  ]

apply-PoolIsValid :
    (no_space : Family → String) (call : PoolCall) (p : FakeIpPool)
    → PoolIsValid p
    → PoolIsValid (apply no_space call p)
unfolding apply
apply-PoolIsValid no_space (allocates name family now) p v =
    allocate-IsValid p v no_space name family now
apply-PoolIsValid no_space (looks_up ip now) p v = pool_lookup-IsValid p v ip now
apply-PoolIsValid no_space (restores name ip now) p v = pool_restore-IsValid p v name ip now
apply-PoolIsValid no_space (cleans_up now) p v = pool_cleanup-IsValid p v now
apply-PoolIsValid no_space (releases name family) p v = pool_release-IsValid p v name family
apply-PoolIsValid no_space clears p v = pool_clear-IsValid p v

pub run-PoolIsValid :
    (no_space : Family → String) (calls : List PoolCall) (p : FakeIpPool)
    → PoolIsValid p
    → PoolIsValid (run no_space calls p)
unfolding run
run-PoolIsValid no_space [] p v = v
run-PoolIsValid no_space (call ∷ calls) p v =
    run-PoolIsValid no_space calls (apply no_space call p) (apply-PoolIsValid no_space call p v)
