-- ===== src/Partition/Equal.antt =====
-- src/cache/mod.rs: the derived equality and order of the cache's keys.
use recurse_x.Prelude.{
  ◌≡◌, refl, Bool, true, false, ◌&&◌, ◌||◌, Option, none, some, ltb, ◌==◌, arith,
}
use recurse_x.Name.{name_eq, bytes_eq}
use recurse_x.Name.Equal.{
  name_eq-eq, name_eq_refl, bytes_eq-eq, bytes_eq_refl, name_less, bytes_less,
}
use recurse_x.Partition.{EcsKey, CacheKey}

unfoldable pub ecs_eq : EcsKey → EcsKey → Bool
ecs_eq a b = (a.family == b.family) && ((a.prefix == b.prefix) && bytes_eq a.addr b.addr)

unfoldable pub partition_eq : Option EcsKey → Option EcsKey → Bool
unfolding ecs_eq
partition_eq none none = true
partition_eq none (some b) = false
partition_eq (some a) none = false
partition_eq (some a) (some b) = ecs_eq a b

unfoldable pub key_eq : CacheKey → CacheKey → Bool
unfolding partition_eq
key_eq a b =
    name_eq a.name b.name
    && ((a.rr_type.code == b.rr_type.code)
        && ((a.class.code == b.class.code) && partition_eq a.ecs b.ecs))

unfoldable pub ecs_less : EcsKey → EcsKey → Bool
ecs_less a b =
    ltb a.family b.family
    || ((a.family == b.family)
        && (ltb a.prefix b.prefix || ((a.prefix == b.prefix) && bytes_less a.addr b.addr)))

unfoldable pub partition_less : Option EcsKey → Option EcsKey → Bool
unfolding ecs_less
partition_less none none = false
partition_less none (some b) = true
partition_less (some a) none = false
partition_less (some a) (some b) = ecs_less a b

unfoldable pub key_less : CacheKey → CacheKey → Bool
unfolding partition_less
key_less a b =
    name_less a.name b.name
    || (name_eq a.name b.name
        && (ltb a.rr_type.code b.rr_type.code
            || ((a.rr_type.code == b.rr_type.code)
                && (ltb a.class.code b.class.code
                    || ((a.class.code == b.class.code) && partition_less a.ecs b.ecs)))))

both : (p q : Bool) → (p && q) ≡ true → (p ≡ true) × (q ≡ true)
both true q h = (refl, h)
both false q h = absurd (cc)

ecs_eq-eq : (a b : EcsKey) → ecs_eq a b ≡ true → a ≡ b
unfolding ecs_eq
ecs_eq-eq a b h =
    let (family, rest) =
      both (a.family == b.family) ((a.prefix == b.prefix) && bytes_eq a.addr b.addr) h in
    let (prefix, addr) = both (a.prefix == b.prefix) (bytes_eq a.addr b.addr) rest in
    let f : a.family ≡ b.family = ground arith in
    let p : a.prefix ≡ b.prefix = ground arith in
    let d = bytes_eq-eq a.addr b.addr addr in λ i. record { family = f i; prefix = p i; addr = d i }

partition_eq-eq : (a b : Option EcsKey) → partition_eq a b ≡ true → a ≡ b
unfolding partition_eq
partition_eq-eq none none h = refl
partition_eq-eq none (some b) h = absurd (cc)
partition_eq-eq (some a) none h = absurd (cc)
partition_eq-eq (some a) (some b) h = let e = ecs_eq-eq a b h in λ i. some (e i)

partition_eq_refl : (a : Option EcsKey) → partition_eq a a ≡ true
unfolding partition_eq ecs_eq
partition_eq_refl none = refl
partition_eq_refl (some a) = let d = bytes_eq_refl a.addr in ground arith

pub key_eq-eq : (a b : CacheKey) → key_eq a b ≡ true → a ≡ b
unfolding key_eq
key_eq-eq a b h =
    let types = (a.rr_type.code == b.rr_type.code) in
    let classes = (a.class.code == b.class.code) in
    let parts = partition_eq a.ecs b.ecs in
    let (name, more) = both (name_eq a.name b.name) (types && (classes && parts)) h in
    let (type_, rest) = both types (classes && parts) more in
    let (class, ecs) = both classes parts rest in
    let n = name_eq-eq a.name b.name name in
    let t : a.rr_type.code ≡ b.rr_type.code = ground arith in
    let c : a.class.code ≡ b.class.code = ground arith in
    let e = partition_eq-eq a.ecs b.ecs ecs in
    λ i. record {
      name = n i;
      rr_type = record { code = t i };
      class = record { code = c i };
      ecs = e i;
    }

pub key_eq_refl : (a : CacheKey) → key_eq a a ≡ true
unfolding key_eq
key_eq_refl a =
    let n = name_eq_refl a.name in let p = partition_eq_refl a.ecs in rw (n, p) (ground arith)
