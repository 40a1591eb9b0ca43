-- ===== src/Partition.antt =====
-- src/cache/mod.rs: the keys of the cache, and the client-subnet partitions that they carry.
pub mod Equal
use recurse_x.Prelude.{
  ℕ, min, ◌||◌, Bool, true, false, Option, none, some, List, ◌==◌, if◌then◌else◌,
}
use recurse_x.Name.{Name}
use recurse_x.Qtype.{RrType, RrClass}
use recurse_x.Edns.Subnet.{Ecs, mask}

pub record EcsKey : Type 0 where
  pub family : ℕ
  pub prefix : ℕ
  pub addr : List ℕ

-- The same steps as the mask of src/edns.rs.
abbrev pub truncate_to : List ℕ → ℕ → List ℕ
truncate_to = mask

unfoldable pub from_ecs : Ecs → Option EcsKey
from_ecs e =
    if (e.family == 0) || (e.source_prefix == 0)
    then none
    else some (record {
      family = e.family;
      prefix = e.source_prefix;
      addr = truncate_to e.address e.source_prefix;
    })

unfoldable pub with_scope : EcsKey → ℕ → Option EcsKey
with_scope k wanted =
    let scope = min wanted k.prefix in
    if scope == 0
    then none
    else some (record { family = k.family; prefix = scope; addr = truncate_to k.addr scope })

unfoldable pub effective_scope : EcsKey → ℕ → ℕ
effective_scope k response_scope = min response_scope k.prefix

unfoldable pub scope_or_zero : Option ℕ → ℕ
scope_or_zero (some scope) = scope
scope_or_zero none = 0

unfoldable pub answer_partition : Option EcsKey → Option ℕ → Option EcsKey
answer_partition none response_scope = none
answer_partition (some k) response_scope =
    with_scope k (effective_scope k (scope_or_zero response_scope))

pub record CacheKey : Type 0 where
  pub name : Name
  pub rr_type : RrType
  pub class : RrClass
  pub ecs : Option EcsKey

unfoldable pub plain : Name → RrType → RrClass → CacheKey
plain name rr_type class = record { name = name; rr_type = rr_type; class = class; ecs = none }

unfoldable pub with_type : CacheKey → RrType → CacheKey
with_type k rr_type = record k { rr_type = rr_type }

unfoldable pub with_ecs : CacheKey → Option EcsKey → CacheKey
with_ecs k ecs = record k { ecs = ecs }

unfoldable pub is_ecs : CacheKey → Bool
is_ecs k = elim k.ecs [ some _ ↦ true | none ↦ false ]
