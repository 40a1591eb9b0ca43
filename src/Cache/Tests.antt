-- ===== src/Cache/Tests.antt =====
-- Runs of a tier over the cache's keys, and its theorem at a concrete input.
use recurse_x.Prelude.{
  ℕ, ◌≤◌, ◌<◌, ◌≡◌, refl, Option, none, some, [], ◌∷◌, if◌then◌else◌, length, arith,
}
use recurse_x.Name.{bytes_eq}
use recurse_x.Maps.{get}
use recurse_x.Maps
use recurse_x.Partition.{CacheKey}
use recurse_x.Partition.Equal.{key_eq, key_less, key_eq-eq, key_eq_refl}
use recurse_x.Cache.Tier.{TierMap, new, insert}
use recurse_x.Cache.Keeps.{IsValid, new-IsValid}
use recurse_x.Cache.Inserts.{spared, Lowest, insert_lem}

-- The address records of the names `a`, `b` and so on.
abbrev key : ℕ → CacheKey
key letter = record {
  name = record { bytes = 1 ∷ letter ∷ 0 ∷ [] };
  rr_type = record { code = 1 };
  class = record { code = 1 };
  ecs = none;
}

-- An entry by its key and its rank.
abbrev Item : Type 0
Item = CacheKey × ℕ

abbrev item_key : Item → CacheKey
item_key e = e.0

abbrev item_rank : Item → ℕ
item_rank e = e.1

-- Two entries in a tier for two.
abbrev full : TierMap CacheKey Item
full = record {
  map = (key 97, (key 97, 5)) ∷ (key 98, (key 98, 3)) ∷ [];
  rank = (3, key 98) ∷ (5, key 97) ∷ [];
  capacity = 2;
}

abbrev put : Item → TierMap CacheKey Item → Option Item × TierMap CacheKey Item
put = insert key_eq key_less item_key item_rank

-- The entry of the lowest rank goes.
victim : (put (key 99, 4) full).0 ≡ some (key 98, 3)
unfolding insert get key_eq bytes_eq
victim = refl

-- A tier for one entry, which holds one.
abbrev one : TierMap CacheKey Item
one = (put (key 97, 5) (new 1)).1

one-IsValid : IsValid key_eq key_less item_key item_rank one
unfolding new
one-IsValid =
    (insert_lem key_eq key_less item_key item_rank key_eq-eq key_eq_refl (key 97, 5) (new 1)
      (new-IsValid key_eq key_less item_key item_rank key_eq-eq key_eq_refl 1) (omega arith)
      (omega arith)).0

bounds : (0 < one.capacity) × (length one.map ≤ one.capacity)
unfolding new insert get Maps.insert Maps.place
bounds = (omega arith, omega arith)

insert_lem_example :
    IsValid key_eq key_less item_key item_rank (put (key 99, 4) one).1
    × (length (put (key 99, 4) one).1.map ≤ one.capacity)
    × ((j : CacheKey)
        → get key_eq j (put (key 99, 4) one).1.map ≡ (
            if key_eq j (key 99)
            then some (key 99, 4)
            else spared key_eq key_less item_key item_rank
                (put (key 99, 4) one).0
                j
                (get key_eq j one.map)))
    × Lowest key_eq key_less item_key item_rank (put (key 99, 4) one).0 one
insert_lem_example =
    insert_lem key_eq key_less item_key item_rank key_eq-eq key_eq_refl (key 99, 4) one one-IsValid
      bounds.0 bounds.1
