-- ===== src/Cache/Tier.antt =====
-- src/cache/mod.rs: one capacity-bounded tier. The entries are of any type that has a key and a rank, the
-- order-preserving number of its score; the keys are the cache's, with their equality and order.
use recurse_x.Prelude.{
  ℕ, ◌&&◌, ◌||◌, Bool, true, false, not, Option, none, some, List, [], ◌∷◌, ltb, leb, ◌==◌,
  if◌then◌else◌, length,
}
use recurse_x.Maps
use recurse_x.Sets.{add, without}

pub record TierMap (K E : Type 0) : Type 0 where
  pub map : List (K × E)
  pub rank : List (ℕ × K)
  pub capacity : ℕ

unfoldable pub new : {K E : Type 0} → ℕ → TierMap K E
new capacity = record { map = []; rank = []; capacity = capacity }

unfoldable pub len : {K E : Type 0} → TierMap K E → ℕ
len t = length t.map

module _ {K E : Type 0} (key_eq key_less : K → K → Bool) (key_of : E → K) (rank_of : E → ℕ) where
  -- The derived equality and order of `(rank, key)`.
  abbrev pub rank_eq : ℕ × K → ℕ × K → Bool
  rank_eq a b = (a.0 == b.0) && key_eq a.1 b.1

  abbrev pub rank_less : ℕ × K → ℕ × K → Bool
  rank_less a b = ltb a.0 b.0 || ((a.0 == b.0) && key_less a.1 b.1)

  abbrev pub rank_key : E → ℕ × K
  rank_key e = (rank_of e, key_of e)

  -- `while let Some(((rank, key), _)) = self.rank.pop_first()`
  unfoldable pub pop_loop : List (ℕ × K) → List (K × E) → Option E × (List (ℕ × K) × List (K × E))
  pop_loop [] map = (none, ([], map))
  pop_loop (r ∷ rest) map = elim (Maps.get key_eq r.1 map) [
    | none ↦ pop_loop rest map
    | some e ↦ (some e, (rest, Maps.remove key_eq r.1 map))
  ]

  unfoldable pub pop_lowest : TierMap K E → Option E × TierMap K E
  unfolding pop_loop
  pop_lowest t =
      let popped = pop_loop t.rank t.map in
      (popped.0, record t { rank = popped.1.0; map = popped.1.1 })

  unfoldable pub contains_key : K → TierMap K E → Bool
  contains_key key t = elim (Maps.get key_eq key t.map) [ none ↦ false | some e ↦ true ]

  unfoldable pub remove : K → TierMap K E → Option E × TierMap K E
  remove key t = elim (Maps.get key_eq key t.map) [
    | none ↦ (none, t)
    | some e ↦ (
      some e,
      record t {
        map = Maps.remove key_eq key t.map;
        rank = without rank_eq ((rank_of e, key) ∷ []) t.rank;
      },
    )
  ]

  -- A full tier makes room for a new key.
  unfoldable pub make_room : K → TierMap K E → Option E × TierMap K E
  unfolding contains_key pop_lowest
  make_room key t =
      if ltb 0 t.capacity && (not (contains_key key t) && leb t.capacity (length t.map))
      then pop_lowest t
      else (none, t)

  -- `self.rank.insert(..); self.map.insert(key, entry)`
  unfoldable pub store : E → TierMap K E → TierMap K E
  store entry t = record t {
    rank = add rank_eq rank_less (rank_key entry) t.rank;
    map = Maps.insert key_eq key_less (key_of entry) entry t.map;
  }

  unfoldable pub insert : E → TierMap K E → Option E × TierMap K E
  unfolding make_room remove store
  insert entry t =
      let made = make_room (key_of entry) t in
      (made.0, store entry (remove (key_of entry) made.1).1)

  unfoldable pub dead_keys : (K → E → Bool) → List (K × E) → List K
  dead_keys keep [] = []
  dead_keys keep ((k, e) ∷ m) = let rest = dead_keys keep m in if keep k e then rest else k ∷ rest

  unfoldable pub remove_all : List K → TierMap K E → TierMap K E
  unfolding remove
  remove_all [] t = t
  remove_all (key ∷ dead) t = remove_all dead (remove key t).1

  unfoldable pub retain : (K → E → Bool) → TierMap K E → TierMap K E
  unfolding dead_keys remove_all
  retain keep t = remove_all (dead_keys keep t.map) t
