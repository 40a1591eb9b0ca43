-- ===== src/Bounded.antt =====
-- src/bounded.rs: making room in a map that is at its capacity. A map is the list of its entries in
-- the order of their keys; `key_eq` is the equality of keys and `less` the order of time stamps.
pub mod Counts
pub mod Oldest
pub mod Frees
pub mod Evicts
mod Tests
use recurse_x.Prelude.{
  ℕ, ◌+◌, ◌-◌, ◌%◌, max, Bool, not, List, [], ◌∷◌, ltb, ◌==◌, if◌then◌else◌, length,
}

module _ {ℓ} {K V T : Type ℓ} (key_eq : K → K → Bool) (less : T → T → Bool) (stamp : V → T) where
  -- `map.retain(|_, v| stamp(v) >= stale_before)`
  unfoldable pub retain_fresh : T → List (K × V) → List (K × V)
  retain_fresh stale_before [] = []
  retain_fresh stale_before ((k, v) ∷ m) =
      let rest = retain_fresh stale_before m in
      if less (stamp v) stale_before then rest else (k, v) ∷ rest

  -- `map.retain(|_, _| { idx += 1; idx % stride != 0 })`
  unfoldable pub sweep : ℕ → ℕ → List (K × V) → List (K × V)
  sweep stride idx [] = []
  sweep stride idx (e ∷ m) =
      let rest = sweep stride (idx + 1) m in if (idx + 1) % stride == 0 then rest else e ∷ rest

  -- `min_by_key` over the entries behind the first: of equal stamps the earlier entry stays.
  unfoldable pub oldest : K × V → List (K × V) → K × V
  oldest best [] = best
  oldest best (e ∷ m) = oldest (if less (stamp e.1) (stamp best.1) then e else best) m

  unfoldable pub remove : K → List (K × V) → List (K × V)
  remove k [] = []
  remove k (e ∷ m) = let rest = remove k m in if key_eq k e.0 then m else e ∷ rest

  -- The last resort: the single oldest entry goes.
  unfoldable pub drop_oldest : List (K × V) → List (K × V)
  unfolding oldest remove
  drop_oldest [] = []
  drop_oldest (e ∷ m) = remove (oldest e m).0 (e ∷ m)

  -- The map afterwards and the number of entries that went.
  unfoldable pub evict_for_capacity : T → ℕ → List (K × V) → List (K × V) × ℕ
  unfolding retain_fresh sweep drop_oldest
  evict_for_capacity stale_before stride [] = ([], 0)
  evict_for_capacity stale_before stride (e ∷ m) =
      let before = length (e ∷ m) in
      let fresh = retain_fresh stale_before (e ∷ m) in
      if ltb (length fresh) before
      then (fresh, before - length fresh)
      else (let swept = sweep (max stride 2) 0 fresh in
          if ltb (length swept) before
          then (swept, before - length swept)
          else (let left = drop_oldest swept in (left, before - length left)))
