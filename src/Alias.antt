-- ===== src/Alias.antt =====
-- src/alias.rs: which cached answers keep which others servable. Keys are the cache's, with their
-- equality and order; time stamps are not negative.
pub mod Mirror
pub mod Pruned
pub mod Runs
pub mod Closure
mod Tests
use recurse_x.Prelude.{
  ℕ, zero, suc, ◌+◌, ◌-◌, ◌*◌, Bool, true, false, Option, none, some, List, [], ◌∷◌, ◌++◌, ltb, leb,
  ◌==◌, if◌then◌else◌, length, map,
}
use recurse_x.Maps
use recurse_x.Sets.{has, without, add}

pub record AliasConfig : Type 0 where
  pub max_edges : ℕ
  pub prune_age_secs : ℕ

abbrev pub default : AliasConfig
default = record { max_edges = 100000; prune_age_secs = 3600 }

pub record AliasGraph (K : Type 0) : Type 0 where
  pub config : AliasConfig
  pub fwd : List (K × List K)
  pub rev : List (K × List K)
  pub seen : List (K × ℕ)
  pub edges : ℕ

unfoldable pub new : {K : Type 0} → AliasConfig → AliasGraph K
new config = record { config = config; fwd = []; rev = []; seen = []; edges = 0 }

-- `values().map(|s| s.len()).sum()`
unfoldable pub total : {K : Type 0} → List (K × List K) → ℕ
total [] = 0
total ((k, s) ∷ m) = length s + total m

module _ {K : Type 0} (key_eq before : K → K → Bool) where
  -- `get(key).map(..).unwrap_or_default()`
  unfoldable pub members : K → List (K × List K) → List K
  members key m = elim (Maps.get key_eq key m) [ none ↦ [] | some s ↦ s ]

  -- `entry(from).or_default().insert(to)`
  unfoldable pub insert_edge : K → K → List (K × List K) → List (K × List K)
  unfolding members
  insert_edge from to m = Maps.insert key_eq before from (add key_eq before to (members from m)) m

  unfoldable pub link : K → K → ℕ → AliasGraph K → AliasGraph K
  unfolding insert_edge
  link alias target now g =
      let marked = record g {
        seen = Maps.insert key_eq before target now (Maps.insert key_eq before alias now g.seen);
      } in
      if has key_eq target (members alias g.fwd)
      then marked
      else if leb g.config.max_edges g.edges
      then marked
      else record marked {
        fwd = insert_edge alias target g.fwd;
        rev = insert_edge target alias g.rev;
        edges = g.edges + 1;
      }

  unfoldable pub dependents : K → AliasGraph K → List K
  unfolding members
  dependents key g = members key g.rev

  unfoldable pub depends_on : K → AliasGraph K → List K
  unfolding members
  depends_on key g = members key g.fwd

  -- `filter(|(_, t)| **t < cutoff).map(|(k, _)| k.clone())`
  unfoldable pub dead_keys : ℕ → List (K × ℕ) → List K
  dead_keys cutoff [] = []
  dead_keys cutoff ((k, t) ∷ m) =
      let rest = dead_keys cutoff m in if ltb t cutoff then k ∷ rest else rest

  unfoldable pub remove_all : List K → List (K × ℕ) → List (K × ℕ)
  remove_all [] m = m
  remove_all (k ∷ dead) m = remove_all dead (Maps.remove key_eq k m)

  -- The pass over one map: dead keys go, dead elements go from the other sets, empty sets go.
  unfoldable pub keep_alive : List K → List (K × List K) → List (K × List K)
  keep_alive dead [] = []
  keep_alive dead ((k, s) ∷ m) =
      let rest = keep_alive dead m in
      if has key_eq k dead
      then rest
      else elim (without key_eq dead s) [ [] ↦ rest | x ∷ xs ↦ (k, x ∷ xs) ∷ rest ]

  unfoldable pub prune : ℕ → ℕ → AliasGraph K → AliasGraph K
  unfolding dead_keys remove_all keep_alive
  prune now min_age_secs g =
      let age = if min_age_secs == 0 then g.config.prune_age_secs else min_age_secs in
      let dead = dead_keys (now - age * 1000000000) g.seen in
      elim dead [
        | [] ↦ g
        | k ∷ ks ↦ record g {
          seen = remove_all (k ∷ ks) g.seen;
          fwd = keep_alive (k ∷ ks) g.fwd;
          rev = keep_alive (k ∷ ks) g.rev;
          edges = total (keep_alive (k ∷ ks) g.fwd);
        }
      ]

  unfoldable pub edge_count : AliasGraph K → ℕ
  edge_count g = g.edges

  unfoldable pub collect : List K → List K
  collect [] = []
  collect (k ∷ ks) = add key_eq before k (collect ks)

  unfoldable pub key_count : AliasGraph K → ℕ
  unfolding collect
  key_count g = length (collect (map (λ e. e.0) g.fwd ++ map (λ e. e.0) g.rev))

  -- `if seen.insert(next.clone()) { queue.push_back(next) }` for each of the targets.
  unfoldable pub enqueue : List K → List K × List K → List K × List K
  enqueue [] (seen, queue) = (seen, queue)
  enqueue (next ∷ more) (seen, queue) = enqueue more (
      if has key_eq next seen
      then (seen, queue)
      else (add key_eq before next seen, queue ++ next ∷ []))

  -- The loop of `closure`, `none` out of fuel.
  unfoldable pub closure_loop : ℕ → AliasGraph K → ℕ → List K → List K → Option (List K)
  unfolding enqueue depends_on
  closure_loop zero g max seen queue = none
  closure_loop (suc fuel) g max seen [] = some seen
  closure_loop (suc fuel) g max seen (cur ∷ queue) =
      let next = enqueue (depends_on cur g) (seen, queue) in
      let rest = closure_loop fuel g max next.0 next.1 in
      if leb max (length seen) then some seen else rest

  -- Every turn takes a key from the queue, which was new in `seen` once, and the loop ends where `seen` has
  -- `max` keys.
  unfoldable pub closure : K → ℕ → AliasGraph K → Option (List K)
  unfolding closure_loop
  closure key max g = closure_loop (max + 1) g max (key ∷ []) (key ∷ [])
