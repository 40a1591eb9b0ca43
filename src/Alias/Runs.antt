-- ===== src/Alias/Runs.antt =====
-- src/alias.rs: the graphs that links and prunes lead to.
use recurse_x.Prelude.{ℕ, ◌≤◌, ◌≡◌, refl, ap, ◌∙◌, Bool, true, List, [], ◌∷◌, arith}
use recurse_x.Maps.{get}
use recurse_x.Sets.{has}
use recurse_x.Alias.{
  AliasConfig, AliasGraph, new, total, members, link, prune, dependents, depends_on, edge_count,
}
use recurse_x.Alias.Mirror.{IsValid, link-IsValid}
use recurse_x.Alias.Pruned.{prune-IsValid, link-config, prune-config}

-- The methods that take `&mut self`, with their arguments.
pub data Call (K : Type 0) : Type 0 where
  links : K → K → ℕ → Call K
  prunes : ℕ → ℕ → Call K

module _ {K : Type 0} (key_eq before : K → K → Bool) where
  unfoldable pub run : List (Call K) → AliasGraph K → AliasGraph K
  unfolding link prune
  run [] g = g
  run (links alias target now ∷ calls) g = run calls (link key_eq before alias target now g)
  run (prunes now min_age_secs ∷ calls) g = run calls (prune key_eq before now min_age_secs g)

  module _ (sound : (a b : K) → key_eq a b ≡ true → a ≡ b)
      (self : (a : K) → key_eq a a ≡ true) where
    new-IsValid : (config : AliasConfig) → IsValid key_eq before sound self (new config)
    unfolding new members get total has
    new-IsValid config = record {
      fwd_once = tt;
      rev_once = tt;
      mirror = λ a t. refl;
      counted = refl;
      capped = omega arith;
    }

    run-IsValid :
        (calls : List (Call K)) (g : AliasGraph K)
        → IsValid key_eq before sound self g
        → IsValid key_eq before sound self (run calls g)
    unfolding run
    run-IsValid [] g v = v
    run-IsValid (links alias target now ∷ calls) g v =
        run-IsValid calls (link key_eq before alias target now g)
          (link-IsValid key_eq before sound self alias target now g v)
    run-IsValid (prunes now min_age_secs ∷ calls) g v =
        run-IsValid calls (prune key_eq before now min_age_secs g)
          (prune-IsValid key_eq before sound self now min_age_secs g v)

    run-config : (calls : List (Call K)) (g : AliasGraph K) → (run calls g).config ≡ g.config
    unfolding run
    run-config [] g = refl
    run-config (links alias target now ∷ calls) g =
        run-config calls (link key_eq before alias target now g)
        ∙ link-config key_eq before sound self alias target now g
    run-config (prunes now min_age_secs ∷ calls) g =
        run-config calls (prune key_eq before now min_age_secs g)
        ∙ prune-config key_eq before sound self now min_age_secs g

    -- After any links and prunes on a new graph, one key depends on another exactly where the other has it
    -- among its dependents; the edge count is the number of edges recorded, and at most the configured cap.
    pub depends_on-run :
        (config : AliasConfig) (calls : List (Call K)) (alias target : K)
        → (has key_eq target (depends_on key_eq before alias (run calls (new config)))
            ≡ has key_eq alias (dependents key_eq before target (run calls (new config))))
          × (edge_count key_eq before (run calls (new config)) ≡ total (run calls (new config)).fwd)
          × (edge_count key_eq before (run calls (new config)) ≤ config.max_edges)
    unfolding depends_on dependents edge_count new
    depends_on-run config calls alias target =
        let v = run-IsValid calls (new config) (new-IsValid config) in
        let same = ap (λ (c : AliasConfig). c.max_edges) (run-config calls (new config)) in
        let capped = v.capped in (v.mirror alias target, v.counted, omega arith)
