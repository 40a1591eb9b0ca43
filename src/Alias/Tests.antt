-- ===== src/Alias/Tests.antt =====
-- Runs of the alias graph over the cache's keys, and its theorems at concrete inputs.
use recurse_x.Prelude.{ℕ, ◌≤◌, ◌≡◌, ◌⊎◌, refl, true, none, some, List, [], ◌∷◌, length}
use recurse_x.Partition.{CacheKey}
use recurse_x.Partition.Equal.{key_eq, key_less, key_eq-eq, key_eq_refl}
use recurse_x.Sets.{has, add}
use recurse_x.Maps.{get, insert, place, replace}
use recurse_x.Name.{bytes_eq}
use recurse_x.Name.Equal.{bytes_less}
use recurse_x.Alias.{
  AliasConfig, AliasGraph, default, new, total, dependents, depends_on, edge_count, closure,
}
use recurse_x.Alias.Runs.{Call, links, run, depends_on-run}
use recurse_x.Alias.Closure.{Reaches, closure_lem}

-- The address records of the names `a`, `b` and so on.
abbrev entry : ℕ → CacheKey
entry letter = record {
  name = record { bytes = 1 ∷ letter ∷ 0 ∷ [] };
  rr_type = record { code = 1 };
  class = record { code = 1 };
  ecs = none;
}

abbrev small : AliasConfig
small = record { max_edges = 2; prune_age_secs = 60 }

-- The third link is over the cap.
abbrev calls : List (Call CacheKey)
calls =
    links (entry 97) (entry 98) 1
    ∷ links (entry 98) (entry 99) 2
    ∷ links (entry 99) (entry 100) 3
    ∷ []

-- The targets of a key all enter, whatever the bound.
abbrev star : List (Call CacheKey)
star =
    links (entry 97) (entry 98) 1
    ∷ links (entry 97) (entry 99) 2
    ∷ links (entry 97) (entry 100) 3
    ∷ []

closure_exceeds :
    closure key_eq key_less (entry 97) 2 (run key_eq key_less star (new default))
    ≡ some (entry 97 ∷ entry 98 ∷ entry 99 ∷ entry 100 ∷ [])
unfolding closure get run has new insert place key_eq bytes_eq add replace key_less bytes_less
closure_exceeds = refl

depends_on-run_example :
    (has key_eq
        (entry 98)
        (depends_on key_eq key_less (entry 97) (run key_eq key_less calls (new small)))
      ≡ has key_eq
          (entry 97)
          (dependents key_eq key_less (entry 98) (run key_eq key_less calls (new small))))
    × (edge_count key_eq key_less (run key_eq key_less calls (new small))
        ≡ total (run key_eq key_less calls (new small)).fwd)
    × (edge_count key_eq key_less (run key_eq key_less calls (new small)) ≤ 2)
depends_on-run_example =
    depends_on-run key_eq key_less key_eq-eq key_eq_refl small calls (entry 97) (entry 98)

abbrev chain : AliasGraph CacheKey
unfolding run
chain = run key_eq key_less calls (new small)

closure_lem_example :
    (result : List CacheKey) × (closure key_eq key_less (entry 97) 8 chain ≡ some result)
    × ((n : CacheKey) → has key_eq n result ≡ true → Reaches key_eq key_less chain (entry 97) n)
    × ((8 ≤ length result)
        ⊎ ((n : CacheKey)
            → Reaches key_eq key_less chain (entry 97) n
            → has key_eq n result ≡ true))
closure_lem_example = closure_lem key_eq key_less key_eq-eq key_eq_refl chain (entry 97) 8
