-- ===== src/Bounded/Frees.antt =====
-- src/bounded.rs: an eviction makes room, and which entries it drops.
use native.Mathlib.Nat.{mod-eq_of_lt}
use recurse_x.Prelude.{
  ℕ, ◌+◌, ◌≤◌, ◌<◌, ◌≡◌, max, Bool, true, false, List, [], ◌∷◌, ltb, length, All, arith, Bool-cases,
  inl, inr,
}
use recurse_x.Maps.{Distinct}
use recurse_x.Bounded.{retain_fresh, sweep, evict_for_capacity}
use recurse_x.Bounded.Evicts.{
  Sift, Swept, Without, Sift-full, Swept-full, Swept-fewer, retain_fresh-Sift, sweep-Swept,
}
use recurse_x.Bounded.Counts.{evict_for_capacity-counts}
use recurse_x.Bounded.Oldest.{NoneOlder, drop_oldest-least}

-- What an eviction leaves of a map. Some entries were stale and exactly these went; or none was, and
-- every `stride`th entry went, 2 at least, of a map with so many; or none was and the map has fewer
-- entries than the stride, and one went that no entry is older than.
pub data Evicted {ℓ} {K V T : Type ℓ} (less : T → T → Bool) (stamp : V → T) (stale_before : T)
    (stride : ℕ) (m r : List (K × V)) : Type ℓ where
  stale_gone :
      length r < length m
      → Sift (λ e. less (stamp e.1) stale_before) m r
      → Evicted less stamp stale_before stride m r
  thinned :
      All (λ e. less (stamp e.1) stale_before ≡ false) m
      → max stride 2 ≤ length m
      → Swept (max stride 2) 0 m r
      → Evicted less stamp stale_before stride m r
  oldest_gone :
      All (λ e. less (stamp e.1) stale_before ≡ false) m
      → length m < max stride 2
      → (e : K × V) → Without e m r
      → NoneOlder less stamp e m
      → Evicted less stamp stale_before stride m r

module _ {ℓ} {K V T : Type ℓ} (key_eq : K → K → Bool) (less : T → T → Bool) (stamp : V → T)
    (key_refl : (k : K) → key_eq k k ≡ true) (key_sound : (a b : K) → key_eq a b ≡ true → a ≡ b)
    (less_asym : (a b : T) → less a b ≡ true → less b a ≡ false)
    (less_apart : (a b c : T) → less a b ≡ false → less b c ≡ false → less a c ≡ false) where
  evict_for_capacity-Evicted :
      (stale_before : T) (stride : ℕ) (first : K × V) (m : List (K × V))
      → Distinct key_eq (first ∷ m)
      → Evicted less stamp stale_before stride
          (first ∷ m)
          (evict_for_capacity key_eq less stamp stale_before stride (first ∷ m)).0
  unfolding evict_for_capacity
  evict_for_capacity-Evicted t stride first m d =
      let fresh = retain_fresh key_eq less stamp t (first ∷ m) in
      let n = max stride 2 in
      let sift = retain_fresh-Sift key_eq less stamp t (first ∷ m) in
      elim (Bool-cases (ltb (length fresh) (length (first ∷ m)))) [
        | inl some_stale ↦ rw some_stale (stale_gone (ground arith) sift)
        | inr none_stale ↦
            let (all, same) = Sift-full sift (ground arith) in
            let swept = sweep key_eq less stamp n 0 (first ∷ m) in
            let thin =
              sweep-Swept key_eq less stamp n 0 0 (first ∷ m) (mod-eq_of_lt (omega arith))
                (omega arith) in
            let (e, gone, least) =
              drop_oldest-least key_eq less stamp less_asym less_apart key_refl key_sound first m
                d in
            elim (Bool-cases (ltb (length swept) (length (first ∷ m)))) [
              | inl some_swept ↦
                  let enough = Swept-fewer thin (ground arith) in
                  rw (none_stale, same, some_swept) (thinned all (omega arith) thin)
              | inr none_swept ↦
                  let (unswept, few) = Swept-full thin (ground arith) (omega arith) in
                  rw (none_stale, same, none_swept, unswept)
                    (oldest_gone all (omega arith) e gone least)
            ]
      ]

  -- An eviction from a map with entries, its keys distinct, the equality of keys sound and reflexive
  -- and the order of stamps a strict weak order, drops one entry at least and returns how many it
  -- dropped. It drops exactly the stale entries where there are some; else every `stride`th entry (2
  -- at least) where there are so many; else one entry whose stamp is least.
  pub evict_for_capacity-frees :
      (stale_before : T) (stride : ℕ) (m : List (K × V))
      → Distinct key_eq m
      → 0 < length m
      → (0 < (evict_for_capacity key_eq less stamp stale_before stride m).1)
        × ((evict_for_capacity key_eq less stamp stale_before stride m).1
              + length (evict_for_capacity key_eq less stamp stale_before stride m).0
            ≡ length m)
        × Evicted less stamp stale_before stride m
            (evict_for_capacity key_eq less stamp stale_before stride m).0
  evict_for_capacity-frees t stride [] d h = absurd (omega arith)
  evict_for_capacity-frees t stride (first ∷ m) d h =
      let (some_gone, total) =
        evict_for_capacity-counts key_eq less stamp key_refl t stride (first ∷ m) h in
      (some_gone, total, evict_for_capacity-Evicted t stride first m d)
