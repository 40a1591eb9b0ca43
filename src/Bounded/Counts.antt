-- ===== src/Bounded/Counts.antt =====
-- src/bounded.rs: how many entries an eviction drops.
use recurse_x.Prelude.{
  ℕ, ◌+◌, ◌≤◌, ◌<◌, ◌≡◌, ◌⊎◌, max, Bool, true, false, List, [], ◌∷◌, ltb, if◌then◌else◌, length,
  arith, Bool-cases, inl, inr,
}
use recurse_x.Bounded.{retain_fresh, sweep, oldest, remove, drop_oldest, evict_for_capacity}
use recurse_x.Bounded.Evicts.{picked}

module _ {ℓ} {K V T : Type ℓ} (key_eq : K → K → Bool) (less : T → T → Bool) (stamp : V → T) where
  length-retain_fresh-le :
      (t : T) (m : List (K × V)) → length (retain_fresh key_eq less stamp t m) ≤ length m
  unfolding retain_fresh
  length-retain_fresh-le t [] = omega arith
  length-retain_fresh-le t (e ∷ m) = ground (arith, length-retain_fresh-le t m)

  length-sweep-le :
      (stride idx : ℕ) (m : List (K × V)) → length (sweep key_eq less stamp stride idx m) ≤ length m
  unfolding sweep
  length-sweep-le stride idx [] = omega arith
  length-sweep-le stride idx (e ∷ m) = ground (arith, length-sweep-le stride (idx + 1) m)

  has_key : K → List (K × V) → Bool
  has_key k [] = false
  has_key k (e ∷ m) = if key_eq k e.0 then true else has_key k m

  length-remove :
      (k : K) (m : List (K × V))
      → has_key k m ≡ true
      → length (remove key_eq less stamp k m) + 1 ≡ length m
  unfolding remove has_key
  length-remove k [] h = cc
  length-remove k (e ∷ m) h = elim (Bool-cases (key_eq k e.0)) [
    | inl same ↦ rw same (omega arith)
    | inr other ↦ rw other (omega (arith, length-remove k m (rw other at h)))
  ]

  has_key-either :
      (k : K) (best e pick : K × V) (m : List (K × V))
      → (pick ≡ e) ⊎ (pick ≡ best)
      → has_key k (pick ∷ m) ≡ true
      → has_key k (best ∷ e ∷ m) ≡ true
  unfolding has_key
  has_key-either k best e pick m (inl p) h = let h' = rw p at h in ground arith
  has_key-either k best e pick m (inr p) h = let h' = rw p at h in ground arith

  has_key-oldest :
      ((k : K) → key_eq k k ≡ true)
      → (best : K × V) (m : List (K × V))
      → has_key (oldest key_eq less stamp best m).0 (best ∷ m) ≡ true
  unfolding oldest has_key
  has_key-oldest key_refl best [] = rw (key_refl best.0)
  has_key-oldest key_refl best (e ∷ m) =
      let older = less (stamp e.1) (stamp best.1) in
      let pick = if older then e else best in
      has_key-either (oldest key_eq less stamp pick m).0 best e pick m (picked older e best)
        (has_key-oldest key_refl pick m)

  length-drop_oldest :
      ((k : K) → key_eq k k ≡ true)
      → (m : List (K × V)) → 0 < length m
      → length (drop_oldest key_eq less stamp m) + 1 ≡ length m
  unfolding drop_oldest
  length-drop_oldest key_refl [] h = absurd (omega arith)
  length-drop_oldest key_refl (e ∷ m) h =
      length-remove (oldest key_eq less stamp e m).0 (e ∷ m) (has_key-oldest key_refl e m)

  -- An eviction from a map with entries drops one at least, and returns how many it dropped.
  pub evict_for_capacity-counts :
      ((k : K) → key_eq k k ≡ true)
      → (stale_before : T) (stride : ℕ) (m : List (K × V)) → 0 < length m
      → (0 < (evict_for_capacity key_eq less stamp stale_before stride m).1)
        × ((evict_for_capacity key_eq less stamp stale_before stride m).1
              + length (evict_for_capacity key_eq less stamp stale_before stride m).0
            ≡ length m)
  unfolding evict_for_capacity
  evict_for_capacity-counts key_refl t stride [] h = absurd (omega arith)
  evict_for_capacity-counts key_refl t stride (e ∷ m) h =
      let fresh = retain_fresh key_eq less stamp t (e ∷ m) in
      let swept = sweep key_eq less stamp (max stride 2) 0 fresh in
      let few = length-retain_fresh-le t (e ∷ m) in
      let fewer = length-sweep-le (max stride 2) 0 fresh in
      elim (Bool-cases (ltb (length fresh) (length (e ∷ m)))) [
        | inl stale ↦ rw stale (ground arith, ground arith)
        | inr none_stale ↦ elim (Bool-cases (ltb (length swept) (length (e ∷ m)))) [
          | inl spaced ↦ rw (none_stale, spaced) (ground arith, ground arith)
          | inr none_spaced ↦
              let one = length-drop_oldest key_refl swept (ground arith) in
              rw (none_stale, none_spaced) (ground arith, ground arith)
        ]
      ]
