-- ===== src/Maps/Sub.antt =====
-- Sublists of a map's entries: what a sweep leaves.
use recurse_x.Prelude.{
  ℕ, ◌+◌, ◌%◌, ◌≤◌, ◌≡◌, refl, ap, Bool, true, false, Bool-cases, inl, inr, none, some, List, [],
  ◌∷◌, if◌then◌else◌, length, ltb, ◌==◌, max, arith,
}
use recurse_x.Maps.{get, remove, Distinct}
use recurse_x.Bounded
use recurse_x.Bounded.{retain_fresh, sweep, oldest, drop_oldest, evict_for_capacity}

module _ {ℓ} {A : Type ℓ} where
  pub data Sub : List A → List A → Type ℓ where
    done : Sub [] []
    keep : (x : A) {xs ys : List A} → Sub xs ys → Sub (x ∷ xs) (x ∷ ys)
    skip : (x : A) {xs ys : List A} → Sub xs ys → Sub xs (x ∷ ys)

  pub Sub_refl : (xs : List A) → Sub xs xs
  Sub_refl [] = done
  Sub_refl (x ∷ xs) = keep x (Sub_refl xs)

  pub Sub_trans : {ys zs : List A} → Sub ys zs → {xs : List A} → Sub xs ys → Sub xs zs
  Sub_trans done p = p
  Sub_trans (keep y q) (keep x p) = keep y (Sub_trans q p)
  Sub_trans (keep y q) (skip x p) = skip y (Sub_trans q p)
  Sub_trans (skip y q) p = skip y (Sub_trans q p)

  pub Sub-length : {xs ys : List A} → Sub xs ys → length xs ≤ length ys
  Sub-length done = omega arith
  Sub-length (keep x p) = omega (arith, Sub-length p)
  Sub-length (skip x p) = omega (arith, Sub-length p)

  -- A sublist with all the elements.
  pub Sub-full : {xs ys : List A} → Sub xs ys → length ys ≤ length xs → xs ≡ ys
  Sub-full done h = refl
  Sub-full (keep x p) h = ap (◌∷◌ x) (Sub-full p (omega arith))
  Sub-full (skip x p) h = absurd (omega (arith, Sub-length p))

  pub Sub-either :
      (b : Bool) (x : A) (xs ys : List A) → Sub xs ys → Sub (if b then xs else x ∷ xs) (x ∷ ys)
  Sub-either true x xs ys p = skip x p
  Sub-either false x xs ys p = keep x p

module _ {ℓ} {K V : Type ℓ} (key_eq : K → K → Bool) where
  -- What is absent stays absent, and what a sublist holds was there.
  pub get_sub-none :
      (k : K) {m n : List (K × V)} → Sub m n → get key_eq k n ≡ none → get key_eq k m ≡ none
  unfolding get
  get_sub-none k done h = h
  get_sub-none k (keep (j, v) p) h = elim (Bool-cases (key_eq k j)) [
    | inl same ↦ let h' = rw same at h in cc
    | inr other ↦ rw other (get_sub-none k p (rw other at h))
  ]
  get_sub-none k (skip (j, v) p) h = elim (Bool-cases (key_eq k j)) [
    | inl same ↦ let h' = rw same at h in cc
    | inr other ↦ get_sub-none k p (rw other at h)
  ]

  pub Sub-Distinct : {m n : List (K × V)} → Sub m n → Distinct key_eq n → Distinct key_eq m
  Sub-Distinct done d = d
  Sub-Distinct (keep (j, v) p) (fresh, d) = (get_sub-none j p fresh, Sub-Distinct p d)
  Sub-Distinct (skip (j, v) p) (fresh, d) = Sub-Distinct p d

  pub remove-Sub : (k : K) (m : List (K × V)) → Sub (remove key_eq k m) m
  unfolding remove
  remove-Sub k [] = done
  remove-Sub k ((j, v) ∷ m) = Sub-either (key_eq k j) (j, v) (remove key_eq k m) m (remove-Sub k m)

module _ {ℓ} {K V : Type ℓ} (key_eq : K → K → Bool)
    (sound : (a b : K) → key_eq a b ≡ true → a ≡ b) where
  pub get_sub-some :
      (k : K) (v : V) {m n : List (K × V)}
      → Sub m n
      → Distinct key_eq n
      → get key_eq k m ≡ some v
      → get key_eq k n ≡ some v
  unfolding get
  get_sub-some k v done d h = h
  get_sub-some k v (keep (j, w) p) (fresh, d) h = elim (Bool-cases (key_eq k j)) [
    | inl same ↦ rw same (rw same at h)
    | inr other ↦ rw other (get_sub-some k v p d (rw other at h))
  ]
  get_sub-some k v (skip (j, w) {xs} p) (fresh, d) h = elim (Bool-cases (key_eq k j)) [
    | inl same ↦
        let gone : get key_eq k xs ≡ none = rw (sound k j same) (get_sub-none key_eq j p fresh) in
        cc
    | inr other ↦ rw other (get_sub-some k v p d h)
  ]

module _ {ℓ} {K V T : Type ℓ} (key_eq : K → K → Bool) (less : T → T → Bool) (stamp : V → T) where
  pub retain_fresh-Sub : (t : T) (m : List (K × V)) → Sub (retain_fresh key_eq less stamp t m) m
  unfolding retain_fresh
  retain_fresh-Sub t [] = done
  retain_fresh-Sub t ((k, v) ∷ m) =
      Sub-either (less (stamp v) t) (k, v) (retain_fresh key_eq less stamp t m) m
        (retain_fresh-Sub t m)

  pub sweep-Sub : (stride idx : ℕ) (m : List (K × V)) → Sub (sweep key_eq less stamp stride idx m) m
  unfolding sweep
  sweep-Sub stride idx [] = done
  sweep-Sub stride idx (e ∷ m) =
      Sub-either ((idx + 1) % stride == 0) e (sweep key_eq less stamp stride (idx + 1) m) m
        (sweep-Sub stride (idx + 1) m)

  first_removed-Sub : (k : K) (m : List (K × V)) → Sub (Bounded.remove key_eq less stamp k m) m
  unfolding Bounded.remove
  first_removed-Sub k [] = done
  first_removed-Sub k (e ∷ m) = elim (Bool-cases (key_eq k e.0)) [
    | inl same ↦ rw same (skip e (Sub_refl m))
    | inr other ↦ rw other (keep e (first_removed-Sub k m))
  ]

  drop_oldest-Sub : (m : List (K × V)) → Sub (drop_oldest key_eq less stamp m) m
  unfolding drop_oldest
  drop_oldest-Sub [] = done
  drop_oldest-Sub (e ∷ m) = first_removed-Sub (oldest key_eq less stamp e m).0 (e ∷ m)

  -- An eviction only drops entries.
  pub evict_for_capacity-Sub :
      (t : T) (stride : ℕ) (m : List (K × V))
      → Sub (evict_for_capacity key_eq less stamp t stride m).0 m
  unfolding evict_for_capacity
  evict_for_capacity-Sub t stride [] = done
  evict_for_capacity-Sub t stride (e ∷ m) =
      let fresh = retain_fresh key_eq less stamp t (e ∷ m) in
      let swept = sweep key_eq less stamp (max stride 2) 0 fresh in
      let first : Sub fresh (e ∷ m) = retain_fresh-Sub t (e ∷ m) in
      let second : Sub swept (e ∷ m) = Sub_trans first (sweep-Sub (max stride 2) 0 fresh) in
      elim (Bool-cases (ltb (length fresh) (length (e ∷ m)))) [
        | inl stale ↦ rw stale first
        | inr none_stale ↦ elim (Bool-cases (ltb (length swept) (length (e ∷ m)))) [
          | inl spaced ↦ rw (none_stale, spaced) second
          | inr none_spaced ↦
              rw (none_stale, none_spaced) (Sub_trans second (drop_oldest-Sub swept))
        ]
      ]
