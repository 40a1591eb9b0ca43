-- ===== src/Bounded/Evicts.antt =====
-- src/bounded.rs: what each of the three passes leaves, and the lemmas that its list has this form.
use native.Mathlib.Nat.{mod-add-mod, mod_self, mod-eq_of_lt}
use recurse_x.Prelude.{
  ℕ, suc, ◌+◌, ◌%◌, ◌≤◌, ◌<◌, ◌≡◌, ◌⊎◌, refl, ap, Bool, true, false, List, [], ◌∷◌, ltb, ◌==◌,
  if◌then◌else◌, length, All, arith, Bool-cases, inl, inr,
}
use recurse_x.Bounded.{retain_fresh, sweep}

-- A list without its stale elements.
pub data Sift {ℓ} {A : Type ℓ} (is_stale : A → Bool) : List A → List A → Type ℓ where
  done : Sift is_stale [] []
  fresh :
      (x : A) {xs ys : List A}
      → is_stale x ≡ false
      → Sift is_stale xs ys
      → Sift is_stale (x ∷ xs) (x ∷ ys)
  stale :
      (x : A) {xs ys : List A} → is_stale x ≡ true → Sift is_stale xs ys → Sift is_stale (x ∷ xs) ys

-- A list without every `n`th element, where `j` elements were kept since the last one that went.
pub data Swept {ℓ} {A : Type ℓ} (n : ℕ) : ℕ → List A → List A → Type ℓ where
  done : (j : ℕ) → Swept n j [] []
  keep :
      (j : ℕ) (x : A) {xs ys : List A}
      → suc j < n
      → Swept n (suc j) xs ys
      → Swept n j (x ∷ xs) (x ∷ ys)
  drop : (j : ℕ) (x : A) {xs ys : List A} → suc j ≡ n → Swept n 0 xs ys → Swept n j (x ∷ xs) ys

-- A list without one of its elements.
pub data Without {ℓ} {A : Type ℓ} (e : A) : List A → List A → Type ℓ where
  here : (xs : List A) → Without e (e ∷ xs) xs
  there : (x : A) {xs ys : List A} → Without e xs ys → Without e (x ∷ xs) (x ∷ ys)

module _ {ℓ} {A : Type ℓ} {is_stale : A → Bool} where
  pub Sift-length : {xs ys : List A} → Sift is_stale xs ys → length ys ≤ length xs
  Sift-length done = omega arith
  Sift-length (fresh x p s) = omega (arith, Sift-length s)
  Sift-length (stale x p s) = omega (arith, Sift-length s)

  -- Where nothing went, nothing is stale.
  pub Sift-full :
      {xs ys : List A}
      → Sift is_stale xs ys
      → length xs ≤ length ys
      → All (λ x. is_stale x ≡ false) xs × (ys ≡ xs)
  Sift-full done h = (tt, refl)
  Sift-full (fresh x p s) h =
      let (all, same) = Sift-full s (omega arith) in ((p, all), ap (◌∷◌ x) same)
  Sift-full (stale x p s) h = absurd (omega (arith, Sift-length s))

module _ {ℓ} {A : Type ℓ} {n : ℕ} where
  pub Swept-length : {j : ℕ} {xs ys : List A} → Swept n j xs ys → length ys ≤ length xs
  Swept-length (done j) = omega arith
  Swept-length (keep j x p s) = omega (arith, Swept-length s)
  Swept-length (drop j x p s) = omega (arith, Swept-length s)

  -- Where nothing went, there were too few elements, and else enough.
  pub Swept-full :
      {j : ℕ} {xs ys : List A}
      → Swept n j xs ys
      → length xs ≤ length ys
      → j < n
      → (ys ≡ xs) × (j + length xs < n)
  Swept-full (done j) h few = (refl, omega arith)
  Swept-full (keep j x p s) h few =
      let (same, short) = Swept-full s (omega arith) p in (ap (◌∷◌ x) same, omega arith)
  Swept-full (drop j x p s) h few = absurd (omega (arith, Swept-length s))

  pub Swept-fewer :
      {j : ℕ} {xs ys : List A} → Swept n j xs ys → length ys < length xs → n ≤ j + length xs
  Swept-fewer (done j) h = absurd (omega arith)
  Swept-fewer (keep j x p s) h = omega (arith, Swept-fewer s (omega arith))
  Swept-fewer (drop j x p s) h = omega arith

pub picked {ℓ} :
    {A : Type ℓ} (b : Bool) (x y : A) → ((if b then x else y) ≡ x) ⊎ ((if b then x else y) ≡ y)
picked true x y = inl refl
picked false x y = inr refl

-- The next position between two multiples of the stride.
position_cases :
    (n idx j : ℕ)
    → idx % n ≡ j
    → j < n
    → ((suc j ≡ n) × ((idx + 1) % n ≡ 0)) ⊎ ((suc j < n) × ((idx + 1) % n ≡ suc j))
position_cases n idx j counted few =
    let next : (j + 1) % n ≡ (idx + 1) % n = rw counted at (mod-add-mod idx n 1) in
    elim (Bool-cases (ltb (j + 1) n)) [
      | inl room ↦
          let small : (j + 1) % n ≡ j + 1 = mod-eq_of_lt (ground arith) in
          inr (ground arith, omega arith)
      | inr last ↦
          let same : j + 1 ≡ n = ground arith in
          let zero : (j + 1) % n ≡ 0 = rw same (mod_self n) in inl (omega arith, omega arith)
    ]

module _ {ℓ} {K V T : Type ℓ} (key_eq : K → K → Bool) (less : T → T → Bool) (stamp : V → T) where
  pub retain_fresh-Sift :
      (t : T) (m : List (K × V))
      → Sift (λ e. less (stamp e.1) t) m (retain_fresh key_eq less stamp t m)
  unfolding retain_fresh
  retain_fresh-Sift t [] = done
  retain_fresh-Sift t ((k, v) ∷ m) = elim (Bool-cases (less (stamp v) t)) [
    | inl old ↦ rw old (stale (k, v) old (retain_fresh-Sift t m))
    | inr recent ↦ rw recent (fresh (k, v) recent (retain_fresh-Sift t m))
  ]

  -- The counter of the sweep, modulo the stride, is the number of entries kept since the last drop.
  pub sweep-Swept :
      (n idx j : ℕ) (m : List (K × V))
      → idx % n ≡ j
      → j < n
      → Swept n j m (sweep key_eq less stamp n idx m)
  unfolding sweep
  sweep-Swept n idx j [] counted few = done j
  sweep-Swept n idx j (e ∷ m) counted few = elim (position_cases n idx j counted few) [
    | inl (last, zero) ↦ rw zero (drop j e last (sweep-Swept n (idx + 1) 0 m zero (omega arith)))
    | inr (room, next) ↦
        let rest = sweep-Swept n (idx + 1) (suc j) m next room in
        let kept : ((idx + 1) % n == 0) ≡ false = ground arith in rw kept (keep j e room rest)
  ]
