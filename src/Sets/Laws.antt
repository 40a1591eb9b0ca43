-- ===== src/Sets/Laws.antt =====
-- The laws of the sets: membership behind each operation, and sizes.
use recurse_x.Prelude.{
  suc, ◌≤◌, ◌≡◌, refl, ◌∙◌, Bool, true, false, Bool-cases, inl, inr, List, [], ◌∷◌, if◌then◌else◌,
  length, arith,
}
use recurse_x.Sets.{has, without, enter, add}

module _ {ℓ} {K : Type ℓ} (key_eq : K → K → Bool) (before : K → K → Bool) where
  pub has-enter :
      (i k : K) (s : List K)
      → has key_eq i (enter key_eq before k s) ≡ (if key_eq i k then true else has key_eq i s)
  unfolding has enter
  has-enter i k [] = refl
  has-enter i k (j ∷ s) = elim (Bool-cases (before k j)) [
    | inl first ↦ rw first refl
    | inr later ↦ rw (later, has, has-enter i k s) (ground arith)
  ]

  length-enter : (k : K) (s : List K) → length (enter key_eq before k s) ≡ suc (length s)
  unfolding enter
  length-enter k [] = refl
  length-enter k (j ∷ s) = ground (arith, length-enter k s)

  pub length-add :
      (k : K) (s : List K)
      → length (add key_eq before k s) ≡ (if has key_eq k s then length s else suc (length s))
  unfolding add
  length-add k s = ground (arith, length-enter k s)

module _ {ℓ} {K : Type ℓ} (key_eq : K → K → Bool) (before : K → K → Bool)
    (sound : (a b : K) → key_eq a b ≡ true → a ≡ b) where
  pub has-add :
      (i k : K) (s : List K)
      → has key_eq i (add key_eq before k s) ≡ (if key_eq i k then true else has key_eq i s)
  unfolding add
  has-add i k s = elim (Bool-cases (has key_eq k s)) [
    | inr absent ↦ rw (add, absent) (has-enter key_eq before i k s)
    | inl present ↦ elim (Bool-cases (key_eq i k)) [
      | inl same ↦ rw (add, present, same) (rw (sound i k same) present)
      | inr other ↦ rw (add, present, other) refl
    ]
  ]

  pub has-without :
      (i : K) (dead s : List K)
      → has key_eq i (without key_eq dead s) ≡ (if has key_eq i dead then false else has key_eq i s)
  unfolding has without
  has-without i dead [] = ground arith
  has-without i dead (j ∷ s) =
      let ih = has-without i dead s in
      elim (Bool-cases (key_eq i j)) [
        | inl same ↦
            let e = sound i j same in
            elim (Bool-cases (has key_eq j dead)) [
              | inl gone ↦
                  let dropped : has key_eq i dead ≡ true = rw e gone in
                  rw (gone, dropped) (ih ∙ rw dropped refl)
              | inr stays ↦
                  let kept : has key_eq i dead ≡ false = rw e stays in
                  rw (stays, has, same, kept) refl
            ]
        | inr other ↦ elim (Bool-cases (has key_eq j dead)) [
          | inl gone ↦ rw (gone, other) ih
          | inr stays ↦ rw (stays, has, other) ih
        ]
      ]

module _ {ℓ} {K : Type ℓ} (key_eq : K → K → Bool) where
  pub length-without-le : (dead s : List K) → length (without key_eq dead s) ≤ length s
  unfolding without
  length-without-le dead [] = omega arith
  length-without-le dead (j ∷ s) = ground (arith, length-without-le dead s)
