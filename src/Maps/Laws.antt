-- ===== src/Maps/Laws.antt =====
-- The laws of the maps: what each operation does to the lookup of any key.
use recurse_x.Prelude.{
  ◌≡◌, refl, ap, Bool, true, false, Bool-cases, inl, inr, none, some, Option-cases, List, [], ◌∷◌,
  if◌then◌else◌, arith,
}
use recurse_x.Maps.{get, replace, remove, place, insert, Distinct}

module _ {ℓ} {K : Type ℓ} (key_eq : K → K → Bool) (sound : (a b : K) → key_eq a b ≡ true → a ≡ b)
    (self : (a : K) → key_eq a a ≡ true) where
  -- Keys apart stay apart in the other order.
  pub apart_sym : (a b : K) → key_eq a b ≡ false → key_eq b a ≡ false
  apart_sym a b h = elim (Bool-cases (key_eq b a)) [
    | inl same ↦ let turned : key_eq a b ≡ true = rw (sound b a same) (self a) in cc
    | inr other ↦ other
  ]

module _ {ℓ} {K V : Type ℓ} (key_eq : K → K → Bool) (sound : (a b : K) → key_eq a b ≡ true → a ≡ b)
    (self : (a : K) → key_eq a a ≡ true) where
  pub get-replace :
      (i k : K) (v w : V) (m : List (K × V))
      → get key_eq k m ≡ some w
      → get key_eq i (replace key_eq k v m) ≡ (if key_eq i k then some v else get key_eq i m)
  unfolding get replace
  get-replace i k v w [] h = cc
  get-replace i k v w ((j, u) ∷ m) h = elim (Bool-cases (key_eq k j)) [
    | inl same ↦ let e = sound k j same in rw (same, get, ← e) (ground arith)
    | inr other ↦
        let ih = get-replace i k v w m (rw other at h) in
        elim (Bool-cases (key_eq i j)) [
          | inl here ↦
              let e = sound i j here in
              let apart : key_eq i k ≡ false = rw e (apart_sym key_eq sound self k j other) in
              rw (other, get, here, apart) refl
          | inr there ↦ rw (other, get, there) ih
        ]
  ]

  pub get-remove :
      (i k : K) (m : List (K × V))
      → get key_eq i (remove key_eq k m) ≡ (if key_eq i k then none else get key_eq i m)
  unfolding get remove
  get-remove i k [] = ground arith
  get-remove i k ((j, u) ∷ m) =
      let ih = get-remove i k m in
      elim (Bool-cases (key_eq k j)) [
        | inl same ↦ let e = sound k j same in rw (same, get, ← e) (ground arith)
        | inr other ↦ elim (Bool-cases (key_eq i j)) [
          | inl here ↦
              let e = sound i j here in
              let apart : key_eq i k ≡ false = rw e (apart_sym key_eq sound self k j other) in
              rw (other, get, here, apart) refl
          | inr there ↦ rw (other, get, there) ih
        ]
      ]

  -- What is not there is removed in no step.
  pub remove-absent : (k : K) (m : List (K × V)) → get key_eq k m ≡ none → remove key_eq k m ≡ m
  unfolding get remove
  remove-absent k [] h = refl
  remove-absent k ((j, u) ∷ m) h = elim (Bool-cases (key_eq k j)) [
    | inl same ↦ let h' = rw same at h in cc
    | inr other ↦ rw other (ap (◌∷◌ (j, u)) (remove-absent k m (rw other at h)))
  ]

  module _ (before : K → K → Bool) where
    pub get-place :
        (i k : K) (v : V) (m : List (K × V))
        → get key_eq k m ≡ none
        → get key_eq i (place key_eq before k v m) ≡ (if key_eq i k then some v else get key_eq i m)
    unfolding get place
    get-place i k v [] h = refl
    get-place i k v ((j, u) ∷ m) h = elim (Bool-cases (key_eq k j)) [
      | inl same ↦ let h' = rw same at h in cc
      | inr other ↦
          let ih = get-place i k v m (rw other at h) in
          elim (Bool-cases (before k j)) [
            | inl first ↦ rw first refl
            | inr later ↦ elim (Bool-cases (key_eq i j)) [
              | inl here ↦
                  let e = sound i j here in
                  let apart : key_eq i k ≡ false = rw e (apart_sym key_eq sound self k j other) in
                  rw (later, get, here, apart) refl
              | inr there ↦ rw (later, get, there) ih
            ]
          ]
    ]

    pub place-Distinct :
        (k : K) (v : V) (m : List (K × V))
        → get key_eq k m ≡ none
        → Distinct key_eq m
        → Distinct key_eq (place key_eq before k v m)
    unfolding get place
    place-Distinct k v [] h d = (refl, tt)
    place-Distinct k v ((j, u) ∷ m) h (fresh, d) = elim (Bool-cases (key_eq k j)) [
      | inl same ↦ let h' = rw same at h in absurd (cc)
      | inr other ↦ elim (Bool-cases (before k j)) [
        | inl first ↦ rw first (rw (get, other) (rw other at h), (fresh, d))
        | inr later ↦
            let absent = rw other at h in
            let apart = apart_sym key_eq sound self k j other in
            rw later (rw (get-place j k v m absent, apart) fresh, place-Distinct k v m absent d)
      ]
    ]

    pub get-insert :
        (i k : K) (v : V) (m : List (K × V))
        → get key_eq i (insert key_eq before k v m)
          ≡ (if key_eq i k then some v else get key_eq i m)
    unfolding insert
    get-insert i k v m = elim (Option-cases (get key_eq k m)) [
      | inl fresh ↦ rw (insert, fresh) (get-place i k v m fresh)
      | inr (w, known) ↦ rw (insert, known) (get-replace i k v w m known)
    ]

module _ {ℓ} {K V : Type ℓ} (key_eq : K → K → Bool) where
  get-replace-none :
      (i k : K) (v : V) (m : List (K × V))
      → get key_eq i m ≡ none
      → get key_eq i (replace key_eq k v m) ≡ none
  unfolding get replace
  get-replace-none i k v [] h = refl
  get-replace-none i k v ((j, u) ∷ m) h = elim (Bool-cases (key_eq i j)) [
    | inl here ↦ let h' = rw here at h in cc
    | inr there ↦
        let ih = get-replace-none i k v m (rw there at h) in
        elim (Bool-cases (key_eq k j)) [
          | inl same ↦ rw (same, get, there) (rw there at h)
          | inr other ↦ rw (other, get, there) ih
        ]
  ]

  -- The keys are those of before.
  pub replace-Distinct :
      (k : K) (v : V) (m : List (K × V))
      → Distinct key_eq m
      → Distinct key_eq (replace key_eq k v m)
  unfolding replace
  replace-Distinct k v [] d = d
  replace-Distinct k v ((j, u) ∷ m) (fresh, d) = elim (Bool-cases (key_eq k j)) [
    | inl same ↦ rw same (fresh, d)
    | inr other ↦ rw other (get-replace-none j k v m fresh, replace-Distinct k v m d)
  ]

  module _ (before : K → K → Bool) where
    pub insert-absent :
        (k : K) (v : V) (m : List (K × V))
        → get key_eq k m ≡ none
        → insert key_eq before k v m ≡ place key_eq before k v m
    unfolding insert
    insert-absent k v m h = rw (insert, h) refl

    pub insert-present :
        (k : K) (v w : V) (m : List (K × V))
        → get key_eq k m ≡ some w
        → insert key_eq before k v m ≡ replace key_eq k v m
    unfolding insert
    insert-present k v w m h = rw (insert, h) refl

module _ {ℓ} {K V : Type ℓ} (key_eq : K → K → Bool) (sound : (a b : K) → key_eq a b ≡ true → a ≡ b)
    (self : (a : K) → key_eq a a ≡ true) (before : K → K → Bool) where
  pub insert-Distinct :
      (k : K) (v : V) (m : List (K × V))
      → Distinct key_eq m
      → Distinct key_eq (insert key_eq before k v m)
  insert-Distinct k v m d = elim (Option-cases (get key_eq k m)) [
    | inl fresh ↦
        rw (insert-absent key_eq before k v m fresh)
          (place-Distinct key_eq sound self before k v m fresh d)
    | inr (w, known) ↦
        rw (insert-present key_eq before k v w m known) (replace-Distinct key_eq k v m d)
  ]
