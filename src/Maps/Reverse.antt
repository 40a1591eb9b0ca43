-- ===== src/Maps/Reverse.antt =====
-- A map read backwards: the list of its values' names with their keys, which an index over the
-- names holds.
use recurse_x.Prelude.{
  ◌≡◌, refl, sym, ap, Bool, true, false, Bool-cases, inl, inr, none, some, some-eq, List, [], ◌∷◌,
  if◌then◌else◌,
}
use recurse_x.Maps.{get, replace, remove, place, Distinct}
use recurse_x.Maps.Laws.{apart_sym, remove-absent}
use recurse_x.Maps.Sub.{Sub}

module _ {ℓ} {K V N : Type ℓ} (name_of : V → N) where
  unfoldable pub reversed : List (K × V) → List (N × K)
  reversed [] = []
  reversed ((k, v) ∷ m) = (name_of v, k) ∷ reversed m

  pub reversed-Sub : {m n : List (K × V)} → Sub m n → Sub (reversed m) (reversed n)
  unfolding reversed
  reversed-Sub Sub.done = Sub.done
  reversed-Sub (Sub.keep (k, v) p) = Sub.keep (name_of v, k) (reversed-Sub p)
  reversed-Sub (Sub.skip (k, v) p) = Sub.skip (name_of v, k) (reversed-Sub p)

module _ {ℓ} {K V N : Type ℓ} (key_eq : K → K → Bool) (name_eq : N → N → Bool) (name_of : V → N)
    (key_sound : (a b : K) → key_eq a b ≡ true → a ≡ b) (key_self : (a : K) → key_eq a a ≡ true)
    (name_sound : (a b : N) → name_eq a b ≡ true → a ≡ b)
    (name_self : (a : N) → name_eq a a ≡ true) where
  -- A value replaced under the same name.
  pub reversed-replace :
      (k : K) (v w : V) (m : List (K × V))
      → get key_eq k m ≡ some w
      → name_of v ≡ name_of w
      → Distinct key_eq m
      → reversed name_of (replace key_eq k v m) ≡ reversed name_of m
  unfolding get replace reversed
  reversed-replace k v w [] h e d = refl
  reversed-replace k v w ((j, u) ∷ m) h e (fresh, d) = elim (Bool-cases (key_eq k j)) [
    | inl same ↦ let u_w : u ≡ w = some-eq (rw same at h) in rw (same, reversed, e, u_w) refl
    | inr other ↦
        rw (other, reversed)
          (ap (◌∷◌ (name_of u, j)) (reversed-replace k v w m (rw other at h) e d))
  ]

  -- An entry of the reverse is one of the map, and conversely.
  pub get-reversed→ :
      (n : N) (k : K) (m : List (K × V))
      → Distinct key_eq m
      → get name_eq n (reversed name_of m) ≡ some k
      → (v : V) × (get key_eq k m ≡ some v) × (name_of v ≡ n)
  unfolding get reversed
  get-reversed→ n k [] d h = absurd (cc)
  get-reversed→ n k ((j, u) ∷ m) (fresh, d) h = elim (Bool-cases (name_eq n (name_of u))) [
    | inl same ↦
        let j_k : j ≡ k = some-eq (rw same at h) in
        (u, rw (← j_k, get, key_self j) refl, sym (name_sound n (name_of u) same))
    | inr other ↦
        let (v, here, named) = get-reversed→ n k m d (rw other at h) in
        elim (Bool-cases (key_eq k j)) [
          | inl same ↦
              let gone : get key_eq k m ≡ none = rw (key_sound k j same) fresh in absurd (cc)
          | inr apart ↦ (v, rw (get, apart) here, named)
        ]
  ]

  pub get-reversed← :
      (k : K) (v : V) (m : List (K × V))
      → Distinct name_eq (reversed name_of m)
      → get key_eq k m ≡ some v
      → get name_eq (name_of v) (reversed name_of m) ≡ some k
  unfolding get reversed
  get-reversed← k v [] d h = absurd (cc)
  get-reversed← k v ((j, u) ∷ m) (fresh, d) h = elim (Bool-cases (key_eq k j)) [
    | inl same ↦
        let u_v : u ≡ v = some-eq (rw same at h) in
        rw (← u_v, get, name_self (name_of u), key_sound k j same) refl
    | inr other ↦
        let ih = get-reversed← k v m d (rw other at h) in
        elim (Bool-cases (name_eq (name_of v) (name_of u))) [
          | inl same ↦
              let gone : get name_eq (name_of v) (reversed name_of m) ≡ none =
                rw (name_sound (name_of v) (name_of u) same) fresh in
              absurd (cc)
          | inr apart ↦ rw (get, apart) ih
        ]
  ]

  module _ (before : K → K → Bool) where
    -- A new entry under a new name.
    pub get-reversed-place :
        (i : N) (k : K) (v : V) (m : List (K × V))
        → get name_eq (name_of v) (reversed name_of m) ≡ none
        → get name_eq i (reversed name_of (place key_eq before k v m))
          ≡ (if name_eq i (name_of v) then some k else get name_eq i (reversed name_of m))
    unfolding get place reversed
    get-reversed-place i k v [] h = refl
    get-reversed-place i k v ((j, u) ∷ m) h = elim (Bool-cases (name_eq (name_of v) (name_of u))) [
      | inl same ↦ let h' = rw same at h in cc
      | inr other ↦
          let ih = get-reversed-place i k v m (rw other at h) in
          elim (Bool-cases (before k j)) [
            | inl first ↦ rw (first, reversed) refl
            | inr later ↦ elim (Bool-cases (name_eq i (name_of u))) [
              | inl here ↦
                  let e = name_sound i (name_of u) here in
                  let apart : name_eq i (name_of v) ≡ false =
                    rw e (apart_sym name_eq name_sound name_self (name_of v) (name_of u) other) in
                  rw (later, reversed, get, here, apart) refl
              | inr there ↦ rw (later, reversed, get, there) ih
            ]
          ]
    ]

    pub reversed-place-Distinct :
        (k : K) (v : V) (m : List (K × V))
        → get name_eq (name_of v) (reversed name_of m) ≡ none
        → Distinct name_eq (reversed name_of m)
        → Distinct name_eq (reversed name_of (place key_eq before k v m))
    unfolding get place reversed
    reversed-place-Distinct k v [] h d = (refl, tt)
    reversed-place-Distinct k v ((j, u) ∷ m) h (fresh, d) =
        elim (Bool-cases (name_eq (name_of v) (name_of u))) [
          | inl same ↦ let h' = rw same at h in absurd (cc)
          | inr other ↦
              let absent = rw other at h in
              elim (Bool-cases (before k j)) [
                | inl first ↦ rw (first, reversed) (rw (get, other) absent, (fresh, d))
                | inr later ↦
                    let apart =
                      apart_sym name_eq name_sound name_self (name_of v) (name_of u) other in
                    rw (later, reversed)
                      (
                        rw (get-reversed-place (name_of u) k v m absent, apart) fresh,
                        reversed-place-Distinct k v m absent d,
                      )
              ]
        ]

  -- An entry removed by its key, seen from the names.
  pub get-reversed-remove :
      (i n : N) (k : K) (m : List (K × V))
      → Distinct key_eq m
      → Distinct name_eq (reversed name_of m)
      → get name_eq n (reversed name_of m) ≡ some k
      → get name_eq i (reversed name_of (remove key_eq k m))
        ≡ (if name_eq i n then none else get name_eq i (reversed name_of m))
  unfolding get remove reversed
  get-reversed-remove i n k [] d e h = absurd (cc)
  get-reversed-remove i n k ((j, u) ∷ m) (fresh, d) (alone, e) h =
      elim (Bool-cases (name_eq n (name_of u))) [
        | inl same ↦
            let n_u = name_sound n (name_of u) same in
            let j_k : j ≡ k = some-eq (rw same at h) in
            let gone : remove key_eq k m ≡ m =
              rw (← j_k) (remove-absent key_eq key_sound key_self j m fresh) in
            rw (← j_k, key_self j, j_k, gone, n_u)
              (elim (Bool-cases (name_eq i (name_of u))) [
                | inl here ↦ rw here (rw (name_sound i (name_of u) here) alone)
                | inr there ↦ rw there refl
              ])
        | inr other ↦
            let rest = rw other at h in
            let (v, here, named) = get-reversed→ n k m d rest in
            elim (Bool-cases (key_eq k j)) [
              | inl clash ↦
                  let absent : get key_eq k m ≡ none = rw (key_sound k j clash) fresh in cc
              | inr apart ↦
                  let ih = get-reversed-remove i n k m d e rest in
                  rw (apart, reversed)
                    (elim (Bool-cases (name_eq i (name_of u))) [
                      | inl at_u ↦
                          let i_u = name_sound i (name_of u) at_u in
                          let not_n : name_eq i n ≡ false =
                            rw i_u (apart_sym name_eq name_sound name_self n (name_of u) other) in
                          rw (get, at_u, not_n) refl
                      | inr off_u ↦ rw (get, off_u) ih
                    ])
            ]
      ]
