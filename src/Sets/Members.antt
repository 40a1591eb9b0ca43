-- ===== src/Sets/Members.antt =====
-- Membership in a set or a queue with one more element.
use recurse_x.Prelude.{
  ◌≡◌, refl, Bool, true, Bool-cases, inl, inr, ◌⊎◌, List, [], ◌∷◌, ◌++◌, if◌then◌else◌, arith,
}
use recurse_x.Sets.{has, add}
use recurse_x.Sets.Laws.{has-add}

module _ {K : Type 0} (key_eq before : K → K → Bool) (sound : (a b : K) → key_eq a b ≡ true → a ≡ b)
    (self : (a : K) → key_eq a a ≡ true) where
  pub has-append :
      (n : K) (s t : List K)
      → has key_eq n (s ++ t) ≡ (if has key_eq n s then true else has key_eq n t)
  unfolding has
  has-append n [] t = refl
  has-append n (j ∷ s) t = rw (has-append n s t) (ground arith)

  -- Membership in a longer list.
  pub has_later : (m n : K) (ns : List K) → has key_eq m ns ≡ true → has key_eq m (n ∷ ns) ≡ true
  unfolding has
  has_later m n ns h = ground arith

  pub has_first : (n : K) (ns : List K) → has key_eq n (n ∷ ns) ≡ true
  unfolding has
  has_first n ns = rw (self n) refl

  pub has-cases :
      (m n : K) (ns : List K) → has key_eq m (n ∷ ns) ≡ true → (m ≡ n) ⊎ (has key_eq m ns ≡ true)
  unfolding has
  has-cases m n ns h = elim (Bool-cases (key_eq m n)) [
    | inl same ↦ inl (sound m n same)
    | inr other ↦ inr (rw other at h)
  ]

  pub add_keeps :
      (m n : K) (s : List K) → has key_eq m s ≡ true → has key_eq m (add key_eq before n s) ≡ true
  add_keeps m n s h = rw (has-add key_eq before sound m n s) (ground arith)

  pub add_new : (n : K) (s : List K) → has key_eq n (add key_eq before n s) ≡ true
  add_new n s = rw (has-add key_eq before sound n n s, self n) refl

  pub add-cases :
      (m n : K) (s : List K)
      → has key_eq m (add key_eq before n s) ≡ true
      → (m ≡ n) ⊎ (has key_eq m s ≡ true)
  add-cases m n s h =
      let h' = rw (has-add key_eq before sound m n s) at h in
      elim (Bool-cases (key_eq m n)) [
        | inl same ↦ inl (sound m n same)
        | inr other ↦ inr (rw other at h')
      ]

  pub push_keeps :
      (m n : K) (q : List K) → has key_eq m q ≡ true → has key_eq m (q ++ n ∷ []) ≡ true
  push_keeps m n q h = rw (has-append m q (n ∷ []), h) refl

  pub push_new : (n : K) (q : List K) → has key_eq n (q ++ n ∷ []) ≡ true
  push_new n q = rw (has-append n q (n ∷ []), has_first n []) (ground arith)

  pub push-cases :
      (m n : K) (q : List K) → has key_eq m (q ++ n ∷ []) ≡ true → (m ≡ n) ⊎ (has key_eq m q ≡ true)
  push-cases m n q h =
      let h' = rw (has-append m q (n ∷ [])) at h in
      elim (Bool-cases (has key_eq m q)) [
        | inl there ↦ inr there
        | inr off ↦ elim (has-cases m n [] (rw off at h')) [
          | inl same ↦ inl same
          | inr nowhere ↦ absurd (unfold has in cc)
        ]
      ]
