-- ===== src/Bounded/Oldest.antt =====
-- src/bounded.rs: the last resort drops one entry, and none of the map is older.
use mathlib.Core.Path.{subst}
use recurse_x.Prelude.{
  ◌≡◌, ◌⊎◌, refl, ap, sym, Bool, true, false, none, List, [], ◌∷◌, if◌then◌else◌, All, Bool-cases,
  inl, inr,
}
use recurse_x.Maps.{get, Distinct}
use recurse_x.Bounded.{oldest, remove, drop_oldest}
use recurse_x.Bounded.Evicts.{picked, Without, here, there}

-- No entry of a map has an earlier stamp than this one.
abbrev pub NoneOlder {ℓ} :
    {K V T : Type ℓ} → (T → T → Bool) → (V → T) → K × V → List (K × V) → Type 0
NoneOlder less stamp e = All (λ x. less (stamp x.1) (stamp e.1) ≡ false)

module _ {ℓ} {K V T : Type ℓ} (key_eq : K → K → Bool) (less : T → T → Bool) (stamp : V → T) where
  Without-behind :
      {o best : K × V} (e : K × V) {m r : List (K × V)}
      → Without o (best ∷ m) r
      → (r : List (K × V)) × Without o (best ∷ e ∷ m) r
  Without-behind e {m} (here _) = (e ∷ m, here (e ∷ m))
  Without-behind e (there x {ys = ys} w) = (x ∷ e ∷ ys, there x (there e w))

  -- The entry found is one of the map.
  Without-pick :
      (o best e pick : K × V) (m : List (K × V))
      → (pick ≡ e) ⊎ (pick ≡ best)
      → (r : List (K × V)) × Without o (pick ∷ m) r
      → (r : List (K × V)) × Without o (best ∷ e ∷ m) r
  Without-pick o best e pick m (inl p) (r, w) = (best ∷ r, there best (rw p at w))
  Without-pick o best e pick m (inr p) (r, w) = Without-behind e (rw p at w)

  oldest-Without :
      (best : K × V) (m : List (K × V))
      → (r : List (K × V)) × Without (oldest key_eq less stamp best m) (best ∷ m) r
  unfolding oldest
  oldest-Without best [] = ([], here [])
  oldest-Without best (e ∷ m) =
      let pick = if less (stamp e.1) (stamp best.1) then e else best in
      Without-pick (oldest key_eq less stamp pick m) best e pick m
        (picked (less (stamp e.1) (stamp best.1)) e best) (oldest-Without pick m)

  -- An entry of a map has a key that stands in no other entry.
  Without-get :
      ((k : K) → key_eq k k ≡ true)
      → {o : K × V} {m r : List (K × V)} → Without o m r
      → get key_eq o.0 m ≡ none
      → ⊥
  unfolding get
  Without-get key_refl {o} (here xs) h = let h' = rw (key_refl o.0) at h in cc
  Without-get key_refl {o} (there x w) h = elim (Bool-cases (key_eq o.0 x.0)) [
    | inl same ↦ let h' = rw same at h in cc
    | inr other ↦ Without-get key_refl w (rw other at h)
  ]

  remove-Without :
      ((k : K) → key_eq k k ≡ true)
      → ((a b : K) → key_eq a b ≡ true → a ≡ b)
      → {o : K × V} {m r : List (K × V)} → Without o m r
      → Distinct key_eq m
      → remove key_eq less stamp o.0 m ≡ r
  unfolding remove
  remove-Without key_refl sound {o} (here xs) d = rw (key_refl o.0) refl
  remove-Without key_refl sound {o} (there (k, v) {xs} w) (fresh, d) =
      elim (Bool-cases (key_eq o.0 k)) [
        | inl same ↦
            let gone : get key_eq o.0 xs ≡ none = rw (sound o.0 k same) fresh in
            absurd (Without-get key_refl w gone)
        | inr other ↦ rw other (ap (◌∷◌ (k, v)) (remove-Without key_refl sound w d))
      ]

  module _ (asym : (a b : T) → less a b ≡ true → less b a ≡ false)
      (apart : (a b c : T) → less a b ≡ false → less b c ≡ false → less a c ≡ false) where
    irreflexive : (a : T) → less a a ≡ false
    irreflexive a = elim (Bool-cases (less a a)) [ inl below ↦ asym a a below | inr level ↦ level ]

    oldest-least :
        (best : K × V) (m : List (K × V))
        → NoneOlder less stamp (oldest key_eq less stamp best m) (best ∷ m)
    unfolding oldest
    oldest-least best [] = (irreflexive (stamp best.1), tt)
    oldest-least best (e ∷ m) = elim (Bool-cases (less (stamp e.1) (stamp best.1))) [
      | inl older ↦
          let rest = oldest-least e m in
          let o = oldest key_eq less stamp e m in
          let above = apart (stamp best.1) (stamp e.1) (stamp o.1) (asym _ _ older) rest.0 in
          let found : oldest key_eq less stamp best (e ∷ m) ≡ o = rw (older, oldest) refl in
          subst (λ o. NoneOlder less stamp o (best ∷ e ∷ m)) (sym found) (above, rest)
      | inr younger ↦
          let rest = oldest-least best m in
          let o = oldest key_eq less stamp best m in
          let above = apart (stamp e.1) (stamp best.1) (stamp o.1) younger rest.0 in
          let found : oldest key_eq less stamp best (e ∷ m) ≡ o = rw (younger, oldest) refl in
          subst (λ o. NoneOlder less stamp o (best ∷ e ∷ m)) (sym found) (rest.0, (above, rest.1))
    ]

    -- A map whose keys are distinct loses one entry, and none of it is older.
    pub drop_oldest-least :
        ((k : K) → key_eq k k ≡ true)
        → ((a b : K) → key_eq a b ≡ true → a ≡ b)
        → (first : K × V) (m : List (K × V)) → Distinct key_eq (first ∷ m)
        → (e : K × V) × Without e (first ∷ m) (drop_oldest key_eq less stamp (first ∷ m))
          × NoneOlder less stamp e (first ∷ m)
    unfolding drop_oldest
    drop_oldest-least key_refl sound first m d =
        let o = oldest key_eq less stamp first m in
        let (r, w) = oldest-Without first m in
        let left = remove-Without key_refl sound w d in (o, rw left w, oldest-least first m)
