-- ===== src/Cache/Inserts.antt =====
-- src/cache/mod.rs: what an insertion into a tier does.
use mathlib.Core.Path.{subst}
use recurse_x.Prelude.{
  ℕ, ◌≤◌, ◌<◌, ◌≡◌, ◌⊎◌, ◌≢◌, refl, sym, ◌∙◌, Bool, true, false, not, ◌&&◌, Bool-cases, inl, inr,
  Option, none, some, Option-cases, List, [], ◌∷◌, ltb, leb, if◌then◌else◌, length, All, arith,
}
use recurse_x.Maps
use recurse_x.Maps.{get, Distinct}
use recurse_x.Maps.Laws.{get-remove, get-insert}
use recurse_x.Maps.Counts.{length-remove_lt, length-insert_le, All-get}
use recurse_x.Sets.{has}
use recurse_x.Cache.Tier.{
  TierMap, rank_eq, pop_lowest, contains_key, remove, make_room, store, insert,
}
use recurse_x.Cache.Ranks.{AtMost-has, Once, Ascending}
use recurse_x.Cache.Keeps.{
  IsValid, of_rank, rank_eq-eq, removed-IsValid, remove-IsValid, store-IsValid, pop_lowest-Lowest,
}

List-cases : {A : Type 0} (l : List A) → (l ≡ []) ⊎ ((x : A) × (xs : List A) × (l ≡ x ∷ xs))
List-cases [] = inl refl
List-cases (x ∷ xs) = inr (x, xs, refl)

module _ {K E : Type 0} (key_eq key_less : K → K → Bool) (key_of : E → K) (rank_of : E → ℕ) where
  -- What the tier holds of a key after a victim went.
  unfoldable pub spared : Option E → K → Option E → Option E
  spared none j held = held
  spared (some v) j held = if key_eq j (key_of v) then none else held

  -- A victim goes only from a full tier, and no entry has a lower rank.
  abbrev pub Lowest : Option E → TierMap K E → Type 0
  Lowest none t = Unit
  Lowest (some v) t =
      (t.capacity ≤ length t.map) × All (λ (e : K × E). rank_of v ≤ rank_of e.1) t.map

module _ {K E : Type 0} (key_eq key_less : K → K → Bool) (key_of : E → K) (rank_of : E → ℕ)
    (sound : (a b : K) → key_eq a b ≡ true → a ≡ b) (self : (a : K) → key_eq a a ≡ true) where
  -- What making room for a key leaves.
  record Room (key : K) (t : TierMap K E) (outcome : Option E × TierMap K E) : Type 0 where
    valid : IsValid key_eq key_less key_of rank_of outcome.1
    same_capacity : outcome.1.capacity ≡ t.capacity
    room :
        (length outcome.1.map < t.capacity)
        ⊎ ((e : E) × (get key_eq key outcome.1.map ≡ some e) × (length outcome.1.map ≤ t.capacity))
    kept :
        (j : K)
        → get key_eq j outcome.1.map
          ≡ spared key_eq key_less key_of rank_of outcome.0 j (get key_eq j t.map)
    lowest : Lowest key_eq key_less key_of rank_of outcome.0 t

  popped-Room :
      (key : K) (t : TierMap K E) (x : ℕ × K) (rest : List (ℕ × K))
      → IsValid key_eq key_less key_of rank_of t
      → length t.map ≤ t.capacity
      → t.capacity ≤ length t.map
      → t.rank ≡ x ∷ rest
      → Room key t (pop_lowest key_eq key_less key_of rank_of t)
  unfolding spared has of_rank
  popped-Room key t x rest v within full first =
      let (e, there, rank, popped) =
        pop_lowest-Lowest key_eq key_less key_of rank_of sound self t x rest v first in
      let eq = rank_eq key_eq key_less key_of rank_of in
      let (fresh, once) : Once eq (x ∷ rest) =
        subst (λ (l : List (ℕ × K)). Once eq l) first v.ranks_once in
      let (low, ascending) : Ascending (x ∷ rest) =
        subst (λ (l : List (ℕ × K)). Ascending l) first v.ascending in
      let own = v.keyed x.1 e there in
      let same : x ≡ (rank_of e, x.1) = λ i. (sym rank i, x.1) in
      let left = λ (y : ℕ × K).
        (let p : has eq y rest ≡ (if eq y x then false else has eq y (x ∷ rest)) =
            elim (Bool-cases (eq y x)) [
              | inl here ↦
                  rw (here, rank_eq-eq key_eq key_less key_of rank_of sound self y x here) fresh
              | inr other ↦ rw other refl
            ] in
          p ∙ (λ i. if eq y (same i) then false else has eq y (sym first i))) in
      let valid =
        removed-IsValid key_eq key_less key_of rank_of sound self x.1 e t rest v there once
          ascending left in
      let fewer = length-remove_lt key_eq x.1 e t.map there in
      let least =
        All-get key_eq sound self (λ (f : E). rank_of e ≤ rank_of f) t.map v.keys_once
          (λ k f h.
            let listed : has eq (rank_of f, k) (x ∷ rest) ≡ true =
              (λ i. has eq (rank_of f, k) (sym first i))
              ∙ v.indexed (rank_of f, k)
              ∙ rw h (ground arith) in
            let bound =
              AtMost-has key_eq key_less key_of rank_of x.0 (rank_of f, k) (x ∷ rest)
                (omega arith, low) listed in
            omega arith) in
      rw popped record {
        valid = valid;
        same_capacity = refl;
        room = inl (omega arith);
        kept = λ j. rw own (get-remove key_eq sound self j x.1 t.map);
        lowest = (full, least);
      }

  first_entry : (m : List (K × E)) → 0 < length m → (k : K) × (e : E) × (get key_eq k m ≡ some e)
  unfolding get
  first_entry [] h = absurd (omega arith)
  first_entry ((k, e) ∷ m) h = (k, e, rw (self k) refl)

  -- A tier with an entry has an index with one.
  index-nonempty :
      (t : TierMap K E) → IsValid key_eq key_less key_of rank_of t → 0 < length t.map → t.rank ≢ []
  unfolding has of_rank
  index-nonempty t v some_entry empty =
      let (k, e, there) = first_entry t.map some_entry in
      let law = v.indexed (rank_of e, k) in
      let h = rw (empty, there) at law in absurd (ground arith)

  make_room-Room :
      (key : K) (t : TierMap K E)
      → IsValid key_eq key_less key_of rank_of t
      → 0 < t.capacity
      → length t.map ≤ t.capacity
      → Room key t (make_room key_eq key_less key_of rank_of key t)
  unfolding make_room contains_key spared
  make_room-Room key t v some_room within =
      let full = leb t.capacity (length t.map) in
      elim (Option-cases (get key_eq key t.map)) [
        | inr (e, there) ↦
            let known : contains_key key_eq key_less key_of rank_of key t ≡ true =
              rw (contains_key, there) refl in
            let stays : (ltb 0 t.capacity
                  && (not (contains_key key_eq key_less key_of rank_of key t) && full))
                ≡ false =
              rw known (ground arith) in
            rw (make_room, stays)
              record {
                valid = v;
                same_capacity = refl;
                room = inr (e, there, within);
                kept = λ j. refl;
                lowest = tt;
              }
        | inl absent ↦
            let unknown : contains_key key_eq key_less key_of rank_of key t ≡ false =
              rw (contains_key, absent) refl in
            elim (Bool-cases full) [
              | inr room ↦
                  let stays : (ltb 0 t.capacity
                        && (not (contains_key key_eq key_less key_of rank_of key t) && full))
                      ≡ false =
                    rw (unknown, room) (ground arith) in
                  rw (make_room, stays)
                    record {
                      valid = v;
                      same_capacity = refl;
                      room = inl (ground arith);
                      kept = λ j. refl;
                      lowest = tt;
                    }
              | inl none_left ↦
                  let goes : (ltb 0 t.capacity
                        && (not (contains_key key_eq key_less key_of rank_of key t) && full))
                      ≡ true =
                    rw (unknown, none_left) (ground arith) in
                  elim (List-cases t.rank) [
                    | inl empty ↦ absurd (index-nonempty t v (ground arith) empty)
                    | inr (x, rest, first) ↦
                        rw (make_room, goes)
                          (popped-Room key t x rest v within (ground arith) first)
                  ]
            ]
      ]

  -- The entry of the key itself is taken out before the new one goes in.
  get-remove_lem :
      (key j : K) (t : TierMap K E)
      → get key_eq j (remove key_eq key_less key_of rank_of key t).1.map
        ≡ (if key_eq j key then none else get key_eq j t.map)
  unfolding remove
  get-remove_lem key j t = elim (Option-cases (get key_eq key t.map)) [
    | inr (e, there) ↦ rw (remove, there) (get-remove key_eq sound self j key t.map)
    | inl absent ↦ elim (Bool-cases (key_eq j key)) [
      | inl same ↦ rw (remove, absent, same) (rw (sound j key same) absent)
      | inr other ↦ rw (remove, absent, other) refl
    ]
  ]

  remove-capacity :
      (key : K) (t : TierMap K E)
      → ((remove key_eq key_less key_of rank_of key t).1.capacity ≡ t.capacity)
        × (length (remove key_eq key_less key_of rank_of key t).1.map ≤ length t.map)
  unfolding remove
  remove-capacity key t = elim (Option-cases (get key_eq key t.map)) [
    | inr (e, there) ↦
        let fewer = length-remove_lt key_eq key e t.map there in
        rw (remove, there) (refl, omega arith)
    | inl absent ↦ rw (remove, absent) (refl, omega arith)
  ]

  remove-fewer :
      (key : K) (t : TierMap K E) (e : E)
      → get key_eq key t.map ≡ some e
      → length (remove key_eq key_less key_of rank_of key t).1.map < length t.map
  unfolding remove
  remove-fewer key t e there = rw (remove, there) (length-remove_lt key_eq key e t.map there)

  -- An insertion into a tier whose map and index agree, and whose capacity is above 0 and holds, keeps the
  -- agreement and the capacity. Afterwards the tier holds the new entry under its key, and of every other
  -- key what it held, but for a victim. A victim goes only from a full tier, and no entry of the tier has a
  -- lower rank.
  pub insert_lem :
      (entry : E) (t : TierMap K E)
      → IsValid key_eq key_less key_of rank_of t
      → 0 < t.capacity
      → length t.map ≤ t.capacity
      → IsValid key_eq key_less key_of rank_of (insert key_eq key_less key_of rank_of entry t).1
        × (length (insert key_eq key_less key_of rank_of entry t).1.map ≤ t.capacity)
        × ((j : K)
            → get key_eq j (insert key_eq key_less key_of rank_of entry t).1.map ≡ (
                if key_eq j (key_of entry)
                then some entry
                else spared key_eq key_less key_of rank_of
                    (insert key_eq key_less key_of rank_of entry t).0
                    j
                    (get key_eq j t.map)))
        × Lowest key_eq key_less key_of rank_of (insert key_eq key_less key_of rank_of entry t).0 t
  unfolding insert store
  insert_lem entry t v some_room within =
      let key = key_of entry in
      let made = make_room-Room key t v some_room within in
      let after = (make_room key_eq key_less key_of rank_of key t).1 in
      let cleared = (remove key_eq key_less key_of rank_of key after).1 in
      let absent : get key_eq key cleared.map ≡ none =
        get-remove_lem key key after ∙ rw (self key) refl in
      let (cap, fewer) = remove-capacity key after in
      let longer = length-insert_le key_eq key_less key entry cleared.map in
      let size : length (Maps.insert key_eq key_less key entry cleared.map) ≤ t.capacity =
        elim made.room [
          | inl room ↦ omega arith
          | inr (e, there, most) ↦ let less = remove-fewer key after e there in omega arith
        ] in
      (
        store-IsValid key_eq key_less key_of rank_of sound self entry cleared
            (remove-IsValid key_eq key_less key_of rank_of sound self key after made.valid) absent,
        size,
        λ j.
            get-insert key_eq sound self key_less j key entry cleared.map
            ∙ (elim (Bool-cases (key_eq j key)) [
              | inl same ↦ rw same refl
              | inr other ↦ rw other (get-remove_lem key j after ∙ rw other (made.kept j))
            ]),
        made.lowest,
      )
