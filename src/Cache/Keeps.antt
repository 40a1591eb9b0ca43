-- ===== src/Cache/Keeps.antt =====
-- src/cache/mod.rs: the map of a tier and its rank index do not drift apart.
use recurse_x.Prelude.{
  ℕ, ◌≡◌, refl, sym, ◌∙◌, Bool, true, false, Bool-cases, inl, inr, Option, none, some, Option-cases,
  some-eq, List, [], ◌∷◌, ◌==◌, if◌then◌else◌, arith,
}
use recurse_x.Maps
use recurse_x.Maps.{get, Distinct}
use recurse_x.Maps.Laws.{get-remove, get-insert, insert-Distinct}
use recurse_x.Maps.Sub.{Sub-Distinct, remove-Sub, get_sub-some}
use recurse_x.Sets.{has, without}
use recurse_x.Sets.Laws.{has-add, has-without}
use recurse_x.Cache.Tier.{
  TierMap, new, rank_eq, rank_less, pop_loop, pop_lowest, remove, store, dead_keys, remove_all,
  retain,
}
use recurse_x.Cache.Ranks.{
  Once, Ascending, without-Once, without-Ascending, add-Once, add-Ascending,
}

single :
    (p r : Bool) → (if (if p then true else false) then false else r) ≡ (if p then false else r)
single true r = refl
single false r = refl

unfoldable pub of_rank : {E : Type 0} → (E → ℕ) → ℕ → Option E → Bool
of_rank rank_of r none = false
of_rank rank_of r (some e) = rank_of e == r

module _ {K E : Type 0} (key_eq key_less : K → K → Bool) (key_of : E → K) (rank_of : E → ℕ) where
  -- Whether the map holds an entry of that rank under the key.
  abbrev pub ranked : List (K × E) → ℕ × K → Bool
  ranked m x = of_rank rank_of x.0 (get key_eq x.1 m)

  -- Entries stand under their own keys, each key once, and the index holds the ranks and keys of the entries
  -- and nothing else, in the order of the ranks.
  pub record IsValid (t : TierMap K E) : Type 0 where
    pub keys_once : Distinct key_eq t.map
    pub keyed : (k : K) (e : E) → get key_eq k t.map ≡ some e → key_of e ≡ k
    pub ranks_once : Once (rank_eq key_eq key_less key_of rank_of) t.rank
    pub ascending : Ascending t.rank
    pub indexed :
        (x : ℕ × K) → has (rank_eq key_eq key_less key_of rank_of) x t.rank ≡ ranked t.map x

module _ {K E : Type 0} (key_eq key_less : K → K → Bool) (key_of : E → K) (rank_of : E → ℕ)
    (sound : (a b : K) → key_eq a b ≡ true → a ≡ b) (self : (a : K) → key_eq a a ≡ true) where
  pub rank_eq-eq : (x y : ℕ × K) → rank_eq key_eq key_less key_of rank_of x y ≡ true → x ≡ y
  rank_eq-eq (r, k) (q, j) h =
      let (ranks, keys) : ((r == q) ≡ true) × (key_eq k j ≡ true) = ground arith in
      let e : r ≡ q = ground arith in let f = sound k j keys in λ i. (e i, f i)

  pub rank_eq_refl : (x : ℕ × K) → rank_eq key_eq key_less key_of rank_of x x ≡ true
  rank_eq_refl (r, k) = rw (self k) (ground arith)

  -- The index and the map without one entry.
  pub ranked-remove :
      (k : K) (e : E) (m : List (K × E)) (x : ℕ × K)
      → get key_eq k m ≡ some e
      → ranked key_eq key_less key_of rank_of (Maps.remove key_eq k m) x ≡ (
          if rank_eq key_eq key_less key_of rank_of x (rank_of e, k)
          then false
          else ranked key_eq key_less key_of rank_of m x)
  unfolding of_rank
  ranked-remove k e m (r, j) there =
      let law = get-remove key_eq sound self j k m in
      elim (Bool-cases (key_eq j k)) [
        | inl same ↦
            let j_k = sound j k same in
            let gone : get key_eq j (Maps.remove key_eq k m) ≡ none = law ∙ rw same refl in
            let here : get key_eq j m ≡ some e = rw j_k there in
            rw (gone, here, same) (ground arith)
        | inr other ↦
            let kept : get key_eq j (Maps.remove key_eq k m) ≡ get key_eq j m =
              law ∙ rw other refl in
            rw (kept, other) (ground arith)
      ]

  -- The map, the index and the capacity without the entry of a key.
  pub removed-IsValid :
      (k : K) (e : E) (t : TierMap K E) (rest : List (ℕ × K))
      → IsValid key_eq key_less key_of rank_of t
      → get key_eq k t.map ≡ some e
      → Once (rank_eq key_eq key_less key_of rank_of) rest
      → Ascending rest
      → ((x : ℕ × K)
          → has (rank_eq key_eq key_less key_of rank_of) x rest ≡ (
              if rank_eq key_eq key_less key_of rank_of x (rank_of e, k)
              then false
              else has (rank_eq key_eq key_less key_of rank_of) x t.rank))
      → IsValid key_eq key_less key_of rank_of
          (record t { map = Maps.remove key_eq k t.map; rank = rest })
  removed-IsValid k e t rest v there once ascending left =
      let sub = remove-Sub key_eq k t.map in
      record {
        keys_once = Sub-Distinct key_eq sub v.keys_once;
        keyed = λ j f h. v.keyed j f (get_sub-some key_eq sound j f sub v.keys_once h);
        ranks_once = once;
        ascending = ascending;
        indexed = λ x. left x ∙ rw (v.indexed x) (sym (ranked-remove k e t.map x there));
      }

  pub remove-IsValid :
      (k : K) (t : TierMap K E)
      → IsValid key_eq key_less key_of rank_of t
      → IsValid key_eq key_less key_of rank_of (remove key_eq key_less key_of rank_of k t).1
  unfolding remove has
  remove-IsValid k t v = elim (Option-cases (get key_eq k t.map)) [
    | inl absent ↦ rw (remove, absent) v
    | inr (e, there) ↦
        let eq = rank_eq key_eq key_less key_of rank_of in
        let rest = without eq ((rank_of e, k) ∷ []) t.rank in
        rw (remove, there)
          (removed-IsValid k e t rest v there
            (without-Once eq ((rank_of e, k) ∷ []) t.rank v.ranks_once)
            (without-Ascending key_eq key_less key_of rank_of ((rank_of e, k) ∷ []) t.rank
              v.ascending)
            (λ x.
              has-without eq (rank_less key_eq key_less key_of rank_of) rank_eq-eq x
                ((rank_of e, k) ∷ []) t.rank
              ∙ single (eq x (rank_of e, k)) (has eq x t.rank)))
  ]

  -- An entry under a key that the map does not hold.
  pub store-IsValid :
      (entry : E) (t : TierMap K E)
      → IsValid key_eq key_less key_of rank_of t
      → get key_eq (key_of entry) t.map ≡ none
      → IsValid key_eq key_less key_of rank_of (store key_eq key_less key_of rank_of entry t)
  unfolding store of_rank
  store-IsValid entry t v absent =
      let k = key_of entry in
      let eq = rank_eq key_eq key_less key_of rank_of in
      let less = rank_less key_eq key_less key_of rank_of in
      record {
        keys_once = insert-Distinct key_eq sound self key_less k entry t.map v.keys_once;
        keyed = λ j f h.
            let law = get-insert key_eq sound self key_less j k entry t.map in
            elim (Bool-cases (key_eq j k)) [
              | inl same ↦
                  let e : entry ≡ f = some-eq (sym (law ∙ rw same refl) ∙ h) in
                  rw (← e) (sym (sound j k same))
              | inr other ↦
                  let before : get key_eq j t.map ≡ some f = sym (law ∙ rw other refl) ∙ h in
                  v.keyed j f before
            ];
        ranks_once =
            add-Once eq less rank_eq-eq rank_eq_refl (rank_of entry, k) t.rank v.ranks_once;
        ascending =
            add-Ascending key_eq key_less key_of rank_of (rank_of entry, k) t.rank v.ascending;
        indexed = λ (r, j).
            let law = get-insert key_eq sound self key_less j k entry t.map in
            has-add eq less rank_eq-eq (r, j) (rank_of entry, k) t.rank
            ∙ rw (v.indexed (r, j), law)
                (elim (Bool-cases (key_eq j k)) [
                  | inl same ↦
                      let gone : get key_eq j t.map ≡ none = rw (sound j k same) absent in
                      rw (same, gone) (ground arith)
                  | inr other ↦ rw other (ground arith)
                ]);
      }

  -- The first of the index is an entry, and of the least rank.
  pub pop_lowest-Lowest :
      (t : TierMap K E) (x : ℕ × K) (rest : List (ℕ × K))
      → IsValid key_eq key_less key_of rank_of t
      → t.rank ≡ x ∷ rest
      → (e : E) × (get key_eq x.1 t.map ≡ some e)
        × (rank_of e ≡ x.0)
        × (pop_lowest key_eq key_less key_of rank_of t
            ≡ (some e, record t { map = Maps.remove key_eq x.1 t.map; rank = rest }))
  unfolding pop_lowest pop_loop has of_rank
  pop_lowest-Lowest t x rest v first = elim (Option-cases (get key_eq x.1 t.map)) [
    | inl absent ↦
        let here = v.indexed x in let h = rw (first, rank_eq_refl x, absent) at here in absurd (cc)
    | inr (e, there) ↦
        let here = v.indexed x in
        let h = rw (first, rank_eq_refl x, there) at here in
        (e, there, ground arith, rw (pop_lowest, first, pop_loop, there) refl)
  ]

  pub new-IsValid : (capacity : ℕ) → IsValid key_eq key_less key_of rank_of (new capacity)
  unfolding new get has of_rank
  new-IsValid capacity = record {
    keys_once = tt;
    keyed = λ k e h. absurd (cc);
    ranks_once = tt;
    ascending = tt;
    indexed = λ x. refl;
  }

  remove_all-IsValid :
      (dead : List K) (t : TierMap K E)
      → IsValid key_eq key_less key_of rank_of t
      → IsValid key_eq key_less key_of rank_of (remove_all key_eq key_less key_of rank_of dead t)
  unfolding remove_all
  remove_all-IsValid [] t v = v
  remove_all-IsValid (k ∷ dead) t v =
      remove_all-IsValid dead (remove key_eq key_less key_of rank_of k t).1 (remove-IsValid k t v)

  pub retain-IsValid :
      (keep : K → E → Bool) (t : TierMap K E)
      → IsValid key_eq key_less key_of rank_of t
      → IsValid key_eq key_less key_of rank_of (retain key_eq key_less key_of rank_of keep t)
  unfolding retain
  retain-IsValid keep t v =
      remove_all-IsValid (dead_keys key_eq key_less key_of rank_of keep t.map) t v
