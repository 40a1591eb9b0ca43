-- ===== src/Cache/Ranks.antt =====
-- src/cache/mod.rs: the rank index of a tier is a set in the order of ranks.
use recurse_x.Prelude.{
  ℕ, ◌≤◌, ◌≡◌, refl, ◌∙◌, Bool, true, false, Bool-cases, inl, inr, List, [], ◌∷◌, arith,
}
use recurse_x.Sets.{has, without, enter, add}
use recurse_x.Sets.Laws.{has-enter}
use recurse_x.Maps.Laws.{apart_sym}
use recurse_x.Cache.Tier.{rank_eq, rank_less}

-- No element stands twice.
module _ {A : Type 0} (eq : A → A → Bool) where
  abbrev pub Once : List A → Type 0
  Once [] = Unit
  Once (x ∷ s) = (has eq x s ≡ false) × Once s

  has-without_absent :
      (i : A) (dead s : List A) → has eq i s ≡ false → has eq i (without eq dead s) ≡ false
  unfolding has without
  has-without_absent i dead [] h = refl
  has-without_absent i dead (j ∷ s) h = elim (Bool-cases (eq i j)) [
    | inl same ↦ let h' = rw same at h in cc
    | inr other ↦
        let ih = has-without_absent i dead s (rw other at h) in
        elim (Bool-cases (has eq j dead)) [
          | inl gone ↦ rw gone ih
          | inr stays ↦ rw (stays, has, other) ih
        ]
  ]

  pub without-Once : (dead s : List A) → Once s → Once (without eq dead s)
  unfolding without
  without-Once dead [] o = o
  without-Once dead (j ∷ s) (fresh, o) = elim (Bool-cases (has eq j dead)) [
    | inl gone ↦ rw gone (without-Once dead s o)
    | inr stays ↦ rw stays (has-without_absent j dead s fresh, without-Once dead s o)
  ]

-- Every rank is at most those behind it.
abbrev pub AtMost : {K : Type 0} → ℕ → List (ℕ × K) → Type 0
AtMost r [] = Unit
AtMost r (x ∷ s) = (r ≤ x.0) × AtMost r s

abbrev pub Ascending : {K : Type 0} → List (ℕ × K) → Type 0
Ascending [] = Unit
Ascending (x ∷ s) = AtMost x.0 s × Ascending s

AtMost-weaken : {K : Type 0} (q r : ℕ) (s : List (ℕ × K)) → q ≤ r → AtMost r s → AtMost q s
AtMost-weaken q r [] h a = tt
AtMost-weaken q r (x ∷ s) h (low, a) = (omega arith, AtMost-weaken q r s h a)

module _ {K : Type 0} (key_eq key_less : K → K → Bool) {E : Type 0} (key_of : E → K)
    (rank_of : E → ℕ) where
  AtMost-enter :
      (r : ℕ) (x : ℕ × K) (s : List (ℕ × K))
      → r ≤ x.0
      → AtMost r s
      → AtMost r (
          enter
            (rank_eq key_eq key_less key_of rank_of)
            (rank_less key_eq key_less key_of rank_of)
            x
            s)
  unfolding enter
  AtMost-enter r x [] h a = (h, tt)
  AtMost-enter r x (y ∷ s) h (low, a) =
      elim (Bool-cases (rank_less key_eq key_less key_of rank_of x y)) [
        | inl first ↦ rw first (h, (low, a))
        | inr later ↦ rw later (low, AtMost-enter r x s h a)
      ]

  pub enter-Ascending :
      (x : ℕ × K) (s : List (ℕ × K))
      → Ascending s
      → Ascending (
          enter
            (rank_eq key_eq key_less key_of rank_of)
            (rank_less key_eq key_less key_of rank_of)
            x
            s)
  unfolding enter
  enter-Ascending x [] a = (tt, tt)
  enter-Ascending x (y ∷ s) (low, a) =
      elim (Bool-cases (rank_less key_eq key_less key_of rank_of x y)) [
        | inl first ↦
            let le : x.0 ≤ y.0 = ground arith in
            rw first ((le, AtMost-weaken x.0 y.0 s le low), (low, a))
        | inr later ↦
            let le : y.0 ≤ x.0 = ground arith in
            rw later (AtMost-enter y.0 x s le low, enter-Ascending x s a)
      ]

  pub AtMost-has :
      (r : ℕ) (x : ℕ × K) (s : List (ℕ × K))
      → AtMost r s
      → has (rank_eq key_eq key_less key_of rank_of) x s ≡ true
      → r ≤ x.0
  unfolding has
  AtMost-has r x [] a h = absurd (cc)
  AtMost-has r x (y ∷ s) (low, a) h =
      elim (Bool-cases (rank_eq key_eq key_less key_of rank_of x y)) [
        | inl same ↦ ground arith
        | inr other ↦ AtMost-has r x s a (rw other at h)
      ]

  AtMost-without :
      (r : ℕ) (dead s : List (ℕ × K))
      → AtMost r s
      → AtMost r (without (rank_eq key_eq key_less key_of rank_of) dead s)
  unfolding without
  AtMost-without r dead [] a = tt
  AtMost-without r dead (y ∷ s) (low, a) =
      elim (Bool-cases (has (rank_eq key_eq key_less key_of rank_of) y dead)) [
        | inl gone ↦ rw gone (AtMost-without r dead s a)
        | inr stays ↦ rw stays (low, AtMost-without r dead s a)
      ]

  pub without-Ascending :
      (dead s : List (ℕ × K))
      → Ascending s
      → Ascending (without (rank_eq key_eq key_less key_of rank_of) dead s)
  unfolding without
  without-Ascending dead [] a = tt
  without-Ascending dead (y ∷ s) (low, a) =
      elim (Bool-cases (has (rank_eq key_eq key_less key_of rank_of) y dead)) [
        | inl gone ↦ rw gone (without-Ascending dead s a)
        | inr stays ↦ rw stays (AtMost-without y.0 dead s low, without-Ascending dead s a)
      ]

  pub add-Ascending :
      (x : ℕ × K) (s : List (ℕ × K))
      → Ascending s
      → Ascending (
          add
            (rank_eq key_eq key_less key_of rank_of)
            (rank_less key_eq key_less key_of rank_of)
            x
            s)
  unfolding add
  add-Ascending x s a = elim (Bool-cases (has (rank_eq key_eq key_less key_of rank_of) x s)) [
    | inl present ↦ rw (add, present) a
    | inr absent ↦ rw (add, absent) (enter-Ascending x s a)
  ]

-- A new element, nowhere before.
module _ {A : Type 0} (eq before : A → A → Bool) (sound : (a b : A) → eq a b ≡ true → a ≡ b)
    (self : (a : A) → eq a a ≡ true) where
  enter-Once : (x : A) (s : List A) → has eq x s ≡ false → Once eq s → Once eq (enter eq before x s)
  unfolding enter has
  enter-Once x [] h o = (refl, tt)
  enter-Once x (y ∷ s) h (fresh, o) = elim (Bool-cases (eq x y)) [
    | inl same ↦ let h' = rw same at h in absurd (cc)
    | inr other ↦ elim (Bool-cases (before x y)) [
      | inl first ↦ rw first (h, (fresh, o))
      | inr later ↦
          let absent : has eq y (enter eq before x s) ≡ false =
            has-enter eq before y x s ∙ rw (apart_sym eq sound self x y other) fresh in
          rw later (absent, enter-Once x s (rw other at h) o)
    ]
  ]

  pub add-Once : (x : A) (s : List A) → Once eq s → Once eq (add eq before x s)
  unfolding add
  add-Once x s o = elim (Bool-cases (has eq x s)) [
    | inl present ↦ rw (add, present) o
    | inr absent ↦ rw (add, absent) (enter-Once x s absent o)
  ]
