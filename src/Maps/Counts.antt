-- ===== src/Maps/Counts.antt =====
-- The number of a map's entries, and the keys that a small map leaves free.
use recurse_x.Prelude.{
  ℕ, zero, suc, ◌+◌, ◌-◌, ◌≤◌, ◌<◌, ◌≡◌, refl, sym, ◌∙◌, Bool, true, false, Bool-cases, inl, inr,
  none, some, Option-cases, List, [], ◌∷◌, if◌then◌else◌, leb, ◌==◌, length, All, arith,
}
use recurse_x.Maps.{get, replace, remove, place, insert, Distinct}
use recurse_x.Maps.Laws.{get-remove, remove-absent, insert-absent, insert-present}
use recurse_x.Maps.Sub.{Sub-Distinct, remove-Sub, get_sub-some}

module _ {ℓ} {K V : Type ℓ} (key_eq : K → K → Bool) where
  length-remove_le : (k : K) (m : List (K × V)) → length (remove key_eq k m) ≤ length m
  unfolding remove
  length-remove_le k [] = omega arith
  length-remove_le k ((j, v) ∷ m) = ground (arith, length-remove_le k m)

  pub length-remove_lt :
      (k : K) (v : V) (m : List (K × V))
      → get key_eq k m ≡ some v
      → length (remove key_eq k m) < length m
  unfolding remove get
  length-remove_lt k v [] h = absurd (cc)
  length-remove_lt k v ((j, w) ∷ m) h = elim (Bool-cases (key_eq k j)) [
    | inl same ↦ rw same (omega (arith, length-remove_le k m))
    | inr other ↦ rw other (omega (arith, length-remove_lt k v m (rw other at h)))
  ]

  module _ (sound : (a b : K) → key_eq a b ≡ true → a ≡ b)
      (self : (a : K) → key_eq a a ≡ true) where
    length-le-remove :
        (k : K) (m : List (K × V)) → Distinct key_eq m → length m ≤ suc (length (remove key_eq k m))
    unfolding remove
    length-le-remove k [] d = omega arith
    length-le-remove k ((j, w) ∷ m) (fresh, d) = elim (Bool-cases (key_eq k j)) [
      | inl same ↦
          let j_k = sound k j same in
          let gone : remove key_eq k m ≡ m = rw j_k (remove-absent key_eq sound self j m fresh) in
          rw (same, gone) (omega arith)
      | inr other ↦ rw other (omega (arith, length-le-remove k m d))
    ]

module _ {ℓ} {K V : Type ℓ} (key_eq before : K → K → Bool) where
  length-place :
      (k : K) (v : V) (m : List (K × V)) → length (place key_eq before k v m) ≡ suc (length m)
  unfolding place
  length-place k v [] = refl
  length-place k v ((j, w) ∷ m) = ground (arith, length-place k v m)

  length-replace : (k : K) (v : V) (m : List (K × V)) → length (replace key_eq k v m) ≡ length m
  unfolding replace
  length-replace k v [] = refl
  length-replace k v ((j, w) ∷ m) = ground (arith, length-replace k v m)

  pub length-insert_le :
      (k : K) (v : V) (m : List (K × V)) → length (insert key_eq before k v m) ≤ suc (length m)
  length-insert_le k v m = elim (Option-cases (get key_eq k m)) [
    | inl fresh ↦ rw (insert-absent key_eq before k v m fresh) (omega (arith, length-place k v m))
    | inr (w, known) ↦
        rw (insert-present key_eq before k v w m known) (omega (arith, length-replace k v m))
  ]

-- A property of every value that a key has.
module _ {ℓ} {K V : Type ℓ} (key_eq : K → K → Bool) (sound : (a b : K) → key_eq a b ≡ true → a ≡ b)
    (self : (a : K) → key_eq a a ≡ true) where
  pub All-get :
      (P : V → Type 0) (m : List (K × V))
      → Distinct key_eq m
      → ((k : K) (v : V) → get key_eq k m ≡ some v → P v)
      → All (λ (e : K × V). P e.1) m
  unfolding get
  All-get P [] d h = tt
  All-get P ((j, w) ∷ m) (fresh, d) h = (
    h j w (rw (self j) refl),
    All-get P m d (λ k v there. elim (Bool-cases (key_eq k j)) [
      | inl same ↦ let gone : get key_eq k m ≡ none = rw (sound k j same) fresh in absurd (cc)
      | inr other ↦ h k v (rw other there)
    ]),
  )

-- The keys in turn from `c`, and from `lo` again behind `hi`.
abbrev pub candidate : ℕ → ℕ → ℕ → ℕ → ℕ
candidate lo hi c i = if leb (c + i) hi then c + i else c + i - suc (hi - lo)

abbrev pub following : ℕ → ℕ → ℕ → ℕ
following lo hi c = if leb hi c then lo else c + 1

pub candidate-following :
    (lo hi c i : ℕ)
    → lo ≤ c
    → c ≤ hi
    → i < hi - lo
    → candidate lo hi (following lo hi c) i ≡ candidate lo hi c (suc i)
candidate-following lo hi c i p q r = ground arith

module _ {V : Type 0} (sound : (a b : ℕ) → (a == b) ≡ true → a ≡ b)
    (self : (a : ℕ) → (a == a) ≡ true) where
  -- As many entries as there are keys in their range, and no more.
  pub length-le-range :
      (n lo : ℕ) (m : List (ℕ × V))
      → Distinct ◌==◌ m
      → ((k : ℕ) (v : V) → get ◌==◌ k m ≡ some v → (lo ≤ k) × (k < lo + n))
      → length m ≤ n
  unfolding get
  length-le-range zero lo [] d range = omega arith
  length-le-range zero lo ((k, v) ∷ m) d range =
      let (low, high) = range k v (rw (self k) refl) in absurd (omega arith)
  length-le-range (suc n) lo m d range =
      let sub = remove-Sub ◌==◌ (lo + n) m in
      let few = length-le-range n lo (remove ◌==◌ (lo + n) m) (Sub-Distinct ◌==◌ sub d) (λ k v h.
        let law = get-remove ◌==◌ sound self k (lo + n) m in
        let (low, high) = range k v (get_sub-some ◌==◌ sound k v sub d h) in
        elim (Bool-cases (k == (lo + n))) [
          | inl last ↦ let gone = rw last at law in absurd (cc)
          | inr other ↦ (low, ground arith)
        ]) in
      omega (arith, length-le-remove ◌==◌ sound self (lo + n) m d)

  -- Of more candidates than entries one is free.
  pub free_candidate :
      (count lo hi c : ℕ) (m : List (ℕ × V))
      → lo ≤ c
      → c ≤ hi
      → count ≤ suc (hi - lo)
      → length m < count
      → (i : ℕ) × (i < count) × (get ◌==◌ (candidate lo hi c i) m ≡ none)
  free_candidate zero lo hi c m p q r h = absurd (omega arith)
  free_candidate (suc count) lo hi c m p q r h = elim (Option-cases (get ◌==◌ c m)) [
    | inl free ↦
        let first : candidate lo hi c 0 ≡ c = ground arith in (0, omega arith, rw first free)
    | inr (v, taken) ↦
        let fewer = length-remove_lt ◌==◌ c v m taken in
        let (i, below, free) =
          free_candidate count lo hi (following lo hi c) (remove ◌==◌ c m) (ground arith)
            (ground arith) (omega arith) (omega arith) in
        let here = candidate lo hi c (suc i) in
        let same = candidate-following lo hi c i p q (omega arith) in
        let law = get-remove ◌==◌ sound self here c m in
        let apart : (here == c) ≡ false = ground arith in
        (suc i, omega arith, sym (rw apart at law) ∙ rw (← same) free)
  ]
