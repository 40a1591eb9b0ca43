-- ===== src/FakeIp/Cursor.antt =====
-- src/fakeip.rs: the cursor finds a free key whenever there is one.
use recurse_x.Prelude.{
  ℕ, zero, suc, ◌+◌, ◌-◌, ◌≤◌, ◌<◌, ◌≡◌, ◌≢◌, ◌⊎◌, refl, true, false, Bool-cases, inl, inr, none,
  some, Option-cases, List, length, arith,
}
use recurse_x.Maps.Counts.{candidate, following, candidate-following, free_candidate}
use recurse_x.FakeIp.Space.{Space, Entry, key_get, advance, contains_key, take_loop, take_key}
use recurse_x.FakeIp.Agrees.{key_eq-eq, key_eq_refl}

-- Only the cursor moves.
pub take_loop-next :
    (limit : ℕ) (s : Space) → (take_loop limit s).1 ≡ record s { next = (take_loop limit s).1.next }
unfolding take_loop advance
take_loop-next zero s = refl
take_loop-next (suc limit) s = elim (Bool-cases (contains_key (advance s).0 s.by_key)) [
  | inl taken ↦ rw (taken, advance) (take_loop-next limit (advance s).1)
  | inr free ↦ rw free refl
]

advance-within :
    (s : Space) → s.first ≤ s.last → (s.first ≤ (advance s).0) × ((advance s).0 ≤ s.last)
unfolding advance
advance-within s h = ground arith

index_cases : (i : ℕ) → (i ≡ 0) ⊎ ((j : ℕ) × (i ≡ suc j))
index_cases zero = inl refl
index_cases (suc j) = inr (j, refl)

advance-in_range : (s : Space) → s.first ≤ s.next → s.next ≤ s.last → (advance s).0 ≡ s.next
unfolding advance
advance-in_range s p q = ground arith

contains_key_lem :
    (key : ℕ) (m : List (ℕ × Entry)) → contains_key key m ≡ false → key_get key m ≡ none
unfolding contains_key
contains_key_lem key m h = elim (Option-cases (key_get key m)) [
  | inl absent ↦ absent
  | inr (e, there) ↦ let h' = rw (contains_key, there) at h in absurd (cc)
]

advance-moves :
    (s : Space)
    → s.first ≤ s.last
    → (advance s).1 ≡ record s { next = following s.first s.last (advance s).0 }
unfolding advance
advance-moves s h = refl

taken_key : (key : ℕ) (m : List (ℕ × Entry)) → contains_key key m ≡ true → key_get key m ≢ none
unfolding contains_key
taken_key key m h absent = let h' = rw (contains_key, absent) at h in absurd (cc)

-- A free key among the next candidates is found.
take_loop-finds :
    (limit : ℕ) (s : Space) (i : ℕ)
    → s.first ≤ s.last
    → limit ≤ suc (s.last - s.first)
    → i < limit
    → key_get (candidate s.first s.last (advance s).0 i) s.by_key ≡ none
    → (k : ℕ) × ((take_loop limit s).0 ≡ some k)
      × (key_get k s.by_key ≡ none)
      × (s.first ≤ k)
      × (k ≤ s.last)
unfolding take_loop
take_loop-finds zero s i room few below free = absurd (omega arith)
take_loop-finds (suc limit) s i room few below free =
    let (low, high) = advance-within s room in
    elim (Bool-cases (contains_key (advance s).0 s.by_key)) [
      | inr found ↦
          ((advance s).0, rw found refl, contains_key_lem (advance s).0 s.by_key found, low, high)
      | inl taken ↦ elim (index_cases i) [
        | inl first ↦
            let same : candidate s.first s.last (advance s).0 i ≡ (advance s).0 =
              rw first (ground arith) in
            absurd (taken_key (advance s).0 s.by_key taken (rw (← same) free))
        | inr (j, later) ↦
            let s' = record s { next = following s.first s.last (advance s).0 } in
            let start : (advance s').0 ≡ following s.first s.last (advance s).0 =
              advance-in_range s' (ground arith) (ground arith) in
            let same = candidate-following s.first s.last (advance s).0 j low high (omega arith) in
            let ih =
              take_loop-finds limit s' j room (omega arith) (omega arith)
                (rw (start, same, ← later) free) in
            rw (taken, advance-moves s room) ih
      ]
    ]

-- With fewer entries than keys there is a next key, and it is free.
pub take_key-free :
    (s : Space)
    → s.first ≤ s.last
    → length s.by_key ≤ s.last - s.first
    → (k : ℕ) × ((take_key s).0 ≡ some k)
      × (key_get k s.by_key ≡ none)
      × (s.first ≤ k)
      × (k ≤ s.last)
unfolding take_key
take_key-free s room few =
    let (low, high) = advance-within s room in
    let (i, below, free) =
      free_candidate key_eq-eq key_eq_refl (length s.by_key + 1) s.first s.last (advance s).0
        s.by_key low high (omega arith) (omega arith) in
    take_loop-finds (length s.by_key + 1) s i room (omega arith) below free

pub take_key-next : (s : Space) → (take_key s).1 ≡ record s { next = (take_key s).1.next }
unfolding take_key
take_key-next s = take_loop-next (length s.by_key + 1) s
