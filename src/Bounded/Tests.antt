-- ===== src/Bounded/Tests.antt =====
-- Runs of an eviction, and its theorem at concrete inputs.
use recurse_x.Prelude.{ℕ, ◌+◌, ◌<◌, ◌≡◌, refl, true, false, List, [], ◌∷◌, ltb, ◌==◌, length, arith}
use recurse_x.Maps.{get}
use recurse_x.Bounded.{evict_for_capacity}
use recurse_x.Bounded.Frees.{Evicted, evict_for_capacity-frees}

-- Keys with their stamps: three entries, none of them older than 5.
abbrev entries : List (ℕ × ℕ)
entries = (1, 9) ∷ (2, 7) ∷ (3, 8) ∷ []

-- Fewer entries than the stride: the single oldest one goes.
oldest_goes : evict_for_capacity ◌==◌ ltb (λ stamp. stamp) 5 8 entries ≡ ((1, 9) ∷ (3, 8) ∷ [], 1)
unfolding evict_for_capacity
oldest_goes = refl

every_second : evict_for_capacity ◌==◌ ltb (λ stamp. stamp) 5 0 entries ≡ ((1, 9) ∷ (3, 8) ∷ [], 1)
unfolding evict_for_capacity
every_second = refl

key_refl : (k : ℕ) → (k == k) ≡ true
key_refl k = ground arith

key_sound : (a b : ℕ) → (a == b) ≡ true → a ≡ b
key_sound a b h = ground arith

less_asym : (a b : ℕ) → ltb a b ≡ true → ltb b a ≡ false
less_asym a b h = ground arith

less_apart : (a b c : ℕ) → ltb a b ≡ false → ltb b c ≡ false → ltb a c ≡ false
less_apart a b c p q = ground arith

evict_for_capacity-frees_example :
    (0 < (evict_for_capacity ◌==◌ ltb (λ stamp. stamp) 5 8 entries).1)
    × ((evict_for_capacity ◌==◌ ltb (λ stamp. stamp) 5 8 entries).1
          + length (evict_for_capacity ◌==◌ ltb (λ stamp. stamp) 5 8 entries).0
        ≡ 3)
    × Evicted {K = ℕ} ltb
        (λ stamp. stamp)
        5
        8
        entries
        (evict_for_capacity ◌==◌ ltb (λ stamp. stamp) 5 8 entries).0
unfolding get
evict_for_capacity-frees_example =
    evict_for_capacity-frees ◌==◌ ltb (λ stamp. stamp) key_refl key_sound less_asym less_apart 5 8
      entries (refl, (refl, (refl, tt))) (omega arith)
