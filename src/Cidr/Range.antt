-- ===== src/Cidr/Range.antt =====
-- src/cidr.rs: a block is the range of addresses from the network address to the last one.
use native.Mathlib.Nat.{
  mod-eq_of_lt, div-add-mod', mod-lt, one-le-pow, pow-le-pow_right, mul-le-mul_right,
}
use recurse_x.Prelude.{
  ℕ, suc, ◌+◌, ◌-◌, ◌*◌, ◌/◌, ◌%◌, ◌^◌, ◌≤◌, ◌<◌, ◌≡◌, ◌↔◌, ◌⊎◌, refl, ap, true, Bool-cases, inl,
  inr, none, some, leb, ltb, ◌==◌, if◌then◌else◌, ==_iff, arith,
}
use recurse_x.Prelude.Bits.{bit_and, bit_or, bit_and-high, bit_or-shifted, shifted_ones}
use recurse_x.Cidr.V4 as V4
use recurse_x.Cidr.V4.{Ipv4Cidr, mask_v4}
use recurse_x.Cidr.V6 as V6
use recurse_x.Cidr.V6.{Ipv6Cidr, mask_v6}

-- A multiple of `b` below the one after `q * b` is at most `q * b`.
le_of_multiple : (b p q : ℕ) → p * b < q * b + b → p ≤ q
le_of_multiple b p q h = elim (Bool-cases (leb p q)) [
  | inl below ↦ ground arith
  | inr above ↦
      let next : suc q ≤ p = ground arith in absurd (omega (arith, mul-le-mul_right b next))
]

-- Rounding down to a multiple of `b` gives `q * b` exactly for the numbers of that block.
block_iff : (b x q : ℕ) → 0 < b → (x / b * b ≡ q * b) ↔ ((q * b ≤ x) × (x ≤ q * b + (b - 1)))
block_iff b x q h =
    let split = div-add-mod' x b in
    let rest = mod-lt x h in
    (
      λ e. (omega arith, omega arith),
      λ (lower, upper).
          let above = le_of_multiple b q (x / b) (omega arith) in
          let below = le_of_multiple b (x / b) q (omega arith) in
          let same : x / b ≡ q = omega arith in ap (λ t. t * b) same,
    )

mask_cases :
    (w prefix : ℕ)
    → prefix ≤ w
    → (if prefix == 0
        then 0
        else if leb w prefix
        then 2 ^ w - 1
        else (2 ^ w - 1) * 2 ^ (w - prefix) % 2 ^ w)
      ≡ 2 ^ w - 2 ^ (w - prefix)
mask_cases w prefix h = elim (Bool-cases (prefix == 0)) [
  | inl zero_bits ↦ let e : w - prefix ≡ w = ground arith in rw (zero_bits, e) (omega arith)
  | inr some_bits ↦ elim (Bool-cases (leb w prefix)) [
    | inl full ↦ let e : w - prefix ≡ 0 = ground arith in rw (some_bits, full, e) refl
    | inr partial ↦
        rw (some_bits, partial)
          (shifted_ones (2 ^ w) (2 ^ (w - prefix)) (one-le-pow (w - prefix) 2 (omega arith))
            (pow-le-pow_right (omega arith) (omega arith)))
  ]
]

-- What a mask with `k` low digits clear does to addresses of `w` bits.
module _ (w k : ℕ) (narrow : k ≤ w) (addr : ℕ) (fits : addr < 2 ^ w) where
  last_of_block :
      bit_or (bit_and addr (2 ^ w - 2 ^ k)) (2 ^ w - 1 - (2 ^ w - 2 ^ k))
      ≡ bit_and addr (2 ^ w - 2 ^ k) + (2 ^ k - 1)
  last_of_block =
      let some_digits = one-le-pow k 2 (omega arith) in
      let smaller : 2 ^ k ≤ 2 ^ w = pow-le-pow_right (omega arith) narrow in
      let ones : 2 ^ w - 1 - (2 ^ w - 2 ^ k) ≡ 2 ^ k - 1 = omega arith in
      rw (bit_and-high k w addr narrow fits, ones)
        (bit_or-shifted k (addr / 2 ^ k) (2 ^ k - 1) (omega arith))

  in_block_iff :
      (ip : ℕ)
      → ip < 2 ^ w
      → ((bit_and ip (2 ^ w - 2 ^ k) == bit_and addr (2 ^ w - 2 ^ k)) ≡ true)
        ↔ ((bit_and addr (2 ^ w - 2 ^ k) ≤ ip) × (ip ≤ bit_and addr (2 ^ w - 2 ^ k) + (2 ^ k - 1)))
  in_block_iff ip h =
      let size = one-le-pow k 2 (omega arith) in
      let (to, from) = block_iff (2 ^ k) ip (addr / 2 ^ k) size in
      rw (bit_and-high k w addr narrow fits, bit_and-high k w ip narrow h)
        (
          λ e. to ((==_iff (ip / 2 ^ k * 2 ^ k) (addr / 2 ^ k * 2 ^ k)).0 e),
          λ b. (==_iff (ip / 2 ^ k * 2 ^ k) (addr / 2 ^ k * 2 ^ k)).1 (from b),
        )

-- The mask of every prefix, the two ends included.
mask_v4_lem : (prefix : ℕ) → prefix ≤ 32 → mask_v4 prefix ≡ 2 ^ 32 - 2 ^ (32 - prefix)
unfolding mask_v4
mask_v4_lem prefix h = mask_cases 32 prefix h

mask_v6_lem : (prefix : ℕ) → prefix ≤ 128 → mask_v6 prefix ≡ 2 ^ 128 - 2 ^ (128 - prefix)
unfolding mask_v6
mask_v6_lem prefix h = mask_cases 128 prefix h

size_of_block : (k n : ℕ) → k ≤ 32 → n + (2 ^ k - 1) + 1 ≡ n + 2 ^ k % 2 ^ 64
size_of_block k n h =
    let some_digits = one-le-pow k 2 (omega arith) in
    let below : 2 ^ k ≤ 2 ^ 32 = pow-le-pow_right (omega arith) h in
    let small : 2 ^ k % 2 ^ 64 ≡ 2 ^ k = mod-eq_of_lt (omega arith) in rw small (omega arith)

length_of_block : (k n : ℕ) → n + (2 ^ k - 1) + 1 ≡ n + 2 ^ k
length_of_block k n = let some_digits = one-le-pow k 2 (omega arith) in omega arith

-- A prefix of at most 32 bits gives a block, a longer one does not; the block holds exactly the
-- addresses from its network address to its broadcast address, and these are `len` many.
pub contains-range_v4 :
    (addr prefix : ℕ)
    → addr < 2 ^ 32
    → ((32 < prefix) × (V4.new addr prefix ≡ none))
      ⊎ ((c : Ipv4Cidr) × (V4.new addr prefix ≡ some c)
          × ((ip : ℕ)
              → ip < 2 ^ 32
              → (V4.contains c ip ≡ true) ↔ ((V4.network c ≤ ip) × (ip ≤ V4.broadcast c)))
          × (V4.broadcast c + 1 ≡ V4.network c + V4.len c))
unfolding V4.new V4.contains V4.network V4.broadcast V4.len
contains-range_v4 addr prefix fits = elim (Bool-cases (ltb 32 prefix)) [
  | inl long ↦ inl (ground arith, rw long refl)
  | inr short ↦
      let fit : prefix ≤ 32 = ground arith in
      let k = 32 - prefix in
      let narrow : k ≤ 32 = omega arith in
      let mask = mask_v4_lem prefix fit in
      inr (
        record { base = bit_and addr (mask_v4 prefix); prefix = prefix },
        rw short refl,
        rw (mask, last_of_block 32 k narrow addr fits) (in_block_iff 32 k narrow addr fits),
        rw (mask, last_of_block 32 k narrow addr fits)
            (size_of_block k (bit_and addr (2 ^ 32 - 2 ^ k)) narrow),
      )
]

-- A prefix of at most 128 bits gives a block of 128-bit addresses, a longer one does not; the block
-- holds the address it is made from, and exactly the addresses from its network address to its
-- broadcast address, which are as many as the bits behind the prefix can tell apart.
pub contains-range_v6 :
    (addr prefix : ℕ)
    → addr < 2 ^ 128
    → ((128 < prefix) × (V6.new addr prefix ≡ none))
      ⊎ ((c : Ipv6Cidr) × (V6.new addr prefix ≡ some c)
          × ((ip : ℕ)
              → ip < 2 ^ 128
              → (V6.contains c ip ≡ true) ↔ ((V6.network c ≤ ip) × (ip ≤ V6.broadcast c)))
          × (V6.contains c addr ≡ true)
          × (V6.broadcast c + 1 ≡ V6.network c + 2 ^ (128 - prefix)))
unfolding V6.new V6.contains V6.network V6.broadcast
contains-range_v6 addr prefix fits = elim (Bool-cases (ltb 128 prefix)) [
  | inl long ↦ inl (ground arith, rw long refl)
  | inr short ↦
      let fit : prefix ≤ 128 = ground arith in
      let k = 128 - prefix in
      let narrow : k ≤ 128 = omega arith in
      let mask = mask_v6_lem prefix fit in
      inr (
        record { base = bit_and addr (mask_v6 prefix); prefix = prefix },
        rw short refl,
        rw (mask, last_of_block 128 k narrow addr fits) (in_block_iff 128 k narrow addr fits),
        (let base = bit_and addr (mask_v6 prefix) in (==_iff base base).1 refl),
        rw (mask, last_of_block 128 k narrow addr fits)
            (length_of_block k (bit_and addr (2 ^ 128 - 2 ^ k))),
      )
]
