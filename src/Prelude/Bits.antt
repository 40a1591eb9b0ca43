-- ===== src/Prelude/Bits.antt =====
-- The bit operations in arithmetic: a law for the lowest digit, and what follows from it.
use Prim.Native.Nat.{
  ℕ, zero, suc, ◌+◌, ◌-◌, ◌*◌, ◌/◌, ◌%◌, ◌^◌, ◌≤◌, ◌<◌, min, max, digits, bitwise, bit_and-bitwise,
  bit_or-bitwise,
}
pub use Prim.Native.Nat.{bit_and, bit_or}
use mathlib.Core.Path.{◌≡◌, refl, sym, ap, ◌∙◌}
use mathlib.Core.Bool.{Bool, true, ◌&&◌}
use native.Mathlib.Omega.{arith}
use native.Mathlib.Nat.{
  pow-suc, mod_def, div-add-mod, one-le-pow, mul_comm, div-div-eq-div-mul, mod-eq_of_lt,
  add-mul-mod_self_left,
}
use recurse_x.Prelude.Tests.{◌==◌}

module _ (left : ℕ → ℕ) (op : ℕ → ℕ → ℕ) where
  -- Fuel above the first operand does not change the digits.
  fuel_irrelevant : (n m a b : ℕ) → a ≤ n → a ≤ m → digits left op n a b ≡ digits left op m a b
  fuel_irrelevant zero zero a b p q = refl
  fuel_irrelevant zero (suc m) zero b p q = refl
  fuel_irrelevant zero (suc m) (suc a) b p q = elim p [ ]
  fuel_irrelevant (suc n) zero zero b p q = refl
  fuel_irrelevant (suc n) zero (suc a) b p q = elim q [ ]
  fuel_irrelevant (suc n) (suc m) zero b p q = refl
  fuel_irrelevant (suc n) (suc m) (suc a) b p q =
      rw (fuel_irrelevant n m (suc a / 2) (b / 2) (omega arith) (omega arith))

  lowest_digit :
      (a b : ℕ)
      → bitwise left op (suc a) b ≡ bitwise left op (suc a / 2) (b / 2) * 2 + op (suc a % 2) (b % 2)
  lowest_digit a b =
      omega (arith, fuel_irrelevant a (suc a / 2) (suc a / 2) (b / 2) (omega arith) (omega arith))

pub bit_or_digit : (a b : ℕ) → bit_or a b ≡ bit_or (a / 2) (b / 2) * 2 + max (a % 2) (b % 2)
bit_or_digit zero b = simp bit_or-bitwise (omega arith)
bit_or_digit (suc a) b = simp bit_or-bitwise (lowest_digit (λ y. y) max a b)

pub bit_and_digit : (a b : ℕ) → bit_and a b ≡ bit_and (a / 2) (b / 2) * 2 + min (a % 2) (b % 2)
bit_and_digit zero b = simp bit_and-bitwise (omega arith)
bit_and_digit (suc a) b = simp bit_and-bitwise (lowest_digit (λ y. 0) min a b)

or_zero_below : (n a : ℕ) → a ≤ n → bit_or a 0 ≡ a
or_zero_below n zero h = refl
or_zero_below zero (suc a) h = elim h [ ]
or_zero_below (suc n) (suc a) h =
    omega (arith, bit_or_digit (suc a) 0, or_zero_below n (suc a / 2) (omega arith))

and_zero_below : (n a : ℕ) → a ≤ n → bit_and a 0 ≡ 0
and_zero_below n zero h = refl
and_zero_below zero (suc a) h = elim h [ ]
and_zero_below (suc n) (suc a) h =
    omega (arith, bit_and_digit (suc a) 0, and_zero_below n (suc a / 2) (omega arith))

pub bit_and-zero : (a : ℕ) → bit_and a 0 ≡ 0
bit_and-zero a = and_zero_below a a (omega arith)

-- Digits below those of a shifted value are set by addition.
pub bit_or-shifted : (k a b : ℕ) → b < 2 ^ k → bit_or (a * 2 ^ k) b ≡ a * 2 ^ k + b
bit_or-shifted zero a b h =
    let e : b ≡ 0 = omega arith in rw e (or_zero_below (a * 1) (a * 1) (omega arith) ∙ omega arith)
bit_or-shifted (suc k) a b h =
    let p : 2 ^ suc k ≡ 2 ^ k * 2 = pow-suc 2 k in
    let half : a * 2 ^ suc k / 2 ≡ a * 2 ^ k = rw p (omega arith) in
    let even : a * 2 ^ suc k % 2 ≡ 0 = rw p (omega arith) in
    bit_or_digit (a * 2 ^ suc k) b
    ∙ rw (half, even) (rw (bit_or-shifted k a (b / 2) (omega (arith, p))) (rw p (omega arith)))

-- All digits below `2 ^ w` kept.
and_ones : (w x : ℕ) → x < 2 ^ w → bit_and x (2 ^ w - 1) ≡ x
and_ones zero x h = let e : x ≡ 0 = omega arith in rw e
and_ones (suc w) x h =
    let p : 2 ^ suc w ≡ 2 ^ w * 2 = pow-suc 2 w in
    let half : (2 ^ suc w - 1) / 2 ≡ 2 ^ w - 1 = rw p (omega arith) in
    bit_and_digit x (2 ^ suc w - 1)
    ∙ rw half (omega (arith, p, and_ones w (x / 2) (omega (arith, p))))

mod_double : (x m : ℕ) → x % (m * 2) ≡ x / 2 % m * 2 + x % 2
mod_double x m = omega (
  arith,
  mod_def x (m * 2),
  div-add-mod (x / 2) m,
  ap (λ (t : ℕ). m * 2 * t) (sym (div-div-eq-div-mul x 2 m ∙ ap (λ (d : ℕ). x / d) (mul_comm 2 m))),
)

-- The low digits of any number.
pub bit_and-low : (k x : ℕ) → bit_and x (2 ^ k - 1) ≡ x % 2 ^ k
bit_and-low zero x = bit_and-zero x ∙ omega arith
bit_and-low (suc k) x =
    let p : 2 ^ suc k ≡ 2 ^ k * 2 = pow-suc 2 k in
    let b : 0 < 2 ^ k = one-le-pow k 2 (omega arith) in
    let half : (2 ^ suc k - 1) / 2 ≡ 2 ^ k - 1 = rw p (omega arith) in
    let odd : (2 ^ suc k - 1) % 2 ≡ 1 = rw p (omega arith) in
    bit_and_digit x (2 ^ suc k - 1)
    ∙ rw (half, odd, bit_and-low k (x / 2), p, mod_double) (omega arith)

-- One digit.
pub bit_and-digit : (k x : ℕ) → bit_and x (2 ^ k) ≡ x / 2 ^ k % 2 * 2 ^ k
bit_and-digit zero x = omega (arith, bit_and_digit x 1, bit_and-zero (x / 2))
bit_and-digit (suc k) x =
    let p : 2 ^ suc k ≡ 2 ^ k * 2 = pow-suc 2 k in
    let half : 2 ^ suc k / 2 ≡ 2 ^ k = rw p (omega arith) in
    let even : 2 ^ suc k % 2 ≡ 0 = rw p (omega arith) in
    let quotient : x / 2 ^ suc k ≡ x / 2 / 2 ^ k =
      rw (p, div-div-eq-div-mul) (ap (λ (d : ℕ). x / d) (mul_comm (2 ^ k) 2)) in
    bit_and_digit x (2 ^ suc k)
    ∙ rw (half, even, bit_and-digit k (x / 2), quotient, p) (omega arith)

-- A mask with `k` low digits clear rounds down to a multiple of `2 ^ k`.
pub bit_and-high : (k w x : ℕ) → k ≤ w → x < 2 ^ w → bit_and x (2 ^ w - 2 ^ k) ≡ x / 2 ^ k * 2 ^ k
bit_and-high zero w x h b = rw and_ones (omega arith)
bit_and-high (suc k) zero x h b = elim h [ ]
bit_and-high (suc k) (suc w) x h b =
    let p : 2 ^ suc w ≡ 2 ^ w * 2 = pow-suc 2 w in
    let q : 2 ^ suc k ≡ 2 ^ k * 2 = pow-suc 2 k in
    let half : (2 ^ suc w - 2 ^ suc k) / 2 ≡ 2 ^ w - 2 ^ k = rw (p, q) (omega arith) in
    let even : (2 ^ suc w - 2 ^ suc k) % 2 ≡ 0 = rw (p, q) (omega arith) in
    let quotient : x / 2 ^ suc k ≡ x / 2 / 2 ^ k =
      rw (q, div-div-eq-div-mul) (ap (λ (d : ℕ). x / d) (mul_comm (2 ^ k) 2)) in
    bit_and_digit x (2 ^ suc w - 2 ^ suc k)
    ∙ rw (half, even, quotient, q)
        (omega (arith, bit_and-high k w (x / 2) (omega arith) (omega (arith, p))))

-- Over a small range, every value is checked by evaluation.
agrees_below : ℕ → (ℕ → ℕ) → (ℕ → ℕ) → Bool
agrees_below zero f g = true
agrees_below (suc n) f g = (f n == g n) && agrees_below n f g

agrees_below→eq : (n : ℕ) (f g : ℕ → ℕ) (i : ℕ) → agrees_below n f g ≡ true → i < n → f i ≡ g i
unfolding agrees_below
agrees_below→eq zero f g i e h = elim h [ ]
agrees_below→eq (suc n) f g i e h = ground (arith, agrees_below→eq n f g i)

-- The masks that the parsers apply to one byte.
pub bit_and_0xc0 : (b : ℕ) → b < 256 → bit_and b 0xc0 ≡ b / 64 * 64
unfolding agrees_below
bit_and_0xc0 b h = agrees_below→eq 256 (λ x. bit_and x 0xc0) (λ x. x / 64 * 64) b refl h

pub bit_and_0x3f : (b : ℕ) → b < 256 → bit_and b 0x3f ≡ b % 64
unfolding agrees_below
bit_and_0x3f b h = agrees_below→eq 256 (λ x. bit_and x 0x3f) (λ x. x % 64) b refl h

-- Ones shifted left in a word: the high digits of the mask.
pub shifted_ones : (w b : ℕ) → 0 < b → b ≤ w → (w - 1) * b % w ≡ w - b
shifted_ones zero b h l = absurd (omega arith)
shifted_ones (suc v) zero h l = absurd (omega arith)
shifted_ones (suc v) (suc b) h l =
    let pred : suc v - 1 ≡ v = omega arith in
    let e : v * suc b ≡ v - b + suc v * b = omega arith in
    let high : suc v - suc b ≡ v - b = omega arith in
    rw (pred, e, high, add-mul-mod_self_left) (mod-eq_of_lt (omega arith))
