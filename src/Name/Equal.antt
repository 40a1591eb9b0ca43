-- ===== src/Name/Equal.antt =====
-- src/name.rs: equality of names, as derived for the boxed bytes.
use recurse_x.Prelude.{
  ℕ, ◌≡◌, refl, Bool, true, false, ltb, if◌then◌else◌, List, [], ◌∷◌, ◌==◌, arith,
}
use recurse_x.Name.{Name, name_eq, bytes_eq}

pub bytes_eq-eq : (xs ys : List ℕ) → bytes_eq xs ys ≡ true → xs ≡ ys
unfolding bytes_eq
bytes_eq-eq [] [] h = refl
bytes_eq-eq [] (y ∷ ys) h = cc
bytes_eq-eq (x ∷ xs) [] h = cc
bytes_eq-eq (x ∷ xs) (y ∷ ys) h =
    let (same, more) : (x ≡ y) × (bytes_eq xs ys ≡ true) = ground arith in
    λ i. same i ∷ bytes_eq-eq xs ys more i

pub bytes_eq_refl : (xs : List ℕ) → bytes_eq xs xs ≡ true
unfolding bytes_eq
bytes_eq_refl [] = refl
bytes_eq_refl (x ∷ xs) = let more = bytes_eq_refl xs in ground arith

pub name_eq-eq : (a b : Name) → name_eq a b ≡ true → a ≡ b
name_eq-eq a b h = let same = bytes_eq-eq a.bytes b.bytes h in λ i. record { bytes = same i }

pub name_eq_refl : (a : Name) → name_eq a a ≡ true
name_eq_refl a = bytes_eq_refl a.bytes

-- The derived order: byte by byte, a prefix before what it begins.
unfoldable pub bytes_less : List ℕ → List ℕ → Bool
bytes_less xs [] = false
bytes_less [] (y ∷ ys) = true
bytes_less (x ∷ xs) (y ∷ ys) =
    let rest = bytes_less xs ys in if ltb x y then true else if x == y then rest else false

abbrev pub name_less : Name → Name → Bool
name_less a b = bytes_less a.bytes b.bytes
