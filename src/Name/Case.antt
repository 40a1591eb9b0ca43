-- ===== src/Name/Case.antt =====
-- src/name.rs, 0x20 case randomization: only the case of letters changes.
use recurse_x.Prelude.{
  ℕ, ◌≡◌, refl, ap, ◌∙◌, List, [], ◌∷◌, ◌++◌, map, length, All, arith, ◌==◌, if◌then◌else◌,
}
use mathlib.Core.Path.{ap₂}
use mathlib.Core.List.{map-append}
use recurse_x.Prelude.Bits.{bit_and}
use recurse_x.Name.{Name, is_alphabetic, to_lower, to_upper, canonical}
use recurse_x.Name.Labels.{name_of, encode, IsStored}

-- The generator is what implements the trait `RandomSource`: a state, and the step that draws a
-- number.
lower_encode : (ls : List (List ℕ)) → All IsStored ls → map to_lower (encode ls) ≡ encode ls
unfolding encode
lower_encode [] st = refl
lower_encode (l ∷ ls) (st, sts) =
    let size : to_lower (length l) ≡ length l = ground (arith, st.size.1) in
    ap₂ ◌∷◌ size (map-append to_lower l (encode ls) ∙ ap₂ ◌++◌ st.lower (lower_encode ls sts))

module _ {ℓ} {R : Type ℓ} (next_u64 : R → ℕ × R) where
  -- What a byte becomes, and the generator after it: a letter draws one number.
  randomize_byte : R → ℕ → ℕ × R
  randomize_byte rng b =
      if is_alphabetic b
      then (let (v, rng') = next_u64 rng in (if bit_and v 1 == 0 then to_upper b else b, rng'))
      else (b, rng)

  randomize : R → List ℕ → List ℕ × R
  unfolding randomize_byte
  randomize rng [] = ([], rng)
  randomize rng (b ∷ bytes) =
      let (b', rng') = randomize_byte rng b in
      let (out, rng'') = randomize rng' bytes in (b' ∷ out, rng'')

  unfoldable pub randomized_case : Name → R → Name × R
  unfolding randomize
  randomized_case n rng = let (out, rng') = randomize rng n.bytes in (record { bytes = out }, rng')

  randomize_byte-lower : (rng : R) (b : ℕ) → to_lower (randomize_byte rng b).0 ≡ to_lower b
  unfolding randomize_byte
  randomize_byte-lower rng b = ground arith

  randomize-lower :
      (rng : R) (bytes : List ℕ) → map to_lower (randomize rng bytes).0 ≡ map to_lower bytes
  unfolding randomize
  randomize-lower rng [] = refl
  randomize-lower rng (b ∷ bytes) =
      ap₂ ◌∷◌ (randomize_byte-lower rng b) (randomize-lower (randomize_byte rng b).1 bytes)

  -- Whatever the generator draws, the canonical form of a randomized name is the name itself: only
  -- the case of its letters was changed, and no length byte.
  pub canonical-randomized_case :
      (ls : List (List ℕ)) (rng : R)
      → All IsStored ls
      → canonical (randomized_case (name_of ls) rng).0 ≡ name_of ls
  unfolding canonical randomized_case
  canonical-randomized_case ls rng st =
      ap (λ b. record { bytes = b }) (randomize-lower rng (encode ls) ∙ lower_encode ls st)
