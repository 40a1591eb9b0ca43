-- ===== src/Sets.antt =====
-- Sets as lists of their elements, with the operations of the code's ordered sets: `key_eq` is the
-- equality of elements and `before` their order, which only decides where a new element stands.
pub mod Laws
pub mod Members
use recurse_x.Prelude.{Bool, true, false, not, List, [], ◌∷◌, if◌then◌else◌}

module _ {ℓ} {K : Type ℓ} (key_eq : K → K → Bool) where
  unfoldable pub has : K → List K → Bool
  has k [] = false
  has k (j ∷ s) = let rest = has k s in if key_eq k j then true else rest

  -- `retain(|d| !dead.contains(d))`
  unfoldable pub without : List K → List K → List K
  unfolding has
  without dead [] = []
  without dead (j ∷ s) = let rest = without dead s in if has j dead then rest else j ∷ rest

  module _ (before : K → K → Bool) where
    unfoldable pub enter : K → List K → List K
    enter k [] = k ∷ []
    enter k (j ∷ s) = let rest = enter k s in if before k j then k ∷ j ∷ s else j ∷ rest

    unfoldable pub add : K → List K → List K
    unfolding has enter
    add k s = if has k s then s else enter k s
