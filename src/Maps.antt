-- ===== src/Maps.antt =====
-- Maps as lists of entries, with the operations of the code's ordered maps. `key_eq` is the equality
-- of keys and `before` their order, which only decides where a new entry stands.
pub mod Laws
pub mod Sub
pub mod Reverse
pub mod Counts
use recurse_x.Prelude.{◌≡◌, Bool, Option, none, some, List, [], ◌∷◌, if◌then◌else◌}

module _ {ℓ} {K V : Type ℓ} (key_eq : K → K → Bool) where
  unfoldable pub get : K → List (K × V) → Option V
  get k [] = none
  get k ((j, w) ∷ m) = let rest = get k m in if key_eq k j then some w else rest

  -- The value of a key that is there.
  unfoldable pub replace : K → V → List (K × V) → List (K × V)
  replace k v [] = []
  replace k v ((j, w) ∷ m) =
      let rest = replace k v m in if key_eq k j then (j, v) ∷ m else (j, w) ∷ rest

  unfoldable pub remove : K → List (K × V) → List (K × V)
  remove k [] = []
  remove k ((j, w) ∷ m) = let rest = remove k m in if key_eq k j then rest else (j, w) ∷ rest

  module _ (before : K → K → Bool) where
    unfoldable pub place : K → V → List (K × V) → List (K × V)
    place k v [] = (k, v) ∷ []
    place k v ((j, w) ∷ m) =
        let rest = place k v m in if before k j then (k, v) ∷ (j, w) ∷ m else (j, w) ∷ rest

    unfoldable pub insert : K → V → List (K × V) → List (K × V)
    insert k v m = elim (get k m) [ some _ ↦ replace k v m | none ↦ place k v m ]

  -- No key stands twice.
  abbrev pub Distinct : List (K × V) → Type ℓ
  Distinct [] = Unit
  Distinct ((k, v) ∷ m) = (get k m ≡ none) × Distinct m
