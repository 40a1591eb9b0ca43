-- ===== src/Name/Tests.antt =====
-- Runs of the operations on names, and their theorems at concrete inputs.
use recurse_x.Prelude.{
  ℕ, ◌+◌, ◌*◌, ◌≡◌, ◌≢◌, refl, true, false, none, some, List, [], ◌∷◌, ◌++◌, arith, All,
}
use recurse_x.Wire.{IsByte}
use recurse_x.Name.{
  parent, apex, is_subdomain_of, is_strict_subdomain_of, common_suffix, common_loop, labels,
  label_walk, canonical, is_0x20_eligible,
}
use recurse_x.Name.Labels.{labels-encode, name_of, encode, chain, IsLabel, IsStored, IsLowerCase}
use recurse_x.Name.Hierarchy.{apex-name_of, chain_nesting, is_subdomain_of-confused}
use recurse_x.Name.Suffix.{LongestTail, common_suffix-LongestTail}
use recurse_x.Name.Case.{randomized_case, canonical-randomized_case}

abbrev top : List ℕ
top = b'c' ∷ b'o' ∷ b'm' ∷ []

abbrev example_top : List (List ℕ)
example_top = (b'e' ∷ b'x' ∷ []) ∷ top ∷ []

abbrev www : List (List ℕ)
www = (b'w' ∷ []) ∷ example_top

abbrev mail : List (List ℕ)
mail = (b'm' ∷ []) ∷ example_top

-- A generator that counts up.
counter : ℕ → ℕ × ℕ
counter n = (n * 3, n + 1)

shared_tail : common_suffix (name_of www) (name_of mail) ≡ name_of example_top
unfolding common_suffix common_loop labels label_walk encode
shared_tail = refl

strict : is_strict_subdomain_of (name_of www) (name_of www) ≡ false
unfolding is_strict_subdomain_of encode
strict = refl

eligible : is_0x20_eligible (name_of www) ≡ true
unfolding is_0x20_eligible encode
eligible = refl

www-IsLabel : All IsLabel www
www-IsLabel =
    ((omega arith, omega arith), ((omega arith, omega arith), ((omega arith, omega arith), tt)))

mail-IsLabel : All IsLabel mail
mail-IsLabel = www-IsLabel

stored : (l : List ℕ) → IsLabel l → All IsByte l → IsLowerCase l → IsStored l
stored l size bytes lower = record { size = size; bytes = bytes; lower = lower }

www-IsStored : All IsStored www
www-IsStored =
    let (a, (b, (c, _))) = www-IsLabel in
    (
      stored (b'w' ∷ []) a (omega arith) refl,
      (stored (b'e' ∷ b'x' ∷ []) b (omega arith) refl, (stored top c (omega arith) refl, tt)),
    )

labels-encode_example : labels (record { bytes = encode www }) ≡ www
labels-encode_example = labels-encode www www-IsLabel

apex-name_of_example : apex (name_of www) ≡ name_of example_top
apex-name_of_example = apex-name_of www www-IsLabel

chain_nesting_example :
    (parent (name_of www) ≡ some (name_of example_top))
    × (parent (name_of []) ≡ none)
    × (is_subdomain_of (name_of www) (name_of example_top) ≡ true)
chain_nesting_example = chain_nesting ((b'w' ∷ []) ∷ []) example_top (b'w' ∷ [])

is_subdomain_of-confused_example :
    (is_subdomain_of (name_of ((b'x' ∷ 3 ∷ top) ∷ [])) (name_of (top ∷ [])) ≡ true)
    × ((front : List (List ℕ)) → (b'x' ∷ 3 ∷ top) ∷ [] ≢ front ++ (top ∷ []))
unfolding chain
is_subdomain_of-confused_example =
    is_subdomain_of-confused (b'x' ∷ []) top [] (omega arith) (omega arith)

common_suffix-LongestTail_example :
    (c : List (List ℕ)) × (common_suffix (name_of www) (name_of mail) ≡ name_of c)
    × LongestTail www mail c
common_suffix-LongestTail_example = common_suffix-LongestTail www mail www-IsLabel mail-IsLabel

canonical-randomized_case_example :
    canonical (randomized_case counter (name_of www) 5).0 ≡ name_of www
canonical-randomized_case_example = canonical-randomized_case counter www 5 www-IsStored
