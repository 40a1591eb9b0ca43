-- ===== src/Pattern.antt =====
-- src/pattern.rs: the domain patterns of hosts, filters and policies, after parsing.
pub mod Matches
mod Tests
use recurse_x.Prelude.{
  ℕ, ◌+◌, ◌-◌, ◌%◌, Bool, true, false, Option, none, some, List, [], ◌∷◌, ltb, ◌==◌, if◌then◌else◌,
  length, drop,
}
use recurse_x.Name
use recurse_x.Name.{Name, labels, name_eq, bytes_eq, is_subdomain_of}

-- A pattern with a `*` in a non-leading position; `none` is a `*`.
pub record WildcardPattern : Type 0 where
  pub labels : List (Option (List ℕ))
  pub leading_wildcard : Bool

pub data DomainPattern : Type 0 where
  any : DomainPattern
  exact : Name → DomainPattern
  subtree : Name → DomainPattern
  wildcard : WildcardPattern → DomainPattern

unfoldable pub label_matches : Option (List ℕ) → List ℕ → Bool
label_matches none label = true
label_matches (some lit) label = bytes_eq lit label

-- `candidate.iter().zip(pattern.iter()).all(..)`: the shorter list ends it.
unfoldable pub zip_all : List (List ℕ) → List (Option (List ℕ)) → Bool
zip_all [] pattern = true
zip_all (label ∷ ls) [] = true
zip_all (label ∷ ls) (pat ∷ ps) =
    let rest = zip_all ls ps in if label_matches pat label then rest else false

unfoldable pub wildcard_matches : WildcardPattern → Name → Bool
unfolding zip_all
wildcard_matches w name =
    let candidate = Name.labels name in
    if w.leading_wildcard
    then (if ltb (length candidate) (length w.labels)
        then false
        else zip_all (drop (length candidate - length w.labels) candidate) w.labels)
    else if length candidate == length w.labels
    then zip_all candidate w.labels
    else false

unfoldable pub wildcard_label_count : WildcardPattern → ℕ
wildcard_label_count w = length w.labels + (if w.leading_wildcard then 1 else 0)

unfoldable pub matches : DomainPattern → Name → Bool
unfolding wildcard_matches
matches any name = true
matches (exact n) name = name_eq name n
matches (subtree n) name = is_subdomain_of name n
matches (wildcard w) name = wildcard_matches w name

unfoldable pub suffix : DomainPattern → Option Name
suffix any = none
suffix (wildcard w) = none
suffix (exact n) = some n
suffix (subtree n) = some n

unfoldable pub is_wildcard : DomainPattern → Bool
is_wildcard (subtree n) = true
is_wildcard (wildcard w) = true
is_wildcard any = false
is_wildcard (exact n) = false

unfoldable pub label_count : DomainPattern → ℕ
unfolding wildcard_label_count
label_count any = 0
label_count (exact n) = Name.label_count n
label_count (subtree n) = Name.label_count n
label_count (wildcard w) = wildcard_label_count w

unfoldable pub is_exact : DomainPattern → Bool
is_exact (exact n) = true
is_exact any = false
is_exact (subtree n) = false
is_exact (wildcard w) = false
