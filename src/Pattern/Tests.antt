-- ===== src/Pattern/Tests.antt =====
-- Runs of the domain patterns, and their theorem at a concrete input.
use recurse_x.Prelude.{◌≡◌, ◌↔◌, refl, true, false, none, some, [], ◌∷◌}
use recurse_x.Name
use recurse_x.Name.{Name, bytes_eq}
use recurse_x.Pattern.{WildcardPattern, label_matches, wildcard_matches}
use recurse_x.Pattern.Matches.{Accepts, wildcard_matches_lem}

-- `a.b.c`
abbrev name : Name
name = record { bytes = 1 ∷ 97 ∷ 1 ∷ 98 ∷ 1 ∷ 99 ∷ 0 ∷ [] }

-- `*.b.*` and `b.*`
abbrev leading : WildcardPattern
leading = record { labels = some (98 ∷ []) ∷ none ∷ []; leading_wildcard = true }

abbrev whole : WildcardPattern
whole = record { labels = some (98 ∷ []) ∷ none ∷ []; leading_wildcard = false }

leading_matches : (wildcard_matches leading name ≡ true) × (wildcard_matches whole name ≡ false)
unfolding wildcard_matches Name.labels label_matches bytes_eq
leading_matches = (refl, refl)

wildcard_matches_lem_example :
    (wildcard_matches leading name ≡ true) ↔ Accepts leading (Name.labels name)
wildcard_matches_lem_example = wildcard_matches_lem leading name
