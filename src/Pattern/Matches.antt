-- ===== src/Pattern/Matches.antt =====
-- src/pattern.rs: what a wildcard pattern matches, as a relation between its labels and a name's.
use recurse_x.Prelude.{
  ℕ, suc, ◌-◌, ◌≡◌, ◌↔◌, refl, sym, ap, true, false, Bool-cases, inl, inr, Option, none, some, List,
  [], ◌∷◌, ◌++◌, ltb, ◌==◌, length, length-append, take, drop, take-append-drop, length-drop,
  drop-append_length, arith,
}
use recurse_x.Name.{Name, labels, bytes_eq}
use recurse_x.Name.Equal.{bytes_eq-eq, bytes_eq_refl}
use recurse_x.Pattern.{WildcardPattern, label_matches, zip_all, wildcard_matches}

-- Label for label: a `*` takes any label, a literal its own.
pub data Fits : List (Option (List ℕ)) → List (List ℕ) → Type 0 where
  ends : Fits [] []
  star :
      (label : List ℕ) {ps : List (Option (List ℕ))} {ls : List (List ℕ)}
      → Fits ps ls
      → Fits (none ∷ ps) (label ∷ ls)
  literal :
      (label : List ℕ) {ps : List (Option (List ℕ))} {ls : List (List ℕ)}
      → Fits ps ls
      → Fits (some label ∷ ps) (label ∷ ls)

Fits-length :
    {ps : List (Option (List ℕ))} {ls : List (List ℕ)} → Fits ps ls → length ls ≡ length ps
Fits-length ends = refl
Fits-length (star label f) = ap suc (Fits-length f)
Fits-length (literal label f) = ap suc (Fits-length f)

zip_all← : {ps : List (Option (List ℕ))} {ls : List (List ℕ)} → Fits ps ls → zip_all ls ps ≡ true
unfolding zip_all label_matches
zip_all← ends = refl
zip_all← (star label f) = zip_all← f
zip_all← (literal label f) = rw (bytes_eq_refl label) (zip_all← f)

zip_all→ :
    (ls : List (List ℕ)) (ps : List (Option (List ℕ)))
    → length ls ≡ length ps
    → zip_all ls ps ≡ true
    → Fits ps ls
unfolding zip_all label_matches
zip_all→ [] [] e h = ends
zip_all→ [] (p ∷ ps) e h = absurd (omega arith)
zip_all→ (l ∷ ls) [] e h = absurd (omega arith)
zip_all→ (l ∷ ls) (none ∷ ps) e h = star l (zip_all→ ls ps (omega arith) h)
zip_all→ (l ∷ ls) (some lit ∷ ps) e h = elim (Bool-cases (bytes_eq lit l)) [
  | inl same ↦ rw (bytes_eq-eq lit l same) (literal l (zip_all→ ls ps (omega arith) (rw same at h)))
  | inr other ↦ let h' = rw other at h in absurd (cc)
]

-- A leading `*` takes any labels in front, none included.
pub data Accepts (w : WildcardPattern) (ls : List (List ℕ)) : Type 0 where
  whole : w.leading_wildcard ≡ false → Fits w.labels ls → Accepts w ls
  ending :
      w.leading_wildcard ≡ true
      → (front rest : List (List ℕ)) → ls ≡ front ++ rest
      → Fits w.labels rest
      → Accepts w ls

wildcard_matches→ :
    (w : WildcardPattern) (name : Name) → wildcard_matches w name ≡ true → Accepts w (labels name)
unfolding wildcard_matches
wildcard_matches→ w name h =
    let ls = labels name in
    let skip = length ls - length w.labels in
    elim (Bool-cases w.leading_wildcard) [
      | inl leading ↦ elim (Bool-cases (ltb (length ls) (length w.labels))) [
        | inl short ↦ let h' = rw (leading, short) at h in absurd (cc)
        | inr long ↦
            let same = length-drop skip ls in
            let fits = zip_all→ (drop skip ls) w.labels (ground arith) (rw (leading, long) at h) in
            ending leading (take skip ls) (drop skip ls) (sym (take-append-drop skip ls)) fits
      ]
      | inr plain ↦ elim (Bool-cases (length ls == length w.labels)) [
        | inl same ↦ whole plain (zip_all→ ls w.labels (ground arith) (rw (plain, same) at h))
        | inr other ↦ let h' = rw (plain, other) at h in absurd (cc)
      ]
    ]

wildcard_matches← :
    (w : WildcardPattern) (name : Name) → Accepts w (labels name) → wildcard_matches w name ≡ true
unfolding wildcard_matches
wildcard_matches← w name (whole plain fits) =
    let same = Fits-length fits in
    let test : (length (labels name) == length w.labels) ≡ true = ground arith in
    rw (plain, test) (zip_all← fits)
wildcard_matches← w name (ending leading front rest split fits) =
    let same = Fits-length fits in
    let total = length-append front rest in
    let long : ltb (length (front ++ rest)) (length w.labels) ≡ false = ground arith in
    let skip : length (front ++ rest) - length w.labels ≡ length front = omega arith in
    rw (leading, split, long, skip, drop-append_length front rest) (zip_all← fits)

-- A pattern without a leading `*` matches exactly the names whose labels fit its labels one by one,
-- where a `*` takes any label and a literal its own; one with a leading `*` matches exactly those
-- that end in labels that fit.
pub wildcard_matches_lem :
    (w : WildcardPattern) (name : Name) → (wildcard_matches w name ≡ true) ↔ Accepts w (labels name)
wildcard_matches_lem w name = (wildcard_matches→ w name, wildcard_matches← w name)
