-- ===== src/Name/Compress/Suffixes.antt =====
-- The suffixes that the compressor enumerates, as tails of the label chain.
use recurse_x.Prelude.{
  ℕ, zero, suc, ◌+◌, ◌-◌, ◌<◌, ◌≡◌, refl, sym, ap, true, false, some, List, [], ◌∷◌, ◌++◌, length,
  length-append, drop-append_length, take-append_length, arith, Option-cases, some-eq, inl, inr,
}
use recurse_x.Name.{Name, is_root, parent, wire_len, bytes_eq}
use recurse_x.Name.Labels.{name_of, encode, labels_len, length-encode}
use recurse_x.Name.Compress.{get, suffix_walk, find_hit, strip_suffix}

-- The tails of a chain with their offsets, the longest first.
unfoldable pub suffixes_of : ℕ → List (List ℕ) → List (Name × ℕ)
suffixes_of rel [] = []
suffixes_of rel (l ∷ ls) = (name_of (l ∷ ls), rel) ∷ suffixes_of (rel + (1 + length l)) ls

pub length-suffixes_of : (rel : ℕ) (ls : List (List ℕ)) → length (suffixes_of rel ls) ≡ length ls
unfolding suffixes_of
length-suffixes_of rel [] = refl
length-suffixes_of rel (l ∷ ls) = ap suc (length-suffixes_of (rel + (1 + length l)) ls)

pub bytes_eq_refl : (xs : List ℕ) → bytes_eq xs xs ≡ true
unfolding bytes_eq
bytes_eq_refl [] = refl
bytes_eq_refl (x ∷ xs) = ground (arith, bytes_eq_refl xs)

pub bytes_eq→eq : (xs ys : List ℕ) → bytes_eq xs ys ≡ true → xs ≡ ys
unfolding bytes_eq
bytes_eq→eq [] [] h = refl
bytes_eq→eq [] (y ∷ ys) h = cc
bytes_eq→eq (x ∷ xs) [] h = cc
bytes_eq→eq (x ∷ xs) (y ∷ ys) h = ground (arith, bytes_eq→eq xs ys)

pub strip_suffix-append : (xs ys : List ℕ) → strip_suffix (xs ++ ys) ys ≡ some xs
unfolding strip_suffix
strip_suffix-append xs ys =
    let e : length (xs ++ ys) - length ys ≡ length xs = omega (arith, length-append xs ys) in
    rw (strip_suffix, e, drop-append_length, take-append_length, bytes_eq_refl ys)
      (ground (arith, length-append xs ys))

pub parent-encode :
    (l : List ℕ) (ls : List (List ℕ)) → parent (name_of (l ∷ ls)) ≡ some (name_of ls)
unfolding parent encode
parent-encode l ls =
    let first : 1 + length l ≡ suc (length l) = omega arith in
    rw (first, drop-append_length) (ground (arith, length-append l (encode ls), length-encode ls))

pub is_root-encode : (l : List ℕ) (ls : List (List ℕ)) → is_root (name_of (l ∷ ls)) ≡ false
unfolding is_root encode
is_root-encode l ls = ground (arith, length-append l (encode ls), length-encode ls)

pub suffix_walk-suffixes_of :
    (ls : List (List ℕ)) (fuel total rel : ℕ)
    → length ls < fuel
    → rel + labels_len ls + 1 ≡ total
    → suffix_walk fuel total (name_of ls) ≡ suffixes_of rel ls
unfolding suffix_walk suffixes_of labels_len
suffix_walk-suffixes_of ls zero total rel hf e = elim hf [ ]
suffix_walk-suffixes_of [] (suc fuel) total rel hf e = unfold is_root encode in refl
suffix_walk-suffixes_of (l ∷ ls) (suc fuel) total rel hf e =
    let here : total - wire_len (name_of (l ∷ ls)) ≡ rel =
      unfold wire_len labels_len in omega (arith, length-encode (l ∷ ls)) in
    rw (is_root-encode, suffix_walk, parent-encode, here)
      (ap (◌∷◌ (name_of (l ∷ ls), rel))
        (suffix_walk-suffixes_of ls fuel total (rel + (1 + length l)) (omega arith) (omega arith)))

-- A hit splits the name: it is the tail behind the first `i` labels, and the table has its offset.
pub record Hit (offsets : List (Name × ℕ)) (ls : List (List ℕ)) (i : ℕ) (n : Name) (off : ℕ)
    : Type 0 where
  pub front : List (List ℕ)
  pub label : List ℕ
  pub back : List (List ℕ)
  pub split : ls ≡ front ++ label ∷ back
  pub index : i ≡ length front
  pub suffix : n ≡ name_of (label ∷ back)
  pub entry : get offsets n ≡ some off

pub find_hit-Hit :
    (offsets : List (Name × ℕ)) (ls : List (List ℕ)) (i rel k off : ℕ) (n : Name)
    → find_hit offsets i (suffixes_of rel ls) ≡ some (k, n, off)
    → (j : ℕ) × (k ≡ i + j) × Hit offsets ls j n off
unfolding find_hit suffixes_of
find_hit-Hit offsets [] i rel k off n h = cc
find_hit-Hit offsets (l ∷ ls) i rel k off n h =
    elim (Option-cases (get offsets (name_of (l ∷ ls)))) [
      | inl miss ↦
          let (j, e, hit) =
            find_hit-Hit offsets ls (i + 1) (rel + (1 + length l)) k off n
              (rw (miss, find_hit) at h) in
          (
            suc j,
            omega arith,
            record {
              front = l ∷ hit.front;
              label = hit.label;
              back = hit.back;
              split = ap (◌∷◌ l) hit.split;
              index = ap suc hit.index;
              suffix = hit.suffix;
              entry = hit.entry;
            },
          )
      | inr (o, found) ↦
          let same = some-eq (rw (found, find_hit) at h) in
          let index = ap (λ t. t.0) same in
          let suffix = ap (λ t. t.1) same in
          let offset = ap (λ t. t.2) same in
          (
            0,
            omega arith,
            record {
              front = [];
              label = l;
              back = ls;
              split = refl;
              index = refl;
              suffix = sym suffix;
              entry = rw (← suffix, ← offset) found;
            },
          )
    ]
