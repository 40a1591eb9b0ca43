-- ===== src/Name/Suffix.antt =====
-- src/name.rs, `Name::common_suffix`: the longest common tail of two label chains.
use recurse_x.Prelude.{
  ℕ, ◌%◌, ◌≡◌, ◌≢◌, inl, inr, refl, ap, ◌∙◌, List, [], ◌∷◌, ◌++◌, append-nil, append_assoc, length,
  All, All-append, arith, Bool-cases,
}
use mathlib.Core.List.{reverse, reverse-append, reverse-reverse}
use recurse_x.Name.{common_suffix, common_loop, bytes_eq}
use recurse_x.Name.Labels.{IsLabel, name_of, chain, chain-root, labels-encode}
use recurse_x.Name.Compress.Suffixes.{bytes_eq_refl, bytes_eq→eq}

-- The two chains stop or differ: their common part cannot be extended to the left.
pub data Apart : List (List ℕ) → List (List ℕ) → Type 0 where
  left_ends : {ks : List (List ℕ)} → Apart [] ks
  right_ends : {ls : List (List ℕ)} → Apart ls []
  differ : (ls ks : List (List ℕ)) (a b : List ℕ) → a ≢ b → Apart (ls ++ a ∷ []) (ks ++ b ∷ [])

-- `c` is the longest tail that the chains share.
pub record LongestTail (ls ks c : List (List ℕ)) : Type 0 where
  pub ls_front : List (List ℕ)
  pub ks_front : List (List ℕ)
  pub ls_split : ls ≡ ls_front ++ c
  pub ks_split : ks ≡ ks_front ++ c
  pub apart : Apart ls_front ks_front

stop :
    (ra rb acc : List (List ℕ))
    → Apart (reverse ra) (reverse rb)
    → LongestTail (reverse ra ++ acc) (reverse rb ++ acc) acc
stop ra rb acc h = record {
  ls_front = reverse ra;
  ks_front = reverse rb;
  ls_split = refl;
  ks_split = refl;
  apart = h;
}

reverse-cons :
    (a : List ℕ) (ra acc : List (List ℕ)) → reverse (a ∷ ra) ++ acc ≡ reverse ra ++ (a ∷ acc)
reverse-cons a ra acc =
    ap (λ t. t ++ acc) (reverse-append (a ∷ []) ra) ∙ append_assoc (reverse ra) (a ∷ []) acc

differ_reversed :
    (a b : List ℕ) (ra rb : List (List ℕ)) → a ≢ b → Apart (reverse (a ∷ ra)) (reverse (b ∷ rb))
differ_reversed a b ra rb h =
    rw (reverse-append (a ∷ []) ra, reverse-append (b ∷ []) rb)
      (differ (reverse ra) (reverse rb) a b h)

All-reverse : (ls : List (List ℕ)) → All IsLabel ls → All IsLabel (reverse ls)
All-reverse [] v = tt
All-reverse (l ∷ ls) (vl, v) =
    rw (reverse-append (l ∷ []) ls)
      (All-append IsLabel (reverse ls) (l ∷ []) (All-reverse ls v) (vl, tt))

common_loop-LongestTail :
    (ra rb acc : List (List ℕ))
    → All IsLabel ra
    → (c : List (List ℕ)) × (common_loop ra rb (chain acc) ≡ chain c)
      × LongestTail (reverse ra ++ acc) (reverse rb ++ acc) c
unfolding common_loop chain
common_loop-LongestTail [] rb acc v = (acc, refl, stop [] rb acc left_ends)
common_loop-LongestTail (a ∷ ra) [] acc v = (acc, refl, stop (a ∷ ra) [] acc right_ends)
common_loop-LongestTail (a ∷ ra) (b ∷ rb) acc (va, v) = elim (Bool-cases (bytes_eq a b)) [
  | inl same ↦
      let (c, run, tail) = common_loop-LongestTail ra rb (a ∷ acc) v in
      let e : a ≡ b = bytes_eq→eq a b same in
      let narrow : length a % 256 ≡ length a = omega (arith, va.1) in
      (c, rw (same, narrow) run, rw (reverse-cons a ra acc, reverse-cons b rb acc, ← e) tail)
  | inr other ↦ (
    acc,
    rw other,
    stop (a ∷ ra) (b ∷ rb) acc
        (differ_reversed a b ra rb (λ e. ground (arith, rw e at other, bytes_eq_refl b))),
  )
]

-- The common suffix of two names is the name of the longest tail that their label chains share; the
-- root, where they share none.
pub common_suffix-LongestTail :
    (ls ks : List (List ℕ))
    → All IsLabel ls
    → All IsLabel ks
    → (c : List (List ℕ)) × (common_suffix (name_of ls) (name_of ks) ≡ name_of c)
      × LongestTail ls ks c
unfolding common_suffix
common_suffix-LongestTail ls ks hl hk =
    let (c, run, tail) = common_loop-LongestTail (reverse ls) (reverse ks) [] (All-reverse ls hl) in
    let bytes : common_loop (reverse ls) (reverse ks) [] ≡ chain c = unfold chain in run in
    (
      c,
      rw (labels-encode ls hl, labels-encode ks hk)
          (ap (λ b. record { bytes = b }) (ap (λ t. t ++ 0 ∷ []) bytes ∙ chain-root c)),
      rw
          (
            append-nil (reverse (reverse ls)),
            append-nil (reverse (reverse ks)),
            reverse-reverse ls,
            reverse-reverse ks,
          )
          at tail,
    )
