-- ===== src/Name/Hierarchy.antt =====
-- src/name.rs: what the operations on a name do to its label chain.
use recurse_x.Prelude.{
  ℕ, ◌-◌, ◌%◌, ◌≤◌, ◌<◌, ◌≡◌, ◌≢◌, refl, sym, ap, ◌∙◌, true, none, some, List, [], ◌∷◌, ◌++◌,
  append-nil, append_assoc, length, length-append, get_elem?, drop, drop-append_length, All,
  All-drop, arith, leb, Bool-cases, inl, inr,
}
use recurse_x.Name.{
  is_root, label_count, first_label, last_label, parent, apex, push_labels, is_subdomain_of,
  ends_with,
}
use recurse_x.Name.Labels.{
  IsLabel, name_of, encode, chain, chain-root, labels_len, encode-append, length-chain,
  labels-encode,
}
use recurse_x.Name.Compress.Suffixes.{parent-encode, is_root-encode, bytes_eq_refl}

push_labels-chain :
    (out : List ℕ) (ls : List (List ℕ)) → All IsLabel ls → push_labels out ls ≡ out ++ chain ls
unfolding push_labels chain
push_labels-chain out [] h = sym (append-nil out)
push_labels-chain out (l ∷ ls) (hl, h) =
    let narrow : length l % 256 ≡ length l = omega (arith, hl.1) in
    rw narrow
      (push_labels-chain (out ++ length l ∷ l) ls h ∙ append_assoc out (length l ∷ l) (chain ls))

root_labels : (is_root (name_of []) ≡ true) × (parent (name_of []) ≡ none)
unfolding is_root parent encode
root_labels = (refl, refl)

module _ (ls : List (List ℕ)) (valid : All IsLabel ls) where
  -- The label chain of a name gives the results of the operations: the number of labels, the first
  -- and the last one.
  pub chain_labels :
      (label_count (name_of ls) ≡ length ls)
      × (first_label (name_of ls) ≡ get_elem? ls 0)
      × (last_label (name_of ls) ≡ get_elem? ls (length ls - 1))
  unfolding label_count
  chain_labels = (rw (labels-encode ls valid), first ls valid, last ls valid)
    where
      first : (ks : List (List ℕ)) → All IsLabel ks → first_label (name_of ks) ≡ get_elem? ks 0
      first [] v = unfold first_label in rw root_labels.0
      first (l ∷ ks) v = unfold first_label in rw (is_root-encode, labels-encode (l ∷ ks) v)

      last :
          (ks : List (List ℕ))
          → All IsLabel ks
          → last_label (name_of ks) ≡ get_elem? ks (length ks - 1)
      last [] v = unfold last_label in rw root_labels.0
      last (l ∷ ks) v = unfold last_label in rw (is_root-encode, labels-encode (l ∷ ks) v)

  -- The apex keeps the last two labels, or the whole name where it has no more than two.
  pub apex-name_of : apex (name_of ls) ≡ name_of (drop (length ls - 2) ls)
  unfolding apex label_count
  apex-name_of = rw (labels-encode ls valid) (elim (Bool-cases (leb (length ls) 2)) [
    | inl short ↦ let none_dropped : length ls - 2 ≡ 0 = ground arith in rw (short, none_dropped)
    | inr long ↦
        let kept = drop (length ls - 2) ls in
        rw long (
          ap (λ b. record { bytes = b })
            (rw (push_labels-chain [] kept (All-drop IsLabel (length ls - 2) ls valid))
              (chain-root kept)))
  ])

ends_with-append : (xs ys : List ℕ) → ends_with (xs ++ ys) ys ≡ true
unfolding ends_with
ends_with-append xs ys =
    let size : length (xs ++ ys) - length ys ≡ length xs = omega (arith, length-append xs ys) in
    rw (ends_with, size, drop-append_length, bytes_eq_refl) (ground (arith, length-append xs ys))

-- The parents of a name are the tails of its chain, down to the root, which has none; and a name
-- lies in the domain of every tail of its chain, itself and the root included.
pub chain_nesting :
    (front back : List (List ℕ)) (l : List ℕ)
    → (parent (name_of (l ∷ back)) ≡ some (name_of back))
      × (parent (name_of []) ≡ none)
      × (is_subdomain_of (name_of (front ++ back)) (name_of back) ≡ true)
chain_nesting front back l = (parent-encode l back, root_labels.1, nested)
  where
    nested : is_subdomain_of (name_of (front ++ back)) (name_of back) ≡ true
    nested =
        unfold is_subdomain_of in
        rw (encode-append front back) (ends_with-append (chain front) (encode back))

-- Domain membership is decided on bytes, and a label may hold bytes that read as a label chain: the
-- name of the single label `p` followed by the bytes of the chain `ls` counts as a subdomain of
-- `ls`, though its chain does not end in `ls`.
pub is_subdomain_of-confused :
    (p : List ℕ) (l : List ℕ) (ls : List (List ℕ))
    → 0 < length p
    → length (p ++ chain (l ∷ ls)) ≤ 63
    → (is_subdomain_of (name_of ((p ++ chain (l ∷ ls)) ∷ [])) (name_of (l ∷ ls)) ≡ true)
      × ((front : List (List ℕ)) → (p ++ chain (l ∷ ls)) ∷ [] ≢ front ++ (l ∷ ls))
is_subdomain_of-confused p l ls some_bytes fits = (confused, λ front. apart front)
  where
    tail : List ℕ
    tail = chain (l ∷ ls)

    bytes : encode ((p ++ tail) ∷ []) ≡ (length (p ++ tail) ∷ p) ++ encode (l ∷ ls)
    bytes =
        unfold encode in
        ap (◌∷◌ (length (p ++ tail)))
          (append_assoc p tail (0 ∷ []) ∙ ap (◌++◌ p) (chain-root (l ∷ ls)))

    confused : is_subdomain_of (name_of ((p ++ tail) ∷ [])) (name_of (l ∷ ls)) ≡ true
    confused =
        unfold is_subdomain_of in
        rw bytes (ends_with-append (length (p ++ tail) ∷ p) (encode (l ∷ ls)))

    apart : (front : List (List ℕ)) → (p ++ tail) ∷ [] ≢ front ++ (l ∷ ls)
    apart [] e =
        unfold labels_len in
        absurd (omega (arith, ap labels_len e, length-append p tail, length-chain (l ∷ ls)))
    apart (f ∷ front) e = absurd (omega (arith, ap length e, length-append {0} front (l ∷ ls)))
