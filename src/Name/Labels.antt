-- ===== src/Name/Labels.antt =====
-- The label chain that a name in wire form stands for: the reference view of src/name.rs.
use recurse_x.Prelude.{
  ℕ, zero, suc, ◌+◌, ◌≤◌, ◌<◌, ◌≡◌, refl, List, [], ◌∷◌, ◌++◌, length, All, arith, length-append,
  append_assoc, All-append, map, sym, ap, ◌∙◌, take-append_length, drop-append_length,
}
use recurse_x.Wire.{IsByte}
use recurse_x.Name.{Name, to_lower, labels, label_walk}

-- RFC 1035: 1 to 63 bytes.
abbrev pub IsLabel : List ℕ → Type 0
IsLabel l = (0 < length l) × (length l ≤ 63)

-- `[len][label]… 0`
unfoldable pub encode : List (List ℕ) → List ℕ
encode [] = 0 ∷ []
encode (l ∷ ls) = length l ∷ (l ++ encode ls)

-- The bytes that the labels take, without the root's.
unfoldable pub labels_len : List (List ℕ) → ℕ
labels_len [] = 0
labels_len (l ∷ ls) = 1 + length l + labels_len ls

abbrev pub name_of : List (List ℕ) → Name
name_of ls = record { bytes = encode ls }

-- The bytes of the labels, without their lengths.
unfoldable pub pool : List (List ℕ) → List ℕ
pool [] = []
pool (l ∷ ls) = l ++ pool ls

pub length-encode : (ls : List (List ℕ)) → length (encode ls) ≡ labels_len ls + 1
unfolding encode labels_len
length-encode [] = refl
length-encode (l ∷ ls) = omega (arith, length-append l (encode ls), length-encode ls)

pub length-le-labels_len : (ls : List (List ℕ)) → length ls ≤ labels_len ls
unfolding labels_len
length-le-labels_len [] = omega arith
length-le-labels_len (l ∷ ls) = omega (arith, length-le-labels_len ls)

pub label_walk-encode :
    (ls : List (List ℕ)) (fuel : ℕ)
    → All IsLabel ls
    → length ls < fuel
    → label_walk fuel (encode ls) ≡ ls
unfolding label_walk encode
label_walk-encode ls zero h hf = elim hf [ ]
label_walk-encode [] (suc fuel) h hf = refl
label_walk-encode (l ∷ ls) (suc fuel) (hl, h) hf =
    let ih = label_walk-encode ls fuel h (omega arith) in
    rw (drop-append_length, take-append_length, ih) (ground (arith, length-append l (encode ls)))

-- The label iterator yields exactly the labels of the chain, for every chain of valid labels.
pub labels-encode :
    (ls : List (List ℕ)) → All IsLabel ls → labels (record { bytes = encode ls }) ≡ ls
unfolding labels
labels-encode ls h =
    label_walk-encode ls (length (encode ls)) h
      (omega (arith, length-encode ls, length-le-labels_len ls))

-- `[len][label]…`, without the root.
unfoldable pub chain : List (List ℕ) → List ℕ
chain [] = []
chain (l ∷ ls) = length l ∷ (l ++ chain ls)

pub chain-root : (ls : List (List ℕ)) → chain ls ++ 0 ∷ [] ≡ encode ls
unfolding chain encode
chain-root [] = refl
chain-root (l ∷ ls) =
    ap (◌∷◌ (length l)) (append_assoc l (chain ls) (0 ∷ []) ∙ ap (◌++◌ l) (chain-root ls))

pub length-chain : (ls : List (List ℕ)) → length (chain ls) ≡ labels_len ls
unfolding chain labels_len
length-chain [] = refl
length-chain (l ∷ ls) = omega (arith, length-append l (chain ls), length-chain ls)

pub encode-append :
    (front back : List (List ℕ)) → encode (front ++ back) ≡ chain front ++ encode back
unfolding chain encode
encode-append [] back = refl
encode-append (l ∷ front) back =
    ap (◌∷◌ (length l))
      (ap (◌++◌ l) (encode-append front back) ∙ sym (append_assoc l (chain front) (encode back)))

-- A label that is all lower case, as names store it.
abbrev pub IsLowerCase : List ℕ → Type 0
IsLowerCase l = map to_lower l ≡ l

-- What a name holds at a label: its size, its bytes and its case.
pub record IsStored (l : List ℕ) : Type 0 where
  pub size : IsLabel l
  pub bytes : All IsByte l
  pub lower : IsLowerCase l

pub chain-IsByte : (ls : List (List ℕ)) → All IsStored ls → All IsByte (chain ls)
unfolding chain
chain-IsByte [] h = tt
chain-IsByte (l ∷ ls) (hl, h) =
    (omega (arith, hl.size.1), All-append IsByte l (chain ls) hl.bytes (chain-IsByte ls h))

pub IsStored-valid : (ls : List (List ℕ)) → All IsStored ls → All IsLabel ls
IsStored-valid [] st = tt
IsStored-valid (l ∷ ls) (st, sts) = (st.size, IsStored-valid ls sts)

-- The label chain of a name is determined by its bytes.
pub encode-injective :
    (ls ks : List (List ℕ)) → All IsLabel ls → All IsLabel ks → encode ls ≡ encode ks → ls ≡ ks
encode-injective ls ks hl hk e =
    sym (labels-encode ls hl) ∙ ap (λ b. labels (record { bytes = b })) e ∙ labels-encode ks hk

pub All-IsStored-split :
    (front back : List (List ℕ))
    → All IsStored (front ++ back)
    → All IsStored front × All IsStored back
All-IsStored-split [] back st = (tt, st)
All-IsStored-split (l ∷ front) back (st, sts) =
    let (f, b) = All-IsStored-split front back sts in ((st, f), b)

pub labels_len-append :
    (front back : List (List ℕ)) → labels_len (front ++ back) ≡ labels_len front + labels_len back
unfolding labels_len
labels_len-append [] back = omega arith
labels_len-append (l ∷ front) back = omega (arith, labels_len-append front back)
