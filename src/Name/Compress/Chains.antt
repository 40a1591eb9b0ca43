-- ===== src/Name/Compress/Chains.antt =====
-- Names in a message that grows, and names that are written as chains of labels.
use recurse_x.Prelude.{
  ℕ, suc, ◌+◌, ◌*◌, ◌/◌, ◌%◌, ◌≤◌, ◌<◌, ◌≡◌, refl, sym, ap, ◌∙◌, some, List, [], ◌∷◌, ◌++◌,
  append_assoc, length, length-append, drop, get_elem?, get_elem?-append, get_elem?-lt,
  get_elem?-seam, take-append, drop-append, length-drop, All, arith,
}
use mathlib.Core.Path.{subst}
use recurse_x.Error.{ok}
use recurse_x.Wire.{usize_limit, slice_at}
use recurse_x.Wire.Reads.{slice_at_lem, slice_at-eq-ok, slice_at-seam}
use recurse_x.Name.Labels.{IsStored, labels_len, chain}
use recurse_x.Name.FromWire.Spec.{NameAt, at_root, at_label, at_pointer}
use recurse_x.Name.FromWire.Refines.{NameAt-inside}
use recurse_x.Name.Compress.{max_pointer_offset}

-- Reads are not disturbed by what is appended.
slice_at-append :
    (buf more : List ℕ) (at len : ℕ) {s : List ℕ}
    → slice_at buf at len ≡ ok s
    → length (buf ++ more) < usize_limit
    → slice_at (buf ++ more) at len ≡ ok s
slice_at-append buf more at len {s} h fits =
    let (inside, same, _) = slice_at-eq-ok buf (omega (arith, length-append buf more)) at len h in
    let dropped = drop-append at buf more (omega arith) in
    let taken = take-append len (drop at buf) more (omega (arith, length-drop at buf)) in
    rw (slice_at_lem (buf ++ more) fits at len, dropped, taken)
      (ground (arith, length-append buf more))

pub NameAt-append :
    (buf more : List ℕ) {p e h : ℕ} {ls : List (List ℕ)}
    → NameAt buf p e h ls
    → length (buf ++ more) < usize_limit
    → NameAt (buf ++ more) p e h ls
NameAt-append buf more {p} (at_root h) fits =
    at_root (get_elem?-append buf more p (get_elem?-lt buf p h) ∙ h)
NameAt-append buf more {p} (at_label {len = len} h pos small sl at) fits =
    at_label (get_elem?-append buf more p (get_elem?-lt buf p h) ∙ h) pos small
      (slice_at-append buf more (p + 1) len sl fits) (NameAt-append buf more at fits)
NameAt-append buf more {p} (at_pointer h big h2 inside at) fits =
    at_pointer (get_elem?-append buf more p (get_elem?-lt buf p h) ∙ h) big
      (get_elem?-append buf more (p + 1) (get_elem?-lt buf (p + 1) h2) ∙ h2)
      (omega (arith, length-append buf more)) (NameAt-append buf more at fits)

module _ (buf : List ℕ) (fits : length buf < usize_limit) where
  -- The byte and the slice that stand behind a known front.
  pub byte_behind :
      (front rest : List ℕ) (x p : ℕ)
      → buf ≡ front ++ x ∷ rest
      → p ≡ length front
      → get_elem? buf p ≡ some x
  byte_behind front rest x p e hp = rw (e, hp) (get_elem?-seam front rest x)

  slice_behind :
      (front s rest : List ℕ) (p n : ℕ)
      → buf ≡ front ++ (s ++ rest)
      → p ≡ length front
      → n ≡ length s
      → slice_at buf p n ≡ ok s
  slice_behind front s rest p n e hp hn = rw (e, hp, hn) (slice_at-seam front s rest (rw e at fits))

  -- A chain that stands at `p` is read as its labels, and the name goes on behind it.
  pub NameAt-chain :
      (pre back : List (List ℕ)) (front rest : List ℕ) (p q : ℕ) {e h : ℕ}
      → All IsStored pre
      → buf ≡ front ++ (chain pre ++ rest)
      → p ≡ length front
      → q ≡ p + labels_len pre
      → NameAt buf q e h back
      → NameAt buf p e h (pre ++ back)
  unfolding chain labels_len
  NameAt-chain [] back front rest p q {e} {h} st eb hp hq at =
      let same : q ≡ p = omega arith in subst (λ x. NameAt buf x e h back) same at
  NameAt-chain (l ∷ pre) back front rest p q {e} {h} (st, sts) eb hp hq at =
      let behind : buf ≡ (front ++ length l ∷ l) ++ (chain pre ++ rest) =
        eb
        ∙ ap (λ t. front ++ length l ∷ t) (append_assoc l (chain pre) rest)
        ∙ sym (append_assoc front (length l ∷ l) (chain pre ++ rest)) in
      let split : buf ≡ front ++ (length l ∷ (l ++ (chain pre ++ rest))) =
        eb ∙ ap (λ t. front ++ length l ∷ t) (append_assoc l (chain pre) rest) in
      let split' : buf ≡ (front ++ length l ∷ []) ++ (l ++ (chain pre ++ rest)) =
        split ∙ sym (append_assoc front (length l ∷ []) (l ++ (chain pre ++ rest))) in
      subst (λ x. NameAt buf p e h (x ∷ (pre ++ back))) st.lower
        (at_label (byte_behind front (l ++ (chain pre ++ rest)) (length l) p split hp) st.size.0
          st.size.1
          (slice_behind (front ++ length l ∷ []) l (chain pre ++ rest) (p + 1) (length l) split'
            (omega (arith, length-append {0} front (length l ∷ []))) refl)
          (NameAt-chain pre back (front ++ length l ∷ l) rest (p + (1 + length l)) q sts behind
            (omega (arith, length-append {0} front (length l ∷ l))) (omega arith) at))

  -- A pointer that stands at `p` is followed.
  pub NameAt-pointer :
      (back : List (List ℕ)) (front rest : List ℕ) (off p : ℕ) {e h : ℕ}
      → buf ≡ front ++ (192 + off / 256) ∷ (off % 256) ∷ rest
      → p ≡ length front
      → off ≤ max_pointer_offset
      → NameAt buf off e h back
      → NameAt buf p (p + 2) (suc h) back
  NameAt-pointer back front rest off p {e} {h} eb hp small at =
      let hi = 192 + off / 256 in
      let behind : buf ≡ (front ++ hi ∷ []) ++ (off % 256) ∷ rest =
        eb ∙ sym (append_assoc front (hi ∷ []) ((off % 256) ∷ rest)) in
      let offset : off ≡ hi % 64 * 256 + off % 256 = omega arith in
      at_pointer (byte_behind front ((off % 256) ∷ rest) hi p eb hp) (omega arith)
        (byte_behind (front ++ hi ∷ []) rest (off % 256) (p + 1) behind
          (omega (arith, length-append {0} front (hi ∷ []))))
        (omega (arith, NameAt-inside at)) (subst (λ o. NameAt buf o e h back) offset at)
