-- ===== src/Name/Compress/Table.antt =====
-- The invariant of the suffix table: what it says is true of the message.
use recurse_x.Prelude.{
  ℕ, ◌+◌, ◌≤◌, ◌<◌, ◌≡◌, refl, sym, ap, ◌∙◌, some, List, [], ◌∷◌, ◌++◌, append_assoc, length,
  length-append, take, All, All-append, arith, Bool-cases, Option-cases, some-eq, inl, inr, leb,
}
use recurse_x.Wire.{usize_limit}
use recurse_x.Name.{Name, bytes_eq}
use recurse_x.Name.Labels.{name_of, IsLabel, IsStored-valid, IsStored, labels_len, chain}
use recurse_x.Name.FromWire.Spec.{NameAt}
use recurse_x.Name.Compress.{
  NameCompressor, max_pointer_offset, get, or_insert, record_suffix, record_all,
}
use recurse_x.Name.Compress.Chains.{NameAt-append, NameAt-chain}
use recurse_x.Name.Compress.Suffixes.{suffixes_of, bytes_eq→eq}

-- What the table says of a suffix: the name stands in the message at the offset, within reach of a
-- pointer, and fewer hops lead through it than it has labels.
pub record Entry (buf : List ℕ) (n : Name) (off : ℕ) : Type 0 where
  pub ls : List (List ℕ)
  pub name : n ≡ name_of ls
  pub valid : All IsLabel ls
  pub e : ℕ
  pub h : ℕ
  pub at : NameAt buf off e h ls
  pub few : h < length ls

abbrev pub IsTrue : List ℕ → List (Name × ℕ) → Type 0
IsTrue buf = All (λ s. Entry buf s.0 s.1 × (s.1 ≤ max_pointer_offset))

Entry-append :
    (buf more : List ℕ) {n : Name} {off : ℕ}
    → Entry buf n off
    → length (buf ++ more) < usize_limit
    → Entry (buf ++ more) n off
Entry-append buf more entry fits = record {
  ls = entry.ls;
  name = entry.name;
  valid = entry.valid;
  e = entry.e;
  h = entry.h;
  at = NameAt-append buf more entry.at fits;
  few = entry.few;
}

pub IsTrue-append :
    (buf more : List ℕ) (offsets : List (Name × ℕ))
    → IsTrue buf offsets
    → length (buf ++ more) < usize_limit
    → IsTrue (buf ++ more) offsets
IsTrue-append buf more [] t fits = tt
IsTrue-append buf more (s ∷ offsets) ((entry, small), t) fits =
    ((Entry-append buf more entry fits, small), IsTrue-append buf more offsets t fits)

pub get-Entry :
    (buf : List ℕ) (offsets : List (Name × ℕ)) (n : Name) (off : ℕ)
    → IsTrue buf offsets
    → get offsets n ≡ some off
    → Entry buf n off × (off ≤ max_pointer_offset)
unfolding get
get-Entry buf [] n off t h = cc
get-Entry buf ((m, o) ∷ offsets) n off ((entry, small), t) h =
    elim (Bool-cases (bytes_eq m.bytes n.bytes)) [
      | inl same ↦
          let name : m ≡ n = ap (λ b. record { bytes = b }) (bytes_eq→eq m.bytes n.bytes same) in
          let offset : o ≡ off = some-eq (rw (same, get) at h) in
          rw (← name, ← offset) (entry, small)
      | inr other ↦ get-Entry buf offsets n off t (rw (other, get) at h)
    ]

abbrev pub Pending : List ℕ → ℕ → List (Name × ℕ) → Type 0
Pending buf base = All (λ s. Entry buf s.0 (base + s.1))

record_suffix-IsTrue :
    (buf : List ℕ) (c : NameCompressor) (base : ℕ) (n : Name) (rel : ℕ)
    → IsTrue buf c.offsets
    → Entry buf n (base + rel)
    → IsTrue buf (record_suffix c base n rel).offsets
unfolding record_suffix
record_suffix-IsTrue buf c base n rel t entry =
    elim (Bool-cases (leb (base + rel) max_pointer_offset)) [
      | inl small ↦ elim (Option-cases (get c.offsets n)) [
        | inl new ↦ rw (small, record_suffix, new, or_insert) ((entry, ground arith), t)
        | inr (o, old) ↦ rw (small, record_suffix, old, or_insert) t
      ]
      | inr far ↦ rw (far, record_suffix) t
    ]

pub record_all-IsTrue :
    (buf : List ℕ) (c : NameCompressor) (base : ℕ) (suffixes : List (Name × ℕ))
    → IsTrue buf c.offsets
    → Pending buf base suffixes
    → IsTrue buf (record_all c base suffixes).offsets
unfolding record_all
record_all-IsTrue buf c base [] t p = t
record_all-IsTrue buf c base ((n, rel) ∷ suffixes) t (p, ps) =
    record_all-IsTrue buf (record_suffix c base n rel) base suffixes
      (record_suffix-IsTrue buf c base n rel t p) ps

-- The suffixes that start inside a chain which was just written.
pub chain-Pending :
    (buf : List ℕ) (fits : length buf < usize_limit) (pre back : List (List ℕ))
    (front rest : List ℕ) (p q rel base : ℕ) {e h : ℕ}
    → All IsStored pre
    → All IsLabel back
    → buf ≡ front ++ (chain pre ++ rest)
    → p ≡ length front
    → q ≡ p + labels_len pre
    → p ≡ base + rel
    → h ≤ length back
    → NameAt buf q e h back
    → Pending buf base (take (length pre) (suffixes_of rel (pre ++ back)))
unfolding suffixes_of chain labels_len
chain-Pending buf fits [] back front rest p q rel base st v eb hp hq hr few at = tt
chain-Pending buf fits (l ∷ pre) back front rest p q rel base {e} {h} (st, sts) v eb hp hq hr few
      at =
    (
      record {
        ls = l ∷ (pre ++ back);
        name = refl;
        valid = (st.size, All-append IsLabel pre back (IsStored-valid pre sts) v);
        e = e;
        h = h;
        at = rw (← hr) (NameAt-chain buf fits (l ∷ pre) back front rest p q (st, sts) eb hp hq at);
        few = omega (arith, length-append {0} pre back);
      },
      chain-Pending buf fits pre back (front ++ length l ∷ l) rest (p + (1 + length l)) q
          (rel + (1 + length l)) base sts v
          (eb
            ∙ ap (λ t. front ++ length l ∷ t) (append_assoc l (chain pre) rest)
            ∙ sym (append_assoc front (length l ∷ l) (chain pre ++ rest)))
          (omega (arith, length-append {0} front (length l ∷ l))) (omega arith) (omega arith) few
          at,
    )
