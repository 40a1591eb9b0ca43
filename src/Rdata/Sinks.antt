-- ===== src/Rdata/Sinks.antt =====
-- src/rdata.rs: what a sink has written stands in the finished message, and a name that was put into
-- it is read back from its place.
use mathlib.Core.Path.{subst}
use recurse_x.Prelude.{
  ℕ, ◌+◌, ◌≤◌, ◌<◌, ◌≡◌, refl, sym, ap, ◌∙◌, Option, none, some, List, [], ◌++◌, append_assoc,
  append-nil, length, length-append, All, arith,
}
use recurse_x.Error.{ok}
use recurse_x.Wire.{IsByte, usize_limit}
use recurse_x.Wire.Holds.{Holds}
use recurse_x.Name.{Name, max_labels, max_name_len}
use recurse_x.Name.Labels.{name_of, IsStored, encode, labels_len, length-encode}
use recurse_x.Name.FromWire.{from_wire}
use recurse_x.Name.FromWire.Refines.{from_wire_complete}
use recurse_x.Name.Compress.{NameCompressor, new, write}
use recurse_x.Name.Compress.Chains.{NameAt-append}
use recurse_x.Name.Compress.Table.{IsTrue, IsTrue-append}
use recurse_x.Name.Compress.RoundTrip.{Written, Written-whole, write-Written}
use recurse_x.Rdata.ToWire.{Sink, push, put_name}
use recurse_x.Rdata.Grows.{put_name-Grows}

-- A name as the parsers build it: stored labels, at most 126 of them and 255 bytes.
pub record IsName (n : Name) : Type 0 where
  pub ls : List (List ℕ)
  pub name : n ≡ name_of ls
  pub stored : All IsStored ls
  pub few : length ls < max_labels
  pub short : labels_len ls + 1 ≤ max_name_len

-- The sink is a stage of the message `buf`.
pub record Within (buf : List ℕ) (s : Sink) : Type 0 where
  pub later : List ℕ
  pub split : buf ≡ s.out ++ later

-- Every entry of the compressor's table tells the truth about the buffer.
abbrev pub IsTrueFor : List ℕ → Option NameCompressor → Type 0
IsTrueFor out (some c) = IsTrue out c.offsets
IsTrueFor out none = Unit

abbrev pub IsSink : Sink → Type 0
IsSink s = IsTrueFor s.out s.comp

pub Within-end : (s : Sink) → Within s.out s
Within-end s = record { later = []; split = sym (append-nil s.out) }

pub Within-le : (buf : List ℕ) (s : Sink) → Within buf s → length s.out ≤ length buf
Within-le buf s w = omega (arith, ap length w.split, length-append s.out w.later)

module _ (buf : List ℕ) (s : Sink) (bytes : List ℕ) where
  pub push-Within : Within buf (push s bytes) → Within buf s
  unfolding push
  push-Within w = record {
    later = bytes ++ w.later;
    split = w.split ∙ append_assoc s.out bytes w.later;
  }

  pub push-Holds : Within buf (push s bytes) → Holds buf (length s.out) bytes
  unfolding push
  push-Holds w = record {
    front = s.out;
    rest = w.later;
    split = w.split ∙ append_assoc s.out bytes w.later;
    place = refl;
  }

  pub push-IsSink :
      length (push s bytes).out ≤ length buf
      → length buf < usize_limit
      → IsSink s
      → IsSink (push s bytes)
  unfolding push
  push-IsSink inside room t = by_comp s.comp t
    where
      by_comp : (c : Option NameCompressor) → IsTrueFor s.out c → IsTrueFor (s.out ++ bytes) c
      by_comp (some c) t = IsTrue-append s.out bytes c.offsets t (omega arith)
      by_comp none t = tt

pub put_name-IsSink :
    (s : Sink) (n : Name)
    → IsName n
    → length s.out + 256 ≤ usize_limit
    → IsSink s
    → IsSink (put_name s n)
unfolding put_name
put_name-IsSink s n name room t = by_comp s.comp t
  where
    by_comp :
        (c : Option NameCompressor)
        → IsTrueFor s.out c
        → IsSink (put_name (record { comp = c; out = s.out }) n)
    by_comp (some c) t =
        let w = write-Written c s.out t name.ls name.stored (omega (arith, name.short)) in
        subst (λ m. IsTrue (write c m s.out).1 (write c m s.out).0.offsets) (sym name.name) w.table
    by_comp none t = tt

-- A name was put into the message: the sink before it is a stage of the message too, the one behind
-- it is sound, and the reader finds the name.
pub record PutName (buf : List ℕ) (s : Sink) (n : Name) : Type 0 where
  pub before : Within buf s
  pub sink : IsSink (put_name s n)
  pub read : from_wire buf (length s.out) ≡ ok (n, length (put_name s n).out)

module _ (buf : List ℕ) (bytes : All IsByte buf) (room : length buf + 256 ≤ usize_limit) where
  -- The reader of a name that was written between `out` and the end of `r`.
  Written-read :
      (out : List ℕ) (ls : List (List ℕ)) (r : NameCompressor × List ℕ) (later : List ℕ)
      → Written out ls r
      → buf ≡ r.1 ++ later
      → length ls < max_labels
      → labels_len ls + 1 ≤ max_name_len
      → from_wire buf (length out) ≡ ok (name_of ls, length r.1)
  Written-read out ls r later w split few short =
      let fits : length (r.1 ++ later) < usize_limit = rw (← split) (omega arith) in
      rw split (
        from_wire_complete (r.1 ++ later) (rw split at bytes) fits
          (NameAt-append r.1 later w.at fits) few short (omega (arith, w.few)))

  -- The stage before what was written.
  Written-Within :
      (c : Option NameCompressor) (out : List ℕ) (ls : List (List ℕ)) (r : NameCompressor × List ℕ)
      (later : List ℕ)
      → Written out ls r
      → buf ≡ r.1 ++ later
      → Within buf (record { comp = c; out = out })
  Written-Within c out ls r later w split = record {
    later = w.more ++ later;
    split = split ∙ ap (λ t. t ++ later) w.grows ∙ append_assoc out w.more later;
  }

  write-le :
      (c : NameCompressor) (n : Name) (out later : List ℕ)
      → buf ≡ (write c n out).1 ++ later
      → length out ≤ length buf
  write-le c n out later split =
      let g = put_name-Grows (record { comp = some c; out = out }) n in
      unfold put_name in
      omega (arith, g.longer, ap length split, length-append (write c n out).1 later)

  pub put_name-PutName :
      (s : Sink) (n : Name) → IsName n → IsSink s → Within buf (put_name s n) → PutName buf s n
  unfolding put_name
  put_name-PutName s n name t w = by_comp s.comp s.out t w.later w.split
    where
      by_comp :
          (c : Option NameCompressor) (out : List ℕ)
          → IsTrueFor out c
          → (later : List ℕ) → buf ≡ (put_name (record { comp = c; out = out }) n).out ++ later
          → PutName buf (record { comp = c; out = out }) n
      by_comp (some c) out t later split =
          let same = name.name in
          let fits : length out + labels_len name.ls + 1 < usize_limit =
            let le = write-le c n out later split in omega (arith, name.short) in
          let w = write-Written c out t name.ls name.stored fits in
          let w' = subst (λ m. Written out name.ls (write c m out)) (sym same) w in
          record {
            before = Written-Within (some c) out name.ls (write c n out) later w' split;
            sink = w'.table;
            read =
                Written-read out name.ls (write c n out) later w' split name.few name.short
                ∙ ap (λ m. ok (m, length (write c n out).1)) (sym same);
          }
      by_comp none out t later split =
          let same = name.name in
          let split' : buf ≡ (out ++ encode name.ls) ++ later =
            split ∙ ap (λ m. (out ++ m.bytes) ++ later) same in
          let fits : length out + labels_len name.ls + 1 < usize_limit = omega (
            arith,
            name.short,
            ap length split',
            length-append (out ++ encode name.ls) later,
            length-append out (encode name.ls),
            length-encode name.ls,
          ) in
          let w = Written-whole new out tt name.ls name.stored fits in
          record {
            before = Written-Within none out name.ls _ later w split';
            sink = tt;
            read =
                Written-read out name.ls _ later w split' name.few name.short
                ∙ (λ i. ok (sym same i, length (out ++ (sym same i).bytes)));
          }
