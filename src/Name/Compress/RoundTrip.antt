-- ===== src/Name/Compress/RoundTrip.antt =====
-- What the compressor writes is read back by `Name::from_wire`, and its table stays true of the
-- message.
use recurse_x.Prelude.{
  ℕ, suc, ◌+◌, ◌/◌, ◌%◌, ◌^◌, ◌≤◌, ◌<◌, ◌≡◌, refl, sym, ap, ◌∙◌, Option, none, some, List, [], ◌∷◌,
  ◌++◌, append-nil, append_assoc, length, length-append, take, take_of_length-le, All, All-append,
  arith,
}
use mathlib.Core.Path.{subst}
use recurse_x.Prelude.Bits.{bit_or-shifted, bit_and-low}
use recurse_x.Error.{ok}
use recurse_x.Wire.{IsByte, usize_limit}
use recurse_x.Name.{Name, wire_len, max_labels, max_name_len}
use recurse_x.Name.Labels.{
  name_of, IsStored-valid, All-IsStored-split, encode-injective, IsStored, encode, labels_len,
  labels_len-append, chain, chain-root, chain-IsByte, length-encode, encode-append, length-chain,
  length-le-labels_len,
}
use recurse_x.Name.FromWire.Spec.{NameAt, at_root}
use recurse_x.Name.Compress.{
  NameCompressor, max_pointer_offset, get, record_all, find_hit, pointer_bytes, write, write_found,
  write_hit, suffix_walk,
}
use recurse_x.Name.Compress.Chains.{NameAt-append, NameAt-pointer, byte_behind, NameAt-chain}
use recurse_x.Name.FromWire.{from_wire}
use recurse_x.Name.FromWire.Refines.{from_wire_complete}
use recurse_x.Name.Compress.Table.{
  IsTrue, IsTrue-append, get-Entry, record_all-IsTrue, chain-Pending,
}
use recurse_x.Name.Compress.Suffixes.{
  length-suffixes_of, suffixes_of, strip_suffix-append, suffix_walk-suffixes_of, find_hit-Hit,
}

-- The bytes of a pointer to an offset of at most 14 bits.
pointer_bytes_lem :
    (off : ℕ) → off ≤ max_pointer_offset → pointer_bytes off ≡ (192 + off / 256) ∷ (off % 256) ∷ []
unfolding pointer_bytes
pointer_bytes_lem off h =
    let high : off / 2 ^ 8 % 256 ≡ off / 256 = omega arith in
    let low : off % 256 % 256 ≡ off % 256 = omega arith in
    rw (high, bit_or-shifted 6 3 (off / 256) (omega arith), bit_and-low 8 off, low)

-- A name was written at the end of `out`: the message only grows, by bytes; its table is true of
-- it; and the name stands where it was written, up to the end.
pub record Written (out : List ℕ) (ls : List (List ℕ)) (r : NameCompressor × List ℕ) : Type 0 where
  pub more : List ℕ
  pub grows : r.1 ≡ out ++ more
  pub bytes : All IsByte more
  pub table : IsTrue r.1 r.0.offsets
  pub hops : ℕ
  pub at : NameAt r.1 (length out) (length r.1) hops ls
  pub few : hops ≤ length ls
  pub short : length r.1 ≤ length out + labels_len ls + 1

module _ (c : NameCompressor) (out : List ℕ) (true_table : IsTrue out c.offsets) where
  -- No suffix is known: the whole name is written.
  pub Written-whole :
      (ls : List (List ℕ))
      → All IsStored ls
      → length out + labels_len ls + 1 < usize_limit
      → Written out ls (record_all c (length out) (suffixes_of 0 ls), out ++ encode ls)
  Written-whole ls st fits =
      let buf = out ++ encode ls in
      let room : length buf < usize_limit =
        omega (arith, length-append out (encode ls), length-encode ls) in
      let base = length out in
      let q = base + labels_len ls in
      let split : buf ≡ out ++ (chain ls ++ 0 ∷ []) = ap (λ t. out ++ t) (sym (chain-root ls)) in
      let split' : buf ≡ (out ++ chain ls) ++ 0 ∷ [] =
        split ∙ sym (append_assoc out (chain ls) (0 ∷ [])) in
      let behind : q ≡ length (out ++ chain ls) =
        omega (arith, length-append out (chain ls), length-chain ls) in
      let end : q + 1 ≡ length buf =
        omega (arith, length-append out (encode ls), length-encode ls) in
      let root_at : NameAt buf q (length buf) 0 [] =
        subst (λ x. NameAt buf q x 0 []) end
          (at_root (byte_behind buf room (out ++ chain ls) [] 0 q split' behind)) in
      let pending =
        chain-Pending buf room ls [] out (0 ∷ []) base q 0 base st tt split refl refl (omega arith)
          (omega arith) root_at in
      let all : take (length ls) (suffixes_of 0 (ls ++ [])) ≡ suffixes_of 0 ls =
        rw (append-nil ls) (
          take_of_length-le (length ls) (suffixes_of 0 ls)
            (omega (arith, length-suffixes_of 0 ls))) in
      record {
        more = encode ls;
        grows = refl;
        bytes =
            rw (← chain-root ls)
              (All-append IsByte (chain ls) (0 ∷ []) (chain-IsByte ls st) (omega arith));
        table =
            record_all-IsTrue buf c base (suffixes_of 0 ls)
              (IsTrue-append out (encode ls) c.offsets true_table room) (rw all at pending);
        hops = 0;
        at =
            subst (λ t. NameAt buf base (length buf) 0 t) (append-nil ls)
              (NameAt-chain buf room ls [] out (0 ∷ []) base q st split refl refl root_at);
        few = omega arith;
        short = omega arith;
      }

  -- A suffix is known: the labels in front of it are written, and a pointer to it.
  Written-hit :
      (front back : List (List ℕ)) (off : ℕ)
      → All IsStored (front ++ back)
      → length out + labels_len front + 2 < usize_limit
      → get c.offsets (name_of back) ≡ some off
      → Written out (front ++ back) (
        record_all c (length out) (take (length front) (suffixes_of 0 (front ++ back))),
        out ++ (chain front ++ pointer_bytes off),
      )
  Written-hit front back off st fits found =
      let (entry, small) = get-Entry out c.offsets (name_of back) off true_table found in
      let (st_front, st_back) = All-IsStored-split front back st in
      let same : entry.ls ≡ back =
        encode-injective entry.ls back entry.valid (IsStored-valid back st_back)
          (sym (ap (λ n. n.bytes) entry.name)) in
      let pair = (192 + off / 256) ∷ (off % 256) ∷ [] in
      let more = chain front ++ pair in
      let buf = out ++ more in
      let size : length buf ≡ length out + labels_len front + 2 =
        omega
          (arith, length-append out more, length-append (chain front) pair, length-chain front) in
      let room : length buf < usize_limit = omega arith in
      let base = length out in
      let q = base + labels_len front in
      let split' : buf ≡ (out ++ chain front) ++ pair = sym (append_assoc out (chain front) pair) in
      let behind : q ≡ length (out ++ chain front) =
        omega (arith, length-append out (chain front), length-chain front) in
      let target : NameAt buf off entry.e entry.h back =
        subst (λ t. NameAt buf off entry.e entry.h t) same (NameAt-append out more entry.at room) in
      let here : NameAt buf q (length buf) (suc entry.h) back =
        subst (λ x. NameAt buf q x (suc entry.h) back) (sym size)
          (NameAt-pointer buf room back (out ++ chain front) [] off q split' behind small target) in
      let reach : suc entry.h ≤ length back = rw (← same) entry.few in
      let pending =
        chain-Pending buf room front back out pair base q 0 base st_front
          (IsStored-valid back st_back) refl refl refl (omega arith) reach here in
      rw (pointer_bytes_lem off small) (record {
        more = more;
        grows = refl;
        bytes = All-append IsByte (chain front) pair (chain-IsByte front st_front) (omega arith);
        table =
            record_all-IsTrue buf c base (take (length front) (suffixes_of 0 (front ++ back)))
              (IsTrue-append out more c.offsets true_table room) pending;
        hops = suc entry.h;
        at = NameAt-chain buf room front back out pair base q st_front refl refl refl here;
        few = omega (arith, length-append {0} front back);
        short = omega (arith, labels_len-append front back, length-le-labels_len back);
      })

  write_hit_lem :
      (front back : List (List ℕ)) (off : ℕ)
      → write_hit (name_of (front ++ back)) (name_of back) off out
        ≡ out ++ (chain front ++ pointer_bytes off)
  unfolding write_hit
  write_hit_lem front back off =
      rw (encode-append front back, strip_suffix-append (chain front) (encode back), write_hit)

  -- Writing a name with the compressor: the message grows by bytes, the table stays true of it, and
  -- the name stands at the old end of the message and fills it up to the new end.
  pub write-Written :
      (ls : List (List ℕ))
      → All IsStored ls
      → length out + labels_len ls + 1 < usize_limit
      → Written out ls (write c (name_of ls) out)
  unfolding write write_found wire_len
  write-Written ls st fits =
      let walk : suffix_walk (length (encode ls)) (length (encode ls)) (name_of ls)
          ≡ suffixes_of 0 ls =
        suffix_walk-suffixes_of ls (length (encode ls)) (length (encode ls)) 0
          (omega (arith, length-encode ls, length-le-labels_len ls))
          (omega (arith, length-encode ls)) in
      rw walk (by_hit (find_hit c.offsets 0 (suffixes_of 0 ls)) refl)
    where
      by_hit :
          (r : Option (ℕ × Name × ℕ))
          → find_hit c.offsets 0 (suffixes_of 0 ls) ≡ r
          → Written out ls (write_found c (name_of ls) out (suffixes_of 0 ls) r)
      by_hit none q = Written-whole ls st fits
      by_hit (some (i, n, off)) q =
          let (j, index, hit) = find_hit-Hit c.offsets ls 0 0 i off n q in
          let tail = hit.label ∷ hit.back in
          let place : i ≡ length hit.front = omega (arith, hit.index) in
          let st' : All IsStored (hit.front ++ tail) = rw (← hit.split) st in
          let (_, tail_st) = All-IsStored-split hit.front tail st' in
          let some_label = tail_st.0.size.0 in
          let room : length out + labels_len hit.front + 2 < usize_limit =
            unfold labels_len in
            omega (arith, labels_len-append hit.front tail, ap labels_len hit.split) in
          let w = Written-hit hit.front tail off st' room (rw (← hit.suffix) hit.entry) in
          let out_of : List (List ℕ) → NameCompressor × List ℕ = λ t. (
            record_all c (length out) (take (length hit.front) (suffixes_of 0 t)),
            write_hit (name_of t) (name_of tail) off out,
          ) in
          rw (place, hit.suffix)
            (subst (λ t. Written out t (out_of t)) (sym hit.split)
              (rw (write_hit_lem hit.front tail off) w))

  -- A name that the compressor writes into a message is read back from its place by `from_wire`,
  -- whatever is appended later: the same name, ending where the compressor stopped. The name has
  -- fewer than 127 labels and at most 255 bytes, and the table is true of the message.
  pub from_wire-write :
      (ls : List (List ℕ)) (later : List ℕ)
      → All IsByte out
      → All IsByte later
      → All IsStored ls
      → length ls < max_labels
      → labels_len ls + 1 ≤ max_name_len
      → length out + labels_len ls + 1 + length later < usize_limit
      → from_wire ((write c (name_of ls) out).1 ++ later) (length out)
        ≡ ok (name_of ls, length (write c (name_of ls) out).1)
  from_wire-write ls later out_bytes later_bytes st few short room =
      let w = write-Written ls st (omega arith) in
      let buf = (write c (name_of ls) out).1 in
      let fits : length (buf ++ later) < usize_limit =
        omega (arith, length-append buf later, w.short) in
      from_wire_complete (buf ++ later)
        (All-append IsByte buf later (rw w.grows (All-append IsByte out w.more out_bytes w.bytes))
          later_bytes)
        fits (NameAt-append buf later w.at fits) few short (omega (arith, w.few))
