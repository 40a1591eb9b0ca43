-- ===== src/Name/FromWire/Refines.antt =====
-- `Name::from_wire` decides the relation of Spec.antt, within the limits that RFC 1035 sets.
use recurse_x.Prelude.{
  ℕ, zero, suc, ◌+◌, ◌*◌, ◌%◌, ◌≤◌, ◌<◌, ◌≡◌, refl, sym, ap, ◌∙◌, false, true, List, [], ◌∷◌, ◌++◌,
  map, append-nil, append_assoc, get_elem?-lt, length, length-append, length-map, All, arith,
  if◌then◌else◌, leb, Bool-cases, inl, inr,
}
use recurse_x.Error.{
  Error, Result, ok, err, ◌>>=◌, ErrorKind, wire_error, ok-injective, err-injective,
}
use recurse_x.Wire.{IsByte, usize_limit}
use recurse_x.Wire.Reads.{slice_at-eq-ok}
use recurse_x.Name.{Name, max_name_len, max_labels, max_pointer_hops, to_lower}
use recurse_x.Name.Labels.{encode, labels_len, pool}
use recurse_x.Name.FromWire.{Scan, scan_loop, after_round, start, scan_fuel, finish, from_wire}
use recurse_x.Name.FromWire.Spec.{NameAt, at_root, at_label, at_pointer}
use recurse_x.Name.FromWire.Rounds.{
  round_root, round_label, round_pointer, after_root, after_label, after_pointer,
}
use recurse_x.Name.FromWire.Sound.{Found, Bounded, scan_loop-Found, scan_loop-wire_error}
use recurse_x.Name.FromWire.Finish.{finish_lem}

-- What a successful call returns.
pub record Read (buf : List ℕ) (pos : ℕ) (n : Name) (e : ℕ) : Type 0 where
  pub hops : ℕ
  pub ls : List (List ℕ)
  pub at : NameAt buf pos e hops ls
  pub bytes : n.bytes ≡ encode ls
  pub few : length ls < max_labels
  pub short : labels_len ls + 1 ≤ max_name_len
  pub bounded : hops ≤ max_pointer_hops

from_wire_outside :
    (buf : List ℕ) (pos : ℕ)
    → leb (length buf) pos ≡ true
    → from_wire buf pos ≡ err (wire_error "truncated name (position out of bounds)")
unfolding from_wire
from_wire_outside buf pos h = rw h

from_wire_inside :
    (buf : List ℕ) (pos : ℕ)
    → leb (length buf) pos ≡ false
    → from_wire buf pos ≡ (scan_loop scan_fuel buf (start pos) >>= finish)
unfolding from_wire
from_wire_inside buf pos h = rw h

start-Bounded : (pos : ℕ) → Bounded (start pos)
start-Bounded pos = omega arith

-- A name starts at a byte of the message.
pub NameAt-inside :
    {buf : List ℕ} {p e h : ℕ} {ls : List (List ℕ)} → NameAt buf p e h ls → p < length buf
NameAt-inside {buf} {p} (at_root h) = get_elem?-lt buf p h
NameAt-inside {buf} {p} (at_label h _ _ _ _) = get_elem?-lt buf p h
NameAt-inside {buf} {p} (at_pointer h _ _ _ _) = get_elem?-lt buf p h

module _ (buf : List ℕ) (bytes : All IsByte buf) (fits : length buf < usize_limit) where
  -- After a loop that succeeds, the pieces are put together without fail.
  finish-Found :
      (pos : ℕ) (s : Scan) (f : Found buf (start pos) s)
      → finish s ≡ (
          if leb max_labels (length f.ls)
          then err (wire_error "too many labels")
          else ok (record { bytes = encode f.ls }, f.e))
  finish-Found pos s f = finish_lem s f.ls f.lens f.label_bytes ∙ rw f.end

  found :
      (pos : ℕ) (s : Scan) → scan_loop scan_fuel buf (start pos) ≡ ok s → Found buf (start pos) s
  found pos s q = scan_loop-Found buf fits s scan_fuel (start pos) bytes (start-Bounded pos) q

  error_kind :
      (pos : ℕ) {x : Error} (r : Result Scan)
      → scan_loop scan_fuel buf (start pos) ≡ r
      → (r >>= finish) ≡ err x
      → x.kind ≡ ErrorKind.wire
  unfolding wire_error
  error_kind pos (err y) q h =
      let same = err-injective h in
      scan_loop-wire_error buf scan_fuel (start pos) bytes (omega arith) (rw same at q)
  error_kind pos (ok s) q h = ground (arith, finish-Found pos s (found pos s q))

  -- Every error that `from_wire` returns is a wire error: its loop ends within the label and hop
  -- limits (it never runs out of fuel), and the internal error of mismatched lengths never occurs.
  pub from_wire-wire_error :
      (pos : ℕ) {x : Error} → from_wire buf pos ≡ err x → x.kind ≡ ErrorKind.wire
  unfolding wire_error
  from_wire-wire_error pos {x} h = elim (Bool-cases (leb (length buf) pos)) [
    | inl out ↦ ap (λ y. y.kind) (err-injective (sym h ∙ from_wire_outside buf pos out))
    | inr inside ↦
        error_kind pos (scan_loop scan_fuel buf (start pos)) refl
          (sym (from_wire_inside buf pos inside) ∙ h)
  ]

  read :
      (pos : ℕ) (n : Name) (e : ℕ) (r : Result Scan)
      → scan_loop scan_fuel buf (start pos) ≡ r
      → (r >>= finish) ≡ ok (n, e)
      → Read buf pos n e
  read pos n e (err y) q h = cc
  read pos n e (ok s) q h =
      let f = found pos s q in
      elim (Bool-cases (leb max_labels (length f.ls))) [
        | inl many ↦ cc (h, rw many at (finish-Found pos s f))
        | inr few ↦
            let same = ok-injective (sym h ∙ rw few at (finish-Found pos s f)) in
            record {
              hops = f.h;
              ls = f.ls;
              at = rw (ap (λ t. t.1) same) f.at;
              bytes = ap (λ t. t.0.bytes) same;
              few = ground arith;
              short = omega (arith, f.total);
              bounded = omega (arith, f.hops);
            }
      ]

  -- A name that `from_wire` returns is the one that the message holds at the position, by the
  -- meaning of labels and pointers, and it ends where the encoding ends; it has fewer than 127
  -- labels and at most 255 bytes, and at most 128 pointers lead to it.
  pub from_wire-Read :
      (pos : ℕ) (n : Name) (e : ℕ) → from_wire buf pos ≡ ok (n, e) → Read buf pos n e
  from_wire-Read pos n e h = elim (Bool-cases (leb (length buf) pos)) [
    | inl out ↦ cc (h, from_wire_outside buf pos out)
    | inr inside ↦
        read pos n e (scan_loop scan_fuel buf (start pos)) refl
          (sym (from_wire_inside buf pos inside) ∙ h)
  ]

  -- The loop reads every name that the relation gives, from any state that leaves room for it.
  scan_loop_complete :
      (fuel : ℕ) {p e h : ℕ} {ls : List (List ℕ)}
      → NameAt buf p e h ls
      → (s : Scan) → s.total + labels_len ls ≤ max_name_len
      → length s.lens + length ls ≤ max_labels
      → s.hops + h ≤ max_pointer_hops
      → length ls + h < fuel
      → (s' : Scan) × (scan_loop fuel buf (record s { p = p }) ≡ ok s')
        × (s'.lens ≡ s.lens ++ map length ls)
        × (s'.label_bytes ≡ s.label_bytes ++ pool ls)
        × (s'.end ≡ (if s.jumped then s.end else e))
  unfolding scan_loop after_round labels_len pool
  scan_loop_complete zero at s tot few hop hf = elim hf [ ]
  scan_loop_complete (suc fuel) {p} (at_root h) s tot few hop hf =
      let t = record s { p = p } in
      (after_root t, rw (round_root buf t bytes h), sym (append-nil _), sym (append-nil _), refl)
  scan_loop_complete (suc fuel) {p} (at_label {len = len} {l = l} {ls = ls} h pos small sl at) s tot
        few hop hf =
      let t = record s { p = p } in
      let (_, _, size) = slice_at-eq-ok buf fits (p + 1) len sl in
      let size' : length (map to_lower l) ≡ len = length-map to_lower l ∙ size in
      let u = after_label t len l in
      let (s', run, lens, pooled, end) =
        scan_loop_complete fuel at u (omega arith)
          (omega (arith, length-append {0} s.lens (len ∷ []))) hop (omega arith) in
      (
        s',
        rw (round_label buf t bytes len l h pos small sl (omega arith) (omega arith)) run,
        rw size' (lens ∙ append_assoc s.lens (len ∷ []) (map length ls)),
        pooled ∙ append_assoc s.label_bytes (map to_lower l) (pool ls),
        end,
      )
  scan_loop_complete (suc fuel) {p} (at_pointer {hi = hi} {lo = lo} h big h2 inside at) s tot few
        hop hf =
      let t = record s { p = p } in
      let u = after_pointer t (hi % 64 * 256 + lo) in
      let (s', run, lens, pooled, end) =
        scan_loop_complete fuel at u tot few (omega arith) (omega arith) in
      (
        s',
        rw (round_pointer buf t bytes hi lo h big h2 inside (omega arith)) run,
        lens,
        pooled,
        end,
      )

  -- Conversely, every name that the message holds at a position inside it, with fewer than 127
  -- labels, at most 255 bytes and at most 128 pointers, is returned, with the end of its encoding.
  pub from_wire_complete :
      {pos e h : ℕ} {ls : List (List ℕ)}
      → NameAt buf pos e h ls
      → length ls < max_labels
      → labels_len ls + 1 ≤ max_name_len
      → h ≤ max_pointer_hops
      → from_wire buf pos ≡ ok (record { bytes = encode ls }, e)
  from_wire_complete {pos} {e} {h} {ls} at few short hops =
      let (s, run, lens, pooled, end) =
        scan_loop_complete scan_fuel at (start pos) (omega arith) (omega arith) (omega arith)
          (omega arith) in
      from_wire_inside buf pos (ground (arith, NameAt-inside at))
      ∙ rw (run, finish_lem s ls lens pooled, end) (ground arith)
