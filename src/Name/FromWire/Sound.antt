-- ===== src/Name/FromWire/Sound.antt =====
-- `Name::from_wire` ends on every input, and what it returns is what the message holds there.
use recurse_x.Prelude.{
  ℕ, zero, suc, ◌+◌, ◌-◌, ◌≤◌, ◌<◌, ◌≡◌, refl, sym, ap, ◌∙◌, List, [], ◌∷◌, ◌++◌, map, append-nil,
  append_assoc, length, length-append, length-map, All, arith, if◌then◌else◌,
}
use mathlib.Core.Path.{subst}
use recurse_x.Error.{ok-injective, err-injective, Error, Result, ok, err, ◌>>=◌, ErrorKind}
use recurse_x.Wire.{IsByte, usize_limit, slice_at}
use recurse_x.Wire.Reads.{slice_at-eq-ok}
use recurse_x.Name.{max_name_len, max_labels, max_pointer_hops, to_lower}
use recurse_x.Name.Labels.{labels_len, pool}
use recurse_x.Name.FromWire.{Scan, Round, round, after_round, scan_loop}
use recurse_x.Name.FromWire.Spec.{NameAt, at_root, at_label, at_pointer}
use recurse_x.Name.FromWire.Rounds.{
  View, view, view_root, view_label, view_pointer, view_error, after_label,
}

-- What the loop has read between two states.
pub record Found (buf : List ℕ) (s s' : Scan) : Type 0 where
  pub e : ℕ
  pub h : ℕ
  pub ls : List (List ℕ)
  pub at : NameAt buf s.p e h ls
  pub lens : s'.lens ≡ s.lens ++ map length ls
  pub label_bytes : s'.label_bytes ≡ s.label_bytes ++ pool ls
  pub end : s'.end ≡ (if s.jumped then s.end else e)
  pub total : s.total + labels_len ls ≤ max_name_len
  pub hops : s.hops + h ≤ max_pointer_hops

-- The bounds that the loop keeps.
pub record Bounded (s : Scan) : Type 0 where
  pub total : s.total ≤ max_name_len
  pub lens : length s.lens ≤ max_labels
  pub hops : s.hops ≤ max_pointer_hops

module _ (buf : List ℕ) (fits : length buf < usize_limit) (s' : Scan) where
  Found-label :
      (s : Scan) (len : ℕ) (l : List ℕ)
      → (f : Found buf (after_label s len l) s') → slice_at buf (s.p + 1) len ≡ ok l
      → NameAt buf s.p f.e f.h (map to_lower l ∷ f.ls)
      → Found buf s s'
  unfolding pool labels_len
  Found-label s len l f sl at =
      let (_, _, size) = slice_at-eq-ok buf fits (s.p + 1) len sl in
      let size' : length (map to_lower l) ≡ len = length-map to_lower l ∙ size in
      record {
        e = f.e;
        h = f.h;
        ls = map to_lower l ∷ f.ls;
        at = at;
        lens = rw size' (f.lens ∙ append_assoc s.lens (len ∷ []) (map length f.ls));
        label_bytes = f.label_bytes ∙ append_assoc s.label_bytes (map to_lower l) (pool f.ls);
        end = f.end;
        total = omega arith;
        hops = f.hops;
      }

  Found-round :
      (fuel : ℕ) (s : Scan) (r : Result Round)
      → View buf s r
      → Bounded s
      → ((t : Scan) → Bounded t → scan_loop fuel buf t ≡ ok s' → Found buf t s')
      → (r >>= after_round (scan_loop fuel buf)) ≡ ok s'
      → Found buf s s'
  unfolding after_round labels_len pool
  Found-round fuel s r (view_root h) b ih q =
      subst (λ t. Found buf s t) (ok-injective q)
        (record {
          e = s.p + 1;
          h = 0;
          ls = [];
          at = at_root h;
          lens = sym (append-nil s.lens);
          label_bytes = sym (append-nil s.label_bytes);
          end = refl;
          total = omega (arith, b.total);
          hops = omega (arith, b.hops);
        })
  Found-round fuel s r (view_label h pos small sl tot few) b ih q =
      let f =
        ih _ (record { total = tot; lens = omega (arith, length-append {0} s.lens); hops = b.hops })
          q in
      Found-label s _ _ f sl (at_label h pos small sl f.at)
  Found-round fuel s r (view_pointer h big h2 inside few) b ih q =
      let f = ih _ (record { total = b.total; lens = b.lens; hops = omega arith }) q in
      record {
        e = s.p + 2;
        h = suc f.h;
        ls = f.ls;
        at = at_pointer h big h2 inside f.at;
        lens = f.lens;
        label_bytes = f.label_bytes;
        end = f.end;
        total = f.total;
        hops = omega arith;
      }
  Found-round fuel s r (view_error k) b ih q = cc

  pub scan_loop-Found :
      (fuel : ℕ) (s : Scan)
      → All IsByte buf
      → Bounded s
      → scan_loop fuel buf s ≡ ok s'
      → Found buf s s'
  unfolding scan_loop
  scan_loop-Found zero s bytes b q = cc
  scan_loop-Found (suc fuel) s bytes b q =
      Found-round fuel s (round buf s) (view buf s bytes) b
        (λ t bt qt. scan_loop-Found fuel t bytes bt qt) q

-- The rounds that the bounds leave.
abbrev rounds_left : Scan → ℕ
rounds_left s = (max_labels - length s.lens) + (max_pointer_hops - s.hops) + 1

module _ (buf : List ℕ) where
  ends_round :
      (fuel : ℕ) (s : Scan) (r : Result Round) {x : Error}
      → View buf s r
      → rounds_left s ≤ suc fuel
      → ((t : Scan) → rounds_left t ≤ fuel → scan_loop fuel buf t ≡ err x → x.kind ≡ ErrorKind.wire)
      → (r >>= after_round (scan_loop fuel buf)) ≡ err x
      → x.kind ≡ ErrorKind.wire
  unfolding after_round
  ends_round fuel s r (view_root h) b ih q = cc
  ends_round fuel s r (view_label h pos small sl tot few) b ih q =
      ih _ (omega (arith, length-append {0} s.lens)) q
  ends_round fuel s r (view_pointer h big h2 inside few) b ih q = ih _ (omega arith) q
  ends_round fuel s r (view_error k) b ih q = ap (λ y. y.kind) (sym (err-injective q)) ∙ k

  pub scan_loop-wire_error :
      (fuel : ℕ) (s : Scan) {x : Error}
      → All IsByte buf
      → rounds_left s ≤ fuel
      → scan_loop fuel buf s ≡ err x
      → x.kind ≡ ErrorKind.wire
  unfolding scan_loop
  scan_loop-wire_error zero s bytes b q = absurd (omega arith)
  scan_loop-wire_error (suc fuel) s bytes b q =
      ends_round fuel s (round buf s) (view buf s bytes) b
        (λ t bt qt. scan_loop-wire_error fuel t bytes bt qt) q
