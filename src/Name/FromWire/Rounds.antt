-- ===== src/Name/FromWire/Rounds.antt =====
-- One round of the loop of `Name::from_wire`, by the byte that it reads.
use recurse_x.Prelude.{
  ℕ, zero, suc, ◌+◌, ◌*◌, ◌%◌, ◌^◌, ◌≤◌, ◌<◌, ◌≡◌, refl, some, true, List, [], ◌∷◌, ◌++◌, map,
  if◌then◌else◌, length, get_elem?, All, arith, Bool-cases, Option-cases, inl, inr, ltb, leb, ◌==◌,
  false, ◌/◌,
}
use recurse_x.Prelude.Bits.{bit_and, bit_or, bit_and_0xc0, bit_and_0x3f, bit_or-shifted}
use recurse_x.Error.{or_error, wire_error, ◌>>=◌, Error, Result, ok, err, ErrorKind}
use recurse_x.Wire.{IsByte, slice_at}
use recurse_x.Name.{max_name_len, max_labels, max_pointer_hops, to_lower}
use recurse_x.Name.FromWire.{
  Scan, Round, again, done, round, on_label, on_pointer, push_label, jump, by_kind,
}

abbrev pub after_root : Scan → Scan
after_root s = record s { p = s.p + 1; end = if s.jumped then s.end else s.p + 1 }

abbrev pub after_label : Scan → ℕ → List ℕ → Scan
after_label s len label = record s {
  lens = s.lens ++ len ∷ [];
  label_bytes = s.label_bytes ++ map to_lower label;
  p = s.p + (1 + len);
  total = s.total + (1 + len);
}

abbrev pub after_pointer : Scan → ℕ → Scan
after_pointer s off = record s {
  p = off;
  end = if s.jumped then s.end else s.p + 2;
  jumped = true;
  hops = s.hops + 1;
}

-- The byte at an offset of a message is a byte.
pub get_elem?-IsByte :
    (buf : List ℕ) (i : ℕ) {b : ℕ} → All IsByte buf → get_elem? buf i ≡ some b → b < 256
get_elem?-IsByte [] i h e = cc
get_elem?-IsByte (x ∷ buf) zero {b} (h, hs) e = ground arith
get_elem?-IsByte (x ∷ buf) (suc i) (h, hs) e = get_elem?-IsByte buf i hs e

pub pointer_offset :
    (hi lo : ℕ) → hi < 256 → lo < 256 → bit_or (bit_and hi 0x3f * 2 ^ 8) lo ≡ hi % 64 * 256 + lo
pointer_offset hi lo h l = rw (bit_and_0x3f hi h) (bit_or-shifted 8 (hi % 64) lo l)

-- The ways in which a round can end, each with what the message holds there.
pub data View (buf : List ℕ) (s : Scan) : Result Round → Type 0 where
  view_root : get_elem? buf s.p ≡ some 0 → View buf s (ok (done (after_root s)))
  view_label :
      {len : ℕ} {l : List ℕ}
      → get_elem? buf s.p ≡ some len
      → 0 < len
      → len ≤ 63
      → slice_at buf (s.p + 1) len ≡ ok l
      → s.total + (1 + len) ≤ max_name_len
      → length s.lens < max_labels
      → View buf s (ok (again (after_label s len l)))
  view_pointer :
      {hi lo : ℕ}
      → get_elem? buf s.p ≡ some hi
      → 192 ≤ hi
      → get_elem? buf (s.p + 1) ≡ some lo
      → hi % 64 * 256 + lo < length buf
      → s.hops < max_pointer_hops
      → View buf s (ok (again (after_pointer s (hi % 64 * 256 + lo))))
  view_error : {e : Error} → e.kind ≡ ErrorKind.wire → View buf s (err e)

module _ (buf : List ℕ) (s : Scan) (bytes : All IsByte buf) where
  -- What a round does where its byte is a root, a label or a pointer that passes the checks.
  pub round_root : get_elem? buf s.p ≡ some 0 → round buf s ≡ ok (done (after_root s))
  unfolding round on_label
  round_root h = rw (h, round) refl

  pub round_label :
      (len : ℕ) (l : List ℕ)
      → get_elem? buf s.p ≡ some len
      → 0 < len
      → len ≤ 63
      → slice_at buf (s.p + 1) len ≡ ok l
      → s.total + (1 + len) ≤ max_name_len
      → length s.lens < max_labels
      → round buf s ≡ ok (again (after_label s len l))
  unfolding round on_label push_label
  round_label len l h pos small sl tot few =
      let kind : bit_and len 0xc0 ≡ 0 = rw (bit_and_0xc0 len (omega arith)) (omega arith) in
      rw (h, round, kind) (ground arith)

  pub round_pointer :
      (hi lo : ℕ)
      → get_elem? buf s.p ≡ some hi
      → 192 ≤ hi
      → get_elem? buf (s.p + 1) ≡ some lo
      → hi % 64 * 256 + lo < length buf
      → s.hops < max_pointer_hops
      → round buf s ≡ ok (again (after_pointer s (hi % 64 * 256 + lo)))
  unfolding round on_pointer jump
  round_pointer hi lo h big h2 inside few =
      let byte = get_elem?-IsByte buf s.p bytes h in
      let kind : bit_and hi 0xc0 ≡ 0xc0 = rw (bit_and_0xc0 hi byte) (omega arith) in
      rw (h, round, kind, h2, pointer_offset hi lo byte (get_elem?-IsByte buf (s.p + 1) bytes h2))
        (ground arith)

  View-push_label :
      (len : ℕ) (l : List ℕ)
      → get_elem? buf s.p ≡ some len
      → 0 < len
      → len ≤ 63
      → slice_at buf (s.p + 1) len ≡ ok l
      → View buf s (push_label s len l)
  unfolding push_label
  View-push_label len l h pos small sl =
      elim (Bool-cases (ltb max_name_len (s.total + (1 + len)))) [
        | inl long ↦ rw (long, push_label) (view_error refl)
        | inr fits ↦ elim (Bool-cases (leb max_labels (length s.lens))) [
          | inl many ↦ rw (fits, push_label, many) (view_error refl)
          | inr few ↦
              let narrow : len % 256 ≡ len = omega arith in
              rw (fits, push_label, few, narrow)
                (view_label h pos small sl (ground arith) (ground arith))
        ]
      ]

  View-on_label :
      (len : ℕ) → get_elem? buf s.p ≡ some len → len ≤ 63 → View buf s (on_label buf s len)
  unfolding on_label
  View-on_label len h small = elim (Bool-cases (len == 0)) [
    | inl zero_len ↦
        let e : len ≡ 0 = ground arith in rw (zero_len, on_label) (view_root (rw (← e) h))
    | inr pos ↦
        let short : ltb 63 len ≡ false = ground arith in
        rw (pos, on_label, short) (with_label (slice_at buf (s.p + 1) len) refl (ground arith))
  ]
    where
      with_label :
          (r : Result (List ℕ))
          → slice_at buf (s.p + 1) len ≡ r
          → 0 < len
          → View buf s (or_error r (wire_error "truncated label") >>= push_label s len)
      with_label (err e) q pos = view_error refl
      with_label (ok l) q pos = View-push_label len l h pos small q

  View-jump :
      (hi lo : ℕ)
      → get_elem? buf s.p ≡ some hi
      → 192 ≤ hi
      → get_elem? buf (s.p + 1) ≡ some lo
      → View buf s (jump buf s (hi % 64 * 256 + lo))
  unfolding jump
  View-jump hi lo h big h2 = elim (Bool-cases (leb (length buf) (hi % 64 * 256 + lo))) [
    | inl outside ↦ rw (outside, jump) (view_error refl)
    | inr inside ↦ elim (Bool-cases (ltb max_pointer_hops (s.hops + 1))) [
      | inl many ↦ rw (inside, jump, many) (view_error refl)
      | inr few ↦ rw (inside, jump, few) (view_pointer h big h2 (ground arith) (ground arith))
    ]
  ]

  View-on_pointer :
      (hi : ℕ) → get_elem? buf s.p ≡ some hi → 192 ≤ hi → View buf s (on_pointer buf s hi)
  unfolding on_pointer
  View-on_pointer hi h big = elim (Option-cases (get_elem? buf (s.p + 1))) [
    | inl e ↦ rw (e, on_pointer) (view_error refl)
    | inr (lo, e) ↦
        let byte = get_elem?-IsByte buf s.p bytes h in
        let low = get_elem?-IsByte buf (s.p + 1) bytes e in
        rw (e, on_pointer, pointer_offset hi lo byte low) (View-jump hi lo h big e)
  ]

  View-by_kind :
      (len : ℕ)
      → get_elem? buf s.p ≡ some len
      → len < 256
      → View buf s (by_kind buf s len (bit_and len 0xc0))
  unfolding by_kind
  View-by_kind len h byte = rw (bit_and_0xc0 len byte) (elim (Bool-cases (len / 64 * 64 == 0)) [
    | inl low ↦ rw (low, by_kind) (View-on_label len h (ground arith))
    | inr not_low ↦ elim (Bool-cases (len / 64 * 64 == 0xc0)) [
      | inl high ↦ rw (not_low, by_kind, high) (View-on_pointer len h (ground arith))
      | inr other ↦ rw (not_low, by_kind, other) (view_error refl)
    ]
  ])

  -- Every round is one of these: nothing else can happen.
  pub view : View buf s (round buf s)
  unfolding round
  view = elim (Option-cases (get_elem? buf s.p)) [
    | inl e ↦ rw (e, round) (view_error refl)
    | inr (len, e) ↦ rw (e, round) (View-by_kind len e (get_elem?-IsByte buf s.p bytes e))
  ]
