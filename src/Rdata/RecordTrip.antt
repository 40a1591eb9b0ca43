-- ===== src/Rdata/RecordTrip.antt =====
-- src/rdata.rs: a whole record, written into a message and read back.
use recurse_x.Prelude.{
  ℕ, ◌+◌, ◌%◌, ◌^◌, ◌≤◌, ◌<◌, ◌≡◌, refl, sym, ap, ◌∙◌, false, Bool-cases, inl, inr, Option, none,
  some, List, [], ◌∷◌, ◌++◌, append-nil, ltb, ◌==◌, length, length-append, All, arith,
}
use recurse_x.Error.{ok, >>=-eq-ok, fail_if-eq-ok, ok_or, wire_error, ok-injective}
use recurse_x.Wire.{IsByte, usize_limit, to_be_bytes, get_range, u16_at, u32_at}
use recurse_x.Wire.Reads.{length-to_be_bytes}
use recurse_x.Wire.Holds.{Holds, Holds-left, u16_at-Holds, u32_at-Holds}
use recurse_x.Qtype.{RrType}
use recurse_x.Rdata.{RData, Record, unknown, arm_of, arm_in, other_arm}
use recurse_x.Rdata.Fields.{truncated, tail}
use recurse_x.Rdata.Parse.{parse_arm, parse_other}
use recurse_x.Rdata.Parse as Parse
use recurse_x.Rdata.ToWire.{Sink, push, put_name}
use recurse_x.Rdata.ToWire as ToWire
use recurse_x.Rdata.Records.{parse_body, parse, put_header, to_wire}
use recurse_x.Rdata.Grows.{rdata_size, body_sink, put_name-Grows, to_wire-Grows}
use recurse_x.Rdata.Sinks.{
  IsName, Within, Within-le, IsSink, put_name-PutName, put_name-IsSink, push-Within, push-Holds,
  push-IsSink,
}
use recurse_x.Rdata.Twins.{Twins, to_wire-Twins, patch-Twins}
use recurse_x.Rdata.Readers.{Holds-word}
use recurse_x.Rdata.Shapes.{arm_for, Fits}
use recurse_x.Rdata.RoundTrip.{to_wire-Trip}

-- The record with its length written first.
abbrev pub whole : Record → Sink → ℕ → Sink
whole r s size = ToWire.to_wire r.rdata (push (put_header r s) (to_be_bytes 2 size))

both :
    (header : Sink) (xs ys : List ℕ)
    → Twins (header.out ++ xs) (header.out ++ ys) (push header xs) (push header ys)
unfolding push
both header xs ys = record {
  more = [];
  comp = refl;
  left = sym (append-nil (header.out ++ xs));
  right = sym (append-nil (header.out ++ ys));
}

-- Writing the length last is writing it first.
pub to_wire-whole :
    (r : Record) (s t : Sink)
    → to_wire r s ≡ ok t
    → (rdata_size r s ≤ 0xffff)
      × (t ≡ whole r s (rdata_size r s))
      × (length t.out ≡ length (body_sink r s).out)
unfolding to_wire
to_wire-whole r s t e =
    let size = rdata_size r s in
    let header = put_header r s in
    let (small, e') =
      fail_if-eq-ok (ltb 0xffff size) (wire_error "RDATA exceeds the 16-bit length field") _ e in
    let bound : size ≤ 0xffff = ground arith in
    let narrow : size % 2 ^ 16 ≡ size = omega arith in
    let old = 0 ∷ 0 ∷ [] in
    let len = to_be_bytes 2 size in
    let two : length old ≡ length len = omega (arith, length-to_be_bytes 2 size) in
    let same : length (header.out ++ old) ≡ length (header.out ++ len) =
      omega (arith, two, length-append header.out old, length-append header.out len) in
    let twins =
      to_wire-Twins (header.out ++ old) (header.out ++ len) same r.rdata (both header old len) in
    let patched = patch-Twins header.out old len (body_sink r s) (whole r s size) two twins in
    let written = rw (narrow, patched) at e' in
    let result : t ≡ whole r s size =
      sym (ok-injective written)
      ∙ (λ i. record { comp = twins.comp i; out = (whole r s size).out }) in
    let sizes : length (whole r s size).out ≡ length (body_sink r s).out = omega (
      arith,
      same,
      ap length twins.left,
      ap length twins.right,
      length-append (header.out ++ old) twins.more,
      length-append (header.out ++ len) twins.more,
    ) in
    (bound, result, ap (λ k. length k.out) result ∙ sizes)

-- A record that can be read back: its fields are in range, and its data is of its type.
pub record IsRecord (r : Record) : Type 0 where
  pub name : IsName r.name
  pub rr_type : r.rr_type.code < 2 ^ 16
  pub class : r.class.code < 2 ^ 16
  pub ttl : r.ttl < 2 ^ 32
  pub fits : Fits r.rdata
  pub typed : arm_of r.rr_type ≡ arm_for r.rdata

-- Data of an unknown type, as `parse_other` reads it.
parse_other-eq-ok :
    (buf : List ℕ) (end pos e : ℕ) (r : RData)
    → parse_other buf end pos ≡ ok (r, e)
    → (x : List ℕ) × (get_range buf pos end ≡ some x) × (r ≡ unknown x)
unfolding parse_other tail
parse_other-eq-ok buf end pos e r h =
    let (x, read, same) = >>=-eq-ok (tail buf end pos) (λ x. ok (unknown x, end)) h in
    let (_, read') =
      fail_if-eq-ok (ltb end pos) truncated (ok_or (get_range buf pos end) truncated) read in
    (x, by_range (get_range buf pos end) read', ap (λ p. p.0) (ok-injective (sym same)))
  where
    by_range : {x : List ℕ} (o : Option (List ℕ)) → ok_or o truncated ≡ ok x → o ≡ some x
    by_range (some y) h = ap some (ok-injective h)
    by_range none h = cc

module _ (buf : List ℕ) (bytes : All IsByte buf) (roomy : length buf + 256 ≤ usize_limit) where
  room : length buf < usize_limit
  room = omega arith

  -- The data of a record, whether it is an OPT record or not.
  parse_body-read :
      (p end : ℕ) (t : RrType) (r : RData)
      → p ≤ end
      → end ≤ length buf
      → arm_of t ≡ arm_for r
      → parse_arm buf end (arm_for r) p ≡ ok (r, end)
      → parse_body buf p end t ≡ ok r
  unfolding parse_body Parse.parse
  parse_body-read p end t r h inside typed read = elim (Bool-cases (t.code == 41)) [
    | inl opt ↦
        let code : t.code ≡ 41 = ground arith in
        let other : arm_of t ≡ other_arm = unfold arm_of arm_in in rw code refl in
        let read' : parse_other buf end p ≡ ok (r, end) =
          unfold parse_arm in (rw (sym typed ∙ other) at read) in
        let (x, range, same) = parse_other-eq-ok buf end p end r read' in rw (opt, range, same) refl
    | inr other ↦
        let fine : ltb (length buf) end ≡ false = ground arith in
        let fine' : ltb end p ≡ false = ground arith in rw (other, fine, fine', typed, read) refl
  ]

  -- The type, the class and the TTL.
  fields-read :
      (p rr_type class ttl : ℕ)
      → rr_type < 2 ^ 16
      → class < 2 ^ 16
      → ttl < 2 ^ 32
      → Holds buf p (to_be_bytes 2 rr_type ++ (to_be_bytes 2 class ++ to_be_bytes 4 ttl))
      → (u16_at buf p ≡ ok rr_type)
        × (u16_at buf (p + 2) ≡ ok class)
        × (u32_at buf (p + 4) ≡ ok ttl)
  fields-read p rr_type class ttl b1 b2 b3 h =
      let h2 = Holds-word buf p (p + 2) 2 rr_type _ refl h in
      let h4 = Holds-word buf (p + 2) (p + 4) 2 class _ (omega arith) h2 in
      (
        u16_at-Holds buf room p rr_type b1 (Holds-left buf p (to_be_bytes 2 rr_type) _ h),
        u16_at-Holds buf room (p + 2) class b2 (Holds-left buf (p + 2) (to_be_bytes 2 class) _ h2),
        u32_at-Holds buf room (p + 4) ttl b3 h4,
      )

  -- A record that is written behind a sound sink, whatever follows in the message, is read back: the
  -- same record, up to the end of what was written. The sink behind it is sound again, and the one
  -- before it is a stage of the message.
  pub record-trip :
      (s t : Sink) (r : Record)
      → IsRecord r
      → IsSink s
      → to_wire r s ≡ ok t
      → Within buf t
      → (parse buf (length s.out) ≡ ok (r, length t.out)) × IsSink t × Within buf s
  unfolding parse put_header
  record-trip s t r is t0 e w =
      let size = rdata_size r s in
      let s1 = put_name s r.name in
      let words =
        to_be_bytes 2 r.rr_type.code ++ (to_be_bytes 2 r.class.code ++ to_be_bytes 4 r.ttl) in
      let len = to_be_bytes 2 size in
      let s2 = push s1 words in
      let s3 = push s2 len in
      let (small, result, sizes) = to_wire-whole r s t e in
      let w' = rw result at w in
      let p = length s1.out in
      let inside = Within-le buf (whole r s size) w' in
      let l2 : length s2.out ≡ p + 8 =
        unfold push to_be_bytes in omega (arith, length-append s1.out words) in
      let l3 : length s3.out ≡ p + 10 =
        unfold push to_be_bytes in omega (arith, l2, length-append s2.out len) in
      let g1 = (put_name-Grows s r.name).longer in
      let g3 = (to_wire-Grows s3 r.rdata).longer in
      let t1 = put_name-IsSink s r.name is.name (omega arith) t0 in
      let t2 = push-IsSink buf s1 words (omega arith) room t1 in
      let t3 = push-IsSink buf s2 len (omega arith) room t2 in
      let trip = to_wire-Trip buf bytes roomy s3 r.rdata is.fits t3 w' in
      let w2 = push-Within buf s2 len trip.before in
      let w1 = push-Within buf s1 words w2 in
      let put = put_name-PutName buf bytes roomy s r.name is.name t0 w1 in
      let end = length (whole r s size).out in
      let place : end ≡ p + 10 + size =
        omega (arith, ap (λ k. length k.out) result, sizes, l2, l3, g3) in
      let (read_type, read_class, read_ttl) =
        fields-read p r.rr_type.code r.class.code r.ttl is.rr_type is.class is.ttl
          (push-Holds buf s1 words w2) in
      let h8 : Holds buf (p + 8) len = rw (← l2) (push-Holds buf s2 len trip.before) in
      let read_len = u16_at-Holds buf room (p + 8) size (omega arith) h8 in
      let body : parse_body buf (p + 10) (p + 10 + size) r.rr_type ≡ ok r.rdata =
        rw (← place, ← l3)
          (parse_body-read (length s3.out) end r.rr_type r.rdata g3 inside is.typed trip.read) in
      let fine : ltb (length buf) (p + 10) ≡ false = ground arith in
      let fine' : ltb (length buf) (p + 10 + size) ≡ false = ground arith in
      let read : parse buf (length s.out) ≡ ok (r, end) =
        rw (put.read, fine, read_type, read_class, read_ttl, read_len, fine', body, place) refl in
      rw result (read, trip.sink, put.before)
