-- ===== src/Rdata/Grows.antt =====
-- src/rdata.rs: what is written only grows the buffer.
use recurse_x.Prelude.{
  ℕ, ◌+◌, ◌-◌, ◌%◌, ◌^◌, ◌≤◌, ◌<◌, Bool-cases, inl, inr, true, false, ltb, sym, ◌≡◌, refl, ◌∙◌,
  Option, none, some, List, [], ◌∷◌, ◌++◌, leb, length, length-append, take, drop, length-take,
  length-drop, arith,
}
use recurse_x.Error.{ok, err, ok-injective, wire_error}
use recurse_x.Wire.{to_be_bytes}
use recurse_x.Wire.Reads.{length-to_be_bytes}
use recurse_x.Name.{Name}
use recurse_x.Name.Compress.{
  NameCompressor, write, write_found, write_hit, find_hit, suffix_walk, strip_suffix, pointer_bytes,
}
use recurse_x.Rdata.{
  RData, Record, a, aaaa, cname, dname, ns, ptr, mx, soa, txt, srv, naptr, ds, dnskey, rrsig, nsec,
  nsec3, nsec3param, caa, tlsa, svcb, unknown,
}
use recurse_x.Rdata.ToWire.{Sink, push, put_name}
use recurse_x.Rdata.ToWire as ToWire
use recurse_x.Rdata.Records.{patch, put_header}
use recurse_x.Rdata.Records as Records

-- The buffer of the second sink is as long at least.
pub record Grows (s t : Sink) : Type 0 where
  pub longer : length s.out ≤ length t.out

write_hit-le :
    (n suffix : Name) (offset : ℕ) (out : List ℕ)
    → length out ≤ length (write_hit n suffix offset out)
unfolding write_hit
write_hit-le n suffix offset out = by_prefix (strip_suffix n.bytes suffix.bytes)
  where
    by_prefix :
        (r : Option (List ℕ))
        → length out
          ≤ length (elim r [
            | some prefix ↦ out ++ (prefix ++ pointer_bytes offset)
            | none ↦ out ++ n.bytes
          ])
    by_prefix (some prefix) = omega (arith, length-append out (prefix ++ pointer_bytes offset))
    by_prefix none = omega (arith, length-append out n.bytes)

write_found-le :
    (c : NameCompressor) (n : Name) (out : List ℕ) (suffixes : List (Name × ℕ))
    (r : Option (ℕ × Name × ℕ))
    → length out ≤ length (write_found c n out suffixes r).1
unfolding write_found
write_found-le c n out suffixes none = omega (arith, length-append out n.bytes)
write_found-le c n out suffixes (some (i, suffix, offset)) = write_hit-le n suffix offset out

pub push-Grows : (s : Sink) (bytes : List ℕ) → Grows s (push s bytes)
unfolding push
push-Grows s bytes = record { longer = omega (arith, length-append s.out bytes) }

pub put_name-Grows : (s : Sink) (n : Name) → Grows s (put_name s n)
unfolding put_name write
put_name-Grows s n = by_comp s.comp s.out
  where
    by_comp :
        (c : Option NameCompressor) (out : List ℕ)
        → Grows (record { comp = c; out = out }) (put_name (record { comp = c; out = out }) n)
    by_comp (some c) out =
        let suffixes = suffix_walk (length n.bytes) (length n.bytes) n in
        record { longer = write_found-le c n out suffixes (find_hit c.offsets 0 suffixes) }
    by_comp none out = record { longer = omega (arith, length-append out n.bytes) }

pub Grows-compose : {s t u : Sink} → Grows s t → Grows t u → Grows s u
Grows-compose h k = record { longer = omega (arith, h.longer, k.longer) }

two : (s : Sink) (xs ys : List ℕ) → Grows s (push (push s xs) ys)
two s xs ys = Grows-compose (push-Grows s xs) (push-Grows (push s xs) ys)

module _ (s : Sink) where
  -- The data of a record of any type is written behind what is there.
  pub to_wire-Grows : (r : RData) → Grows s (ToWire.to_wire r s)
  unfolding ToWire.to_wire
  to_wire-Grows (a octets) = push-Grows s octets
  to_wire-Grows (aaaa octets) = push-Grows s octets
  to_wire-Grows (cname n) = put_name-Grows s n
  to_wire-Grows (dname n) = put_name-Grows s n
  to_wire-Grows (ns n) = put_name-Grows s n
  to_wire-Grows (ptr n) = put_name-Grows s n
  to_wire-Grows (mx p n) = Grows-compose (push-Grows s _) (put_name-Grows _ n)
  to_wire-Grows (soa m n serial refresh retry expire minimum) =
      Grows-compose (Grows-compose (put_name-Grows s m) (put_name-Grows _ n))
        (push-Grows (put_name (put_name s m) n) _)
  to_wire-Grows (txt strings) = push-Grows s _
  to_wire-Grows (srv p w q n) = two s _ n.bytes
  to_wire-Grows (naptr o p f v e n) = two s _ n.bytes
  to_wire-Grows (ds k g t d) = push-Grows s _
  to_wire-Grows (dnskey f p g k) = push-Grows s _
  to_wire-Grows (rrsig t g l o e i k n b) = Grows-compose (two s _ n.bytes) (push-Grows _ b)
  to_wire-Grows (nsec n t) = two s n.bytes _
  to_wire-Grows (nsec3 h f i d n t) = push-Grows s _
  to_wire-Grows (nsec3param h f i d) = push-Grows s _
  to_wire-Grows (caa f t v) = push-Grows s _
  to_wire-Grows (tlsa u e m c) = push-Grows s _
  to_wire-Grows (svcb p n params) = Grows-compose (two s _ n.bytes) (push-Grows _ _)
  to_wire-Grows (unknown bytes) = push-Grows s bytes

pub length-patch :
    (out : List ℕ) (at : ℕ) (bytes : List ℕ)
    → at + length bytes ≤ length out
    → (out' : List ℕ) × (patch out at bytes ≡ some out') × (length out' ≡ length out)
unfolding patch
length-patch out at bytes h =
    let out' = take at out ++ (bytes ++ drop (at + length bytes) out) in
    let inside : leb (at + length bytes) (length out) ≡ true = ground arith in
    let size : length out' ≡ length out = omega (
      arith,
      length-append (take at out) (bytes ++ drop (at + length bytes) out),
      length-append bytes (drop (at + length bytes) out),
      length-take at out,
      length-drop (at + length bytes) out,
    ) in
    (out', rw inside refl, size)

-- A record behind what is there, before its length is written.
abbrev pub body_sink : Record → Sink → Sink
body_sink r s = ToWire.to_wire r.rdata (push (put_header r s) (0 ∷ 0 ∷ []))

abbrev pub rdata_size : Record → Sink → ℕ
rdata_size r s = length (body_sink r s).out - length (put_header r s).out - 2

module _ (r : Record) (s : Sink) where
  header-Grows : Grows s (put_header r s)
  unfolding put_header
  header-Grows = Grows-compose (put_name-Grows s r.name) (push-Grows (put_name s r.name) _)

  body-Grows : length (put_header r s).out + 2 ≤ length (body_sink r s).out
  unfolding push
  body-Grows =
      let header = put_header r s in
      let g = to_wire-Grows (push header (0 ∷ 0 ∷ [])) r.rdata in
      omega (arith, g.longer, length-append header.out (0 ∷ 0 ∷ []))

  -- A record is written unless its data is longer than 65535 bytes, which is the wire error: the
  -- place of the length is always there. The length is written over, so that the buffer stays as
  -- long as the owner name, the header and the data make it.
  pub to_wire-total :
      (rdata_size r s ≤ 0xffff
        → (t : Sink) × (Records.to_wire r s ≡ ok t) × (length t.out ≡ length (body_sink r s).out))
      × (0xffff < rdata_size r s
          → Records.to_wire r s ≡ err (wire_error "RDATA exceeds the 16-bit length field"))
  unfolding Records.to_wire
  to_wire-total =
      let body = body_sink r s in
      let at = length (put_header r s).out in
      let len = to_be_bytes 2 (rdata_size r s % 2 ^ 16) in
      let room = body-Grows in
      let (out, patched, size) =
        length-patch body.out at len
          (omega (arith, length-to_be_bytes 2 (rdata_size r s % 2 ^ 16))) in
      (
        (λ h. (
          record body { out = out },
          (let small : ltb 0xffff (rdata_size r s) ≡ false = ground arith in
              rw (small, patched) refl),
          size,
        )),
        (λ h. let big : ltb 0xffff (rdata_size r s) ≡ true = ground arith in rw big refl),
      )

  pub record-Grows : {t : Sink} → Records.to_wire r s ≡ ok t → Grows s t
  record-Grows {t} e =
      let (fine, over) = to_wire-total in
      elim (Bool-cases (ltb 0xffff (rdata_size r s))) [
        | inl big ↦ cc (over (ground arith))
        | inr small ↦
            let (t', e', size) = fine (ground arith) in
            let same : t' ≡ t = ok-injective (sym e' ∙ e) in
            record { longer = rw (← same) (omega (arith, size, body-Grows, header-Grows.longer)) }
      ]
