-- ===== src/Rdata/Records.antt =====
-- src/rdata.rs: `Record::parse` and `Record::to_wire`.
use recurse_x.Prelude.{
  ℕ, ◌+◌, ◌-◌, ◌%◌, ◌^◌, Option, none, some, List, [], ◌∷◌, ◌++◌, leb, ltb, ◌==◌, if◌then◌else◌,
  length, take, drop,
}
use recurse_x.Error.{Result, ok, ◌>>=◌, ◌>>◌, fail_if, ok_or, or_error, wire_error, internal_error}
use recurse_x.Wire.{get_range, to_be_bytes, u16_at, u32_at}
use recurse_x.Name.FromWire.{from_wire}
use recurse_x.Qtype.{RrType}
use recurse_x.Rdata.{RData, Record, unknown}
use recurse_x.Rdata.Parse as Parse
use recurse_x.Rdata.ToWire.{Sink, push, put_name}
use recurse_x.Rdata.ToWire as ToWire

-- OPT records keep their options raw.
unfoldable pub parse_body : List ℕ → ℕ → ℕ → RrType → Result RData
parse_body buf p end rr_type =
    if rr_type.code == 41
    then (do
      bytes ← ok_or (get_range buf p end) (wire_error "RDATA length exceeds the message")
      ok (unknown bytes))
    else (do (rdata, _) ← Parse.parse buf p end rr_type; ok rdata)

unfoldable pub parse : List ℕ → ℕ → Result (Record × ℕ)
parse buf pos = do
  (name, p) ← from_wire buf pos
  fail_if (ltb (length buf) (p + 10)) (wire_error "record header truncated")
  rr_type ← or_error (u16_at buf p) (wire_error "record header truncated")
  class ← or_error (u16_at buf (p + 2)) (wire_error "record header truncated")
  ttl ← or_error (u32_at buf (p + 4)) (wire_error "record header truncated")
  rdlen ← or_error (u16_at buf (p + 8)) (wire_error "record header truncated")
  fail_if (ltb (length buf) (p + 10 + rdlen)) (wire_error "record RDATA overruns message")
  rdata ← parse_body buf (p + 10) (p + 10 + rdlen) (record { code = rr_type })
  ok (
    record {
      name = name;
      rr_type = record { code = rr_type };
      class = record { code = class };
      ttl = ttl;
      rdata = rdata;
    },
    p + 10 + rdlen,
  )

-- `out.get_mut(at..).and_then(|t| t.get_mut(..n))` and the copy into it.
unfoldable pub patch : List ℕ → ℕ → List ℕ → Option (List ℕ)
patch out at bytes =
    if leb (at + length bytes) (length out)
    then some (take at out ++ (bytes ++ drop (at + length bytes) out))
    else none

-- The owner name and the fixed fields, up to the length.
unfoldable pub put_header : Record → Sink → Sink
put_header r s =
    push (put_name s r.name)
      (to_be_bytes 2 r.rr_type.code ++ (to_be_bytes 2 r.class.code ++ to_be_bytes 4 r.ttl))

unfoldable pub to_wire : Record → Sink → Result Sink
to_wire r s = do
  let header = put_header r s
  let rdlen_pos = length header.out
  let body = ToWire.to_wire r.rdata (push header (0 ∷ 0 ∷ []))
  let rdlen = length body.out - rdlen_pos - 2
  fail_if (ltb 0xffff rdlen) (wire_error "RDATA exceeds the 16-bit length field")
  out ←
      ok_or (patch body.out rdlen_pos (to_be_bytes 2 (rdlen % 2 ^ 16)))
        (internal_error "RDLENGTH offset out of range")
  ok (record body { out = out })
