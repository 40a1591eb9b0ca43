-- ===== src/Message/OptTrip.antt =====
-- src/message.rs: the OPT record, which `to_bytes` writes by itself and `parse` reads as a record.
use recurse_x.Prelude.{
  ℕ, ◌+◌, ◌%◌, ◌^◌, ◌≤◌, ◌<◌, ◌≡◌, refl, ap, ◌∙◌, Option, none, some, List, [], ◌∷◌, ◌++◌, map,
  length, length-append, All, arith,
}
use recurse_x.Error.{ok}
use recurse_x.Wire.{IsByte, usize_limit, to_be_bytes}
use recurse_x.Name.{root}
use recurse_x.Name.Labels.{encode, labels_len}
use recurse_x.Edns.{Edns, ttl_field, options_wire}
use recurse_x.Edns.OneOption.{unpadded}
use recurse_x.Edns.RoundTrip.{Fits, flag, ttl_field_lem, parse-ttl_field}
use recurse_x.Rdata.{Record, unknown, arm_of, arm_in}
use recurse_x.Rdata.ToWire.{Sink, push, put_name}
use recurse_x.Rdata.ToWire as ToWire
use recurse_x.Rdata.Records.{put_header}
use recurse_x.Rdata.Records as Records
use recurse_x.Rdata.Grows.{rdata_size, to_wire-total}
use recurse_x.Rdata.Sinks.{IsName, Within, IsSink}
use recurse_x.Rdata.Shapes.{arm_for, Fits as DataFits, push-push}
use recurse_x.Rdata.RecordTrip.{IsRecord, record-trip, to_wire-whole}
use recurse_x.Message.Parse.{parse_additionals, parse_opt, has_edns, options_data}
use recurse_x.Message.ToBytes.{put_edns, opt_wire, edns_count}

-- The pseudo-record's fields fit their wire format.
pub record IsEdns (e : Edns) : Type 0 where
  pub size : e.udp_payload_size < 2 ^ 16
  pub ext_rcode : e.ext_rcode < 256
  pub version : e.version < 256
  pub options : All Fits e.options
  pub short : length (options_wire e.options) ≤ 0xffff

abbrev pub AllEdns : Option Edns → Type 0
AllEdns (some e) = IsEdns e
AllEdns none = Unit

-- The options that come back: padding has lost its length.
unfoldable pub unpadded_edns : Option Edns → Option Edns
unpadded_edns none = none
unpadded_edns (some e) = some (record e { options = map unpadded e.options })

abbrev pub opt_record : Edns → Record
opt_record e = record {
  name = root;
  rr_type = record { code = 41 };
  class = record { code = e.udp_payload_size };
  ttl = ttl_field e;
  rdata = unknown (options_wire e.options);
}

root-IsName : IsName root
unfolding encode labels_len
root-IsName = record { ls = []; name = refl; stored = tt; few = omega arith; short = omega arith }

opt-IsRecord : (e : Edns) → IsEdns e → IsRecord (opt_record e)
unfolding DataFits arm_of arm_in arm_for
opt-IsRecord e is =
    let bit : flag e.dnssec_ok < 2 = ground arith in
    record {
      name = root-IsName;
      rr_type = omega arith;
      class = is.size;
      ttl = omega (arith, ttl_field_lem e is.ext_rcode is.version, is.ext_rcode, is.version);
      fits = tt;
      typed = refl;
    }

-- `to_bytes` writes the OPT record as `Record::to_wire` would.
opt-written :
    (e : Edns) (s : Sink) → IsEdns e → Records.to_wire (opt_record e) s ≡ ok (put_edns (some e) s)
unfolding put_edns opt_wire put_header ToWire.to_wire
opt-written e s is =
    let r = opt_record e in
    let options = options_wire e.options in
    let header = put_header r s in
    let size : rdata_size r s ≡ length options =
      unfold push in
      omega (
        arith,
        length-append (header.out ++ 0 ∷ 0 ∷ []) options,
        length-append header.out (0 ∷ 0 ∷ []),
      ) in
    let (t, written, _) = (to_wire-total r s).0 (omega (arith, size, is.short)) in
    let (_, same, _) = to_wire-whole r s t written in
    let narrow : length options % 2 ^ 16 ≡ length options = omega (arith, is.short) in
    let words =
      to_be_bytes 2 41 ++ (to_be_bytes 2 e.udp_payload_size ++ to_be_bytes 4 (ttl_field e)) in
    let len = to_be_bytes 2 (length options) in
    let name = put_name s root in
    let split : words ++ (len ++ options) ≡ opt_wire e = rw narrow (unfold to_be_bytes in refl) in
    let joined : push (push (push name words) len) options ≡ push name (opt_wire e) =
      push-push (push name words) len options
      ∙ push-push name words (len ++ options)
      ∙ ap (λ l. push name l) split in
    written ∙ ap ok (rw size at same ∙ joined)

module _ (buf : List ℕ) (bytes : All IsByte buf) (roomy : length buf + 256 ≤ usize_limit) where
  -- The end of the additional section, with the OPT record or without.
  pub edns-read :
      (e : Option Edns) (s : Sink)
      → AllEdns e
      → IsSink s
      → Within buf (put_edns e s)
      → parse_additionals buf (edns_count e) none (length s.out) ≡ ok ([], unpadded_edns e)
  unfolding parse_additionals edns_count unpadded_edns parse_opt has_edns options_data
  edns-read none s is t w = refl
  edns-read (some e) s is t w =
      let r = opt_record e in
      let (read, _, _) =
        record-trip buf bytes roomy s (put_edns (some e) s) r (opt-IsRecord e is) t
          (opt-written e s is) w in
      let fields = parse-ttl_field e is.ext_rcode is.version is.options (omega (arith, is.short)) in
      rw read (rw fields refl)
