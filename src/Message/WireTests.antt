-- ===== src/Message/WireTests.antt =====
-- Runs of the message's writers and parsers, and their theorems at concrete inputs.
use recurse_x.Prelude.{
  ℕ, ◌≤◌, ◌<◌, ◌≡◌, ◌⊎◌, refl, true, false, max, some, List, [], ◌∷◌, ◌++◌, length, get_elem?, take,
  arith,
}
use recurse_x.Error.{ok, err, wire_error}
use recurse_x.Wire.{to_be_bytes}
use recurse_x.Name.Labels.{name_of, encode, labels_len}
use recurse_x.Name.Compress.{new, write}
use recurse_x.Edns.{Edns, ttl_field, options_wire, option_data}
use recurse_x.Edns as Edns
use recurse_x.Edns.Subnet.{zeros}
use recurse_x.Rdata.{Record, mx, a, unknown, arm_of, arm_in}
use recurse_x.Rdata.ToWire.{Sink, to_wire, push, put_name}
use recurse_x.Rdata.Records as Records
use recurse_x.Rdata.Sinks.{IsName, IsSink, Within}
use recurse_x.Rdata.Grows.{rdata_size, body_sink, to_wire-total}
use recurse_x.Rdata.Shapes.{Fits, arm_for}
use recurse_x.Rdata.RecordTrip.{IsRecord, record-trip}
use recurse_x.Message.{to_u16, set_flag}
use recurse_x.Message.Sections.{Message, default_flags}
use recurse_x.Message.ToBytes.{
  header_sink, to_bytes, wire_len, put_questions, put_records, put_edns, opt_wire, counts_wire,
  edns_count,
}
use recurse_x.Message.Parse.{parse}
use recurse_x.Message.Truncate.{fit_records, fit_sections, opt_len, set_tc, truncate_for_udp}
use recurse_x.Message.Fits.{truncate_for_udp-fits}
use recurse_x.Message.Greedy.{Refuses, Accepted, fit_records-greedy, fit_sections-order}
use recurse_x.Message.OptTrip.{unpadded_edns}
use recurse_x.Message.WireTrip.{IsMessage, parse-to_bytes}

abbrev domain : List (List ℕ)
domain = (b'a' ∷ b'b' ∷ []) ∷ []

abbrev host : List (List ℕ)
host = (b'm' ∷ []) ∷ domain

domain-IsName : IsName (name_of domain)
unfolding labels_len
domain-IsName = record {
  ls = domain;
  name = refl;
  stored = (record { size = omega arith; bytes = omega arith; lower = refl }, tt);
  few = omega arith;
  short = omega arith;
}

host-IsName : IsName (name_of host)
unfolding labels_len
host-IsName = record {
  ls = host;
  name = refl;
  stored = (
    record { size = omega arith; bytes = omega arith; lower = refl },
    (record { size = omega arith; bytes = omega arith; lower = refl }, tt),
  );
  few = omega arith;
  short = omega arith;
}

-- `ab. 300 IN MX 10 m.ab.`
abbrev exchange : Record
exchange = record {
  name = name_of domain;
  rr_type = record { code = 15 };
  class = record { code = 1 };
  ttl = 300;
  rdata = mx 10 (name_of host);
}

-- `m.ab. 60 IN A 192.0.2.1`
abbrev address : Record
address = record {
  name = name_of host;
  rr_type = record { code = 1 };
  class = record { code = 1 };
  ttl = 60;
  rdata = a (192 ∷ 0 ∷ 2 ∷ 1 ∷ []);
}

exchange-IsRecord : IsRecord exchange
unfolding Fits arm_of arm_in arm_for
exchange-IsRecord = record {
  name = domain-IsName;
  rr_type = omega arith;
  class = omega arith;
  ttl = omega arith;
  fits = (omega arith, host-IsName);
  typed = refl;
}

address-IsRecord : IsRecord address
unfolding Fits arm_of arm_in arm_for
address-IsRecord = record {
  name = host-IsName;
  rr_type = omega arith;
  class = omega arith;
  ttl = omega arith;
  fits = refl;
  typed = refl;
}

-- The answer to `ab. MX`, with the address of the exchange and an OPT record.
abbrev response : Message
response = record {
  id = 0x1234;
  flags = record default_flags { qr = true; ra = true };
  questions =
      record { qname = name_of domain; qtype = record { code = 15 }; qclass = record { code = 1 } }
      ∷ [];
  answers = exchange ∷ [];
  authorities = [];
  additionals = address ∷ [];
  edns = some (Edns.new 1232);
}

-- The three later names are pointers or end in one.
abbrev response_bytes : List ℕ
response_bytes =
    0x12 ∷ 0x34 ∷ 0x81 ∷ 0x80 ∷ 0 ∷ 1 ∷ 0 ∷ 1 ∷ 0 ∷ 0 ∷ 0 ∷ 2 ∷ 2 ∷ b'a' ∷ b'b' ∷ 0 ∷ 0 ∷ 15 ∷ 0 ∷ 1
    ∷ 0xc0 ∷ 12 ∷ 0 ∷ 15 ∷ 0 ∷ 1 ∷ 0 ∷ 0 ∷ 1 ∷ 44 ∷ 0 ∷ 6 ∷ 0 ∷ 10 ∷ 1 ∷ b'm' ∷ 0xc0 ∷ 12 ∷ 0xc0
    ∷ 34 ∷ 0 ∷ 1 ∷ 0 ∷ 1 ∷ 0 ∷ 0 ∷ 0 ∷ 60 ∷ 0 ∷ 4 ∷ 192 ∷ 0 ∷ 2 ∷ 1 ∷ 0 ∷ 0 ∷ 41 ∷ 4 ∷ 0xd0 ∷ 0 ∷ 0
    ∷ 0 ∷ 0 ∷ 0 ∷ 0 ∷ []

response_written : to_bytes response ≡ ok response_bytes
unfolding to_bytes put_records Records.to_wire to_wire put_name push Records.put_header
    put_questions header_sink write encode to_be_bytes Records.patch counts_wire put_edns opt_wire
    options_wire ttl_field edns_count to_u16 set_flag Edns.new
response_written = refl

response-IsMessage : IsMessage response
unfolding Edns.new options_wire edns_count
response-IsMessage = record {
  id = omega arith;
  opcode = omega arith;
  rcode = omega arith;
  questions = (record { name = domain-IsName; qtype = omega arith; qclass = omega arith }, tt);
  answers = (exchange-IsRecord, tt);
  authorities = tt;
  additionals = ((address-IsRecord, refl), tt);
  edns = record {
    size = omega arith;
    ext_rcode = omega arith;
    version = omega arith;
    options = tt;
    short = omega arith;
  };
  few_questions = omega arith;
  few_answers = omega arith;
  few_authorities = omega arith;
  few_additionals = omega arith;
}

parse-to_bytes_example :
    parse response_bytes ≡ ok (record response { edns = unpadded_edns response.edns })
parse-to_bytes_example =
    parse-to_bytes response response_bytes response-IsMessage response_written (omega arith)
      (omega arith)

abbrev sink : Sink
sink = record { comp = some new; out = 7 ∷ 7 ∷ [] }

abbrev behind : Sink
unfolding Records.to_wire to_wire put_name push Records.put_header write encode
behind = elim (Records.to_wire exchange sink) [ ok t ↦ t | err _ ↦ sink ]

behind_written : Records.to_wire exchange sink ≡ ok behind
unfolding Records.to_wire to_wire put_name push Records.put_header write encode to_be_bytes
    Records.patch behind
behind_written = refl

record-trip_example :
    (Records.parse (behind.out ++ 9 ∷ []) 2 ≡ ok (exchange, length behind.out))
    × IsSink behind
    × Within (behind.out ++ 9 ∷ []) sink
unfolding Records.to_wire to_wire put_name push Records.put_header write encode to_be_bytes
    Records.patch behind
record-trip_example =
    record-trip (behind.out ++ 9 ∷ []) (omega arith) (omega arith) sink behind exchange
      exchange-IsRecord tt behind_written (record { later = 9 ∷ []; split = refl })

to_wire-total_example :
    (rdata_size exchange sink ≤ 0xffff
      → (t : Sink) × (Records.to_wire exchange sink ≡ ok t)
        × (length t.out ≡ length (body_sink exchange sink).out))
    × (0xffff < rdata_size exchange sink
        → Records.to_wire exchange sink ≡ err (wire_error "RDATA exceeds the 16-bit length field"))
to_wire-total_example = to_wire-total exchange sink

-- With an answer that no UDP response of 512 bytes holds.
abbrev bulky : Message
bulky = record response {
  answers =
      exchange
      ∷ record exchange { rr_type = record { code = 65280 }; rdata = unknown (zeros 600) }
      ∷ [];
}

one_answer_kept : (fit_sections bulky 512).0.count ≡ 1
unfolding fit_sections fit_records opt_len options_wire Edns.new Records.to_wire to_wire put_name
    push Records.put_header put_questions header_sink write encode to_be_bytes Records.patch to_u16
    set_flag zeros
one_answer_kept = refl

truncate_for_udp-fits_example : wire_len (truncate_for_udp bulky 100) ≤ max 100 512
unfolding set_tc opt_len options_wire Edns.new put_name push put_questions header_sink write encode
    to_be_bytes to_u16 set_flag
truncate_for_udp-fits_example = truncate_for_udp-fits bulky 100 (omega arith)

fit_sections-order_example :
    let (first, second, third) = fit_sections bulky 512 in
    (0 < second.count → first.count ≡ 2)
    × (0 < third.count → (first.count ≡ 2) × (second.count ≡ 0))
fit_sections-order_example = fit_sections-order bulky 512

fit_records-greedy_example :
    let f = fit_records 30 (exchange ∷ address ∷ []) sink in
    Accepted 30 (take f.count (exchange ∷ address ∷ [])) sink f.sink
    × (((f.full ≡ false) × (f.count ≡ 2))
        ⊎ ((f.full ≡ true)
            × ((r : Record) × (get_elem? (exchange ∷ address ∷ []) f.count ≡ some r)
                × Refuses 30 r f.sink)))
fit_records-greedy_example = fit_records-greedy 30 (exchange ∷ address ∷ []) sink
