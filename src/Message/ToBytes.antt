-- ===== src/Message/ToBytes.antt =====
-- src/message.rs: `Message::to_bytes`. The sink carries the one compressor of the message.
use recurse_x.Prelude.{ℕ, ◌+◌, ◌-◌, ◌%◌, ◌^◌, true, Option, none, some, List, [], ◌∷◌, ◌++◌, length}
use recurse_x.Error.{Result, ok, err, ◌>>=◌, ok_or, internal_error}
use recurse_x.Wire.{to_be_bytes, usize_limit}
use recurse_x.Name.{Name, root}
use recurse_x.Name.Compress as Compress
use recurse_x.Qtype.{RrType}
use recurse_x.Edns.{Edns, ttl_field, options_wire}
use recurse_x.Rdata.{Record}
use recurse_x.Rdata.ToWire.{Sink, push, put_name}
use recurse_x.Rdata.Records.{patch}
use recurse_x.Rdata.Records as Records
use recurse_x.Message.{HeaderFlags, to_u16}
use recurse_x.Message.Sections.{Question, Message, query}

-- The id, the flags, and the four counts, which are still 0.
unfoldable pub header_sink : ℕ → HeaderFlags → Sink
header_sink id flags = record {
  comp = some Compress.new;
  out = to_be_bytes 2 id ++ (to_be_bytes 2 (to_u16 flags) ++ 0 ∷ 0 ∷ 0 ∷ 0 ∷ 0 ∷ 0 ∷ 0 ∷ 0 ∷ []);
}

unfoldable pub put_questions : List Question → Sink → Sink
put_questions [] s = s
put_questions (q ∷ questions) s =
    put_questions questions
      (push (put_name s q.qname) (to_be_bytes 2 q.qtype.code ++ to_be_bytes 2 q.qclass.code))

unfoldable pub put_records : List Record → Sink → Result Sink
put_records [] s = ok s
put_records (r ∷ records) s = do s' ← Records.to_wire r s; put_records records s'

-- The OPT record behind its owner name, which is the root.
unfoldable pub opt_wire : Edns → List ℕ
opt_wire e =
    to_be_bytes 2 41
    ++ (to_be_bytes 2 e.udp_payload_size
        ++ (to_be_bytes 4 (ttl_field e)
            ++ (to_be_bytes 2 (length (options_wire e.options) % 2 ^ 16)
                ++ options_wire e.options)))

unfoldable pub put_edns : Option Edns → Sink → Sink
put_edns none s = s
put_edns (some e) s = push (put_name s root) (opt_wire e)

unfoldable pub edns_count : Option Edns → ℕ
edns_count (some e) = 1
edns_count none = 0

unfoldable pub counts_wire : Message → List ℕ
counts_wire m =
    to_be_bytes 2 (length m.questions % 2 ^ 16)
    ++ (to_be_bytes 2 (length m.answers % 2 ^ 16)
        ++ (to_be_bytes 2 (length m.authorities % 2 ^ 16)
            ++ to_be_bytes 2 ((length m.additionals + edns_count m.edns) % 2 ^ 16)))

unfoldable pub to_bytes : Message → Result (List ℕ)
to_bytes m = do
  let start = put_questions m.questions (header_sink m.id m.flags)
  s ← put_records m.answers start
  s' ← put_records m.authorities s
  s'' ← put_records m.additionals s'
  ok_or (patch (put_edns m.edns s'').out 4 (counts_wire m))
      (internal_error "header count offset out of range")

-- `Message::wire_len`, which is `usize::MAX` where `to_bytes` fails.
unfoldable pub wire_len : Message → ℕ
wire_len m = elim (to_bytes m) [ ok b ↦ length b | err _ ↦ usize_limit - 1 ]

unfoldable pub encode_query : ℕ → Name → RrType → Option Edns → Result (List ℕ)
encode_query id qname qtype none = to_bytes (query id qname qtype true)
encode_query id qname qtype (some e) =
    to_bytes (record (query id qname qtype true) { edns = some e })
