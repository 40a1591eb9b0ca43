-- ===== src/Message/Parse.antt =====
-- src/message.rs: `Message::parse`. The loops run as often as the counts of the header say.
use recurse_x.Prelude.{
  ℕ, zero, suc, ◌+◌, Bool, true, false, ◌||◌, Option, none, some, List, [], ◌∷◌, ltb, ◌==◌, length,
}
use recurse_x.Error.{Error, Result, ok, ◌>>=◌, ◌>>◌, fail_if, or_error, wire_error}
use recurse_x.Wire.{u16_at}
use recurse_x.Name.FromWire.{from_wire}
use recurse_x.Edns.{Edns}
use recurse_x.Edns as Edns
use recurse_x.Rdata.{RData, Record, unknown}
use recurse_x.Rdata.Records as Records
use recurse_x.Message.{from_u16}
use recurse_x.Message.Sections.{Question, Message}

abbrev pub max_section_records : ℕ
max_section_records = 4096

abbrev pub max_questions : ℕ
max_questions = 16

abbrev pub question_truncated : Error
unfolding wire_error
question_truncated = wire_error "question truncated"

-- The data of an OPT record.
unfoldable pub options_data : RData → List ℕ
options_data (unknown d) = d
options_data _ = []

unfoldable pub has_edns : Option Edns → Bool
has_edns (some _) = true
has_edns none = false

-- The OPT record of the additional section goes to `edns`, and a second one is refused.
unfoldable pub parse_opt : Option Edns → Record → Result Edns
parse_opt edns r = do
  fail_if (has_edns edns) (wire_error "multiple OPT records")
  Edns.parse r.class.code r.ttl (options_data r.rdata)

module _ (buf : List ℕ) where
  unfoldable pub parse_question : ℕ → Result (Question × ℕ)
  parse_question pos = do
    (qname, p) ← from_wire buf pos
    qtype ← or_error (u16_at buf p) question_truncated
    qclass ← or_error (u16_at buf (p + 2)) question_truncated
    ok (
      record { qname = qname; qtype = record { code = qtype }; qclass = record { code = qclass } },
      p + 4,
    )

  unfoldable pub parse_questions : ℕ → ℕ → Result (List Question × ℕ)
  parse_questions zero pos = ok ([], pos)
  parse_questions (suc n) pos = do
    (q, pos') ← parse_question pos
    (more, end) ← parse_questions n pos'
    ok (q ∷ more, end)

  unfoldable pub parse_records : ℕ → ℕ → Result (List Record × ℕ)
  parse_records zero pos = ok ([], pos)
  parse_records (suc n) pos = do
    (r, pos') ← Records.parse buf pos
    (more, end) ← parse_records n pos'
    ok (r ∷ more, end)

  unfoldable pub parse_additionals : ℕ → Option Edns → ℕ → Result (List Record × Option Edns)
  parse_additionals zero edns pos = ok ([], edns)
  parse_additionals (suc n) edns pos = do
    (r, pos') ← Records.parse buf pos
    elim (r.rr_type.code == 41) [
      | true ↦ (do e ← parse_opt edns r; parse_additionals n (some e) pos')
      | false ↦ (do (more, found) ← parse_additionals n edns pos'; ok (r ∷ more, found))
    ]

  unfoldable pub parse : Result Message
  parse = do
    fail_if (ltb (length buf) 12) (wire_error "message shorter than header")
    id ← u16_at buf 0
    flags ← u16_at buf 2
    qd ← u16_at buf 4
    an ← u16_at buf 6
    ns ← u16_at buf 8
    ar ← u16_at buf 10
    fail_if
        (ltb max_questions qd
          || ltb max_section_records an
          || ltb max_section_records ns
          || ltb max_section_records ar)
        (wire_error "section count exceeds limits")
    (questions, p) ← parse_questions qd 12
    (answers, p') ← parse_records an p
    (authorities, p'') ← parse_records ns p'
    (additionals, edns) ← parse_additionals ar none p''
    ok (record {
      id = id;
      flags = from_u16 flags;
      questions = questions;
      answers = answers;
      authorities = authorities;
      additionals = additionals;
      edns = edns;
    })
