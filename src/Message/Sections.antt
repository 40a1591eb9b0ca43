-- ===== src/Message/Sections.antt =====
-- src/message.rs: questions and messages, and the functions that build and inspect them.
use recurse_x.Prelude.{
  ℕ, Bool, true, false, ◌&&◌, Option, none, some, List, [], ◌∷◌, ◌==◌, if◌then◌else◌,
}
use recurse_x.Name.{Name, name_eq}
use recurse_x.Qtype.{RrType, RrClass, Rcode}
use recurse_x.Edns.{Edns, extended_rcode}
use recurse_x.Edns as Edns
use recurse_x.Rdata.{Record}
use recurse_x.Message.{HeaderFlags}

pub record Question : Type 0 where
  pub qname : Name
  pub qtype : RrType
  pub qclass : RrClass

pub record Message : Type 0 where
  pub id : ℕ
  pub flags : HeaderFlags
  pub questions : List Question
  pub answers : List Record
  pub authorities : List Record
  pub additionals : List Record
  pub edns : Option Edns

-- `HeaderFlags::default`
abbrev pub default_flags : HeaderFlags
default_flags = record {
  qr = false;
  opcode = record { code = 0 };
  aa = false;
  tc = false;
  rd = true;
  ra = false;
  ad = false;
  cd = false;
  rcode = record { code = 0 };
}

abbrev pub new : ℕ → Message
new id = record {
  id = id;
  flags = default_flags;
  questions = [];
  answers = [];
  authorities = [];
  additionals = [];
  edns = none;
}

unfoldable pub query : ℕ → Name → RrType → Bool → Message
query id qname qtype rd = record (new id) {
  flags = record default_flags { rd = rd };
  questions = record { qname = qname; qtype = qtype; qclass = record { code = 1 } } ∷ [];
}

unfoldable pub question : Message → Option Question
question m = elim m.questions [ [] ↦ none | q ∷ _ ↦ some q ]

-- `Message::rcode`
unfoldable pub full_rcode : Message → ℕ
full_rcode m = elim m.edns [
  | some e ↦ extended_rcode e m.flags.rcode.code
  | none ↦ m.flags.rcode.code
]

unfoldable pub is_response : Message → Bool
is_response m = m.flags.qr

unfoldable pub is_truncated : Message → Bool
is_truncated m = m.flags.tc

unfoldable pub error_response : Message → Rcode → Message
error_response m rcode = record (new m.id) {
  flags = record default_flags { qr = true; rd = m.flags.rd; ra = true; rcode = rcode };
  questions = m.questions;
  edns = elim m.edns [ some e ↦ some (Edns.new e.udp_payload_size) | none ↦ none ];
}

unfoldable pub matches_question : Message → Name → RrType → Bool
matches_question m name qtype = elim (question m) [
  | some q ↦ name_eq q.qname name && (q.qtype.code == qtype.code)
  | none ↦ false
]

unfoldable pub answers_of_type : List Record → RrType → List Record
answers_of_type [] t = []
answers_of_type (r ∷ records) t =
    let rest = answers_of_type records t in if r.rr_type.code == t.code then r ∷ rest else rest

-- The first SOA record of a section.
unfoldable pub find_soa : List Record → Option Record
find_soa [] = none
find_soa (r ∷ records) = let rest = find_soa records in if r.rr_type.code == 6 then some r else rest

abbrev pub authority_soa : Message → Option Record
authority_soa m = find_soa m.authorities
