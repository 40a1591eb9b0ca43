-- ===== src/Query.antt =====
-- src/query.rs: the identity of a query, and the check of a response against the query that was sent.
pub mod Matches
mod Tests
use recurse_x.Prelude.{ℕ, Bool, true, false, not, ◌||◌, Option, none, some, ◌==◌, if◌then◌else◌}
use recurse_x.Name.{Name, name_eq, canonical}
use recurse_x.Qtype.{RrType, RrClass}
use recurse_x.Edns.{Edns, ecs}
use recurse_x.Edns.Subnet.{Ecs}
use recurse_x.Message.Sections.{Question, Message, question}
use recurse_x.Partition.{EcsKey, CacheKey, from_ecs}

pub record QueryKey : Type 0 where
  pub name : Name
  pub rr_type : RrType
  pub class : RrClass
  pub subnet : Option EcsKey
  pub want_dnssec : Bool
  pub cd : Bool

-- The partition that the EDNS options ask for.
unfoldable pub wanted_subnet : Option Edns → Option EcsKey
wanted_subnet none = none
wanted_subnet (some e) = elim (ecs e.options) [ some subnet ↦ from_ecs subnet | none ↦ none ]

unfoldable pub wants_dnssec : Option Edns → Bool
wants_dnssec none = false
wants_dnssec (some e) = e.dnssec_ok

unfoldable pub from_message : Message → Option QueryKey
from_message m = elim (question m) [
  | none ↦ none
  | some q ↦ some (record {
    name = q.qname;
    rr_type = q.qtype;
    class = q.qclass;
    subnet = wanted_subnet m.edns;
    want_dnssec = wants_dnssec m.edns;
    cd = m.flags.cd;
  })
]

unfoldable pub cache_key : QueryKey → CacheKey
cache_key k = record { name = k.name; rr_type = k.rr_type; class = k.class; ecs = k.subnet }

unfoldable pub ecs_option : QueryKey → Option Ecs
ecs_option k = elim k.subnet [
  | none ↦ none
  | some e ↦
      some
        (record { family = e.family; source_prefix = e.prefix; scope_prefix = 0; address = e.addr })
]

-- The tests on the two questions.
unfoldable pub questions_match : Question → Question → Bool
questions_match qq rq =
    if not (rq.qtype.code == qq.qtype.code) || not (rq.qclass.code == qq.qclass.code)
    then false
    else if name_eq rq.qname qq.qname
    then true
    else name_eq (canonical rq.qname) (canonical qq.qname)

unfoldable pub response_matches_query : Message → Message → Bool
response_matches_query query response =
    if not (query.id == response.id) then false else elim (question query) [
      | none ↦ false
      | some qq ↦ elim (question response) [ none ↦ false | some rq ↦ questions_match qq rq ]
    ]
