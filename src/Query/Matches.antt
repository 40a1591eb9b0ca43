-- ===== src/Query/Matches.antt =====
-- src/query.rs: which responses match a query.
use recurse_x.Prelude.{◌≡◌, refl, true, Bool-cases, inl, inr, ◌&&◌, some, map, ◌==◌, arith}
use recurse_x.Name.Equal.{bytes_eq-eq, bytes_eq_refl}
use recurse_x.Name.{name_eq, bytes_eq, canonical, to_lower}
use recurse_x.Message.Sections.{Question, Message, question}
use recurse_x.Query.{questions_match, response_matches_query}

-- The exact comparison of the names decides nothing that the other one does not.
questions_match_lem :
    (qq rq : Question)
    → questions_match qq rq ≡ (
        (rq.qtype.code == qq.qtype.code)
        && ((rq.qclass.code == qq.qclass.code)
            && name_eq (canonical rq.qname) (canonical qq.qname)))
unfolding questions_match
questions_match_lem qq rq = elim (Bool-cases (bytes_eq rq.qname.bytes qq.qname.bytes)) [
  | inl exact ↦
      let same = bytes_eq-eq rq.qname.bytes qq.qname.bytes exact in
      let lower : name_eq (canonical rq.qname) (canonical qq.qname) ≡ true =
        unfold canonical in rw same (bytes_eq_refl (map to_lower qq.qname.bytes)) in
      rw (exact, lower) (ground arith)
  | inr other ↦ rw other (ground arith)
]

-- A response matches a query exactly where the ids are equal and the first questions have the same
-- type, the same class, and the same name up to the case of its letters.
pub response_matches_query_lem :
    (query response : Message) (qq rq : Question)
    → question query ≡ some qq
    → question response ≡ some rq
    → response_matches_query query response ≡ (
        (query.id == response.id)
        && ((rq.qtype.code == qq.qtype.code)
            && ((rq.qclass.code == qq.qclass.code)
                && name_eq (canonical rq.qname) (canonical qq.qname))))
unfolding response_matches_query
response_matches_query_lem query response qq rq hq hr =
    rw (← questions_match_lem qq rq) (elim (Bool-cases (query.id == response.id)) [
      | inl same ↦ rw (same, hq, hr) refl
      | inr other ↦ rw other refl
    ])
