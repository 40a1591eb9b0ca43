-- ===== src/Query/Tests.antt =====
-- Runs of the check of responses and of the partitions, and the theorem at a concrete input.
use recurse_x.Prelude.{◌≡◌, refl, true, ◌&&◌, some, [], ◌∷◌, ◌==◌}
use recurse_x.Name.{Name, name_eq, bytes_eq, canonical, to_lower}
use recurse_x.Edns.Subnet.{mask, zeros, zip_copy, mask_last}
use recurse_x.Message.Sections.{Message, query, question}
use recurse_x.Partition.{answer_partition, effective_scope, scope_or_zero, with_scope}
use recurse_x.Query.{response_matches_query, questions_match}
use recurse_x.Query.Matches.{response_matches_query_lem}

-- `Ab.`
abbrev mixed : Name
mixed = record { bytes = 2 ∷ b'A' ∷ b'b' ∷ 0 ∷ [] }

abbrev lower : Name
lower = record { bytes = 2 ∷ b'a' ∷ b'b' ∷ 0 ∷ [] }

abbrev asked : Message
unfolding query
asked = query 7 mixed (record { code = 1 }) true

abbrev answered : Message
unfolding query
answered = query 7 lower (record { code = 1 }) true

normalized_case_matches : response_matches_query asked answered ≡ true
unfolding response_matches_query questions_match question canonical to_lower bytes_eq query
normalized_case_matches = refl

response_matches_query_lem_example :
    response_matches_query asked answered
    ≡ ((7 == 7) && ((1 == 1) && ((1 == 1) && name_eq (canonical lower) (canonical mixed))))
unfolding question query
response_matches_query_lem_example =
    response_matches_query_lem asked answered
      (record { qname = mixed; qtype = record { code = 1 }; qclass = record { code = 1 } })
      (record { qname = lower; qtype = record { code = 1 }; qclass = record { code = 1 } }) refl
      refl

-- `10.1.255.0/24`, with an answer that holds for 20 bits.
narrowed :
    answer_partition (some (record { family = 1; prefix = 24; addr = 10 ∷ 1 ∷ 255 ∷ [] })) (some 20)
    ≡ some (record { family = 1; prefix = 20; addr = 10 ∷ 1 ∷ 240 ∷ [] })
unfolding answer_partition effective_scope scope_or_zero with_scope mask zeros zip_copy mask_last
narrowed = refl
