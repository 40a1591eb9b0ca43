-- ===== src/Qtype/Tests.antt =====
-- Runs on record types, and the theorems at concrete inputs.
use recurse_x.Prelude.{◌≡◌, refl, arith}
use recurse_x.Qtype.{as_str, match_arm, is_known, named, numbered, display}
use recurse_x.Qtype.Codes.{display_rcode}
use recurse_x.Qtype.Tables.{display_large}

unassigned_type : display (record { code = 1234 }) ≡ numbered "TYPE" 1234
unfolding display as_str match_arm is_known
unassigned_type = refl

-- 101 (UID) counts as known and has no arm, so that its number is lost too.
known_without_name : display (record { code = 101 }) ≡ named "TYPE"
unfolding display as_str match_arm is_known
known_without_name = refl

display_large_example :
    (display (record { code = 65280 }) ≡ named "TYPE")
    × (display (record { code = 65280 }) ≡ display (record { code = 65281 }))
display_large_example =
    display_large (record { code = 65280 }) (record { code = 65281 }) (omega arith) (omega arith)

extended_code : display_rcode (record { code = 16 }) ≡ numbered "RCODE" 16
unfolding display_rcode
extended_code = refl
