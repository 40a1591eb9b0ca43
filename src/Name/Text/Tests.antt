-- ===== src/Name/Text/Tests.antt =====
-- Runs of the presentation format, and its theorem at a concrete input.
use recurse_x.Prelude.{ℕ, ◌≡◌, refl, List, [], ◌∷◌}
use recurse_x.Error.{ok, err, wire_error}
use recurse_x.Name.{label_walk}
use recurse_x.Name.Text.{from_ascii, to_ascii}
use recurse_x.Name.Text.Parsed.{Fine, IsParsed, from_ascii-IsParsed}

-- `Ab.c.`
abbrev text : List ℕ
text = b'A' ∷ b'b' ∷ b'.' ∷ b'c' ∷ b'.' ∷ []

parsed : from_ascii text ≡ ok (record { bytes = 2 ∷ b'a' ∷ b'b' ∷ 1 ∷ b'c' ∷ 0 ∷ [] })
unfolding from_ascii
parsed = refl

empty_label_refused :
    from_ascii (b'a' ∷ b'.' ∷ b'.' ∷ b'c' ∷ []) ≡ err (wire_error "empty label in name")
unfolding from_ascii
empty_label_refused = refl

two_dots_at_the_end :
    from_ascii (b'a' ∷ b'.' ∷ b'.' ∷ []) ≡ ok (record { bytes = 1 ∷ b'a' ∷ 0 ∷ [] })
unfolding from_ascii
two_dots_at_the_end = refl

-- The quote is written with its octal number, which reads as an asterisk.
quote_written : to_ascii (record { bytes = 1 ∷ 0x22 ∷ 0 ∷ [] }) ≡ 0x5c ∷ b'0' ∷ b'4' ∷ b'2' ∷ []
unfolding to_ascii label_walk
quote_written = refl

quote_misread :
    from_ascii (0x5c ∷ b'0' ∷ b'4' ∷ b'2' ∷ []) ≡ ok (record { bytes = 1 ∷ b'*' ∷ 0 ∷ [] })
unfolding from_ascii
quote_misread = refl

from_ascii-IsParsed_example : Fine IsParsed (from_ascii text)
from_ascii-IsParsed_example = from_ascii-IsParsed text
