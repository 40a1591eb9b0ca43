-- ===== src/Name/Text.antt =====
-- src/name.rs: the presentation format of a name, read by `from_ascii` and written by `to_ascii`.
pub mod Parsed
mod Tests
use recurse_x.Prelude.{
  ℕ, zero, suc, ◌+◌, ◌-◌, ◌*◌, ◌/◌, ◌%◌, Bool, not, ◌&&◌, ◌||◌, List, [], ◌∷◌, ◌++◌, map, leb, ltb,
  ◌==◌, if◌then◌else◌, length,
}
use recurse_x.Error.{Error, Result, ok, err, ◌>>=◌, ◌>>◌, fail_if, wire_error, internal_error}
use recurse_x.Name.{Name, to_lower, labels, max_name_len, max_labels}

-- The variables of the loop, but the rest of the text.
pub record Draft : Type 0 where
  pub written : List ℕ
  pub current : List ℕ
  pub label_count : ℕ
  pub total : ℕ

-- What a turn of the loop does: go on with the rest of the text, or break.
pub data Turn : Type 0 where
  again : Draft → List ℕ → Turn
  done : Draft → Turn

unfoldable pub finish_label : Draft → Result Draft
unfolding wire_error
finish_label d = do
  fail_if (ltb 63 (length d.current)) (wire_error "label longer than 63 octets")
  let total = d.total + (1 + length d.current)
  fail_if (ltb max_name_len total) (wire_error "name exceeds 255 octets")
  fail_if (leb max_labels d.label_count) (wire_error "too many labels")
  ok (record {
    written = d.written ++ (length d.current % 256) ∷ d.current;
    current = [];
    label_count = d.label_count + 1;
    total = total;
  })

unfoldable pub push : Draft → ℕ → Draft
push d b = record d { current = d.current ++ b ∷ [] }

abbrev pub is_digit : ℕ → Bool
is_digit b = leb b'0' b && leb b b'9'

abbrev pub bad_escape : Error
unfolding wire_error
bad_escape = wire_error "bad \\DDD escape in name"

-- The byte that three digits stand for.
unfoldable pub decimal_byte : Draft → ℕ → ℕ → ℕ → List ℕ → Result Turn
unfolding push
decimal_byte d d1 d2 d3 rest = do
  fail_if (not (is_digit d2) || not (is_digit d3)) bad_escape
  let v = (d1 - b'0') * 100 + (d2 - b'0') * 10 + (d3 - b'0')
  fail_if (ltb 255 v) bad_escape
  ok (again (push d (v % 256)) rest)

unfoldable pub decimal_escape : Draft → ℕ → List ℕ → Result Turn
unfolding decimal_byte
decimal_escape d d1 [] = err bad_escape
decimal_escape d d1 (d2 ∷ []) = err bad_escape
decimal_escape d d1 (d2 ∷ d3 ∷ rest) = decimal_byte d d1 d2 d3 rest

-- The arm of the backslash.
unfoldable pub on_backslash : Draft → List ℕ → Result Turn
unfolding decimal_escape push wire_error
on_backslash d [] = err (wire_error "trailing backslash in name")
on_backslash d (escaped ∷ rest) =
    if is_digit escaped then decimal_escape d escaped rest else ok (again (push d escaped) rest)

-- The arm of the dot behind an empty label.
unfoldable pub empty_label : Draft → List ℕ → Result Turn
unfolding wire_error
empty_label d [] = ok (done d)
empty_label d (_ ∷ _) = err (wire_error "empty label in name")

unfoldable pub on_dot : Draft → List ℕ → Result Turn
unfolding empty_label finish_label
on_dot d rest =
    if length d.current == 0 then empty_label d rest else do d' ← finish_label d; ok (again d' rest)

unfoldable pub turn : Draft → List ℕ → Result Turn
unfolding on_backslash on_dot push
turn d [] = ok (done d)
turn d (b ∷ rest) =
    if b == 0x5c
    then on_backslash d rest
    else if b == b'.'
    then on_dot d rest
    else ok (again (push d b) rest)

abbrev pub no_fuel : Error
unfolding internal_error
no_fuel = internal_error "out of fuel"

unfoldable pub after_turn : (Draft → List ℕ → Result Draft) → Turn → Result Draft
after_turn next (again d rest) = next d rest
after_turn next (done d) = ok d

-- The loop; a turn takes one byte of the text at least.
unfoldable pub text_loop : ℕ → Draft → List ℕ → Result Draft
unfolding turn after_turn
text_loop zero d rest = err no_fuel
text_loop (suc fuel) d rest = do t ← turn d rest; after_turn (text_loop fuel) t

unfoldable pub finish_last : Draft → Result Draft
unfolding finish_label
finish_last d = if length d.current == 0 then ok d else finish_label d

unfoldable pub from_ascii : List ℕ → Result Name
unfolding text_loop finish_last
from_ascii s = do
  d ← text_loop (length s + 1) (record { written = []; current = []; label_count = 0; total = 0 }) s
  d' ← finish_last d
  ok (record { bytes = map to_lower d'.written ++ 0 ∷ [] })

-- `\` and the three decimal digits of `{:03}`.
unfoldable pub three_digits : ℕ → List ℕ
three_digits b = 0x5c ∷ (b'0' + b / 100) ∷ (b'0' + b / 10 % 10) ∷ (b'0' + b % 10) ∷ []

unfoldable pub escape_byte : ℕ → List ℕ
unfolding three_digits
escape_byte b =
    if (b == b'.') || (b == 0x5c)
    then 0x5c ∷ b ∷ []
    else if b == b' '
    then 0x5c ∷ b'0' ∷ b'3' ∷ b'2' ∷ []
    else if b == 0x22
    then 0x5c ∷ b'0' ∷ b'4' ∷ b'2' ∷ []
    else if b == b'@'
    then 0x5c ∷ b'0' ∷ b'6' ∷ b'4' ∷ []
    else if b == 0x28
    then 0x5c ∷ b'0' ∷ b'4' ∷ b'0' ∷ []
    else if b == 0x29
    then 0x5c ∷ b'0' ∷ b'4' ∷ b'1' ∷ []
    else if b == 0x3b
    then 0x5c ∷ b'0' ∷ b'5' ∷ b'9' ∷ []
    else if not (leb 0x21 b && leb b 0x7e)
    then three_digits b
    else b ∷ []

unfoldable pub escape_label : List ℕ → List ℕ
unfolding escape_byte
escape_label [] = []
escape_label (b ∷ l) = escape_byte b ++ escape_label l

unfoldable pub dotted : List ℕ → List (List ℕ) → List ℕ
unfolding escape_label
dotted s [] = s
dotted s (l ∷ ls) = dotted ((if length s == 0 then s else s ++ b'.' ∷ []) ++ escape_label l) ls

unfoldable pub to_ascii : Name → List ℕ
unfolding dotted labels
to_ascii n = let s = dotted [] (labels n) in if length s == 0 then b'.' ∷ [] else s
