-- ===== src/Edns/OneOption.antt =====
-- src/edns.rs: one option, its data read back by the arm of its code.
use recurse_x.Prelude.{
  ℕ, ◌+◌, ◌*◌, ◌/◌, ◌%◌, ◌^◌, ◌<◌, ◌≡◌, refl, sym, Bool, true, not, ◌&&◌, none, some, List, [], ◌∷◌,
  ◌++◌, append-nil, ◌==◌, length, All, arith,
}
use recurse_x.Error.{ok}
use recurse_x.Wire.{
  usize_limit, checked_add, get_range, slice_at, array_at, be_value_from, to_be_bytes, u16_at,
}
use recurse_x.Wire.Reads.{length-to_be_bytes}
use recurse_x.Wire.Holds.{u16_at-Holds, array_at-Holds, rest_at-Holds}
use recurse_x.Edns.{
  EdnsOption, client_subnet, cookie, tcp_keepalive, padding, key_tag, nsid, ede, unknown, code,
  parse_option, parse_ecs, parse_cookie, parse_keepalive, chunk_words, parse_key_tag, parse_ede,
  tags_wire, option_data,
}
use recurse_x.Edns.SubnetWire.{IsCanonical, parse-to_wire}

-- A code that has no arm of its own.
abbrev pub is_other : ℕ → Bool
is_other n =
    not (n == 8)
    && not (n == 10)
    && not (n == 11)
    && not (n == 12)
    && not (n == 14)
    && not (n == 3)
    && not (n == 15)

-- The fields fit their places on the wire.
abbrev pub IsOption : EdnsOption → Type 0
IsOption (client_subnet e) = IsCanonical e
IsOption (cookie client server) = length client ≡ 8
IsOption (tcp_keepalive none) = Unit
IsOption (tcp_keepalive (some t)) = t < 2 ^ 16
IsOption (padding n) = Unit
IsOption (key_tag tags) = All (λ t. t < 2 ^ 16) tags
IsOption (nsid v) = Unit
IsOption (ede info_code extra) = info_code < 2 ^ 16
IsOption (unknown number bytes) = (number < 2 ^ 16) × (is_other number ≡ true)

-- Padding is written without its bytes.
abbrev pub unpadded : EdnsOption → EdnsOption
unpadded (padding n) = padding 0
unpadded o = o

length-tags_wire : (tags : List ℕ) → length (tags_wire tags) ≡ 2 * length tags
unfolding tags_wire to_be_bytes
length-tags_wire [] = refl
length-tags_wire (t ∷ tags) = omega (arith, length-tags_wire tags)

chunk_words-tags_wire :
    (tags : List ℕ) → All (λ t. t < 2 ^ 16) tags → chunk_words (tags_wire tags) ≡ ok tags
unfolding chunk_words tags_wire to_be_bytes array_at slice_at checked_add get_range be_value_from
chunk_words-tags_wire [] h = refl
chunk_words-tags_wire (t ∷ tags) (ht, h) =
    let word : (0 * 256 + t / 256 ^ 1 % 256) * 256 + t / 256 ^ 0 % 256 ≡ t = omega arith in
    rw (chunk_words-tags_wire tags h, word) refl

parse_cookie_lem :
    (client server : List ℕ)
    → length client ≡ 8
    → length (client ++ server) < usize_limit
    → parse_cookie (client ++ server) ≡ ok (cookie client server)
unfolding parse_cookie
parse_cookie_lem client server size room =
    let bytes = client ++ server in
    let front : array_at 8 bytes 0 ≡ ok client = rw (size) at (
      array_at-Holds bytes room 0 client
        (record { front = []; rest = server; split = refl; place = refl })) in
    rw (front, rest_at-Holds client server 8 (sym size)) refl

parse_keepalive_lem :
    (t : ℕ) → t < 2 ^ 16 → parse_keepalive (to_be_bytes 2 t) ≡ ok (tcp_keepalive (some t))
unfolding parse_keepalive
parse_keepalive_lem t h =
    let read : u16_at (to_be_bytes 2 t) 0 ≡ ok t =
      u16_at-Holds (to_be_bytes 2 t) (omega (arith, length-to_be_bytes 2 t)) 0 t h (record {
        front = [];
        rest = [];
        split = sym (append-nil (to_be_bytes 2 t));
        place = refl;
      }) in
    rw (length-to_be_bytes 2 t, read) refl

parse_ede_lem :
    (info_code : ℕ) (extra : List ℕ)
    → info_code < 2 ^ 16
    → length (to_be_bytes 2 info_code ++ extra) < usize_limit
    → parse_ede (to_be_bytes 2 info_code ++ extra) ≡ ok (ede info_code extra)
unfolding parse_ede
parse_ede_lem info_code extra h room =
    let head = to_be_bytes 2 info_code in
    let read : u16_at (head ++ extra) 0 ≡ ok info_code =
      u16_at-Holds (head ++ extra) room 0 info_code h
        (record { front = []; rest = extra; split = refl; place = refl }) in
    rw (read, rest_at-Holds head extra 2 (sym (length-to_be_bytes 2 info_code))) refl

-- The data that an option writes is read back under its code.
pub parse_option-option_data :
    (o : EdnsOption)
    → IsOption o
    → length (option_data o) < 2 ^ 16
    → parse_option (code o) (option_data o) ≡ ok (unpadded o)
unfolding parse_option code option_data
parse_option-option_data (client_subnet e) h room = unfold parse_ecs in rw (parse-to_wire e h)
parse_option-option_data (cookie client server) h room =
    parse_cookie_lem client server h (omega arith)
parse_option-option_data (tcp_keepalive none) h room = unfold parse_keepalive in refl
parse_option-option_data (tcp_keepalive (some t)) h room = parse_keepalive_lem t h
parse_option-option_data (padding n) h room = refl
parse_option-option_data (key_tag tags) h room =
    let even : length (tags_wire tags) % 2 ≡ 0 = omega (arith, length-tags_wire tags) in
    unfold parse_key_tag in rw (even, chunk_words-tags_wire tags h) refl
parse_option-option_data (nsid v) h room = refl
parse_option-option_data (ede info_code extra) h room =
    parse_ede_lem info_code extra h (omega arith)
parse_option-option_data (unknown number bytes) (_, other) room = ground arith
