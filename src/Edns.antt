-- ===== src/Edns.antt =====
-- src/edns.rs: the EDNS(0) pseudo-record, and the list of options in its data.
pub mod Opt
pub mod Masks
pub mod Subnet
pub mod SubnetWire
pub mod OneOption
pub mod RoundTrip
mod Tests
use recurse_x.Prelude.{
  ℕ, zero, suc, ◌+◌, ◌*◌, ◌/◌, ◌%◌, ◌^◌, Bool, true, false, not, Option, none, some, List, [], ◌∷◌,
  ◌++◌, leb, ltb, ◌==◌, if◌then◌else◌, length,
}
use recurse_x.Prelude.Bits.{bit_and, bit_or}
use recurse_x.Error.{
  Error, Result, ok, err, ◌>>=◌, ◌>>◌, fail_if, or_error, wire_error, internal_error,
}
use recurse_x.Wire.{byte_at, slice_at, rest_at, array_at, from_be_bytes, to_be_bytes, u16_at}
use recurse_x.Edns.Subnet.{Ecs}

pub data EdnsOption : Type 0 where
  client_subnet : Ecs → EdnsOption
  cookie : (client server : List ℕ) → EdnsOption
  tcp_keepalive : Option ℕ → EdnsOption
  padding : ℕ → EdnsOption
  key_tag : List ℕ → EdnsOption
  nsid : List ℕ → EdnsOption
  ede : (info_code : ℕ) (extra : List ℕ) → EdnsOption
  unknown : (number : ℕ) (bytes : List ℕ) → EdnsOption

-- `EdnsOption::code`
unfoldable pub code : EdnsOption → ℕ
code (client_subnet e) = Opt.ecs
code (cookie c s) = Opt.cookie
code (tcp_keepalive t) = Opt.keepalive
code (padding n) = Opt.padding
code (key_tag tags) = Opt.key_tag
code (nsid v) = Opt.nsid
code (ede i e) = Opt.ede
code (unknown n d) = n

pub record Edns : Type 0 where
  pub udp_payload_size : ℕ
  pub ext_rcode : ℕ
  pub version : ℕ
  pub dnssec_ok : Bool
  pub options : List EdnsOption

unfoldable pub new : ℕ → Edns
new size = record {
  udp_payload_size = size;
  ext_rcode = 0;
  version = 0;
  dnssec_ok = false;
  options = [];
}

unfoldable pub extended_rcode : Edns → ℕ → ℕ
extended_rcode e base = bit_or (e.ext_rcode * 2 ^ 4 % 2 ^ 16) (bit_and base 0x0f)

-- The arm of one option code in `parse_options`.
unfoldable pub parse_cookie : List ℕ → Result EdnsOption
parse_cookie bytes = do
  client ← or_error (array_at 8 bytes 0) (wire_error "cookie option too short")
  server ← rest_at bytes 8
  ok (cookie client server)

unfoldable pub parse_keepalive : List ℕ → Result EdnsOption
parse_keepalive bytes =
    if length bytes == 0
    then ok (tcp_keepalive none)
    else if length bytes == 2
    then (do t ← u16_at bytes 0; ok (tcp_keepalive (some t)))
    else err (wire_error "keepalive option malformed")

-- `chunks_exact(2)` drops an odd byte at the end.
unfoldable pub chunk_words : List ℕ → Result (List ℕ)
chunk_words (a ∷ b ∷ bytes) = do
  chunk ← array_at 2 (a ∷ b ∷ []) 0
  more ← chunk_words bytes
  ok (from_be_bytes chunk ∷ more)
chunk_words _ = ok []

unfoldable pub parse_key_tag : List ℕ → Result EdnsOption
parse_key_tag bytes = do
  fail_if (not (length bytes % 2 == 0)) (wire_error "key-tag option malformed")
  tags ← chunk_words bytes
  ok (key_tag tags)

unfoldable pub parse_ede : List ℕ → Result EdnsOption
parse_ede bytes = do
  info_code ← or_error (u16_at bytes 0) (wire_error "EDE option too short")
  extra ← rest_at bytes 2
  ok (ede info_code extra)

unfoldable pub parse_ecs : List ℕ → Result EdnsOption
parse_ecs bytes = do e ← Subnet.parse bytes; ok (client_subnet e)

-- The match on the option code.
unfoldable pub parse_option : ℕ → List ℕ → Result EdnsOption
parse_option number bytes =
    if number == Opt.ecs
    then parse_ecs bytes
    else if number == Opt.cookie
    then parse_cookie bytes
    else if number == Opt.keepalive
    then parse_keepalive bytes
    else if number == Opt.padding
    then ok (padding (length bytes % 2 ^ 16))
    else if number == Opt.key_tag
    then parse_key_tag bytes
    else if number == Opt.nsid
    then ok (nsid bytes)
    else if number == Opt.ede
    then parse_ede bytes
    else ok (unknown number bytes)

-- The option at `pos`, and the place behind it.
unfoldable pub option_at : List ℕ → ℕ → Result (EdnsOption × ℕ)
option_at rdata pos = do
  number ← or_error (u16_at rdata pos) (wire_error "EDNS option header truncated")
  len ← or_error (u16_at rdata (pos + 2)) (wire_error "EDNS option header truncated")
  bytes ← or_error (slice_at rdata (pos + 4) len) (wire_error "EDNS option data truncated")
  option ← parse_option number bytes
  ok (option, pos + 4 + len)

-- Not an error of the code: the loop ran out of fuel.
abbrev pub no_fuel : Error
unfolding internal_error
no_fuel = internal_error "out of fuel"

unfoldable pub options_loop : ℕ → List ℕ → ℕ → Result (List EdnsOption)
options_loop zero rdata pos = err no_fuel
options_loop (suc fuel) rdata pos =
    let turn = (do
      (option, pos') ← option_at rdata pos
      more ← options_loop fuel rdata pos'
      ok (option ∷ more)) in
    if ltb pos (length rdata) then turn else ok []

-- An option takes four bytes at least.
unfoldable pub parse_options : List ℕ → Result (List EdnsOption)
parse_options rdata = options_loop (length rdata + 1) rdata 0

-- `Edns::parse` of the three fields of an OPT record.
unfoldable pub parse : ℕ → ℕ → List ℕ → Result Edns
parse class ttl rdata = do
  options ← parse_options rdata
  ok (record {
    udp_payload_size = class;
    ext_rcode = bit_and (ttl / 2 ^ 24) 0xff % 256;
    version = bit_and (ttl / 2 ^ 16) 0xff % 256;
    dnssec_ok = not (bit_and ttl 0x8000 == 0);
    options = options;
  })

unfoldable pub ttl_field : Edns → ℕ
ttl_field e =
    let ttl = bit_or (e.ext_rcode * 2 ^ 24 % 2 ^ 32) (e.version * 2 ^ 16 % 2 ^ 32) in
    if e.dnssec_ok then bit_or ttl 0x8000 else ttl

unfoldable pub tags_wire : List ℕ → List ℕ
tags_wire [] = []
tags_wire (t ∷ tags) = to_be_bytes 2 t ++ tags_wire tags

-- What `options_wire` writes as the data of an option.
unfoldable pub option_data : EdnsOption → List ℕ
option_data (client_subnet e) = Subnet.to_wire e
option_data (cookie client server) = client ++ server
option_data (tcp_keepalive (some t)) = to_be_bytes 2 t
option_data (tcp_keepalive none) = []
option_data (padding n) = []
option_data (key_tag tags) = tags_wire tags
option_data (nsid v) = v
option_data (ede info_code extra) = to_be_bytes 2 info_code ++ extra
option_data (unknown number bytes) = bytes

unfoldable pub option_wire : EdnsOption → List ℕ
option_wire o =
    to_be_bytes 2 (code o) ++ (to_be_bytes 2 (length (option_data o) % 2 ^ 16) ++ option_data o)

unfoldable pub options_wire : List EdnsOption → List ℕ
options_wire [] = []
options_wire (o ∷ options) = option_wire o ++ options_wire options

-- `Edns::ecs` and `Edns::client_cookie`: the first option of the kind.
unfoldable pub ecs : List EdnsOption → Option Ecs
ecs [] = none
ecs (client_subnet e ∷ options) = some e
ecs (o ∷ options) = ecs options

unfoldable pub client_cookie : List EdnsOption → Option (List ℕ)
client_cookie [] = none
client_cookie (cookie client server ∷ options) = some client
client_cookie (o ∷ options) = client_cookie options
