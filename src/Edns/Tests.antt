-- ===== src/Edns/Tests.antt =====
-- Runs on EDNS options, and the theorems at concrete inputs.
use recurse_x.Prelude.{ℕ, ◌≡◌, refl, true, some, List, [], ◌∷◌, All, map, arith}
use recurse_x.Error.{ok, ◌>>=◌}
use recurse_x.Wire.{to_be_bytes}
use recurse_x.Edns.{
  Edns, EdnsOption, client_subnet, tcp_keepalive, padding, key_tag, nsid, parse_options,
  options_wire, option_wire, option_data, code, parse, ttl_field, tags_wire,
}
use recurse_x.Edns.Subnet.{Ecs, ipv4, ipv6, to_wire, max_prefix, stray_bits, last}
use recurse_x.Edns.Subnet as Subnet
use recurse_x.Edns.SubnetWire.{IsCanonical, parse-to_wire, to_wire-parse}
use recurse_x.Edns.Masks.{subnets-parse}
use recurse_x.Edns.OneOption.{unpadded}
use recurse_x.Edns.RoundTrip.{Fits, parse_options-options_wire, parse-ttl_field}

-- `198.51.100.0/22`
abbrev subnet : Ecs
subnet = record { family = 1; source_prefix = 22; scope_prefix = 0; address = 198 ∷ 51 ∷ 100 ∷ [] }

abbrev subnet_bytes : List ℕ
subnet_bytes = 0 ∷ 1 ∷ 22 ∷ 0 ∷ 198 ∷ 51 ∷ 100 ∷ []

subnet-IsCanonical : IsCanonical subnet
unfolding max_prefix stray_bits last
subnet-IsCanonical = record {
  most = 32;
  known = refl;
  source_fits = omega arith;
  scope_fits = omega arith;
  size = refl;
  clean = refl;
}

parse-to_wire_example : Subnet.parse (to_wire subnet) ≡ ok subnet
parse-to_wire_example = parse-to_wire subnet subnet-IsCanonical

to_wire-parse_example : (to_wire subnet ≡ subnet_bytes) × IsCanonical subnet
unfolding to_wire to_be_bytes
to_wire-parse_example =
    to_wire-parse subnet_bytes (omega arith) (omega arith) (parse-to_wire subnet subnet-IsCanonical)

subnets-parse_example :
    ((ipv4 (198 ∷ 51 ∷ 103 ∷ 7 ∷ []) 22 >>= λ e. Subnet.parse (to_wire e))
      ≡ ipv4 (198 ∷ 51 ∷ 103 ∷ 7 ∷ []) 22)
    × ((ipv6 (198 ∷ 51 ∷ 103 ∷ 7 ∷ []) 22 >>= λ e. Subnet.parse (to_wire e))
        ≡ ipv6 (198 ∷ 51 ∷ 103 ∷ 7 ∷ []) 22)
subnets-parse_example = subnets-parse (198 ∷ 51 ∷ 103 ∷ 7 ∷ []) 22 (omega arith)

abbrev options : List EdnsOption
options =
    client_subnet subnet
    ∷ tcp_keepalive (some 300)
    ∷ padding 7
    ∷ key_tag (1 ∷ 2 ∷ [])
    ∷ nsid []
    ∷ []

options-Fits : All Fits options
unfolding option_data tags_wire to_wire to_be_bytes
options-Fits = (
  (subnet-IsCanonical, omega arith),
  (
    (omega arith, omega arith),
    ((tt, omega arith), ((omega arith, omega arith), ((tt, omega arith), tt))),
  ),
)

options_read_back :
    parse_options (options_wire options)
    ≡ ok (
        client_subnet subnet
        ∷ tcp_keepalive (some 300)
        ∷ padding 0
        ∷ key_tag (1 ∷ 2 ∷ [])
        ∷ nsid []
        ∷ [])
unfolding options_wire option_wire option_data code tags_wire to_wire to_be_bytes
options_read_back = parse_options-options_wire options options-Fits (omega arith)

abbrev edns : Edns
edns = record {
  udp_payload_size = 1232;
  ext_rcode = 1;
  version = 0;
  dnssec_ok = true;
  options = options;
}

parse-ttl_field_example :
    parse 1232 (ttl_field edns) (options_wire options)
    ≡ ok (record edns { options = map unpadded options })
unfolding options_wire option_wire option_data code tags_wire to_wire to_be_bytes
parse-ttl_field_example =
    parse-ttl_field edns (omega arith) (omega arith) options-Fits (omega arith)

-- Five octets of padding are asked for; no byte of data is written.
padding_written : options_wire (padding 5 ∷ []) ≡ 0 ∷ 12 ∷ 0 ∷ 0 ∷ []
unfolding options_wire option_wire option_data code to_be_bytes
padding_written = refl
