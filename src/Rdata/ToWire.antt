-- ===== src/Rdata/ToWire.antt =====
-- src/rdata.rs: `RData::to_wire`. A sink is the buffer, with the compressor where there is one.
use recurse_x.Prelude.{ℕ, ◌%◌, ◌^◌, min, Option, none, some, List, [], ◌∷◌, ◌++◌, length}
use recurse_x.Wire.{capped, to_be_bytes}
use recurse_x.Name.{Name}
use recurse_x.Name.Compress.{NameCompressor, write}
use recurse_x.Rdata.{
  RData, a, aaaa, cname, dname, ns, ptr, mx, soa, txt, srv, naptr, ds, dnskey, rrsig, nsec, nsec3,
  nsec3param, caa, tlsa, svcb, unknown,
}
use recurse_x.Rdata.Bitmap.{bitmap_wire}

pub record Sink : Type 0 where
  pub comp : Option NameCompressor
  pub out : List ℕ

-- `out.extend_from_slice(bytes)`
unfoldable pub push : Sink → List ℕ → Sink
push s bytes = record s { out = s.out ++ bytes }

-- The closure `name`, for a name that may be compressed.
unfoldable pub put_name : Sink → Name → Sink
put_name s n = elim s.comp [
  | some c ↦ let written = write c n s.out in record { comp = some written.0; out = written.1 }
  | none ↦ record s { out = s.out ++ n.bytes }
]

-- A length in one octet and at most 255 bytes, as `write_char_string` writes them.
unfoldable pub char_string : List ℕ → List ℕ
char_string s = (min (length s) 255 % 256) ∷ capped s 255

unfoldable pub strings_wire : List (List ℕ) → List ℕ
strings_wire [] = []
strings_wire (s ∷ strings) = char_string s ++ strings_wire strings

unfoldable pub param_wire : ℕ × List ℕ → List ℕ
param_wire (key, value) =
    to_be_bytes 2 key ++ (to_be_bytes 2 (min (length value) 0xffff % 2 ^ 16) ++ capped value 0xffff)

unfoldable pub params_wire : List (ℕ × List ℕ) → List ℕ
params_wire [] = []
params_wire (p ∷ params) = param_wire p ++ params_wire params

unfoldable pub to_wire : RData → Sink → Sink
to_wire (a octets) s = push s octets
to_wire (aaaa octets) s = push s octets
to_wire (cname n) s = put_name s n
to_wire (dname n) s = put_name s n
to_wire (ns n) s = put_name s n
to_wire (ptr n) s = put_name s n
to_wire (mx preference exchange) s = put_name (push s (to_be_bytes 2 preference)) exchange
to_wire (soa mname rname serial refresh retry expire minimum) s =
    push (put_name (put_name s mname) rname) (
      to_be_bytes 4 serial
      ++ (to_be_bytes 4 refresh
          ++ (to_be_bytes 4 retry ++ (to_be_bytes 4 expire ++ to_be_bytes 4 minimum))))
to_wire (txt strings) s = push s (strings_wire strings)
to_wire (srv priority weight port target) s =
    push (push s (to_be_bytes 2 priority ++ (to_be_bytes 2 weight ++ to_be_bytes 2 port)))
      target.bytes
to_wire (naptr order preference flags services regexp replacement) s =
    push
      (push s (
        to_be_bytes 2 order
        ++ (to_be_bytes 2 preference
            ++ (char_string flags ++ (char_string services ++ char_string regexp)))))
      replacement.bytes
to_wire (ds key_tag algorithm digest_type digest) s =
    push s (to_be_bytes 2 key_tag ++ (algorithm.code ∷ digest_type.code ∷ digest))
to_wire (dnskey flags protocol algorithm public_key) s =
    push s (to_be_bytes 2 flags ++ (protocol ∷ algorithm.code ∷ public_key))
to_wire (rrsig covered algorithm labels original_ttl expiration inception key_tag signer signature)
      s =
    push
      (push
        (push s (
          to_be_bytes 2 covered.code
          ++ (algorithm.code
              ∷ labels
              ∷ (to_be_bytes 4 original_ttl
                  ++ (to_be_bytes 4 expiration
                      ++ (to_be_bytes 4 inception ++ to_be_bytes 2 key_tag))))))
        signer.bytes)
      signature
to_wire (nsec next types) s = push (push s next.bytes) (bitmap_wire types)
to_wire (nsec3 hash_alg flags iterations salt next_hashed types) s = push s (
    hash_alg
    ∷ flags
    ∷ (to_be_bytes 2 iterations
        ++ (char_string salt ++ (char_string next_hashed ++ bitmap_wire types))))
to_wire (nsec3param hash_alg flags iterations salt) s =
    push s (hash_alg ∷ flags ∷ (to_be_bytes 2 iterations ++ char_string salt))
to_wire (caa flags tag value) s = push s (flags ∷ (char_string tag ++ value))
to_wire (tlsa usage selector matching_type certificate) s =
    push s (usage ∷ selector ∷ matching_type ∷ certificate)
to_wire (svcb priority target params) s =
    push (push (push s (to_be_bytes 2 priority)) target.bytes) (params_wire params)
to_wire (unknown bytes) s = push s bytes

-- `RData::wire_len`
unfoldable pub wire_len : RData → ℕ
wire_len r = length (to_wire r (record { comp = none; out = [] })).out
