-- ===== src/Rdata/Parse.antt =====
-- src/rdata.rs: `RData::parse`, an arm at a time. Each arm returns the data and the cursor behind it.
use recurse_x.Prelude.{ℕ, ◌+◌, List, leb, ltb, length}
use recurse_x.Error.{Result, ok, ◌>>=◌, ◌>>◌, fail_if, or_error, wire_error}
use recurse_x.Wire.{array_at}
use recurse_x.Name.{Name}
use recurse_x.Qtype.{RrType}
use recurse_x.Rdata.{
  RData, a, aaaa, cname, dname, ns, ptr, mx, soa, txt, srv, naptr, ds, dnskey, rrsig, nsec, nsec3,
  nsec3param, caa, tlsa, svcb, unknown, Arm, a_arm, aaaa_arm, cname_arm, dname_arm, ns_arm, ptr_arm,
  mx_arm, soa_arm, txt_arm, srv_arm, naptr_arm, ds_arm, dnskey_arm, rrsig_arm, nsec_arm, nsec3_arm,
  nsec3param_arm, caa_arm, tlsa_arm, svcb_arm, other_arm, arm_of,
}
use recurse_x.Rdata.Fields.{
  truncated, need, read_u16, read_u32, read_byte, tail, read_name, name_exact, counted,
  read_char_string, txt_loop, svcb_loop,
}
use recurse_x.Rdata.Bitmap.{parse_type_bitmap}

module _ (buf : List ℕ) (end : ℕ) where
  -- A and AAAA, by the number of octets.
  unfoldable pub parse_address : ℕ → (List ℕ → RData) → ℕ → Result (RData × ℕ)
  parse_address n build pos = do
    need buf end pos n
    octets ← or_error (array_at n buf pos) truncated
    ok (build octets, pos + n)

  -- The types whose data is one name.
  unfoldable pub parse_single : (Name → RData) → ℕ → Result (RData × ℕ)
  parse_single build pos = do (n, next) ← name_exact buf end pos; ok (build n, next)

  unfoldable pub parse_mx : ℕ → Result (RData × ℕ)
  parse_mx pos = do
    need buf end pos 2
    preference ← read_u16 buf end pos
    (exchange, next) ← name_exact buf end (pos + 2)
    ok (mx preference exchange, next)

  unfoldable pub parse_soa : ℕ → Result (RData × ℕ)
  parse_soa pos = do
    need buf end pos 20
    (mname, p) ← read_name buf end pos
    (rname, p') ← read_name buf end p
    fail_if (ltb end (p' + 20)) (wire_error "SOA RDATA truncated")
    serial ← read_u32 buf end p'
    refresh ← read_u32 buf end (p' + 4)
    retry ← read_u32 buf end (p' + 8)
    expire ← read_u32 buf end (p' + 12)
    minimum ← read_u32 buf end (p' + 16)
    ok (soa mname rname serial refresh retry expire minimum, p' + 20)

  unfoldable pub parse_txt : ℕ → Result (RData × ℕ)
  parse_txt pos = do (strings, next) ← txt_loop buf end (end + 1) pos; ok (txt strings, next)

  unfoldable pub parse_srv : ℕ → Result (RData × ℕ)
  parse_srv pos = do
    need buf end pos 6
    priority ← read_u16 buf end pos
    weight ← read_u16 buf end (pos + 2)
    port ← read_u16 buf end (pos + 4)
    (target, next) ← name_exact buf end (pos + 6)
    ok (srv priority weight port target, next)

  unfoldable pub parse_naptr : ℕ → Result (RData × ℕ)
  parse_naptr pos = do
    need buf end pos 4
    order ← read_u16 buf end pos
    preference ← read_u16 buf end (pos + 2)
    (flags, p) ← read_char_string buf end (pos + 4)
    (services, p') ← read_char_string buf end p
    (regexp, p'') ← read_char_string buf end p'
    (replacement, next) ← name_exact buf end p''
    ok (naptr order preference flags services regexp replacement, next)

  unfoldable pub parse_ds : ℕ → Result (RData × ℕ)
  parse_ds pos = do
    need buf end pos 4
    key_tag ← read_u16 buf end pos
    algorithm ← read_byte buf end (pos + 2)
    digest_type ← read_byte buf end (pos + 3)
    fail_if (ltb end (pos + 4)) (wire_error "DS digest truncated")
    digest ← tail buf end (pos + 4)
    ok (ds key_tag (record { code = algorithm }) (record { code = digest_type }) digest, end)

  unfoldable pub parse_dnskey : ℕ → Result (RData × ℕ)
  parse_dnskey pos = do
    need buf end pos 4
    flags ← read_u16 buf end pos
    protocol ← read_byte buf end (pos + 2)
    algorithm ← read_byte buf end (pos + 3)
    fail_if (ltb end (pos + 4)) (wire_error "DNSKEY public key truncated")
    public_key ← tail buf end (pos + 4)
    ok (dnskey flags protocol (record { code = algorithm }) public_key, end)

  unfoldable pub parse_rrsig : ℕ → Result (RData × ℕ)
  parse_rrsig pos = do
    need buf end pos 18
    type_covered ← read_u16 buf end pos
    algorithm ← read_byte buf end (pos + 2)
    labels ← read_byte buf end (pos + 3)
    original_ttl ← read_u32 buf end (pos + 4)
    expiration ← read_u32 buf end (pos + 8)
    inception ← read_u32 buf end (pos + 12)
    key_tag ← read_u16 buf end (pos + 16)
    (signer, p) ← read_name buf end (pos + 18)
    fail_if (ltb end p) (wire_error "RRSIG signature truncated")
    signature ← tail buf end p
    ok (
      rrsig (record { code = type_covered }) (record { code = algorithm }) labels original_ttl
          expiration inception key_tag signer signature,
      end,
    )

  unfoldable pub parse_nsec : ℕ → Result (RData × ℕ)
  parse_nsec pos = do
    (next, p) ← read_name buf end pos
    (types, p') ← parse_type_bitmap buf end p
    ok (nsec next types, p')

  unfoldable pub parse_nsec3 : ℕ → Result (RData × ℕ)
  parse_nsec3 pos = do
    need buf end pos 5
    hash_alg ← read_byte buf end pos
    flags ← read_byte buf end (pos + 1)
    iterations ← read_u16 buf end (pos + 2)
    salt_len ← read_byte buf end (pos + 4)
    (salt, p) ← counted buf end (pos + 5) salt_len (wire_error "NSEC3 salt truncated")
    fail_if (leb end p) (wire_error "NSEC3 next-hashed length missing")
    next_len ← read_byte buf end p
    (next_hashed, p') ← counted buf end (p + 1) next_len (wire_error "NSEC3 next-hashed truncated")
    (types, p'') ← parse_type_bitmap buf end p'
    ok (nsec3 hash_alg flags iterations salt next_hashed types, p'')

  unfoldable pub parse_nsec3param : ℕ → Result (RData × ℕ)
  parse_nsec3param pos = do
    need buf end pos 5
    hash_alg ← read_byte buf end pos
    flags ← read_byte buf end (pos + 1)
    iterations ← read_u16 buf end (pos + 2)
    salt_len ← read_byte buf end (pos + 4)
    (salt, p) ← counted buf end (pos + 5) salt_len (wire_error "NSEC3PARAM salt truncated")
    ok (nsec3param hash_alg flags iterations salt, p)

  unfoldable pub parse_caa : ℕ → Result (RData × ℕ)
  parse_caa pos = do
    need buf end pos 2
    flags ← read_byte buf end pos
    tag_len ← read_byte buf end (pos + 1)
    (tag, p) ← counted buf end (pos + 2) tag_len (wire_error "CAA tag truncated")
    value ← tail buf end p
    ok (caa flags tag value, end)

  unfoldable pub parse_tlsa : ℕ → Result (RData × ℕ)
  parse_tlsa pos = do
    need buf end pos 3
    usage ← read_byte buf end pos
    selector ← read_byte buf end (pos + 1)
    matching_type ← read_byte buf end (pos + 2)
    certificate ← tail buf end (pos + 3)
    ok (tlsa usage selector matching_type certificate, end)

  unfoldable pub parse_svcb : ℕ → Result (RData × ℕ)
  parse_svcb pos = do
    need buf end pos 2
    priority ← read_u16 buf end pos
    (target, p) ← read_name buf end (pos + 2)
    (params, p') ← svcb_loop buf end (end + 1) p
    ok (svcb priority target params, p')

  unfoldable pub parse_other : ℕ → Result (RData × ℕ)
  parse_other pos = do bytes ← tail buf end pos; ok (unknown bytes, end)

  unfoldable pub parse_arm : Arm → ℕ → Result (RData × ℕ)
  parse_arm a_arm pos = parse_address 4 a pos
  parse_arm aaaa_arm pos = parse_address 16 aaaa pos
  parse_arm cname_arm pos = parse_single cname pos
  parse_arm dname_arm pos = parse_single dname pos
  parse_arm ns_arm pos = parse_single ns pos
  parse_arm ptr_arm pos = parse_single ptr pos
  parse_arm mx_arm pos = parse_mx pos
  parse_arm soa_arm pos = parse_soa pos
  parse_arm txt_arm pos = parse_txt pos
  parse_arm srv_arm pos = parse_srv pos
  parse_arm naptr_arm pos = parse_naptr pos
  parse_arm ds_arm pos = parse_ds pos
  parse_arm dnskey_arm pos = parse_dnskey pos
  parse_arm rrsig_arm pos = parse_rrsig pos
  parse_arm nsec_arm pos = parse_nsec pos
  parse_arm nsec3_arm pos = parse_nsec3 pos
  parse_arm nsec3param_arm pos = parse_nsec3param pos
  parse_arm caa_arm pos = parse_caa pos
  parse_arm tlsa_arm pos = parse_tlsa pos
  parse_arm svcb_arm pos = parse_svcb pos
  parse_arm other_arm pos = parse_other pos

-- `RData::parse`
unfoldable pub parse : List ℕ → ℕ → ℕ → RrType → Result (RData × ℕ)
parse buf pos end rr_type = do
  fail_if (ltb (length buf) end) (wire_error "RDATA length exceeds message")
  fail_if (ltb end pos) (wire_error "RDATA cursor past end")
  parse_arm buf end (arm_of rr_type) pos
