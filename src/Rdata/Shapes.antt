-- ===== src/Rdata/Shapes.antt =====
-- src/rdata.rs: the data whose wire form can be read back, and what a round trip through a message is.
use recurse_x.Prelude.{
  ℕ, ◌+◌, ◌^◌, ◌≤◌, ◌<◌, ◌≡◌, sym, ap, List, [], ◌++◌, append_assoc, length, length-append, All,
  arith,
}
use recurse_x.Error.{ok}
use recurse_x.Wire.{IsByte, usize_limit}
use recurse_x.Wire.Holds.{Holds}
use recurse_x.Rdata.{
  RData, a, aaaa, cname, dname, ns, ptr, mx, soa, txt, srv, naptr, ds, dnskey, rrsig, nsec, nsec3,
  nsec3param, caa, tlsa, svcb, unknown, Arm, a_arm, aaaa_arm, cname_arm, dname_arm, ns_arm, ptr_arm,
  mx_arm, soa_arm, txt_arm, srv_arm, naptr_arm, ds_arm, dnskey_arm, rrsig_arm, nsec_arm, nsec3_arm,
  nsec3param_arm, caa_arm, tlsa_arm, svcb_arm, other_arm,
}
use recurse_x.Rdata.Parse.{parse_arm}
use recurse_x.Rdata.ToWire.{Sink, push, to_wire}
use recurse_x.Rdata.Sinks.{IsName, Within, Within-le, IsSink, push-Within, push-Holds, push-IsSink}
use recurse_x.Rdata.Strings.{IsShort, IsParam}

-- The arm that reads the data back.
unfoldable pub arm_for : RData → Arm
arm_for (a _) = a_arm
arm_for (aaaa _) = aaaa_arm
arm_for (cname _) = cname_arm
arm_for (dname _) = dname_arm
arm_for (ns _) = ns_arm
arm_for (ptr _) = ptr_arm
arm_for (mx _ _) = mx_arm
arm_for (soa _ _ _ _ _ _ _) = soa_arm
arm_for (txt _) = txt_arm
arm_for (srv _ _ _ _) = srv_arm
arm_for (naptr _ _ _ _ _ _) = naptr_arm
arm_for (ds _ _ _ _) = ds_arm
arm_for (dnskey _ _ _ _) = dnskey_arm
arm_for (rrsig _ _ _ _ _ _ _ _ _) = rrsig_arm
arm_for (nsec _ _) = nsec_arm
arm_for (nsec3 _ _ _ _ _ _) = nsec3_arm
arm_for (nsec3param _ _ _ _) = nsec3param_arm
arm_for (caa _ _ _) = caa_arm
arm_for (tlsa _ _ _ _) = tlsa_arm
arm_for (svcb _ _ _) = svcb_arm
arm_for (unknown _) = other_arm

-- The fields are in the range of their wire format: addresses have their length, words fit, strings
-- have at most 255 bytes, names are names. The bitmaps of NSEC and NSEC3 are empty.
unfoldable pub Fits : RData → Type 0
Fits (a octets) = length octets ≡ 4
Fits (aaaa octets) = length octets ≡ 16
Fits (cname n) = IsName n
Fits (dname n) = IsName n
Fits (ns n) = IsName n
Fits (ptr n) = IsName n
Fits (mx preference exchange) = (preference < 2 ^ 16) × IsName exchange
Fits (soa mname rname serial refresh retry expire minimum) =
    IsName mname
    × IsName rname
    × (serial < 2 ^ 32)
    × (refresh < 2 ^ 32)
    × (retry < 2 ^ 32)
    × (expire < 2 ^ 32)
    × (minimum < 2 ^ 32)
Fits (txt strings) = All IsShort strings
Fits (srv priority weight port target) =
    (priority < 2 ^ 16) × (weight < 2 ^ 16) × (port < 2 ^ 16) × IsName target
Fits (naptr order preference flags services regexp replacement) =
    (order < 2 ^ 16)
    × (preference < 2 ^ 16)
    × IsShort flags
    × IsShort services
    × IsShort regexp
    × IsName replacement
Fits (ds key_tag algorithm digest_type digest) = key_tag < 2 ^ 16
Fits (dnskey flags protocol algorithm public_key) = flags < 2 ^ 16
Fits (rrsig covered algorithm labels original_ttl expiration inception key_tag signer signature) =
    (covered.code < 2 ^ 16)
    × (original_ttl < 2 ^ 32)
    × (expiration < 2 ^ 32)
    × (inception < 2 ^ 32)
    × (key_tag < 2 ^ 16)
    × IsName signer
Fits (nsec next types) = IsName next × (types ≡ [])
Fits (nsec3 hash_alg flags iterations salt next_hashed types) =
    (iterations < 2 ^ 16) × IsShort salt × IsShort next_hashed × (types ≡ [])
Fits (nsec3param hash_alg flags iterations salt) = (iterations < 2 ^ 16) × IsShort salt
Fits (caa flags tag value) = IsShort tag
Fits (tlsa usage selector matching_type certificate) = Unit
Fits (svcb priority target params) = (priority < 2 ^ 16) × IsName target × All IsParam params
Fits (unknown bytes) = Unit

-- The data was written into the message: the sink before it is a stage of the message, the one behind
-- it is sound, and the arm reads the data up to its end.
pub record Trip (buf : List ℕ) (s : Sink) (r : RData) : Type 0 where
  pub before : Within buf s
  pub sink : IsSink (to_wire r s)
  pub read :
      parse_arm buf (length (to_wire r s).out) (arm_for r) (length s.out)
      ≡ ok (r, length (to_wire r s).out)

-- Pushing twice is pushing once.
pub push-push : (s : Sink) (xs ys : List ℕ) → push (push s xs) ys ≡ push s (xs ++ ys)
unfolding push
push-push s xs ys = ap (λ o. record s { out = o }) (append_assoc s.out xs ys)

module _ (buf : List ℕ) (bytes : All IsByte buf) (roomy : length buf + 256 ≤ usize_limit) where
  room : length buf < usize_limit
  room = omega arith

  -- Data that is appended as it is.
  pub plain-Trip :
      (s : Sink) (r : RData) (wire : List ℕ)
      → to_wire r s ≡ push s wire
      → IsSink s
      → Within buf (to_wire r s)
      → ((end : ℕ)
          → length s.out + length wire ≡ end
          → Holds buf (length s.out) wire
          → parse_arm buf end (arm_for r) (length s.out) ≡ ok (r, end))
      → Trip buf s r
  plain-Trip s r wire e t w read =
      let w' = rw e at w in
      let end : length s.out + length wire ≡ length (push s wire).out =
        unfold push in sym (length-append s.out wire) in
      record {
        before = push-Within buf s wire w';
        sink = rw e (push-IsSink buf s wire (Within-le buf (push s wire) w') room t);
        read = rw e (read (length (push s wire).out) end (push-Holds buf s wire w'));
      }
