-- ===== src/Qtype/Codes.antt =====
-- src/qtype.rs: classes, opcodes, response codes, and the numbers of DNSSEC algorithms and digests.
use Prim.Native.String.{String}
use recurse_x.Prelude.{ℕ, Bool, ◌||◌, List, [], ◌∷◌, ◌==◌, if◌then◌else◌}
use recurse_x.Prelude.Bits.{bit_and}
use recurse_x.Qtype.{match_arm, RrClass, Opcode, Rcode, Shown, named, numbered}

pub record DnssecAlgorithm : Type 0 where
  pub code : ℕ

pub record DsDigestType : Type 0 where
  pub code : ℕ

abbrev pub class_constants : List (String × ℕ)
class_constants = ("IN", 1) ∷ ("CS", 2) ∷ ("CH", 3) ∷ ("HS", 4) ∷ ("NONE", 254) ∷ ("ANY", 255) ∷ []

abbrev pub opcode_constants : List (String × ℕ)
opcode_constants = ("QUERY", 0) ∷ ("IQUERY", 1) ∷ ("STATUS", 2) ∷ ("NOTIFY", 4) ∷ ("UPDATE", 5) ∷ []

abbrev pub rcode_constants : List (String × ℕ)
rcode_constants =
    ("NOERROR", 0)
    ∷ ("FORMERR", 1)
    ∷ ("SERVFAIL", 2)
    ∷ ("NXDOMAIN", 3)
    ∷ ("NOTIMP", 4)
    ∷ ("REFUSED", 5)
    ∷ ("YXDOMAIN", 6)
    ∷ ("YXRRSET", 7)
    ∷ ("NXRRSET", 8)
    ∷ ("NOTAUTH", 9)
    ∷ ("NOTZONE", 10)
    ∷ ("BADVERS", 16)
    ∷ []

abbrev pub algorithm_constants : List (String × ℕ)
algorithm_constants =
    ("RSAMD5", 1)
    ∷ ("DH", 2)
    ∷ ("DSA", 3)
    ∷ ("ECC", 4)
    ∷ ("RSASHA1", 5)
    ∷ ("DSANSEC3SHA1", 6)
    ∷ ("RSASHA1NSEC3SHA1", 7)
    ∷ ("RSASHA256", 8)
    ∷ ("RSASHA512", 10)
    ∷ ("ECCGOST", 12)
    ∷ ("ECDSAP256SHA256", 13)
    ∷ ("ECDSAP384SHA384", 14)
    ∷ ("ED25519", 15)
    ∷ ("ED448", 16)
    ∷ ("INDIRECT", 252)
    ∷ ("PRIVATEDNS", 253)
    ∷ ("PRIVATEOID", 254)
    ∷ []

abbrev pub digest_constants : List (String × ℕ)
digest_constants = ("SHA1", 1) ∷ ("SHA256", 2) ∷ ("GOST", 3) ∷ ("SHA384", 4) ∷ []

-- A match whose last arm shows the number behind `prefix`.
unfoldable pub shown_by : List (ℕ × String) → String → ℕ → Shown
shown_by [] prefix v = numbered prefix v
shown_by ((code, name) ∷ table) prefix v =
    let rest = shown_by table prefix v in if v == code then named name else rest

abbrev pub class_arms : List (ℕ × String)
class_arms = (1, "IN") ∷ (2, "CS") ∷ (3, "CH") ∷ (4, "HS") ∷ (254, "NONE") ∷ (255, "ANY") ∷ []

unfoldable pub display_class : RrClass → Shown
unfolding shown_by
display_class x = shown_by class_arms "CLASS" x.code

abbrev pub opcode_arms : List (ℕ × String)
opcode_arms = (0, "QUERY") ∷ (1, "IQUERY") ∷ (2, "STATUS") ∷ (4, "NOTIFY") ∷ (5, "UPDATE") ∷ []

unfoldable pub display_opcode : Opcode → Shown
unfolding shown_by
display_opcode x = shown_by opcode_arms "OPCODE" x.code

abbrev pub rcode_arms : List (ℕ × String)
rcode_arms =
    (0, "NOERROR")
    ∷ (1, "FORMERR")
    ∷ (2, "SERVFAIL")
    ∷ (3, "NXDOMAIN")
    ∷ (4, "NOTIMP")
    ∷ (5, "REFUSED")
    ∷ (6, "YXDOMAIN")
    ∷ (7, "YXRRSET")
    ∷ (8, "NXRRSET")
    ∷ (9, "NOTAUTH")
    ∷ (10, "NOTZONE")
    ∷ []

unfoldable pub display_rcode : Rcode → Shown
unfolding shown_by
display_rcode x = shown_by rcode_arms "RCODE" x.code

abbrev pub algorithm_arms : List (ℕ × String)
algorithm_arms =
    (1, "RSAMD5")
    ∷ (2, "DH")
    ∷ (3, "DSA")
    ∷ (4, "ECC")
    ∷ (5, "RSASHA1")
    ∷ (6, "DSA-NSEC3-SHA1")
    ∷ (7, "RSASHA1-NSEC3-SHA1")
    ∷ (8, "RSASHA256")
    ∷ (10, "RSASHA512")
    ∷ (12, "ECC-GOST")
    ∷ (13, "ECDSA-P256-SHA256")
    ∷ (14, "ECDSA-P384-SHA384")
    ∷ (15, "ED25519")
    ∷ (16, "ED448")
    ∷ (252, "INDIRECT")
    ∷ (253, "PRIVATE-DNS")
    ∷ (254, "PRIVATE-OID")
    ∷ []

-- `DnssecAlgorithm::as_str`
unfoldable pub algorithm_name : DnssecAlgorithm → String
unfolding match_arm
algorithm_name a = match_arm algorithm_arms "UNKNOWN" a.code

-- `DnssecAlgorithm::supported`
unfoldable pub supported : DnssecAlgorithm → Bool
supported a = a.code == 8

-- `Opcode::from`
unfoldable pub opcode_from : ℕ → Opcode
opcode_from v = record { code = bit_and v 0x0f }

unfoldable pub is_nxdomain : Rcode → Bool
is_nxdomain r = r.code == 3

unfoldable pub is_noerror : Rcode → Bool
is_noerror r = r.code == 0

unfoldable pub is_failure : Rcode → Bool
is_failure r =
    (r.code == 1)
    || (r.code == 2)
    || (r.code == 4)
    || (r.code == 5)
    || (r.code == 9)
    || (r.code == 10)
