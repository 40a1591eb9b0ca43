-- ===== src/Qtype.antt =====
-- src/qtype.rs: record types, classes, opcodes and response codes as wire numbers.
pub mod Tables
pub mod Codes
pub mod Displays
mod Tests
use Prim.Native.String.{String}
use text.Mathlib.Text.{◌==◌ as str_eq}
use recurse_x.Prelude.{
  ℕ, ◌%◌, Bool, true, false, not, ◌&&◌, ◌||◌, List, [], ◌∷◌, leb, ltb, ◌==◌, if◌then◌else◌,
}
use recurse_x.Prelude.Bits.{bit_and}

pub record RrType : Type 0 where
  pub code : ℕ

pub record RrClass : Type 0 where
  pub code : ℕ

pub record Opcode : Type 0 where
  pub code : ℕ

pub record Rcode : Type 0 where
  pub code : ℕ

-- The associated constants of `RrType`.
abbrev pub constants : List (String × ℕ)
constants =
    ("A", 1)
    ∷ ("NS", 2)
    ∷ ("MD", 3)
    ∷ ("MF", 4)
    ∷ ("CNAME", 5)
    ∷ ("SOA", 6)
    ∷ ("MB", 7)
    ∷ ("MG", 8)
    ∷ ("MR", 9)
    ∷ ("NULL", 10)
    ∷ ("WKS", 11)
    ∷ ("PTR", 12)
    ∷ ("HINFO", 13)
    ∷ ("MINFO", 14)
    ∷ ("MX", 15)
    ∷ ("TXT", 16)
    ∷ ("RP", 17)
    ∷ ("AFSDB", 18)
    ∷ ("SIG", 24)
    ∷ ("KEY", 25)
    ∷ ("AAAA", 28)
    ∷ ("LOC", 29)
    ∷ ("SRV", 33)
    ∷ ("NAPTR", 35)
    ∷ ("KX", 36)
    ∷ ("CERT", 37)
    ∷ ("DNAME", 39)
    ∷ ("OPT", 41)
    ∷ ("APL", 42)
    ∷ ("DS", 43)
    ∷ ("SSHFP", 44)
    ∷ ("IPSECKEY", 45)
    ∷ ("RRSIG", 46)
    ∷ ("NSEC", 47)
    ∷ ("DNSKEY", 48)
    ∷ ("DHCID", 49)
    ∷ ("NSEC3", 50)
    ∷ ("NSEC3PARAM", 51)
    ∷ ("TLSA", 52)
    ∷ ("SMIMEA", 53)
    ∷ ("HIP", 55)
    ∷ ("CDS", 59)
    ∷ ("CDNSKEY", 60)
    ∷ ("OPENPGPKEY", 61)
    ∷ ("CSYNC", 62)
    ∷ ("ZONEMD", 63)
    ∷ ("SVCB", 64)
    ∷ ("HTTPS", 65)
    ∷ ("SPF", 99)
    ∷ ("TKEY", 249)
    ∷ ("TSIG", 250)
    ∷ ("IXFR", 251)
    ∷ ("AXFR", 252)
    ∷ ("ANY", 255)
    ∷ ("URI", 256)
    ∷ ("CAA", 257)
    ∷ ("TA", 32768)
    ∷ ("DLV", 32769)
    ∷ []

-- The arms of `RrType::as_str`.
abbrev pub arms : List (ℕ × String)
arms =
    (1, "A")
    ∷ (2, "NS")
    ∷ (3, "MD")
    ∷ (4, "MF")
    ∷ (5, "CNAME")
    ∷ (6, "SOA")
    ∷ (7, "MB")
    ∷ (8, "MG")
    ∷ (9, "MR")
    ∷ (10, "NULL")
    ∷ (11, "WKS")
    ∷ (12, "PTR")
    ∷ (13, "HINFO")
    ∷ (14, "MINFO")
    ∷ (15, "MX")
    ∷ (16, "TXT")
    ∷ (17, "RP")
    ∷ (18, "AFSDB")
    ∷ (24, "SIG")
    ∷ (25, "KEY")
    ∷ (28, "AAAA")
    ∷ (29, "LOC")
    ∷ (33, "SRV")
    ∷ (35, "NAPTR")
    ∷ (36, "KX")
    ∷ (37, "CERT")
    ∷ (39, "DNAME")
    ∷ (41, "OPT")
    ∷ (42, "APL")
    ∷ (43, "DS")
    ∷ (44, "SSHFP")
    ∷ (45, "IPSECKEY")
    ∷ (46, "RRSIG")
    ∷ (47, "NSEC")
    ∷ (48, "DNSKEY")
    ∷ (49, "DHCID")
    ∷ (50, "NSEC3")
    ∷ (51, "NSEC3PARAM")
    ∷ (52, "TLSA")
    ∷ (53, "SMIMEA")
    ∷ (55, "HIP")
    ∷ (59, "CDS")
    ∷ (60, "CDNSKEY")
    ∷ (61, "OPENPGPKEY")
    ∷ (62, "CSYNC")
    ∷ (63, "ZONEMD")
    ∷ (64, "SVCB")
    ∷ (65, "HTTPS")
    ∷ (99, "SPF")
    ∷ (249, "TKEY")
    ∷ (250, "TSIG")
    ∷ (251, "IXFR")
    ∷ (252, "AXFR")
    ∷ (255, "ANY")
    ∷ (256, "URI")
    ∷ (257, "CAA")
    ∷ (32768, "TA")
    ∷ (32769, "DLV")
    ∷ []

-- The arm that matches a number, or the last one.
unfoldable pub match_arm : List (ℕ × String) → String → ℕ → String
match_arm [] other v = other
match_arm ((n, name) ∷ rest) other v = if n == v then name else match_arm rest other v

unfoldable pub as_str : RrType → String
as_str t = match_arm arms "TYPE" t.code

abbrev between : ℕ → ℕ → ℕ → Bool
between lo hi v = leb lo v && leb v hi

unfoldable pub is_known : RrType → Bool
is_known t =
    between 1 65 t.code
    || between 99 109 t.code
    || between 249 260 t.code
    || between 32768 32769 t.code

unfoldable pub is_rrset_type : RrType → Bool
is_rrset_type t = not (
    t.code == 41
    || t.code == 250
    || t.code == 249
    || t.code == 251
    || t.code == 252
    || t.code == 255)

unfoldable pub permits_compression : RrType → Bool
permits_compression t =
    t.code == 2 || t.code == 5 || t.code == 6 || t.code == 12 || t.code == 15 || t.code == 39

abbrev pub cname : RrType
cname = record { code = 5 }

abbrev pub soa : RrType
soa = record { code = 6 }

abbrev pub dname : RrType
dname = record { code = 39 }

abbrev pub opt : RrType
opt = record { code = 41 }

abbrev pub rrsig : RrType
rrsig = record { code = 46 }

-- What `Display` writes: a name, or `TYPE` and the number.
pub data Shown : Type 0 where
  named : String → Shown
  numbered : String → ℕ → Shown

unfoldable pub display : RrType → Shown
display t =
    if leb t.code 32769 && not (is_known t) && str_eq (as_str t) "TYPE"
    then numbered "TYPE" t.code
    else named (as_str t)
