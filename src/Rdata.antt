-- ===== src/Rdata.antt =====
-- src/rdata.rs: resource records, their data by type, and both directions of the wire format. An
-- address is given by its octets.
pub mod Fields
pub mod Bitmap
pub mod Parse
pub mod ToWire
pub mod Records
pub mod Grows
pub mod Sinks
pub mod Twins
pub mod Readers
pub mod Strings
pub mod Trips
pub mod NameTrips
pub mod Shapes
pub mod RoundTrip
pub mod RecordTrip
use recurse_x.Prelude.{ℕ, Option, none, some, List, [], ◌∷◌, if◌then◌else◌, ◌==◌}
use recurse_x.Name.{Name}
use recurse_x.Qtype.{RrType, RrClass}
use recurse_x.Qtype.Codes.{DnssecAlgorithm, DsDigestType}

pub data RData : Type 0 where
  a : List ℕ → RData
  aaaa : List ℕ → RData
  cname : Name → RData
  dname : Name → RData
  ns : Name → RData
  ptr : Name → RData
  mx : (preference : ℕ) (exchange : Name) → RData
  soa : (mname rname : Name) (serial refresh retry expire minimum : ℕ) → RData
  txt : List (List ℕ) → RData
  srv : (priority weight port : ℕ) (target : Name) → RData
  naptr : (order preference : ℕ) (flags services regexp : List ℕ) (replacement : Name) → RData
  ds :
      (key_tag : ℕ) (algorithm : DnssecAlgorithm) (digest_type : DsDigestType) (digest : List ℕ)
      → RData
  dnskey : (flags protocol : ℕ) (algorithm : DnssecAlgorithm) (public_key : List ℕ) → RData
  rrsig :
      (type_covered : RrType) (algorithm : DnssecAlgorithm)
      (labels original_ttl expiration inception key_tag : ℕ) (signer : Name) (signature : List ℕ)
      → RData
  nsec : (next : Name) (types : List RrType) → RData
  nsec3 : (hash_alg flags iterations : ℕ) (salt next_hashed : List ℕ) (types : List RrType) → RData
  nsec3param : (hash_alg flags iterations : ℕ) (salt : List ℕ) → RData
  caa : (flags : ℕ) (tag value : List ℕ) → RData
  tlsa : (usage selector matching_type : ℕ) (certificate : List ℕ) → RData
  svcb : (priority : ℕ) (target : Name) (params : List (ℕ × List ℕ)) → RData
  unknown : List ℕ → RData

pub record Record : Type 0 where
  pub name : Name
  pub rr_type : RrType
  pub class : RrClass
  pub ttl : ℕ
  pub rdata : RData

-- The arms of the match on the type in `RData::parse`; types that share an arm share a value.
pub data Arm : Type 0 where
  a_arm aaaa_arm cname_arm dname_arm ns_arm ptr_arm mx_arm soa_arm txt_arm srv_arm : Arm
  naptr_arm ds_arm dnskey_arm rrsig_arm nsec_arm nsec3_arm nsec3param_arm caa_arm tlsa_arm : Arm
  svcb_arm other_arm : Arm

unfoldable pub arm_in : List (ℕ × Arm) → ℕ → Arm
arm_in [] code = other_arm
arm_in ((n, arm) ∷ table) code = let rest = arm_in table code in if code == n then arm else rest

-- The types by number, in the order of the match.
abbrev pub arm_table : List (ℕ × Arm)
arm_table =
    (1, a_arm)
    ∷ (28, aaaa_arm)
    ∷ (5, cname_arm)
    ∷ (39, dname_arm)
    ∷ (2, ns_arm)
    ∷ (12, ptr_arm)
    ∷ (15, mx_arm)
    ∷ (6, soa_arm)
    ∷ (16, txt_arm)
    ∷ (33, srv_arm)
    ∷ (35, naptr_arm)
    ∷ (43, ds_arm)
    ∷ (59, ds_arm)
    ∷ (48, dnskey_arm)
    ∷ (60, dnskey_arm)
    ∷ (46, rrsig_arm)
    ∷ (24, rrsig_arm)
    ∷ (47, nsec_arm)
    ∷ (50, nsec3_arm)
    ∷ (51, nsec3param_arm)
    ∷ (257, caa_arm)
    ∷ (52, tlsa_arm)
    ∷ (53, tlsa_arm)
    ∷ (64, svcb_arm)
    ∷ (65, svcb_arm)
    ∷ []

unfoldable pub arm_of : RrType → Arm
arm_of t = arm_in arm_table t.code

unfoldable pub type_hint : RData → Option RrType
type_hint (a _) = some (record { code = 1 })
type_hint (aaaa _) = some (record { code = 28 })
type_hint (cname _) = some (record { code = 5 })
type_hint (dname _) = some (record { code = 39 })
type_hint (ns _) = some (record { code = 2 })
type_hint (ptr _) = some (record { code = 12 })
type_hint (mx _ _) = some (record { code = 15 })
type_hint (soa _ _ _ _ _ _ _) = some (record { code = 6 })
type_hint (txt _) = some (record { code = 16 })
type_hint (srv _ _ _ _) = some (record { code = 33 })
type_hint (naptr _ _ _ _ _ _) = some (record { code = 35 })
type_hint (ds _ _ _ _) = some (record { code = 43 })
type_hint (dnskey _ _ _ _) = some (record { code = 48 })
type_hint (rrsig _ _ _ _ _ _ _ _ _) = some (record { code = 46 })
type_hint (nsec _ _) = some (record { code = 47 })
type_hint (nsec3 _ _ _ _ _ _) = some (record { code = 50 })
type_hint (nsec3param _ _ _ _) = some (record { code = 51 })
type_hint (caa _ _ _) = some (record { code = 257 })
type_hint (tlsa _ _ _ _) = some (record { code = 52 })
type_hint (svcb _ _ _) = some (record { code = 64 })
type_hint (unknown _) = none
