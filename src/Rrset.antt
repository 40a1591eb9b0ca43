-- ===== src/Rrset.antt =====
-- src/rrset.rs: sets of records, the unit of caching. `render` is the text that `format!` makes of the
-- type and the number of records. Time stamps are not negative.
pub mod Built
pub mod Order
mod Tests
use Prim.Native.Nat.{bit_xor}
use Prim.Native.String.{String}
use recurse_x.Prelude.{
  ℕ, ◌+◌, ◌-◌, ◌*◌, ◌%◌, ◌^◌, min, Bool, true, false, ◌&&◌, ◌||◌, Option, none, some, List, [], ◌∷◌,
  ◌++◌, map, ltb, ◌==◌, if◌then◌else◌, length,
}
use recurse_x.Error.{Result, ok, err, ◌>>=◌, ◌>>◌, fail_if, wire_error, internal_error}
use recurse_x.Wire.{to_be_bytes}
use recurse_x.Name.{Name}
use recurse_x.Name as Name
use recurse_x.Qtype.{RrType, RrClass}
use recurse_x.Rdata.{RData, Record, cname, dname, ns}
use recurse_x.Rdata.ToWire.{to_wire}
use recurse_x.Rdata.ToWire as ToWire

pub record RrSet : Type 0 where
  pub name : Name
  pub rr_type : RrType
  pub class : RrClass
  pub records : List Record
  pub rrsigs : List Record
  pub ttl : ℕ
  pub validated : Bool

unfoldable pub new : Name → RrType → RrClass → ℕ → RrSet
new name rr_type class ttl = record {
  name = name;
  rr_type = rr_type;
  class = class;
  records = [];
  rrsigs = [];
  ttl = ttl;
  validated = false;
}

unfoldable pub add_record : RrSet → Record → RrSet
add_record s r = record s { ttl = min s.ttl r.ttl; records = s.records ++ r ∷ [] }

unfoldable pub add_rrsig : RrSet → Record → RrSet
add_rrsig s r = record s { rrsigs = s.rrsigs ++ r ∷ [] }

unfoldable pub len : RrSet → ℕ
len s = length s.records

unfoldable pub is_empty : RrSet → Bool
is_empty s = length s.records == 0

unfoldable pub record_wire_without_ttl : Record → List ℕ
record_wire_without_ttl r =
    let rd = (to_wire r.rdata (record { comp = none; out = [] })).out in
    r.name.bytes
    ++ (to_be_bytes 2 r.rr_type.code
        ++ (to_be_bytes 2 r.class.code
            ++ (0 ∷ 0 ∷ 0 ∷ 0 ∷ (to_be_bytes 2 (length rd % 2 ^ 16) ++ rd))))

-- The order of byte strings, and `Vec::sort` by it.
unfoldable pub bytes_le : List ℕ → List ℕ → Bool
bytes_le [] ys = true
bytes_le (x ∷ xs) [] = false
bytes_le (x ∷ xs) (y ∷ ys) = ltb x y || ((x == y) && bytes_le xs ys)

unfoldable pub insert_item : List ℕ → List (List ℕ) → List (List ℕ)
insert_item item [] = item ∷ []
insert_item item (other ∷ items) =
    let rest = insert_item item items in
    if bytes_le item other then item ∷ other ∷ items else other ∷ rest

unfoldable pub sort_items : List (List ℕ) → List (List ℕ)
sort_items [] = []
sort_items (item ∷ items) = insert_item item (sort_items items)

-- src/prng.rs, `fnv1a_combine`
unfoldable pub fnv1a_combine : ℕ → List ℕ → ℕ
fnv1a_combine h [] = h
fnv1a_combine h (b ∷ bytes) = fnv1a_combine (bit_xor h b * 0x100000001b3 % 2 ^ 64) bytes

unfoldable pub combine_all : ℕ → List (List ℕ) → ℕ
combine_all acc [] = acc
combine_all acc (item ∷ items) = combine_all (fnv1a_combine acc item) items

unfoldable pub fingerprint : RrSet → ℕ
fingerprint s = combine_all 0xcbf29ce484222325 (sort_items (map record_wire_without_ttl s.records))

unfoldable pub same_data : RrSet → RrSet → Bool
same_data s t = (length s.records == length t.records) && (fingerprint s == fingerprint t)

-- `i128::saturating_add`
unfoldable pub expires_at : RrSet → ℕ → ℕ
expires_at s now = min (now + s.ttl * 1000000000) (2 ^ 127 - 1)

unfoldable pub cname_target : List Record → Option Name
cname_target [] = none
cname_target (r ∷ records) =
    let rest = cname_target records in elim r.rdata [ cname n ↦ some n | _ ↦ rest ]

unfoldable pub dname_target : List Record → Option Name
dname_target [] = none
dname_target (r ∷ records) =
    let rest = dname_target records in elim r.rdata [ dname n ↦ some n | _ ↦ rest ]

unfoldable pub ns_names : List Record → List Name
ns_names [] = []
ns_names (r ∷ records) = let rest = ns_names records in elim r.rdata [ ns n ↦ n ∷ rest | _ ↦ rest ]

-- The loop of `from_records`: the least TTL, and the records with the signatures apart.
pub record Gathered : Type 0 where
  pub least : ℕ
  pub data_records : List Record
  pub signatures : List Record

unfoldable pub gather : ℕ → List Record → Gathered
gather ttl [] = record { least = ttl; data_records = []; signatures = [] }
gather ttl (r ∷ records) =
    let rest = gather (min ttl r.ttl) records in
    if r.rr_type.code == 46
    then record rest { signatures = r ∷ rest.signatures }
    else record rest { data_records = r ∷ rest.data_records }

abbrev pub u32_max : ℕ
u32_max = 0xffffffff

-- The types whose sets have one record.
unfoldable pub is_single : RrType → Bool
is_single t = (t.code == 5) || (t.code == 39)

module _ (render : RrType → ℕ → String) where
  unfoldable pub from_records : List Record → ℕ → Result RrSet
  from_records [] max_ttl_cap = err (internal_error "empty RRset construction")
  from_records (first ∷ records) max_ttl_cap =
      let g = gather u32_max (first ∷ records) in
      let ttl = if g.least == u32_max then 0 else g.least in
      (do
        fail_if (is_single first.rr_type && ltb 1 (length g.data_records))
            (wire_error (render first.rr_type (length g.data_records)))
        ok (record {
          name = first.name;
          rr_type = first.rr_type;
          class = first.class;
          records = g.data_records;
          rrsigs = g.signatures;
          ttl = min ttl max_ttl_cap;
          validated = false;
        }))

-- The records' share of the estimate.
unfoldable pub record_bytes : List Record → ℕ
record_bytes [] = 0
record_bytes (r ∷ records) =
    Name.wire_len r.name + 40 + ToWire.wire_len r.rdata + record_bytes records

unfoldable pub estimated_bytes : RrSet → ℕ
estimated_bytes s = Name.wire_len s.name + 24 + record_bytes s.records + record_bytes s.rrsigs
