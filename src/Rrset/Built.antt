-- ===== src/Rrset/Built.antt =====
-- src/rrset.rs: what `from_records` builds.
use mathlib.Core.Path.{subst}
use Prim.Native.String.{String}
use recurse_x.Prelude.{
  ℕ, ◌≤◌, ◌≡◌, refl, min, Bool, true, false, Bool-cases, inl, inr, ◌&&◌, List, [], ◌∷◌, ltb, leb,
  ◌⊎◌, some, get_elem?, ◌==◌, if◌then◌else◌, length, All, arith,
}
use recurse_x.Error.{ok, fail_if-eq-ok, ok-injective, wire_error}
use recurse_x.Qtype.{RrType}
use recurse_x.Rdata.{Record}
use recurse_x.Rrset.{RrSet, Gathered, gather, u32_max, is_single, from_records}

abbrev pub is_signature : Record → Bool
is_signature r = r.rr_type.code == 46

-- The parts of a list of records: every record stands once, in the order of the list, in the part of
-- its kind.
pub data Parts : List Record → List Record → List Record → Type 0 where
  done : Parts [] [] []
  plain :
      {r : Record} {records ps ss : List Record}
      → is_signature r ≡ false
      → Parts records ps ss
      → Parts (r ∷ records) (r ∷ ps) ss
  signed :
      {r : Record} {records ps ss : List Record}
      → is_signature r ≡ true
      → Parts records ps ss
      → Parts (r ∷ records) ps (r ∷ ss)

-- A TTL that a record of the list has.
pub data HasTtl : ℕ → List Record → Type 0 where
  here : (r : Record) (records : List Record) → HasTtl r.ttl (r ∷ records)
  there : {n : ℕ} (r : Record) {records : List Record} → HasTtl n records → HasTtl n (r ∷ records)

-- The parts of a list of records, and the least TTL.
record IsGathered (ttl : ℕ) (records : List Record) (g : Gathered) : Type 0 where
  start : g.least ≤ ttl
  least : All (λ r. g.least ≤ r.ttl) records
  parts : Parts records g.data_records g.signatures
  attained : (g.least ≡ ttl) ⊎ HasTtl g.least records

-- The least of the TTLs behind a record, with the record's own among them.
attained-min :
    (ttl n : ℕ) (r : Record) (records : List Record)
    → (n ≡ min ttl r.ttl) ⊎ HasTtl n records
    → (n ≡ ttl) ⊎ HasTtl n (r ∷ records)
attained-min ttl n r records (inr later) = inr (there r later)
attained-min ttl n r records (inl e) = elim (Bool-cases (leb ttl r.ttl)) [
  | inl first ↦ inl (ground arith)
  | inr own ↦
      let same : r.ttl ≡ n = ground arith in
      inr (subst (λ n. HasTtl n (r ∷ records)) same (here r records))
]

gather-IsGathered : (ttl : ℕ) (records : List Record) → IsGathered ttl records (gather ttl records)
unfolding gather
gather-IsGathered ttl [] = record {
  start = omega arith;
  least = tt;
  parts = done;
  attained = inl refl;
}
gather-IsGathered ttl (r ∷ records) =
    let rest = gather-IsGathered (min ttl r.ttl) records in
    let bound = rest.start in
    let found = attained-min ttl (gather (min ttl r.ttl) records).least r records rest.attained in
    elim (Bool-cases (r.rr_type.code == 46)) [
      | inl signature ↦ rw signature (record {
        start = omega arith;
        least = (omega arith, rest.least);
        parts = signed signature rest.parts;
        attained = found;
      })
      | inr other ↦ rw other (record {
        start = omega arith;
        least = (omega arith, rest.least);
        parts = plain other rest.parts;
        attained = found;
      })
    ]

-- A bound below a common bound.
below :
    (a b : ℕ) (records : List Record)
    → b ≤ a
    → All (λ r. a ≤ r.ttl) records
    → All (λ r. b ≤ r.ttl) records
below a b [] h all = tt
below a b (r ∷ records) h (this, all) = (omega arith, below a b records h all)

-- The set is named as the first record is, its parts are those of the records, it lives no longer than
-- any of them nor than the limit and just as long as one of them or the limit, and it has one record
-- at most where its type is CNAME or DNAME.
abbrev pub IsBuilt : List Record → ℕ → RrSet → Type 0
IsBuilt records limit s =
    ((first : Record) × (get_elem? records 0 ≡ some first)
      × (s.name ≡ first.name)
      × (s.rr_type ≡ first.rr_type)
      × (s.class ≡ first.class))
    × Parts records s.records s.rrsigs
    × All (λ r. s.ttl ≤ r.ttl) records
    × (s.ttl ≤ limit)
    × (((s.ttl ≡ 0) × All (λ r. u32_max ≤ r.ttl) records)
        ⊎ ((n : ℕ) × HasTtl n records × (s.ttl ≡ min n limit)))
    × (is_single s.rr_type ≡ true → length s.records ≤ 1)

-- The TTL of the set: the limit of 32 bits stands for no TTL at all.
IsGathered-ttl :
    (limit : ℕ) (records : List Record) (g : Gathered)
    → IsGathered u32_max records g
    → ((min (if g.least == u32_max then 0 else g.least) limit ≡ 0)
        × All (λ r. u32_max ≤ r.ttl) records)
      ⊎ ((n : ℕ) × HasTtl n records
          × (min (if g.least == u32_max then 0 else g.least) limit ≡ min n limit))
IsGathered-ttl limit records g is = elim (Bool-cases (g.least == u32_max)) [
  | inl greatest ↦
      rw greatest (inl (omega arith, below g.least u32_max records (ground arith) is.least))
  | inr less ↦
      rw less
        (elim is.attained [ inl same ↦ absurd (ground arith) | inr one ↦ inr (g.least, one, refl) ])
]

module _ (render : RrType → ℕ → String) where
  -- A set that is built from records has the name, type and class of the first one; it holds each
  -- record exactly once and in the order given, the signatures apart from the rest; it lives no longer
  -- than any of them nor than the limit, namely as long as one of the records or the limit allow, or
  -- not at all where no record's TTL is below 2^32 - 1; and it has one record at most where its type is
  -- CNAME or DNAME.
  pub from_records-IsBuilt :
      (records : List Record) (limit : ℕ) (s : RrSet)
      → from_records render records limit ≡ ok s
      → IsBuilt records limit s
  unfolding from_records
  from_records-IsBuilt [] limit s h = cc
  from_records-IsBuilt (first ∷ records) limit s h =
      let g = gather u32_max (first ∷ records) in
      let is = gather-IsGathered u32_max (first ∷ records) in
      let several = ltb 1 (length g.data_records) in
      let ttl : ℕ = if g.least == u32_max then 0 else g.least in
      let (single, built) =
        fail_if-eq-ok (is_single first.rr_type && several)
          (wire_error (render first.rr_type (length g.data_records))) _ h in
      let low : min ttl limit ≤ g.least = ground arith in
      subst (λ s. IsBuilt (first ∷ records) limit s) (ok-injective built)
        (
          (first, refl, refl, refl, refl),
          is.parts,
          below g.least (min ttl limit) (first ∷ records) low is.least,
          omega arith,
          IsGathered-ttl limit (first ∷ records) g is,
          (λ one. ground arith),
        )
