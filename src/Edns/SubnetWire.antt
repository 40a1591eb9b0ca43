-- ===== src/Edns/SubnetWire.antt =====
-- src/edns.rs: the client-subnet option on the wire. What is written is read back, and only what is
-- written is read.
use recurse_x.Prelude.{
  ℕ, ◌+◌, ◌*◌, ◌/◌, ◌%◌, ◌^◌, ◌≤◌, ◌<◌, ◌≡◌, refl, sym, ap, false, not, ◌||◌, List, [], ◌∷◌, ◌++◌,
  ltb, ◌==◌, length, All, arith,
}
use recurse_x.Error.{Result, ok, err, ◌>>=◌, ◌>>◌, fail_if, wire_error, fail_if-eq-ok, ok-injective}
use recurse_x.Wire.{usize_limit, IsByte, byte_at, rest_at, to_be_bytes, u16_at}
use recurse_x.Wire.Holds.{u16_at-Holds, rest_at-Holds}
use recurse_x.Edns.Subnet.{Ecs, octets_of, max_prefix, stray_bits, last, parse, to_wire}

-- What RFC 7871 asks of the option: a known family, prefixes within it, as many octets as the
-- prefix takes, and no bit set beyond it.
pub record IsCanonical (e : Ecs) : Type 0 where
  pub most : ℕ
  pub known : max_prefix e.family ≡ ok most
  pub source_fits : e.source_prefix ≤ most
  pub scope_fits : e.scope_prefix ≤ most
  pub size : length e.address ≡ octets_of e.source_prefix
  pub clean : stray_bits e.source_prefix (last e.address) ≡ false

max_prefix-le : (f : ℕ) {m : ℕ} → max_prefix f ≡ ok m → (f < 2 ^ 16) × (m ≤ 128)
unfolding max_prefix
max_prefix-le f h = ground arith

-- What a canonical option writes is parsed back.
pub parse-to_wire : (e : Ecs) → IsCanonical e → parse (to_wire e) ≡ ok e
unfolding parse
parse-to_wire e c =
    let buf = to_wire e in
    let (family_fits, most_fits) = max_prefix-le e.family c.known in
    let head = to_be_bytes 2 e.family in
    let size : length buf ≡ 4 + length e.address = unfold to_wire to_be_bytes in omega arith in
    let room : length buf < usize_limit = omega (arith, c.size, c.source_fits) in
    let family : u16_at buf 0 ≡ ok e.family = u16_at-Holds buf room 0 e.family family_fits (record {
      front = [];
      rest = e.source_prefix ∷ e.scope_prefix ∷ e.address;
      split = unfold to_wire to_be_bytes in refl;
      place = refl;
    }) in
    let source : byte_at buf 2 ≡ ok e.source_prefix = unfold to_wire to_be_bytes byte_at in refl in
    let scope : byte_at buf 3 ≡ ok e.scope_prefix = unfold to_wire to_be_bytes byte_at in refl in
    let address : rest_at buf 4 ≡ ok e.address =
      unfold to_wire to_be_bytes in
      rest_at-Holds
        ((e.family / 256 % 256) ∷ (e.family / 1 % 256) ∷ e.source_prefix ∷ e.scope_prefix ∷ [])
        e.address 4 refl in
    let long : ltb (length buf) 4 ≡ false = ground arith in
    let within : (ltb c.most e.source_prefix || ltb c.most e.scope_prefix) ≡ false =
      ground (arith, c.source_fits, c.scope_fits) in
    let exact : not (length buf == 4 + octets_of e.source_prefix) ≡ false =
      ground (arith, c.size) in
    rw (long, family, source, scope, c.known, within, exact, address, c.clean) refl

-- What the checks of the parser let through, the fields being read.
checks-eq-ok :
    (n family source scope : ℕ) (address : List ℕ) (limit : Result ℕ) {e : Ecs}
    → (limit >>= λ most.
        fail_if (ltb most source || ltb most scope) (wire_error "ECS prefix out of range")
        >> (fail_if (not (n == 4 + octets_of source)) (wire_error "ECS address length mismatch")
            >> (fail_if (stray_bits source (last address)) (wire_error "ECS non-canonical address")
                >> ok (record {
                  family = family;
                  source_prefix = source;
                  scope_prefix = scope;
                  address = address;
                }))))
      ≡ ok e
    → (most : ℕ) × (limit ≡ ok most)
      × (source ≤ most)
      × (scope ≤ most)
      × (n ≡ 4 + octets_of source)
      × (stray_bits source (last address) ≡ false)
      × (e ≡ record {
        family = family;
        source_prefix = source;
        scope_prefix = scope;
        address = address;
      })
checks-eq-ok n family source scope address (err e) h = cc
checks-eq-ok n family source scope address (ok most) h =
    let (within, h') = fail_if-eq-ok (ltb most source || ltb most scope) _ _ h in
    let (exact, h'') = fail_if-eq-ok (not (n == 4 + octets_of source)) _ _ h' in
    let (clean, found) = fail_if-eq-ok (stray_bits source (last address)) _ _ h'' in
    (most, refl, ground arith, ground arith, ground arith, clean, sym (ok-injective found))

-- Only what a canonical option writes is parsed.
pub to_wire-parse :
    (bytes : List ℕ) {e : Ecs}
    → All IsByte bytes
    → length bytes < usize_limit
    → parse bytes ≡ ok e
    → (to_wire e ≡ bytes) × IsCanonical e
unfolding parse
to_wire-parse (a ∷ b ∷ c ∷ d ∷ r) {e} (ha, (hb, _)) room h =
    let buf = a ∷ b ∷ c ∷ d ∷ r in
    let family = a * 256 + b in
    let high : family / 256 ^ 1 % 256 ≡ a = omega arith in
    let low : family / 256 ^ 0 % 256 ≡ b = omega arith in
    let word : a ∷ b ∷ [] ≡ to_be_bytes 2 family = unfold to_be_bytes in rw (high, low) in
    let f : u16_at buf 0 ≡ ok family = u16_at-Holds buf room 0 family (omega arith) (record {
      front = [];
      rest = c ∷ d ∷ r;
      split = ap (λ t. t ++ c ∷ d ∷ r) word;
      place = refl;
    }) in
    let s : byte_at buf 2 ≡ ok c = unfold byte_at in refl in
    let t : byte_at buf 3 ≡ ok d = unfold byte_at in refl in
    let ad : rest_at buf 4 ≡ ok r = rest_at-Holds (a ∷ b ∷ c ∷ d ∷ []) r 4 refl in
    let long : ltb (length buf) 4 ≡ false = ground arith in
    let (most, known, source_fits, scope_fits, size, clean, found) =
      checks-eq-ok (length buf) family c d r (max_prefix family) (rw (long, f, s, t, ad) at h) in
    rw found (
      unfold to_wire in sym (ap (λ t. t ++ c ∷ d ∷ r) word),
      record {
        most = most;
        known = known;
        source_fits = source_fits;
        scope_fits = scope_fits;
        size = omega arith;
        clean = clean;
      },
    )
to_wire-parse (a ∷ b ∷ c ∷ []) h room p = cc
to_wire-parse (a ∷ b ∷ []) h room p = cc
to_wire-parse (a ∷ []) h room p = cc
to_wire-parse [] h room p = cc
