-- ===== src/Rdata/Trips.antt =====
-- src/rdata.rs: the data of the types without a name, read back from the place where it stands.
use recurse_x.Prelude.{
  ℕ, suc, ◌+◌, ◌^◌, ◌<◌, ◌≡◌, refl, false, List, [], ◌∷◌, ◌++◌, append-nil, ltb, length, All, arith,
}
use recurse_x.Error.{ok, wire_error}
use recurse_x.Wire.{usize_limit, to_be_bytes}
use recurse_x.Wire.Holds.{Holds, array_at-Holds}
use recurse_x.Qtype.Codes.{DnssecAlgorithm, DsDigestType}
use recurse_x.Rdata.{RData, ds, dnskey, nsec3param, caa, tlsa, txt, unknown}
use recurse_x.Rdata.Bitmap.{parse_type_bitmap, bitmap_loop}
use recurse_x.Rdata.Parse.{
  parse_address, parse_ds, parse_dnskey, parse_nsec3param, parse_caa, parse_tlsa, parse_txt,
  parse_other,
}
use recurse_x.Rdata.ToWire.{char_string, strings_wire}
use recurse_x.Rdata.Readers.{
  need_lem, Holds-byte, Holds-word, Holds-behind, read_u16-Holds, read_byte-Holds, tail-Holds,
  counted-Holds,
}
use recurse_x.Rdata.Strings.{IsShort, char_string_lem, txt_loop-Holds}

-- There is no bitmap at the end.
pub parse_type_bitmap-end : (buf : List ℕ) (end : ℕ) → parse_type_bitmap buf end end ≡ ok ([], end)
unfolding parse_type_bitmap bitmap_loop
parse_type_bitmap-end buf end =
    let over : ltb end end ≡ false = ground arith in
    let fuel : end + 1 ≡ suc end = omega arith in rw (fuel, bitmap_loop, over) refl

module _ (buf : List ℕ) (room : length buf < usize_limit) (end pos : ℕ) where
  pub address-Holds :
      (n : ℕ) (build : List ℕ → RData) (octets : List ℕ)
      → length octets ≡ n
      → pos + n ≡ end
      → Holds buf pos octets
      → parse_address buf end n build pos ≡ ok (build octets, end)
  unfolding parse_address
  address-Holds n build octets len e h =
      let read = array_at-Holds buf room pos octets h in
      rw (need_lem buf end pos n (omega arith), (rw len at read), e) refl

  pub ds-Holds :
      (key_tag : ℕ) (algorithm : DnssecAlgorithm) (digest_type : DsDigestType) (digest : List ℕ)
      → key_tag < 2 ^ 16
      → pos + (4 + length digest) ≡ end
      → Holds buf pos (to_be_bytes 2 key_tag ++ (algorithm.code ∷ digest_type.code ∷ digest))
      → parse_ds buf end pos ≡ ok (ds key_tag algorithm digest_type digest, end)
  unfolding parse_ds
  ds-Holds key_tag algorithm digest_type digest small e h =
      let h2 = Holds-word buf pos (pos + 2) 2 key_tag _ refl h in
      let h3 = Holds-byte buf (pos + 2) (pos + 3) algorithm.code _ (omega arith) h2 in
      let h4 = Holds-byte buf (pos + 3) (pos + 4) digest_type.code _ (omega arith) h3 in
      let fine : ltb end (pos + 4) ≡ false = ground arith in
      rw
        (
          need_lem buf end pos 4 (omega arith),
          read_u16-Holds buf room end pos key_tag _ small (omega arith) h,
          read_byte-Holds buf room end (pos + 2) algorithm.code _ (omega arith) h2,
          read_byte-Holds buf room end (pos + 3) digest_type.code _ (omega arith) h3,
          fine,
          tail-Holds buf room end (pos + 4) digest (omega arith) h4,
        )
        refl

  pub dnskey-Holds :
      (flags protocol : ℕ) (algorithm : DnssecAlgorithm) (public_key : List ℕ)
      → flags < 2 ^ 16
      → pos + (4 + length public_key) ≡ end
      → Holds buf pos (to_be_bytes 2 flags ++ (protocol ∷ algorithm.code ∷ public_key))
      → parse_dnskey buf end pos ≡ ok (dnskey flags protocol algorithm public_key, end)
  unfolding parse_dnskey
  dnskey-Holds flags protocol algorithm public_key small e h =
      let h2 = Holds-word buf pos (pos + 2) 2 flags _ refl h in
      let h3 = Holds-byte buf (pos + 2) (pos + 3) protocol _ (omega arith) h2 in
      let h4 = Holds-byte buf (pos + 3) (pos + 4) algorithm.code _ (omega arith) h3 in
      let fine : ltb end (pos + 4) ≡ false = ground arith in
      rw
        (
          need_lem buf end pos 4 (omega arith),
          read_u16-Holds buf room end pos flags _ small (omega arith) h,
          read_byte-Holds buf room end (pos + 2) protocol _ (omega arith) h2,
          read_byte-Holds buf room end (pos + 3) algorithm.code _ (omega arith) h3,
          fine,
          tail-Holds buf room end (pos + 4) public_key (omega arith) h4,
        )
        refl

  pub tlsa-Holds :
      (usage selector matching_type : ℕ) (certificate : List ℕ)
      → pos + (3 + length certificate) ≡ end
      → Holds buf pos (usage ∷ selector ∷ matching_type ∷ certificate)
      → parse_tlsa buf end pos ≡ ok (tlsa usage selector matching_type certificate, end)
  unfolding parse_tlsa
  tlsa-Holds usage selector matching_type certificate e h =
      let h1 = Holds-byte buf pos (pos + 1) usage _ refl h in
      let h2 = Holds-byte buf (pos + 1) (pos + 2) selector _ (omega arith) h1 in
      let h3 = Holds-byte buf (pos + 2) (pos + 3) matching_type _ (omega arith) h2 in
      rw
        (
          need_lem buf end pos 3 (omega arith),
          read_byte-Holds buf room end pos usage _ (omega arith) h,
          read_byte-Holds buf room end (pos + 1) selector _ (omega arith) h1,
          read_byte-Holds buf room end (pos + 2) matching_type _ (omega arith) h2,
          tail-Holds buf room end (pos + 3) certificate (omega arith) h3,
        )
        refl

  pub caa-Holds :
      (flags : ℕ) (tag value : List ℕ)
      → IsShort tag
      → pos + (2 + length tag + length value) ≡ end
      → Holds buf pos (flags ∷ (char_string tag ++ value))
      → parse_caa buf end pos ≡ ok (caa flags tag value, end)
  unfolding parse_caa
  caa-Holds flags tag value short e h =
      let h1 : Holds buf (pos + 1) (length tag ∷ (tag ++ value)) =
        rw (char_string_lem tag short) at (Holds-byte buf pos (pos + 1) flags _ refl h) in
      let h2 = Holds-byte buf (pos + 1) (pos + 2) (length tag) _ (omega arith) h1 in
      let h3 = Holds-behind buf (pos + 2) (pos + 2 + length tag) tag value refl h2 in
      rw
        (
          need_lem buf end pos 2 (omega arith),
          read_byte-Holds buf room end pos flags _ (omega arith) h,
          read_byte-Holds buf room end (pos + 1) (length tag) _ (omega arith) h1,
          counted-Holds buf room end (pos + 2) tag value (wire_error "CAA tag truncated")
              (omega arith) h2,
          tail-Holds buf room end (pos + 2 + length tag) value (omega arith) h3,
        )
        refl

  pub other-Holds :
      (bytes : List ℕ)
      → pos + length bytes ≡ end
      → Holds buf pos bytes
      → parse_other buf end pos ≡ ok (unknown bytes, end)
  unfolding parse_other
  other-Holds bytes e h = rw (tail-Holds buf room end pos bytes e h) refl

  pub txt-Holds :
      (strings : List (List ℕ))
      → All IsShort strings
      → pos + length (strings_wire strings) ≡ end
      → Holds buf pos (strings_wire strings)
      → parse_txt buf end pos ≡ ok (txt strings, end)
  unfolding parse_txt
  txt-Holds strings short e h =
      rw (txt_loop-Holds buf room end (end + 1) pos strings short h e (omega arith)) refl

  pub nsec3param-Holds :
      (hash_alg flags iterations : ℕ) (salt : List ℕ)
      → iterations < 2 ^ 16
      → IsShort salt
      → pos + (5 + length salt) ≡ end
      → Holds buf pos (hash_alg ∷ flags ∷ (to_be_bytes 2 iterations ++ char_string salt))
      → parse_nsec3param buf end pos ≡ ok (nsec3param hash_alg flags iterations salt, end)
  unfolding parse_nsec3param
  nsec3param-Holds hash_alg flags iterations salt small short e h =
      let h1 = Holds-byte buf pos (pos + 1) hash_alg _ refl h in
      let h2 = Holds-byte buf (pos + 1) (pos + 2) flags _ (omega arith) h1 in
      let h4 : Holds buf (pos + 4) (length salt ∷ salt) =
        rw (char_string_lem salt short) at
          (Holds-word buf (pos + 2) (pos + 4) 2 iterations (char_string salt) (omega arith) h2) in
      let h5 : Holds buf (pos + 5) (salt ++ []) =
        rw (append-nil salt)
          (Holds-byte buf (pos + 4) (pos + 5) (length salt) salt (omega arith) h4) in
      let last : pos + 5 + length salt ≡ end = omega arith in
      rw
        (
          need_lem buf end pos 5 (omega arith),
          read_byte-Holds buf room end pos hash_alg _ (omega arith) h,
          read_byte-Holds buf room end (pos + 1) flags _ (omega arith) h1,
          read_u16-Holds buf room end (pos + 2) iterations _ small (omega arith) h2,
          read_byte-Holds buf room end (pos + 4) (length salt) _ (omega arith) h4,
          counted-Holds buf room end (pos + 5) salt [] (wire_error "NSEC3PARAM salt truncated")
              (omega arith) h5,
          last,
        )
        refl
