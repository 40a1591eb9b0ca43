-- ===== src/Rdata/NameTrips.antt =====
-- src/rdata.rs: the data of the types that hold a name which is never compressed, read back from the
-- place where it stands.
use recurse_x.Prelude.{
  ℕ, ◌+◌, ◌^◌, ◌≤◌, ◌<◌, ◌≡◌, refl, sym, ap, ◌∙◌, false, none, List, [], ◌∷◌, ◌++◌, append_assoc,
  leb, ltb, length, length-append, All, arith,
}
use recurse_x.Error.{ok, wire_error}
use recurse_x.Wire.{IsByte, usize_limit, to_be_bytes}
use recurse_x.Wire.Holds.{Holds, Holds-left}
use recurse_x.Name.{Name}
use recurse_x.Name.FromWire.{from_wire}
use recurse_x.Qtype.{RrType}
use recurse_x.Qtype.Codes.{DnssecAlgorithm}
use recurse_x.Rdata.{srv, naptr, rrsig, nsec, nsec3, svcb}
use recurse_x.Rdata.Fields.{read_name, name_exact, read_char_string}
use recurse_x.Rdata.Parse.{parse_srv, parse_naptr, parse_rrsig, parse_nsec, parse_nsec3, parse_svcb}
use recurse_x.Rdata.ToWire.{Sink, put_name, char_string, params_wire}
use recurse_x.Rdata.Sinks.{IsName, Within, put_name-PutName}
use recurse_x.Rdata.Readers.{
  need_lem, Holds-byte, Holds-word, Holds-behind, read_u16-Holds, read_u32-Holds, read_byte-Holds,
  tail-Holds, counted-Holds, read_name_lem, name_exact_lem,
}
use recurse_x.Rdata.Strings.{
  IsShort, IsParam, char_string_lem, read_char_string-Holds, svcb_loop-Holds,
}
use recurse_x.Rdata.Trips.{parse_type_bitmap-end}

module _ (buf : List ℕ) (bytes : All IsByte buf) (roomy : length buf + 256 ≤ usize_limit)
    (end pos : ℕ) where
  room : length buf < usize_limit
  room = omega arith

  -- A name that stands in full is read back.
  from_wire-Holds :
      (p : ℕ) (n : Name)
      → IsName n
      → Holds buf p n.bytes
      → from_wire buf p ≡ ok (n, p + length n.bytes)
  unfolding put_name
  from_wire-Holds p n name h =
      let s : Sink = record { comp = none; out = h.front } in
      let w : Within buf (put_name s n) = record {
        later = h.rest;
        split = h.split ∙ sym (append_assoc h.front n.bytes h.rest);
      } in
      let put = put_name-PutName buf bytes roomy s n name tt w in
      let size : length (h.front ++ n.bytes) ≡ p + length n.bytes =
        omega (arith, length-append h.front n.bytes, h.place) in
      rw (h.place) (put.read ∙ ap (λ k. ok (n, k)) (size ∙ ap (λ k. k + length n.bytes) h.place))

  exact-Holds :
      (p : ℕ) (n : Name)
      → IsName n
      → p + length n.bytes ≡ end
      → Holds buf p n.bytes
      → name_exact buf end p ≡ ok (n, end)
  exact-Holds p n name e h =
      name_exact_lem buf room end p n (from_wire-Holds p n name h ∙ ap (λ k. ok (n, k)) e)

  inner-Holds :
      (p q : ℕ) (n : Name) (ys : List ℕ)
      → IsName n
      → q ≡ p + length n.bytes
      → q ≤ end
      → Holds buf p (n.bytes ++ ys)
      → read_name buf end p ≡ ok (n, q)
  inner-Holds p q n ys name e inside h =
      read_name_lem buf room end p q n
        (from_wire-Holds p n name (Holds-left buf p n.bytes ys h) ∙ ap (λ k. ok (n, k)) (sym e))
        inside

  pub srv-Holds :
      (priority weight port : ℕ) (target : Name)
      → priority < 2 ^ 16
      → weight < 2 ^ 16
      → port < 2 ^ 16
      → IsName target
      → pos + (6 + length target.bytes) ≡ end
      → Holds buf pos
          (to_be_bytes 2 priority ++ (to_be_bytes 2 weight ++ (to_be_bytes 2 port ++ target.bytes)))
      → parse_srv buf end pos ≡ ok (srv priority weight port target, end)
  unfolding parse_srv
  srv-Holds priority weight port target b1 b2 b3 name e h =
      let h2 = Holds-word buf pos (pos + 2) 2 priority _ refl h in
      let h4 = Holds-word buf (pos + 2) (pos + 4) 2 weight _ (omega arith) h2 in
      let h6 = Holds-word buf (pos + 4) (pos + 6) 2 port _ (omega arith) h4 in
      rw
        (
          need_lem buf end pos 6 (omega arith),
          read_u16-Holds buf room end pos priority _ b1 (omega arith) h,
          read_u16-Holds buf room end (pos + 2) weight _ b2 (omega arith) h2,
          read_u16-Holds buf room end (pos + 4) port _ b3 (omega arith) h4,
          exact-Holds (pos + 6) target name (omega arith) h6,
        )
        refl

  string-Holds :
      (p q : ℕ) (s ys : List ℕ)
      → IsShort s
      → q ≡ p + 1 + length s
      → q ≤ end
      → Holds buf p (char_string s ++ ys)
      → (read_char_string buf end p ≡ ok (s, q)) × Holds buf q ys
  string-Holds p q s ys short e inside h = (
    read_char_string-Holds buf room end p s ys short (omega arith) h ∙ ap (λ k. ok (s, k)) (sym e),
    Holds-behind buf p q (char_string s) ys (rw (char_string_lem s short) (omega arith)) h,
  )

  pub naptr-Holds :
      (order preference : ℕ) (flags services regexp : List ℕ) (replacement : Name)
      → order < 2 ^ 16
      → preference < 2 ^ 16
      → IsShort flags
      → IsShort services
      → IsShort regexp
      → IsName replacement
      → pos + (7 + length flags + length services + length regexp + length replacement.bytes) ≡ end
      → Holds buf pos (
          to_be_bytes 2 order
          ++ (to_be_bytes 2 preference
              ++ (char_string flags
                  ++ (char_string services ++ (char_string regexp ++ replacement.bytes)))))
      → parse_naptr buf end pos ≡ ok (naptr order preference flags services regexp replacement, end)
  unfolding parse_naptr
  naptr-Holds order preference flags services regexp replacement b1 b2 sf ss sr name e h =
      let h2 = Holds-word buf pos (pos + 2) 2 order _ refl h in
      let h4 = Holds-word buf (pos + 2) (pos + 4) 2 preference _ (omega arith) h2 in
      let p1 = pos + 5 + length flags in
      let p2 = p1 + 1 + length services in
      let p3 = p2 + 1 + length regexp in
      let (r1, k1) = string-Holds (pos + 4) p1 flags _ sf (omega arith) (omega arith) h4 in
      let (r2, k2) = string-Holds p1 p2 services _ ss (omega arith) (omega arith) k1 in
      let (r3, k3) = string-Holds p2 p3 regexp _ sr (omega arith) (omega arith) k2 in
      rw
        (
          need_lem buf end pos 4 (omega arith),
          read_u16-Holds buf room end pos order _ b1 (omega arith) h,
          read_u16-Holds buf room end (pos + 2) preference _ b2 (omega arith) h2,
          r1,
          r2,
          r3,
          exact-Holds p3 replacement name (omega arith) k3,
        )
        refl

  pub nsec-Holds :
      (next : Name)
      → IsName next
      → pos + length next.bytes ≡ end
      → Holds buf pos (next.bytes ++ [])
      → parse_nsec buf end pos ≡ ok (nsec next [], end)
  unfolding parse_nsec
  nsec-Holds next name e h =
      rw (inner-Holds pos end next [] name (sym e) (omega arith) h, parse_type_bitmap-end buf end)
        refl

  pub nsec3-Holds :
      (hash_alg flags iterations : ℕ) (salt next_hashed : List ℕ)
      → iterations < 2 ^ 16
      → IsShort salt
      → IsShort next_hashed
      → pos + (6 + length salt + length next_hashed) ≡ end
      → Holds buf pos (
          hash_alg
          ∷ flags
          ∷ (to_be_bytes 2 iterations ++ (char_string salt ++ (char_string next_hashed ++ []))))
      → parse_nsec3 buf end pos ≡ ok (nsec3 hash_alg flags iterations salt next_hashed [], end)
  unfolding parse_nsec3
  nsec3-Holds hash_alg flags iterations salt next_hashed small short short' e h =
      let h1 = Holds-byte buf pos (pos + 1) hash_alg _ refl h in
      let h2 = Holds-byte buf (pos + 1) (pos + 2) flags _ (omega arith) h1 in
      let h4 : Holds buf (pos + 4) (length salt ∷ (salt ++ (char_string next_hashed ++ []))) =
        rw (char_string_lem salt short) at
          (Holds-word buf (pos + 2) (pos + 4) 2 iterations _ (omega arith) h2) in
      let h5 = Holds-byte buf (pos + 4) (pos + 5) (length salt) _ (omega arith) h4 in
      let p = pos + 5 + length salt in
      let h6 : Holds buf p (length next_hashed ∷ (next_hashed ++ [])) =
        rw (char_string_lem next_hashed short') at (Holds-behind buf (pos + 5) p salt _ refl h5) in
      let h7 = Holds-byte buf p (p + 1) (length next_hashed) _ refl h6 in
      let fine : leb end p ≡ false = ground arith in
      let last : p + 1 + length next_hashed ≡ end = omega arith in
      rw
        (
          need_lem buf end pos 5 (omega arith),
          read_byte-Holds buf room end pos hash_alg _ (omega arith) h,
          read_byte-Holds buf room end (pos + 1) flags _ (omega arith) h1,
          read_u16-Holds buf room end (pos + 2) iterations _ small (omega arith) h2,
          read_byte-Holds buf room end (pos + 4) (length salt) _ (omega arith) h4,
          counted-Holds buf room end (pos + 5) salt _ (wire_error "NSEC3 salt truncated")
              (omega arith) h5,
          fine,
          read_byte-Holds buf room end p (length next_hashed) _ (omega arith) h6,
          counted-Holds buf room end (p + 1) next_hashed []
              (wire_error "NSEC3 next-hashed truncated") (omega arith) h7,
          last,
          parse_type_bitmap-end buf end,
        )
        refl

  pub svcb-Holds :
      (priority : ℕ) (target : Name) (params : List (ℕ × List ℕ))
      → priority < 2 ^ 16
      → IsName target
      → All IsParam params
      → pos + (2 + length target.bytes + length (params_wire params)) ≡ end
      → Holds buf pos (to_be_bytes 2 priority ++ (target.bytes ++ params_wire params))
      → parse_svcb buf end pos ≡ ok (svcb priority target params, end)
  unfolding parse_svcb
  svcb-Holds priority target params small name fits e h =
      let h2 = Holds-word buf pos (pos + 2) 2 priority _ refl h in
      let p = pos + 2 + length target.bytes in
      let k = Holds-behind buf (pos + 2) p target.bytes (params_wire params) refl h2 in
      rw
        (
          need_lem buf end pos 2 (omega arith),
          read_u16-Holds buf room end pos priority _ small (omega arith) h,
          inner-Holds (pos + 2) p target _ name refl (omega arith) h2,
          svcb_loop-Holds buf room end (end + 1) p params fits k (omega arith) (omega arith),
        )
        refl

  pub rrsig-Holds :
      (covered : RrType) (algorithm : DnssecAlgorithm)
      (labels original_ttl expiration inception key_tag : ℕ) (signer : Name) (signature : List ℕ)
      → covered.code < 2 ^ 16
      → original_ttl < 2 ^ 32
      → expiration < 2 ^ 32
      → inception < 2 ^ 32
      → key_tag < 2 ^ 16
      → IsName signer
      → pos + (18 + length signer.bytes + length signature) ≡ end
      → Holds buf pos (
          to_be_bytes 2 covered.code
          ++ (algorithm.code
              ∷ labels
              ∷ (to_be_bytes 4 original_ttl
                  ++ (to_be_bytes 4 expiration
                      ++ (to_be_bytes 4 inception
                          ++ (to_be_bytes 2 key_tag ++ (signer.bytes ++ signature)))))))
      → parse_rrsig buf end pos
        ≡ ok (
          rrsig covered algorithm labels original_ttl expiration inception key_tag signer signature,
          end,
        )
  unfolding parse_rrsig
  rrsig-Holds covered algorithm labels original_ttl expiration inception key_tag signer signature b1
        b2 b3 b4 b5 name e h =
      let h2 = Holds-word buf pos (pos + 2) 2 covered.code _ refl h in
      let h3 = Holds-byte buf (pos + 2) (pos + 3) algorithm.code _ (omega arith) h2 in
      let h4 = Holds-byte buf (pos + 3) (pos + 4) labels _ (omega arith) h3 in
      let h8 = Holds-word buf (pos + 4) (pos + 8) 4 original_ttl _ (omega arith) h4 in
      let h12 = Holds-word buf (pos + 8) (pos + 12) 4 expiration _ (omega arith) h8 in
      let h16 = Holds-word buf (pos + 12) (pos + 16) 4 inception _ (omega arith) h12 in
      let h18 = Holds-word buf (pos + 16) (pos + 18) 2 key_tag _ (omega arith) h16 in
      let p = pos + 18 + length signer.bytes in
      let k = Holds-behind buf (pos + 18) p signer.bytes signature refl h18 in
      let fine : ltb end p ≡ false = ground arith in
      rw
        (
          need_lem buf end pos 18 (omega arith),
          read_u16-Holds buf room end pos covered.code _ b1 (omega arith) h,
          read_byte-Holds buf room end (pos + 2) algorithm.code _ (omega arith) h2,
          read_byte-Holds buf room end (pos + 3) labels _ (omega arith) h3,
          read_u32-Holds buf room end (pos + 4) original_ttl _ b2 (omega arith) h4,
          read_u32-Holds buf room end (pos + 8) expiration _ b3 (omega arith) h8,
          read_u32-Holds buf room end (pos + 12) inception _ b4 (omega arith) h12,
          read_u16-Holds buf room end (pos + 16) key_tag _ b5 (omega arith) h16,
          inner-Holds (pos + 18) p signer _ name refl (omega arith) h18,
          fine,
          tail-Holds buf room end p signature (omega arith) k,
        )
        refl
