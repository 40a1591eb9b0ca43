-- ===== src/Rdata/RoundTrip.antt =====
-- src/rdata.rs: what `RData::to_wire` writes into a message is read back by `RData::parse`.
use recurse_x.Prelude.{
  ℕ, ◌+◌, ◌^◌, ◌≤◌, ◌<◌, ◌≡◌, refl, sym, ap, ◌∙◌, false, List, [], ◌∷◌, ◌++◌, append-nil,
  append_assoc, ltb, length, length-append, All, arith,
}
use recurse_x.Error.{ok}
use recurse_x.Wire.{IsByte, usize_limit, to_be_bytes}
use recurse_x.Wire.Reads.{length-to_be_bytes}
use recurse_x.Wire.Holds.{Holds}
use recurse_x.Name.{Name}
use recurse_x.Name.FromWire.{from_wire}
use recurse_x.Rdata.{
  RData, a, aaaa, cname, dname, ns, ptr, mx, soa, txt, srv, naptr, ds, dnskey, rrsig, nsec, nsec3,
  nsec3param, caa, tlsa, svcb, unknown,
}
use recurse_x.Rdata.Bitmap.{bitmap_wire, mark_all, windows_wire, sort, dedup}
use recurse_x.Rdata.Parse.{parse_single, parse_mx, parse_soa, parse_arm}
use recurse_x.Rdata.ToWire.{Sink, push, put_name, to_wire, char_string, strings_wire, params_wire}
use recurse_x.Rdata.Grows.{put_name-Grows}
use recurse_x.Rdata.Sinks.{
  IsName, Within, Within-le, IsSink, put_name-PutName, put_name-IsSink, push-Within, push-Holds,
  push-IsSink,
}
use recurse_x.Rdata.Readers.{
  need_lem, Holds-word, read_u16-Holds, read_u32-Holds, read_name_lem, name_exact_lem,
}
use recurse_x.Rdata.Strings.{IsShort, char_string_lem}
use recurse_x.Rdata.Trips.{
  address-Holds, ds-Holds, dnskey-Holds, tlsa-Holds, caa-Holds, other-Holds, txt-Holds,
  nsec3param-Holds,
}
use recurse_x.Rdata.NameTrips.{
  srv-Holds, naptr-Holds, nsec-Holds, nsec3-Holds, svcb-Holds, rrsig-Holds,
}
use recurse_x.Rdata.Shapes.{arm_for, Fits, Trip, plain-Trip, push-push}

length-char_string : (s : List ℕ) → IsShort s → length (char_string s) ≡ 1 + length s
length-char_string s h = rw (char_string_lem s h) (omega arith)

module _ (buf : List ℕ) (bytes : All IsByte buf) (roomy : length buf + 256 ≤ usize_limit) where
  room : length buf < usize_limit
  room = omega arith

  single-Trip :
      (s : Sink) (n : Name)
      → IsName n
      → IsSink s
      → Within buf (put_name s n)
      → (build : Name → RData)
      → parse_single buf (length (put_name s n).out) build (length s.out)
        ≡ ok (build n, length (put_name s n).out)
  unfolding parse_single
  single-Trip s n name t w build =
      let put = put_name-PutName buf bytes roomy s n name t w in
      rw (name_exact_lem buf room (length (put_name s n).out) (length s.out) n put.read) refl

  mx-Trip :
      (s : Sink) (preference : ℕ) (exchange : Name)
      → preference < 2 ^ 16
      → IsName exchange
      → IsSink s
      → Within buf (to_wire (mx preference exchange) s)
      → Trip buf s (mx preference exchange)
  unfolding to_wire parse_arm arm_for parse_mx
  mx-Trip s preference exchange small name t w =
      let word = to_be_bytes 2 preference in
      let s' = push s word in
      let end = length (put_name s' exchange).out in
      let size : length s'.out ≡ length s.out + 2 =
        unfold push in omega (arith, length-append s.out word, length-to_be_bytes 2 preference) in
      let grows = (put_name-Grows s' exchange).longer in
      let inside = Within-le buf (put_name s' exchange) w in
      let t' = push-IsSink buf s word (omega arith) room t in
      let put = put_name-PutName buf bytes roomy s' exchange name t' w in
      let h = push-Holds buf s word put.before in
      let h' = rw (← append-nil word) at h in
      let read : from_wire buf (length s.out + 2) ≡ ok (exchange, end) = rw (← size) put.read in
      record {
        before = push-Within buf s word put.before;
        sink = put.sink;
        read =
            rw
              (
                need_lem buf end (length s.out) 2 (omega arith),
                read_u16-Holds buf room end (length s.out) preference [] small (omega arith) h',
                name_exact_lem buf room end (length s.out + 2) exchange read,
              )
              refl;
      }

  soa-Trip :
      (s : Sink) (mname rname : Name) (serial refresh retry expire minimum : ℕ)
      → Fits (soa mname rname serial refresh retry expire minimum)
      → IsSink s
      → Within buf (to_wire (soa mname rname serial refresh retry expire minimum) s)
      → Trip buf s (soa mname rname serial refresh retry expire minimum)
  unfolding Fits to_wire parse_arm arm_for parse_soa
  soa-Trip s mname rname serial refresh retry expire minimum (name, name', b1, b2, b3, b4, b5) t w =
      let s1 = put_name s mname in
      let s2 = put_name s1 rname in
      let words =
        to_be_bytes 4 serial
        ++ (to_be_bytes 4 refresh
            ++ (to_be_bytes 4 retry ++ (to_be_bytes 4 expire ++ to_be_bytes 4 minimum))) in
      let end = length (push s2 words).out in
      let p = length s2.out in
      let w2 = push-Within buf s2 words w in
      let h = push-Holds buf s2 words w in
      let inside = Within-le buf (push s2 words) w in
      let size : end ≡ p + 20 =
        unfold push to_be_bytes in omega (arith, length-append s2.out words) in
      let g1 = (put_name-Grows s mname).longer in
      let g2 = (put_name-Grows s1 rname).longer in
      let t1 = put_name-IsSink s mname name (omega arith) t in
      let put' = put_name-PutName buf bytes roomy s1 rname name' t1 w2 in
      let put = put_name-PutName buf bytes roomy s mname name t put'.before in
      let h4 = Holds-word buf p (p + 4) 4 serial _ refl h in
      let h8 = Holds-word buf (p + 4) (p + 8) 4 refresh _ (omega arith) h4 in
      let h12 = Holds-word buf (p + 8) (p + 12) 4 retry _ (omega arith) h8 in
      let h16 : Holds buf (p + 16) (to_be_bytes 4 minimum ++ []) =
        rw (append-nil (to_be_bytes 4 minimum))
          (Holds-word buf (p + 12) (p + 16) 4 expire _ (omega arith) h12) in
      let fine : ltb end (p + 20) ≡ false = ground arith in
      record {
        before = put.before;
        sink = push-IsSink buf s2 words inside room put'.sink;
        read =
            rw
              (
                need_lem buf end (length s.out) 20 (omega arith),
                read_name_lem buf room end (length s.out) (length s1.out) mname put.read
                    (omega arith),
                read_name_lem buf room end (length s1.out) p rname put'.read (omega arith),
                fine,
                read_u32-Holds buf room end p serial _ b1 (omega arith) h,
                read_u32-Holds buf room end (p + 4) refresh _ b2 (omega arith) h4,
                read_u32-Holds buf room end (p + 8) retry _ b3 (omega arith) h8,
                read_u32-Holds buf room end (p + 12) expire _ b4 (omega arith) h12,
                read_u32-Holds buf room end (p + 16) minimum _ b5 (omega arith) h16,
                sym size,
              )
              refl;
      }

  bitmap_wire_nil : bitmap_wire [] ≡ []
  unfolding bitmap_wire mark_all windows_wire sort dedup
  bitmap_wire_nil = refl

  nsec-Trip :
      (s : Sink) (next : Name)
      → IsName next
      → IsSink s
      → Within buf (to_wire (nsec next []) s)
      → Trip buf s (nsec next [])
  unfolding to_wire parse_arm arm_for
  nsec-Trip s next name t w =
      let shape =
        push-push s next.bytes (bitmap_wire [])
        ∙ ap (λ l. push s (next.bytes ++ l)) bitmap_wire_nil in
      plain-Trip buf bytes roomy s (nsec next []) (next.bytes ++ []) shape t w (λ end e h.
        nsec-Holds buf bytes roomy end (length s.out) next name
          (omega (arith, length-append next.bytes [])) h)

  nsec3-Trip :
      (s : Sink) (hash_alg flags iterations : ℕ) (salt next_hashed : List ℕ)
      → iterations < 2 ^ 16
      → IsShort salt
      → IsShort next_hashed
      → IsSink s
      → Within buf (to_wire (nsec3 hash_alg flags iterations salt next_hashed []) s)
      → Trip buf s (nsec3 hash_alg flags iterations salt next_hashed [])
  unfolding to_wire parse_arm arm_for
  nsec3-Trip s hash_alg flags iterations salt next_hashed small short short' t w =
      let wire = λ (l : List ℕ).
        hash_alg
        ∷ flags
        ∷ (to_be_bytes 2 iterations ++ (char_string salt ++ (char_string next_hashed ++ l))) in
      plain-Trip buf bytes roomy s (nsec3 hash_alg flags iterations salt next_hashed []) (wire [])
        (ap (λ l. push s (wire l)) bitmap_wire_nil) t w
        (λ end e h.
          nsec3-Holds buf bytes roomy end (length s.out) hash_alg flags iterations salt next_hashed
            small short short'
            (unfold to_be_bytes in
              omega (
                arith,
                length-append (char_string salt) (char_string next_hashed ++ []),
                length-append (char_string next_hashed) [],
                length-char_string salt short,
                length-char_string next_hashed short',
              ))
            h)

  -- What `RData::to_wire` writes behind a sound sink, whatever follows in the message, is read back by
  -- the arm of its type, field by field and up to its end, for every type of data.
  pub to_wire-Trip :
      (s : Sink) (r : RData) → Fits r → IsSink s → Within buf (to_wire r s) → Trip buf s r
  unfolding Fits to_wire parse_arm arm_for
  to_wire-Trip s (a octets) len t w =
      plain-Trip buf bytes roomy s (a octets) octets refl t w
        (λ end e h. address-Holds buf room end (length s.out) 4 a octets len (omega arith) h)
  to_wire-Trip s (aaaa octets) len t w =
      plain-Trip buf bytes roomy s (aaaa octets) octets refl t w
        (λ end e h. address-Holds buf room end (length s.out) 16 aaaa octets len (omega arith) h)
  to_wire-Trip s (cname n) name t w =
      let put = put_name-PutName buf bytes roomy s n name t w in
      record { before = put.before; sink = put.sink; read = single-Trip s n name t w cname }
  to_wire-Trip s (dname n) name t w =
      let put = put_name-PutName buf bytes roomy s n name t w in
      record { before = put.before; sink = put.sink; read = single-Trip s n name t w dname }
  to_wire-Trip s (ns n) name t w =
      let put = put_name-PutName buf bytes roomy s n name t w in
      record { before = put.before; sink = put.sink; read = single-Trip s n name t w ns }
  to_wire-Trip s (ptr n) name t w =
      let put = put_name-PutName buf bytes roomy s n name t w in
      record { before = put.before; sink = put.sink; read = single-Trip s n name t w ptr }
  to_wire-Trip s (mx preference exchange) (small, name) t w =
      mx-Trip s preference exchange small name t w
  to_wire-Trip s (soa mname rname serial refresh retry expire minimum) fits t w =
      soa-Trip s mname rname serial refresh retry expire minimum fits t w
  to_wire-Trip s (txt strings) short t w =
      plain-Trip buf bytes roomy s (txt strings) (strings_wire strings) refl t w
        (λ end e h. txt-Holds buf room end (length s.out) strings short e h)
  to_wire-Trip s (srv priority weight port target) (b1, b2, b3, name) t w =
      plain-Trip buf bytes roomy s (srv priority weight port target)
        (to_be_bytes 2 priority ++ (to_be_bytes 2 weight ++ (to_be_bytes 2 port ++ target.bytes)))
        (push-push s (to_be_bytes 2 priority ++ (to_be_bytes 2 weight ++ to_be_bytes 2 port))
            target.bytes
          ∙ (unfold to_be_bytes in refl))
        t w
        (λ end e h.
          srv-Holds buf bytes roomy end (length s.out) priority weight port target b1 b2 b3 name
            (unfold to_be_bytes in omega arith) h)
  to_wire-Trip s (naptr order preference flags services regexp replacement)
        (b1, b2, sf, ss, sr, name) t w =
      let strings = char_string flags ++ (char_string services ++ char_string regexp) in
      let strings' =
        char_string flags ++ (char_string services ++ (char_string regexp ++ replacement.bytes)) in
      let words = λ (l : List ℕ). to_be_bytes 2 order ++ (to_be_bytes 2 preference ++ l) in
      let split : words strings ++ replacement.bytes ≡ words (strings ++ replacement.bytes) =
        unfold to_be_bytes in refl in
      let shape : push (push s (words strings)) replacement.bytes ≡ push s (words strings') =
        push-push s (words strings) replacement.bytes
        ∙ ap (λ l. push s l)
            (split
              ∙ ap words (
                  append_assoc (char_string flags) (char_string services ++ char_string regexp)
                    replacement.bytes
                  ∙ ap (λ l. char_string flags ++ l)
                      (append_assoc (char_string services) (char_string regexp)
                        replacement.bytes))) in
      plain-Trip buf bytes roomy s (naptr order preference flags services regexp replacement)
        (words strings') shape t w
        (λ end e h.
          naptr-Holds buf bytes roomy end (length s.out) order preference flags services regexp
            replacement b1 b2 sf ss sr name
            (unfold to_be_bytes in
              omega (
                arith,
                length-append (char_string flags)
                    (char_string services ++ (char_string regexp ++ replacement.bytes)),
                length-append (char_string services) (char_string regexp ++ replacement.bytes),
                length-append (char_string regexp) replacement.bytes,
                length-char_string flags sf,
                length-char_string services ss,
                length-char_string regexp sr,
              ))
            h)
  to_wire-Trip s (ds key_tag algorithm digest_type digest) small t w =
      plain-Trip buf bytes roomy s (ds key_tag algorithm digest_type digest)
        (to_be_bytes 2 key_tag ++ (algorithm.code ∷ digest_type.code ∷ digest)) refl t w
        (λ end e h.
          ds-Holds buf room end (length s.out) key_tag algorithm digest_type digest small
            (unfold to_be_bytes in omega arith) h)
  to_wire-Trip s (dnskey flags protocol algorithm public_key) small t w =
      plain-Trip buf bytes roomy s (dnskey flags protocol algorithm public_key)
        (to_be_bytes 2 flags ++ (protocol ∷ algorithm.code ∷ public_key)) refl t w
        (λ end e h.
          dnskey-Holds buf room end (length s.out) flags protocol algorithm public_key small
            (unfold to_be_bytes in omega arith) h)
  to_wire-Trip s
        (rrsig covered algorithm labels original_ttl expiration inception key_tag signer signature)
        (b1, b2, b3, b4, b5, name) t w =
      let words = λ (l : List ℕ).
        to_be_bytes 2 covered.code
        ++ (algorithm.code
            ∷ labels
            ∷ (to_be_bytes 4 original_ttl
                ++ (to_be_bytes 4 expiration
                    ++ (to_be_bytes 4 inception ++ (to_be_bytes 2 key_tag ++ l))))) in
      let r =
        rrsig covered algorithm labels original_ttl expiration inception key_tag signer signature in
      let start =
        to_be_bytes 2 covered.code
        ++ (algorithm.code
            ∷ labels
            ∷ (to_be_bytes 4 original_ttl
                ++ (to_be_bytes 4 expiration
                    ++ (to_be_bytes 4 inception ++ to_be_bytes 2 key_tag)))) in
      let shape : to_wire r s ≡ push s (words (signer.bytes ++ signature)) =
        push-push (push s start) signer.bytes signature
        ∙ push-push s start (signer.bytes ++ signature)
        ∙ (unfold to_be_bytes in refl) in
      plain-Trip buf bytes roomy s r (words (signer.bytes ++ signature)) shape t w (λ end e h.
        rrsig-Holds buf bytes roomy end (length s.out) covered algorithm labels original_ttl
          expiration inception key_tag signer signature b1 b2 b3 b4 b5 name
          (unfold to_be_bytes in omega (arith, length-append signer.bytes signature)) h)
  to_wire-Trip s (nsec next types) (name, none_left) t w =
      rw none_left (nsec-Trip s next name t (rw none_left at w))
  to_wire-Trip s (nsec3 hash_alg flags iterations salt next_hashed types)
        (small, short, short', none_left) t w =
      rw none_left (
        nsec3-Trip s hash_alg flags iterations salt next_hashed small short short' t
          (rw none_left at w))
  to_wire-Trip s (nsec3param hash_alg flags iterations salt) (small, short) t w =
      plain-Trip buf bytes roomy s (nsec3param hash_alg flags iterations salt)
        (hash_alg ∷ flags ∷ (to_be_bytes 2 iterations ++ char_string salt)) refl t w
        (λ end e h.
          nsec3param-Holds buf room end (length s.out) hash_alg flags iterations salt small short
            (unfold to_be_bytes in omega (arith, length-char_string salt short)) h)
  to_wire-Trip s (caa flags tag value) short t w =
      plain-Trip buf bytes roomy s (caa flags tag value) (flags ∷ (char_string tag ++ value)) refl t
        w
        (λ end e h.
          caa-Holds buf room end (length s.out) flags tag value short
            (omega (arith, length-char_string tag short, length-append (char_string tag) value)) h)
  to_wire-Trip s (tlsa usage selector matching_type certificate) fits t w =
      plain-Trip buf bytes roomy s (tlsa usage selector matching_type certificate)
        (usage ∷ selector ∷ matching_type ∷ certificate) refl t w
        (λ end e h.
          tlsa-Holds buf room end (length s.out) usage selector matching_type certificate
            (omega arith) h)
  to_wire-Trip s (svcb priority target params) (small, name, fits) t w =
      let word = to_be_bytes 2 priority in
      let shape =
        push-push (push s word) target.bytes (params_wire params)
        ∙ push-push s word (target.bytes ++ params_wire params) in
      plain-Trip buf bytes roomy s (svcb priority target params)
        (word ++ (target.bytes ++ params_wire params)) shape t w
        (λ end e h.
          svcb-Holds buf bytes roomy end (length s.out) priority target params small name fits
            (unfold to_be_bytes in omega (arith, length-append target.bytes (params_wire params)))
            h)
  to_wire-Trip s (unknown content) fits t w =
      plain-Trip buf bytes roomy s (unknown content) content refl t w
        (λ end e h. other-Holds buf room end (length s.out) content e h)
