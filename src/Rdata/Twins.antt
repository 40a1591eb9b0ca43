-- ===== src/Rdata/Twins.antt =====
-- src/rdata.rs: what is written depends on what stands before it only by its length and by the
-- compressor, so that bytes in front can be patched before or after.
use recurse_x.Prelude.{
  ℕ, ◌+◌, true, ◌≡◌, refl, sym, ap, ◌∙◌, Option, none, some, List, ◌++◌, append_assoc, length,
  length-append, take, drop, leb, take-append_length, drop-append_length, arith,
}
use recurse_x.Name.{Name}
use recurse_x.Name.Compress.{
  NameCompressor, write, write_found, write_hit, find_hit, suffix_walk, strip_suffix, pointer_bytes,
  record_all,
}
use recurse_x.Rdata.{
  RData, a, aaaa, cname, dname, ns, ptr, mx, soa, txt, srv, naptr, ds, dnskey, rrsig, nsec, nsec3,
  nsec3param, caa, tlsa, svcb, unknown,
}
use recurse_x.Rdata.ToWire.{Sink, push, put_name, to_wire}
use recurse_x.Rdata.Records.{patch}

-- The two sinks hold the same bytes behind `h` and `g`, and the same compressor.
pub record Twins (h g : List ℕ) (s t : Sink) : Type 0 where
  pub more : List ℕ
  pub comp : s.comp ≡ t.comp
  pub left : s.out ≡ h ++ more
  pub right : t.out ≡ g ++ more

-- The two sides of a write behind `out` and `out'`, and what they have in common.
record Same (out out' : List ℕ) (r r' : NameCompressor × List ℕ) : Type 0 where
  more : List ℕ
  comp : r.0 ≡ r'.0
  left : r.1 ≡ out ++ more
  right : r'.1 ≡ out' ++ more

write_found-Same :
    (c : NameCompressor) (n : Name) (out out' : List ℕ) (suffixes : List (Name × ℕ))
    (r : Option (ℕ × Name × ℕ))
    → length out ≡ length out'
    → Same out out' (write_found c n out suffixes r) (write_found c n out' suffixes r)
unfolding write_found
write_found-Same c n out out' suffixes none e = record {
  more = n.bytes;
  comp = ap (λ l. record_all c l suffixes) e;
  left = refl;
  right = refl;
}
write_found-Same c n out out' suffixes (some (i, suffix, offset)) e =
    by_prefix (strip_suffix n.bytes suffix.bytes) refl
  where
    by_prefix :
        (p : Option (List ℕ))
        → strip_suffix n.bytes suffix.bytes ≡ p
        → Same out out'
            (write_found c n out suffixes (some (i, suffix, offset)))
            (write_found c n out' suffixes (some (i, suffix, offset)))
    by_prefix (some prefix) q = record {
      more = prefix ++ pointer_bytes offset;
      comp = ap (λ l. record_all c l (take i suffixes)) e;
      left = rw (write_hit, q) refl;
      right = rw (write_hit, q) refl;
    }
    by_prefix none q = record {
      more = n.bytes;
      comp = ap (λ l. record_all c l (take i suffixes)) e;
      left = rw (write_hit, q) refl;
      right = rw (write_hit, q) refl;
    }

write-Same :
    (c : NameCompressor) (n : Name) (out out' : List ℕ)
    → length out ≡ length out'
    → Same out out' (write c n out) (write c n out')
unfolding write
write-Same c n out out' e =
    let suffixes = suffix_walk (length n.bytes) (length n.bytes) n in
    write_found-Same c n out out' suffixes (find_hit c.offsets 0 suffixes) e

module _ (h g : List ℕ) (same : length h ≡ length g) where
  pub push-Twins :
      {s t : Sink} (bytes : List ℕ) → Twins h g s t → Twins h g (push s bytes) (push t bytes)
  unfolding push
  push-Twins bytes w = record {
    more = w.more ++ bytes;
    comp = w.comp;
    left = ap (λ x. x ++ bytes) w.left ∙ append_assoc h w.more bytes;
    right = ap (λ x. x ++ bytes) w.right ∙ append_assoc g w.more bytes;
  }

  pub put_name-Twins :
      {s t : Sink} (n : Name) → Twins h g s t → Twins h g (put_name s n) (put_name t n)
  unfolding put_name
  put_name-Twins {s} {t} n w = rw (← w.comp) (by_comp s.comp)
    where
      size : length s.out ≡ length t.out
      size = omega (
        arith,
        ap length w.left,
        ap length w.right,
        length-append h w.more,
        length-append g w.more,
      )

      by_comp :
          (c : Option NameCompressor)
          → Twins h g
              (put_name (record { comp = c; out = s.out }) n)
              (put_name (record { comp = c; out = t.out }) n)
      by_comp (some c) =
          let both = write-Same c n s.out t.out size in
          record {
            more = w.more ++ both.more;
            comp = ap some both.comp;
            left = both.left ∙ ap (λ x. x ++ both.more) w.left ∙ append_assoc h w.more both.more;
            right = both.right ∙ ap (λ x. x ++ both.more) w.right ∙ append_assoc g w.more both.more;
          }
      by_comp none = record {
        more = w.more ++ n.bytes;
        comp = refl;
        left = ap (λ x. x ++ n.bytes) w.left ∙ append_assoc h w.more n.bytes;
        right = ap (λ x. x ++ n.bytes) w.right ∙ append_assoc g w.more n.bytes;
      }

  pub to_wire-Twins :
      {s t : Sink} (r : RData) → Twins h g s t → Twins h g (to_wire r s) (to_wire r t)
  unfolding to_wire
  to_wire-Twins (a octets) w = push-Twins octets w
  to_wire-Twins (aaaa octets) w = push-Twins octets w
  to_wire-Twins (cname n) w = put_name-Twins n w
  to_wire-Twins (dname n) w = put_name-Twins n w
  to_wire-Twins (ns n) w = put_name-Twins n w
  to_wire-Twins (ptr n) w = put_name-Twins n w
  to_wire-Twins (mx p n) w = put_name-Twins n (push-Twins _ w)
  to_wire-Twins (soa m n serial refresh retry expire minimum) w =
      push-Twins _ (put_name-Twins n (put_name-Twins m w))
  to_wire-Twins (txt strings) w = push-Twins _ w
  to_wire-Twins (srv p v q n) w = push-Twins _ (push-Twins _ w)
  to_wire-Twins (naptr o p f v e n) w = push-Twins _ (push-Twins _ w)
  to_wire-Twins (ds k l t d) w = push-Twins _ w
  to_wire-Twins (dnskey f p l k) w = push-Twins _ w
  to_wire-Twins (rrsig t l b o e i k n d) w = push-Twins _ (push-Twins _ (push-Twins _ w))
  to_wire-Twins (nsec n t) w = push-Twins _ (push-Twins _ w)
  to_wire-Twins (nsec3 l f i d n t) w = push-Twins _ w
  to_wire-Twins (nsec3param l f i d) w = push-Twins _ w
  to_wire-Twins (caa f t v) w = push-Twins _ w
  to_wire-Twins (tlsa u e m c) w = push-Twins _ w
  to_wire-Twins (svcb p n params) w = push-Twins _ (push-Twins _ (push-Twins _ w))
  to_wire-Twins (unknown bytes) w = push-Twins _ w

-- Patching the bytes in front of the one gives the other.
pub patch-Twins :
    (front old bytes : List ℕ) (s t : Sink)
    → length old ≡ length bytes
    → Twins (front ++ old) (front ++ bytes) s t
    → patch s.out (length front) bytes ≡ some t.out
unfolding patch
patch-Twins front old bytes s t e w =
    let size : length s.out ≡ length front + length bytes + length w.more =
      omega
        (arith, ap length w.left, length-append (front ++ old) w.more, length-append front old) in
    let inside : leb (length front + length bytes) (length s.out) ≡ true = ground arith in
    let head : take (length front) s.out ≡ front =
      ap (take (length front)) (w.left ∙ append_assoc front old w.more)
      ∙ take-append_length front (old ++ w.more) in
    let behind : length front + length bytes ≡ length (front ++ old) =
      omega (arith, length-append front old) in
    let tail : drop (length front + length bytes) s.out ≡ w.more =
      (λ i. drop (behind i) (w.left i)) ∙ drop-append_length (front ++ old) w.more in
    rw (inside, head, tail) (ap some (sym (w.right ∙ append_assoc front bytes w.more)))
