-- ===== src/Message/Chains.antt =====
-- src/message.rs: the writers of a message extend the buffer, and what they add does not depend on the
-- bytes in front, so that the counts can be patched in the end.
use recurse_x.Prelude.{
  ℕ, ◌≡◌, refl, sym, ap, ◌∙◌, Option, none, some, List, [], ◌∷◌, ◌++◌, append-nil, append_assoc,
  length, length-append, arith,
}
use recurse_x.Error.{ok, >>=-eq-ok, ok-injective}
use recurse_x.Edns.{Edns}
use recurse_x.Name.{root}
use recurse_x.Rdata.{Record}
use recurse_x.Rdata.ToWire.{Sink}
use recurse_x.Rdata.Records.{put_header}
use recurse_x.Rdata.Records as Records
use recurse_x.Rdata.Grows.{rdata_size, to_wire-total}
use recurse_x.Rdata.Sinks.{Within}
use recurse_x.Rdata.Twins.{Twins, push-Twins, put_name-Twins, to_wire-Twins}
use recurse_x.Rdata.RecordTrip.{whole, to_wire-whole}
use recurse_x.Message.Sections.{Question}
use recurse_x.Message.ToBytes.{put_questions, put_records, put_edns}

module _ (h g : List ℕ) (same : length h ≡ length g) where
  length-Twins : {s t : Sink} → Twins h g s t → length s.out ≡ length t.out
  length-Twins w = omega (
    arith,
    same,
    ap length w.left,
    ap length w.right,
    length-append h w.more,
    length-append g w.more,
  )

  put_header-Twins :
      {s t : Sink} (r : Record) → Twins h g s t → Twins h g (put_header r s) (put_header r t)
  unfolding put_header
  put_header-Twins r w = push-Twins h g same _ (put_name-Twins h g same r.name w)

  whole-Twins :
      {s t : Sink} (r : Record) (size : ℕ)
      → Twins h g s t
      → Twins h g (whole r s size) (whole r t size)
  whole-Twins r size w =
      to_wire-Twins h g same r.rdata (push-Twins h g same _ (put_header-Twins r w))

  rdata_size-Twins : {s t : Sink} (r : Record) → Twins h g s t → rdata_size r s ≡ rdata_size r t
  rdata_size-Twins r w =
      let header = put_header-Twins r w in
      let body = to_wire-Twins h g same r.rdata (push-Twins h g same (0 ∷ 0 ∷ []) header) in
      omega (arith, length-Twins header, length-Twins body)

  -- A record that is written behind the one is written behind the other.
  record-Twins :
      {s t : Sink} (r : Record) (s' : Sink)
      → Twins h g s t
      → Records.to_wire r s ≡ ok s'
      → (t' : Sink) × (Records.to_wire r t ≡ ok t') × Twins h g s' t'
  record-Twins {s} {t} r s' w e =
      let (small, here, _) = to_wire-whole r s s' e in
      let sizes = rdata_size-Twins r w in
      let (t', e', _) = (to_wire-total r t).0 (omega arith) in
      let (_, there, _) = to_wire-whole r t t' e' in
      (t', e', rw (here, there, ← sizes) (whole-Twins r (rdata_size r s) w))

  pub put_records-Twins :
      (records : List Record) {s t : Sink} (s' : Sink)
      → Twins h g s t
      → put_records records s ≡ ok s'
      → (t' : Sink) × (put_records records t ≡ ok t') × Twins h g s' t'
  unfolding put_records
  put_records-Twins [] {s} {t} s' w e = (t, refl, rw (← ok-injective e) w)
  put_records-Twins (r ∷ records) {s} {t} s' w e =
      let (s1, first, rest) = >>=-eq-ok (Records.to_wire r s) (put_records records) e in
      let (t1, first', w1) = record-Twins r s1 w first in
      let (t', rest', w') = put_records-Twins records s' w1 rest in (t', rw first' rest', w')

  pub put_questions-Twins :
      (questions : List Question) {s t : Sink}
      → Twins h g s t
      → Twins h g (put_questions questions s) (put_questions questions t)
  unfolding put_questions
  put_questions-Twins [] w = w
  put_questions-Twins (q ∷ questions) w =
      put_questions-Twins questions (push-Twins h g same _ (put_name-Twins h g same q.qname w))

  pub put_edns-Twins :
      {s t : Sink} (e : Option Edns) → Twins h g s t → Twins h g (put_edns e s) (put_edns e t)
  unfolding put_edns
  put_edns-Twins none w = w
  put_edns-Twins (some e) w = push-Twins h g same _ (put_name-Twins h g same root w)

-- A sink and itself.
self : (s : Sink) → Twins s.out s.out s s
self s = record {
  more = [];
  comp = refl;
  left = sym (append-nil s.out);
  right = sym (append-nil s.out);
}

module _ (buf : List ℕ) where
  Within-Twins : (s t u : Sink) → Twins s.out s.out t u → Within buf t → Within buf s
  Within-Twins s t u w at_end = record {
    later = w.more ++ at_end.later;
    split =
        at_end.split ∙ ap (λ x. x ++ at_end.later) w.left ∙ append_assoc s.out w.more at_end.later;
  }

  pub put_records-Within :
      (records : List Record) (s t : Sink)
      → put_records records s ≡ ok t
      → Within buf t
      → Within buf s
  put_records-Within records s t e w =
      let (u, _, twins) = put_records-Twins s.out s.out refl records t (self s) e in
      Within-Twins s t u twins w

  pub put_questions-Within :
      (questions : List Question) (s : Sink) → Within buf (put_questions questions s) → Within buf s
  put_questions-Within questions s w =
      Within-Twins s _ _ (put_questions-Twins s.out s.out refl questions (self s)) w

  pub put_edns-Within : (e : Option Edns) (s : Sink) → Within buf (put_edns e s) → Within buf s
  put_edns-Within e s w = Within-Twins s _ _ (put_edns-Twins s.out s.out refl e (self s)) w
