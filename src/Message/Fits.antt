-- ===== src/Message/Fits.antt =====
-- src/message.rs: what `truncate_for_udp` leaves fits.
use recurse_x.Prelude.{
  ℕ, suc, ◌+◌, ◌-◌, ◌≤◌, ◌≡◌, refl, Bool, true, false, Bool-cases, inl, inr, max, Option, none,
  some, List, [], ◌∷◌, ◌++◌, leb, ltb, if◌then◌else◌, length, length-append, take, arith,
}
use recurse_x.Error.{Result, ok, err}
use recurse_x.Edns.{Edns, options_wire}
use recurse_x.Name.{root, is_root}
use recurse_x.Name.Compress.{NameCompressor, write, write_found, suffix_walk, find_hit}
use recurse_x.Wire.{to_be_bytes}
use recurse_x.Rdata.{Record}
use recurse_x.Rdata.ToWire.{Sink, push, put_name}
use recurse_x.Rdata.Records as Records
use recurse_x.Rdata.Grows.{
  Grows, Grows-compose, push-Grows, put_name-Grows, record-Grows, length-patch,
}
use recurse_x.Message.{HeaderFlags}
use recurse_x.Message.Sections.{Message, Question}
use recurse_x.Message.ToBytes.{
  header_sink, put_questions, put_records, put_edns, opt_wire, counts_wire, to_bytes, wire_len,
}
use recurse_x.Message.Truncate.{
  Fit, refused, fit_records, fit_next, fit_sections, opt_len, keep, set_tc, truncate_for_udp,
}

-- The accepted records of a section were written, one behind the other, and the sink is what they
-- left.
record Accepted (budget : ℕ) (records : List Record) (s : Sink) (f : Fit) : Type 0 where
  written : put_records (take f.count records) s ≡ ok f.sink
  grows : Grows s f.sink
  fits : length f.sink.out ≤ budget

Accepted-none :
    (budget : ℕ) (records : List Record) (s : Sink) (full : Bool)
    → length s.out ≤ budget
    → Accepted budget records s (record { count = 0; sink = s; full = full })
unfolding put_records
Accepted-none budget records s full h = record {
  written = refl;
  grows = record { longer = omega arith };
  fits = h;
}

fit_records-Accepted :
    (budget : ℕ) (records : List Record) (s : Sink)
    → length s.out ≤ budget
    → Accepted budget records s (fit_records budget records s)
unfolding fit_records put_records
fit_records-Accepted budget [] s h = Accepted-none budget [] s false h
fit_records-Accepted budget (r ∷ records) s h =
    by_write (λ s' h'. fit_records-Accepted budget records s' h') (Records.to_wire r s) refl
  where
    by_write :
        ((s' : Sink)
          → length s'.out ≤ budget
          → Accepted budget records s' (fit_records budget records s'))
        → (w : Result Sink) → Records.to_wire r s ≡ w
        → Accepted budget (r ∷ records) s (elim w [
          | err _ ↦ refused s
          | ok s' ↦
              let rest = fit_records budget records s' in
              if ltb budget (length s'.out)
              then refused s
              else record rest { count = suc rest.count }
        ])
    by_write more (err e) q = Accepted-none budget (r ∷ records) s true h
    by_write more (ok s') q = elim (Bool-cases (ltb budget (length s'.out))) [
      | inl over ↦ rw over (Accepted-none budget (r ∷ records) s true h)
      | inr inside ↦
          let rest = more s' (ground arith) in
          rw inside (record {
            written = rw q rest.written;
            grows = Grows-compose (record-Grows r s q) rest.grows;
            fits = rest.fits;
          })
    ]

fit_next-Accepted :
    (budget : ℕ) (records : List Record) (before : Fit)
    → length before.sink.out ≤ budget
    → Accepted budget records before.sink (fit_next budget records before)
unfolding fit_next
fit_next-Accepted budget records before h = elim (Bool-cases before.full) [
  | inl full ↦ rw full (Accepted-none budget records before.sink true h)
  | inr more ↦ rw more (fit_records-Accepted budget records before.sink h)
]

-- The root is never compressed, and no suffix of it is recorded.
pub put_name-root : (s : Sink) → put_name s root ≡ push s (0 ∷ [])
unfolding put_name push write write_found suffix_walk find_hit is_root
put_name-root s = by_comp s.comp s.out
  where
    by_comp :
        (c : Option NameCompressor) (out : List ℕ)
        → put_name (record { comp = c; out = out }) root
          ≡ push (record { comp = c; out = out }) (0 ∷ [])
    by_comp (some c) out = refl
    by_comp none out = refl

length-put_edns :
    (e : Option Edns) (s : Sink) → length (put_edns e s).out ≡ length s.out + opt_len e
unfolding put_edns opt_len
length-put_edns none s = omega arith
length-put_edns (some e) s =
    let size : length (opt_wire e) ≡ 10 + length (options_wire e.options) =
      unfold opt_wire to_be_bytes in omega arith in
    rw (put_name-root s) (
      unfold push in
      omega
        (arith, size, length-append (s.out ++ 0 ∷ []) (opt_wire e), length-append s.out (0 ∷ [])))

put_questions-Grows : (questions : List Question) (s : Sink) → Grows s (put_questions questions s)
unfolding put_questions
put_questions-Grows [] s = record { longer = omega arith }
put_questions-Grows (q ∷ questions) s =
    Grows-compose (put_name-Grows s q.qname)
      (Grows-compose (push-Grows (put_name s q.qname) _) (put_questions-Grows questions _))

length-header_sink : (id : ℕ) (flags : HeaderFlags) → length (header_sink id flags).out ≡ 12
unfolding header_sink to_be_bytes
length-header_sink id flags = refl

abbrev pub start : Message → Sink
start m = put_questions m.questions (header_sink m.id m.flags)

-- A message whose sections can be written is written: the counts always have their place.
to_bytes-written :
    (m : Message) (s s' s'' : Sink)
    → put_records m.answers (start m) ≡ ok s
    → put_records m.authorities s ≡ ok s'
    → put_records m.additionals s' ≡ ok s''
    → Grows (start m) s''
    → (b : List ℕ) × (to_bytes m ≡ ok b) × (length b ≡ length s''.out + opt_len m.edns)
unfolding to_bytes
to_bytes-written m s s' s'' e e' e'' g =
    let header = put_questions-Grows m.questions (header_sink m.id m.flags) in
    let size = length-put_edns m.edns s'' in
    let room : 4 + length (counts_wire m) ≤ length (put_edns m.edns s'').out =
      unfold counts_wire to_be_bytes in
      omega (arith, size, g.longer, header.longer, length-header_sink m.id m.flags) in
    let (b, patched, same) = length-patch (put_edns m.edns s'').out 4 (counts_wire m) room in
    (b, rw (e, e', e'', patched) refl, omega (arith, same, size))

wire_len-ok : (m : Message) (b : List ℕ) → to_bytes m ≡ ok b → wire_len m ≡ length b
unfolding wire_len
wire_len-ok m b e = rw (wire_len, e) refl

keep-fits :
    (m : Message) (limit : ℕ)
    → length (start m).out + opt_len m.edns ≤ limit
    → wire_len (keep m (fit_sections m limit)) ≤ limit
unfolding keep fit_sections
keep-fits m limit h =
    let budget = limit - opt_len m.edns in
    let first = fit_records-Accepted budget m.answers (start m) (omega arith) in
    let f = fit_records budget m.answers (start m) in
    let second = fit_next-Accepted budget m.authorities f first.fits in
    let f' = fit_next budget m.authorities f in
    let third = fit_next-Accepted budget m.additionals f' second.fits in
    let f'' = fit_next budget m.additionals f' in
    let (b, e, size) =
      to_bytes-written (keep m (f, f', f'')) f.sink f'.sink f''.sink first.written second.written
        third.written (Grows-compose first.grows (Grows-compose second.grows third.grows)) in
    let len : wire_len (keep m (fit_sections m limit)) ≡ length b =
      wire_len-ok (keep m (f, f', f'')) b e in
    omega (arith, len, size, third.fits)

-- After truncation the message can be serialized and its wire form has at most the limit, of at
-- least 512 bytes, where the header, the questions and the OPT record alone do.
pub truncate_for_udp-fits :
    (m : Message) (limit : ℕ)
    → length (start (set_tc m)).out + opt_len m.edns ≤ max limit 512
    → wire_len (truncate_for_udp m limit) ≤ max limit 512
unfolding truncate_for_udp set_tc
truncate_for_udp-fits m limit h = elim (Bool-cases (leb (wire_len m) (max limit 512))) [
  | inl small ↦ rw small (ground arith)
  | inr large ↦ rw large (keep-fits (set_tc m) (max limit 512) h)
]
