-- ===== src/Message/WireTrip.antt =====
-- src/message.rs: a message, serialized and parsed again.
use mathlib.Core.Path.{subst}
use recurse_x.Prelude.{
  ℕ, ◌+◌, ◌%◌, ◌^◌, ◌≤◌, ◌<◌, ◌≡◌, refl, sym, ap, ◌∙◌, Bool, false, ◌||◌, Option, some, List, [],
  ◌∷◌, ◌++◌, length, length-append, ltb, ◌==◌, append-nil, append_assoc, All, arith,
}
use recurse_x.Error.{ok, >>=-eq-ok, ok-injective, ok_or, Error}
use recurse_x.Wire.{IsByte, usize_limit, to_be_bytes, u16_at}
use recurse_x.Wire.Holds.{Holds, Holds-left, u16_at-Holds}
use recurse_x.Name.Compress as Compress
use recurse_x.Rdata.ToWire.{Sink}
use recurse_x.Rdata.Records.{patch}
use recurse_x.Rdata.Sinks.{Within, Within-le, Within-end}
use recurse_x.Rdata.Twins.{Twins, patch-Twins}
use recurse_x.Rdata.Readers.{Holds-word}
use recurse_x.Rdata.RecordTrip.{IsRecord}
use recurse_x.Message.{HeaderFlags, to_u16}
use recurse_x.Message.Flags.{bit, word, to_u16-word}
use recurse_x.Message.RoundTrip.{from_u16-to_u16}
use recurse_x.Message.Sections.{Message}
use recurse_x.Message.Parse.{max_questions, max_section_records, parse}
use recurse_x.Message.ToBytes.{
  header_sink, put_questions, put_records, put_edns, edns_count, counts_wire, to_bytes,
}
use recurse_x.Message.Chains.{
  put_questions-Twins, put_records-Twins, put_edns-Twins, put_records-Within, put_questions-Within,
  put_edns-Within,
}
use recurse_x.Message.ReadBack.{IsQuestion, questions-read, records-read, additionals-read}
use recurse_x.Message.OptTrip.{AllEdns, unpadded_edns, edns-read}

-- A message that can be read back: the sections have at most the numbers of entries that the parser
-- takes, and every field is in range. No additional record is an OPT record.
pub record IsMessage (m : Message) : Type 0 where
  pub id : m.id < 2 ^ 16
  pub opcode : m.flags.opcode.code < 16
  pub rcode : m.flags.rcode.code < 16
  pub questions : All IsQuestion m.questions
  pub answers : All IsRecord m.answers
  pub authorities : All IsRecord m.authorities
  pub additionals : All (λ r. IsRecord r × ((r.rr_type.code == 41) ≡ false)) m.additionals
  pub edns : AllEdns m.edns
  pub few_questions : length m.questions ≤ max_questions
  pub few_answers : length m.answers ≤ max_section_records
  pub few_authorities : length m.authorities ≤ max_section_records
  pub few_additionals : length m.additionals + edns_count m.edns ≤ max_section_records

to_u16-lt : (f : HeaderFlags) → to_u16 f < 2 ^ 16
unfolding word
to_u16-lt f =
    let b : (v : Bool) → bit v < 2 = λ v. ground arith in
    rw (to_u16-word f) (omega (arith, b f.qr, b f.aa, b f.tc, b f.rd, b f.ra, b f.ad, b f.cd))

-- The header with the counts already in it.
abbrev counted_sink : Message → Sink
counted_sink m = record {
  comp = some Compress.new;
  out = (to_be_bytes 2 m.id ++ to_be_bytes 2 (to_u16 m.flags)) ++ counts_wire m;
}

-- The stages of a message: its bytes are what the writers leave behind the header with the counts.
record Stages (m : Message) (b : List ℕ) : Type 0 where
  s : Sink
  s' : Sink
  s'' : Sink
  answers : put_records m.answers (put_questions m.questions (counted_sink m)) ≡ ok s
  authorities : put_records m.authorities s ≡ ok s'
  additionals : put_records m.additionals s' ≡ ok s''
  whole : b ≡ (put_edns m.edns s'').out

-- The bytes that were patched, where the place was there.
patched_out :
    {x b : List ℕ} (o : Option (List ℕ)) (e : Error) → o ≡ some x → ok_or o e ≡ ok b → b ≡ x
patched_out o e p h = ok-injective (sym (rw p at h))

to_bytes-Stages : (m : Message) (b : List ℕ) → to_bytes m ≡ ok b → Stages m b
unfolding to_bytes
to_bytes-Stages m b e =
    let front = to_be_bytes 2 m.id ++ to_be_bytes 2 (to_u16 m.flags) in
    let zeros : List ℕ = 0 ∷ 0 ∷ 0 ∷ 0 ∷ 0 ∷ 0 ∷ 0 ∷ 0 ∷ [] in
    let counts = counts_wire m in
    let h = front ++ zeros in
    let g = front ++ counts in
    let eight : length zeros ≡ length counts = unfold counts_wire to_be_bytes in refl in
    let four : length front ≡ 4 = unfold to_be_bytes in refl in
    let same : length h ≡ length g =
      omega (arith, eight, length-append front zeros, length-append front counts) in
    let begin : Twins h g (header_sink m.id m.flags) (counted_sink m) =
      unfold header_sink to_be_bytes in
      record { more = []; comp = refl; left = refl; right = sym (append-nil g) } in
    let asked = put_questions-Twins h g same m.questions begin in
    let (s, e1, rest1) = >>=-eq-ok (put_records m.answers _) _ e in
    let (s', e2, rest2) = >>=-eq-ok (put_records m.authorities s) _ rest1 in
    let (s'', e3, rest3) = >>=-eq-ok (put_records m.additionals s') _ rest2 in
    let (t, f1, w1) = put_records-Twins h g same m.answers s asked e1 in
    let (t', f2, w2) = put_records-Twins h g same m.authorities s' w1 e2 in
    let (t'', f3, w3) = put_records-Twins h g same m.additionals s'' w2 e3 in
    let last = put_edns-Twins h g same m.edns w3 in
    let patched : patch (put_edns m.edns s'').out 4 counts ≡ some (put_edns m.edns t'').out =
      subst (λ k. patch (put_edns m.edns s'').out k counts ≡ some (put_edns m.edns t'').out) four
        (patch-Twins front zeros counts (put_edns m.edns s'') (put_edns m.edns t'') eight last) in
    record {
      s = t;
      s' = t';
      s'' = t'';
      answers = f1;
      authorities = f2;
      additionals = f3;
      whole = patched_out (patch (put_edns m.edns s'').out 4 counts) _ patched rest3;
    }

-- The counts of a header, read at their places.
record Counts (m : Message) (b : List ℕ) : Type 0 where
  id : u16_at b 0 ≡ ok m.id
  flags : u16_at b 2 ≡ ok (to_u16 m.flags)
  questions : u16_at b 4 ≡ ok (length m.questions)
  answers : u16_at b 6 ≡ ok (length m.answers)
  authorities : u16_at b 8 ≡ ok (length m.authorities)
  additionals : u16_at b 10 ≡ ok (length m.additionals + edns_count m.edns)

word_at-Holds :
    (buf : List ℕ) (p n : ℕ) (ys : List ℕ)
    → length buf < usize_limit
    → n < 2 ^ 16
    → Holds buf p (to_be_bytes 2 n ++ ys)
    → u16_at buf p ≡ ok n
word_at-Holds buf p n ys room small h =
    u16_at-Holds buf room p n small (Holds-left buf p (to_be_bytes 2 n) ys h)

header-Counts :
    (m : Message) (b : List ℕ)
    → IsMessage m
    → length b < usize_limit
    → Within b (counted_sink m)
    → Counts m b
header-Counts m b is room w =
    let n4 : length m.questions % 2 ^ 16 ≡ length m.questions = omega (arith, is.few_questions) in
    let n6 : length m.answers % 2 ^ 16 ≡ length m.answers = omega (arith, is.few_answers) in
    let n8 : length m.authorities % 2 ^ 16 ≡ length m.authorities =
      omega (arith, is.few_authorities) in
    let n10 : (length m.additionals + edns_count m.edns) % 2 ^ 16
        ≡ length m.additionals + edns_count m.edns =
      omega (arith, is.few_additionals) in
    let shape : counts_wire m
        ≡ to_be_bytes 2 (length m.questions)
          ++ (to_be_bytes 2 (length m.answers)
              ++ (to_be_bytes 2 (length m.authorities)
                  ++ to_be_bytes 2 (length m.additionals + edns_count m.edns))) =
      unfold counts_wire in rw (n4, n6, n8, n10) refl in
    let h0 : Holds b 0 (to_be_bytes 2 m.id ++ (to_be_bytes 2 (to_u16 m.flags) ++ counts_wire m)) =
      record {
        front = [];
        rest = w.later;
        split =
            w.split
            ∙ ap (λ x. x ++ w.later)
                (append_assoc (to_be_bytes 2 m.id) (to_be_bytes 2 (to_u16 m.flags))
                  (counts_wire m));
        place = refl;
      } in
    let h2 = Holds-word b 0 2 2 m.id _ (omega arith) h0 in
    let h4 = rw shape at (Holds-word b 2 4 2 (to_u16 m.flags) _ (omega arith) h2) in
    let h6 = Holds-word b 4 6 2 (length m.questions) _ (omega arith) h4 in
    let h8 = Holds-word b 6 8 2 (length m.answers) _ (omega arith) h6 in
    let h10 = Holds-word b 8 10 2 (length m.authorities) _ (omega arith) h8 in
    record {
      id = word_at-Holds b 0 m.id _ room is.id h0;
      flags = word_at-Holds b 2 (to_u16 m.flags) _ room (to_u16-lt m.flags) h2;
      questions =
          word_at-Holds b 4 (length m.questions) _ room (omega (arith, is.few_questions)) h4;
      answers = word_at-Holds b 6 (length m.answers) _ room (omega (arith, is.few_answers)) h6;
      authorities =
          word_at-Holds b 8 (length m.authorities) _ room (omega (arith, is.few_authorities)) h8;
      additionals = u16_at-Holds b room 10 _ (omega (arith, is.few_additionals)) h10;
    }

-- Parsing what `to_bytes` returns gives the message back: every question, every record of the three
-- sections, the flags and the EDNS fields and options, but that padding loses its length. The message's
-- fields fit, its sections have at most the entries that the parser takes, the bitmaps of its NSEC and
-- NSEC3 records are empty, and its bytes are bytes, with room in `usize`.
pub parse-to_bytes :
    (m : Message) (b : List ℕ)
    → IsMessage m
    → to_bytes m ≡ ok b
    → All IsByte b
    → length b + 256 ≤ usize_limit
    → parse b ≡ ok (record m { edns = unpadded_edns m.edns })
unfolding parse
parse-to_bytes m b is e bytes roomy =
    let st = to_bytes-Stages m b e in
    let asked = put_questions m.questions (counted_sink m) in
    let w_end : Within b (put_edns m.edns st.s'') =
      rw (st.whole) (Within-end (put_edns m.edns st.s'')) in
    let w3 = put_edns-Within b m.edns st.s'' w_end in
    let w2 = put_records-Within b m.additionals st.s' st.s'' st.additionals w3 in
    let w1 = put_records-Within b m.authorities st.s st.s' st.authorities w2 in
    let w0 = put_records-Within b m.answers asked st.s st.answers w1 in
    let w = put_questions-Within b m.questions (counted_sink m) w0 in
    let c = header-Counts m b is (omega arith) w in
    let (read_q, t0) =
      questions-read b bytes roomy m.questions (counted_sink m) is.questions tt w0 in
    let (read_an, t1) =
      records-read b bytes roomy m.answers asked st.s is.answers t0 st.answers w1 in
    let (read_ns, t2) =
      records-read b bytes roomy m.authorities st.s st.s' is.authorities t1 st.authorities w2 in
    let read_ar =
      additionals-read b bytes roomy m.additionals (edns_count m.edns) st.s' st.s''
        (unpadded_edns m.edns) is.additionals t2 st.additionals w3
        (λ t3. edns-read b bytes roomy m.edns st.s'' is.edns t3 w_end) in
    let twelve : length (counted_sink m).out ≡ 12 = unfold counts_wire to_be_bytes in refl in
    let long : ltb (length b) 12 ≡ false = ground (arith, twelve, Within-le b (counted_sink m) w) in
    let few : ltb max_questions (length m.questions)
          || ltb max_section_records (length m.answers)
          || ltb max_section_records (length m.authorities)
          || ltb max_section_records (length m.additionals + edns_count m.edns)
        ≡ false =
      ground (arith, is.few_questions, is.few_answers, is.few_authorities, is.few_additionals) in
    let flags = from_u16-to_u16 m.flags is.opcode is.rcode in
    rw
      (
        long,
        c.id,
        c.flags,
        c.questions,
        c.answers,
        c.authorities,
        c.additionals,
        few,
        (rw twelve at read_q),
        read_an,
        read_ns,
        read_ar,
        flags,
      )
      refl
